-- ===== src/Server/Libevent.antt =====
-- The callbacks of mainloop_libevent of src/servapp.h, and the loop that calls them. libevent chooses
-- the events; the session or the instance of a descriptor is given by its ID. The loop does not flush
-- the queues of the instances, does not look at clientsToRemove or at quit, and does not end.
pub mod Reach
pub mod Stalled
pub mod Framing
use graphserv.Prelude.{
  ℕ, ◌==◌, if◌then◌else◌, Bool, true, false, Text, List, [], ◌∷◌, ◌++◌, Option, none, some,
}
use graphserv.Prelude.Assoc.{find}
use graphserv.External.{Env}
use graphserv.Outcome.{Outcome, ok, ◌>>=◌}
use graphserv.Core.{CoreInstance}
use graphserv.Session.{SessionContext, ConnectionType}
use graphserv.Server.{Graphserv, Ctx, create_session, remove_core_instance}
use graphserv.Server.Loop.{
  Received, closed, io_error, bytes, put_session, set_linebuf, count_line, client_line, core_bytes,
  remove_session,
}
use graphserv.Server.Loop.Round.{set_time, write_client, write_core}

pub data Event : Type 0 where
  -- a connection on a listening socket: its descriptor, if accept answers one, and closeOnExec
  connect : ConnectionType → Option ℕ → Bool → Event
  session_readable : ℕ → Received → Event
  session_writable : ℕ → Event
  core_readable : ℕ → Received → Event
  core_writable : ℕ → Event

module _ (env : Env) where
  -- the loop over the bytes; it goes on for a client that is to be disconnected
  unfoldable pub event_bytes : Text → Ctx → Outcome Ctx
  unfolding set_linebuf count_line
  event_bytes [] c = ok c
  event_bytes (b ∷ rest) c =
      let c₁ = set_linebuf (c.sc.linebuf ++ b ∷ []) c in
      elim (b == 13) [
        | true ↦ event_bytes rest c
        | false ↦ elim (b == 10) [
          | false ↦ event_bytes rest c₁
          | true ↦ client_line env (count_line c₁) >>= λ c₂. event_bytes rest (set_linebuf [] c₂)
        ]
      ]

  -- cb_sessionReadable: a session whose connection has ended is removed at once
  unfoldable pub cb_session_readable : Received → Ctx → Outcome Graphserv
  unfolding event_bytes
  cb_session_readable closed c = ok (remove_session env c.sc.client_id c.app)
  cb_session_readable io_error c = ok (remove_session env c.sc.client_id c.app)
  cb_session_readable (bytes b) c = event_bytes b c >>= λ c₁. ok (put_session c₁)

  -- cb_coreReadable
  unfoldable pub cb_core_readable : Received → CoreInstance → Graphserv → Outcome Graphserv
  cb_core_readable closed core app = ok (remove_core_instance core app)
  cb_core_readable io_error core app = ok (remove_core_instance core app)
  cb_core_readable (bytes b) core app = core_bytes env core.instance_id b app

  -- cb_connect; what fails is only logged
  unfoldable pub cb_connect : ConnectionType → Option ℕ → Bool → Graphserv → Graphserv
  cb_connect type none close_on_exec app = app
  cb_connect type (some sock) close_on_exec app = create_session close_on_exec type sock app

  -- one callback
  unfoldable pub handle : Event → Graphserv → Outcome Graphserv
  unfolding cb_session_readable cb_core_readable cb_connect
  handle (connect type sock close_on_exec) app = ok (cb_connect type sock close_on_exec app)
  handle (session_readable id received) app = elim (find id app.session_contexts) [
    | none ↦ ok app
    | some sc ↦ cb_session_readable received (record { app = app; sc = sc })
  ]
  handle (session_writable id) app = ok (write_client env true id app)
  handle (core_readable id received) app = elim (find id app.core_instances) [
    | none ↦ ok app
    | some core ↦ cb_core_readable received core app
  ]
  handle (core_writable id) app = ok (write_core env true id app)

  -- the loop, with the events at their times
  unfoldable pub dispatch : List (ℕ × Event) → Graphserv → Outcome Graphserv
  unfolding handle set_time
  dispatch [] app = ok app
  dispatch ((time, event) ∷ rest) app = handle event (set_time time app) >>= dispatch rest
