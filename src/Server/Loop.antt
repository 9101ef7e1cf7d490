-- ===== src/Server/Loop.antt =====
-- The parts of mainloop_select of src/servapp.h: what happens to the server at each event, and at the
-- ends of a round. select itself chooses the events.
pub mod Sets
pub mod Round
pub mod Safety
pub mod Clients
pub mod Cores
pub mod Ends
pub mod Reach
pub mod Isolation
pub mod Delivery
pub mod Framing
pub mod Removal
pub mod Endings
pub mod Accepting
pub mod Signals
use graphserv.Prelude.{
  ℕ, zero, suc, ◌-◌, ◌==◌, ltb, if◌then◌else◌, Bool, true, false, ◌&&◌, not, Text, List, [], ◌∷◌,
  ◌++◌, none, some, map,
}
use graphserv.Prelude.Assoc.{find, update, erase, member, add}
use graphserv.External.{Env}
use graphserv.Outcome.{Outcome, ok, ◌>>=◌}
use graphserv.Writer.{write_buffer_empty}
use graphserv.Writer
use graphserv.Core.{
  CoreInstance, Forward, update_last_client_command, find_last_client_command, flush_command_q,
  take_line, has_data_for_client,
}
use graphserv.Core.Entry.{CommandQEntry, append_to_dataset}
use graphserv.Session.{SessionContext, conn_tcp, conn_http, reset_stats}
use graphserv.Server.{
  Graphserv, Ctx, find_client, find_instance, put_core_instance, remove_core_instance,
  shutdown_client, force_client_disconnect, is_waiting_for_core_reply, next_id,
}
use graphserv.Server.Forwarding.{deliver}
use graphserv.Server.Dispatch.{line_from_client, replay_lines}
use graphserv.Server.Http.{line_from_http_client}

-- What recv or read answers.
pub data Received : Type 0 where
  closed : Received
  io_error : Received
  bytes : Text → Received

-- the session of a reference goes back to the map
unfoldable pub put_session : Ctx → Graphserv
put_session c = record c.app {
  session_contexts = update c.sc.client_id c.sc c.app.session_contexts;
}

unfoldable pub set_linebuf : Text → Ctx → Ctx
set_linebuf line c = record c { sc = record c.sc { linebuf = line } }

unfoldable pub count_line : Ctx → Ctx
count_line c = record c {
  app = record c.app { lines_from_clients = next_id c.app.lines_from_clients };
}

module _ (env : Env) where
  -- a complete line in linebuf
  unfoldable pub client_line : Ctx → Outcome Ctx
  client_line c = elim c.sc.connection_type [
    | conn_tcp ↦ line_from_client env false c.sc.linebuf c
    | conn_http ↦ line_from_http_client env c.sc.linebuf c
  ]

  -- the loop over the bytes that were received
  unfoldable pub client_bytes : Text → Ctx → Outcome Ctx
  unfolding set_linebuf count_line client_line
  client_bytes [] c = ok c
  client_bytes (b ∷ rest) c =
      let c₁ = set_linebuf (c.sc.linebuf ++ b ∷ []) c in
      elim (b == 13) [
        | true ↦ client_bytes rest c
        | false ↦ elim (b == 10) [
          | false ↦ client_bytes rest c₁
          | true ↦ elim (member c.sc.client_id c.app.clients_to_remove) [
            | true ↦ ok c₁
            | false ↦ client_line (count_line c₁) >>= λ c₂. client_bytes rest (set_linebuf [] c₂)
          ]
        ]
      ]

  -- a session whose socket is readable
  unfoldable pub client_readable : Received → Ctx → Outcome Graphserv
  client_readable closed c =
      ok (record c.app { clients_to_remove = add c.sc.client_id c.app.clients_to_remove })
  client_readable io_error c =
      ok (record c.app { clients_to_remove = add c.sc.client_id c.app.clients_to_remove })
  client_readable (bytes b) c = client_bytes b c >>= λ c₁. ok (put_session c₁)

  -- a session whose socket is writable
  unfoldable pub client_writable : Ctx → Graphserv
  client_writable c =
      let f = Writer.flush env c.sc.writer in
      put_session (record {
        app = if f.write_failed then force_client_disconnect c.sc.client_id c.app else c.app;
        sc = record c.sc { writer = f.writer };
      })

  -- the client's side of a line from a core, and its queued lines if it was waiting for this one
  unfoldable pub answer_client : Forward → Text → Bool → Ctx → Outcome Graphserv
  answer_client forward line was_waiting c =
      let c₁ = deliver env forward line c in
      (if was_waiting then replay_lines env c₁ else ok c₁) >>= λ c₂. ok (put_session c₂)

  -- a complete line in the linebuf of a core
  unfoldable pub core_line : CoreInstance → Graphserv → Outcome Graphserv
  core_line core app =
      let (core₁, forward) = take_line env core.linebuf core in
      let app₁ = put_core_instance (record core₁ { linebuf = [] }) app in
      elim (find_client core.last_client_id app) [
        | none ↦ ok app₁
        | some sc ↦
            answer_client forward core.linebuf
              (is_waiting_for_core_reply (record { app = app; sc = sc }))
              (record { app = app₁; sc = sc })
      ]

  -- one byte from the core
  unfoldable pub core_byte : ℕ → CoreInstance → Graphserv → Outcome Graphserv
  core_byte b core app =
      let core₁ = record core { linebuf = core.linebuf ++ b ∷ [] } in
      if b == 13
      then ok app
      else if b == 10
      then core_line core₁ (put_core_instance core₁ app)
      else ok (put_core_instance core₁ app)

  -- the loop over the bytes that the core with the ID has sent
  unfoldable pub core_bytes : ℕ → Text → Graphserv → Outcome Graphserv
  unfolding core_byte
  core_bytes id [] app = ok app
  core_bytes id (b ∷ rest) app = elim (find id app.core_instances) [
    | none ↦ ok app
    | some core ↦ core_byte b core app >>= core_bytes id rest
  ]

  -- a core whose output is readable; `true` puts it on the list coresToRemove
  unfoldable pub core_readable : Received → CoreInstance → Graphserv → Outcome (Graphserv × Bool)
  core_readable closed core app = ok (app, true)
  core_readable io_error core app = ok (app, true)
  core_readable (bytes b) core app = core_bytes core.instance_id b app >>= λ app₁. ok (app₁, false)

  -- the instances on that list are removed behind the loop over the cores
  unfoldable pub remove_cores : List CoreInstance → Graphserv → Graphserv
  remove_cores [] app = app
  remove_cores (core ∷ rest) app = remove_cores rest (remove_core_instance core app)

  -- the open data set of a client that goes is terminated by "\n\n"
  unfoldable pub terminate_dataset : CommandQEntry → CommandQEntry
  terminate_dataset e = append_to_dataset env (10 ∷ 10 ∷ []) e

  unfoldable pub close_dataset : ℕ → CoreInstance → Graphserv → Graphserv
  unfolding terminate_dataset
  close_dataset id core app = elim (find_last_client_command id core.command_q) [
    | none ↦ app
    | some e ↦
        if e.accepts_data && not e.data_finished
        then put_core_instance
            (record core {
              command_q = update_last_client_command id terminate_dataset core.command_q;
            })
            app
        else app
  ]

  -- the session's core, if it has one that runs
  unfoldable pub release_core : SessionContext → Graphserv → Graphserv
  unfolding close_dataset
  release_core sc app = elim sc.core_id [
    | zero ↦ app
    | suc n ↦ elim (find_instance sc.core_id app) [
      | none ↦ app
      | some core ↦ close_dataset sc.client_id core app
    ]
  ]

  -- removeSession; the command that was being transferred goes with the session
  unfoldable pub remove_session : ℕ → Graphserv → Graphserv
  unfolding release_core
  remove_session id app = elim (find id app.session_contexts) [
    | none ↦ app
    | some sc ↦
        let app₁ = release_core sc app in
        record app₁ { session_contexts = erase id app₁.session_contexts }
  ]

  unfoldable pub remove_all : List ℕ → Graphserv → Graphserv
  remove_all [] app = app
  remove_all (id ∷ rest) app = remove_all rest (remove_session id app)

  -- deferred removal of clients
  unfoldable pub remove_clients : Graphserv → Graphserv
  unfolding remove_all
  remove_clients app = record (remove_all app.clients_to_remove app) { clients_to_remove = [] }

  -- the statistics of a session are reset every ten seconds
  unfoldable pub refresh_stats : ℕ → SessionContext → SessionContext
  refresh_stats now sc =
      if ltb 10 (now - sc.stats.last_time) then record sc { stats = reset_stats now } else sc

  -- the queue of every core is flushed
  unfoldable pub flush_cores : List (ℕ × CoreInstance) → List (ℕ × CoreInstance)
  flush_cores [] = []
  flush_cores ((id, core) ∷ rest) = (id, flush_command_q env core) ∷ flush_cores rest

  -- the start of a round, up to the call of select
  unfoldable pub start_round : Graphserv → Graphserv
  unfolding refresh_stats flush_cores
  start_round app =
      let app₁ = remove_clients app in
      record app₁ {
        session_contexts = map (λ p. (p.0, refresh_stats app₁.now p.1)) app₁.session_contexts;
        core_instances = flush_cores app₁.core_instances;
      }

  -- An HTTP client whose answer is complete and written is to be disconnected.
  unfoldable pub is_done : Ctx → Bool
  is_done c = elim c.sc.connection_type [
    | conn_tcp ↦ false
    | conn_http ↦
        c.sc.conversation_finished
        && write_buffer_empty c.sc.writer
        && elim (find_instance c.sc.core_id c.app) [
          | none ↦ true
          | some core ↦ not (has_data_for_client c.sc.client_id core)
        ]
        && c.sc.shutdown_time == 0
  ]

  -- the pass over the sessions at the end of a round
  unfoldable pub finish_loop : List (ℕ × SessionContext) → Graphserv → Graphserv
  finish_loop [] app = app
  finish_loop ((id, sc) ∷ rest) app =
      let c : Ctx = record { app = app; sc = sc } in
      finish_loop rest (if is_done c then put_session (shutdown_client env c) else app)

  unfoldable pub finish_round : Graphserv → Graphserv
  unfolding finish_loop
  finish_round app = finish_loop app.session_contexts app
