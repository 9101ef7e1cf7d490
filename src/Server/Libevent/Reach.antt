-- ===== src/Server/Libevent/Reach.antt =====
-- What is true of the server after any events of the libevent loop.
use graphserv.Prelude.{
  ℕ, ◌≡◌, inl, inr, ◌==◌, Bool, true, Bool-cases, Option-cases, Text, List, [], ◌∷◌, ◌++◌, Option,
  none, some,
}
use graphserv.Prelude.Assoc.{find}
use graphserv.External.{Env}
use graphserv.Outcome.{Post, bind-Post, Post-ok, ok, ◌>>=◌}
use graphserv.Core.{CoreInstance}
use graphserv.Session.{ConnectionType}
use graphserv.Server.{Graphserv, Ctx}
use graphserv.Server.Loop.{
  Received, closed, io_error, bytes, set_linebuf, count_line, client_line, remove_cores,
}
use graphserv.Server.Loop.Round.{create, set_time}
use graphserv.Server.Loop.Safety.{IsSafe, IsSafeFor, put_session-IsSafe}
use graphserv.Server.Loop.Clients.{
  session-IsSafe, linebuf-IsSafe, counted-IsSafe, line-IsSafe, write-IsSafe,
}
use graphserv.Server.Loop.Cores.{core_bytes-IsSafe, write_core-IsSafe, remove_cores-IsSafe}
use graphserv.Server.Loop.Ends.{remove_session-IsSafe}
use graphserv.Server.Loop.Reach.{set_time-IsSafe, create_session-IsSafe, create-IsSafe}
use graphserv.Server.Libevent.{
  Event, connect, session_readable, session_writable, core_readable, core_writable, event_bytes,
  cb_session_readable, cb_core_readable, cb_connect, handle, dispatch,
}

module _ (env : Env) where
  bytes-IsSafe : (b : Text) (c : Ctx) → IsSafeFor env c → Post (IsSafeFor env) (event_bytes env b c)
  unfolding event_bytes
  bytes-IsSafe [] c s = s
  bytes-IsSafe (b ∷ rest) c s =
      let c₁ = set_linebuf (c.sc.linebuf ++ b ∷ []) c in
      let s₁ = linebuf-IsSafe env (c.sc.linebuf ++ b ∷ []) c s in
      elim (Bool-cases (b == 13)) [
        | inl e ↦ rw (event_bytes, e) (bytes-IsSafe rest c s)
        | inr e ↦ elim (Bool-cases (b == 10)) [
          | inr n ↦ rw (event_bytes, e, n) (bytes-IsSafe rest c₁ s₁)
          | inl n ↦
              rw (event_bytes, e, n)
                (bind-Post (IsSafeFor env) (IsSafeFor env) (client_line env (count_line c₁)) _
                  (line-IsSafe env (count_line c₁) (counted-IsSafe env c₁ s₁))
                  (λ c₂ s₂. bytes-IsSafe rest (set_linebuf [] c₂) (linebuf-IsSafe env [] c₂ s₂)))
        ]
      ]

  session-readable-IsSafe :
      (r : Received) (c : Ctx) → IsSafeFor env c → Post (IsSafe env) (cb_session_readable env r c)
  unfolding cb_session_readable
  session-readable-IsSafe closed c s = remove_session-IsSafe env c.sc.client_id c.app s.server
  session-readable-IsSafe io_error c s = remove_session-IsSafe env c.sc.client_id c.app s.server
  session-readable-IsSafe (bytes b) c s =
      bind-Post (IsSafeFor env) (IsSafe env) (event_bytes env b c) _ (bytes-IsSafe b c s)
        (λ c₁ s₁. put_session-IsSafe env c₁ s₁)

  core-readable-IsSafe :
      (r : Received) (core : CoreInstance) (app : Graphserv)
      → IsSafe env app
      → Post (IsSafe env) (cb_core_readable env r core app)
  unfolding cb_core_readable remove_cores
  core-readable-IsSafe closed core app s = remove_cores-IsSafe env (core ∷ []) app s
  core-readable-IsSafe io_error core app s = remove_cores-IsSafe env (core ∷ []) app s
  core-readable-IsSafe (bytes b) core app s = core_bytes-IsSafe env core.instance_id b app s

  connect-IsSafe :
      (type : ConnectionType) (sock : Option ℕ) (close_on_exec : Bool) (app : Graphserv)
      → IsSafe env app
      → IsSafe env (cb_connect env type sock close_on_exec app)
  unfolding cb_connect
  connect-IsSafe type none close_on_exec app s = s
  connect-IsSafe type (some sock) close_on_exec app s =
      create_session-IsSafe env close_on_exec type sock app s

  handle-IsSafe :
      (e : Event) (app : Graphserv) → IsSafe env app → Post (IsSafe env) (handle env e app)
  unfolding handle
  handle-IsSafe (connect type sock close_on_exec) app s =
      connect-IsSafe type sock close_on_exec app s
  handle-IsSafe (session_readable id r) app s = elim (Option-cases (find id app.session_contexts)) [
    | inl e ↦ rw (handle, e) s
    | inr (sc, e) ↦
        rw (handle, e)
          (session-readable-IsSafe r (record { app = app; sc = sc })
            (session-IsSafe env id sc app e s))
  ]
  handle-IsSafe (session_writable id) app s = write-IsSafe env true id app s
  handle-IsSafe (core_readable id r) app s = elim (Option-cases (find id app.core_instances)) [
    | inl e ↦ rw (handle, e) s
    | inr (core, e) ↦ rw (handle, e) (core-readable-IsSafe r core app s)
  ]
  handle-IsSafe (core_writable id) app s = write_core-IsSafe env true id app s

  dispatch-IsSafe :
      (events : List (ℕ × Event)) (app : Graphserv)
      → IsSafe env app
      → Post (IsSafe env) (dispatch env events app)
  unfolding dispatch
  dispatch-IsSafe [] app s = s
  dispatch-IsSafe ((time, event) ∷ rest) app s =
      bind-Post (IsSafe env) (IsSafe env) (handle env event (set_time time app)) (dispatch env rest)
        (handle-IsSafe event (set_time time app) (set_time-IsSafe env time app s))
        (λ app₁ s₁. dispatch-IsSafe rest app₁ s₁)

  -- After any events of the libevent loop of a server that has just been started, as long as no call
  -- exits or has undefined behaviour, the same holds as after rounds of the other loop: instances
  -- and sessions stand under their own IDs, in ascending order; no instance expects a status line
  -- and a data set at once, and running ones have different names; sessions have their levels from the credential
  -- files; and the cached table is empty or was read from the files.
  pub dispatch_all-IsSafe :
      (tcp_port http_port : ℕ) (core_path : Text) (now : ℕ) (events : List (ℕ × Event))
      (app : Graphserv)
      → (create env tcp_port http_port core_path now >>= dispatch env events) ≡ ok app
      → IsSafe env app
  dispatch_all-IsSafe tcp_port http_port core_path now events app e =
      Post-ok (IsSafe env) (create env tcp_port http_port core_path now >>= dispatch env events)
        (bind-Post (IsSafe env) (IsSafe env) (create env tcp_port http_port core_path now)
          (dispatch env events) (create-IsSafe env tcp_port http_port core_path now)
          (λ app₁ s. dispatch-IsSafe events app₁ s))
        e
