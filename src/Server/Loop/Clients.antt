-- ===== src/Server/Loop/Clients.antt =====
-- The safety of the pass over the sessions.
use graphserv.Outcome.{Post, bind-Post, Post-map}
use graphserv.Prelude.{
  ℕ, ◌≡◌, inl, inr, refl, ◌==◌, if◌then◌else◌, Bool, true, false, Bool-cases, Option-cases, Text,
  List, [], ◌∷◌, ◌++◌, Option, none, some,
}
use graphserv.Prelude.Assoc.{find, member}
use graphserv.Prelude.Entries.{found-All}
use graphserv.External.{Env}
use graphserv.Writer
use graphserv.Session.{SessionContext, conn_tcp, conn_http, ConnectionType}
use graphserv.Server.{Graphserv, Ctx, force_client_disconnect}
use graphserv.Server.Dispatch.{line_from_client}
use graphserv.Server.Http.{line_from_http_client}
use graphserv.Server.Processed.Lines.{Handled, line-Handled}
use graphserv.Server.Processed.Requests.{request-Handled}
use graphserv.Server.Loop.{
  Received, closed, io_error, bytes, set_linebuf, count_line, client_line, client_bytes,
  client_readable, client_writable,
}
use graphserv.Server.Loop.Round.{Ready, read_client, write_client, client_pass}
use graphserv.Server.Loop.Safety.{
  IsSafe, IsSafeFor, SessionIsSafe, Handled-IsSafe, still-IsSafe, still-IsSafeFor,
  put_session-IsSafe,
}

module _ (env : Env) where
  pub disconnect-IsSafe :
      (id : ℕ) (app : Graphserv) → IsSafe env app → IsSafe env (force_client_disconnect id app)
  unfolding force_client_disconnect
  disconnect-IsSafe id app s = elim (Bool-cases (member id app.clients_to_remove)) [
    | inl e ↦ rw e s
    | inr e ↦ rw e (still-IsSafe env app _ refl refl refl s)
  ]

  -- a session of the map
  pub session-IsSafe :
      (id : ℕ) (sc : SessionContext) (app : Graphserv)
      → find id app.session_contexts ≡ some sc
      → IsSafe env app
      → IsSafeFor env (record { app = app; sc = sc })
  session-IsSafe id sc app f s = record {
    server = s;
    session = (found-All (SessionIsSafe env) id sc app.session_contexts s.sessions f).1;
  }

  pub line-IsSafe : (c : Ctx) → IsSafeFor env c → Post (IsSafeFor env) (client_line env c)
  unfolding client_line
  line-IsSafe c s = by_type c.sc.connection_type
    where
      by_type :
          (type : ConnectionType)
          → Post (IsSafeFor env) (elim type [
            | conn_tcp ↦ line_from_client env false c.sc.linebuf c
            | conn_http ↦ line_from_http_client env c.sc.linebuf c
          ])
      by_type conn_tcp =
          Post-map (Handled env c) (IsSafeFor env) (line_from_client env false c.sc.linebuf c)
            (λ x h. Handled-IsSafe env c x h s) (line-Handled env false c.sc.linebuf c)
      by_type conn_http =
          Post-map (Handled env c) (IsSafeFor env) (line_from_http_client env c.sc.linebuf c)
            (λ x h. Handled-IsSafe env c x h s) (request-Handled env c.sc.linebuf c)

  pub linebuf-IsSafe :
      (line : Text) (c : Ctx) → IsSafeFor env c → IsSafeFor env (set_linebuf line c)
  unfolding set_linebuf
  linebuf-IsSafe line c s = still-IsSafeFor env c _ refl s

  pub counted-IsSafe : (c : Ctx) → IsSafeFor env c → IsSafeFor env (count_line c)
  unfolding count_line
  counted-IsSafe c s = record {
    server = still-IsSafe env c.app _ refl refl refl s.server;
    session = s.session;
  }

  bytes-IsSafe :
      (b : Text) (c : Ctx) → IsSafeFor env c → Post (IsSafeFor env) (client_bytes env b c)
  unfolding client_bytes
  bytes-IsSafe [] c s = s
  bytes-IsSafe (b ∷ rest) c s =
      let c₁ = set_linebuf (c.sc.linebuf ++ b ∷ []) c in
      let s₁ = linebuf-IsSafe (c.sc.linebuf ++ b ∷ []) c s in
      elim (Bool-cases (b == 13)) [
        | inl e ↦ rw (client_bytes, e) (bytes-IsSafe rest c s)
        | inr e ↦ elim (Bool-cases (b == 10)) [
          | inr n ↦ rw (client_bytes, e, n) (bytes-IsSafe rest c₁ s₁)
          | inl n ↦ elim (Bool-cases (member c.sc.client_id c.app.clients_to_remove)) [
            | inl m ↦ rw (client_bytes, e, n, m) s₁
            | inr m ↦
                rw (client_bytes, e, n, m)
                  (bind-Post (IsSafeFor env) (IsSafeFor env) (client_line env (count_line c₁)) _
                    (line-IsSafe (count_line c₁) (counted-IsSafe c₁ s₁))
                    (λ c₂ s₂. bytes-IsSafe rest (set_linebuf [] c₂) (linebuf-IsSafe [] c₂ s₂)))
          ]
        ]
      ]

  readable-IsSafe :
      (r : Received) (c : Ctx) → IsSafeFor env c → Post (IsSafe env) (client_readable env r c)
  unfolding client_readable
  readable-IsSafe closed c s = still-IsSafe env c.app _ refl refl refl s.server
  readable-IsSafe io_error c s = still-IsSafe env c.app _ refl refl refl s.server
  readable-IsSafe (bytes b) c s =
      bind-Post (IsSafeFor env) (IsSafe env) (client_bytes env b c) _ (bytes-IsSafe b c s)
        (λ c₁ s₁. put_session-IsSafe env c₁ s₁)

  writable-IsSafe : (c : Ctx) → IsSafeFor env c → IsSafe env (client_writable env c)
  unfolding client_writable
  writable-IsSafe c s =
      let f = Writer.flush env c.sc.writer in
      let app = if f.write_failed then force_client_disconnect c.sc.client_id c.app else c.app in
      let safe : IsSafe env app = elim (Bool-cases f.write_failed) [
        | inl e ↦ rw e (disconnect-IsSafe c.sc.client_id c.app s.server)
        | inr e ↦ rw e s.server
      ] in
      put_session-IsSafe env (record { app = app; sc = record c.sc { writer = f.writer } })
        (record { server = safe; session = s.session })

  read-IsSafe :
      (r : Option Received) (id : ℕ) (app : Graphserv)
      → IsSafe env app
      → Post (IsSafe env) (read_client env r id app)
  unfolding read_client
  read-IsSafe none id app s = s
  read-IsSafe (some r) id app s = elim (Option-cases (find id app.session_contexts)) [
    | inl e ↦ rw (read_client, e) s
    | inr (sc, e) ↦
        rw (read_client, e)
          (readable-IsSafe r (record { app = app; sc = sc }) (session-IsSafe id sc app e s))
  ]

  pub write-IsSafe :
      (b : Bool) (id : ℕ) (app : Graphserv)
      → IsSafe env app
      → IsSafe env (write_client env b id app)
  unfolding write_client
  write-IsSafe false id app s = s
  write-IsSafe true id app s = elim (Option-cases (find id app.session_contexts)) [
    | inl e ↦ rw (write_client, e) s
    | inr (sc, e) ↦
        rw (write_client, e)
          (writable-IsSafe (record { app = app; sc = sc }) (session-IsSafe id sc app e s))
  ]

  pub client_pass-IsSafe :
      (io : Ready) (ids : List ℕ) (app : Graphserv)
      → IsSafe env app
      → Post (IsSafe env) (client_pass env io ids app)
  unfolding client_pass
  client_pass-IsSafe io [] app s = s
  client_pass-IsSafe io (id ∷ rest) app s =
      bind-Post (IsSafe env) (IsSafe env) (read_client env (io.client_reads id) id app) _
        (read-IsSafe (io.client_reads id) id app s)
        (λ app₁ s₁. client_pass-IsSafe io rest _ (write-IsSafe (io.client_writes id) id app₁ s₁))
