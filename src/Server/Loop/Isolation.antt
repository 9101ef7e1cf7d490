-- ===== src/Server/Loop/Isolation.antt =====
-- Which sessions an event can change.
use graphserv.Prelude.{
  ℕ, ◌≡◌, ◌≢◌, inl, inr, refl, ap, ◌∙◌, ◌==◌, false, Bool-cases, Text, [], ◌∷◌, ◌++◌, arith,
}
use graphserv.Prelude.Assoc.{find, find-update_other, member}
use graphserv.External.{Env}
use graphserv.Outcome.{Post, bind-Post, Post-map, Post-ok, ok}
use graphserv.Session.{ConnectionType, conn_tcp, conn_http}
use graphserv.Server.{Graphserv, Ctx}
use graphserv.Server.Processed.Lines.{Handled, line-Handled}
use graphserv.Server.Processed.Requests.{request-Handled}
use graphserv.Server.Dispatch.{line_from_client}
use graphserv.Server.Http.{line_from_http_client}
use graphserv.Server.Loop.{
  Received, closed, io_error, bytes, put_session, set_linebuf, count_line, client_line,
  client_bytes, client_readable,
}

-- Every session but the one with the ID is as it was.
abbrev pub SameOthers : ℕ → Graphserv → Graphserv → Type 0
SameOthers id app app' =
    (i : ℕ) → i ≢ id → find i app'.session_contexts ≡ find i app.session_contexts

-- The map of sessions is as it was, and the reference is to the same one.
abbrev pub Keeps : Ctx → Ctx → Type 0
Keeps c c' = (c'.app.session_contexts ≡ c.app.session_contexts) × (c'.sc.client_id ≡ c.sc.client_id)

pub Keeps-trans : (a b c : Ctx) → Keeps a b → Keeps b c → Keeps a c
Keeps-trans a b c p q = (q.0 ∙ p.0, q.1 ∙ p.1)

pub put_session-SameOthers :
    (c c' : Ctx) → Keeps c c' → SameOthers c.sc.client_id c.app (put_session c')
unfolding put_session
put_session-SameOthers c c' k i ne =
    let other : (i == c'.sc.client_id) ≡ false = ground (arith, k.1) in
    find-update_other c'.sc.client_id i c'.sc c'.app.session_contexts other ∙ ap (λ m. find i m) k.0

module _ (env : Env) where
  line-Keeps : (c : Ctx) → Post (Keeps c) (client_line env c)
  unfolding client_line
  line-Keeps c = by_type c.sc.connection_type
    where
      by_type :
          (type : ConnectionType)
          → Post (Keeps c) (elim type [
            | conn_tcp ↦ line_from_client env false c.sc.linebuf c
            | conn_http ↦ line_from_http_client env c.sc.linebuf c
          ])
      by_type conn_tcp =
          Post-map (Handled env c) (Keeps c) (line_from_client env false c.sc.linebuf c)
            (λ x h. (h.same_sessions, h.same_client)) (line-Handled env false c.sc.linebuf c)
      by_type conn_http =
          Post-map (Handled env c) (Keeps c) (line_from_http_client env c.sc.linebuf c)
            (λ x h. (h.same_sessions, h.same_client)) (request-Handled env c.sc.linebuf c)

  bytes-Keeps : (b : Text) (c : Ctx) → Post (Keeps c) (client_bytes env b c)
  unfolding client_bytes set_linebuf count_line
  bytes-Keeps [] c = (refl, refl)
  bytes-Keeps (b ∷ rest) c =
      let c₁ = set_linebuf (c.sc.linebuf ++ b ∷ []) c in
      elim (Bool-cases (b == 13)) [
        | inl e ↦ rw (client_bytes, e) (bytes-Keeps rest c)
        | inr e ↦ elim (Bool-cases (b == 10)) [
          | inr n ↦ rw (client_bytes, e, n) (bytes-Keeps rest c₁)
          | inl n ↦ elim (Bool-cases (member c.sc.client_id c.app.clients_to_remove)) [
            | inl m ↦ rw (client_bytes, e, n, m) (refl, refl)
            | inr m ↦
                rw (client_bytes, e, n, m)
                  (bind-Post (Keeps c) (Keeps c) (client_line env (count_line c₁)) _
                    (line-Keeps (count_line c₁))
                    (λ c₂ k.
                      Post-map (Keeps c₂) (Keeps c) (client_bytes env rest (set_linebuf [] c₂))
                        (λ x j. Keeps-trans c c₂ x k j) (bytes-Keeps rest (set_linebuf [] c₂))))
          ]
        ]
      ]

  readable-SameOthers :
      (r : Received) (c : Ctx) → Post (SameOthers c.sc.client_id c.app) (client_readable env r c)
  unfolding client_readable
  readable-SameOthers closed c = λ i ne. refl
  readable-SameOthers io_error c = λ i ne. refl
  readable-SameOthers (bytes b) c =
      bind-Post (Keeps c) (SameOthers c.sc.client_id c.app) (client_bytes env b c) _
        (bytes-Keeps b c) (λ c₁ k. put_session-SameOthers c c₁ k)

  -- When bytes from a client, or the end of its connection, are handled and that returns, every other
  -- session is as it was: its level, its queue, and what was written to it.
  pub client_readable-SameOthers :
      (r : Received) (c : Ctx) (app' : Graphserv)
      → client_readable env r c ≡ ok app'
      → SameOthers c.sc.client_id c.app app'
  client_readable-SameOthers r c app' e =
      Post-ok (SameOthers c.sc.client_id c.app) (client_readable env r c) (readable-SameOthers r c)
        e
