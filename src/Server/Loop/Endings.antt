-- ===== src/Server/Loop/Endings.antt =====
-- Which bytes from a client the server does not survive: the loop over the received bytes of
-- mainloop_select in src/servapp.h.
pub mod Cores
pub mod Rounds
pub mod Run
use graphserv.Prelude.{
  ℕ, ◌≡◌, inl, inr, refl, subst, ap, ◌∙◌, ◌==◌, ==_iff, Bool, true, false, Bool-cases, Text, [],
  ◌∷◌, ◌++◌,
}
use graphserv.Prelude.Assoc.{member}
use graphserv.External.{Env}
use graphserv.Outcome.{Ends, bind-Ends, Outcome, ok, ◌>>=◌}
use graphserv.Session.{ConnectionType, conn_tcp, conn_http}
use graphserv.Server.{Graphserv, Ctx}
use graphserv.Server.Processed.Endings.Lines.{CommandTrouble, command_of, line_from_client-Ends}
use graphserv.Server.Processed.Endings.Requests.{RequestTrouble, request-Ends}
use graphserv.Server.Dispatch.{line_from_client}
use graphserv.Server.Http.{line_from_http_client}
use graphserv.Server.Loop.{
  Received, closed, io_error, bytes, client_line, client_bytes, client_readable, set_linebuf,
  count_line,
}

module _ (env : Env) where
  -- what is wrong with the line in linebuf
  abbrev pub LineTrouble : Ctx → Type 0
  LineTrouble c = elim c.sc.connection_type [
    | conn_tcp ↦ CommandTrouble env (command_of env c.sc.linebuf c) c
    | conn_http ↦ RequestTrouble env c.sc.linebuf c
  ]

  client_line-Ends : (c : Ctx) → Ends (LineTrouble c) (client_line env c)
  unfolding client_line
  client_line-Ends c = by_type c.sc.connection_type
    where
      by_type :
          (type : ConnectionType)
          → Ends
              (elim type [
                | conn_tcp ↦ CommandTrouble env (command_of env c.sc.linebuf c) c
                | conn_http ↦ RequestTrouble env c.sc.linebuf c
              ])
              (elim type [
                | conn_tcp ↦ line_from_client env false c.sc.linebuf c
                | conn_http ↦ line_from_http_client env c.sc.linebuf c
              ])
      by_type conn_tcp = line_from_client-Ends env false c.sc.linebuf c
      by_type conn_http = request-Ends env c.sc.linebuf c

  -- the session's buffer with one more byte
  abbrev pub longer : ℕ → Ctx → Ctx
  longer x c = record c { sc = record c.sc { linebuf = c.sc.linebuf ++ x ∷ [] } }

  -- The bytes before some newline are handled, and the line that it ends has trouble.
  pub record StopsAt (b : Text) (c : Ctx) : Type 0 where
    pub before : Text
    pub rest : Text
    pub at : Ctx
    pub cut : b ≡ before ++ 10 ∷ rest
    pub reached : client_bytes env before c ≡ ok at
    pub trouble : LineTrouble (count_line (longer 10 at))

  -- behind a byte whose effect is known
  behind_byte :
      (x : ℕ) (rest : Text) (c c' : Ctx)
      → ((a : Text) → client_bytes env (x ∷ a) c ≡ client_bytes env a c')
      → Ends (StopsAt rest c') (client_bytes env rest c')
      → Ends (StopsAt (x ∷ rest) c) (client_bytes env (x ∷ rest) c)
  behind_byte x rest c c' step (inl (d, e)) = inl (d, step rest ∙ e)
  behind_byte x rest c c' step (inr s) = inr (record {
    before = x ∷ s.before;
    rest = s.rest;
    at = s.at;
    cut = ap (◌∷◌ x) s.cut;
    reached = step s.before ∙ s.reached;
    trouble = s.trouble;
  })

  bytes-Ends : (b : Text) (c : Ctx) → Ends (StopsAt b c) (client_bytes env b c)
  unfolding client_bytes set_linebuf count_line
  bytes-Ends [] c = inl (c, refl)
  bytes-Ends (x ∷ rest) c = elim (Bool-cases (x == 13)) [
    | inl r ↦ behind_byte x rest c c (λ a. rw (client_bytes, r)) (bytes-Ends rest c)
    | inr r ↦ elim (Bool-cases (x == 10)) [
      | inr n ↦
          behind_byte x rest c (longer x c) (λ a. rw (client_bytes, r, n))
            (bytes-Ends rest (longer x c))
      | inl n ↦ elim (Bool-cases (member c.sc.client_id c.app.clients_to_remove)) [
        | inl gone ↦ inl (longer x c, rw (client_bytes, r, n, gone))
        | inr here ↦ elim (client_line-Ends (count_line (longer x c))) [
          | inl (c₂, e) ↦
              behind_byte x rest c (set_linebuf [] c₂) (λ a. rw (client_bytes, r, n, here, e))
                (bytes-Ends rest (set_linebuf [] c₂))
          | inr t ↦
              let newline = (==_iff x 10).0 n in
              inr (record {
                before = [];
                rest = rest;
                at = c;
                cut = ap (λ y. y ∷ rest) newline;
                reached = refl;
                trouble = subst (λ y. LineTrouble (count_line (longer y c))) newline t;
              })
        ]
      ]
    ]
  ]

  -- What a client sends, in whatever pieces its lines are, is handled and that returns, or the bytes
  -- before some newline are handled, and the line that it ends has one of these troubles: its command
  -- (of an HTTP client: the command of the URI of a complete request) has nothing but separators for
  -- a core that runs, or it is an authorization by the password authority whose credentials are white
  -- space only, or for which the refresh of the credential files does not return, or for whose
  -- password and the hash of its user crypt() answers NULL.
  pub client_readable-Ends :
      (b : Text) (c : Ctx) → Ends (StopsAt b c) (client_readable env (bytes b) c)
  unfolding client_readable
  client_readable-Ends b c =
      bind-Ends (client_bytes env b c) _ (bytes-Ends b c) (λ c₁. inl (_, refl))
