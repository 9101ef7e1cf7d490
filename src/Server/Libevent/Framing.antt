-- ===== src/Server/Libevent/Framing.antt =====
-- How the bytes that arrive are cut into events: cb_sessionReadable and cb_coreReadable of
-- src/servapp.h.
use graphserv.Prelude.{
  ◌≡◌, inl, inr, refl, sym, ap, ◌∙◌, ◌==◌, Bool-cases, Option-cases, Text, ℕ, [], ◌∷◌, ◌++◌,
}
use graphserv.Prelude.Assoc.{find}
use graphserv.Prelude.Entries.{found-All}
use graphserv.External.{Env}
use graphserv.Outcome.{Post, Outcome, ok, fails, exits, undefined, ◌>>=◌, bind-same, >>=-assoc}
use graphserv.Server.{Graphserv, Ctx}
use graphserv.Server.Loop.{bytes, client_line, core_bytes, set_linebuf, count_line}
use graphserv.Server.Loop.Framing.{core_bytes-append, core_bytes-gone}
use graphserv.Server.Loop.Safety.{IsSafe}
use graphserv.Server.Loop.Cores.{core_bytes-IsSafe}
use graphserv.Server.Libevent.{event_bytes, core_readable, handle, cb_core_readable}

module _ (env : Env) where
  -- The bytes of a client have the same effect on its session and on the server in one event as in
  -- two, wherever they are cut.
  pub event_bytes-append :
      (a b : Text) (c : Ctx)
      → event_bytes env (a ++ b) c ≡ (event_bytes env a c >>= event_bytes env b)
  unfolding event_bytes set_linebuf count_line
  event_bytes-append [] b c = refl
  event_bytes-append (x ∷ rest) b c =
      let longer = set_linebuf (c.sc.linebuf ++ x ∷ []) c in
      elim (Bool-cases (x == 13)) [
        | inl r ↦ rw (event_bytes, r) (event_bytes-append rest b c)
        | inr r ↦ elim (Bool-cases (x == 10)) [
          | inr n ↦ rw (event_bytes, r, n) (event_bytes-append rest b longer)
          | inl n ↦
              rw (event_bytes, r, n)
                (bind-same (client_line env (count_line longer)) _ _
                    (λ c₂. event_bytes-append rest b (set_linebuf [] c₂))
                  ∙ sym (>>=-assoc (client_line env (count_line longer)) _ (event_bytes env b)))
        ]
      ]

  handle-core_bytes :
      (id : ℕ) (b : Text) (app : Graphserv)
      → IsSafe env app
      → handle env (core_readable id (bytes b)) app ≡ core_bytes env id b app
  unfolding handle cb_core_readable
  handle-core_bytes id b app s = elim (Option-cases (find id app.core_instances)) [
    | inl e ↦ rw (handle, e) (sym (core_bytes-gone env id b app e))
    | inr (core, e) ↦
        let own : core.instance_id ≡ id =
          found-All (λ p. p.1.instance_id ≡ p.0) id core app.core_instances s.cores.keyed e in
        rw (handle, e) (ap (λ n. core_bytes env n b app) own)
  ]

  same_next :
      (b : Text) (id : ℕ) (r : Outcome Graphserv)
      → Post (IsSafe env) r
      → (r >>= core_bytes env id b) ≡ (r >>= handle env (core_readable id (bytes b)))
  same_next b id (ok app) s = sym (handle-core_bytes id b app s)
  same_next b id fails s = refl
  same_next b id exits s = refl
  same_next b id undefined s = refl

  -- In a server for which the invariant holds, the bytes that a core sends have the same effect in one
  -- event as in two, wherever they are cut.
  pub handle-append :
      (id : ℕ) (a b : Text) (app : Graphserv)
      → IsSafe env app
      → handle env (core_readable id (bytes (a ++ b))) app
        ≡ (handle env (core_readable id (bytes a)) app >>= handle env (core_readable id (bytes b)))
  handle-append id a b app s =
      handle-core_bytes id (a ++ b) app s
      ∙ core_bytes-append env id a b app
      ∙ same_next b id (core_bytes env id a app) (core_bytes-IsSafe env id a app s)
      ∙ ap (λ r. r >>= handle env (core_readable id (bytes b))) (sym (handle-core_bytes id a app s))
