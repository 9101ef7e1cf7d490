-- ===== src/Server/Loop/Framing.antt =====
-- How the bytes that arrive are cut into reads: the loops over the received bytes of mainloop_select
-- in src/servapp.h.
use graphserv.Prelude.{◌≡◌, inl, inr, refl, sym, ◌∙◌, Option-cases, Text, ℕ, [], ◌∷◌, ◌++◌, none}
use graphserv.Prelude.Assoc.{find}
use graphserv.External.{Env}
use graphserv.Outcome.{ok, ◌>>=◌, >>=-assoc, bind-same}
use graphserv.Server.{Graphserv}
use graphserv.Server.Loop.{core_byte, core_bytes}

module _ (env : Env) where
  pub core_bytes-gone :
      (id : ℕ) (b : Text) (app : Graphserv)
      → find id app.core_instances ≡ none
      → core_bytes env id b app ≡ ok app
  unfolding core_bytes
  core_bytes-gone id [] app e = refl
  core_bytes-gone id (x ∷ rest) app e = rw (core_bytes, e)

  -- What a core sends has the same effect in one read as in two, wherever it is cut.
  pub core_bytes-append :
      (id : ℕ) (a b : Text) (app : Graphserv)
      → core_bytes env id (a ++ b) app ≡ (core_bytes env id a app >>= core_bytes env id b)
  unfolding core_bytes
  core_bytes-append id [] b app = refl
  core_bytes-append id (x ∷ rest) b app = elim (Option-cases (find id app.core_instances)) [
    | inl e ↦ rw (core_bytes, e) (sym (core_bytes-gone id b app e))
    | inr (core, e) ↦
        rw (core_bytes, e)
          (bind-same (core_byte env x core app) _ _ (λ app₁. core_bytes-append id rest b app₁)
            ∙ sym (
                >>=-assoc (core_byte env x core app) (core_bytes env id rest)
                  (core_bytes env id b)))
  ]
