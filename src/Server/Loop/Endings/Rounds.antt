-- ===== src/Server/Loop/Endings/Rounds.antt =====
-- Why a pass over the sessions or the instances in mainloop_select of src/servapp.h may end otherwise
-- than by returning.
use graphserv.Prelude.{
  ℕ, zero, suc, ◌+◌, ◌≡◌, ◌≤◌, inl, inr, refl, true, List, [], ◌∷◌, Option, none, some, Text, arith,
}
use graphserv.Prelude.Assoc.{find}
use graphserv.External.{Env}
use graphserv.Outcome.{Ends, Ends-map, bind-Ends, found-Ends, ok, exits, ◌>>=◌}
use graphserv.Core.{CoreInstance}
use graphserv.Session.{SessionContext}
use graphserv.Server.{Graphserv}
use graphserv.Server.Loop.{
  Received, closed, io_error, bytes, client_readable, core_readable, core_bytes,
}
use graphserv.Server.Loop.Round.{
  Ready, LoopState, sigint, sigints, read_client, write_client, client_pass, read_core, write_core,
  core_pass,
}
use graphserv.Server.Loop.Endings.{StopsAt, client_readable-Ends}
use graphserv.Server.Loop.Endings.Cores.{CoreStopsAt, core_bytes-Ends}

-- SIGINT arrives for the third time.
pub sigints-Ends : (n : ℕ) (l : LoopState) → Ends (3 ≤ l.ncalls + n) (sigints n l)
unfolding sigints sigint
sigints-Ends zero l = inl (l, refl)
sigints-Ends (suc n) l = by_calls (λ m. sigints-Ends n m) l.ncalls refl
  where
    by_calls :
        ((m : LoopState) → Ends (3 ≤ m.ncalls + n) (sigints n m))
        → (k : ℕ) → l.ncalls ≡ k
        → Ends (3 ≤ l.ncalls + suc n) (
            (elim k [
              | zero ↦ ok (record l { ncalls = 1 })
              | suc m ↦ elim m [
                | zero ↦ ok (record l { app = record l.app { quitting = true }; ncalls = 2 })
                | suc j ↦ exits
              ]
            ])
            >>= sigints n)
    by_calls ih zero e =
        Ends-map (λ h. let more : 3 ≤ 1 + n = h in omega (arith, e, more))
          (ih (record l { ncalls = 1 }))
    by_calls ih (suc zero) e =
        Ends-map (λ h. let more : 3 ≤ 2 + n = h in omega (arith, e, more))
          (ih (record l { app = record l.app { quitting = true }; ncalls = 2 }))
    by_calls ih (suc (suc j)) e = inr (omega arith)

module _ (env : Env) where
  -- what a client sends has trouble, when its turn comes in the pass
  pub data ClientTrouble (io : Ready) : List ℕ → Graphserv → Type 0 where
    here :
        (id : ℕ) (rest : List ℕ) (app : Graphserv) (sc : SessionContext) (b : Text)
        → io.client_reads id ≡ some (bytes b)
        → find id app.session_contexts ≡ some sc
        → StopsAt env b (record { app = app; sc = sc })
        → ClientTrouble io (id ∷ rest) app
    behind :
        (id : ℕ) (rest : List ℕ) (app app₁ : Graphserv)
        → read_client env (io.client_reads id) id app ≡ ok app₁
        → ClientTrouble io rest (write_client env (io.client_writes id) id app₁)
        → ClientTrouble io (id ∷ rest) app

  -- what a core sends has trouble, when its turn comes in the pass
  pub data CoreTrouble (io : Ready) : List ℕ → List CoreInstance → Graphserv → Type 0 where
    here :
        (id : ℕ) (rest : List ℕ) (gone : List CoreInstance) (app : Graphserv) (core : CoreInstance)
        (b : Text)
        → io.core_reads id ≡ some (bytes b)
        → find id app.core_instances ≡ some core
        → CoreStopsAt env core.instance_id b app
        → CoreTrouble io (id ∷ rest) gone app
    behind :
        (id : ℕ) (rest : List ℕ) (gone : List CoreInstance) (app : Graphserv)
        (r : Graphserv × List CoreInstance)
        → read_core env (io.core_reads id) id gone app ≡ ok r
        → CoreTrouble io rest r.1 (write_core env (io.core_writes id) id r.0)
        → CoreTrouble io (id ∷ rest) gone app

  read_client-Ends :
      (o : Option Received) (id : ℕ) (app : Graphserv)
      → Ends
          ((b : Text) × (sc : SessionContext) × (o ≡ some (bytes b))
            × (find id app.session_contexts ≡ some sc)
            × StopsAt env b (record { app = app; sc = sc }))
          (read_client env o id app)
  unfolding read_client
  read_client-Ends none id app = inl (app, refl)
  read_client-Ends (some received) id app =
      found-Ends (find id app.session_contexts) _ _ (inl (app, refl))
        (λ sc e. by_answer received sc e)
    where
      by_answer :
          (r : Received) (sc : SessionContext)
          → find id app.session_contexts ≡ some sc
          → Ends
              ((b : Text) × (sc : SessionContext) × (some r ≡ some (bytes b))
                × (find id app.session_contexts ≡ some sc)
                × StopsAt env b (record { app = app; sc = sc }))
              (client_readable env r (record { app = app; sc = sc }))
      by_answer closed sc e = unfold client_readable in inl (_, refl)
      by_answer io_error sc e = unfold client_readable in inl (_, refl)
      by_answer (bytes b) sc e =
          Ends-map (λ s. (b, sc, refl, e, s))
            (client_readable-Ends env b (record { app = app; sc = sc }))

  pub client_pass-Ends :
      (io : Ready) (ids : List ℕ) (app : Graphserv)
      → Ends (ClientTrouble io ids app) (client_pass env io ids app)
  unfolding client_pass
  client_pass-Ends io [] app = inl (app, refl)
  client_pass-Ends io (id ∷ rest) app = elim (read_client-Ends (io.client_reads id) id app) [
    | inr (b, sc, e, f, s) ↦ inr (ClientTrouble.here id rest app sc b e f s)
    | inl (app₁, r) ↦
        rw (client_pass, r)
          (Ends-map (λ t. ClientTrouble.behind id rest app app₁ r t)
            (client_pass-Ends io rest (write_client env (io.client_writes id) id app₁)))
  ]

  read_core-Ends :
      (o : Option Received) (id : ℕ) (gone : List CoreInstance) (app : Graphserv)
      → Ends
          ((b : Text) × (core : CoreInstance) × (o ≡ some (bytes b))
            × (find id app.core_instances ≡ some core)
            × CoreStopsAt env core.instance_id b app)
          (read_core env o id gone app)
  unfolding read_core
  read_core-Ends none id gone app = inl (_, refl)
  read_core-Ends (some received) id gone app =
      found-Ends (find id app.core_instances) _ _ (inl (_, refl)) (λ core e.
        bind-Ends (core_readable env received core app) _ (by_answer received core e)
          (λ r. inl (_, refl)))
    where
      by_answer :
          (r : Received) (core : CoreInstance)
          → find id app.core_instances ≡ some core
          → Ends
              ((b : Text) × (core : CoreInstance) × (some r ≡ some (bytes b))
                × (find id app.core_instances ≡ some core)
                × CoreStopsAt env core.instance_id b app)
              (core_readable env r core app)
      by_answer closed core e = unfold core_readable in inl (_, refl)
      by_answer io_error core e = unfold core_readable in inl (_, refl)
      by_answer (bytes b) core e =
          unfold core_readable in
          bind-Ends (core_bytes env core.instance_id b app) _
            (Ends-map (λ s. (b, core, refl, e, s)) (core_bytes-Ends env core.instance_id b app))
            (λ app₁. inl (_, refl))

  pub core_pass-Ends :
      (io : Ready) (ids : List ℕ) (gone : List CoreInstance) (app : Graphserv)
      → Ends (CoreTrouble io ids gone app) (core_pass env io ids gone app)
  unfolding core_pass
  core_pass-Ends io [] gone app = inl (_, refl)
  core_pass-Ends io (id ∷ rest) gone app = elim (read_core-Ends (io.core_reads id) id gone app) [
    | inr (b, core, e, f, s) ↦ inr (CoreTrouble.here id rest gone app core b e f s)
    | inl (r, e) ↦
        rw (core_pass, e)
          (Ends-map (λ t. CoreTrouble.behind id rest gone app r e t)
            (core_pass-Ends io rest r.1 (write_core env (io.core_writes id) id r.0)))
  ]
