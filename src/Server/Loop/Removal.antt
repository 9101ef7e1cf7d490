-- ===== src/Server/Loop/Removal.antt =====
-- The deferred removal of clients at the start of a round of mainloop_select in src/servapp.h.
use graphserv.Prelude.{
  Bool, ◌+◌, ◌-◌, ltb, sym, ℕ, zero, suc, ◌≡◌, inl, inr, refl, ap, ◌∙◌, ◌==◌, ==_iff, if◌then◌else◌,
  true, false, Bool-cases, Option-cases, List, [], ◌∷◌, Option, none, some, map, ◌&&◌, not, arith,
}
use mathlib.Core.Option as Option
use graphserv.Prelude.Assoc.{find, erase, find-erase, member}
use graphserv.External.{Env}
use graphserv.Core.{CoreInstance, find_last_client_command}
use graphserv.Session.{SessionContext, Stats, reset_stats}
use graphserv.Server.{Graphserv, find_instance, put_core_instance}
use graphserv.Server.Loop.{
  close_dataset, release_core, remove_session, remove_all, remove_clients, refresh_stats,
  start_round,
}

-- The sessions and the clock are as they were.
record SameSessions (app app' : Graphserv) : Type 0 where
  pub same_sessions : app'.session_contexts ≡ app.session_contexts
  pub same_now : app'.now ≡ app.now

SameSessions-refl : (app : Graphserv) → SameSessions app app
SameSessions-refl app = record { same_sessions = refl; same_now = refl }

-- what is left of a session behind the removal of the clients on the list
abbrev kept : List ℕ → Graphserv → ℕ → Option SessionContext
kept ids app i = if member i ids then none else find i app.session_contexts

find-map :
    {V : Type 0} (f : V → V) (i : ℕ) (m : List (ℕ × V))
    → find i (map (λ p. (p.0, f p.1)) m) ≡ Option.map f (find i m)
unfolding find Option.map
find-map f i [] = refl
find-map f i ((j, v) ∷ m) = elim (Bool-cases (j == i)) [
  | inl e ↦ rw e refl
  | inr e ↦ rw e (find-map f i m)
]

-- The statistics behind the test whether they are old.
abbrev after_test : ℕ → SessionContext → Bool → Stats
after_test now sc old =
    if old
    then record { last_time = now; lines_sent = 0; serv_commands_sent = 0; bytes_sent = 0 }
    else sc.stats

-- The session with statistics that are at most ten seconds old, the rest as it was.
abbrev pub refreshed : ℕ → SessionContext → SessionContext
refreshed now sc = record sc { stats = after_test now sc (ltb (sc.stats.last_time + 10) now) }

module _ (env : Env) where
  close_dataset-SameSessions :
      (id : ℕ) (core : CoreInstance) (app : Graphserv)
      → SameSessions app (close_dataset env id core app)
  unfolding close_dataset put_core_instance
  close_dataset-SameSessions id core app =
      elim (Option-cases (find_last_client_command id core.command_q)) [
        | inl e ↦ rw (close_dataset, e) (SameSessions-refl app)
        | inr (c, e) ↦ elim (Bool-cases (c.accepts_data && not c.data_finished)) [
          | inl t ↦ rw (close_dataset, e, t) (record { same_sessions = refl; same_now = refl })
          | inr t ↦ rw (close_dataset, e, t) (SameSessions-refl app)
        ]
      ]

  release_core-SameSessions :
      (sc : SessionContext) (app : Graphserv) → SameSessions app (release_core env sc app)
  unfolding release_core
  release_core-SameSessions sc app = by_id sc.core_id
    where
      by_id :
          (id : ℕ)
          → SameSessions app (elim id [
            | zero ↦ app
            | suc n ↦ elim (find_instance sc.core_id app) [
              | none ↦ app
              | some core ↦ close_dataset env sc.client_id core app
            ]
          ])
      by_id zero = SameSessions-refl app
      by_id (suc n) = elim (Option-cases (find_instance sc.core_id app)) [
        | inl e ↦ rw e (SameSessions-refl app)
        | inr (core, e) ↦ rw e (close_dataset-SameSessions sc.client_id core app)
      ]

  remove_session-find :
      (id i : ℕ) (app : Graphserv)
      → (find i (remove_session env id app).session_contexts
          ≡ (if i == id then none else find i app.session_contexts))
        × ((remove_session env id app).now ≡ app.now)
  unfolding remove_session
  remove_session-find id i app = elim (Option-cases (find id app.session_contexts)) [
    | inl e ↦
        let gone : find i app.session_contexts
            ≡ (if i == id then none else find i app.session_contexts) =
          elim (Bool-cases (i == id)) [
            | inl q ↦ rw q (ap (λ n. find n app.session_contexts) ((==_iff i id).0 q) ∙ e)
            | inr q ↦ rw q refl
          ] in
        rw (remove_session, e) (gone, refl)
    | inr (sc, e) ↦
        let s = release_core-SameSessions sc app in
        rw (remove_session, e)
          (
            ap (λ m. find i (erase id m)) s.same_sessions ∙ find-erase id i app.session_contexts,
            s.same_now,
          )
  ]

  remove_all-kept :
      (ids : List ℕ) (i : ℕ) (app : Graphserv)
      → (find i (remove_all env ids app).session_contexts ≡ kept ids app i)
        × ((remove_all env ids app).now ≡ app.now)
  unfolding remove_all member
  remove_all-kept [] i app = (refl, refl)
  remove_all-kept (id ∷ rest) i app =
      let (one, clock) = remove_session-find id i app in
      let (more, clocks) = remove_all-kept rest i (remove_session env id app) in
      let step : kept rest (remove_session env id app) i ≡ kept (id ∷ rest) app i =
        elim (Bool-cases (id == i)) [
          | inl q ↦
              let same : (i == id) ≡ true = ground (arith, q) in
              rw (q, one, same)
                (elim (Bool-cases (member i rest)) [ inl m ↦ rw m refl | inr m ↦ rw m refl ])
          | inr q ↦ let other : (i == id) ≡ false = ground (arith, q) in rw (q, one, other) refl
        ] in
      (more ∙ step, clocks ∙ clock)

  refresh_stats-refreshed :
      (now : ℕ) (sc : SessionContext) → refresh_stats env now sc ≡ refreshed now sc
  unfolding refresh_stats reset_stats
  refresh_stats-refreshed now sc = elim (Bool-cases (ltb 10 (now - sc.stats.last_time))) [
    | inl old ↦
        let e : ltb (sc.stats.last_time + 10) now ≡ true = ground arith in
        rw (refresh_stats, old) (ap (λ b. record sc { stats = after_test now sc b }) (sym e))
    | inr new ↦
        let e : ltb (sc.stats.last_time + 10) now ≡ false = ground arith in
        rw (refresh_stats, new) (ap (λ b. record sc { stats = after_test now sc b }) (sym e))
  ]

  map-refresh_stats :
      (now : ℕ) (o : Option SessionContext)
      → Option.map (refresh_stats env now) o ≡ Option.map (refreshed now) o
  unfolding Option.map
  map-refresh_stats now none = refl
  map-refresh_stats now (some sc) = ap some (refresh_stats-refreshed now sc)

  -- At the start of a round no client that was to be disconnected has a session, no client is to be
  -- disconnected, and every other session is there as it was, except that its statistics are reset,
  -- to the time of the round and to zeros, if they are more than ten seconds old.
  pub start_round-kept :
      (i : ℕ) (app : Graphserv)
      → (find i (start_round env app).session_contexts ≡ (
          if member i app.clients_to_remove
          then none
          else Option.map (refreshed app.now) (find i app.session_contexts)))
        × ((start_round env app).clients_to_remove ≡ [])
  unfolding start_round remove_clients
  start_round-kept i app =
      let (all, clock) = remove_all-kept app.clients_to_remove i app in
      (
        find-map (refresh_stats env (remove_all env app.clients_to_remove app).now) i
              (remove_all env app.clients_to_remove app).session_contexts
            ∙ map-refresh_stats _ _
            ∙ rw (clock, all)
                (elim (Bool-cases (member i app.clients_to_remove)) [
                  | inl m ↦ rw (m, Option.map) refl
                  | inr m ↦ rw m refl
                ]),
        refl,
      )
