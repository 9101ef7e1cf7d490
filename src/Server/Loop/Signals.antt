-- ===== src/Server/Loop/Signals.antt =====
-- How SIGINT ends the main loop.
use graphserv.Prelude.{
  ℕ, zero, suc, ◌≡◌, ◌≤◌, ◌+◌, inl, inr, refl, ap, ◌∙◌, ltb, if◌then◌else◌, Bool, true, false,
  Bool-cases, List, [], ◌∷◌, arith,
}
use graphserv.External.{Env}
use graphserv.Outcome.{
  Post, bind-Post, Post-ok, >>=-eq-ok, Outcome, ok, fails, exits, undefined, ◌>>=◌,
}
use graphserv.Session.{ConnectionType, conn_tcp, conn_http}
use graphserv.Server.Loop.{start_round}
use graphserv.Server.Loop.Sets.{init_sets}
use graphserv.Server.Loop.Round.{
  Accepted, no_connection, accept_fails, connection, Ready, Selected, ready, interrupted,
  bad_descriptors, failed, Round, LoopState, set_app, set_time, not_created, accept_connection,
  accept_all, sigint, sigints, serve, clean_up, after_select, round, run,
}

abbrev SameCalls : LoopState → LoopState → Type 0
SameCalls l l' = l'.ncalls ≡ l.ncalls

not_created-SameCalls : (b : Bool) (time : ℕ) (l : LoopState) → SameCalls l (not_created b time l)
unfolding not_created
not_created-SameCalls false time l = refl
not_created-SameCalls true time l = refl

accept-SameCalls :
    (type : ConnectionType) (time : ℕ) (a : Accepted) (l : LoopState)
    → SameCalls l (accept_connection type time a l)
unfolding accept_connection set_app
accept-SameCalls type time no_connection l = refl
accept-SameCalls type time (accept_fails b) l = not_created-SameCalls b time l
accept-SameCalls type time (connection sock true b) l = refl
accept-SameCalls type time (connection sock false b) l = not_created-SameCalls b time _

accept_all-SameCalls :
    (start : ℕ) (io : Ready) (l : LoopState) → SameCalls l (accept_all start io l)
unfolding accept_all
accept_all-SameCalls start io l = elim (Bool-cases (ltb l.defer_until start)) [
  | inl e ↦ rw e (
      accept-SameCalls conn_http io.time io.on_http _
      ∙ accept-SameCalls conn_tcp io.time io.on_tcp l)
  | inr e ↦ rw e refl
]

sigint-first : (l : LoopState) → l.ncalls ≡ 0 → sigint l ≡ ok (record l { ncalls = 1 })
unfolding sigint
sigint-first l e = rw e

sigint-second :
    (l : LoopState)
    → l.ncalls ≡ 1
    → sigint l ≡ ok (record l { app = record l.app { quitting = true }; ncalls = 2 })
unfolding sigint
sigint-second l e = rw e

sigint-third : (l : LoopState) → l.ncalls ≡ 2 → sigint l ≡ exits
unfolding sigint
sigint-third l e = rw e

-- the signals up to the second one
sigints-quit :
    (n : ℕ) (l : LoopState)
    → 1 ≤ n
    → l.ncalls + n ≡ 2
    → Post (λ l'. l'.app.quitting ≡ true) (sigints n l)
unfolding sigints
sigints-quit zero l some two = ground arith
sigints-quit (suc zero) l some two =
    let e : l.ncalls ≡ 1 = omega arith in rw (sigint-second l e) refl
sigints-quit (suc (suc zero)) l some two =
    let e : l.ncalls ≡ 0 = omega arith in rw (sigint-first l e) refl
sigints-quit (suc (suc (suc n))) l some two = ground arith

-- one signal more
sigints-exits : (n : ℕ) (l : LoopState) → l.ncalls ≤ 2 → 3 ≤ l.ncalls + n → sigints n l ≡ exits
unfolding sigints
sigints-exits zero l few more = ground arith
sigints-exits (suc n) l few more = by_calls l.ncalls refl (λ x f m. sigints-exits n x f m)
  where
    by_calls :
        (k : ℕ)
        → l.ncalls ≡ k
        → ((x : LoopState) → x.ncalls ≤ 2 → 3 ≤ x.ncalls + n → sigints n x ≡ exits)
        → (sigint l >>= sigints n) ≡ exits
    by_calls zero e rest =
        rw (sigint-first l e) (rest (record l { ncalls = 1 }) (ground arith) (ground arith))
    by_calls (suc zero) e rest = rw (sigint-second l e) (
        rest (record l { app = record l.app { quitting = true }; ncalls = 2 }) (ground arith)
          (ground arith))
    by_calls (suc (suc zero)) e rest = rw (sigint-third l e) refl
    by_calls (suc (suc (suc k))) e rest = ground arith

pub any : {A : Type 0} (r : Outcome A) → Post (λ _. Unit) r
any (ok a) = tt
any fails = tt
any exits = tt
any undefined = tt

module _ (env : Env) where
  after_select-SameCalls :
      (start : ℕ) (s : Selected) (l : LoopState) → Post (SameCalls l) (after_select env start s l)
  unfolding after_select set_app
  after_select-SameCalls start (ready io) l =
      let l₁ = accept_all start io (set_app (set_time io.time l.app) l) in
      bind-Post (λ _. Unit) (SameCalls l) (serve env io l₁.app) _ (any (serve env io l₁.app))
        (λ app u. accept_all-SameCalls start io (set_app (set_time io.time l.app) l))
  after_select-SameCalls start interrupted l = refl
  after_select-SameCalls start (bad_descriptors bad output input) l =
      bind-Post (λ _. Unit) (SameCalls l) (clean_up env bad output input l.app) _
        (any (clean_up env bad output input l.app)) (λ app u. refl)
  after_select-SameCalls start failed l = tt

  round-quit :
      (r : Round) (l : LoopState)
      → 1 ≤ r.interrupts
      → l.ncalls + r.interrupts ≡ 2
      → Post (λ l'. l'.app.quitting ≡ true) (round env r l)
  unfolding round set_app
  round-quit r l some two =
      let app = start_round env (set_time r.time l.app) in
      bind-Post (λ _. Unit) (λ l'. l'.app.quitting ≡ true) (init_sets env r.time l.defer_until app)
        _ (any (init_sets env r.time l.defer_until app))
        (λ app₁ u.
          let l₁ = set_app app₁ l in
          bind-Post (SameCalls l₁) (λ l'. l'.app.quitting ≡ true)
            (after_select env r.time r.selected l₁) _ (after_select-SameCalls r.time r.selected l₁)
            (λ l₂ same. sigints-quit r.interrupts l₂ some (rw (same) two)))

  run-quitting :
      (rounds : List Round) (l : LoopState) → l.app.quitting ≡ true → run env rounds l ≡ ok l
  unfolding run
  run-quitting [] l e = refl
  run-quitting (r ∷ rest) l e = unless l.app.quitting e
    where
      unless : (b : Bool) → b ≡ true → (if b then ok l else round env r l >>= run env rest) ≡ ok l
      unless true h = refl
      unless false h = cc

  -- If the loop still runs and the second SIGINT arrives in a round that returns, that round is the
  -- last one: the loop ends with its state, whatever rounds might follow.
  pub run-second_interrupt :
      (r : Round) (rest : List Round) (l l' : LoopState)
      → l.app.quitting ≡ false
      → 1 ≤ r.interrupts
      → l.ncalls + r.interrupts ≡ 2
      → round env r l ≡ ok l'
      → run env (r ∷ rest) l ≡ ok l'
  unfolding run
  run-second_interrupt r rest l l' going_on some two e =
      let quit : l'.app.quitting ≡ true =
        Post-ok (λ (x : LoopState). x.app.quitting ≡ true) (round env r l) (round-quit r l some two)
          e in
      going l.app.quitting going_on (ap (λ x. x >>= run env rest) e ∙ run-quitting rest l' quit)
    where
      going :
          (b : Bool)
          → b ≡ false
          → (round env r l >>= run env rest) ≡ ok l'
          → (if b then ok l else round env r l >>= run env rest) ≡ ok l'
      going true h q = cc
      going false h q = q

  -- A third SIGINT in a round that would return makes the program exit at once.
  pub round-third_interrupt :
      (r : Round) (l mid : LoopState)
      → l.ncalls ≤ 2
      → 3 ≤ l.ncalls + r.interrupts
      → (init_sets env r.time l.defer_until (start_round env (set_time r.time l.app)) >>= λ app.
          after_select env r.time r.selected (set_app app l))
        ≡ ok mid
      → round env r l ≡ exits
  unfolding round set_app
  round-third_interrupt r l mid few more e =
      let app = start_round env (set_time r.time l.app) in
      let (app₁, set, selected) =
        >>=-eq-ok (init_sets env r.time l.defer_until app)
          (λ a. after_select env r.time r.selected (set_app a l)) e in
      let l₁ = set_app app₁ l in
      let same : mid.ncalls ≡ l.ncalls =
        Post-ok (SameCalls l₁) (after_select env r.time r.selected l₁)
          (after_select-SameCalls r.time r.selected l₁) selected in
      ap (λ o. o >>= λ a. after_select env r.time r.selected (set_app a l) >>= sigints r.interrupts)
        set
      ∙ ap (λ x. x >>= sigints r.interrupts) selected
      ∙ sigints-exits r.interrupts mid (rw same few) (rw same more)
