-- ===== src/Server/Loop/Accepting.antt =====
-- How the main loop defers connections when the process has too many open files.
use graphserv.Prelude.{
  ap, zero, suc, ℕ, ◌≡◌, ◌≤◌, ◌<◌, ◌+◌, ◌⊎◌, inl, inr, refl, ◌∙◌, ltb, Bool, true, false, arith,
}
use graphserv.External.{Env}
use graphserv.Outcome.{Outcome, ok, exits, ◌>>=◌, Post, bind-Post, bind-same, Post-map, Post-ok}
use graphserv.Server.Loop.{start_round}
use graphserv.Server.Loop.Sets.{init_sets}
use graphserv.Server.Loop.Signals.{any}
use graphserv.Session.{ConnectionType, conn_tcp, conn_http}
use graphserv.Server.Loop.Round.{
  Accepted, no_connection, accept_fails, connection, Ready, LoopState, not_created, set_app,
  accept_connection, accept_all, Round, ready, set_time, serve, after_select, round, sigint,
  sigints,
}

-- The connection could not be created, and errno is EMFILE.
abbrev pub IsRefused : Accepted → Type 0
IsRefused a = (a ≡ accept_fails true) ⊎ ((sock : ℕ) × (a ≡ connection sock false true))

refused-defer_until :
    (type : ConnectionType) (time : ℕ) (a : Accepted) (l : LoopState)
    → IsRefused a
    → (accept_connection type time a l).defer_until ≡ time + 3
unfolding accept_connection not_created
refused-defer_until type time a l (inl e) = rw e refl
refused-defer_until type time a l (inr (sock, e)) = rw e refl

not_created-cases :
    (b : Bool) (time : ℕ) (l : LoopState)
    → ((not_created b time l).defer_until ≡ l.defer_until)
      ⊎ ((not_created b time l).defer_until ≡ time + 3)
unfolding not_created
not_created-cases false time l = inl refl
not_created-cases true time l = inr refl

-- A connection on one socket does not end what a refused one on the other socket has set.
accept-cases :
    (type : ConnectionType) (time : ℕ) (a : Accepted) (l : LoopState)
    → ((accept_connection type time a l).defer_until ≡ l.defer_until)
      ⊎ ((accept_connection type time a l).defer_until ≡ time + 3)
unfolding accept_connection set_app
accept-cases type time no_connection l = inl refl
accept-cases type time (accept_fails b) l = not_created-cases b time l
accept-cases type time (connection sock true b) l = inl refl
accept-cases type time (connection sock false b) l = not_created-cases b time _

accept_all-defer_until :
    (start : ℕ) (io : Ready) (l : LoopState)
    → l.defer_until < start
    → IsRefused io.on_tcp ⊎ IsRefused io.on_http
    → (accept_all start io l).defer_until ≡ io.time + 3
unfolding accept_all
accept_all-defer_until start io l going_on (inr http) =
    let e : ltb l.defer_until start ≡ true = ground arith in
    rw e (refused-defer_until conn_http io.time io.on_http _ http)
accept_all-defer_until start io l going_on (inl tcp) =
    let e : ltb l.defer_until start ≡ true = ground arith in
    let first = refused-defer_until conn_tcp io.time io.on_tcp l tcp in
    rw e
      (elim (accept-cases conn_http io.time io.on_http
        (accept_connection conn_tcp io.time io.on_tcp l)) [
          | inl same ↦ same ∙ first
          | inr set ↦ set
        ])

-- Nothing behind the connections of a round touches the time.
abbrev SameDeferral : LoopState → LoopState → Type 0
SameDeferral l l' = l'.defer_until ≡ l.defer_until

sigint-SameDeferral : (l : LoopState) → Post (SameDeferral l) (sigint l)
unfolding sigint
sigint-SameDeferral l = by_calls l.ncalls
  where
    by_calls :
        (k : ℕ)
        → Post (SameDeferral l) (elim k [
          | zero ↦ ok (record l { ncalls = 1 })
          | suc n ↦ elim n [
            | zero ↦ ok (record l { app = record l.app { quitting = true }; ncalls = 2 })
            | suc m ↦ exits
          ]
        ])
    by_calls zero = refl
    by_calls (suc zero) = refl
    by_calls (suc (suc m)) = tt

sigints-SameDeferral : (n : ℕ) (l : LoopState) → Post (SameDeferral l) (sigints n l)
unfolding sigints
sigints-SameDeferral zero l = refl
sigints-SameDeferral (suc n) l =
    bind-Post (SameDeferral l) (SameDeferral l) (sigint l) (sigints n) (sigint-SameDeferral l)
      (λ l₁ same.
        Post-map (SameDeferral l₁) (SameDeferral l) _ (λ x e. e ∙ same) (sigints-SameDeferral n l₁))

-- while connections are deferred none is taken
deferred :
    (start : ℕ) (io : Ready) (l : LoopState) → start ≤ l.defer_until → accept_all start io l ≡ l
unfolding accept_all
deferred start io l soon = let e : ltb l.defer_until start ≡ false = ground arith in rw e refl

module _ (env : Env) where
  -- A round without its connections.
  abbrev pub without_connections : Round → Ready → LoopState → Outcome LoopState
  without_connections r io l =
      init_sets env r.time l.defer_until (start_round env (set_time r.time l.app)) >>= λ app.
      (serve env io (set_time io.time app) >>= λ app₁. ok (set_app app₁ l)) >>= sigints r.interrupts

  select-refused :
      (start : ℕ) (io : Ready) (l : LoopState)
      → l.defer_until < start
      → IsRefused io.on_tcp ⊎ IsRefused io.on_http
      → Post (λ l'. l'.defer_until ≡ io.time + 3) (after_select env start (ready io) l)
  unfolding after_select set_app
  select-refused start io l going_on refused =
      let l₀ = set_app (set_time io.time l.app) l in
      let l₁ = accept_all start io l₀ in
      bind-Post (λ _. Unit) (λ l'. l'.defer_until ≡ io.time + 3) (serve env io l₁.app) _
        (any (serve env io l₁.app)) (λ app u. accept_all-defer_until start io l₀ going_on refused)

  round-refused :
      (r : Round) (io : Ready) (l : LoopState)
      → r.selected ≡ ready io
      → l.defer_until < r.time
      → IsRefused io.on_tcp ⊎ IsRefused io.on_http
      → Post (λ l'. l'.defer_until ≡ io.time + 3) (round env r l)
  unfolding round set_app
  round-refused r io l s going_on refused =
      let app = start_round env (set_time r.time l.app) in
      bind-Post (λ _. Unit) (λ l'. l'.defer_until ≡ io.time + 3)
        (init_sets env r.time l.defer_until app) _ (any (init_sets env r.time l.defer_until app))
        (λ a u.
          let l₁ = set_app a l in
          bind-Post (λ l₂. l₂.defer_until ≡ io.time + 3) (λ l'. l'.defer_until ≡ io.time + 3)
            (after_select env r.time r.selected l₁) _
            (rw s (select-refused r.time io l₁ going_on refused))
            (λ l₂ set.
              Post-map (SameDeferral l₂) (λ l'. l'.defer_until ≡ io.time + 3) _
                (λ x same. same ∙ set) (sigints-SameDeferral r.interrupts l₂)))

  select-deferred :
      (start : ℕ) (io : Ready) (l : LoopState)
      → start ≤ l.defer_until
      → after_select env start (ready io) l
        ≡ (serve env io (set_time io.time l.app) >>= λ app. ok (set_app app l))
  unfolding after_select set_app
  select-deferred start io l soon =
      rw (after_select, deferred start io (set_app (set_time io.time l.app) l) soon) refl

  -- If connections are open in a round that returns, and one cannot be created on either socket
  -- because the process has too many open files, then a later round that begins at most three seconds
  -- after that runs as if there were no connections on the sockets, whatever there is: it goes from
  -- select to the passes over the sessions and the instances, and the signals.
  pub round-deferred :
      (r later : Round) (io next : Ready) (l l' : LoopState)
      → r.selected ≡ ready io
      → l.defer_until < r.time
      → IsRefused io.on_tcp ⊎ IsRefused io.on_http
      → round env r l ≡ ok l'
      → later.selected ≡ ready next
      → later.time ≤ io.time + 3
      → round env later l' ≡ without_connections later next l'
  unfolding round set_app
  round-deferred r later io next l l' s going_on refused e s' soon =
      let set : l'.defer_until ≡ io.time + 3 =
        Post-ok (λ (x : LoopState). x.defer_until ≡ io.time + 3) (round env r l)
          (round-refused r io l s going_on refused) e in
      let closed : later.time ≤ l'.defer_until = omega arith in
      let app = start_round env (set_time later.time l'.app) in
      bind-same (init_sets env later.time l'.defer_until app) _ _ (λ a.
        ap (λ x. after_select env later.time x (set_app a l') >>= sigints later.interrupts) s'
        ∙ ap (λ o. o >>= sigints later.interrupts)
            (select-deferred later.time next (set_app a l') closed))
