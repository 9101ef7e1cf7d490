-- ===== src/Server/Loop/Sets.antt =====
-- The sets of descriptors that mainloop_select of src/servapp.h passes to select. What the sets hold
-- shows in what select answers; here they matter by the descriptors that FD_SET has no room for.
use graphserv.Prelude.{
  ℕ, ◌≡◌, ◌≤◌, ◌⊎◌, inl, inr, refl, ap, ltb, if◌then◌else◌, Bool-cases, List, [], ◌∷◌, ◌++◌, concat,
  map, arith,
}
use graphserv.External.{Env}
use graphserv.Outcome.{Outcome, ok, undefined, Post, ◌>>=◌}
use graphserv.Writer.{write_buffer_empty}
use graphserv.Core.{CoreInstance}
use graphserv.Session.{SessionContext}
use graphserv.Server.{Graphserv}

module _ (env : Env) where
  -- FD_SET is undefined for a descriptor that is too large
  unfoldable pub fd_add : ℕ → Graphserv → Outcome Graphserv
  fd_add fd app = if ltb fd env.fd_setsize then ok app else undefined

  unfoldable pub fd_add_all : List ℕ → Graphserv → Outcome Graphserv
  unfolding fd_add
  fd_add_all [] app = ok app
  fd_add_all (fd ∷ rest) app = fd_add fd app >>= fd_add_all rest

  -- the descriptors of a session: for reading unless it is choked, for writing if there is output
  abbrev pub session_fds : ℕ → SessionContext → List ℕ
  session_fds time sc =
      (if ltb sc.choke_time time then sc.sockfd ∷ [] else [])
      ++ (if write_buffer_empty sc.writer then [] else sc.sockfd ∷ [])

  -- those of an instance, behind the flush of its queue
  abbrev pub core_fds : CoreInstance → List ℕ
  core_fds core =
      env.core_read_fd core.instance_id
      ∷ env.core_stderr_fd core.instance_id
      ∷ (if write_buffer_empty core.writer then [] else core.writer.fd ∷ [])

  -- all of a round; the listening sockets only if connections are not deferred
  abbrev pub round_fds : ℕ → ℕ → Graphserv → List ℕ
  round_fds time defer_until app =
      (if ltb defer_until time then env.listen_fds else [])
      ++ concat (map (λ p. session_fds time p.1) app.session_contexts)
      ++ concat (map (λ p. core_fds p.1) app.core_instances)

  unfoldable pub init_sets : ℕ → ℕ → Graphserv → Outcome Graphserv
  unfolding fd_add_all
  init_sets time defer_until app = fd_add_all (round_fds time defer_until app) app

  fd_add_all-same : (fds : List ℕ) (app : Graphserv) → Post (λ a. a ≡ app) (fd_add_all fds app)
  unfolding fd_add_all fd_add
  fd_add_all-same [] app = refl
  fd_add_all-same (fd ∷ rest) app = elim (Bool-cases (ltb fd env.fd_setsize)) [
    | inl e ↦ rw e (fd_add_all-same rest app)
    | inr e ↦ rw e tt
  ]

  -- the sets are no part of the server
  pub init_sets-same :
      (time defer_until : ℕ) (app : Graphserv)
      → Post (λ a. a ≡ app) (init_sets time defer_until app)
  unfolding init_sets
  init_sets-same time defer_until app = fd_add_all-same (round_fds time defer_until app) app

  -- One of the descriptors is too large.
  pub record HasLarge (fds : List ℕ) : Type 0 where
    pub before : List ℕ
    pub fd : ℕ
    pub behind : List ℕ
    pub among : fds ≡ before ++ fd ∷ behind
    pub large : env.fd_setsize ≤ fd

  fd_add_all-cases : (fds : List ℕ) (app : Graphserv) → (fd_add_all fds app ≡ ok app) ⊎ HasLarge fds
  unfolding fd_add_all fd_add
  fd_add_all-cases [] app = inl refl
  fd_add_all-cases (fd ∷ rest) app = elim (Bool-cases (ltb fd env.fd_setsize)) [
    | inr e ↦
        inr (record { before = []; fd = fd; behind = rest; among = refl; large = ground arith })
    | inl e ↦ elim (fd_add_all-cases rest app) [
      | inl done ↦ inl (rw e done)
      | inr h ↦ inr (record {
        before = fd ∷ h.before;
        fd = h.fd;
        behind = h.behind;
        among = ap (◌∷◌ fd) h.among;
        large = h.large;
      })
    ]
  ]

  pub init_sets-cases :
      (time defer_until : ℕ) (app : Graphserv)
      → (init_sets time defer_until app ≡ ok app) ⊎ HasLarge (round_fds time defer_until app)
  unfolding init_sets
  init_sets-cases time defer_until app = fd_add_all-cases (round_fds time defer_until app) app
