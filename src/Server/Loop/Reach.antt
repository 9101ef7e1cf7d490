-- ===== src/Server/Loop/Reach.antt =====
-- What is true of the server after any number of rounds.
use graphserv.Prelude.{
  ℕ, zero, suc, ◌≡◌, inl, inr, refl, ltb, if◌then◌else◌, Bool, true, false, ◌&&◌, not, Bool-cases,
  Text, List, [], ◌∷◌, map,
}
use graphserv.Prelude.Entries.{insert-All, insert-IsAscending}
use graphserv.External.{Env}
use graphserv.Outcome.{Post, bind-Post, Post-ok, Outcome, ok, fails, exits, undefined, ◌>>=◌}
use graphserv.Writer.{write_buffer_empty}
use graphserv.Auth
use graphserv.Auth.{PasswordAuth}
use graphserv.Auth.Authorize.{create-cases}
use graphserv.Session.{SessionContext, ConnectionType, conn_tcp, conn_http}
use graphserv.Session
use graphserv.Server.{Graphserv, create_session}
use graphserv.Server.Loop.{start_round}
use graphserv.Server.Loop.Sets.{init_sets, init_sets-same}
use graphserv.Server.Loop.Round.{
  Accepted, no_connection, accept_fails, connection, Ready, Selected, ready, interrupted,
  bad_descriptors, failed, Round, LoopState, create, set_time, set_app, not_created,
  accept_connection, accept_all, sigint, sigints, client_pass, core_pass, serve, disconnect_bad,
  has_bad_core, clean_up, after_select, round, run, serve_all,
}
use graphserv.Server.Loop.Safety.{IsSafe, SessionIsSafe, still-IsSafe}
use graphserv.Server.Loop.Clients.{client_pass-IsSafe, disconnect-IsSafe}
use graphserv.Server.Loop.Cores.{FirstIsSafe, core_pass-IsSafe, remove_cores-IsSafe}
use graphserv.Server.Loop.Ends.{start_round-IsSafe, finish_round-IsSafe}

module _ (env : Env) where
  abbrev StateIsSafe : LoopState → Type 0
  StateIsSafe l = IsSafe env l.app

  pub set_time-IsSafe :
      (time : ℕ) (app : Graphserv) → IsSafe env app → IsSafe env (set_time time app)
  unfolding set_time
  set_time-IsSafe time app s = still-IsSafe env app _ refl refl refl s

  pub create_session-IsSafe :
      (close_on_exec : Bool) (type : ConnectionType) (sock : ℕ) (app : Graphserv)
      → IsSafe env app
      → IsSafe env (create_session close_on_exec type sock app)
  unfolding create_session Session.create
  create_session-IsSafe false type sock app s = still-IsSafe env app _ refl refl refl s
  create_session-IsSafe true type sock app s = record {
    cores = s.cores;
    sessions = insert-All (SessionIsSafe env) _ _ app.session_contexts s.sessions (refl, inl refl);
    ordered = insert-IsAscending _ _ app.session_contexts s.ordered;
    table = s.table;
  }

  not_created-IsSafe :
      (b : Bool) (time : ℕ) (l : LoopState) → StateIsSafe l → StateIsSafe (not_created b time l)
  unfolding not_created
  not_created-IsSafe false time l s = s
  not_created-IsSafe true time l s = s

  accept-IsSafe :
      (type : ConnectionType) (time : ℕ) (a : Accepted) (l : LoopState)
      → StateIsSafe l
      → StateIsSafe (accept_connection type time a l)
  unfolding accept_connection set_app
  accept-IsSafe type time no_connection l s = s
  accept-IsSafe type time (accept_fails b) l s = not_created-IsSafe b time l s
  accept-IsSafe type time (connection sock true b) l s =
      create_session-IsSafe true type sock l.app s
  accept-IsSafe type time (connection sock false b) l s =
      not_created-IsSafe b time _ (create_session-IsSafe false type sock l.app s)

  accept_all-IsSafe :
      (start : ℕ) (io : Ready) (l : LoopState) → StateIsSafe l → StateIsSafe (accept_all start io l)
  unfolding accept_all
  accept_all-IsSafe start io l s = elim (Bool-cases (ltb l.defer_until start)) [
    | inl e ↦ rw e (
        accept-IsSafe conn_http io.time io.on_http _ (accept-IsSafe conn_tcp io.time io.on_tcp l s))
    | inr e ↦ rw e s
  ]

  sigint-IsSafe : (n : ℕ) (l : LoopState) → StateIsSafe l → Post StateIsSafe (sigints n l)
  unfolding sigints sigint
  sigint-IsSafe zero l s = s
  sigint-IsSafe (suc n) l s =
      bind-Post StateIsSafe StateIsSafe (sigint l) _ (once l.ncalls)
        (λ l₁ s₁. sigint-IsSafe n l₁ s₁)
    where
      once :
          (calls : ℕ)
          → Post StateIsSafe (elim calls [
            | zero ↦ ok (record l { ncalls = 1 })
            | suc n ↦ elim n [
              | zero ↦ ok (record l { app = record l.app { quitting = true }; ncalls = 2 })
              | suc m ↦ exits
            ]
          ])
      once zero = s
      once (suc zero) = still-IsSafe env l.app _ refl refl refl s
      once (suc (suc m)) = tt

  serve-IsSafe :
      (io : Ready) (app : Graphserv) → IsSafe env app → Post (IsSafe env) (serve env io app)
  unfolding serve
  serve-IsSafe io app s =
      bind-Post (IsSafe env) (IsSafe env)
        (client_pass env io (map (λ p. p.0) app.session_contexts) app) _
        (client_pass-IsSafe env io _ app s)
        (λ app₁ s₁.
          bind-Post (FirstIsSafe env) (IsSafe env)
            (core_pass env io (map (λ p. p.0) app₁.core_instances) [] app₁) _
            (core_pass-IsSafe env io _ [] app₁ s₁)
            (λ r s₂. finish_round-IsSafe env _ (remove_cores-IsSafe env r.1 r.0 s₂)))

  disconnect_bad-IsSafe :
      (bad : ℕ → Bool) (sessions : List (ℕ × SessionContext)) (app : Graphserv)
      → IsSafe env app
      → IsSafe env (disconnect_bad env bad sessions app)
  unfolding disconnect_bad
  disconnect_bad-IsSafe bad [] app s = s
  disconnect_bad-IsSafe bad ((id, sc) ∷ rest) app s =
      elim (Bool-cases (not (write_buffer_empty sc.writer) && bad id)) [
        | inl e ↦ rw e (disconnect_bad-IsSafe bad rest _ (disconnect-IsSafe env sc.client_id app s))
        | inr e ↦ rw e (disconnect_bad-IsSafe bad rest app s)
      ]

  clean_up-IsSafe :
      (bad bad_output bad_input : ℕ → Bool) (app : Graphserv)
      → IsSafe env app
      → Post (IsSafe env) (clean_up env bad bad_output bad_input app)
  unfolding clean_up
  clean_up-IsSafe bad bad_output bad_input app s =
      let app₁ = disconnect_bad env bad app.session_contexts app in
      elim (Bool-cases (has_bad_core env bad_output bad_input app₁.core_instances)) [
        | inl e ↦ rw e tt
        | inr e ↦ rw e (disconnect_bad-IsSafe bad app.session_contexts app s)
      ]

  after_select-IsSafe :
      (start : ℕ) (selected : Selected) (l : LoopState)
      → StateIsSafe l
      → Post StateIsSafe (after_select env start selected l)
  unfolding after_select set_app
  after_select-IsSafe start (ready io) l s =
      let l₁ = accept_all start io (set_app (set_time io.time l.app) l) in
      bind-Post (IsSafe env) StateIsSafe (serve env io l₁.app) _
        (serve-IsSafe io l₁.app (accept_all-IsSafe start io _ (set_time-IsSafe io.time l.app s)))
        (λ app s₁. s₁)
  after_select-IsSafe start interrupted l s = s
  after_select-IsSafe start (bad_descriptors bad bad_output bad_input) l s =
      bind-Post (IsSafe env) StateIsSafe (clean_up env bad bad_output bad_input l.app) _
        (clean_up-IsSafe bad bad_output bad_input l.app s) (λ app s₁. s₁)
  after_select-IsSafe start failed l s = tt

  round-IsSafe : (r : Round) (l : LoopState) → StateIsSafe l → Post StateIsSafe (round env r l)
  unfolding round set_app
  round-IsSafe r l s =
      let app = start_round env (set_time r.time l.app) in
      bind-Post (λ a. a ≡ app) StateIsSafe (init_sets env r.time l.defer_until app) _
        (init_sets-same env r.time l.defer_until app)
        (λ app₁ same.
          let l₁ = set_app app₁ l in
          bind-Post StateIsSafe StateIsSafe (after_select env r.time r.selected l₁) _
            (after_select-IsSafe r.time r.selected l₁
              (rw same (start_round-IsSafe env _ (set_time-IsSafe r.time l.app s))))
            (λ l₂ s₂. sigint-IsSafe r.interrupts l₂ s₂))

  run-IsSafe :
      (rounds : List Round) (l : LoopState) → StateIsSafe l → Post StateIsSafe (run env rounds l)
  unfolding run
  run-IsSafe [] l s = s
  run-IsSafe (r ∷ rest) l s = unless l.app.quitting (ok l) (round env r l >>= run env rest) s (
      bind-Post StateIsSafe StateIsSafe (round env r l) (run env rest) (round-IsSafe r l s)
        (λ l₁ s₁. run-IsSafe rest l₁ s₁))
    where
      unless :
          (b : Bool) (x y : Outcome LoopState)
          → Post StateIsSafe x
          → Post StateIsSafe y
          → Post StateIsSafe (if b then x else y)
      unless true x y px py = px
      unless false x y px py = py

  pub create-IsSafe :
      (tcp_port http_port : ℕ) (core_path : Text) (now : ℕ)
      → Post (IsSafe env) (create env tcp_port http_port core_path now)
  unfolding create
  create-IsSafe tcp_port http_port core_path now =
      begun (Auth.create (env.files_at now) now) (λ auth e. e)
    where
      begun :
          (r : Outcome PasswordAuth)
          → ((auth : PasswordAuth) → r ≡ ok auth → Auth.create (env.files_at now) now ≡ ok auth)
          → Post (IsSafe env) (
              r >>= λ auth. ok (record {
                tcp_port = tcp_port;
                http_port = http_port;
                core_path = core_path;
                core_id_counter = 0;
                session_id_counter = 0;
                core_instances = [];
                session_contexts = [];
                clients_to_remove = [];
                password_auth = auth;
                status_messages = λ _. [];
                lines_from_clients = 0;
                quitting = false;
                now = now;
              }))
      begun (ok auth) same = record {
        cores = record { ascending = tt; keyed = tt; one_state = tt; distinct = tt };
        sessions = tt;
        ordered = tt;
        table = elim (create-cases (env.files_at now) now auth (same auth refl)) [
          | inl read ↦ inr (now, read)
          | inr none_yet ↦ inl none_yet
        ];
      }
      begun fails same = tt
      begun exits same = tt
      begun undefined same = tt

  -- After any rounds of the main loop of a server that has just been started, whatever the operating
  -- system answers in them and as long as no call exits or has undefined behaviour: the
  -- instances and the sessions stand under their own IDs, in ascending order, no instance
  -- expects a status line and a data set at once, two running instances have different names, every
  -- session reads only or has the level that the two credential files had, at some time, for
  -- credentials that crypt() accepts, and the cached table is empty or what the files had at some time.
  pub serve_all-IsSafe :
      (tcp_port http_port : ℕ) (core_path : Text) (now : ℕ) (rounds : List Round) (l : LoopState)
      → serve_all env tcp_port http_port core_path now rounds ≡ ok l
      → IsSafe env l.app
  unfolding serve_all
  serve_all-IsSafe tcp_port http_port core_path now rounds l e =
      Post-ok StateIsSafe (serve_all env tcp_port http_port core_path now rounds)
        (bind-Post (IsSafe env) StateIsSafe (create env tcp_port http_port core_path now) _
          (create-IsSafe tcp_port http_port core_path now) (λ app s. run-IsSafe rounds _ s))
        e
