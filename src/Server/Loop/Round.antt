-- ===== src/Server/Loop/Round.antt =====
-- The rounds of mainloop_select of src/servapp.h, acceptConnection, and the handler of SIGINT. What
-- the operating system answers in a round is an argument: the times, the outcome of select, the
-- connections, and for each descriptor what recv or read gives, if it is readable. A session or an
-- instance that is not in its map when a pass begins has no part in the pass.
use graphserv.Prelude.{
  ℕ, zero, suc, ◌+◌, ltb, if◌then◌else◌, Bool, true, false, ◌&&◌, ◌||◌, not, Text, List, [], ◌∷◌,
  ◌++◌, Option, none, some, map,
}
use graphserv.Prelude.Assoc.{find}
use graphserv.External.{Env}
use graphserv.Outcome.{Outcome, ok, fails, exits, undefined, ◌>>=◌}
use graphserv.Writer.{write_buffer_empty}
use graphserv.Writer
use graphserv.Auth
use graphserv.Core.{CoreInstance}
use graphserv.Session.{SessionContext, ConnectionType, conn_tcp, conn_http}
use graphserv.Server.{Graphserv, create_session, force_client_disconnect, put_core_instance}
use graphserv.Server.Loop.Sets.{init_sets}
use graphserv.Server.Loop.{
  Received, client_readable, client_writable, core_readable, remove_cores, start_round,
  finish_round,
}

-- A listening socket: it is not readable, or accept fails, or there is a connection, of which
-- closeOnExec may fail. The last Boolean tells whether errno is EMFILE after a failure.
pub data Accepted : Type 0 where
  no_connection : Accepted
  accept_fails : Bool → Accepted
  connection : ℕ → Bool → Bool → Accepted

-- The descriptors that are ready, and what happens on them.
pub record Ready : Type 0 where
  pub time : ℕ
  pub on_tcp : Accepted
  pub on_http : Accepted
  pub client_reads : ℕ → Option Received
  pub client_writes : ℕ → Bool
  pub core_reads : ℕ → Option Received
  pub core_writes : ℕ → Bool

-- What select answers. For bad descriptors: those sessions, and those instances by their output and
-- by their input, of which fcntl fails.
pub data Selected : Type 0 where
  ready : Ready → Selected
  interrupted : Selected
  bad_descriptors : (ℕ → Bool) → (ℕ → Bool) → (ℕ → Bool) → Selected
  failed : Selected

pub record Round : Type 0 where
  pub time : ℕ
  pub selected : Selected
  -- how often SIGINT arrives
  pub interrupts : ℕ

-- The server, with deferNewConnectionsUntil of the loop and ncalls of the signal handler.
pub record LoopState : Type 0 where
  pub app : Graphserv
  pub defer_until : ℕ
  pub ncalls : ℕ

-- the constructor of Graphserv, at time `now`
unfoldable pub create : Env → ℕ → ℕ → Text → ℕ → Outcome Graphserv
create env tcp_port http_port core_path now = Auth.create (env.files_at now) now >>= λ auth.
    ok (record {
      tcp_port = tcp_port;
      http_port = http_port;
      core_path = core_path;
      core_id_counter = 0;
      session_id_counter = 0;
      core_instances = [];
      session_contexts = [];
      clients_to_remove = [];
      password_auth = auth;
      status_messages = λ _. [];
      lines_from_clients = 0;
      quitting = false;
      now = now;
    })

unfoldable pub set_time : ℕ → Graphserv → Graphserv
set_time time app = record app { now = time }

unfoldable pub set_app : Graphserv → LoopState → LoopState
set_app app l = record l { app = app }

-- a connection could not be created
unfoldable pub not_created : Bool → ℕ → LoopState → LoopState
not_created too_many_files time l =
    if too_many_files then record l { defer_until = time + 3 } else l

-- acceptConnection, and what the loop does if it fails
unfoldable pub accept_connection : ConnectionType → ℕ → Accepted → LoopState → LoopState
unfolding not_created set_app
accept_connection type time no_connection l = l
accept_connection type time (accept_fails too_many_files) l = not_created too_many_files time l
accept_connection type time (connection sock close_on_exec too_many_files) l =
    let created = set_app (create_session close_on_exec type sock l.app) l in
    if close_on_exec then created else not_created too_many_files time created

-- both listening sockets, which select does not get while connections are deferred
unfoldable pub accept_all : ℕ → Ready → LoopState → LoopState
unfolding accept_connection
accept_all start io l =
    if ltb l.defer_until start
    then accept_connection conn_http io.time io.on_http
        (accept_connection conn_tcp io.time io.on_tcp l)
    else l

-- The first and the second SIGINT are reported, the second one ends the loop, the third one exits.
unfoldable pub sigint : LoopState → Outcome LoopState
sigint l = elim l.ncalls [
  | zero ↦ ok (record l { ncalls = 1 })
  | suc n ↦ elim n [
    | zero ↦ ok (record l { app = record l.app { quitting = true }; ncalls = 2 })
    | suc m ↦ exits
  ]
]

unfoldable pub sigints : ℕ → LoopState → Outcome LoopState
unfolding sigint
sigints zero l = ok l
sigints (suc n) l = sigint l >>= sigints n

module _ (env : Env) where
  -- a session in the pass over the sessions
  unfoldable pub read_client : Option Received → ℕ → Graphserv → Outcome Graphserv
  read_client none id app = ok app
  read_client (some received) id app = elim (find id app.session_contexts) [
    | none ↦ ok app
    | some sc ↦ client_readable env received (record { app = app; sc = sc })
  ]

  unfoldable pub write_client : Bool → ℕ → Graphserv → Graphserv
  write_client false id app = app
  write_client true id app = elim (find id app.session_contexts) [
    | none ↦ app
    | some sc ↦ client_writable env (record { app = app; sc = sc })
  ]

  unfoldable pub client_pass : Ready → List ℕ → Graphserv → Outcome Graphserv
  unfolding read_client write_client
  client_pass io [] app = ok app
  client_pass io (id ∷ rest) app = read_client (io.client_reads id) id app >>= λ app₁.
      client_pass io rest (write_client (io.client_writes id) id app₁)

  -- an instance in the pass over the instances, and the list coresToRemove
  unfoldable pub read_core :
      Option Received → ℕ → List CoreInstance → Graphserv → Outcome (Graphserv × List CoreInstance)
  read_core none id gone app = ok (app, gone)
  read_core (some received) id gone app = elim (find id app.core_instances) [
    | none ↦ ok (app, gone)
    | some core ↦ core_readable env received core app >>= λ r.
        ok (r.0, if r.1 then gone ++ core ∷ [] else gone)
  ]

  unfoldable pub write_core : Bool → ℕ → Graphserv → Graphserv
  write_core false id app = app
  write_core true id app = elim (find id app.core_instances) [
    | none ↦ app
    | some core ↦
        put_core_instance (record core { writer = (Writer.flush env core.writer).writer }) app
  ]

  unfoldable pub core_pass :
      Ready → List ℕ → List CoreInstance → Graphserv → Outcome (Graphserv × List CoreInstance)
  unfolding read_core write_core
  core_pass io [] gone app = ok (app, gone)
  core_pass io (id ∷ rest) gone app = read_core (io.core_reads id) id gone app >>= λ r.
      core_pass io rest r.1 (write_core (io.core_writes id) id r.0)

  -- a round whose select finds ready descriptors, behind the connections
  unfoldable pub serve : Ready → Graphserv → Outcome Graphserv
  unfolding client_pass core_pass
  serve io app = client_pass io (map (λ p. p.0) app.session_contexts) app >>= λ app₁.
      core_pass io (map (λ p. p.0) app₁.core_instances) [] app₁ >>= λ r.
      ok (finish_round env (remove_cores env r.1 r.0))

  -- the sessions with output whose descriptor is bad
  unfoldable pub disconnect_bad : (ℕ → Bool) → List (ℕ × SessionContext) → Graphserv → Graphserv
  disconnect_bad bad [] app = app
  disconnect_bad bad ((id, sc) ∷ rest) app = disconnect_bad bad rest (
      if not (write_buffer_empty sc.writer) && bad id
      then force_client_disconnect sc.client_id app
      else app)

  unfoldable pub has_bad_core : (ℕ → Bool) → (ℕ → Bool) → List (ℕ × CoreInstance) → Bool
  has_bad_core bad_output bad_input [] = false
  has_bad_core bad_output bad_input ((id, core) ∷ rest) =
      bad_output id
      || not (write_buffer_empty core.writer) && bad_input id
      || has_bad_core bad_output bad_input rest

  -- The loop over the map of instances erases the instance that it stands at, and then goes on from
  -- it: the behaviour is undefined.
  unfoldable pub clean_up : (ℕ → Bool) → (ℕ → Bool) → (ℕ → Bool) → Graphserv → Outcome Graphserv
  unfolding disconnect_bad has_bad_core
  clean_up bad bad_output bad_input app =
      let app₁ = disconnect_bad bad app.session_contexts app in
      if has_bad_core bad_output bad_input app₁.core_instances then undefined else ok app₁

  unfoldable pub after_select : ℕ → Selected → LoopState → Outcome LoopState
  unfolding serve clean_up accept_all set_time set_app
  after_select start (ready io) l =
      let l₁ = accept_all start io (set_app (set_time io.time l.app) l) in
      serve io l₁.app >>= λ app. ok (set_app app l₁)
  after_select start interrupted l = ok l
  after_select start (bad_descriptors bad bad_output bad_input) l =
      clean_up bad bad_output bad_input l.app >>= λ app. ok (set_app app l)
  after_select start failed l = fails

  unfoldable pub round : Round → LoopState → Outcome LoopState
  unfolding after_select sigints
  round r l =
      init_sets env r.time l.defer_until (start_round env (set_time r.time l.app)) >>= λ app.
      after_select r.time r.selected (set_app app l) >>= sigints r.interrupts

  -- the loop, with what happens in each of its rounds
  unfoldable pub run : List Round → LoopState → Outcome LoopState
  unfolding round
  run [] l = ok l
  run (r ∷ rest) l = if l.app.quitting then ok l else round r l >>= run rest

  -- the server from its start on
  unfoldable pub serve_all : ℕ → ℕ → Text → ℕ → List Round → Outcome LoopState
  unfolding create run
  serve_all tcp_port http_port core_path now rounds =
      create env tcp_port http_port core_path now >>= λ app.
      run rounds (record { app = app; defer_until = 0; ncalls = 0 })
