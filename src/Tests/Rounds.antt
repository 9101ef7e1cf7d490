-- ===== src/Tests/Rounds.antt =====
-- Rounds of the main loop at concrete inputs.
use graphserv.Prelude.{
  ℕ, ◌+◌, ◌≡◌, ◌≤◌, inl, inr, refl, ◌==◌, if◌then◌else◌, Bool, true, false, Text, codes, List, [],
  ◌∷◌, ◌++◌, Option, none, some, same_text, map, arith,
}
use graphserv.External.{Env, replied}
use graphserv.Outcome.{Outcome, ok, ◌>>=◌}
use graphserv.Server.Loop.{Received, bytes, closed}
use graphserv.Server.Loop.Round.{
  no_connection, accept_fails, connection, Ready, Round, LoopState, ready, interrupted, round, run,
  serve_all, create,
}
use graphserv.Server.Loop.Safety.{IsSafe}
use graphserv.Server.Loop.Accepting.{without_connections, round-deferred}
use graphserv.Server.Loop.Signals.{run-second_interrupt}
use graphserv.Session.{conn_tcp}
use graphserv.Server.{Graphserv}
use graphserv.Server.Libevent.{Event, connect, session_readable, core_readable, handle, dispatch}
use graphserv.Server.Libevent.Framing.{handle-append}
use graphserv.Server.Libevent.Reach.{dispatch_all-IsSafe}
use graphserv.Server.Loop.Reach.{serve_all-IsSafe}
use graphserv.Tests.Fixture.{sample_env}
use graphserv.Tests.Sessions.{sample_app}

-- a core that answers its start with its version
abbrev pub core_env : Env
core_env = record sample_env { launch = λ id. replied (100 + id) (20 + id) (codes "OK. 1") }

abbrev quiet_round : Ready
quiet_round = record {
  time = 40;
  on_tcp = no_connection;
  on_http = no_connection;
  client_reads = λ _. none;
  client_writes = λ _. false;
  core_reads = λ _. none;
  core_writes = λ _. false;
}

abbrev pub nothing_ready : Round
nothing_ready = record { time = 40; selected = ready quiet_round; interrupts = 0 }

-- a client connects, becomes an administrator and starts a core
abbrev connects : Round
connects = record nothing_ready {
  selected = ready (record quiet_round { on_tcp = connection 9 true false });
}

abbrev sends : Round
sends = record nothing_ready {
  selected = ready (record quiet_round {
    client_reads = λ id.
        if id == 1
        then some (
            bytes (
              codes "authorize password lea:abcdefghijklm"
              ++ 10 ∷ codes "create-graph g"
              ++ 10 ∷ []))
        else none;
  });
}

abbrev sample_rounds : List Round
sample_rounds = connects ∷ sends ∷ []

abbrev returned : LoopState → Outcome LoopState → LoopState
returned l (ok x) = x
returned l _ = l

abbrev idle_state : LoopState
idle_state = record { app = sample_app; defer_until = 0; ncalls = 0 }

abbrev after_rounds : LoopState
after_rounds =
    returned idle_state (serve_all core_env 6666 8090 (codes "graphcore") 30 sample_rounds)

-- the client's core runs
starts_core : map (λ p. p.1.instance_name) after_rounds.app.core_instances ≡ codes "g" ∷ []
unfolding serve_all graphserv.Auth.create graphserv.Auth.Files.read_credential_files
    graphserv.Auth.Split.fgets_lines graphserv.Auth.Split.split_line graphserv.Auth.Files.group_line
    graphserv.Auth.Files.parse_level same_text graphserv.Access.access_level_name
    graphserv.Server.create_session graphserv.Prelude.Assoc.insert graphserv.Server.Loop.start_round
    graphserv.Server.Loop.remove_clients graphserv.Server.Loop.finish_round
    graphserv.Server.Loop.remove_cores graphserv.Server.Loop.is_done graphserv.Session.create
    graphserv.Server.next_id graphserv.Prelude.Assoc.find graphserv.Server.Loop.client_readable
    graphserv.Server.Loop.client_bytes graphserv.Prelude.Assoc.member
    graphserv.Server.Dispatch.line_from_client graphserv.Server.is_waiting_for_core_reply
    graphserv.Server.find_instance graphserv.Core.Entry.flushable graphserv.Core.Entry.new_entry
    graphserv.Prelude.contains graphserv.Server.Reply.lacks_newline
    graphserv.Core.Entry.append_to_dataset graphserv.Server.Loop.put_session
    graphserv.Prelude.Assoc.update graphserv.Server.Dispatch.process_command
    graphserv.Server.Commands.find_command graphserv.Server.Commands.command_name
    graphserv.Server.Dispatch.server_command graphserv.Server.Forwarding.has_redirection
    graphserv.Server.Commands.Execute.execute graphserv.Server.Commands.command_level
    graphserv.Server.Commands.returns_void graphserv.Server.Commands.Execute.exec
    graphserv.Server.Commands.Info.exec_authorize graphserv.Auth.authorize
    graphserv.Auth.refresh_file_cache graphserv.Server.Reply.forward_statusline
    graphserv.Prelude.Assoc.lookup graphserv.Prelude.Assoc.put graphserv.Server.Commands.set_message
    graphserv.Server.Reply.write graphserv.Writer.write graphserv.Writer.flush
    graphserv.Writer.write_string graphserv.Prelude.text
    graphserv.Server.Commands.Graphs.exec_create_graph graphserv.Server.is_valid_graph_name
    graphserv.Server.find_named_instance graphserv.Core.Launch.start_core
    graphserv.Core.Launch.has_prefix graphserv.Core.Launch.reply_version
    graphserv.Server.create_core_instance graphserv.Server.add_core_instance graphserv.Core.set_name
    graphserv.Server.Loop.Sets.init_sets graphserv.Writer.write_buffer_empty
starts_core = refl

serve_all-returns :
    serve_all core_env 6666 8090 (codes "graphcore") 30 sample_rounds ≡ ok after_rounds
unfolding serve_all graphserv.Auth.create graphserv.Auth.Files.read_credential_files
    graphserv.Auth.Split.fgets_lines graphserv.Auth.Split.split_line graphserv.Auth.Files.group_line
    graphserv.Auth.Files.parse_level same_text graphserv.Access.access_level_name
    graphserv.Server.create_session graphserv.Prelude.Assoc.insert graphserv.Server.Loop.start_round
    graphserv.Server.Loop.remove_clients graphserv.Server.Loop.finish_round
    graphserv.Server.Loop.remove_cores graphserv.Server.Loop.is_done graphserv.Session.create
    graphserv.Server.next_id graphserv.Prelude.Assoc.find graphserv.Server.Loop.client_readable
    graphserv.Server.Loop.client_bytes graphserv.Prelude.Assoc.member
    graphserv.Server.Dispatch.line_from_client graphserv.Server.is_waiting_for_core_reply
    graphserv.Server.find_instance graphserv.Core.Entry.flushable graphserv.Core.Entry.new_entry
    graphserv.Prelude.contains graphserv.Server.Reply.lacks_newline
    graphserv.Core.Entry.append_to_dataset graphserv.Server.Loop.put_session
    graphserv.Server.Dispatch.process_command graphserv.Server.Commands.find_command
    graphserv.Server.Commands.command_name graphserv.Server.Dispatch.server_command
    graphserv.Server.Forwarding.has_redirection graphserv.Server.Commands.Execute.execute
    graphserv.Server.Commands.command_level graphserv.Server.Commands.returns_void
    graphserv.Server.Commands.Execute.exec graphserv.Server.Commands.Info.exec_authorize
    graphserv.Auth.authorize graphserv.Auth.refresh_file_cache
    graphserv.Server.Reply.forward_statusline graphserv.Prelude.Assoc.lookup
    graphserv.Prelude.Assoc.put graphserv.Server.Commands.set_message graphserv.Prelude.text
    graphserv.Server.Commands.Graphs.exec_create_graph graphserv.Server.is_valid_graph_name
    graphserv.Server.find_named_instance graphserv.Core.Launch.start_core
    graphserv.Core.Launch.has_prefix graphserv.Core.Launch.reply_version
    graphserv.Server.create_core_instance graphserv.Server.Reply.write graphserv.Writer.write
    graphserv.Writer.flush graphserv.Writer.write_string graphserv.Server.add_core_instance
    graphserv.Server.Loop.Sets.init_sets graphserv.Writer.write_buffer_empty
serve_all-returns = refl

serve_all-IsSafe_example : IsSafe core_env after_rounds.app
serve_all-IsSafe_example =
    serve_all-IsSafe core_env 6666 8090 (codes "graphcore") 30 sample_rounds after_rounds
      serve_all-returns

-- a connection that fails, and one that arrives two seconds later
abbrev refused_io : Ready
refused_io = record quiet_round { on_tcp = accept_fails true }

abbrev next_io : Ready
next_io = record quiet_round { time = 42; on_http = connection 12 true false }

abbrev refused_round : Round
refused_round = record { time = 39; selected = ready refused_io; interrupts = 0 }

abbrev next_round : Round
next_round = record { time = 42; selected = ready next_io; interrupts = 0 }

abbrev after_refusal : LoopState
after_refusal = returned idle_state (round sample_env refused_round idle_state)

refusal-returns : round sample_env refused_round idle_state ≡ ok after_refusal
unfolding round graphserv.Server.Loop.Sets.init_sets graphserv.Server.Loop.start_round
    graphserv.Server.Loop.remove_clients graphserv.Core.flush_command_q graphserv.Core.create
    graphserv.Writer.write_buffer_empty graphserv.Writer.set_write_fd
refusal-returns = refl

round-deferred_example :
    round sample_env next_round after_refusal
    ≡ without_connections sample_env next_round next_io after_refusal
round-deferred_example =
    round-deferred sample_env refused_round next_round refused_io next_io idle_state after_refusal
      refl (omega arith) (inl (inl refl)) refusal-returns refl (omega arith)

-- two signals in one round
abbrev interrupted_twice : Round
interrupted_twice = record { time = 40; selected = interrupted; interrupts = 2 }

abbrev after_interrupts : LoopState
after_interrupts = returned idle_state (round sample_env interrupted_twice idle_state)

interrupted-returns : round sample_env interrupted_twice idle_state ≡ ok after_interrupts
unfolding round graphserv.Server.Loop.Sets.init_sets graphserv.Server.Loop.start_round
    graphserv.Server.Loop.remove_clients graphserv.Core.flush_command_q graphserv.Core.create
    graphserv.Writer.write_buffer_empty graphserv.Writer.set_write_fd
interrupted-returns = refl

run-second_interrupt_example :
    run sample_env (interrupted_twice ∷ sample_rounds) idle_state ≡ ok after_interrupts
run-second_interrupt_example =
    run-second_interrupt sample_env interrupted_twice sample_rounds idle_state after_interrupts refl
      (omega arith) refl interrupted-returns

-- the same client in the libevent loop
abbrev sample_events : List (ℕ × Event)
sample_events =
    (31, connect conn_tcp (some 9) true)
    ∷ (
      32,
      session_readable 1 (
          bytes (
            codes "authorize password lea:abcdefghijklm"
            ++ 10 ∷ codes "create-graph g"
            ++ 10 ∷ [])),
    )
    ∷ []

abbrev pub app_of : Outcome Graphserv → Graphserv
app_of (ok x) = x
app_of _ = sample_app

abbrev after_events : Graphserv
after_events =
    app_of (create core_env 6666 8090 (codes "graphcore") 30 >>= dispatch core_env sample_events)

events-return :
    (create core_env 6666 8090 (codes "graphcore") 30 >>= dispatch core_env sample_events)
    ≡ ok after_events
unfolding serve_all graphserv.Auth.create graphserv.Auth.Files.read_credential_files
    graphserv.Auth.Split.fgets_lines graphserv.Auth.Split.split_line graphserv.Auth.Files.group_line
    graphserv.Auth.Files.parse_level same_text graphserv.Access.access_level_name
    graphserv.Server.create_session graphserv.Prelude.Assoc.insert graphserv.Server.Loop.start_round
    graphserv.Server.Loop.remove_clients graphserv.Server.Loop.finish_round
    graphserv.Server.Loop.remove_cores graphserv.Server.Loop.is_done graphserv.Session.create
    graphserv.Server.next_id graphserv.Prelude.Assoc.find graphserv.Server.Loop.client_readable
    graphserv.Server.Loop.client_bytes graphserv.Prelude.Assoc.member
    graphserv.Server.Dispatch.line_from_client graphserv.Server.is_waiting_for_core_reply
    graphserv.Server.find_instance graphserv.Core.Entry.flushable graphserv.Core.Entry.new_entry
    graphserv.Prelude.contains graphserv.Server.Reply.lacks_newline
    graphserv.Core.Entry.append_to_dataset graphserv.Server.Loop.put_session
    graphserv.Server.Dispatch.process_command graphserv.Server.Commands.find_command
    graphserv.Server.Commands.command_name graphserv.Server.Dispatch.server_command
    graphserv.Server.Forwarding.has_redirection graphserv.Server.Commands.Execute.execute
    graphserv.Server.Commands.command_level graphserv.Server.Commands.returns_void
    graphserv.Server.Commands.Execute.exec graphserv.Server.Commands.Info.exec_authorize
    graphserv.Auth.authorize graphserv.Auth.refresh_file_cache
    graphserv.Server.Reply.forward_statusline graphserv.Prelude.Assoc.lookup
    graphserv.Prelude.Assoc.put graphserv.Server.Commands.set_message graphserv.Prelude.text
    graphserv.Server.Commands.Graphs.exec_create_graph graphserv.Server.is_valid_graph_name
    graphserv.Server.find_named_instance graphserv.Core.Launch.start_core
    graphserv.Core.Launch.has_prefix graphserv.Core.Launch.reply_version
    graphserv.Server.create_core_instance graphserv.Server.Reply.write graphserv.Writer.write
    graphserv.Writer.flush graphserv.Writer.write_string graphserv.Server.add_core_instance
    graphserv.Server.Libevent.dispatch graphserv.Server.Libevent.handle
    graphserv.Server.Libevent.cb_connect graphserv.Server.Libevent.cb_session_readable
    graphserv.Server.Libevent.event_bytes
events-return = refl

dispatch_all-IsSafe_example : IsSafe core_env after_events
dispatch_all-IsSafe_example =
    dispatch_all-IsSafe core_env 6666 8090 (codes "graphcore") 30 sample_events after_events
      events-return

-- the client's core, which runs, sends part of a line, and then the rest
handle-append_example :
    handle core_env (core_readable 1 (bytes (codes "O" ++ codes "K"))) after_events ≡ (
      handle core_env (core_readable 1 (bytes (codes "O"))) after_events
      >>= handle core_env (core_readable 1 (bytes (codes "K"))))
handle-append_example = handle-append core_env 1 (codes "O") (codes "K") after_events (
    dispatch_all-IsSafe core_env 6666 8090 (codes "graphcore") 30 sample_events after_events
      events-return)
