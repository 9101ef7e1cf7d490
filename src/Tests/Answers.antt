-- ===== src/Tests/Answers.antt =====
-- The answer of a core to a client's command, at a concrete input.
use graphserv.Prelude.{
  ℕ, ◌≡◌, refl, if◌then◌else◌, Bool, true, false, Text, codes, List, [], ◌∷◌, ◌++◌, Option, none,
  some, arith,
}
use graphserv.Prelude.Assoc.{find, member}
use graphserv.Outcome.{ok, ◌>>=◌}
use graphserv.Core.{CoreInstance}
use graphserv.Core
use graphserv.Session.{SessionContext, conn_tcp}
use graphserv.Session
use graphserv.Server.{Graphserv, Ctx, find_client}
use graphserv.Server.Loop.{
  bytes, client_bytes, client_readable, core_line, core_bytes, start_round, refresh_stats,
}
use graphserv.Server.Loop.Round.{create}
use graphserv.Server.Loop.Delivery.{Delivered}
use graphserv.Server.Loop.Delivery.Bytes.{handed_of, core_bytes-Delivered}
use graphserv.Server.Libevent.{Event, connect, session_readable, dispatch}
use graphserv.Server.Libevent.Reach.{dispatch_all-IsSafe}
use graphserv.Tests.Rounds.{app_of, core_env}
use graphserv.Tests.Deliveries.{first_session}

-- a client connects, starts a core, and sends it a command
abbrev sends_command : List (ℕ × Event)
sends_command =
    (31, connect conn_tcp (some 9) true)
    ∷ (
      32,
      session_readable 1 (
          bytes (
            codes "authorize password lea:abcdefghijklm"
            ++ 10 ∷ codes "create-graph g"
            ++ 10 ∷ codes "use-graph g"
            ++ 10 ∷ codes "stats"
            ++ 10 ∷ [])),
    )
    ∷ []

abbrev running_command : Graphserv
running_command =
    app_of (create core_env 6666 8090 (codes "graphcore") 30 >>= dispatch core_env sends_command)

abbrev core_of : Option CoreInstance → CoreInstance
core_of none = Core.create 0
core_of (some core) = core

abbrev session_of : Option SessionContext → SessionContext
session_of none = first_session
session_of (some sc) = sc

abbrev running_core : CoreInstance
running_core = core_of (find 1 running_command.core_instances)

abbrev its_client : SessionContext
its_client = session_of (find_client running_core.last_client_id running_command)

-- The events return; the core is there and is expected to answer its client, which uses TCP and has no
-- line that waits.
command-runs :
    ((create core_env 6666 8090 (codes "graphcore") 30 >>= dispatch core_env sends_command)
      ≡ ok running_command)
    × (find 1 running_command.core_instances ≡ some running_core)
    × (find_client running_core.last_client_id running_command ≡ some its_client)
    × (its_client.connection_type ≡ conn_tcp)
    × (its_client.line_queue ≡ [])
    × (running_core.last_client_id ≡ 1)
    × (running_core.expecting_reply ≡ true)
unfolding create graphserv.Auth.create graphserv.Auth.Files.read_credential_files
    graphserv.Auth.Split.fgets_lines graphserv.Auth.Split.split_line graphserv.Auth.Files.group_line
    graphserv.Auth.Files.parse_level graphserv.Prelude.same_text graphserv.Access.access_level_name
    dispatch find graphserv.Server.create_session graphserv.Prelude.Assoc.insert
    graphserv.Server.next_id graphserv.Server.Loop.client_line Session.create
    graphserv.Server.Dispatch.line_from_client graphserv.Server.is_waiting_for_core_reply
    graphserv.Server.find_instance graphserv.Core.Entry.flushable graphserv.Core.Entry.new_entry
    graphserv.Server.Reply.lacks_newline graphserv.Server.Dispatch.process_command
    graphserv.Prelude.contains graphserv.Server.Commands.find_command
    graphserv.Server.Commands.command_name graphserv.Server.Dispatch.server_command
    graphserv.Server.Forwarding.has_redirection graphserv.Server.Commands.Execute.execute
    graphserv.Server.Commands.command_level graphserv.Server.Commands.returns_void
    graphserv.Server.Commands.Execute.exec graphserv.Server.Commands.Info.exec_authorize
    graphserv.Auth.authorize graphserv.Auth.refresh_file_cache
    graphserv.Server.Reply.forward_statusline graphserv.Prelude.Assoc.lookup
    graphserv.Prelude.Assoc.put graphserv.Server.Commands.set_message graphserv.Server.Reply.write
    graphserv.Writer.write graphserv.Writer.flush graphserv.Writer.write_string
    graphserv.Prelude.text graphserv.Server.Commands.Graphs.exec_create_graph
    graphserv.Server.is_valid_graph_name graphserv.Server.find_named_instance
    graphserv.Core.Launch.start_core graphserv.Core.Launch.has_prefix
    graphserv.Core.Launch.reply_version graphserv.Server.add_core_instance
    graphserv.Server.create_core_instance Core.set_name Core.create
    graphserv.Server.Commands.Graphs.exec_use_graph Core.get_name Core.has_data_for_client
    graphserv.Server.Forwarding.forward_to_core graphserv.Server.Loop.put_session
    graphserv.Server.Forwarding.submit graphserv.Server.Forwarding.needed_level
    graphserv.Server.put_core_instance graphserv.Prelude.Assoc.update Core.flush_command_q
    Core.queue_command find_client member
command-runs = (refl, refl, refl, refl, refl, refl, refl)

abbrev answer_line : Text
answer_line = codes "OK."

core_bytes-Delivered_example :
    (app' : Graphserv) × (core_bytes core_env 1 (answer_line ++ 10 ∷ []) running_command ≡ ok app')
    × Delivered running_core.last_client_id its_client
        (handed_of running_core (answer_line ++ 10 ∷ []))
        app'
core_bytes-Delivered_example =
    core_bytes-Delivered core_env 1 answer_line running_core its_client running_command
      (dispatch_all-IsSafe core_env 6666 8090 (codes "graphcore") 30 sends_command running_command
        command-runs.0)
      command-runs.1 (omega arith) command-runs.2 command-runs.3 command-runs.4
