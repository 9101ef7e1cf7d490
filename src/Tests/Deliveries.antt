-- ===== src/Tests/Deliveries.antt =====
-- What bytes from clients and cores change, at concrete inputs.
use graphserv.Prelude.{
  ℕ, ◌≡◌, refl, if◌then◌else◌, Bool, true, false, Text, codes, List, [], ◌∷◌, ◌++◌, Option, none,
  some, arith,
}
use mathlib.Core.Option as Option
use graphserv.Prelude.Assoc.{find, member}
use graphserv.Outcome.{ok, ◌>>=◌}
use graphserv.Core.{CoreInstance}
use graphserv.Core
use graphserv.Session.{SessionContext, conn_tcp}
use graphserv.Session
use graphserv.Server.{Graphserv, Ctx, find_client}
use graphserv.Server.Loop.{
  bytes, client_bytes, client_readable, core_line, core_bytes, start_round, refresh_stats,
}
use graphserv.Server.Loop.Round.{create}
use graphserv.Server.Loop.Safety.{IsSafe}
use graphserv.Server.Loop.Isolation.{SameOthers, client_readable-SameOthers}
use graphserv.Server.Loop.Delivery.{core_line-SameOthers}
use graphserv.Server.Loop.Removal.{refreshed, start_round-kept}
use graphserv.Server.Libevent.{Event, connect, dispatch}
use graphserv.Server.Libevent.Reach.{dispatch_all-IsSafe}
use graphserv.Tests.Fixture.{sample_env}
use graphserv.Tests.Rounds.{app_of}

-- two clients connect
abbrev two_connect : List (ℕ × Event)
two_connect = (31, connect conn_tcp (some 5) true) ∷ (32, connect conn_tcp (some 6) true) ∷ []

abbrev two_clients : Graphserv
two_clients =
    app_of (create sample_env 6666 8090 (codes "graphcore") 30 >>= dispatch sample_env two_connect)

two_connect-return :
    (create sample_env 6666 8090 (codes "graphcore") 30 >>= dispatch sample_env two_connect)
    ≡ ok two_clients
unfolding create graphserv.Auth.create graphserv.Auth.Files.read_credential_files
    graphserv.Auth.Split.fgets_lines graphserv.Auth.Split.split_line graphserv.Auth.Files.group_line
    graphserv.Auth.Files.parse_level graphserv.Prelude.same_text graphserv.Access.access_level_name
    dispatch
two_connect-return = refl

two_clients-IsSafe : IsSafe sample_env two_clients
two_clients-IsSafe =
    dispatch_all-IsSafe sample_env 6666 8090 (codes "graphcore") 30 two_connect two_clients
      two_connect-return

-- the first of them
abbrev pub first_session : SessionContext
first_session = Session.create conn_tcp 1 5 31

-- a core that has run a command of the first client
abbrev answering : CoreInstance
answering = record (Core.create 1) {
  last_client_id = 1;
  expecting_reply = true;
  process_running = true;
  linebuf = codes "OK." ++ 10 ∷ [];
}

abbrev after_answer : Graphserv
after_answer = app_of (core_line sample_env answering two_clients)

answer-returns : core_line sample_env answering two_clients ≡ ok after_answer
unfolding core_line find_client member create graphserv.Auth.create
    graphserv.Auth.Files.read_credential_files graphserv.Auth.Split.fgets_lines
    graphserv.Auth.Split.split_line graphserv.Auth.Files.group_line graphserv.Auth.Files.parse_level
    graphserv.Prelude.same_text graphserv.Access.access_level_name dispatch
    graphserv.Server.create_session find graphserv.Prelude.Assoc.insert graphserv.Server.next_id
    graphserv.Server.Loop.answer_client graphserv.Server.is_waiting_for_core_reply Session.create
    graphserv.Server.find_instance
answer-returns = refl

core_line-SameOthers_example : SameOthers answering.last_client_id two_clients after_answer
core_line-SameOthers_example =
    core_line-SameOthers sample_env answering two_clients after_answer two_clients-IsSafe
      answer-returns

abbrev first_client : Ctx
first_client = record { app = two_clients; sc = first_session }

abbrev request : Text
request = codes "server-stats" ++ 10 ∷ []

abbrev after_request : Graphserv
after_request = app_of (client_readable sample_env (bytes request) first_client)

request-returns : client_readable sample_env (bytes request) first_client ≡ ok after_request
unfolding client_readable client_bytes member create graphserv.Auth.create
    graphserv.Auth.Files.read_credential_files graphserv.Auth.Split.fgets_lines
    graphserv.Auth.Split.split_line graphserv.Auth.Files.group_line graphserv.Auth.Files.parse_level
    graphserv.Prelude.same_text graphserv.Access.access_level_name dispatch
    graphserv.Server.create_session Session.create graphserv.Server.Dispatch.line_from_client
    graphserv.Server.is_waiting_for_core_reply graphserv.Server.find_instance find
    graphserv.Core.Entry.flushable graphserv.Core.Entry.new_entry
    graphserv.Server.Reply.lacks_newline graphserv.Server.Dispatch.process_command
    graphserv.Prelude.contains graphserv.Server.Commands.find_command
    graphserv.Server.Commands.command_name graphserv.Server.Dispatch.server_command
    graphserv.Server.Forwarding.has_redirection graphserv.Server.Commands.Execute.execute
    graphserv.Server.Commands.command_level graphserv.Server.Commands.returns_void
    graphserv.Server.Commands.Execute.exec
request-returns = refl

client_readable-SameOthers_example : SameOthers first_client.sc.client_id two_clients after_request
client_readable-SameOthers_example =
    client_readable-SameOthers sample_env (bytes request) first_client after_request request-returns

-- the first of the two clients is to be disconnected
abbrev one_leaves : Graphserv
one_leaves = record two_clients { clients_to_remove = 1 ∷ [] }

start_round-kept_example :
    (find 1 (start_round sample_env one_leaves).session_contexts ≡ (
      if member 1 one_leaves.clients_to_remove
      then none
      else Option.map (refreshed one_leaves.now) (find 1 one_leaves.session_contexts)))
    × ((start_round sample_env one_leaves).clients_to_remove ≡ [])
start_round-kept_example = start_round-kept sample_env 1 one_leaves
