-- ===== src/Tests/Sessions.antt =====
-- The lines of a client at concrete inputs.
use graphserv.Prelude.{
  All, ◌==◌, ℕ, ◌≡◌, ◌≢◌, ◌≤◌, ◌⊎◌, inl, inr, refl, Bool, true, false, Text, codes, List, [], ◌∷◌,
  ◌++◌, Option, none, some, same_text, is_empty,
}
use graphserv.Prelude.Assoc.{lookup}
use graphserv.Access.{access_read, access_write}
use graphserv.Outcome.{Outcome, ok, ◌>>=◌}
use graphserv.Core.{CoreInstance}
use graphserv.Core
use graphserv.Core.Entry.{CommandQEntry, new_entry}
use graphserv.Session.{SessionContext, conn_tcp, conn_http}
use graphserv.Session
use graphserv.Server.{Ctx, Graphserv, find_instance, is_waiting_for_core_reply}
use graphserv.Server.Reply.{lacks_newline}
use graphserv.Server.Reply.Output.{OnlyOutput}
use graphserv.Server.Forwarding.{forward_to_core, submit, core_separators}
use graphserv.Server.Forwarding.Submit.{submit-authorized, IsAllowed, Submitted}
use graphserv.Server.Dispatch.{line_from_client, replay_lines}
use graphserv.Server.Dispatch.Replay.{Drained, replay_lines-Drained}
use graphserv.Server.Dispatch.Overtaking.{Overtaken, replay_lines-Overtaken}
use graphserv.Server.Processed.Lines.{Handled, line_from_client-Handled}
use graphserv.Tests.Fixture.{sample_env}
use graphserv.Tests.Credentials.{all_users}

abbrev pub newline : Text
newline = 10 ∷ []

-- a server with one running core, which has the ID 1
abbrev pub sample_core : CoreInstance
sample_core = record (Core.create 1) { process_running = true }

abbrev pub sample_app : Graphserv
sample_app = record {
  tcp_port = 6666;
  http_port = 8090;
  core_path = codes "graphcore";
  core_id_counter = 1;
  session_id_counter = 4;
  core_instances = (1, sample_core) ∷ [];
  session_contexts = [];
  clients_to_remove = [];
  password_auth = record { users = all_users; last_cache_refresh = 20 };
  status_messages = λ _. [];
  lines_from_clients = 0;
  quitting = false;
  now = 30;
}

-- a client that is connected to no core, and one that is connected to the core
abbrev free_client : Ctx
free_client = record { app = sample_app; sc = Session.create conn_tcp 4 9 30 }

abbrev pub connected_client : Ctx
connected_client = record {
  app = sample_app;
  sc = record (Session.create conn_tcp 4 9 30) { core_id = 1 };
}

abbrev pub returned : Ctx → Outcome Ctx → Ctx
returned c (ok x) = x
returned c _ = c

abbrev authorize_line : Text
authorize_line = codes "authorize password lea:abcdefghijklm" ++ newline

abbrev after_line : Ctx
after_line = returned free_client (line_from_client sample_env false authorize_line free_client)

authorize_line-returns :
    line_from_client sample_env false authorize_line free_client ≡ ok after_line
unfolding line_from_client Session.create is_waiting_for_core_reply find_instance
    graphserv.Prelude.Assoc.find graphserv.Core.Entry.flushable new_entry graphserv.Prelude.contains
    lacks_newline same_text graphserv.Server.Dispatch.process_command
    graphserv.Server.Commands.find_command graphserv.Server.Commands.command_name
    graphserv.Server.Dispatch.server_command graphserv.Server.Forwarding.has_redirection
    graphserv.Server.Commands.Execute.execute graphserv.Server.Commands.command_level
    graphserv.Server.Commands.returns_void graphserv.Server.Commands.Execute.exec
    graphserv.Server.Commands.Info.exec_authorize graphserv.Auth.authorize
    graphserv.Auth.refresh_file_cache graphserv.Auth.Split.split_line lookup
authorize_line-returns = refl

line_from_client-Handled_example : Handled sample_env free_client after_line
line_from_client-Handled_example =
    line_from_client-Handled sample_env false authorize_line free_client after_line
      authorize_line-returns

-- two queued lines of a connected client: the first one goes to the core, and the client waits
abbrev queueing_client : Ctx
queueing_client = record connected_client {
  sc = record connected_client.sc {
    line_queue = (codes "stats" ++ newline) ∷ (codes "help" ++ newline) ∷ [];
  };
}

abbrev after_replay : Ctx
after_replay = returned queueing_client (replay_lines sample_env queueing_client)

replay-returns : replay_lines sample_env queueing_client ≡ ok after_replay
unfolding replay_lines is_waiting_for_core_reply Session.create find_instance
    graphserv.Prelude.Assoc.find Core.has_data_for_client Core.create line_from_client
    graphserv.Core.Entry.flushable new_entry graphserv.Prelude.contains lacks_newline
    graphserv.Server.Dispatch.process_command graphserv.Server.Commands.find_command same_text
    graphserv.Server.Commands.command_name forward_to_core submit
    graphserv.Server.Forwarding.needed_level graphserv.Server.Forwarding.has_redirection
    graphserv.Server.put_core_instance graphserv.Prelude.Assoc.update Core.flush_command_q
    Core.queue_command
replay-returns = refl

replay_lines-Drained_example : Drained sample_env queueing_client after_replay
replay_lines-Drained_example =
    replay_lines-Drained sample_env queueing_client after_replay replay-returns

abbrev redirected : CommandQEntry
redirected = new_entry sample_env 4 (codes "clear >file" ++ newline) 30

submit-authorized_example :
    (IsAllowed redirected.command access_write access_read
      × Submitted sample_env redirected sample_core connected_client
          (submit sample_env redirected access_write sample_core connected_client))
    ⊎ ((¬ IsAllowed redirected.command access_write access_read)
        × OnlyOutput connected_client
            (submit sample_env redirected access_write sample_core connected_client))
unfolding Session.create
submit-authorized_example =
    submit-authorized sample_env redirected access_write sample_core connected_client

-- the first queued line begins a data set, and the client sends another line
abbrev dataset_line : Text
dataset_line = codes "add:" ++ newline

abbrev next_line : Text
next_line = codes "1 2" ++ newline

abbrev stuck_client : Ctx
stuck_client = record free_client {
  sc = record free_client.sc { line_queue = dataset_line ∷ (codes "help" ++ newline) ∷ [] };
}

dataset_line-whole : lacks_newline dataset_line ≡ false
unfolding lacks_newline
dataset_line-whole = refl

next_line-whole : lacks_newline next_line ≡ false
unfolding lacks_newline
next_line-whole = refl

stuck-free : is_waiting_for_core_reply stuck_client ≡ false
unfolding is_waiting_for_core_reply Session.create find_instance graphserv.Prelude.Assoc.find
stuck-free = refl

next-words : is_empty (sample_env.split_string next_line) ≡ false
unfolding graphserv.Prelude.contains
next-words = refl

dataset_begins : sample_env.line_indicates_dataset dataset_line ≡ true
unfolding graphserv.Prelude.contains same_text
dataset_begins = refl

replay_lines-Overtaken_example :
    (c' : Ctx) × ((replay_lines sample_env stuck_client >>= λ c.
    line_from_client sample_env false next_line c)
      ≡ ok c')
    × Overtaken sample_env dataset_line next_line ((codes "help" ++ newline) ∷ []) c'
replay_lines-Overtaken_example =
    replay_lines-Overtaken sample_env dataset_line next_line ((codes "help" ++ newline) ∷ [])
      stuck_client dataset_line-whole next_line-whole next-words refl stuck-free dataset_begins
