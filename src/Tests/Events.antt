-- ===== src/Tests/Events.antt =====
-- An event of the libevent loop at a concrete input.
use graphserv.Prelude.{ℕ, ◌≡◌, refl, true, false, Text, codes, List, [], ◌∷◌, ◌++◌, some}
use graphserv.Prelude.Assoc.{find}
use graphserv.Outcome.{ok}
use graphserv.Core.{CoreInstance}
use graphserv.Core.Entry.{CommandQEntry}
use graphserv.Server.{Graphserv}
use graphserv.Server.Loop.{bytes}
use graphserv.Server.Libevent.{core_readable, handle}
use graphserv.Server.Libevent.Stalled.{Unsent, handle-Unsent}
use graphserv.Tests.Fixture.{sample_env}
use graphserv.Tests.Sessions.{sample_core, sample_app}
use graphserv.Tests.Rounds.{app_of}

abbrev waiting : CommandQEntry
waiting = record {
  command = codes "stats" ++ 10 ∷ [];
  dataset = [];
  client_id = 5;
  accepts_data = false;
  data_finished = true;
  send_begin_time = 0;
}

-- a core that runs the command of client 4, and has one of client 5 to come
abbrev busy_core : CoreInstance
busy_core = record sample_core {
  command_q = waiting ∷ [];
  last_client_id = 4;
  expecting_reply = true;
}

abbrev busy_app : Graphserv
busy_app = record sample_app { core_instances = (1, busy_core) ∷ [] }

abbrev reply : Text
reply = codes "OK." ++ 10 ∷ []

busy-found : find 1 busy_app.core_instances ≡ some busy_core
unfolding find
busy-found = refl

busy-id : busy_core.instance_id ≡ 1
unfolding graphserv.Core.create
busy-id = refl

abbrev after_reply : Graphserv
after_reply = app_of (handle sample_env (core_readable 1 (bytes reply)) busy_app)

reply-returns : handle sample_env (core_readable 1 (bytes reply)) busy_app ≡ ok after_reply
unfolding handle find graphserv.Server.Loop.core_bytes graphserv.Core.create
    graphserv.Server.put_core_instance graphserv.Prelude.Assoc.update
    graphserv.Server.Loop.core_line graphserv.Server.find_client graphserv.Prelude.Assoc.member
reply-returns = refl

handle-Unsent_example : Unsent sample_env 1 busy_core after_reply
handle-Unsent_example =
    handle-Unsent sample_env 1 reply busy_core busy_app after_reply busy-found busy-id tt
      reply-returns
