-- ===== src/Tests/Cores.antt =====
-- The writer and the cores at concrete inputs.
use graphserv.Prelude.{
  ℕ, ◌≡◌, ◌≤◌, ◌↔◌, ◌⊎◌, refl, true, false, Text, codes, List, [], ◌∷◌, ◌++◌, concat, length, ◌+◌,
  All,
}
use graphserv.Writer
use graphserv.Writer.{
  NonblockWriter, set_write_fd, write_all, flush, write_buffer_empty, get_writebuffer_size,
}
use graphserv.Writer.Stream.{stream, write_all-stream, writef-bound}
use graphserv.Core.Entry.{CommandQEntry, flushable}
use graphserv.Core.{CoreInstance, set_name, queue_command, flush_command_q, has_data_for_client}
use graphserv.Core
use graphserv.External.{Launch, replied}
use graphserv.Core.Launch.{start_core}
use graphserv.Core.Queue.{
  IsQueued, IsBusy, is_idle, flush_command_q-send_next, send_next, has_data_for_client_iff,
}
use graphserv.Core.Multiplex.{
  Event, enqueue, output, Trace, queued, run, Multiplexed, IsFresh, run-Multiplexed,
}
use graphserv.Core.Progress.{Reply, IsReply, IsDone, exchange, exchange-IsDone}
use graphserv.Tests.Fixture.{sample_env}

abbrev stats_line : Text
stats_line = codes "stats" ++ 10 ∷ []

-- two commands, of clients 3 and 4
abbrev entry : ℕ → CommandQEntry
entry client = record {
  command = stats_line;
  dataset = [];
  client_id = client;
  accepts_data = false;
  data_finished = true;
  send_begin_time = 0;
}

abbrev idle_core : CoreInstance
idle_core = Core.create 1

abbrev loaded_core : CoreInstance
loaded_core = record (Core.create 1) { command_q = entry 3 ∷ entry 4 ∷ [] }

abbrev fresh : Trace
fresh = record { core = idle_core; status_for = [] }

fresh-IsFresh : IsFresh fresh
unfolding stream set_write_fd Core.create
fresh-IsFresh = record {
  no_queue = refl;
  no_output = refl;
  no_status = refl;
  no_reply = refl;
  no_dataset = refl;
}

abbrev events : List Event
events =
    enqueue (entry 3)
    ∷ enqueue (entry 4)
    ∷ Event.flush
    ∷ output (codes "OK." ++ 10 ∷ [])
    ∷ Event.flush
    ∷ []

run-Multiplexed_example : Multiplexed (queued events) (run sample_env events fresh)
run-Multiplexed_example = run-Multiplexed sample_env events fresh fresh-IsFresh

flush_command_q-send_next_example :
    flush_command_q sample_env loaded_core ≡ send_next sample_env loaded_core.command_q loaded_core
flush_command_q-send_next_example = flush_command_q-send_next sample_env loaded_core

has_data_for_client_iff_example :
    (has_data_for_client 4 loaded_core ≡ true)
    ↔ (((loaded_core.last_client_id ≡ 4) × IsBusy loaded_core) ⊎ IsQueued 4 loaded_core.command_q)
has_data_for_client_iff_example = has_data_for_client_iff 4 loaded_core

-- the buffer of a writer that has written once, and whose next call takes one byte
abbrev half_written : NonblockWriter
half_written = record {
  fd = 5;
  buffer = codes "two" ∷ codes "three" ∷ [];
  written = codes "one";
  calls = 1;
}

write_all-stream_example :
    stream (write_all sample_env (codes "ab" ∷ codes "cd" ∷ []) half_written)
    ≡ stream half_written ++ concat (codes "ab" ∷ codes "cd" ∷ [])
write_all-stream_example = write_all-stream sample_env (codes "ab" ∷ codes "cd" ∷ []) half_written

-- the first command is answered by a data set of one line, the second one by a status line
abbrev replies : List Reply
replies =
    record {
      status = codes "OK.:" ++ 10 ∷ [];
      dataset = (codes "1,2" ++ 10 ∷ []) ∷ [];
      blank = 10 ∷ [];
    }
    ∷ record { status = codes "NONE." ++ 10 ∷ []; dataset = []; blank = 10 ∷ [] }
    ∷ []

abbrev loaded : Trace
loaded = record { core = loaded_core; status_for = [] }

loaded-idle : is_idle loaded.core ≡ true
unfolding Core.create
loaded-idle = refl

loaded-flushable : All (λ c. flushable c ≡ true) loaded.core.command_q
unfolding flushable
loaded-flushable = (refl, (refl, tt))

replies-IsReply : All (IsReply sample_env) replies
unfolding graphserv.Prelude.contains
replies-IsReply = (((refl, tt), refl), ((tt, refl), tt))

exchange-IsDone_example :
    IsDone loaded.core.command_q [] (run sample_env (exchange sample_env replies) loaded)
exchange-IsDone_example =
    exchange-IsDone sample_env replies loaded loaded-idle loaded-flushable replies-IsReply refl

-- a core that answers its start with the version of the protocol
abbrev started : Launch
started = replied 77 21 (codes "OK. 1")

started-runs :
    (start_core sample_env (codes "graphcore") started (set_name (codes "g") (Core.create 2))).1
    ≡ true
unfolding start_core graphserv.Core.Launch.has_prefix graphserv.Prelude.same_text
    graphserv.Core.Launch.reply_version graphserv.Prelude.Chars.is_space
started-runs = refl

writef-bound_example :
    (length (stream (Writer.writef sample_env stats_line (set_write_fd 7)).writer)
      ≤ length (stream (set_write_fd 7)) + 2047)
    × ((stream (Writer.writef sample_env stats_line (set_write_fd 7)).writer
          ≡ stream (set_write_fd 7) ++ stats_line)
        ↔ (length stats_line ≤ 2047))
writef-bound_example = writef-bound sample_env stats_line (set_write_fd 7)
