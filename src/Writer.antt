-- ===== src/Writer.antt =====
-- class NonblockWriter of src/utils.h: buffered writes to a non-blocking descriptor. Beside the
-- fields of the class a writer records the bytes that write(2) has taken and the number of calls.
pub mod Stream
use graphserv.Prelude.{
  ℕ, suc, ◌+◌, ◌==◌, if◌then◌else◌, Bool, true, false, ◌||◌, Text, List, [], ◌∷◌, ◌++◌, length,
  is_empty, take, drop,
}
use graphserv.External.{Env, wrote, would_block, failed}

pub record NonblockWriter : Type 0 where
  pub fd : ℕ
  pub buffer : List Text
  pub written : Text
  pub calls : ℕ

-- NonblockWriter() and setWriteFd(fd), which also makes the descriptor non-blocking
unfoldable pub set_write_fd : ℕ → NonblockWriter
set_write_fd fd = record { fd = fd; buffer = []; written = []; calls = 0 }

-- The outcome of writeString: the size that it returns, and whether writeFailed was called.
pub record Attempt : Type 0 where
  pub writer : NonblockWriter
  pub size : ℕ
  pub write_failed : Bool

-- The outcome of flush: its result, and whether writeFailed was called on the way.
pub record Flushed : Type 0 where
  pub writer : NonblockWriter
  pub emptied : Bool
  pub write_failed : Bool

unfoldable pub write_buffer_empty : NonblockWriter → Bool
write_buffer_empty w = is_empty w.buffer

total_length : List Text → ℕ
total_length [] = 0
total_length (s ∷ rest) = length s + total_length rest

unfoldable pub get_writebuffer_size : NonblockWriter → ℕ
unfolding total_length
get_writebuffer_size w = total_length w.buffer

-- vsnprintf into char c[2048] keeps 2047 bytes
abbrev writef_limit : ℕ
writef_limit = 2047

module _ (env : Env) where
  unfoldable pub write_string : NonblockWriter → Text → Attempt
  write_string w s = elim (env.write_returns w.fd w.calls s) [
    | wrote n ↦ record {
      writer = record w { written = w.written ++ take n s; calls = suc w.calls };
      size = n;
      write_failed = false;
    }
    | would_block ↦ record {
      writer = record w { calls = suc w.calls };
      size = 0;
      write_failed = false;
    }
    | failed ↦ record { writer = record w { calls = suc w.calls }; size = 0; write_failed = true }
  ]

  -- the loop of flush, over the strings that are left in the buffer
  flush_loop : List Text → NonblockWriter → Flushed
  flush_loop [] w = record {
    writer = record w { buffer = [] };
    emptied = true;
    write_failed = false;
  }
  flush_loop (s ∷ rest) w =
      let a = write_string w s in
      let more = flush_loop rest a.writer in
      if a.size == length s
      then record more { write_failed = a.write_failed || more.write_failed }
      else record {
        writer = record a.writer { buffer = drop a.size s ∷ rest };
        emptied = false;
        write_failed = a.write_failed;
      }

  unfoldable pub flush : NonblockWriter → Flushed
  unfolding flush_loop
  flush w = flush_loop w.buffer w

  unfoldable pub write : Text → NonblockWriter → Flushed
  write s w = flush (record w { buffer = w.buffer ++ s ∷ [] })

  -- the formatted string is cut to the size of the local buffer
  unfoldable pub writef : Text → NonblockWriter → Flushed
  writef s w = write (take writef_limit s) w

  -- A sequence of writes, oldest first.
  unfoldable pub write_all : List Text → NonblockWriter → NonblockWriter
  write_all [] w = w
  write_all (s ∷ rest) w = write_all rest (write s w).writer
