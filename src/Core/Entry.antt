-- ===== src/Core/Entry.antt =====
-- CommandQEntry and LineRecvQ of src/coreinstance.h.
use graphserv.Prelude.{
  ℕ, ◌==◌, if◌then◌else◌, Bool, true, false, ◌||◌, not, Text, List, [], ◌∷◌, ◌++◌, is_empty, Option,
  none, some,
}
use graphserv.External.{Env}

pub record CommandQEntry : Type 0 where
  pub command : Text
  pub dataset : List Text
  pub client_id : ℕ
  pub accepts_data : Bool
  pub data_finished : Bool
  pub send_begin_time : ℕ

unfoldable pub flushable : CommandQEntry → Bool
flushable e = not e.accepts_data || e.data_finished

-- What flushCommandQ writes for a command.
abbrev pub wire : CommandQEntry → List Text
wire e = e.command ∷ e.dataset

module _ (env : Env) where
  -- CommandQEntry(clientID, command), at time `now`
  unfoldable pub new_entry : ℕ → Text → ℕ → CommandQEntry
  new_entry client line now = record {
    command = line;
    dataset = [];
    client_id = client;
    accepts_data = env.line_indicates_dataset line;
    data_finished = not (env.line_indicates_dataset line);
    send_begin_time = now;
  }

  unfoldable pub append_to_dataset : Text → CommandQEntry → CommandQEntry
  append_to_dataset line e = if not e.accepts_data || e.data_finished then e else record e {
    dataset = e.dataset ++ line ∷ [];
    data_finished = is_empty (env.split_string line) || e.data_finished;
  }

-- LineRecvQ::nextLines(str): the lines that are complete, and the text that is kept in readbuf
unfoldable pub next_lines : Text → Text → List Text × Text
next_lines readbuf [] = ([], readbuf)
next_lines readbuf (c ∷ rest) = elim (c == 10) [
  | true ↦ let (lines, left) = next_lines [] rest in ((readbuf ++ c ∷ []) ∷ lines, left)
  | false ↦ next_lines (readbuf ++ c ∷ []) rest
]

-- a char array as a string: what stands before the first NUL
unfoldable pub c_string : Text → Text
c_string [] = []
c_string (c ∷ rest) = elim (c == 0) [ true ↦ [] | false ↦ c ∷ c_string rest ]

-- LineRecvQ::nextLines(fd): what read gives, or `none` if it fails or there is nothing
unfoldable pub read_lines : Text → Option Text → List Text × Text
unfolding c_string
read_lines readbuf none = ([], readbuf)
read_lines readbuf (some buf) = next_lines readbuf (c_string buf)
