-- ===== src/Server/Dispatch.antt =====
-- processCommand and lineFromClient of src/servapp.h, and the loop there that executes queued lines.
pub mod Replay
pub mod Overtaking
use graphserv.Prelude.{
  ℕ, zero, suc, ◌+◌, if◌then◌else◌, Bool, true, false, ◌&&◌, ◌||◌, not, Text, text, codes, List, [],
  ◌∷◌, ◌++◌, Option, none, some, is_empty, length,
}
use graphserv.External.{Env}
use graphserv.Outcome.{Outcome, ok, fails, exits, undefined, ◌>>=◌}
use graphserv.Core.Entry.{CommandQEntry, new_entry, append_to_dataset, flushable}
use graphserv.Session.{SessionContext, Stats}
use graphserv.Server.{Ctx, ServCmd, is_waiting_for_core_reply}
use graphserv.Server.Reply.{forward_statusline, command_not_found, lacks_newline}
use graphserv.Server.Forwarding.{forward_to_core, has_redirection}
use graphserv.Server.Commands.{find_command}
use graphserv.Server.Commands.Execute.{execute}

-- the separators " \t\n" of processCommand
abbrev pub word_separators : Text
word_separators = codes " " ++ 9 ∷ 10 ∷ []

unfoldable pub set_command : Option CommandQEntry → Ctx → Ctx
set_command ce c = record c { sc = record c.sc { cur_command = ce } }

unfoldable pub push_line : Text → Ctx → Ctx
push_line line c = record c { sc = record c.sc { line_queue = c.sc.line_queue ++ line ∷ [] } }

-- stats.servCommandsSent++
unfoldable pub count_server_command : Ctx → Ctx
count_server_command c = record c {
  sc = record c.sc {
    stats = record c.sc.stats { serv_commands_sent = suc c.sc.stats.serv_commands_sent };
  };
}

-- stats.linesSent++ and the bytes of the line
unfoldable pub count_line : Text → Ctx → Ctx
count_line line c = record c {
  sc = record c.sc {
    stats = record c.sc.stats {
      lines_sent = suc c.sc.stats.lines_sent;
      bytes_sent = c.sc.stats.bytes_sent + length line;
    };
  };
}

module _ (env : Env) where
  -- a complete command that is a server command
  unfoldable pub server_command : CommandQEntry → ServCmd → Text → List Text → Ctx → Outcome Ctx
  server_command ce cmd word words c =
      if not (is_empty ce.dataset)
      then ok (
          forward_statusline env
            (env.fail_str ++ text " " ++ word ++ env.gettext (text " accepts no data set.\n")) c)
      else if has_redirection ce.command
      then ok (
          forward_statusline env
            (env.fail_str
              ++ env.gettext (text " input/output of server commands can't be redirected.\n"))
            c)
      else execute env cmd words c

  -- processCommand behind the search for a server command
  unfoldable pub process_words : CommandQEntry → List Text → Ctx → Outcome Ctx
  unfolding count_server_command
  process_words ce [] c = ok c
  process_words ce (word ∷ rest) c = elim (find_command env word) [
    | some cmd ↦ server_command ce cmd word (word ∷ rest) (count_server_command c)
    | none ↦ elim c.sc.core_id [
      | suc id ↦ forward_to_core env ce c
      | zero ↦ ok (
          command_not_found env
            (env.format (env.gettext (text "no such server command '%s'.")) (word ∷ [])) c)
    ]
  ]

  unfoldable pub process_command : CommandQEntry → Ctx → Outcome Ctx
  unfolding process_words
  process_command ce c = process_words ce (env.split_string_by ce.command word_separators) c

  -- the command that is being transferred, with one more line
  unfoldable pub extended : CommandQEntry → Ctx → Outcome Ctx
  unfolding set_command
  extended ce c =
      let c₁ = set_command (some ce) c in
      if flushable ce then (process_command ce c₁ >>= λ c₂. ok (set_command none c₂)) else ok c₁

  -- a line for the command that is being transferred
  unfoldable pub data_line : Text → CommandQEntry → Ctx → Outcome Ctx
  unfolding extended push_line
  data_line line ce c =
      if ce.accepts_data && not ce.data_finished
      then extended (append_to_dataset env line ce) c
      else ok (push_line line c)

  -- a line that begins a command
  unfoldable pub command_line : Text → Ctx → Outcome Ctx
  unfolding set_command
  command_line line c =
      let ce = new_entry env c.sc.client_id line c.app.now in
      if flushable ce then process_command ce c else ok (set_command (some ce) c)

  -- lineFromClient behind its first statements
  unfoldable pub take_client_line : Bool → Text → Ctx → Outcome Ctx
  unfolding data_line command_line push_line
  take_client_line from_server_queue line c = elim c.sc.cur_command [
    | some ce ↦ data_line line ce c
    | none ↦
        if not from_server_queue && (not (is_empty c.sc.line_queue) || is_waiting_for_core_reply c)
        then ok (push_line line c)
        else command_line line c
  ]

  unfoldable pub line_from_client : Bool → Text → Ctx → Outcome Ctx
  unfolding take_client_line count_line
  line_from_client from_server_queue line c =
      let whole = if lacks_newline line then line ++ 10 ∷ [] else line in
      take_client_line from_server_queue whole (count_line whole c)

  -- the line to execute: the front of the queue, if there is one and the client does not wait
  unfoldable pub next_line : List Text → Bool → Option Text
  next_line [] waiting = none
  next_line (line ∷ q) waiting = if waiting then none else some line

  -- the front of lineQueue goes
  unfoldable pub pop_line : Ctx → Ctx
  pop_line c = record c {
    sc = record c.sc { line_queue = elim c.sc.line_queue [ [] ↦ [] | l ∷ q ↦ q ] };
  }

  -- The loop that executes the queued lines once the client waits for nothing. A line that is executed
  -- from the queue never joins it, so the length of the queue bounds the rounds.
  unfoldable pub replay_loop : ℕ → Ctx → Outcome Ctx
  unfolding pop_line next_line
  replay_loop zero c = ok c
  replay_loop (suc rounds) c = elim (next_line c.sc.line_queue (is_waiting_for_core_reply c)) [
    | none ↦ ok c
    | some line ↦ line_from_client true line c >>= λ c₁. replay_loop rounds (pop_line c₁)
  ]

  unfoldable pub replay_lines : Ctx → Outcome Ctx
  unfolding replay_loop
  replay_lines c = replay_loop (length c.sc.line_queue) c
