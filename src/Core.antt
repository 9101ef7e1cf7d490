-- ===== src/Core.antt =====
-- src/coreinstance.h, with flushCommandQ and the core's side of lineFromCore of src/main.cpp.
pub mod Entry
pub mod Launch
pub mod Started
pub mod Lines
pub mod Queue
pub mod Multiplex
pub mod Progress
pub mod Continuity
pub mod Exchange
use graphserv.Prelude.{
  ℕ, ◌==◌, if◌then◌else◌, Bool, true, false, ◌&&◌, ◌||◌, not, Text, codes, List, [], ◌∷◌, ◌++◌,
  Option, none, some, is_empty,
}
use graphserv.External.{Env}
use graphserv.Writer.{NonblockWriter, set_write_fd, write_all}
use Entry.{CommandQEntry, flushable, wire}

-- `instance_name` is the field `name`, which is empty for an instance without one.
pub record CoreInstance : Type 0 where
  pub instance_id : ℕ
  pub last_error : Text
  pub instance_name : Text
  pub pid : ℕ
  pub command_q : List CommandQEntry
  pub last_client_id : ℕ
  pub expecting_reply : Bool
  pub expecting_dataset : Bool
  pub process_running : Bool
  pub writer : NonblockWriter
  pub linebuf : Text

-- CoreInstance(id, path); the descriptors are -1 until startCore, here 0
unfoldable pub create : ℕ → CoreInstance
create id = record {
  instance_id = id;
  last_error = [];
  instance_name = [];
  pid = 0;
  command_q = [];
  last_client_id = 0;
  expecting_reply = false;
  expecting_dataset = false;
  process_running = false;
  writer = set_write_fd 0;
  linebuf = [];
}

unfoldable pub set_name : Text → CoreInstance → CoreInstance
set_name nm core = record core { instance_name = nm }

-- find *last* command for this client in queue
unfoldable pub find_last_client_command : ℕ → List CommandQEntry → Option CommandQEntry
find_last_client_command id [] = none
find_last_client_command id (e ∷ q) = elim (find_last_client_command id q) [
  | some x ↦ some x
  | none ↦ if e.client_id == id then some e else none
]

-- a write through the pointer that findLastClientCommand returns
unfoldable pub update_last_client_command :
    ℕ → (CommandQEntry → CommandQEntry) → List CommandQEntry → List CommandQEntry
unfolding find_last_client_command
update_last_client_command id f [] = []
update_last_client_command id f (e ∷ q) =
    let rest = update_last_client_command id f q in
    elim (find_last_client_command id q) [
      | some x ↦ e ∷ rest
      | none ↦ if e.client_id == id then f e ∷ q else e ∷ q
    ]

unfoldable pub queue_command : CommandQEntry → CoreInstance → CoreInstance
queue_command ce core = record core { command_q = core.command_q ++ ce ∷ [] }

-- the other queueCommand, which nothing calls, at time `now`
unfoldable pub queue_text : Text → ℕ → Bool → ℕ → CoreInstance → CoreInstance
queue_text cmd client has_data_set now core = record core {
  command_q =
      core.command_q
      ++ record {
        command = cmd;
        dataset = [];
        client_id = client;
        accepts_data = has_data_set;
        data_finished = false;
        send_begin_time = now;
      }
        ∷ [];
}

abbrev is_some : Option CommandQEntry → Bool
is_some none = false
is_some (some e) = true

-- Whether the core is running a command for the client or has one in its queue.
unfoldable pub has_data_for_client : ℕ → CoreInstance → Bool
unfolding find_last_client_command
has_data_for_client id core =
    core.last_client_id == id && (core.expecting_reply || core.expecting_dataset)
    || is_some (find_last_client_command id core.command_q)

-- What lineFromCore does with a line, beside the changes to the instance: it forwards the line to
-- the client that ran the last command, or nobody expects it.
pub data Forward : Type 0 where
  as_status as_dataset unexpected : Forward

module _ (env : Env) where
  unfoldable pub get_name : CoreInstance → Text
  get_name core =
      if is_empty core.instance_name
      then codes "Core" ++ env.decimal_02 core.instance_id
      else core.instance_name

  -- one round of the loop of flushCommandQ, behind its test
  unfoldable pub send : CommandQEntry → CoreInstance → CoreInstance
  send c core = record core {
    writer = write_all env (wire c) core.writer;
    last_client_id = c.client_id;
    expecting_reply = true;
    expecting_dataset = false;
  }

  -- the loop, over the commands that are left in the queue
  flush_loop : List CommandQEntry → CoreInstance → CoreInstance
  unfolding send
  flush_loop [] core = record core { command_q = [] }
  flush_loop (c ∷ rest) core =
      let more = flush_loop rest (send c core) in
      if not core.expecting_reply && not core.expecting_dataset && flushable c
      then more
      else record core { command_q = c ∷ rest }

  unfoldable pub flush_command_q : CoreInstance → CoreInstance
  unfolding flush_loop
  flush_command_q core = flush_loop core.command_q core

  -- lineFromCore without the forwarding
  unfoldable pub take_line : Text → CoreInstance → CoreInstance × Forward
  take_line line core =
      if core.expecting_reply
      then (
        record core {
          expecting_reply = false;
          expecting_dataset =
              if env.line_indicates_dataset line then true else core.expecting_dataset;
        },
        as_status,
      )
      else if core.expecting_dataset
      then (record core { expecting_dataset = not (is_empty (env.split_string line)) }, as_dataset)
      else (core, unexpected)

  -- terminate(): false if kill fails
  unfoldable pub terminate : CoreInstance → CoreInstance × Bool
  terminate core =
      if env.kill_succeeds core.pid
      then (record core { process_running = false }, true)
      else (core, false)
