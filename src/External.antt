-- ===== src/External.antt =====
-- What the program uses and does not implement: the operating system, libc, libintl, and the parts
-- of GraphCore's clibase.h (class Cli, the status strings and codes, corecommands.h) that
-- src/const.h, src/servcli.h and src/servapp.h build on. All of it is one parameter of the model.
use graphserv.Prelude.{ℕ, ◌≤◌, ◌≡◌, Bool, Text, List, Option, some, length, get_elem?}
use graphserv.Access.{AccessLevel}

-- What write(2) answers: a count of bytes, EAGAIN or EWOULDBLOCK, or another error.
pub data Written : Type 0 where
  wrote : ℕ → Written
  would_block : Written
  failed : Written

-- The files of the password authority: `none` is a file that cannot be opened, or whose stat fails.
pub record CredentialFiles : Type 0 where
  pub htpasswd : Option Text
  pub group : Option Text
  pub htpasswd_mtime : Option ℕ
  pub group_mtime : Option ℕ

-- How waitpid says that a child has ended.
pub data Exit : Type 0 where
  signaled : Exit
  exited : ℕ → Exit
  other : Exit

-- How starting a core goes: pipe fails; fork fails; the child with this pid, whose input is this
-- descriptor, answers protocol-version by a line, which chomp has cut; or fgets fails and the child
-- has ended.
pub data Launch : Type 0 where
  pipe_fails : Launch
  fork_fails : Launch
  replied : ℕ → ℕ → Text → Launch
  no_reply : ℕ → Exit → Launch

pub record Env : Type 0 where
  -- the files at a time, in seconds
  pub files_at : ℕ → CredentialFiles
  -- the start of the core with this ID
  pub launch : ℕ → Launch
  -- FD_SETSIZE, the listening sockets, and the descriptors of the pipes from the output and the
  -- errors of the core with this ID
  pub fd_setsize : ℕ
  pub listen_fds : List ℕ
  pub core_read_fd : ℕ → ℕ
  pub core_stderr_fd : ℕ → ℕ
  -- sscanf(s, "%02X"): the number, if there is one
  pub sscanf_hex : Text → Option ℕ
  -- write(fd, s): the answer to the call with this number on the descriptor
  pub write_returns : ℕ → ℕ → Text → Written
  -- shutdown(fd, SHUT_RDWR) >= 0
  pub shutdown_succeeds : ℕ → Bool
  -- kill(pid, SIGTERM) >= 0
  pub kill_succeeds : ℕ → Bool
  -- strerror(errno) after a call that failed
  pub error_text : Text
  pub gettext : Text → Text
  pub crypt : Text → Text → Option Text
  -- printf with a translated format and its arguments, which are rendered already
  pub format : Text → List Text → Text
  -- a number under "%d", "%u" or "%zu", and under "%02u"
  pub decimal : ℕ → Text
  pub decimal_02 : ℕ → Text
  -- Cli::splitString, with its default separators and with given ones
  pub split_string : Text → List Text
  pub split_string_by : Text → Text → List Text
  pub line_indicates_dataset : Text → Bool
  -- Cli::findCommand: the index in the list of the registered names
  pub find_command : List Text → Text → Option ℕ
  -- what CliCommand's syntaxError, cliSuccess, cliFailure and cliNone leave in lastStatusMessage
  pub syntax_error : Text → Text
  pub cli_success : Text → Text
  pub cli_failure : Text → Text
  pub cli_none : Text → Text
  -- SUCCESS_STR, FAIL_STR, ERROR_STR, DENIED_STR and the list CORECMDSTATUSSTRINGS
  pub success_str : Text
  pub fail_str : Text
  pub error_str : Text
  pub denied_str : Text
  pub core_status_strings : List Text
  -- the values of the enumerators of CORECMDSTATUSCODES, and their number
  pub cmd_success : ℕ
  pub cmd_failure : ℕ
  pub cmd_error : ℕ
  pub cmd_none : ℕ
  pub cmd_value : ℕ
  pub core_status_count : ℕ
  -- stringify(PROTOCOL_VERSION)
  pub protocol_version : Text
  -- the table that corecommands.h fills
  pub find_core_command : Text → Option AccessLevel

-- write(2) takes no more bytes than it is given.
abbrev pub WritesAtMost : Env → Type 0
WritesAtMost env = (fd call n : ℕ) (s : Text) → env.write_returns fd call s ≡ wrote n → n ≤ length s

-- findCommand answers with a command that has the name.
abbrev pub FindsByName : Env → Type 0
FindsByName env =
    (names : List Text) (name : Text) (i : ℕ)
    → env.find_command names name ≡ some i
    → get_elem? names i ≡ some name
