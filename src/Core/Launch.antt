-- ===== src/Core/Launch.antt =====
-- CoreInstance::startCore of src/coreinstance.h. What pipe, fork, the child and waitpid do is given;
-- the paths of the child process itself (dup2, chdir, execl) are seen by its exit status.
use graphserv.Prelude.{
  ℕ, ◌==◌, if◌then◌else◌, Bool, true, false, Text, text, [], ◌∷◌, ◌++◌, length, take, drop,
  same_text,
}
use graphserv.Prelude.Chars.{is_space}
use graphserv.External.{
  Env, Exit, signaled, exited, other, Launch, pipe_fails, fork_fails, replied, no_reply,
}
use graphserv.Writer.{set_write_fd}
use graphserv.Core.{CoreInstance}

-- strncmp(prefix, line, strlen(prefix)) == 0
unfoldable pub has_prefix : Text → Text → Bool
has_prefix prefix line = same_text prefix (take (length prefix) line)

skip_space : Text → Text
skip_space [] = []
skip_space (c ∷ rest) = if is_space c then skip_space rest else c ∷ rest

module _ (env : Env) where
  open env use {gettext, success_str, protocol_version, error_text, decimal, format}

  -- the version in the reply of a core
  unfoldable pub reply_version : Text → Text
  unfolding skip_space
  reply_version line = skip_space (drop (length success_str) line)

  exit_message : Text → ℕ → Text
  exit_message path status =
      if status == 101
      then gettext (text "setup failed.")
      else if status == 102
      then gettext (text "couldn't exec '") ++ path ++ text "'."
      else if status == 103
      then gettext (text "couldn't change directory")
      else format (gettext (text "unknown error code %d")) (decimal status ∷ [])

  end_message : Text → Exit → Text
  unfolding exit_message
  end_message path signaled = gettext (text "child process terminated by signal")
  end_message path (exited status) =
      gettext (text "child process exited: ") ++ exit_message path status
  end_message path other = gettext (text "child process terminated")

  -- the instance and the result of startCore
  unfoldable pub start_core : Text → Launch → CoreInstance → CoreInstance × Bool
  unfolding end_message
  start_core path pipe_fails core =
      (record core { last_error = text "pipe(): " ++ error_text }, false)
  start_core path fork_fails core =
      (record core { last_error = text "fork(): " ++ error_text }, false)
  start_core path (replied pid pipe_to_core line) core =
      if has_prefix success_str line
      then if same_text (reply_version line) protocol_version
        then (
          record core { pid = pid; writer = set_write_fd pipe_to_core; process_running = true },
          true,
        )
        else (
          record core {
            pid = pid;
            last_error =
                gettext (text "protocol version mismatch (server: ")
                ++ protocol_version
                ++ text " core: "
                ++ reply_version line
                ++ text ")";
          },
          false,
        )
      else (record core { pid = pid; last_error = gettext (text "core replied: ") ++ line }, false)
  start_core path (no_reply pid exit) core =
      (record core { pid = pid; last_error = end_message path exit }, false)
