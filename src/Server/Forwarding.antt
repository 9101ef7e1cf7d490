-- ===== src/Server/Forwarding.antt =====
-- Graphserv::forwardToCore of src/servapp.h, and the client's side of lineFromCore of src/main.cpp.
pub mod Output
pub mod Submit
use graphserv.Prelude.{
  ℕ, ◌==◌, leb, if◌then◌else◌, Bool, true, false, ◌||◌, Text, text, codes, List, [], ◌∷◌, ◌++◌,
  Option, none, some, contains,
}
use graphserv.Access.{AccessLevel, access_admin, level_value, access_level_name}
use graphserv.External.{Env}
use graphserv.Outcome.{Outcome, ok, undefined}
use graphserv.Core.{
  CoreInstance, Forward, as_status, as_dataset, unexpected, queue_command, flush_command_q,
  take_line,
}
use graphserv.Core.Entry.{CommandQEntry}
use graphserv.Server.{Ctx, Graphserv, find_instance, put_core_instance}
use graphserv.Server.Reply.{forward_statusline, forward_dataset, command_not_found}

-- the separators " \t\n:<>" of forwardToCore
abbrev pub core_separators : Text
core_separators = codes " " ++ 9 ∷ 10 ∷ codes ":<>"

-- find(">") != npos || find("<") != npos
unfoldable pub has_redirection : Text → Bool
has_redirection command = contains b'>' command || contains b'<' command

module _ (env : Env) where
  -- the level that a command of the table needs
  unfoldable pub needed_level : AccessLevel → Text → AccessLevel
  needed_level level command = if has_redirection command then access_admin else level

  unfoldable pub deny : AccessLevel → Ctx → Ctx
  deny level c =
      forward_statusline env
        (env.denied_str
          ++ env.format
              (env.gettext (text " insufficient access level (command needs %s, you have %s)\n"))
              (access_level_name level ∷ access_level_name c.sc.access_level ∷ []))
        c

  -- a command of the table, for an instance that was found
  unfoldable pub submit : CommandQEntry → AccessLevel → CoreInstance → Ctx → Ctx
  submit ce level core c =
      let al = needed_level level ce.command in
      if leb (level_value al) (level_value c.sc.access_level)
      then record c { app = put_core_instance (flush_command_q env (queue_command ce core)) c.app }
      else deny al c

  -- words[0] does not exist if the command has separators only
  unfoldable pub with_core : CommandQEntry → List Text → CoreInstance → Ctx → Outcome Ctx
  with_core ce [] core c = undefined
  with_core ce (word ∷ rest) core c = elim (env.find_core_command word) [
    | some level ↦ ok (submit ce level core c)
    | none ↦ ok (
        command_not_found env
          (env.format (env.gettext (text "no such core command '%s'.")) (word ∷ [])) c)
  ]

  unfoldable pub forward_to_core : CommandQEntry → Ctx → Outcome Ctx
  unfolding with_core
  forward_to_core ce c = elim (find_instance c.sc.core_id c.app) [
    | some core ↦ with_core ce (env.split_string_by ce.command core_separators) core c
    | none ↦
        let c₁ =
          forward_statusline env
            (env.error_str
              ++ env.format (env.gettext (text " core process with ID %d has gone away\n"))
                  (env.decimal c.sc.core_id ∷ []))
            c in
        ok (record c₁ { sc = record c₁.sc { core_id = 0 } })
  ]

  -- the line goes to the client of the last command, if it is still there
  unfoldable pub deliver : Forward → Text → Ctx → Ctx
  deliver as_status line c = forward_statusline env line c
  deliver as_dataset line c = forward_dataset env line c
  deliver unexpected line c = c
