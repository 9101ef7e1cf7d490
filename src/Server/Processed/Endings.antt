-- ===== src/Server/Processed/Endings.antt =====
-- Which commands of a client the server does not survive: what can go wrong, and forwardToCore of
-- src/servapp.h.
pub mod Commands
pub mod Lines
pub mod Requests
use graphserv.Prelude.{
  ℕ, zero, suc, ◌≡◌, ◌≢◌, ◌⊎◌, inl, inr, refl, subst, ap, ◌∙◌, ◌&&◌, ◌||◌, if◌then◌else◌, Bool,
  true, false, Bool-cases, Option-cases, Text, text, codes, List, [], ◌∷◌, ◌++◌, Option, none, some,
  is_empty, not, same_text, same_text-eq, arith,
}
use graphserv.Access.{level_above}
use graphserv.External.{Env}
use graphserv.Outcome.{Ends, Ends-map, found-Ends, Outcome, ok, fails, exits, undefined, ◌>>=◌}
use graphserv.Auth.{PasswordAuth, refresh_file_cache}
use graphserv.Auth
use graphserv.Auth.Split.Fields.{IsBlank}
use graphserv.Auth.Authorize.{authorize-cases, HasNoCrypt}
use graphserv.Core.{CoreInstance}
use graphserv.Core.Entry.{CommandQEntry, new_entry, append_to_dataset, flushable}
use graphserv.Server.{
  Ctx, ServCmd, create_graph, use_graph, authorize, help, drop_graph, list_graphs, session_info,
  server_stats, protocol_version, quit, shutdown, find_instance, is_waiting_for_core_reply,
}
use graphserv.Server.Reply.{forward_dataset, lacks_newline, command_not_found}
use graphserv.Server.Forwarding.{forward_to_core, with_core, core_separators, has_redirection}
use graphserv.Server.Commands.{synopsis, tell, find_command, command_level, returns_void}
use graphserv.Server.Commands.Graphs.{exec_shutdown}
use graphserv.Server.Commands.Info.{
  exec_authorize, authorized, exec_help, help_line, help_to_core, help_all, help_elsewhere, help_on,
  help_text,
}
use graphserv.Server.Commands.Execute.{exec, execute}
use graphserv.Server.Dispatch.{
  word_separators, set_command, push_line, count_server_command, count_line, server_command,
  process_words, process_command, extended, data_line, command_line, take_client_line,
  line_from_client,
}

module _ (env : Env) where
  -- What is sent to a core for a command of these words: the command, or the line that help or
  -- shutdown makes.
  abbrev pub IsSent : Text → List Text → Text → Type 0
  IsSent command words line =
      (line ≡ command) ⊎ (line ≡ help_line env words) ⊎ (line ≡ text "shutdown\n")

  -- Why a command may not return: it is for a core that runs, and has separators only; or it is an
  -- authorization by white space, one for which the credential files are not read to their end, or
  -- one of a user of the table for whose password and hash crypt() answers NULL.
  pub data Trouble (command : Text) (words : List Text) (core : Option CoreInstance) (now : ℕ)
      (auth : PasswordAuth) : Type 0 where
    no_core_word :
        (line : Text) (found : CoreInstance)
        → core ≡ some found
        → IsSent command words line
        → env.split_string_by line core_separators ≡ []
        → Trouble command words core now auth
    blank_credentials :
        (word credentials : Text)
        → words ≡ word ∷ codes "password" ∷ credentials ∷ []
        → credentials ≢ []
        → IsBlank credentials
        → Trouble command words core now auth
    bad_files :
        (word credentials : Text)
        → words ≡ word ∷ codes "password" ∷ credentials ∷ []
        → ((auth' : PasswordAuth) → refresh_file_cache (env.files_at now) now auth ≢ ok auth')
        → Trouble command words core now auth
    no_crypt :
        (word credentials : Text) (auth' : PasswordAuth)
        → words ≡ word ∷ codes "password" ∷ credentials ∷ []
        → refresh_file_cache (env.files_at now) now auth ≡ ok auth'
        → HasNoCrypt env auth'.users credentials
        → Trouble command words core now auth

  abbrev pub TroubleAt : Text → List Text → Ctx → Type 0
  TroubleAt command words c =
      Trouble command words (find_instance c.sc.core_id c.app) c.app.now c.app.password_auth

  abbrev pub NoWord : Text → Ctx → Type 0
  NoWord line c =
      (core : CoreInstance) × (find_instance c.sc.core_id c.app ≡ some core)
      × (env.split_string_by line core_separators ≡ [])

  with_core-Ends :
      (ce : CommandQEntry) (words : List Text) (core : CoreInstance) (c : Ctx)
      → Ends (words ≡ []) (with_core env ce words core c)
  unfolding with_core
  with_core-Ends ce [] core c = inr refl
  with_core-Ends ce (word ∷ rest) core c =
      found-Ends (env.find_core_command word) _ _ (inl (_, refl)) (λ level f. inl (_, refl))

  pub forward_to_core-Ends :
      (ce : CommandQEntry) (c : Ctx) → Ends (NoWord ce.command c) (forward_to_core env ce c)
  unfolding forward_to_core
  forward_to_core-Ends ce c =
      found-Ends (find_instance c.sc.core_id c.app) _ _ (inl (_, refl)) (λ core f.
        Ends-map (λ s. (core, f, s))
          (with_core-Ends ce (env.split_string_by ce.command core_separators) core c))
