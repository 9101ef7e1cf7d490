-- ===== src/Server/Processed/Words.antt =====
-- What a complete command from a client can change: processCommand of src/servapp.h.
use graphserv.Prelude.{
  ℕ, zero, suc, inl, inr, refl, Bool-cases, Option-cases, Text, text, List, [], ◌∷◌, Option,
  is_empty, not,
}
use graphserv.External.{Env}
use graphserv.Outcome.{Post, ok}
use graphserv.Core.Entry.{CommandQEntry}
use graphserv.Server.{Ctx, ServCmd}
use graphserv.Server.Reply.{command_not_found}
use graphserv.Server.Reply.Output.{forward_statusline-OnlyOutput, command_not_found-OnlyOutput}
use graphserv.Server.Forwarding.{has_redirection, forward_to_core}
use graphserv.Server.Commands.{find_command}
use graphserv.Server.Dispatch.{
  set_command, count_server_command, server_command, process_words, process_command,
}
use graphserv.Server.Instances.{Evolves}
use graphserv.Server.Processed.{Processed, Quiet, OnlyOutput-Processed, forward_to_core-Processed}
use graphserv.Server.Processed.Help.{behind}
use graphserv.Server.Processed.Commands.{execute-Processed}

-- the counters of the session
count-Quiet : (c : Ctx) → Quiet c (count_server_command c)
unfolding count_server_command
count-Quiet c = record {
  same_cores = refl;
  same_auth = refl;
  same_now = refl;
  same_sessions = refl;
  same_client = refl;
  same_type = refl;
  same_queue = refl;
  same_level = refl;
}

pub set_command-Quiet : (ce : Option CommandQEntry) (c : Ctx) → Quiet c (set_command ce c)
unfolding set_command
set_command-Quiet ce c = record {
  same_cores = refl;
  same_auth = refl;
  same_now = refl;
  same_sessions = refl;
  same_client = refl;
  same_type = refl;
  same_queue = refl;
  same_level = refl;
}

module _ (env : Env) where
  server_command-Processed :
      (ce : CommandQEntry) (cmd : ServCmd) (word : Text) (words : List Text) (c : Ctx)
      → Post (Processed env c) (server_command env ce cmd word words c)
  unfolding server_command
  server_command-Processed ce cmd word words c = elim (Bool-cases (not (is_empty ce.dataset))) [
    | inl e ↦ rw e (OnlyOutput-Processed env (forward_statusline-OnlyOutput env _ c))
    | inr e ↦ elim (Bool-cases (has_redirection ce.command)) [
      | inl r ↦ rw (e, r) (OnlyOutput-Processed env (forward_statusline-OnlyOutput env _ c))
      | inr r ↦ rw (e, r) (execute-Processed env cmd words c)
    ]
  ]

  process_words-Processed :
      (ce : CommandQEntry) (words : List Text) (c : Ctx)
      → Post (Processed env c) (process_words env ce words c)
  unfolding process_words
  process_words-Processed ce [] c = record {
    same_sessions = refl;
    same_client = refl;
    same_type = refl;
    same_queue = refl;
    level = inl refl;
    cores = Evolves.keep refl;
    auth = inl refl;
    same_now = refl;
  }
  process_words-Processed ce (word ∷ rest) c = elim (Option-cases (find_command env word)) [
    | inr (cmd, e) ↦
        rw (process_words, e)
          (behind env (server_command env ce cmd word (word ∷ rest) (count_server_command c))
            (count-Quiet c)
            (server_command-Processed ce cmd word (word ∷ rest) (count_server_command c)))
    | inl e ↦ rw (process_words, e) (by_core c.sc.core_id)
  ]
    where
      by_core :
          (id : ℕ)
          → Post (Processed env c) (elim id [
            | suc n ↦ forward_to_core env ce c
            | zero ↦ ok (
                command_not_found env
                  (env.format (env.gettext (text "no such server command '%s'.")) (word ∷ []))
                  c)
          ])
      by_core zero = OnlyOutput-Processed env (command_not_found-OnlyOutput env _ c)
      by_core (suc n) = forward_to_core-Processed env ce c

  -- The handling of a complete command never touches another session or the session's own queue of
  -- lines, and a changed access level is one that the password authority granted for credentials.
  pub process_command-Processed :
      (ce : CommandQEntry) (c : Ctx) → Post (Processed env c) (process_command env ce c)
  unfolding process_command
  process_command-Processed ce c = process_words-Processed ce _ c
