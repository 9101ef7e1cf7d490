-- ===== src/Server/Processed/Endings/Lines.antt =====
-- The lines of a client, in processCommand and lineFromClient of src/servapp.h.
use graphserv.Prelude.{
  ℕ, zero, suc, ◌≡◌, inl, refl, subst, ◌&&◌, ◌||◌, if◌then◌else◌, Bool, Text, text, List, [], ◌∷◌,
  ◌++◌, Option, none, some, is_empty, not, arith,
}
use graphserv.External.{Env}
use graphserv.Outcome.{Ends, Ends-map, bind-Ends, found-Ends, if-Ends, ok}
use graphserv.Core.Entry.{CommandQEntry, new_entry, append_to_dataset, flushable}
use graphserv.Server.{Ctx, is_waiting_for_core_reply}
use graphserv.Server.Reply.{lacks_newline, command_not_found}
use graphserv.Server.Forwarding.{forward_to_core, has_redirection}
use graphserv.Server.Commands.{find_command}
use graphserv.Server.Dispatch.{
  word_separators, set_command, push_line, count_server_command, count_line, server_command,
  process_words, process_command, extended, data_line, command_line, take_client_line,
  line_from_client,
}
use graphserv.Server.Processed.Endings.{Trouble, TroubleAt, forward_to_core-Ends}
use graphserv.Server.Processed.Endings.Commands.{execute-Ends}

module _ (env : Env) where
  process_words-Ends :
      (ce : CommandQEntry) (words : List Text) (c : Ctx)
      → Ends (TroubleAt env ce.command words c) (process_words env ce words c)
  unfolding process_words server_command count_server_command
  process_words-Ends ce [] c = inl (c, refl)
  process_words-Ends ce (word ∷ rest) c =
      found-Ends (find_command env word) _ _ (by_core c.sc.core_id) (λ cmd f.
        if-Ends (not (is_empty ce.dataset)) _ _ (inl (_, refl)) (
          if-Ends (has_redirection ce.command) _ _ (inl (_, refl))
            (execute-Ends env cmd ce.command (word ∷ rest) (count_server_command c))))
    where
      by_core :
          (id : ℕ)
          → Ends (TroubleAt env ce.command (word ∷ rest) c) (elim id [
            | suc n ↦ forward_to_core env ce c
            | zero ↦ ok (
                command_not_found env
                  (env.format (env.gettext (text "no such server command '%s'.")) (word ∷ []))
                  c)
          ])
      by_core zero = inl (_, refl)
      by_core (suc n) =
          Ends-map (λ t. Trouble.no_core_word ce.command t.0 t.1 (inl refl) t.2)
            (forward_to_core-Ends env ce c)

  -- what can be wrong with a command of the session
  abbrev pub CommandTrouble : Text → Ctx → Type 0
  CommandTrouble command c = TroubleAt env command (env.split_string_by command word_separators) c

  process_command-Ends :
      (ce : CommandQEntry) (c : Ctx) → Ends (CommandTrouble ce.command c) (process_command env ce c)
  unfolding process_command
  process_command-Ends ce c = process_words-Ends ce _ c

  extended-Ends :
      (ce : CommandQEntry) (c : Ctx) → Ends (CommandTrouble ce.command c) (extended env ce c)
  unfolding extended set_command
  extended-Ends ce c =
      if-Ends (flushable ce) _ _
        (bind-Ends (process_command env ce (set_command (some ce) c)) _
          (process_command-Ends ce (set_command (some ce) c)) (λ c₂. inl (_, refl)))
        (inl (_, refl))

  -- the command that a line from the client belongs to
  abbrev pub command_of : Text → Ctx → Text
  command_of line c = elim c.sc.cur_command [
    | some ce ↦ ce.command
    | none ↦ if lacks_newline line then line ++ 10 ∷ [] else line
  ]

  appended-command :
      (line : Text) (ce : CommandQEntry) → (append_to_dataset env line ce).command ≡ ce.command
  unfolding append_to_dataset
  appended-command line ce = ground arith

  data_line-Ends :
      (line : Text) (ce : CommandQEntry) (c : Ctx)
      → Ends (CommandTrouble ce.command c) (data_line env line ce c)
  unfolding data_line
  data_line-Ends line ce c =
      if-Ends (ce.accepts_data && not ce.data_finished) _ _
        (subst (λ t. Ends (CommandTrouble t c) (extended env (append_to_dataset env line ce) c))
          (appended-command line ce) (extended-Ends (append_to_dataset env line ce) c))
        (inl (_, refl))

  command_line-Ends :
      (line : Text) (c : Ctx) → Ends (CommandTrouble line c) (command_line env line c)
  unfolding command_line new_entry
  command_line-Ends line c =
      let ce = new_entry env c.sc.client_id line c.app.now in
      if-Ends (flushable ce) _ _ (process_command-Ends ce c) (inl (_, refl))

  take_line-Ends :
      (queued : Bool) (line : Text) (c : Ctx)
      → Ends
          (CommandTrouble (elim c.sc.cur_command [ some ce ↦ ce.command | none ↦ line ]) c)
          (take_client_line env queued line c)
  unfolding take_client_line
  take_line-Ends queued line c = by_command c.sc.cur_command
    where
      by_command :
          (o : Option CommandQEntry)
          → Ends (CommandTrouble (elim o [ some ce ↦ ce.command | none ↦ line ]) c) (elim o [
            | some ce ↦ data_line env line ce c
            | none ↦
                if not queued && (not (is_empty c.sc.line_queue) || is_waiting_for_core_reply c)
                then ok (push_line line c)
                else command_line env line c
          ])
      by_command (some ce) = data_line-Ends line ce c
      by_command none = if-Ends _ _ _ (inl (_, refl)) (command_line-Ends line c)

  -- The handling of a line from a client returns, or the line's command has nothing but separators for
  -- a core that runs, or it is an authorization by the password authority whose credentials are white
  -- space only, or for which the refresh of the credential files does not return, or for whose
  -- password and the hash of its user crypt() answers NULL.
  pub line_from_client-Ends :
      (queued : Bool) (line : Text) (c : Ctx)
      → Ends (CommandTrouble (command_of line c) c) (line_from_client env queued line c)
  unfolding line_from_client count_line
  line_from_client-Ends queued line c =
      let whole = if lacks_newline line then line ++ 10 ∷ [] else line in
      take_line-Ends queued whole (count_line whole c)
