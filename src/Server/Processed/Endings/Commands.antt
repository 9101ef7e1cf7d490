-- ===== src/Server/Processed/Endings/Commands.antt =====
-- The server commands of src/main.cpp that may not return.
use graphserv.Prelude.{
  ℕ, ◌≡◌, inl, inr, refl, ap, Bool-cases, Text, text, codes, List, [], ◌∷◌, ◌++◌, Option, none,
  some, same_text, same_text-eq,
}
use graphserv.Access.{level_above}
use graphserv.External.{Env}
use graphserv.Outcome.{Ends, Ends-map, bind-Ends, found-Ends, if-Ends, ok}
use graphserv.Auth.{PasswordAuth, refresh_file_cache}
use graphserv.Auth
use graphserv.Auth.Authorize.{authorize-cases}
use graphserv.Core.{CoreInstance}
use graphserv.Core.Entry.{new_entry}
use graphserv.Server.{
  Ctx, ServCmd, create_graph, use_graph, authorize, help, drop_graph, list_graphs, session_info,
  server_stats, protocol_version, quit, shutdown, find_instance,
}
use graphserv.Server.Reply.{forward_dataset}
use graphserv.Server.Forwarding.{forward_to_core}
use graphserv.Server.Commands.{synopsis, tell, find_command, command_level, returns_void}
use graphserv.Server.Commands.Graphs.{exec_shutdown}
use graphserv.Server.Commands.Info.{
  exec_authorize, authorized, exec_help, help_line, help_to_core, help_all, help_elsewhere, help_on,
  help_text,
}
use graphserv.Server.Commands.Execute.{exec, execute}
use graphserv.Server.Processed.Endings.{Trouble, TroubleAt, forward_to_core-Ends}

module _ (env : Env) where
  help_to_core-Ends :
      (command : Text) (words : List Text) (c : Ctx) (now : ℕ) (auth : PasswordAuth)
      (core : CoreInstance) (found : Option CoreInstance)
      → found ≡ some core
      → Ends (Trouble env command words found now auth) (help_to_core env words c)
  unfolding help_to_core new_entry
  help_to_core-Ends command words c now auth core found f =
      Ends-map (λ t. Trouble.no_core_word (help_line env words) core f (inr (inl refl)) t.2)
        (forward_to_core-Ends env (new_entry env c.sc.client_id (help_line env words) c.app.now) c)

  help_elsewhere-Ends :
      (command : Text) (words : List Text) (c : Ctx)
      → Ends (TroubleAt env command words c) (help_elsewhere env words c)
  unfolding help_elsewhere
  help_elsewhere-Ends command words c =
      found-Ends (find_instance c.sc.core_id c.app) _ _ (inl (_, refl)) (λ core f.
        help_to_core-Ends command words c c.app.now c.app.password_auth core
          (find_instance c.sc.core_id c.app) f)

  help_on-Ends :
      (command name : Text) (words : List Text) (c : Ctx)
      → Ends (TroubleAt env command words c) (help_on env name words c)
  unfolding help_on
  help_on-Ends command name words c = by_command (find_command env name)
    where
      by_command :
          (o : Option ServCmd)
          → Ends (TroubleAt env command words c) (elim o [
            | none ↦ help_elsewhere env words c
            | some help ↦ help_elsewhere env words c
            | some cmd ↦ ok (
                forward_dataset env
                  (text "# " ++ synopsis cmd ++ text "\n# " ++ help_text env cmd ++ text "\n\n")
                  (tell env help (env.cli_success (name ++ text ":\n")) c))
          ])
      by_command none = help_elsewhere-Ends command words c
      by_command (some help) = help_elsewhere-Ends command words c
      by_command (some cmd) = inl (_, refl)

  help-Ends :
      (command : Text) (words : List Text) (c : Ctx)
      → Ends (TroubleAt env command words c) (exec_help env words c)
  unfolding exec_help help_all
  help-Ends command [] c = inl (_, refl)
  help-Ends command (w ∷ []) c =
      found-Ends (find_instance c.sc.core_id c.app) _ _ (inl (_, refl)) (λ core f.
        help_to_core-Ends command (w ∷ []) _ c.app.now c.app.password_auth core
          (find_instance c.sc.core_id c.app) f)
  help-Ends command (w ∷ name ∷ []) c = help_on-Ends command name (w ∷ name ∷ []) c
  help-Ends command (w ∷ name ∷ x ∷ rest) c = inl (_, refl)

  authorize-Ends :
      (command : Text) (words : List Text) (c : Ctx)
      → Ends (TroubleAt env command words c) (exec_authorize env words c)
  unfolding exec_authorize
  authorize-Ends command [] c = inl (_, refl)
  authorize-Ends command (w ∷ []) c = inl (_, refl)
  authorize-Ends command (w ∷ a ∷ []) c = inl (_, refl)
  authorize-Ends command (w ∷ a ∷ cred ∷ []) c =
      elim (Bool-cases (same_text a (codes "password"))) [
        | inr e ↦ rw (exec_authorize, e) (inl (_, refl))
        | inl e ↦
            let own = same_text-eq a (codes "password") e in
            rw (exec_authorize, e)
              (bind-Ends
                (Auth.authorize env (env.files_at c.app.now) c.app.now cred c.app.password_auth) _
                (elim (authorize-cases env (env.files_at c.app.now) c.app.now cred
                  c.app.password_auth) [
                    | inl x ↦ inl x
                    | inr (inl (ne, blank)) ↦ inr (
                        Trouble.blank_credentials w cred (ap (λ t. w ∷ t ∷ cred ∷ []) own) ne blank)
                    | inr (inr (inr (auth', r, null))) ↦
                        inr (Trouble.no_crypt w cred auth' (ap (λ t. w ∷ t ∷ cred ∷ []) own) r null)
                    | inr (inr (inl bad)) ↦
                        inr (Trouble.bad_files w cred (ap (λ t. w ∷ t ∷ cred ∷ []) own) bad)
                  ])
                (λ r. inl (authorized env r c, refl)))
      ]
  authorize-Ends command (w ∷ a ∷ cred ∷ x ∷ rest) c = inl (_, refl)

  shutdown-Ends :
      (command : Text) (words : List Text) (c : Ctx)
      → Ends (TroubleAt env command words c) (exec_shutdown env words c)
  unfolding exec_shutdown new_entry
  shutdown-Ends command [] c = inl (_, refl)
  shutdown-Ends command (w ∷ []) c =
      found-Ends (find_instance c.sc.core_id c.app) _ _ (inl (_, refl)) (λ core f.
        bind-Ends
          (forward_to_core env (new_entry env c.sc.client_id (text "shutdown\n") c.app.now) c) _
          (Ends-map (λ t. Trouble.no_core_word (text "shutdown\n") core f (inr (inr refl)) t.2)
            (forward_to_core-Ends env (new_entry env c.sc.client_id (text "shutdown\n") c.app.now)
              c))
          (λ c₁. inl (_, refl)))
  shutdown-Ends command (w ∷ x ∷ rest) c = inl (_, refl)

  exec-Ends :
      (cmd : ServCmd) (command : Text) (words : List Text) (c : Ctx)
      → Ends (TroubleAt env command words c) (exec env cmd words c)
  unfolding exec
  exec-Ends authorize command words c = authorize-Ends command words c
  exec-Ends help command words c = help-Ends command words c
  exec-Ends shutdown command words c = shutdown-Ends command words c
  exec-Ends create_graph command words c = inl (_, refl)
  exec-Ends use_graph command words c = inl (_, refl)
  exec-Ends drop_graph command words c = inl (_, refl)
  exec-Ends list_graphs command words c = inl (_, refl)
  exec-Ends session_info command words c = inl (_, refl)
  exec-Ends server_stats command words c = inl (_, refl)
  exec-Ends protocol_version command words c = inl (_, refl)
  exec-Ends quit command words c = inl (_, refl)

  -- a server command, also one that is refused
  pub execute-Ends :
      (cmd : ServCmd) (command : Text) (words : List Text) (c : Ctx)
      → Ends (TroubleAt env command words c) (execute env cmd words c)
  unfolding execute
  execute-Ends cmd command words c =
      if-Ends (level_above (command_level cmd) c.sc.access_level) _ _ (inl (_, refl)) (
        if-Ends (returns_void cmd) _ _
          (bind-Ends (exec env cmd words c) _ (exec-Ends cmd command words c) (λ c₁. inl (_, refl)))
          (exec-Ends cmd command words c))
