-- ===== src/Server/Processed/Help.antt =====
-- What the help command can change.
use graphserv.Prelude.{◌≡◌, refl, Text, text, List, [], ◌∷◌, ◌++◌, Option, none, some}
use graphserv.External.{Env}
use graphserv.Outcome.{Post, Outcome, ok, fails, exits, undefined}
use graphserv.Server.{Ctx, ServCmd, help, find_instance}
use graphserv.Server.Reply.{forward_dataset}
use graphserv.Server.Reply.Output.{forward_statusline-OnlyOutput, forward_dataset-OnlyOutput}
use graphserv.Server.Commands.{commands, synopsis, set_message, tell, find_command}
use graphserv.Server.Commands.Info.{
  help_loop, help_to_core, help_all, help_elsewhere, help_on, exec_help, help_text,
}
use graphserv.Server.Processed.{
  Processed, OnlyOutput-Processed, Quiet, OnlyOutput-Quiet, Quiet-trans, Quiet-before,
  forward_to_core-Processed,
}
use graphserv.Server.Processed.Messages.{tell-Processed}
use graphserv.Server.Processed.Graphs.{one_more}

module _ (env : Env) where
  -- a call behind an output
  pub behind :
      {a b : Ctx} (r : Outcome Ctx)
      → Quiet a b
      → Post (Processed env b) r
      → Post (Processed env a) r
  behind (ok c) o p = Quiet-before env o p
  behind fails o p = tt
  behind exits o p = tt
  behind undefined o p = tt

  pub found-Post :
      {A : Type 0} (o : Option A) (P : Ctx → Type 0) (x : Outcome Ctx) (f : A → Outcome Ctx)
      → Post P x
      → ((a : A) → o ≡ some a → Post P (f a))
      → Post P (elim o [ none ↦ x | some a ↦ f a ])
  found-Post none P x f hx hf = hx
  found-Post (some a) P x f hx hf = hf a refl

  help_to_core-Processed :
      (words : List Text) (c : Ctx) → Post (Processed env c) (help_to_core env words c)
  unfolding help_to_core
  help_to_core-Processed words c = forward_to_core-Processed env _ c

  help_elsewhere-Processed :
      (words : List Text) (c : Ctx) → Post (Processed env c) (help_elsewhere env words c)
  unfolding help_elsewhere
  help_elsewhere-Processed words c =
      found-Post (find_instance c.sc.core_id c.app) (Processed env c) _ _
        (tell-Processed env help _ c) (λ core f. help_to_core-Processed words c)

  tell-Quiet : (cmd : ServCmd) (message : Text) (c : Ctx) → Quiet c (tell env cmd message c)
  unfolding tell set_message
  tell-Quiet cmd message c =
      Quiet-trans
        (record {
          same_cores = refl;
          same_auth = refl;
          same_now = refl;
          same_sessions = refl;
          same_client = refl;
          same_type = refl;
          same_queue = refl;
          same_level = refl;
        })
        (OnlyOutput-Quiet (forward_statusline-OnlyOutput env message (set_message cmd message c)))

  help_loop-Quiet : (cmds : List ServCmd) (c x : Ctx) → Quiet c x → Quiet c (help_loop env cmds x)
  unfolding help_loop
  help_loop-Quiet [] c x q = q
  help_loop-Quiet (cmd ∷ rest) c x q =
      help_loop-Quiet rest c _
        (Quiet-trans q (OnlyOutput-Quiet (forward_dataset-OnlyOutput env _ x)))

  help_all-Processed : (words : List Text) (c : Ctx) → Post (Processed env c) (help_all env words c)
  unfolding help_all
  help_all-Processed words c =
      let message = env.cli_success (env.gettext (text "available server commands:\n")) in
      let q = help_loop-Quiet commands c (tell env help message c) (tell-Quiet help message c) in
      found-Post (find_instance c.sc.core_id c.app) (Processed env c) _ _
        (Quiet-before env q (OnlyOutput-Processed env (forward_dataset-OnlyOutput env _ _)))
        (λ core f. behind (help_to_core env words _) q (help_to_core-Processed words _))

  help_on-Processed :
      (name : Text) (words : List Text) (c : Ctx)
      → Post (Processed env c) (help_on env name words c)
  unfolding help_on
  help_on-Processed name words c = by_command (find_command env name)
    where
      shown :
          (cmd : ServCmd)
          → Processed env c (
              forward_dataset env
                (text "# " ++ synopsis cmd ++ text "\n# " ++ help_text env cmd ++ text "\n\n")
                (tell env help (env.cli_success (name ++ text ":\n")) c))
      shown cmd = one_more env _ (tell-Processed env help _ c)

      by_command :
          (o : Option ServCmd)
          → Post (Processed env c) (elim o [
            | none ↦ help_elsewhere env words c
            | some help ↦ help_elsewhere env words c
            | some cmd ↦ ok (
                forward_dataset env
                  (text "# " ++ synopsis cmd ++ text "\n# " ++ help_text env cmd ++ text "\n\n")
                  (tell env help (env.cli_success (name ++ text ":\n")) c))
          ])
      by_command none = help_elsewhere-Processed words c
      by_command (some help) = help_elsewhere-Processed words c
      by_command (some cmd) = shown cmd

  pub help-Processed :
      (words : List Text) (c : Ctx) → Post (Processed env c) (exec_help env words c)
  unfolding exec_help
  help-Processed [] c = tell-Processed env help _ c
  help-Processed (w ∷ []) c = help_all-Processed (w ∷ []) c
  help-Processed (w ∷ name ∷ []) c = help_on-Processed name (w ∷ name ∷ []) c
  help-Processed (w ∷ name ∷ x ∷ rest) c = tell-Processed env help _ c
