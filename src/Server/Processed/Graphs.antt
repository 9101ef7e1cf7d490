-- ===== src/Server/Processed/Graphs.antt =====
-- What the commands on graphs can change.
use graphserv.Prelude.{
  ℕ, ◌≡◌, refl, inl, inr, none, is_empty, false, Bool-cases, Option-cases, Text, text, List, [],
  ◌∷◌, not,
}
use graphserv.External.{Env}
use graphserv.Core.{CoreInstance, terminate}
use graphserv.Server.{
  Ctx, create_graph, use_graph, drop_graph, list_graphs, find_named_instance, is_valid_graph_name,
  create_core_instance, add_core_instance, put_core_instance, next_id,
}
use graphserv.Server.Reply.{forward_dataset}
use graphserv.Server.Reply.Output.{forward_dataset-OnlyOutput}
use graphserv.Server.Commands.{tell}
use graphserv.Server.Commands.Graphs.{
  spawn, exec_create_graph, exec_use_graph, dropped, exec_drop_graph, list_loop, exec_list_graphs,
}
use graphserv.Access.{access_admin}
use graphserv.Core
use graphserv.Core.{get_name, set_name}
use graphserv.Prelude.Entries.{IsEntry}
use graphserv.Core.Launch.{start_core}
use graphserv.Core.Started.{start_core-IsStarted}
use graphserv.Core.Continuity.{stop-Continues}
use graphserv.Core.Exchange.{still-Exchanges}
use graphserv.Server.Instances.{Evolves, named_loop-IsFree, named_loop-IsEntry}
use graphserv.Server.Processed.{Processed, output_after, cores-Processed}
use graphserv.Server.Processed.Messages.{
  message-Processed, then_message, if_known-Processed, tell-Processed, if-Processed,
  found-Processed,
}

module _ (env : Env) where
  valid-not_empty : (name : Text) → not (is_valid_graph_name name) ≡ false → is_empty name ≡ false
  unfolding is_valid_graph_name
  valid-not_empty [] h = cc
  valid-not_empty (x ∷ rest) h = refl

  named_as :
      (core : CoreInstance) (name : Text)
      → core.instance_name ≡ name
      → is_empty name ≡ false
      → get_name env core ≡ name
  unfolding get_name
  named_as core name e ne = rw (get_name, e, ne)

  spawn-Processed :
      (name : Text) (c : Ctx)
      → c.sc.access_level ≡ access_admin
      → is_empty name ≡ false
      → find_named_instance env name c.app ≡ none
      → Processed env c (spawn env name c)
  unfolding spawn create_core_instance add_core_instance find_named_instance start_core next_id
      Core.create set_name
  spawn-Processed name c admin ne free =
      if_known-Processed env _ c _ _
        (λ s.
          let started = start_core-IsStarted env c.app.core_path (env.launch id) id name s in
          then_message env create_graph _ (
            cores-Processed env _ id c.app.status_messages c.sc.core_id c (
              Evolves.start id name _ admin
                (rw (named_as started_core name started.has_name ne)
                  (named_loop-IsFree env name c.app.core_instances free))
                started refl)))
        (λ s. then_message env create_graph _ (
          cores-Processed env c.app.core_instances id c.app.status_messages c.sc.core_id c
            (Evolves.keep refl)))
    where
      id : ℕ
      id = next_id c.app.core_id_counter

      started_core : CoreInstance
      started_core =
          (start_core env c.app.core_path (env.launch id) (set_name name (Core.create id))).0

  pub create-Processed :
      (words : List Text) (c : Ctx)
      → c.sc.access_level ≡ access_admin
      → Processed env c (exec_create_graph env words c)
  unfolding exec_create_graph
  create-Processed [] c admin = message-Processed env create_graph _ c
  create-Processed (w ∷ []) c admin = message-Processed env create_graph _ c
  create-Processed (w ∷ name ∷ []) c admin = elim (Bool-cases (not (is_valid_graph_name name))) [
    | inl e ↦ rw e (message-Processed env create_graph _ c)
    | inr e ↦ elim (Option-cases (find_named_instance env name c.app)) [
      | inr (core, f) ↦ rw (e, f) (message-Processed env create_graph _ c)
      | inl f ↦ rw (e, f) (spawn-Processed name c admin (valid-not_empty name e) f)
    ]
  ]
  create-Processed (w ∷ name ∷ x ∷ rest) c admin = message-Processed env create_graph _ c

  pub use-Processed : (words : List Text) (c : Ctx) → Processed env c (exec_use_graph env words c)
  unfolding exec_use_graph
  use-Processed [] c = message-Processed env use_graph _ c
  use-Processed (w ∷ []) c = message-Processed env use_graph _ c
  use-Processed (w ∷ name ∷ []) c =
      found-Processed env (find_named_instance env name c.app) c _ _
        (message-Processed env use_graph _ c)
        (λ core f. then_message env use_graph _ (
          cores-Processed env c.app.core_instances c.app.core_id_counter c.app.status_messages
            core.instance_id c (Evolves.keep refl)))
  use-Processed (w ∷ name ∷ x ∷ rest) c = message-Processed env use_graph _ c

  dropped-Processed :
      (core : CoreInstance) (c : Ctx) (id : ℕ)
      → c.sc.access_level ≡ access_admin
      → IsEntry id core c.app.core_instances
      → Processed env c (dropped env (terminate env core) c)
  unfolding dropped put_core_instance terminate
  dropped-Processed core c id admin found = elim (Bool-cases (env.kill_succeeds core.pid)) [
    | inr e ↦ rw e (message-Processed env drop_graph _ c)
    | inl e ↦ rw e (
        then_message env drop_graph _ (
          cores-Processed env _ c.app.core_id_counter c.app.status_messages c.sc.core_id c (
            Evolves.change id core _ found (stop-Continues env c.sc.access_level core admin)
              (still-Exchanges core _ refl refl) refl)))
  ]

  pub drop-Processed :
      (words : List Text) (c : Ctx)
      → c.sc.access_level ≡ access_admin
      → Processed env c (exec_drop_graph env words c)
  unfolding exec_drop_graph find_named_instance
  drop-Processed [] c admin = message-Processed env drop_graph _ c
  drop-Processed (w ∷ []) c admin = message-Processed env drop_graph _ c
  drop-Processed (w ∷ name ∷ []) c admin =
      found-Processed env (find_named_instance env name c.app) c _ _
        (message-Processed env drop_graph _ c)
        (λ core f.
          let (id, entry) = named_loop-IsEntry env name c.app.core_instances core f in
          dropped-Processed core c id admin entry)
  drop-Processed (w ∷ name ∷ x ∷ rest) c admin = message-Processed env drop_graph _ c

  pub one_more :
      {c x : Ctx} (line : Text) → Processed env c x → Processed env c (forward_dataset env line x)
  one_more line p = output_after env p (forward_dataset-OnlyOutput env line _)

  list_loop-Processed :
      (cores : List (ℕ × CoreInstance)) (c x : Ctx)
      → Processed env c x
      → Processed env c (list_loop env cores x)
  unfolding list_loop
  list_loop-Processed [] c x p = p
  list_loop-Processed ((id, core) ∷ rest) c x p =
      list_loop-Processed rest c _ (if-Processed env core.process_running c _ _ (one_more _ p) p)

  pub list-Processed :
      (words : List Text) (c : Ctx) → Processed env c (exec_list_graphs env words c)
  unfolding exec_list_graphs
  list-Processed [] c = tell-Processed env list_graphs _ c
  list-Processed (w ∷ []) c =
      let message = env.cli_success (env.gettext (text "running graphs:\n")) in
      one_more _ (
        list_loop-Processed (tell env list_graphs message c).app.core_instances c
          (tell env list_graphs message c) (tell-Processed env list_graphs message c))
  list-Processed (w ∷ x ∷ rest) c = tell-Processed env list_graphs _ c
