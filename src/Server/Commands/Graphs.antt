-- ===== src/Server/Commands/Graphs.antt =====
-- create-graph, use-graph, drop-graph, list-graphs and shutdown, of src/main.cpp.
use graphserv.Prelude.{
  ℕ, if◌then◌else◌, Bool, true, false, not, Text, text, List, [], ◌∷◌, ◌++◌, none, some,
}
use graphserv.External.{Env}
use graphserv.Outcome.{Outcome, ok, ◌>>=◌}
use graphserv.Prelude.Assoc.{find}
use graphserv.Core.{CoreInstance, get_name, terminate}
use graphserv.Core.Entry.{new_entry}
use graphserv.Core.Launch.{start_core}
use graphserv.Server.{
  Graphserv, Ctx, create_graph, use_graph, drop_graph, list_graphs, shutdown, find_named_instance,
  is_valid_graph_name, find_instance, create_core_instance, add_core_instance, put_core_instance,
}
use graphserv.Server.Reply.{forward_dataset}
use graphserv.Server.Forwarding.{forward_to_core}
use graphserv.Server.Commands.{synopsis, set_message, tell, bad_syntax}

module _ (env : Env) where
  open env use {gettext, format, decimal, cli_success, cli_failure, cli_none, syntax_error}

  -- ccCreateGraph::execute from createCoreInstance on; a core that does not start is not kept
  unfoldable pub spawn : Text → Ctx → Ctx
  spawn name c =
      let (app, core) = create_core_instance name c.app in
      let (core', started) = start_core env c.app.core_path (env.launch core.instance_id) core in
      if started
      then set_message create_graph
          (cli_success (format (gettext (text "spawned pid %d.\n")) (decimal core'.pid ∷ [])))
          (record c { app = add_core_instance core' app })
      else set_message create_graph
          (cli_failure (text "startCore(): " ++ core'.last_error ++ text "\n"))
          (record c { app = app })

  unfoldable pub exec_create_graph : List Text → Ctx → Ctx
  unfolding bad_syntax spawn
  exec_create_graph (_ ∷ name ∷ []) c =
      if not (is_valid_graph_name name)
      then set_message create_graph (cli_failure (text "invalid graph name.\n")) c
      else elim (find_named_instance env name c.app) [
        | some core ↦
            set_message create_graph
              (cli_failure (gettext (text "an instance with this name already exists.\n"))) c
        | none ↦ spawn name c
      ]
  exec_create_graph _ c = bad_syntax env create_graph c

  -- Graphserv::reconnectSession, with both arguments there
  unfoldable pub reconnect_session : CoreInstance → Ctx → Ctx
  reconnect_session core c = record c { sc = record c.sc { core_id = core.instance_id } }

  unfoldable pub exec_use_graph : List Text → Ctx → Ctx
  unfolding bad_syntax reconnect_session
  exec_use_graph (_ ∷ name ∷ []) c = elim (find_named_instance env name c.app) [
    | none ↦ set_message use_graph (cli_failure (gettext (text "no such instance.\n"))) c
    | some core ↦
        set_message use_graph
          (cli_success (format (gettext (text "connected to pid %d.\n")) (decimal core.pid ∷ [])))
          (reconnect_session core c)
  ]
  exec_use_graph _ c = bad_syntax env use_graph c

  -- ccDropGraph::execute behind its search, with the result of terminate()
  unfoldable pub dropped : CoreInstance × Bool → Ctx → Ctx
  dropped (core, false) c =
      set_message drop_graph
        (cli_failure
          (format (gettext (text "couldn't kill the process. %s\n")) (env.error_text ∷ [])))
        c
  dropped (core, true) c =
      set_message drop_graph
        (cli_success (
          format (gettext (text "killed core with ID %u, pid %d.\n"))
            (decimal core.instance_id ∷ decimal core.pid ∷ [])))
        (record c { app = put_core_instance core c.app })

  unfoldable pub exec_drop_graph : List Text → Ctx → Ctx
  unfolding bad_syntax dropped
  exec_drop_graph (_ ∷ name ∷ []) c = elim (find_named_instance env name c.app) [
    | none ↦ set_message drop_graph (cli_none (gettext (text "no such instance.\n"))) c
    | some core ↦ dropped (terminate env core) c
  ]
  exec_drop_graph _ c = bad_syntax env drop_graph c

  -- the loop of ccListGraphs::execute over the instances
  unfoldable pub list_loop : List (ℕ × CoreInstance) → Ctx → Ctx
  list_loop [] c = c
  list_loop ((id, core) ∷ rest) c =
      list_loop rest
        (if core.process_running then forward_dataset env (get_name env core ++ 10 ∷ []) c else c)

  unfoldable pub exec_list_graphs : List Text → Ctx → Ctx
  unfolding tell list_loop
  exec_list_graphs (_ ∷ []) c =
      let c₁ = tell env list_graphs (cli_success (gettext (text "running graphs:\n"))) c in
      forward_dataset env (10 ∷ []) (list_loop c₁.app.core_instances c₁)
  exec_list_graphs _ c = tell env list_graphs (syntax_error (synopsis list_graphs)) c

  -- processRunning = false, through the pointer to the instance
  unfoldable pub stop_running : ℕ → Graphserv → Graphserv
  stop_running id app = elim (find id app.core_instances) [
    | none ↦ app
    | some core ↦ put_core_instance (record core { process_running = false }) app
  ]

  -- a success sets no message
  unfoldable pub exec_shutdown : List Text → Ctx → Outcome Ctx
  unfolding bad_syntax stop_running
  exec_shutdown (_ ∷ []) c = elim (find_instance c.sc.core_id c.app) [
    | none ↦ ok (set_message shutdown (cli_failure (gettext (text "not connected to a core.\n"))) c)
    | some core ↦
        forward_to_core env (new_entry env c.sc.client_id (text "shutdown\n") c.app.now) c >>= λ c₁.
        ok (record c₁ { app = stop_running core.instance_id c₁.app })
  ]
  exec_shutdown _ c = ok (bad_syntax env shutdown c)
