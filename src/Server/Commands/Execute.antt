-- ===== src/Server/Commands/Execute.antt =====
-- ServCli::execute of src/main.cpp.
use graphserv.Prelude.{if◌then◌else◌, Text, List}
use graphserv.Access.{level_above}
use graphserv.External.{Env}
use graphserv.Outcome.{Outcome, ok, ◌>>=◌}
use graphserv.Server.{
  Ctx, ServCmd, create_graph, use_graph, authorize, help, drop_graph, list_graphs, session_info,
  server_stats, protocol_version, quit, shutdown,
}
use graphserv.Server.Reply.{forward_statusline}
use graphserv.Server.Forwarding.{deny}
use graphserv.Server.Commands.{command_level, returns_void}
use graphserv.Server.Commands.Graphs.{
  exec_create_graph, exec_use_graph, exec_drop_graph, exec_list_graphs, exec_shutdown,
}
use graphserv.Server.Commands.Info.{
  exec_help, exec_session_info, exec_server_stats, exec_authorize, exec_protocol_version, exec_quit,
}

module _ (env : Env) where
  -- the virtual function execute of the command
  unfoldable pub exec : ServCmd → List Text → Ctx → Outcome Ctx
  exec create_graph words c = ok (exec_create_graph env words c)
  exec use_graph words c = ok (exec_use_graph env words c)
  exec authorize words c = exec_authorize env words c
  exec help words c = exec_help env words c
  exec drop_graph words c = ok (exec_drop_graph env words c)
  exec list_graphs words c = ok (exec_list_graphs env words c)
  exec session_info words c = ok (exec_session_info env words c)
  exec server_stats words c = ok (exec_server_stats env words c)
  exec protocol_version words c = ok (exec_protocol_version env words c)
  exec quit words c = ok (exec_quit env words c)
  exec shutdown words c = exec_shutdown env words c

  unfoldable pub send_message : ServCmd → Ctx → Ctx
  send_message cmd c = forward_statusline env (c.app.status_messages cmd) c

  -- execute(cmd, words, sc)
  unfoldable pub execute : ServCmd → List Text → Ctx → Outcome Ctx
  unfolding send_message
  execute cmd words c =
      if level_above (command_level cmd) c.sc.access_level
      then ok (deny env (command_level cmd) c)
      else if returns_void cmd
      then (exec cmd words c >>= λ c₁. ok (send_message cmd c₁))
      else exec cmd words c
