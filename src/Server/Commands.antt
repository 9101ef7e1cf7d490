-- ===== src/Server/Commands.antt =====
-- The server commands of src/main.cpp: the table of ServCli, and what all commands share. The children
-- have the commands and ServCli::execute. A command's result is not used by its only caller, and is
-- left out; the command `i` is compiled in with DEBUG_COMMANDS only.
pub mod Graphs
pub mod Info
pub mod Execute
pub mod Debug
pub mod Table
use graphserv.Prelude.{
  ℕ, suc, ◌==◌, if◌then◌else◌, Bool, true, false, Text, codes, List, [], ◌∷◌, Option, none, some,
  get_elem?,
}
use graphserv.Access.{AccessLevel, access_read, access_admin}
use graphserv.External.{Env}
use graphserv.Server.{
  Graphserv, Ctx, ServCmd, create_graph, use_graph, authorize, help, drop_graph, list_graphs,
  session_info, server_stats, protocol_version, quit, shutdown,
}
use graphserv.Server.Reply.{forward_statusline}

-- ServCli::ServCli: the commands in the order in which they are added
abbrev pub commands : List ServCmd
commands =
    create_graph ∷ use_graph ∷ authorize ∷ help ∷ drop_graph ∷ list_graphs ∷ session_info
    ∷ server_stats ∷ protocol_version ∷ quit ∷ shutdown ∷ []

-- getName()
unfoldable pub command_name : ServCmd → Text
command_name create_graph = codes "create-graph"
command_name use_graph = codes "use-graph"
command_name authorize = codes "authorize"
command_name help = codes "help"
command_name drop_graph = codes "drop-graph"
command_name list_graphs = codes "list-graphs"
command_name session_info = codes "session-info"
command_name server_stats = codes "server-stats"
command_name protocol_version = codes "protocol-version"
command_name quit = codes "quit"
command_name shutdown = codes "shutdown"

-- getSynopsis()
unfoldable pub synopsis : ServCmd → Text
synopsis create_graph = codes "create-graph GRAPHNAME"
synopsis use_graph = codes "use-graph GRAPHNAME"
synopsis authorize = codes "authorize AUTHORITY CREDENTIALS"
synopsis drop_graph = codes "drop-graph GRAPHNAME"
synopsis cmd = command_name cmd

-- getAccessLevel()
unfoldable pub command_level : ServCmd → AccessLevel
command_level create_graph = access_admin
command_level drop_graph = access_admin
command_level shutdown = access_admin
command_level _ = access_read

-- getReturnType() is RT_NONE: execute sends the status message after the command.
unfoldable pub returns_void : ServCmd → Bool
returns_void create_graph = true
returns_void use_graph = true
returns_void drop_graph = true
returns_void authorize = true
returns_void protocol_version = true
returns_void shutdown = true
returns_void _ = false

-- the place of a command in the list
unfoldable pub command_index : ServCmd → ℕ
command_index create_graph = 0
command_index use_graph = 1
command_index authorize = 2
command_index help = 3
command_index drop_graph = 4
command_index list_graphs = 5
command_index session_info = 6
command_index server_stats = 7
command_index protocol_version = 8
command_index quit = 9
command_index shutdown = 10

unfoldable pub command_names : List ServCmd → List Text
command_names [] = []
command_names (cmd ∷ rest) = command_name cmd ∷ command_names rest

-- lastStatusMessage of the command's object
unfoldable pub set_message : ServCmd → Text → Ctx → Ctx
unfolding command_index
set_message cmd message c = record c {
  app = record c.app {
    status_messages =
        λ d. if command_index d == command_index cmd then message else c.app.status_messages d;
  };
}

module _ (env : Env) where
  -- cli.findCommand(name)
  unfoldable pub find_command : Text → Option ServCmd
  unfolding command_names
  find_command name = elim (env.find_command (command_names commands) name) [
    | none ↦ none
    | some i ↦ get_elem? commands i
  ]

  -- cliSuccess and its like, for a command that tells the client at once
  unfoldable pub tell : ServCmd → Text → Ctx → Ctx
  tell cmd message c = forward_statusline env message (set_message cmd message c)

  -- syntaxError()
  unfoldable pub bad_syntax : ServCmd → Ctx → Ctx
  bad_syntax cmd c = set_message cmd (env.syntax_error (synopsis cmd)) c
