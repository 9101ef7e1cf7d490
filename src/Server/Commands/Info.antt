-- ===== src/Server/Commands/Info.antt =====
-- help, session-info, server-stats, authorize, protocol-version and quit, of src/main.cpp.
use graphserv.Prelude.{
  ℕ, suc, if◌then◌else◌, Text, text, codes, List, [], ◌∷◌, ◌++◌, Option, none, some, same_text,
}
use graphserv.Access.{AccessLevel, access_level_name}
use graphserv.External.{Env}
use graphserv.Outcome.{Outcome, ok, ◌>>=◌}
use graphserv.Auth.{PasswordAuth}
use graphserv.Auth
use graphserv.Core.{CoreInstance, get_name}
use graphserv.Core.Entry.{new_entry}
use graphserv.Server.{
  Ctx, ServCmd, create_graph, use_graph, authorize, help, drop_graph, list_graphs, session_info,
  server_stats, protocol_version, quit, shutdown, find_instance, shutdown_client,
}
use graphserv.Server.Reply.{forward_dataset}
use graphserv.Server.Forwarding.{forward_to_core}
use graphserv.Server.Commands.{commands, synopsis, set_message, find_command, tell, bad_syntax}

module _ (env : Env) where
  open env use {gettext, format, decimal, cli_success, cli_failure, cli_none, syntax_error}

  -- getHelpText()
  unfoldable pub help_text : ServCmd → Text
  help_text create_graph = gettext (
      text
        "create a named graphcore instance.\n# graph names may contain only alphabetic characters (a-z A-Z), digits (0-9), hyphens (-) and underscores (_).\n# graph names must start with an alphabetic character, a hyphen or an underscore.")
  help_text use_graph = gettext (text "connect to a named graphcore instance.")
  help_text drop_graph =
      gettext (text "drop a named graphcore instance immediately (terminate the process).")
  help_text list_graphs = gettext (text "list currently running graphcore instances.")
  help_text session_info = gettext (text "returns information on your current session.")
  help_text server_stats = gettext (text "returns information on the server.")
  help_text authorize =
      gettext (text "authorize with the named authority using the given credentials.")
  help_text protocol_version = gettext (
      text
        "the protocol-version is used to check for compatibility of the server and core binaries.\n# this command prints the protocol-version of the server.")
  help_text help = gettext (text "get help on commands")
  help_text quit = gettext (text "disconnect from the server.")
  help_text shutdown = gettext (text "shut down the core instance you are connected to.")

  unfoldable pub graph_of_session : Option CoreInstance → Text
  graph_of_session none = text "None"
  graph_of_session (some core) = get_name env core

  unfoldable pub exec_session_info : List Text → Ctx → Ctx
  unfolding tell graph_of_session
  exec_session_info (_ ∷ []) c =
      let c₁ = tell env session_info (cli_success (gettext (text "session info:\n"))) c in
      let graph = graph_of_session (find_instance c₁.sc.core_id c₁.app) in
      let c₂ = forward_dataset env (text "ConnectedGraph," ++ graph ++ text "\n") c₁ in
      let level = access_level_name c₂.sc.access_level in
      let c₃ = forward_dataset env (text "AccessLevel," ++ level ++ text "\n") c₂ in
      forward_dataset env (10 ∷ []) c₃
  exec_session_info _ c = tell env session_info (syntax_error (synopsis session_info)) c

  -- the loop of ccServerStats::execute that counts the running cores
  unfoldable pub count_running : List (ℕ × CoreInstance) → ℕ
  count_running [] = 0
  count_running ((id, core) ∷ rest) =
      if core.process_running then suc (count_running rest) else count_running rest

  unfoldable pub exec_server_stats : List Text → Ctx → Ctx
  unfolding tell count_running
  exec_server_stats (_ ∷ []) c =
      let c₁ = tell env server_stats (cli_success (gettext (text "server info:\n"))) c in
      let cores = decimal (count_running c₁.app.core_instances) in
      let c₂ = forward_dataset env (text "NCores," ++ cores ++ text "\n") c₁ in
      let lines = decimal c₂.app.lines_from_clients in
      let c₃ = forward_dataset env (text "TotalLinesFromClients," ++ lines ++ text "\n") c₂ in
      forward_dataset env (10 ∷ []) c₃
  exec_server_stats _ c = tell env server_stats (syntax_error (synopsis server_stats)) c

  -- what authorize of the authority leaves
  unfoldable pub authorized : PasswordAuth × Option AccessLevel → Ctx → Ctx
  authorized (auth, none) c =
      set_message authorize (cli_failure (gettext (text "authorization failure.\n")))
        (record c { app = record c.app { password_auth = auth } })
  authorized (auth, some level) c =
      set_message authorize
        (cli_success (format (gettext (text "access level: %s\n")) (access_level_name level ∷ [])))
        (record c {
          app = record c.app { password_auth = auth };
          sc = record c.sc { access_level = level };
        })

  -- the map of authorities has the one entry "password"
  unfoldable pub exec_authorize : List Text → Ctx → Outcome Ctx
  unfolding bad_syntax authorized
  exec_authorize (_ ∷ authority ∷ credentials ∷ []) c =
      if same_text authority (codes "password")
      then (Auth.authorize env (env.files_at c.app.now) c.app.now credentials c.app.password_auth
          >>= λ r. ok (authorized r c))
      else ok (
          set_message authorize
            (cli_failure (format (gettext (text "no such authority '%s'.\n")) (authority ∷ []))) c)
  exec_authorize _ c = ok (bad_syntax env authorize c)

  unfoldable pub exec_protocol_version : List Text → Ctx → Ctx
  unfolding bad_syntax
  exec_protocol_version (_ ∷ []) c =
      set_message protocol_version (cli_success (env.protocol_version ++ text "\n")) c
  exec_protocol_version _ c = bad_syntax env protocol_version c

  -- the message of a syntax error is not forwarded
  unfoldable pub exec_quit : List Text → Ctx → Ctx
  unfolding bad_syntax tell
  exec_quit (_ ∷ []) c = shutdown_client env (tell env quit (cli_success (text "bye.\n")) c)
  exec_quit _ c = bad_syntax env quit c

  -- the line that ccHelp makes of its words for the core
  unfoldable pub help_line : List Text → Text
  help_line [] = 10 ∷ []
  help_line (word ∷ rest) = word ++ 32 ∷ help_line rest

  unfoldable pub help_to_core : List Text → Ctx → Outcome Ctx
  unfolding help_line
  help_to_core words c =
      forward_to_core env (new_entry env c.sc.client_id (help_line words) c.app.now) c

  unfoldable pub help_loop : List ServCmd → Ctx → Ctx
  help_loop [] c = c
  help_loop (cmd ∷ rest) c =
      help_loop rest (forward_dataset env (text "# " ++ synopsis cmd ++ text "\n") c)

  -- `help` with no argument
  unfoldable pub help_all : List Text → Ctx → Outcome Ctx
  unfolding help_loop help_to_core
  help_all words c =
      let connected = find_instance c.sc.core_id c.app in
      let c₁ = tell env help (cli_success (gettext (text "available server commands:\n"))) c in
      let c₂ = help_loop commands c₁ in
      elim connected [
        | some core ↦ help_to_core words c₂
        | none ↦ ok (forward_dataset env (10 ∷ []) c₂)
      ]

  unfoldable pub help_elsewhere : List Text → Ctx → Outcome Ctx
  unfolding help_to_core
  help_elsewhere words c = elim (find_instance c.sc.core_id c.app) [
    | some core ↦ help_to_core words c
    | none ↦ ok (
        tell env help
          (cli_failure
            (gettext (text "no such server command and not connected to a core instance.\n")))
          c)
  ]

  -- `help` of one command
  unfoldable pub help_on : Text → List Text → Ctx → Outcome Ctx
  unfolding help_elsewhere
  help_on name words c = elim (find_command env name) [
    | none ↦ help_elsewhere words c
    | some help ↦ help_elsewhere words c
    | some cmd ↦ ok (
        forward_dataset env
          (text "# " ++ synopsis cmd ++ text "\n# " ++ help_text cmd ++ text "\n\n")
          (tell env help (cli_success (name ++ text ":\n")) c))
  ]

  unfoldable pub exec_help : List Text → Ctx → Outcome Ctx
  unfolding help_all help_on
  exec_help (word ∷ []) c = help_all (word ∷ []) c
  exec_help (word ∷ name ∷ []) c = help_on name (word ∷ name ∷ []) c
  exec_help _ c = ok (tell env help (syntax_error (synopsis help)) c)
