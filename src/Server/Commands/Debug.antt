-- ===== src/Server/Commands/Debug.antt =====
-- What src/main.cpp has and the server does not use: the command `i`, which is compiled in with
-- DEBUG_COMMANDS only, the first help command, and ServCli::execute of a text. The clock of the
-- development has whole seconds.
use graphserv.Prelude.{
  ℕ, ◌-◌, ◌==◌, if◌then◌else◌, Bool, true, false, Text, String, text, codes, List, [], ◌∷◌, ◌++◌,
  none, some, length,
}
use graphserv.Access.{access_level_name}
use graphserv.External.{Env}
use graphserv.Outcome.{Outcome, ok}
use graphserv.Writer.{get_writebuffer_size}
use graphserv.Core.{CoreInstance}
use graphserv.Session.{SessionContext, ConnectionType, conn_tcp, conn_http}
use graphserv.Server.{Ctx, ServCmd}
use graphserv.Server.Reply.{forward_statusline, forward_dataset, writef}
use graphserv.Server.Reply.Output.{
  OnlyOutput, OnlyOutput-refl, OnlyOutput-trans, writef-OnlyOutput, forward_statusline-OnlyOutput,
}
use graphserv.Server.Commands.{commands, synopsis, find_command}
use graphserv.Server.Commands.Execute.{execute}
use graphserv.Server.Dispatch.{word_separators}

-- "true": "false"
unfoldable truth : Bool → Text
truth true = codes "true"
truth false = codes "false"

unfoldable type_name : ConnectionType → Text
type_name conn_tcp = codes "TCP"
type_name conn_http = codes "HTTP"

module _ (env : Env) where
  -- one line of a report, with one argument
  report : String → Text → Ctx → Ctx
  report fmt arg c = writef env (env.format (text fmt) (arg ∷ [])) c

  -- a whole number of seconds under "%.2f"
  seconds : ℕ → Text
  seconds n = env.decimal n ++ codes ".00"

  report_core : CoreInstance → Ctx → Ctx
  unfolding report truth
  report_core ci c =
      let c₁ = report "Core %d:\n" (env.decimal ci.instance_id) c in
      let c₂ = report "  running: %s\n" (truth ci.process_running) c₁ in
      let c₃ = report "  queue size: %u\n" (env.decimal (length ci.command_q)) c₂ in
      let size = env.decimal (get_writebuffer_size ci.writer) in
      let c₄ = report "  bytes in write buffer: %u\n" size c₃ in
      let c₅ = report "  expectingReply: %s\n" (truth ci.expecting_reply) c₄ in
      let c₆ = report "  expectingDataset: %s\n" (truth ci.expecting_dataset) c₅ in
      writef env (codes "\n") c₆

  report_session : SessionContext → Ctx → Ctx
  unfolding report type_name seconds
  report_session ci c =
      let c₁ = report "Session ID %d:\n" (env.decimal ci.client_id) c in
      let c₂ = report "  accessLevel: %s\n" (access_level_name ci.access_level) c₁ in
      let c₃ = report "  connectionType: %s\n" (type_name ci.connection_type) c₂ in
      let c₄ = report "  coreID: %u\n" (env.decimal ci.core_id) c₃ in
      let since =
        if ci.shutdown_time == 0 then codes "-1.00" else seconds (c.app.now - ci.shutdown_time) in
      let c₅ =
        writef env
          (env.format (text "  shutdownTime: %.2f (%.2f)\n")
            (seconds ci.shutdown_time ∷ since ∷ []))
          c₄ in
      writef env (codes "\n") c₅

  report_cores : List (ℕ × CoreInstance) → Ctx → Ctx
  unfolding report_core
  report_cores [] c = c
  report_cores ((id, ci) ∷ rest) c = report_cores rest (report_core ci c)

  -- The entry of the session itself is the one that is written to.
  report_sessions : List (ℕ × SessionContext) → Ctx → Ctx
  unfolding report_session
  report_sessions [] c = c
  report_sessions ((id, ci) ∷ rest) c =
      report_sessions rest (report_session (if id == c.sc.client_id then c.sc else ci) c)

  -- ccInfo::execute
  unfoldable pub exec_info : List Text → Ctx → Ctx
  unfolding report report_cores report_sessions
  exec_info (_ ∷ []) c =
      let c₁ = report "Cores: %d\n" (env.decimal (length c.app.core_instances)) c in
      let c₂ = report_cores c₁.app.core_instances c₁ in report_sessions c₂.app.session_contexts c₂
  exec_info _ c = forward_statusline env (env.syntax_error (codes "i")) c

  synopses : List ServCmd → Ctx → Ctx
  synopses [] c = c
  synopses (cmd ∷ rest) c =
      synopses rest (forward_dataset env (text "# " ++ synopsis cmd ++ text "\n") c)

  -- ccHelpAlt::execute
  unfoldable pub exec_help_alt : List Text → Ctx → Ctx
  unfolding synopses
  exec_help_alt words c =
      let c₁ =
        forward_statusline env (env.cli_success (env.gettext (text "available commands:\n"))) c in
      let c₂ = synopses commands c₁ in
      let c₃ =
        forward_dataset env
          (text "# "
            ++ env.gettext
                (text "note: 'corehelp' prints help on core commands when connected to a core.\n"))
          c₂ in
      forward_dataset env (codes "\n") c₃

  -- ServCli::execute(command, sc) behind the split
  execute_words : List Text → Ctx → Outcome Ctx
  execute_words [] c = ok c
  execute_words (word ∷ rest) c = elim (find_command env word) [
    | some cmd ↦ execute env cmd (word ∷ rest) c
    | none ↦
        ok (
          forward_statusline env (env.fail_str ++ env.gettext (text " no such server command.\n"))
            c)
  ]

  unfoldable pub execute_text : Text → Ctx → Outcome Ctx
  unfolding execute_words
  execute_text command c = execute_words (env.split_string_by command word_separators) c

  report-OnlyOutput :
      {c : Ctx} (fmt : String) (arg : Text) (x : Ctx)
      → OnlyOutput c x
      → OnlyOutput c (report fmt arg x)
  unfolding report
  report-OnlyOutput fmt arg x o = OnlyOutput-trans o (writef-OnlyOutput env _ x)

  report_core-OnlyOutput :
      {c : Ctx} (ci : CoreInstance) (x : Ctx) → OnlyOutput c x → OnlyOutput c (report_core ci x)
  unfolding report_core
  report_core-OnlyOutput ci x o =
      OnlyOutput-trans
        (report-OnlyOutput _ _ _ (
          report-OnlyOutput _ _ _ (
            report-OnlyOutput _ _ _
              (report-OnlyOutput _ _ _ (report-OnlyOutput _ _ _ (report-OnlyOutput _ _ x o))))))
        (writef-OnlyOutput env _ _)

  report_session-OnlyOutput :
      {c : Ctx} (ci : SessionContext) (x : Ctx)
      → OnlyOutput c x
      → OnlyOutput c (report_session ci x)
  unfolding report_session
  report_session-OnlyOutput ci x o =
      OnlyOutput-trans
        (OnlyOutput-trans
          (report-OnlyOutput _ _ _
            (report-OnlyOutput _ _ _ (report-OnlyOutput _ _ _ (report-OnlyOutput _ _ x o))))
          (writef-OnlyOutput env _ _))
        (writef-OnlyOutput env _ _)

  report_cores-OnlyOutput :
      {c : Ctx} (cores : List (ℕ × CoreInstance)) (x : Ctx)
      → OnlyOutput c x
      → OnlyOutput c (report_cores cores x)
  unfolding report_cores
  report_cores-OnlyOutput [] x o = o
  report_cores-OnlyOutput ((id, ci) ∷ rest) x o =
      report_cores-OnlyOutput rest (report_core ci x) (report_core-OnlyOutput ci x o)

  report_sessions-OnlyOutput :
      {c : Ctx} (sessions : List (ℕ × SessionContext)) (x : Ctx)
      → OnlyOutput c x
      → OnlyOutput c (report_sessions sessions x)
  unfolding report_sessions
  report_sessions-OnlyOutput [] x o = o
  report_sessions-OnlyOutput ((id, ci) ∷ rest) x o =
      report_sessions-OnlyOutput rest _
        (report_session-OnlyOutput (if id == x.sc.client_id then x.sc else ci) x o)

  -- The command `i` does nothing but write to its client.
  exec_info-OnlyOutput : (words : List Text) (c : Ctx) → OnlyOutput c (exec_info words c)
  unfolding exec_info
  exec_info-OnlyOutput [] c = forward_statusline-OnlyOutput env _ c
  exec_info-OnlyOutput (w ∷ []) c =
      let c₁ = report "Cores: %d\n" (env.decimal (length c.app.core_instances)) c in
      let c₂ = report_cores c₁.app.core_instances c₁ in
      report_sessions-OnlyOutput c₂.app.session_contexts c₂ (
        report_cores-OnlyOutput c₁.app.core_instances c₁
          (report-OnlyOutput _ _ c (OnlyOutput-refl c)))
  exec_info-OnlyOutput (w ∷ x ∷ rest) c = forward_statusline-OnlyOutput env _ c
