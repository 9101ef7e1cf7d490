-- ===== src/Server/Forwarding/Submit.antt =====
-- What forwardToCore queues, and when it reads past the words of a command.
use graphserv.Prelude.{
  ◌≡◌, ◌≤◌, ◌⊎◌, inl, inr, leb, true, Bool-cases, Text, contains, ◌||◌, ◌↔◌, arith,
}
use graphserv.Access.{AccessLevel, access_read, access_write, access_admin, level_value}
use graphserv.External.{Env}
use graphserv.Core.{CoreInstance, queue_command, flush_command_q}
use graphserv.Core.Entry.{CommandQEntry}
use graphserv.Server.{Ctx, put_core_instance}
use graphserv.Server.Reply.Output.{OnlyOutput}
use graphserv.Server.Processed.{deny-OnlyOutput}
use graphserv.Server.Forwarding.{submit, needed_level, has_redirection}

-- Handed to the core as it is, behind the commands that the core has already.
abbrev pub Submitted : Env → CommandQEntry → CoreInstance → Ctx → Ctx → Type 0
Submitted env ce core c c' =
    c' ≡ record c { app = put_core_instance (flush_command_q env (queue_command ce core)) c.app }

-- A session with the level `have` may use a command of the level `level`.
abbrev pub IsAllowed : Text → AccessLevel → AccessLevel → Type 0
IsAllowed command level have =
    (level_value level ≤ level_value have)
    × ((contains b'>' command ≡ true) ⊎ (contains b'<' command ≡ true) → have ≡ access_admin)

module _ (env : Env) where
  level_value-admin :
      (l : AccessLevel) → (level_value l ≤ 2) × ((2 ≤ level_value l) → l ≡ access_admin)
  level_value-admin access_read = ground arith
  level_value-admin access_write = ground arith
  level_value-admin access_admin = ground arith

  ap_top : (l : AccessLevel) → l ≡ access_admin → 2 ≤ level_value l
  ap_top access_read e = cc
  ap_top access_write e = cc
  ap_top access_admin e = ground arith

  needed_level_iff :
      (command : Text) (level have : AccessLevel)
      → (leb (level_value (needed_level env level command)) (level_value have) ≡ true)
        ↔ IsAllowed command level have
  unfolding needed_level has_redirection
  needed_level_iff command level have =
      let low = level_value-admin level in
      let high = level_value-admin have in
      let top : (have ≡ access_admin) → 2 ≤ level_value have = λ e. ap_top have e in
      elim (Bool-cases (contains b'>' command || contains b'<' command)) [
        | inl e ↦ rw e (ground arith)
        | inr e ↦ rw e (ground arith)
      ]

  -- A command of the table is queued at the core exactly as the client sent it if the session has
  -- the level of the command, and admin level if the command has a redirection sign; otherwise no
  -- core changes, and only an answer goes to the client.
  pub submit-authorized :
      (ce : CommandQEntry) (level : AccessLevel) (core : CoreInstance) (c : Ctx)
      → (IsAllowed ce.command level c.sc.access_level
          × Submitted env ce core c (submit env ce level core c))
        ⊎ ((¬ IsAllowed ce.command level c.sc.access_level)
            × OnlyOutput c (submit env ce level core c))
  unfolding submit
  submit-authorized ce level core c =
      let al = needed_level env level ce.command in
      let allowed = needed_level_iff ce.command level c.sc.access_level in
      elim (Bool-cases (leb (level_value al) (level_value c.sc.access_level))) [
        | inl e ↦ inl (allowed.0 e, rw e)
        | inr e ↦
            let not_allowed : ¬ IsAllowed ce.command level c.sc.access_level =
              λ h. let p = allowed.1 h in cc in
            inr (not_allowed, rw e (deny-OnlyOutput env al c))
      ]
