-- ===== src/Server/Processed/Commands.antt =====
-- What the server commands can change.
use graphserv.Prelude.{
  ℕ, ◌≡◌, inl, inr, refl, false, Bool-cases, Option-cases, Text, text, List, [], ◌∷◌, Option, none,
  some, same_text, codes,
}
use graphserv.Access.{AccessLevel, access_read, access_write, access_admin, level_above}
use graphserv.Prelude.Assoc.{find}
use graphserv.External.{Env}
use graphserv.Outcome.{Post, bind-Post, Outcome, ok, fails, exits, undefined, ◌>>=◌}
use graphserv.Auth.{PasswordAuth}
use graphserv.Auth
use graphserv.Auth.{refresh_file_cache}
use graphserv.Auth.Authorize.{authorize-Accepts, authorize-refreshed}
use graphserv.Core.Entry.{new_entry}
use graphserv.Server.{
  Ctx, ServCmd, create_graph, use_graph, authorize, help, drop_graph, list_graphs, session_info,
  server_stats, protocol_version, quit, shutdown, find_instance, put_core_instance,
}
use graphserv.Server.Reply.Output.{forward_statusline-OnlyOutput, shutdown_client-OnlyOutput}
use graphserv.Server.Forwarding.{forward_to_core}
use graphserv.Server.Commands.{set_message, returns_void, command_level}
use graphserv.Server.Commands.Graphs.{stop_running, exec_shutdown}
use graphserv.Server.Commands.Info.{
  exec_session_info, exec_server_stats, authorized, exec_authorize, exec_protocol_version,
  exec_quit,
}
use graphserv.Server.Commands.Execute.{exec, execute}
use graphserv.Server.Instances.{Evolves}
use graphserv.Prelude.Entries.{find-IsEntry}
use graphserv.Core.Continuity.{stop-Continues}
use graphserv.Core.Exchange.{still-Exchanges}
use graphserv.Prelude.{◌⊎◌, arith}
use graphserv.Server.Processed.{
  Processed, OnlyOutput-Processed, output_after, forward_to_core-Processed, deny-OnlyOutput,
}
use graphserv.Server.Processed.Messages.{message-Processed, tell-Processed}
use graphserv.Server.Processed.Graphs.{
  create-Processed, use-Processed, drop-Processed, one_more, list-Processed,
}
use graphserv.Server.Processed.Help.{found-Post, help-Processed}

not_above-admin : (l : AccessLevel) → level_above access_admin l ≡ false → l ≡ access_admin
not_above-admin access_read h = ground arith
not_above-admin access_write h = ground arith
not_above-admin access_admin h = refl

module _ (env : Env) where
  session_info-Processed :
      (words : List Text) (c : Ctx) → Processed env c (exec_session_info env words c)
  unfolding exec_session_info
  session_info-Processed [] c = tell-Processed env session_info _ c
  session_info-Processed (w ∷ []) c =
      one_more env _ (one_more env _ (one_more env _ (tell-Processed env session_info _ c)))
  session_info-Processed (w ∷ x ∷ rest) c = tell-Processed env session_info _ c

  server_stats-Processed :
      (words : List Text) (c : Ctx) → Processed env c (exec_server_stats env words c)
  unfolding exec_server_stats
  server_stats-Processed [] c = tell-Processed env server_stats _ c
  server_stats-Processed (w ∷ []) c =
      one_more env _ (one_more env _ (one_more env _ (tell-Processed env server_stats _ c)))
  server_stats-Processed (w ∷ x ∷ rest) c = tell-Processed env server_stats _ c

  version-Processed :
      (words : List Text) (c : Ctx) → Processed env c (exec_protocol_version env words c)
  unfolding exec_protocol_version
  version-Processed [] c = message-Processed env protocol_version _ c
  version-Processed (w ∷ []) c = message-Processed env protocol_version _ c
  version-Processed (w ∷ x ∷ rest) c = message-Processed env protocol_version _ c

  quit-Processed : (words : List Text) (c : Ctx) → Processed env c (exec_quit env words c)
  unfolding exec_quit
  quit-Processed [] c = message-Processed env quit _ c
  quit-Processed (w ∷ []) c =
      output_after env (tell-Processed env quit _ c) (shutdown_client-OnlyOutput env _)
  quit-Processed (w ∷ x ∷ rest) c = message-Processed env quit _ c

  authorize-Processed :
      (words : List Text) (c : Ctx) → Post (Processed env c) (exec_authorize env words c)
  unfolding exec_authorize set_message
  authorize-Processed [] c = message-Processed env authorize _ c
  authorize-Processed (w ∷ []) c = message-Processed env authorize _ c
  authorize-Processed (w ∷ a ∷ []) c = message-Processed env authorize _ c
  authorize-Processed (w ∷ a ∷ cred ∷ []) c = elim (Bool-cases (same_text a (codes "password"))) [
    | inr e ↦ rw e (message-Processed env authorize _ c)
    | inl e ↦ rw e (
        granted (Auth.authorize env (env.files_at c.app.now) c.app.now cred c.app.password_auth)
          refl)
  ]
    where
      refreshed :
          (auth : PasswordAuth) (level : Option AccessLevel)
          → Auth.authorize env (env.files_at c.app.now) c.app.now cred c.app.password_auth
            ≡ ok (auth, level)
          → (auth ≡ c.app.password_auth)
            ⊎ (refresh_file_cache (env.files_at c.app.now) c.app.now c.app.password_auth ≡ ok auth)
      refreshed auth level q =
          inr (authorize-refreshed env _ _ cred c.app.password_auth auth level q)

      granted :
          (r : Outcome (PasswordAuth × Option AccessLevel))
          → Auth.authorize env (env.files_at c.app.now) c.app.now cred c.app.password_auth ≡ r
          → Post (Processed env c) (r >>= λ x. ok (authorized env x c))
      granted (ok (auth, none)) q = record {
        same_sessions = refl;
        same_client = refl;
        same_type = refl;
        same_queue = refl;
        level = inl refl;
        cores = Evolves.keep refl;
        auth = refreshed auth none q;
        same_now = refl;
      }
      granted (ok (auth, some level)) q = record {
        same_sessions = refl;
        same_client = refl;
        same_type = refl;
        same_queue = refl;
        level = inr (record {
          credentials = cred;
          accepts =
              (authorize-Accepts env _ _ cred c.app.password_auth auth level
                  (authorize-refreshed env _ _ cred c.app.password_auth auth (some level) q)).0
                q;
        });
        cores = Evolves.keep refl;
        auth = refreshed auth (some level) q;
        same_now = refl;
      }
      granted fails q = tt
      granted exits q = tt
      granted undefined q = tt
  authorize-Processed (w ∷ a ∷ cred ∷ x ∷ rest) c = message-Processed env authorize _ c

  stopped-Processed :
      {c x : Ctx} (id : ℕ)
      → c.sc.access_level ≡ access_admin
      → Processed env c x
      → Processed env c (record x { app = stop_running env id x.app })
  unfolding stop_running put_core_instance
  stopped-Processed {c} {x} id admin p = elim (Option-cases (find id x.app.core_instances)) [
    | inl e ↦ rw (stop_running, e) p
    | inr (core, e) ↦
        rw (stop_running, e)
          (record {
            same_sessions = p.same_sessions;
            same_client = p.same_client;
            same_type = p.same_type;
            same_queue = p.same_queue;
            level = elim p.level [
              | inl l ↦ inl l
              | inr g ↦ inr (record { credentials = g.credentials; accepts = g.accepts })
            ];
            cores = Evolves.after p.cores (
                Evolves.change id core _ (find-IsEntry id core x.app.core_instances e)
                  (stop-Continues env c.sc.access_level core admin)
                  (still-Exchanges core _ refl refl) refl);
            auth = p.auth;
            same_now = p.same_now;
          })
  ]

  shutdown-Processed :
      (words : List Text) (c : Ctx)
      → c.sc.access_level ≡ access_admin
      → Post (Processed env c) (exec_shutdown env words c)
  unfolding exec_shutdown
  shutdown-Processed [] c admin = message-Processed env shutdown _ c
  shutdown-Processed (w ∷ []) c admin =
      found-Post env (find_instance c.sc.core_id c.app) (Processed env c) _ _
        (message-Processed env shutdown _ c)
        (λ core f.
          bind-Post (Processed env c) (Processed env c)
            (forward_to_core env (new_entry env c.sc.client_id (text "shutdown\n") c.app.now) c) _
            (forward_to_core-Processed env _ c) (λ x p. stopped-Processed core.instance_id admin p))
  shutdown-Processed (w ∷ x ∷ rest) c admin = message-Processed env shutdown _ c

  exec-Processed :
      (cmd : ServCmd) (words : List Text) (c : Ctx)
      → level_above (command_level cmd) c.sc.access_level ≡ false
      → Post (Processed env c) (exec env cmd words c)
  unfolding exec command_level
  exec-Processed create_graph words c allowed =
      create-Processed env words c (not_above-admin _ allowed)
  exec-Processed use_graph words c allowed = use-Processed env words c
  exec-Processed authorize words c allowed = authorize-Processed words c
  exec-Processed help words c allowed = help-Processed env words c
  exec-Processed drop_graph words c allowed = drop-Processed env words c (not_above-admin _ allowed)
  exec-Processed list_graphs words c allowed = list-Processed env words c
  exec-Processed session_info words c allowed = session_info-Processed words c
  exec-Processed server_stats words c allowed = server_stats-Processed words c
  exec-Processed protocol_version words c allowed = version-Processed words c
  exec-Processed quit words c allowed = quit-Processed words c
  exec-Processed shutdown words c allowed = shutdown-Processed words c (not_above-admin _ allowed)

  -- A server command, also one that is refused.
  pub execute-Processed :
      (cmd : ServCmd) (words : List Text) (c : Ctx)
      → Post (Processed env c) (execute env cmd words c)
  unfolding execute
  execute-Processed cmd words c =
      elim (Bool-cases (level_above (command_level cmd) c.sc.access_level)) [
        | inl e ↦ rw e (OnlyOutput-Processed env (deny-OnlyOutput env _ c))
        | inr e ↦ elim (Bool-cases (returns_void cmd)) [
          | inr v ↦ rw (e, v) (exec-Processed cmd words c e)
          | inl v ↦
              rw (e, v)
                (bind-Post (Processed env c) (Processed env c) (exec env cmd words c) _
                  (exec-Processed cmd words c e)
                  (λ x p. output_after env p (forward_statusline-OnlyOutput env _ x)))
        ]
      ]
