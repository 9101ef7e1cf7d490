-- ===== src/Server/Processed.antt =====
-- What the handling of a complete command can change.
pub mod Messages
pub mod Graphs
pub mod Help
pub mod Commands
pub mod Words
pub mod Lines
pub mod Requests
pub mod Endings
use graphserv.Prelude.{
  ℕ, zero, suc, ◌≡◌, ◌⊎◌, inl, inr, refl, ◌∙◌, ap, sym, if◌then◌else◌, Bool, true, false,
  Bool-cases, Option-cases, Text, text, leb, List, [], ◌∷◌, ◌++◌, Option, none, some, is_empty, not,
  same_text, codes, arith,
}
use graphserv.Access.{AccessLevel, level_above, level_value}
use graphserv.External.{Env}
use graphserv.Auth.{refresh_file_cache}
use graphserv.Prelude.Entries.{IsEntry}
use graphserv.Core.Continuity.{queue-Continues}
use graphserv.Core.Exchange.{forward-Exchanges}
use graphserv.Server.Instances.{Evolves, find_instance-IsEntry}
use graphserv.Outcome.{Post, Outcome, ok, fails, exits, undefined, ◌>>=◌}
use graphserv.Auth.Authorize.{Accepts, authorize-Accepts}
use graphserv.Core.{CoreInstance, terminate}
use graphserv.Core.Entry.{CommandQEntry, new_entry}
use graphserv.Session.{SessionContext, ConnectionType}
use graphserv.Server.{Ctx, Graphserv, ServCmd, find_instance, put_core_instance}
use graphserv.Server.Reply.{forward_statusline, forward_dataset, command_not_found}
use graphserv.Server.Reply.Output.{
  OnlyOutput, OnlyOutput-refl, OnlyOutput-trans, forward_statusline-OnlyOutput,
  forward_dataset-OnlyOutput, command_not_found-OnlyOutput, shutdown_client-OnlyOutput,
}
use graphserv.Server.Forwarding.{forward_to_core, with_core, submit, deny, needed_level}

-- A step that leaves the level of the session alone too.
pub record Quiet (c c' : Ctx) : Type 0 where
  pub same_cores : c'.app.core_instances ≡ c.app.core_instances
  pub same_auth : c'.app.password_auth ≡ c.app.password_auth
  pub same_now : c'.app.now ≡ c.app.now
  pub same_sessions : c'.app.session_contexts ≡ c.app.session_contexts
  pub same_client : c'.sc.client_id ≡ c.sc.client_id
  pub same_type : c'.sc.connection_type ≡ c.sc.connection_type
  pub same_queue : c'.sc.line_queue ≡ c.sc.line_queue
  pub same_level : c'.sc.access_level ≡ c.sc.access_level

pub OnlyOutput-Quiet : {c c' : Ctx} → OnlyOutput c c' → Quiet c c'
OnlyOutput-Quiet o = record {
  same_cores = o.same_cores;
  same_auth = o.same_auth;
  same_now = o.same_now;
  same_sessions = o.same_sessions;
  same_client = o.same_client;
  same_type = o.same_type;
  same_queue = o.same_queue;
  same_level = o.same_level;
}

pub Quiet-trans : {a b c : Ctx} → Quiet a b → Quiet b c → Quiet a c
Quiet-trans p q = record {
  same_cores = q.same_cores ∙ p.same_cores;
  same_auth = q.same_auth ∙ p.same_auth;
  same_now = q.same_now ∙ p.same_now;
  same_sessions = q.same_sessions ∙ p.same_sessions;
  same_client = q.same_client ∙ p.same_client;
  same_type = q.same_type ∙ p.same_type;
  same_queue = q.same_queue ∙ p.same_queue;
  same_level = q.same_level ∙ p.same_level;
}

-- The table of the authority is as before, or a refresh has read it from the files of that time.
abbrev pub Refreshed : Env → Ctx → Ctx → Type 0
Refreshed env c c' =
    (c'.app.password_auth ≡ c.app.password_auth)
    ⊎ (refresh_file_cache (env.files_at c.app.now) c.app.now c.app.password_auth
        ≡ ok c'.app.password_auth)

module _ (env : Env) where
  -- The session's level was granted by the password authority for some credentials.
  pub record Granted (c : Ctx) : Type 0 where
    pub credentials : Text
    pub accepts : Accepts env c.app.password_auth.users credentials c.sc.access_level

  pub record Processed (c c' : Ctx) : Type 0 where
    pub same_sessions : c'.app.session_contexts ≡ c.app.session_contexts
    pub same_client : c'.sc.client_id ≡ c.sc.client_id
    pub same_type : c'.sc.connection_type ≡ c.sc.connection_type
    pub same_queue : c'.sc.line_queue ≡ c.sc.line_queue
    pub level : (c'.sc.access_level ≡ c.sc.access_level) ⊎ Granted c'
    pub cores : Evolves env c.sc.access_level c.app.core_instances c'.app.core_instances
    pub auth : Refreshed env c c'
    pub same_now : c'.app.now ≡ c.app.now

  pub OnlyOutput-Processed : {c c' : Ctx} → OnlyOutput c c' → Processed c c'
  OnlyOutput-Processed o = record {
    same_sessions = o.same_sessions;
    same_client = o.same_client;
    same_type = o.same_type;
    same_queue = o.same_queue;
    level = inl o.same_level;
    cores = Evolves.keep o.same_cores;
    auth = inl o.same_auth;
    same_now = o.same_now;
  }

  pub Quiet-before : {a b c : Ctx} → Quiet a b → Processed b c → Processed a c
  Quiet-before {a} {b} {c} o p = record {
    same_sessions = p.same_sessions ∙ o.same_sessions;
    same_client = p.same_client ∙ o.same_client;
    same_type = p.same_type ∙ o.same_type;
    same_queue = p.same_queue ∙ o.same_queue;
    level = elim p.level [ inl e ↦ inl (e ∙ o.same_level) | inr g ↦ inr g ];
    cores = Evolves.after (Evolves.keep o.same_cores) (rw (← o.same_level) p.cores);
    auth = elim p.auth [
      | inl e ↦ inl (e ∙ o.same_auth)
      | inr e ↦ inr (rw (← o.same_auth, ← o.same_now) e)
    ];
    same_now = p.same_now ∙ o.same_now;
  }

  pub output_after : {a b c : Ctx} → Processed a b → OnlyOutput b c → Processed a c
  output_after {a} {b} {c} p o = record {
    same_sessions = o.same_sessions ∙ p.same_sessions;
    same_client = o.same_client ∙ p.same_client;
    same_type = o.same_type ∙ p.same_type;
    same_queue = o.same_queue ∙ p.same_queue;
    level = elim p.level [
      | inl e ↦ inl (o.same_level ∙ e)
      | inr g ↦ inr (record {
        credentials = g.credentials;
        accepts = rw (o.same_auth, o.same_level) g.accepts;
      })
    ];
    cores = Evolves.after p.cores (Evolves.keep o.same_cores);
    auth = elim p.auth [ inl e ↦ inl (o.same_auth ∙ e) | inr e ↦ inr (rw o.same_auth e) ];
    same_now = o.same_now ∙ p.same_now;
  }

  pub deny-OnlyOutput : (level : AccessLevel) (c : Ctx) → OnlyOutput c (deny env level c)
  unfolding deny
  deny-OnlyOutput level c = forward_statusline-OnlyOutput env _ c

  -- a change of the map of cores
  pub cores-Processed :
      (cores : List (ℕ × CoreInstance)) (counter : ℕ) (messages : ServCmd → Text) (core : ℕ)
      (c : Ctx)
      → Evolves env c.sc.access_level c.app.core_instances cores
      → Processed c (record {
        app = record c.app {
          core_instances = cores;
          core_id_counter = counter;
          status_messages = messages;
        };
        sc = record c.sc { core_id = core };
      })
  cores-Processed cores counter messages core c evolves = record {
    same_sessions = refl;
    same_client = refl;
    same_type = refl;
    same_queue = refl;
    level = inl refl;
    cores = evolves;
    auth = inl refl;
    same_now = refl;
  }

  submit-Processed :
      (ce : CommandQEntry) (level : AccessLevel) (core : CoreInstance) (c : Ctx) (id : ℕ)
      → IsEntry id core c.app.core_instances
      → Processed c (submit env ce level core c)
  unfolding submit put_core_instance
  submit-Processed ce level core c id found =
      elim (Bool-cases
        (leb (level_value (needed_level env level ce.command)) (level_value c.sc.access_level))) [
          | inl e ↦ rw e (
              cores-Processed _ c.app.core_id_counter c.app.status_messages c.sc.core_id c (
                Evolves.change id core _ found (queue-Continues env c.sc.access_level ce core)
                  (forward-Exchanges env ce core) refl))
          | inr e ↦ rw e (OnlyOutput-Processed (deny-OnlyOutput _ c))
        ]

  with_core-Processed :
      (ce : CommandQEntry) (words : List Text) (core : CoreInstance) (c : Ctx) (id : ℕ)
      → IsEntry id core c.app.core_instances
      → Post (Processed c) (with_core env ce words core c)
  unfolding with_core
  with_core-Processed ce [] core c id found = tt
  with_core-Processed ce (word ∷ rest) core c id found =
      elim (Option-cases (env.find_core_command word)) [
        | inl e ↦ rw (e, with_core) (OnlyOutput-Processed (command_not_found-OnlyOutput env _ c))
        | inr (level, e) ↦ rw (e, with_core) (submit-Processed ce level core c id found)
      ]

  pub forward_to_core-Processed :
      (ce : CommandQEntry) (c : Ctx) → Post (Processed c) (forward_to_core env ce c)
  unfolding forward_to_core
  forward_to_core-Processed ce c = elim (Option-cases (find_instance c.sc.core_id c.app)) [
    | inl e ↦
        rw (e, forward_to_core)
          (Quiet-before (OnlyOutput-Quiet (forward_statusline-OnlyOutput env _ c)) (
            let x = forward_statusline env _ c in
            cores-Processed x.app.core_instances x.app.core_id_counter x.app.status_messages 0 x
              (Evolves.keep refl)))
    | inr (core, e) ↦
        rw (e, forward_to_core)
          (with_core-Processed ce _ core c c.sc.core_id
            (find_instance-IsEntry c.sc.core_id c.app core e))
  ]
