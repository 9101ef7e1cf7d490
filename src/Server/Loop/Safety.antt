-- ===== src/Server/Loop/Safety.antt =====
-- What stays true of the server when a session works on it, or something is written on its state.
use graphserv.Prelude.{ℕ, ◌≡◌, ◌⊎◌, inl, inr, refl, Text, [], none, some, All}
use graphserv.Prelude.Assoc.{find, lookup}
use graphserv.Prelude.Entries.{update-All, IsEntry, find-IsEntry, IsAscending, update-IsAscending}
use graphserv.Access.{AccessLevel, access_read}
use graphserv.External.{Env}
use graphserv.Outcome.{ok}
use graphserv.Auth.{Users, read_credential_files}
use graphserv.Auth.Authorize.{Accepts, refresh_file_cache-cases}
use graphserv.Core.{CoreInstance}
use graphserv.Core.Continuity.{Continues}
use graphserv.Session.{SessionContext}
use graphserv.Server.{Graphserv, Ctx, put_core_instance}
use graphserv.Server.Instances.{AreValid, Evolves-AreValid, update-AreValid}
use graphserv.Server.Reply.Output.{OnlyOutput}
use graphserv.Server.Processed.{Refreshed}
use graphserv.Server.Processed.Lines.{Handled}
use graphserv.Server.Loop.{put_session}

module _ (env : Env) where
  -- The two files, at some time, have the credentials for the level.
  pub record Authorization (level : AccessLevel) : Type 0 where
    pub time : ℕ
    pub users : Users
    pub credentials : Text
    pub read : read_credential_files (env.files_at time) ≡ ok users
    pub accepts : Accepts env users credentials level

  abbrev pub IsAuthorized : AccessLevel → Type 0
  IsAuthorized level = (level ≡ access_read) ⊎ Authorization level

  -- The table of the authority is what the files had at some time.
  abbrev pub IsGenuine : Users → Type 0
  IsGenuine users = (users ≡ []) ⊎ ((t : ℕ) × (read_credential_files (env.files_at t) ≡ ok users))

  -- A session of the map stands under its own ID, and its level is one that it may have.
  abbrev pub SessionIsSafe : ℕ × SessionContext → Type 0
  SessionIsSafe p = (p.1.client_id ≡ p.0) × IsAuthorized p.1.access_level

  pub record IsSafe (app : Graphserv) : Type 0 where
    pub cores : AreValid env app.core_instances
    pub sessions : All SessionIsSafe app.session_contexts
    pub ordered : IsAscending app.session_contexts
    pub table : IsGenuine app.password_auth.users

  -- also of the session that the reference is to
  pub record IsSafeFor (c : Ctx) : Type 0 where
    pub server : IsSafe c.app
    pub session : IsAuthorized c.sc.access_level

  pub Refreshed-IsGenuine :
      (c c' : Ctx)
      → Refreshed env c c'
      → IsGenuine c.app.password_auth.users
      → IsGenuine c'.app.password_auth.users
  Refreshed-IsGenuine c c' (inl e) g = rw e g
  Refreshed-IsGenuine c c' (inr e) g =
      elim (refresh_file_cache-cases (env.files_at c.app.now) c.app.now c.app.password_auth
        c'.app.password_auth e) [
          | inl same ↦ rw same g
          | inr (changed, time, inl read) ↦ inr (c.app.now, read)
          | inr (changed, time, inr (bad, same)) ↦ rw same g
        ]

  -- Nobody is in the empty table.
  Accepts-read :
      (users : Users) (credentials : Text) (level : AccessLevel)
      → IsGenuine users
      → Accepts env users credentials level
      → Authorization level
  unfolding lookup
  Accepts-read users credentials level (inl empty) a =
      let q : none ≡ some a.info = rw (empty) at a.found in cc
  Accepts-read users credentials level (inr (t, read)) a = record {
    time = t;
    users = users;
    credentials = credentials;
    read = read;
    accepts = a;
  }

  pub Handled-IsSafe : (c c' : Ctx) → Handled env c c' → IsSafeFor c → IsSafeFor c'
  Handled-IsSafe c c' h s =
      let table : IsGenuine c'.app.password_auth.users =
        Refreshed-IsGenuine c c' h.auth s.server.table in
      record {
        server = record {
          cores = Evolves-AreValid env h.cores s.server.cores;
          sessions = rw h.same_sessions s.server.sessions;
          ordered = rw h.same_sessions s.server.ordered;
          table = table;
        };
        session = elim h.level [
          | inl e ↦ rw e s.session
          | inr g ↦ inr (Accepts-read _ g.credentials _ table g.accepts)
        ];
      }

  pub Output-IsSafe : (c c' : Ctx) → OnlyOutput c c' → IsSafeFor c → IsSafeFor c'
  Output-IsSafe c c' o s = record {
    server = record {
      cores = rw o.same_cores s.server.cores;
      sessions = rw o.same_sessions s.server.sessions;
      ordered = rw o.same_sessions s.server.ordered;
      table = rw o.same_auth s.server.table;
    };
    session = rw o.same_level s.session;
  }

  -- other fields of the server and of the session
  pub still-IsSafe :
      (app app' : Graphserv)
      → app'.core_instances ≡ app.core_instances
      → app'.session_contexts ≡ app.session_contexts
      → app'.password_auth ≡ app.password_auth
      → IsSafe app
      → IsSafe app'
  still-IsSafe app app' c s a h = record {
    cores = rw c h.cores;
    sessions = rw s h.sessions;
    ordered = rw s h.ordered;
    table = rw a h.table;
  }

  pub still-IsSafeFor :
      (c : Ctx) (sc : SessionContext)
      → sc.access_level ≡ c.sc.access_level
      → IsSafeFor c
      → IsSafeFor (record c { sc = sc })
  still-IsSafeFor c sc e s = record {
    server = record {
      cores = s.server.cores;
      sessions = s.server.sessions;
      ordered = s.server.ordered;
      table = s.server.table;
    };
    session = rw e s.session;
  }

  pub put_session-IsSafe : (c : Ctx) → IsSafeFor c → IsSafe (put_session c)
  unfolding put_session
  put_session-IsSafe c s = record {
    cores = s.server.cores;
    sessions =
        update-All SessionIsSafe c.sc.client_id c.sc c.app.session_contexts s.server.sessions
          (refl, s.session);
    ordered = update-IsAscending c.sc.client_id c.sc c.app.session_contexts s.server.ordered;
    table = s.server.table;
  }

  -- a change of an instance that is in the map
  pub put_entry-IsSafe :
      {level : AccessLevel} (id : ℕ) (core core' : CoreInstance) (app : Graphserv)
      → IsEntry id core app.core_instances
      → Continues level core core'
      → IsSafe app
      → IsSafe (put_core_instance core' app)
  unfolding put_core_instance
  put_entry-IsSafe id core core' app f k s = record {
    cores = update-AreValid env app.core_instances id core core' f k s.cores;
    sessions = s.sessions;
    ordered = s.ordered;
    table = s.table;
  }

  pub put_core-IsSafe :
      {level : AccessLevel} (id : ℕ) (core core' : CoreInstance) (app : Graphserv)
      → find id app.core_instances ≡ some core
      → Continues level core core'
      → IsSafe app
      → IsSafe (put_core_instance core' app)
  put_core-IsSafe id core core' app f k s =
      put_entry-IsSafe id core core' app (find-IsEntry id core app.core_instances f) k s
