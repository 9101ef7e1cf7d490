-- ===== src/Server/Processed/Lines.antt =====
-- What a line from a client can change.
use graphserv.Prelude.{
  ◌≡◌, ◌⊎◌, inl, inr, refl, ◌&&◌, ◌||◌, if◌then◌else◌, Bool, Bool-cases, Text, List, [], ◌∷◌, ◌++◌,
  Option, none, some, is_empty, not,
}
use graphserv.External.{Env}
use graphserv.Outcome.{Post, bind-Post, Post-ok, Outcome, ok, fails, exits, undefined}
use graphserv.Core.Entry.{CommandQEntry, new_entry, append_to_dataset, flushable}
use graphserv.Session.{Stats}
use graphserv.Server.{Ctx, is_waiting_for_core_reply}
use graphserv.Server.Reply.{lacks_newline}
use graphserv.Server.Dispatch.{
  set_command, push_line, count_line, process_command, extended, data_line, command_line,
  take_client_line, line_from_client,
}
use graphserv.Server.Instances.{Evolves}
use graphserv.Server.Processed.{Granted, Refreshed, Processed}
use graphserv.Server.Processed.Help.{behind, found-Post}
use graphserv.Server.Processed.Words.{set_command-Quiet, process_command-Processed}

module _ (env : Env) where
  -- As `Processed`, for a step that may change the queue of lines.
  pub record Handled (c c' : Ctx) : Type 0 where
    pub same_sessions : c'.app.session_contexts ≡ c.app.session_contexts
    pub same_client : c'.sc.client_id ≡ c.sc.client_id
    pub same_type : c'.sc.connection_type ≡ c.sc.connection_type
    pub level : (c'.sc.access_level ≡ c.sc.access_level) ⊎ Granted env c'
    pub cores : Evolves env c.sc.access_level c.app.core_instances c'.app.core_instances
    pub auth : Refreshed env c c'
    pub same_now : c'.app.now ≡ c.app.now

  pub Processed-Handled : {c c' : Ctx} → Processed env c c' → Handled c c'
  Processed-Handled p = record {
    same_sessions = p.same_sessions;
    same_client = p.same_client;
    same_type = p.same_type;
    level = p.level;
    cores = p.cores;
    auth = p.auth;
    same_now = p.same_now;
  }

  Post-Handled : (c : Ctx) (r : Outcome Ctx) → Post (Processed env c) r → Post (Handled c) r
  Post-Handled c (ok x) p = Processed-Handled p
  Post-Handled c fails p = tt
  Post-Handled c exits p = tt
  Post-Handled c undefined p = tt

  cleared-Handled : {c x : Ctx} → Processed env c x → Handled c (set_command none x)
  unfolding set_command
  cleared-Handled p = record {
    same_sessions = p.same_sessions;
    same_client = p.same_client;
    same_type = p.same_type;
    level = elim p.level [
      | inl e ↦ inl e
      | inr g ↦ inr (record { credentials = g.credentials; accepts = g.accepts })
    ];
    cores = p.cores;
    auth = p.auth;
    same_now = p.same_now;
  }

  -- the command, the queue and the counters of the session
  session-Handled :
      (c : Ctx) (ce : Option CommandQEntry) (q : List Text) (stats : Stats)
      → Handled c
          (record c { sc = record c.sc { cur_command = ce; line_queue = q; stats = stats } })
  session-Handled c ce q stats = record {
    same_sessions = refl;
    same_client = refl;
    same_type = refl;
    level = inl refl;
    cores = Evolves.keep refl;
    auth = inl refl;
    same_now = refl;
  }

  extended-Handled : (ce : CommandQEntry) (c : Ctx) → Post (Handled c) (extended env ce c)
  unfolding extended
  extended-Handled ce c = elim (Bool-cases (flushable ce)) [
    | inr e ↦ rw e (unfold set_command in session-Handled c (some ce) c.sc.line_queue c.sc.stats)
    | inl e ↦ rw e (
        bind-Post (Processed env c) (Handled c) (process_command env ce (set_command (some ce) c)) _
          (behind env (process_command env ce (set_command (some ce) c))
            (set_command-Quiet (some ce) c)
            (process_command-Processed env ce (set_command (some ce) c)))
          (λ x p. cleared-Handled p))
  ]

  data_line-Handled :
      (line : Text) (ce : CommandQEntry) (c : Ctx) → Post (Handled c) (data_line env line ce c)
  unfolding data_line
  data_line-Handled line ce c = elim (Bool-cases (ce.accepts_data && not ce.data_finished)) [
    | inl e ↦ rw e (extended-Handled (append_to_dataset env line ce) c)
    | inr e ↦ rw e (unfold push_line in session-Handled c c.sc.cur_command _ c.sc.stats)
  ]

  command_line-Handled : (line : Text) (c : Ctx) → Post (Handled c) (command_line env line c)
  unfolding command_line
  command_line-Handled line c =
      let ce = new_entry env c.sc.client_id line c.app.now in
      elim (Bool-cases (flushable ce)) [
        | inl e ↦
            rw e (Post-Handled c (process_command env ce c) (process_command-Processed env ce c))
        | inr e ↦
            rw e (unfold set_command in session-Handled c (some ce) c.sc.line_queue c.sc.stats)
      ]

  take_line-Handled :
      (queued : Bool) (line : Text) (c : Ctx)
      → Post (Handled c) (take_client_line env queued line c)
  unfolding take_client_line
  take_line-Handled queued line c =
      found-Post env c.sc.cur_command (Handled c) _ _ idle (λ ce f. data_line-Handled line ce c)
    where
      idle : Post (Handled c) (
          if not queued && (not (is_empty c.sc.line_queue) || is_waiting_for_core_reply c)
          then ok (push_line line c)
          else command_line env line c)
      idle =
          elim (Bool-cases
            (not queued && (not (is_empty c.sc.line_queue) || is_waiting_for_core_reply c))) [
              | inl w ↦ rw w (unfold push_line in session-Handled c c.sc.cur_command _ c.sc.stats)
              | inr w ↦ rw w (command_line-Handled line c)
            ]

  count_line-Handled : (line : Text) (c : Ctx) → Handled c (count_line line c)
  unfolding count_line
  count_line-Handled line c = session-Handled c c.sc.cur_command c.sc.line_queue _

  -- counting the line does not matter
  counted :
      (c : Ctx) (line : Text) (r : Outcome Ctx)
      → Post (Handled (count_line line c)) r
      → Post (Handled c) r
  unfolding count_line
  counted c line (ok x) p = record {
    same_sessions = p.same_sessions;
    same_client = p.same_client;
    same_type = p.same_type;
    level = p.level;
    cores = p.cores;
    auth = p.auth;
    same_now = p.same_now;
  }
  counted c line fails p = tt
  counted c line exits p = tt
  counted c line undefined p = tt

  pub line-Handled :
      (queued : Bool) (line : Text) (c : Ctx)
      → Post (Handled c) (line_from_client env queued line c)
  unfolding line_from_client
  line-Handled queued line c =
      let whole = if lacks_newline line then line ++ 10 ∷ [] else line in
      counted c whole (take_client_line env queued whole (count_line whole c))
        (take_line-Handled queued whole (count_line whole c))

  -- If the handling of a client's line returns, every session but this client's is as it was in the
  -- map, the reference is still to the same client over the same kind of connection, the client's
  -- access level is unchanged or was granted by the password authority for credentials that it
  -- accepts, the authority's table is unchanged or was refreshed, and the instances have changed by
  -- these steps only: commands are queued behind those that an instance had, and the first ones of all
  -- these are sent, whole, in order and with complete data sets, while the others stay queued; an
  -- administrator stops an instance; and an administrator starts one under a name that no running
  -- instance has.
  pub line_from_client-Handled :
      (queued : Bool) (line : Text) (c c' : Ctx)
      → line_from_client env queued line c ≡ ok c'
      → Handled c c'
  line_from_client-Handled queued line c c' e =
      Post-ok (Handled c) (line_from_client env queued line c) (line-Handled queued line c) e
