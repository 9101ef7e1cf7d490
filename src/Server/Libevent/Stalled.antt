-- ===== src/Server/Libevent/Stalled.antt =====
-- What a core's output does to its queue in the libevent loop.
use graphserv.Prelude.{
  ℕ, ◌≡◌, inl, inr, refl, sym, subst, ap, ◌∙◌, ◌==◌, ==_iff, if◌then◌else◌, Bool, true, false,
  Bool-cases, Option-cases, Text, List, [], ◌∷◌, ◌++◌, none, some, All, arith,
}
use graphserv.Prelude.Assoc.{find, update, find-update, member}
use graphserv.Prelude.Entries.{found-All, update-All}
use graphserv.External.{Env}
use graphserv.Outcome.{Post, bind-Post, Post-ok, ok, ◌>>=◌}
use graphserv.Writer.Stream.{stream}
use graphserv.Core.{CoreInstance, Forward, take_line}
use graphserv.Core.Entry.{CommandQEntry}
use graphserv.Session.{SessionContext}
use graphserv.Server.{Graphserv, Ctx, find_client, put_core_instance}
use graphserv.Server.Forwarding.{deliver}
use graphserv.Server.Forwarding.Output.{deliver-OnlyOutput}
use graphserv.Server.Reply.Output.{OnlyOutput}
use graphserv.Server.Dispatch.{replay_lines}
use graphserv.Server.Dispatch.Replay.{replay-nothing}
use graphserv.Server.Libevent.{core_readable, handle, cb_core_readable}
use graphserv.Server.Loop.{bytes, put_session, answer_client, core_line, core_byte, core_bytes}

-- No session has a line that waits to be executed.
abbrev pub NothingQueued : Graphserv → Type 0
NothingQueued app = All (λ p. p.1.line_queue ≡ []) app.session_contexts

-- The instance has the ID and the queue, and the core was sent these bytes.
record Holds (id : ℕ) (q : List CommandQEntry) (sent : Text) (core : CoreInstance) : Type 0 where
  pub has_id : core.instance_id ≡ id
  pub has_queue : core.command_q ≡ q
  pub has_sent : stream core.writer ≡ sent

-- The map has this instance under its ID, and no line waits to be executed.
record Idles (id : ℕ) (q : List CommandQEntry) (sent : Text) (app : Graphserv) : Type 0 where
  pub core : CoreInstance
  pub found : find id app.core_instances ≡ some core
  pub holds : Holds id q sent core
  pub nothing : NothingQueued app

module _ (env : Env) where
  taken-Holds :
      (id : ℕ) (q : List CommandQEntry) (sent line : Text) (core : CoreInstance)
      → Holds id q sent core
      → Holds id q sent (record (take_line env line core).0 { linebuf = [] })
  unfolding take_line
  taken-Holds id q sent line core h = record {
    has_id = ground (arith, h.has_id);
    has_queue = ground (arith, h.has_queue);
    has_sent = ap stream same_writer ∙ h.has_sent;
  }
    where
      same_writer : (take_line env line core).0.writer ≡ core.writer
      same_writer = ground arith

  put_core-Idles :
      (id : ℕ) (q : List CommandQEntry) (sent : Text) (core : CoreInstance) (app : Graphserv)
      → Idles id q sent app
      → Holds id q sent core
      → Idles id q sent (put_core_instance core app)
  unfolding put_core_instance
  put_core-Idles id q sent core app i h = record {
    core = core;
    found = found_at core.instance_id h.has_id;
    holds = h;
    nothing = i.nothing;
  }
    where
      found_at : (n : ℕ) → n ≡ id → find id (update n core app.core_instances) ≡ some core
      found_at n e =
          rw (e, find-update id id core i.core app.core_instances i.found, (==_iff id id).1 refl)
            refl

  -- the client's side: no line is executed
  answer-Idles :
      (id : ℕ) (q : List CommandQEntry) (sent : Text) (f : Forward) (line : Text) (waiting : Bool)
      (c : Ctx)
      → c.sc.line_queue ≡ []
      → Idles id q sent c.app
      → Post (Idles id q sent) (answer_client env f line waiting c)
  unfolding answer_client replay_lines put_session
  answer-Idles id q sent f line waiting c empty i = by_wait waiting
    where
      out : OnlyOutput c (deliver env f line c)
      out = deliver-OnlyOutput env f line c

      still : (deliver env f line c).sc.line_queue ≡ []
      still = out.same_queue ∙ empty

      put : Idles id q sent (put_session (deliver env f line c))
      put = record {
        core = i.core;
        found = ap (λ m. find id m) out.same_cores ∙ i.found;
        holds = i.holds;
        nothing =
            update-All (λ p. p.1.line_queue ≡ []) _ (deliver env f line c).sc
              (deliver env f line c).app.session_contexts
              (subst (λ m. All (λ p. p.1.line_queue ≡ []) m) (sym out.same_sessions) i.nothing)
              still;
      }

      by_wait :
          (b : Bool)
          → Post (Idles id q sent) (
              (if b then replay_lines env (deliver env f line c) else ok (deliver env f line c))
              >>= λ c₂. ok (put_session c₂))
      by_wait false = put
      by_wait true =
          subst (λ r. Post (Idles id q sent) (r >>= λ c₂. ok (put_session c₂)))
            (sym (replay-nothing env _ (deliver env f line c) still)) put

  find_client-nothing :
      (id : ℕ) (sc : SessionContext) (app : Graphserv)
      → find_client id app ≡ some sc
      → NothingQueued app
      → sc.line_queue ≡ []
  unfolding find_client
  find_client-nothing id sc app f n = elim (Bool-cases (member id app.clients_to_remove)) [
    | inl m ↦ let q : none ≡ some sc = rw (find_client, m) at f in cc
    | inr m ↦
        found-All (λ p. p.1.line_queue ≡ []) id sc app.session_contexts n (rw (find_client, m) at f)
  ]

  line-Idles :
      (id : ℕ) (q : List CommandQEntry) (sent : Text) (core : CoreInstance) (app : Graphserv)
      → Idles id q sent app
      → Holds id q sent core
      → Post (Idles id q sent) (core_line env core app)
  unfolding core_line
  line-Idles id q sent core app i h =
      let after = put_core-Idles id q sent _ app i (taken-Holds id q sent core.linebuf core h) in
      elim (Option-cases (find_client core.last_client_id app)) [
        | inl e ↦ rw (core_line, e) after
        | inr (sc, e) ↦
            rw (core_line, e)
              (answer-Idles id q sent _ core.linebuf _ (record { app = _; sc = sc })
                (find_client-nothing core.last_client_id sc app e i.nothing) after)
      ]

  byte-Idles :
      (b id : ℕ) (q : List CommandQEntry) (sent : Text) (core : CoreInstance) (app : Graphserv)
      → Idles id q sent app
      → Holds id q sent core
      → Post (Idles id q sent) (core_byte env b core app)
  unfolding core_byte
  byte-Idles b id q sent core app i h =
      let longer : CoreInstance = record core { linebuf = core.linebuf ++ b ∷ [] } in
      let held : Holds id q sent longer = record {
        has_id = h.has_id;
        has_queue = h.has_queue;
        has_sent = h.has_sent;
      } in
      let after = put_core-Idles id q sent longer app i held in
      elim (Bool-cases (b == 13)) [
        | inl e ↦ rw e i
        | inr e ↦ elim (Bool-cases (b == 10)) [
          | inr n ↦ rw (e, n) after
          | inl n ↦
              rw (e, n) (line-Idles id q sent longer (put_core_instance longer app) after held)
        ]
      ]

  bytes-Idles :
      (b : Text) (id : ℕ) (q : List CommandQEntry) (sent : Text) (app : Graphserv)
      → Idles id q sent app
      → Post (Idles id q sent) (core_bytes env id b app)
  unfolding core_bytes
  bytes-Idles [] id q sent app i = i
  bytes-Idles (b ∷ rest) id q sent app i =
      rw (core_bytes, i.found)
        (bind-Post (Idles id q sent) (Idles id q sent) (core_byte env b i.core app) _
          (byte-Idles b id q sent i.core app i i.holds)
          (λ app₁ i₁. bytes-Idles rest id q sent app₁ i₁))

  -- The instance has the same queue, and nothing more was sent to its core.
  pub record Unsent (id : ℕ) (core : CoreInstance) (app : Graphserv) : Type 0 where
    pub later : CoreInstance
    pub found : find id app.core_instances ≡ some later
    pub same_queue : later.command_q ≡ core.command_q
    pub same_output : stream later.writer ≡ stream core.writer

  -- While no session has a line that waits to be executed: in the libevent loop, whatever a core sends,
  -- its instance keeps its whole queue and sends the core nothing, also when the core has just become
  -- ready for the next command.
  pub handle-Unsent :
      (id : ℕ) (b : Text) (core : CoreInstance) (app app' : Graphserv)
      → find id app.core_instances ≡ some core
      → core.instance_id ≡ id
      → NothingQueued app
      → handle env (core_readable id (bytes b)) app ≡ ok app'
      → Unsent id core app'
  unfolding handle cb_core_readable
  handle-Unsent id b core app app' f own nothing e =
      let done : core_bytes env core.instance_id b app ≡ ok app' = rw (handle, f) at e in
      let here : core_bytes env id b app ≡ ok app' =
        ap (λ n. core_bytes env n b app) (sym own) ∙ done in
      let i =
        Post-ok (Idles id core.command_q (stream core.writer)) (core_bytes env id b app)
          (bytes-Idles b id core.command_q (stream core.writer) app (record {
            core = core;
            found = f;
            holds = record { has_id = own; has_queue = refl; has_sent = refl };
            nothing = nothing;
          }))
          here in
      record {
        later = i.core;
        found = i.found;
        same_queue = i.holds.has_queue;
        same_output = i.holds.has_sent;
      }
