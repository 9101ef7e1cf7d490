-- ===== src/Server/Loop/Delivery.antt =====
-- Whom a line from a core reaches: lineFromCore of src/main.cpp, and the loop over the cores of
-- mainloop_select in src/servapp.h.
pub mod Bytes
use graphserv.Prelude.{
  ℕ, zero, suc, ◌≡◌, inl, inr, refl, sym, ap, ◌∙◌, ==_iff, if◌then◌else◌, Bool, true, false,
  Bool-cases, ◌||◌, Option-cases, Text, [], ◌++◌, none, some, append-nil,
}
use graphserv.Prelude.Assoc.{find, update, find-update, member}
use graphserv.Prelude.Entries.{found-All}
use graphserv.External.{Env}
use graphserv.Outcome.{Post, bind-Post, Post-map, Post-ok, ok, ◌>>=◌}
use graphserv.Writer.Stream.{stream}
use graphserv.Core.{CoreInstance, Forward, as_status, as_dataset, unexpected, take_line}
use graphserv.Session.{SessionContext, conn_tcp}
use graphserv.Server.{Graphserv, Ctx, find_client, put_core_instance, is_waiting_for_core_reply}
use graphserv.Server.Reply.{forward_statusline, forward_dataset}
use graphserv.Server.Reply.Output.{OnlyOutput}
use graphserv.Server.Reply.Http.{write-Appends}
use graphserv.Server.Forwarding.{deliver}
use graphserv.Server.Forwarding.Output.{deliver-OnlyOutput}
use graphserv.Server.Processed.Lines.{line-Handled}
use graphserv.Server.Dispatch.{line_from_client, pop_line, replay_loop, replay_lines}
use graphserv.Server.Dispatch.Replay.{
  next_line-cases, replay-nothing, replay_loop-stops, replay_loop-continues,
}
use graphserv.Server.Loop.{put_session, answer_client, core_line}
use graphserv.Server.Loop.Safety.{IsSafe, SessionIsSafe}
use graphserv.Server.Loop.Isolation.{SameOthers, Keeps, Keeps-trans, put_session-SameOthers}

-- What the client gets of a complete line.
abbrev pub handed : CoreInstance → Text
handed core = if core.expecting_reply || core.expecting_dataset then core.linebuf else []

-- The client's session is still in the map, and exactly this much more was written to it.
pub record Delivered (id : ℕ) (sc : SessionContext) (more : Text) (app' : Graphserv) : Type 0 where
  pub session : SessionContext
  pub found : find id app'.session_contexts ≡ some session
  pub received : stream session.writer ≡ stream sc.writer ++ more

module _ (env : Env) where
  replay-Keeps : (rounds : ℕ) (c : Ctx) → Post (Keeps c) (replay_loop env rounds c)
  unfolding replay_loop pop_line
  replay-Keeps zero c = (refl, refl)
  replay-Keeps (suc rounds) c =
      elim (next_line-cases env c.sc.line_queue (is_waiting_for_core_reply c)) [
        | inl (n, why) ↦ rw (replay_loop-stops env rounds c n) (refl, refl)
        | inr (line, q, n, e, w) ↦ rw (replay_loop-continues env rounds line c n) (
            bind-Post (Keeps c) (Keeps c) (line_from_client env true line c) _
              (Post-map _ (Keeps c) (line_from_client env true line c)
                (λ x h. (h.same_sessions, h.same_client)) (line-Handled env true line c))
              (λ c₁ k.
                Post-map (Keeps (pop_line env c₁)) (Keeps c)
                  (replay_loop env rounds (pop_line env c₁))
                  (λ x j. Keeps-trans c (pop_line env c₁) x k j)
                  (replay-Keeps rounds (pop_line env c₁))))
      ]

  deliver-Keeps : (f : Forward) (line : Text) (c : Ctx) → Keeps c (deliver env f line c)
  deliver-Keeps f line c =
      let out = deliver-OnlyOutput env f line c in (out.same_sessions, out.same_client)

  answer-SameOthers :
      (f : Forward) (line : Text) (waiting : Bool) (c : Ctx)
      → Post (SameOthers c.sc.client_id c.app) (answer_client env f line waiting c)
  unfolding answer_client replay_lines
  answer-SameOthers f line waiting c =
      bind-Post (Keeps c) (SameOthers c.sc.client_id c.app)
        (if waiting then replay_lines env (deliver env f line c) else ok (deliver env f line c)) _
        (replayed waiting) (λ c₂ k. put_session-SameOthers c c₂ k)
    where
      after : Ctx
      after = deliver env f line c

      replayed : (b : Bool) → Post (Keeps c) (if b then replay_lines env after else ok after)
      replayed false = deliver-Keeps f line c
      replayed true =
          Post-map (Keeps after) (Keeps c) (replay_lines env after)
            (λ x k. Keeps-trans c after x (deliver-Keeps f line c) k) (replay-Keeps _ after)

  -- A session of the map stands under its own ID.
  found-id :
      (id : ℕ) (sc : SessionContext) (app : Graphserv)
      → IsSafe env app
      → find_client id app ≡ some sc
      → (sc.client_id ≡ id) × (find id app.session_contexts ≡ some sc)
  unfolding find_client
  found-id id sc app s f = elim (Bool-cases (member id app.clients_to_remove)) [
    | inl m ↦ let q : none ≡ some sc = rw (find_client, m) at f in cc
    | inr m ↦
        let there : find id app.session_contexts ≡ some sc = rw (find_client, m) at f in
        ((found-All (SessionIsSafe env) id sc app.session_contexts s.sessions there).0, there)
  ]

  line-SameOthers :
      (core : CoreInstance) (app : Graphserv)
      → IsSafe env app
      → Post (SameOthers core.last_client_id app) (core_line env core app)
  unfolding core_line put_core_instance
  line-SameOthers core app s = elim (Option-cases (find_client core.last_client_id app)) [
    | inl e ↦ rw (core_line, e) (λ i ne. refl)
    | inr (sc, e) ↦
        let own = (found-id core.last_client_id sc app s e).0 in
        rw (core_line, e)
          (Post-map (SameOthers sc.client_id app) (SameOthers core.last_client_id app) _
            (λ x h i ne. h i (λ q. ne (q ∙ own)))
            (answer-SameOthers _ core.linebuf _ (record { app = _; sc = sc })))
  ]

  -- When a complete line from a core is handled and that returns, no session changes but that of the
  -- client whose command the core was sent last: no line reaches another client.
  pub core_line-SameOthers :
      (core : CoreInstance) (app app' : Graphserv)
      → IsSafe env app
      → core_line env core app ≡ ok app'
      → SameOthers core.last_client_id app app'
  core_line-SameOthers core app app' s e =
      Post-ok (SameOthers core.last_client_id app) (core_line env core app)
        (line-SameOthers core app s) e

  deliver-stream :
      (f : Forward) (line : Text) (c : Ctx)
      → c.sc.connection_type ≡ conn_tcp
      → stream (deliver env f line c).sc.writer
        ≡ stream c.sc.writer ++ elim f [ as_status ↦ line | as_dataset ↦ line | unexpected ↦ [] ]
  unfolding deliver forward_statusline forward_dataset
  deliver-stream as_status line c tcp = rw (forward_statusline, tcp) (write-Appends env line c)
  deliver-stream as_dataset line c tcp = rw (forward_dataset, tcp) (write-Appends env line c)
  deliver-stream unexpected line c tcp = sym (append-nil (stream c.sc.writer))

  take_line-handed :
      (core : CoreInstance)
      → elim (take_line env core.linebuf core).1 [
        | as_status ↦ core.linebuf
        | as_dataset ↦ core.linebuf
        | unexpected ↦ []
      ]
        ≡ handed core
  unfolding take_line
  take_line-handed core = elim (Bool-cases core.expecting_reply) [
    | inl r ↦ rw r refl
    | inr r ↦ elim (Bool-cases core.expecting_dataset) [
      | inl d ↦ rw (r, d) refl
      | inr d ↦ rw (r, d) refl
    ]
  ]

  answer-Delivered :
      (f : Forward) (line : Text) (waiting : Bool) (c : Ctx)
      → c.sc.connection_type ≡ conn_tcp
      → c.sc.line_queue ≡ []
      → find c.sc.client_id c.app.session_contexts ≡ some c.sc
      → (app' : Graphserv) × (answer_client env f line waiting c ≡ ok app')
        × Delivered c.sc.client_id c.sc
            (elim f [ as_status ↦ line | as_dataset ↦ line | unexpected ↦ [] ])
            app'
  unfolding answer_client replay_lines put_session
  answer-Delivered f line waiting c tcp empty there = (
    put_session after,
    returns waiting,
    record { session = after.sc; found = stored; received = deliver-stream f line c tcp },
  )
    where
      after : Ctx
      after = deliver env f line c

      out : OnlyOutput c after
      out = deliver-OnlyOutput env f line c

      returns :
          (b : Bool)
          → ((if b then replay_lines env after else ok after) >>= λ c₂. ok (put_session c₂))
            ≡ ok (put_session after)
      returns false = refl
      returns true =
          ap (λ r. r >>= λ c₂. ok (put_session c₂))
            (replay-nothing env _ after (out.same_queue ∙ empty))

      stored :
          find c.sc.client_id (update after.sc.client_id after.sc after.app.session_contexts)
          ≡ some after.sc
      stored =
          rw
            (
              out.same_client,
              out.same_sessions,
              find-update c.sc.client_id c.sc.client_id after.sc c.sc c.app.session_contexts there,
              (==_iff c.sc.client_id c.sc.client_id).1 refl,
            )
            refl

  -- When a complete line from a core is handled in a server for which the invariant holds, and the
  -- client whose command the core was sent last is still there, is a TCP client and has no line that
  -- waits, that returns, and the client is written the line, and nothing else, if the core was
  -- expected to send a status line or a data set; it is written nothing if it was not.
  pub core_line-Delivered :
      (core : CoreInstance) (sc : SessionContext) (app : Graphserv)
      → IsSafe env app
      → find_client core.last_client_id app ≡ some sc
      → sc.connection_type ≡ conn_tcp
      → sc.line_queue ≡ []
      → (app' : Graphserv) × (core_line env core app ≡ ok app')
        × Delivered core.last_client_id sc (handed core) app'
  unfolding core_line put_core_instance
  core_line-Delivered core sc app s f tcp empty =
      let (own, there) = found-id core.last_client_id sc app s f in
      let (app', returns, d) =
        answer-Delivered (take_line env core.linebuf core).1 core.linebuf
          (is_waiting_for_core_reply (record { app = app; sc = sc }))
          (record {
            app =
                put_core_instance (record (take_line env core.linebuf core).0 { linebuf = [] }) app;
            sc = sc;
          })
          tcp empty (ap (λ n. find n app.session_contexts) own ∙ there) in
      (
        app',
        rw (core_line, f) returns,
        record {
          session = d.session;
          found = ap (λ n. find n app'.session_contexts) (sym own) ∙ d.found;
          received = d.received ∙ ap (◌++◌ (stream sc.writer)) (take_line-handed core);
        },
      )
