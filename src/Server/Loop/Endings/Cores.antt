-- ===== src/Server/Loop/Endings/Cores.antt =====
-- Which bytes from a core the server does not survive: the queued lines that are executed behind a
-- line from the core, in mainloop_select of src/servapp.h.
use graphserv.Prelude.{
  ℕ, zero, suc, ◌≡◌, inl, inr, refl, ap, ◌∙◌, ◌==◌, ==_iff, subst, true, false, Bool-cases,
  Option-cases, Text, List, [], ◌∷◌, ◌++◌, some, length,
}
use graphserv.Prelude.Assoc.{find}
use graphserv.External.{Env}
use graphserv.Outcome.{Ends, Ends-map, bind-Ends, ok, ◌>>=◌}
use graphserv.Core.{CoreInstance, Forward, take_line}
use graphserv.Session.{SessionContext}
use graphserv.Server.{Graphserv, Ctx, find_client, put_core_instance, is_waiting_for_core_reply}
use graphserv.Server.Forwarding.{deliver}
use graphserv.Server.Dispatch.{line_from_client, pop_line, replay_loop, replay_lines}
use graphserv.Server.Dispatch.Replay.{next_line-cases, replay_loop-stops, replay_loop-continues}
use graphserv.Server.Processed.Endings.Lines.{CommandTrouble, command_of, line_from_client-Ends}
use graphserv.Server.Loop.{answer_client, core_line, core_byte, core_bytes}

module _ (env : Env) where
  -- A queued line of the session has trouble, at once or behind queued lines that are handled.
  pub data QueueTrouble : Ctx → Type 0 where
    here :
        (c : Ctx) (line : Text) (q : List Text)
        → c.sc.line_queue ≡ line ∷ q
        → is_waiting_for_core_reply c ≡ false
        → CommandTrouble env (command_of env line c) c
        → QueueTrouble c
    behind :
        (c c₁ : Ctx) (line : Text) (q : List Text)
        → c.sc.line_queue ≡ line ∷ q
        → is_waiting_for_core_reply c ≡ false
        → line_from_client env true line c ≡ ok c₁
        → QueueTrouble (pop_line env c₁)
        → QueueTrouble c

  replay-Ends : (rounds : ℕ) (c : Ctx) → Ends (QueueTrouble c) (replay_loop env rounds c)
  unfolding replay_loop
  replay-Ends zero c = inl (c, refl)
  replay-Ends (suc rounds) c =
      elim (next_line-cases env c.sc.line_queue (is_waiting_for_core_reply c)) [
        | inl (n, why) ↦ inl (c, replay_loop-stops env rounds c n)
        | inr (line, q, n, e, w) ↦
            let step = replay_loop-continues env rounds line c n in
            elim (line_from_client-Ends env true line c) [
              | inr t ↦ inr (QueueTrouble.here c line q e w t)
              | inl (c₁, r) ↦ elim (replay-Ends rounds (pop_line env c₁)) [
                | inl (d, f) ↦
                    inl
                      (d, step ∙ ap (λ o. o >>= λ x. replay_loop env rounds (pop_line env x)) r ∙ f)
                | inr t ↦ inr (QueueTrouble.behind c c₁ line q e w r t)
              ]
            ]
      ]

  -- The line of the core is for a client that is there and was waiting for it, and of whose queued
  -- lines one has trouble behind it.
  pub record ReplyTrouble (core : CoreInstance) (app : Graphserv) : Type 0 where
    pub session : SessionContext
    pub forward : Forward
    pub cores : CoreInstance
    pub found : find_client core.last_client_id app ≡ some session
    pub was_waiting : is_waiting_for_core_reply (record { app = app; sc = session }) ≡ true
    pub taken : take_line env core.linebuf core ≡ (cores, forward)
    pub trouble : QueueTrouble (
        deliver env forward core.linebuf
          (record { app = put_core_instance (record cores { linebuf = [] }) app; sc = session }))

  line-Ends :
      (core : CoreInstance) (app : Graphserv)
      → Ends (ReplyTrouble core app) (core_line env core app)
  unfolding core_line answer_client replay_lines
  line-Ends core app = elim (Option-cases (find_client core.last_client_id app)) [
    | inl e ↦ rw (core_line, e) (inl (_, refl))
    | inr (sc, e) ↦
        let w = is_waiting_for_core_reply (record { app = app; sc = sc }) in
        elim (Bool-cases w) [
          | inr idle ↦ rw (core_line, e, idle) (inl (_, refl))
          | inl waited ↦
              let c : Ctx = deliver env (take_line env core.linebuf core).1 core.linebuf (record {
                app =
                    put_core_instance (record (take_line env core.linebuf core).0 { linebuf = [] })
                      app;
                sc = sc;
              }) in
              rw (core_line, e, waited)
                (bind-Ends (replay_lines env c) _
                  (Ends-map
                    (λ t. record {
                      session = sc;
                      forward = (take_line env core.linebuf core).1;
                      cores = (take_line env core.linebuf core).0;
                      found = e;
                      was_waiting = waited;
                      taken = refl;
                      trouble = t;
                    })
                    (replay-Ends (length c.sc.line_queue) c))
                  (λ c₂. inl (_, refl)))
        ]
  ]

  -- the instance with one more byte in its buffer, and the server with it
  abbrev pub longer : ℕ → CoreInstance → CoreInstance
  longer x core = record core { linebuf = core.linebuf ++ x ∷ [] }

  -- The bytes before some newline are handled, and the line that it ends has trouble.
  pub record CoreStopsAt (id : ℕ) (b : Text) (app : Graphserv) : Type 0 where
    pub before : Text
    pub rest : Text
    pub at : Graphserv
    pub core : CoreInstance
    pub cut : b ≡ before ++ 10 ∷ rest
    pub reached : core_bytes env id before app ≡ ok at
    pub found : find id at.core_instances ≡ some core
    pub trouble : ReplyTrouble (longer 10 core) (put_core_instance (longer 10 core) at)

  behind_byte :
      (id x : ℕ) (rest : Text) (app app' : Graphserv)
      → ((a : Text) → core_bytes env id (x ∷ a) app ≡ core_bytes env id a app')
      → Ends (CoreStopsAt id rest app') (core_bytes env id rest app')
      → Ends (CoreStopsAt id (x ∷ rest) app) (core_bytes env id (x ∷ rest) app)
  behind_byte id x rest app app' step (inl (d, e)) = inl (d, step rest ∙ e)
  behind_byte id x rest app app' step (inr s) = inr (record {
    before = x ∷ s.before;
    rest = s.rest;
    at = s.at;
    core = s.core;
    cut = ap (◌∷◌ x) s.cut;
    reached = step s.before ∙ s.reached;
    found = s.found;
    trouble = s.trouble;
  })

  -- What a core sends is handled and that returns, or the bytes before some newline are handled, and
  -- the line that it ends is for a client that waited for it and of whose queued lines one has trouble.
  pub core_bytes-Ends :
      (id : ℕ) (b : Text) (app : Graphserv) → Ends (CoreStopsAt id b app) (core_bytes env id b app)
  unfolding core_bytes core_byte
  core_bytes-Ends id [] app = inl (app, refl)
  core_bytes-Ends id (x ∷ rest) app = elim (Option-cases (find id app.core_instances)) [
    | inl e ↦ inl (app, rw (core_bytes, e))
    | inr (core, e) ↦ elim (Bool-cases (x == 13)) [
      | inl r ↦
          behind_byte id x rest app app (λ a. rw (core_bytes, e, r)) (core_bytes-Ends id rest app)
      | inr r ↦
          let app₁ = put_core_instance (longer x core) app in
          elim (Bool-cases (x == 10)) [
            | inr n ↦
                behind_byte id x rest app app₁ (λ a. rw (core_bytes, e, r, n))
                  (core_bytes-Ends id rest app₁)
            | inl n ↦ elim (line-Ends (longer x core) app₁) [
              | inl (app₂, l) ↦
                  behind_byte id x rest app app₂ (λ a. rw (core_bytes, e, r, n, l))
                    (core_bytes-Ends id rest app₂)
              | inr t ↦
                  let newline = (==_iff x 10).0 n in
                  inr (record {
                    before = [];
                    rest = rest;
                    at = app;
                    core = core;
                    cut = ap (λ y. y ∷ rest) newline;
                    reached = refl;
                    found = e;
                    trouble =
                        subst
                          (λ y.
                            ReplyTrouble (longer y core) (put_core_instance (longer y core) app))
                          newline t;
                  })
            ]
          ]
    ]
  ]
