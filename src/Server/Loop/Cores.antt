-- ===== src/Server/Loop/Cores.antt =====
-- The safety of the pass over the instances.
use graphserv.Outcome.{Post, bind-Post}
use graphserv.Prelude.{
  ℕ, zero, suc, ◌≡◌, inl, inr, refl, ◌==◌, ==_iff, Bool, true, false, Bool-cases, Option-cases,
  Text, List, [], ◌∷◌, ◌++◌, Option, none, some, length,
}
use graphserv.Prelude.Assoc.{find, update, find-update, member}
use graphserv.Prelude.Entries.{found-All}
use graphserv.Access.{access_admin}
use graphserv.External.{Env}
use graphserv.Core.{CoreInstance, Forward, as_status, as_dataset, unexpected, take_line}
use graphserv.Core.Continuity.{
  Continues-trans, linebuf-Continues, take_line-Continues, drain-Continues,
}
use graphserv.Session.{SessionContext}
use graphserv.Server.{
  Graphserv, Ctx, find_client, put_core_instance, remove_core_instance, is_waiting_for_core_reply,
}
use graphserv.Server.Instances.{erase-AreValid}
use graphserv.Server.Reply.Output.{forward_statusline-OnlyOutput, forward_dataset-OnlyOutput}
use graphserv.Server.Forwarding.{deliver}
use graphserv.Server.Processed.Lines.{Handled, line-Handled}
use graphserv.Server.Dispatch.{line_from_client, pop_line, replay_loop, replay_lines}
use graphserv.Server.Dispatch.Replay.{next_line-cases, replay_loop-stops, replay_loop-continues}
use graphserv.Server.Loop.{
  Received, closed, io_error, bytes, answer_client, core_line, core_byte, core_bytes, core_readable,
  remove_cores,
}
use graphserv.Server.Loop.Round.{Ready, read_core, write_core, core_pass}
use graphserv.Server.Loop.Safety.{
  IsSafe, IsSafeFor, Handled-IsSafe, Output-IsSafe, still-IsSafeFor, put_session-IsSafe,
  put_core-IsSafe,
}
use graphserv.Server.Loop.Clients.{session-IsSafe}

module _ (env : Env) where
  deliver-IsSafe :
      (f : Forward) (line : Text) (c : Ctx) → IsSafeFor env c → IsSafeFor env (deliver env f line c)
  unfolding deliver
  deliver-IsSafe as_status line c s =
      Output-IsSafe env c _ (forward_statusline-OnlyOutput env line c) s
  deliver-IsSafe as_dataset line c s =
      Output-IsSafe env c _ (forward_dataset-OnlyOutput env line c) s
  deliver-IsSafe unexpected line c s = s

  pop-IsSafe : (c : Ctx) → IsSafeFor env c → IsSafeFor env (pop_line env c)
  unfolding pop_line
  pop-IsSafe c s = still-IsSafeFor env c _ refl s

  replay-IsSafe :
      (rounds : ℕ) (c : Ctx) → IsSafeFor env c → Post (IsSafeFor env) (replay_loop env rounds c)
  unfolding replay_loop
  replay-IsSafe zero c s = s
  replay-IsSafe (suc rounds) c s =
      elim (next_line-cases env c.sc.line_queue (is_waiting_for_core_reply c)) [
        | inl (n, why) ↦ rw (replay_loop-stops env rounds c n) s
        | inr (line, q, n, e, w) ↦ rw (replay_loop-continues env rounds line c n) (
            bind-Post (Handled env c) (IsSafeFor env) (line_from_client env true line c) _
              (line-Handled env true line c)
              (λ c₁ h.
                replay-IsSafe rounds (pop_line env c₁)
                  (pop-IsSafe c₁ (Handled-IsSafe env c c₁ h s))))
      ]

  answer-IsSafe :
      (f : Forward) (line : Text) (waiting : Bool) (c : Ctx)
      → IsSafeFor env c
      → Post (IsSafe env) (answer_client env f line waiting c)
  unfolding answer_client replay_lines
  answer-IsSafe f line false c s = put_session-IsSafe env _ (deliver-IsSafe f line c s)
  answer-IsSafe f line true c s =
      let c₁ = deliver env f line c in
      bind-Post (IsSafeFor env) (IsSafe env) (replay_loop env (length c₁.sc.line_queue) c₁) _
        (replay-IsSafe (length c₁.sc.line_queue) c₁ (deliver-IsSafe f line c s))
        (λ c₂ s₂. put_session-IsSafe env c₂ s₂)

  find_client-IsSafe :
      (id : ℕ) (sc : SessionContext) (app app' : Graphserv)
      → find_client id app ≡ some sc
      → app'.session_contexts ≡ app.session_contexts
      → IsSafe env app'
      → IsSafeFor env (record { app = app'; sc = sc })
  unfolding find_client
  find_client-IsSafe id sc app app' f same s = elim (Bool-cases (member id app.clients_to_remove)) [
    | inl m ↦ let q : none ≡ some sc = rw (find_client, m) at f in cc
    | inr m ↦ session-IsSafe env id sc app' (rw same (rw (find_client, m) at f)) s
  ]

  core_line-IsSafe :
      (id : ℕ) (core : CoreInstance) (app : Graphserv)
      → find id app.core_instances ≡ some core
      → IsSafe env app
      → Post (IsSafe env) (core_line env core app)
  unfolding core_line
  core_line-IsSafe id core app f s = elim (Option-cases (find_client core.last_client_id app)) [
    | inl e ↦ rw (core_line, e) later
    | inr (sc, e) ↦
        rw (core_line, e)
          (answer-IsSafe _ core.linebuf _ (record { app = after; sc = sc })
            (find_client-IsSafe core.last_client_id sc app after e
              (unfold put_core_instance in refl) later))
  ]
    where
      taken : CoreInstance
      taken = (take_line env core.linebuf core).0

      after : Graphserv
      after = put_core_instance (record taken { linebuf = [] }) app

      later : IsSafe env after
      later =
          put_core-IsSafe env {level = access_admin} id core (record taken { linebuf = [] }) app f
            (Continues-trans (take_line-Continues env access_admin core.linebuf core)
              (linebuf-Continues env access_admin [] taken))
            s

  pub own_id :
      (id : ℕ) (core : CoreInstance) (app : Graphserv)
      → find id app.core_instances ≡ some core
      → IsSafe env app
      → core.instance_id ≡ id
  own_id id core app f s =
      found-All (λ p. p.1.instance_id ≡ p.0) id core app.core_instances s.cores.keyed f

  pub put_core-found :
      (id : ℕ) (core core' : CoreInstance) (app : Graphserv)
      → find id app.core_instances ≡ some core
      → core'.instance_id ≡ id
      → find id (put_core_instance core' app).core_instances ≡ some core'
  unfolding put_core_instance
  put_core-found id core core' app f own = found_at core'.instance_id own
    where
      found_at : (n : ℕ) → n ≡ id → find id (update n core' app.core_instances) ≡ some core'
      found_at n e =
          rw (e, find-update id id core' core app.core_instances f, (==_iff id id).1 refl) refl

  core_byte-IsSafe :
      (b id : ℕ) (core : CoreInstance) (app : Graphserv)
      → find id app.core_instances ≡ some core
      → IsSafe env app
      → Post (IsSafe env) (core_byte env b core app)
  unfolding core_byte
  core_byte-IsSafe b id core app f s = elim (Bool-cases (b == 13)) [
    | inl e ↦ rw e s
    | inr e ↦ elim (Bool-cases (b == 10)) [
      | inr n ↦ rw (e, n) buffered
      | inl n ↦
          rw (e, n)
            (core_line-IsSafe id longer (put_core_instance longer app)
              (put_core-found id core longer app f (own_id id core app f s)) buffered)
    ]
  ]
    where
      longer : CoreInstance
      longer = record core { linebuf = core.linebuf ++ b ∷ [] }

      buffered : IsSafe env (put_core_instance longer app)
      buffered =
          put_core-IsSafe env {level = access_admin} id core longer app f
            (linebuf-Continues env access_admin _ core) s

  pub core_bytes-IsSafe :
      (id : ℕ) (b : Text) (app : Graphserv)
      → IsSafe env app
      → Post (IsSafe env) (core_bytes env id b app)
  unfolding core_bytes
  core_bytes-IsSafe id [] app s = s
  core_bytes-IsSafe id (b ∷ rest) app s = elim (Option-cases (find id app.core_instances)) [
    | inl e ↦ rw (core_bytes, e) s
    | inr (core, e) ↦
        rw (core_bytes, e)
          (bind-Post (IsSafe env) (IsSafe env) (core_byte env b core app) _
            (core_byte-IsSafe b id core app e s) (λ app₁ s₁. core_bytes-IsSafe id rest app₁ s₁))
  ]

  -- of a pair of the server and something else
  abbrev pub FirstIsSafe : {A : Type 0} → Graphserv × A → Type 0
  FirstIsSafe x = IsSafe env x.0

  core_readable-IsSafe :
      (r : Received) (core : CoreInstance) (app : Graphserv)
      → IsSafe env app
      → Post FirstIsSafe (core_readable env r core app)
  unfolding core_readable
  core_readable-IsSafe closed core app s = s
  core_readable-IsSafe io_error core app s = s
  core_readable-IsSafe (bytes b) core app s =
      bind-Post (IsSafe env) FirstIsSafe (core_bytes env core.instance_id b app) _
        (core_bytes-IsSafe core.instance_id b app s) (λ app₁ s₁. s₁)

  read_core-IsSafe :
      (r : Option Received) (id : ℕ) (gone : List CoreInstance) (app : Graphserv)
      → IsSafe env app
      → Post FirstIsSafe (read_core env r id gone app)
  unfolding read_core
  read_core-IsSafe none id gone app s = s
  read_core-IsSafe (some r) id gone app s = elim (Option-cases (find id app.core_instances)) [
    | inl e ↦ rw (read_core, e) s
    | inr (core, e) ↦
        rw (read_core, e)
          (bind-Post FirstIsSafe FirstIsSafe (core_readable env r core app) _
            (core_readable-IsSafe r core app s) (λ x s₁. s₁))
  ]

  pub write_core-IsSafe :
      (b : Bool) (id : ℕ) (app : Graphserv) → IsSafe env app → IsSafe env (write_core env b id app)
  unfolding write_core
  write_core-IsSafe false id app s = s
  write_core-IsSafe true id app s = elim (Option-cases (find id app.core_instances)) [
    | inl e ↦ rw (write_core, e) s
    | inr (core, e) ↦
        rw (write_core, e)
          (put_core-IsSafe env {level = access_admin} id core _ app e
            (drain-Continues env access_admin core) s)
  ]

  pub core_pass-IsSafe :
      (io : Ready) (ids : List ℕ) (gone : List CoreInstance) (app : Graphserv)
      → IsSafe env app
      → Post FirstIsSafe (core_pass env io ids gone app)
  unfolding core_pass
  core_pass-IsSafe io [] gone app s = s
  core_pass-IsSafe io (id ∷ rest) gone app s =
      bind-Post FirstIsSafe FirstIsSafe (read_core env (io.core_reads id) id gone app) _
        (read_core-IsSafe (io.core_reads id) id gone app s)
        (λ r s₁. core_pass-IsSafe io rest r.1 _ (write_core-IsSafe (io.core_writes id) id r.0 s₁))

  pub remove_cores-IsSafe :
      (gone : List CoreInstance) (app : Graphserv)
      → IsSafe env app
      → IsSafe env (remove_cores env gone app)
  unfolding remove_cores remove_core_instance
  remove_cores-IsSafe [] app s = s
  remove_cores-IsSafe (core ∷ rest) app s = remove_cores-IsSafe rest _ (record {
    cores = erase-AreValid env core.instance_id app.core_instances s.cores;
    sessions = s.sessions;
    ordered = s.ordered;
    table = s.table;
  })
