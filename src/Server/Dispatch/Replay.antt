-- ===== src/Server/Dispatch/Replay.antt =====
-- The loop of src/servapp.h that executes the queued lines of a client.
use graphserv.Prelude.{
  sym, subst, ℕ, zero, suc, ◌≡◌, ◌≤◌, refl, ap, ◌∙◌, ◌⊎◌, inl, inr, if◌then◌else◌, Bool, true,
  false, Bool-cases, Option-cases, Text, List, [], ◌∷◌, ◌++◌, none, some, length, arith,
}
use graphserv.External.{Env}
use graphserv.Outcome.{>>=-eq-ok, Post, Post-map, Post-ok, ok, ◌>>=◌}
use graphserv.Core.Entry.{new_entry, flushable}
use graphserv.Server.{Ctx, is_waiting_for_core_reply}
use graphserv.Server.Reply.{lacks_newline}
use graphserv.Server.Processed.Words.{process_command-Processed}
use graphserv.Server.Dispatch.{
  line_from_client, take_client_line, command_line, process_command, set_command, count_line,
  pop_line, next_line, replay_loop, replay_lines,
}

pub not_waiting-none : (c : Ctx) → is_waiting_for_core_reply c ≡ false → c.sc.cur_command ≡ none
unfolding is_waiting_for_core_reply
not_waiting-none c e = elim (Option-cases c.sc.cur_command) [
  | inl none_yet ↦ none_yet
  | inr (ce, f) ↦ let p : true ≡ false = rw (is_waiting_for_core_reply, f) at e in cc
]

List-cases : (xs : List Text) → (xs ≡ []) ⊎ ((x : Text) × (ys : List Text) × (xs ≡ x ∷ ys))
List-cases [] = inl refl
List-cases (x ∷ xs) = inr (x, xs, refl)

abbrev pub SameQueue : Ctx → Ctx → Type 0
SameQueue c c' = c'.sc.line_queue ≡ c.sc.line_queue

-- The lines are executed one behind the other, each one from the front of the queue while the client
-- waits for nothing; it leaves the queue when its execution has returned.
pub data Executes (env : Env) : List Text → Ctx → Ctx → Type 0 where
  nothing : {c : Ctx} → Executes env [] c c
  next :
      {lines : List Text} {c c' : Ctx} (line : Text) (q : List Text) (c₁ : Ctx)
      → c.sc.line_queue ≡ line ∷ q
      → is_waiting_for_core_reply c ≡ false
      → line_from_client env true line c ≡ ok c₁
      → Executes env lines (record c₁ { sc = record c₁.sc { line_queue = q } }) c'
      → Executes env (line ∷ lines) c c'

-- The lines of c that are gone are the first ones, they have been executed, and there is a reason to
-- go no further.
pub record Drained (env : Env) (c c' : Ctx) : Type 0 where
  pub executed : List Text
  pub in_order : c.sc.line_queue ≡ executed ++ c'.sc.line_queue
  pub executes : Executes env executed c c'
  pub stopped : (c'.sc.line_queue ≡ []) ⊎ (is_waiting_for_core_reply c' ≡ true)

module _ (env : Env) where
  command_line-SameQueue : (line : Text) (c : Ctx) → Post (SameQueue c) (command_line env line c)
  unfolding command_line set_command
  command_line-SameQueue line c =
      let ce = new_entry env c.sc.client_id line c.app.now in
      elim (Bool-cases (flushable ce)) [
        | inl e ↦ rw e (
            Post-map _ _ (process_command env ce c) (λ x p. p.same_queue)
              (process_command-Processed env ce c))
        | inr e ↦ rw e
      ]

  pub queued_line-command_line :
      (line : Text) (c : Ctx)
      → c.sc.cur_command ≡ none
      → take_client_line env true line c ≡ command_line env line c
  unfolding take_client_line
  queued_line-command_line line c h = rw h refl

  -- A line from the queue never joins it if no command is being transferred.
  queued_line-SameQueue :
      (line : Text) (c : Ctx)
      → c.sc.cur_command ≡ none
      → Post (SameQueue c) (line_from_client env true line c)
  unfolding line_from_client count_line
  queued_line-SameQueue line c h =
      let whole = if lacks_newline line then line ++ 10 ∷ [] else line in
      rw (queued_line-command_line whole (count_line whole c) h)
        (command_line-SameQueue whole (count_line whole c))

  pub pop_line-tail :
      (line : Text) (q : List Text) (c : Ctx)
      → c.sc.line_queue ≡ line ∷ q
      → (pop_line env c).sc.line_queue ≡ q
  unfolding pop_line
  pop_line-tail line q c e = rw e

  pop_line-front :
      (line : Text) (q : List Text) (c : Ctx)
      → c.sc.line_queue ≡ line ∷ q
      → pop_line env c ≡ record c { sc = record c.sc { line_queue = q } }
  unfolding pop_line
  pop_line-front line q c e =
      ap (λ l. record c { sc = record c.sc { line_queue = elim l [ [] ↦ [] | x ∷ rest ↦ rest ] } })
        e

  popped-Drained :
      (line : Text) (q : List Text) (c c₁ c' : Ctx)
      → c.sc.line_queue ≡ line ∷ q
      → is_waiting_for_core_reply c ≡ false
      → line_from_client env true line c ≡ ok c₁
      → Drained env (record c₁ { sc = record c₁.sc { line_queue = q } }) c'
      → Drained env c c'
  popped-Drained line q c c₁ c' front w done d = record {
    executed = line ∷ d.executed;
    in_order = front ∙ ap (◌∷◌ line) d.in_order;
    executes = Executes.next line q c₁ front w done d.executes;
    stopped = d.stopped;
  }

  pub next_line-cases :
      (q : List Text) (w : Bool)
      → ((next_line env q w ≡ none) × ((q ≡ []) ⊎ (w ≡ true)))
        ⊎ ((line : Text) × (rest : List Text) × (next_line env q w ≡ some line)
            × (q ≡ line ∷ rest)
            × (w ≡ false))
  unfolding next_line
  next_line-cases [] w = inl (refl, inl refl)
  next_line-cases (line ∷ q) true = inl (refl, inr refl)
  next_line-cases (line ∷ q) false = inr (line, q, refl, refl, refl)

  pub replay_loop-stops :
      (rounds : ℕ) (c : Ctx)
      → next_line env c.sc.line_queue (is_waiting_for_core_reply c) ≡ none
      → replay_loop env (suc rounds) c ≡ ok c
  unfolding replay_loop
  replay_loop-stops rounds c n = rw (replay_loop, n)

  pub replay_loop-continues :
      (rounds : ℕ) (line : Text) (c : Ctx)
      → next_line env c.sc.line_queue (is_waiting_for_core_reply c) ≡ some line
      → replay_loop env (suc rounds) c
        ≡ (line_from_client env true line c >>= λ c₁. replay_loop env rounds (pop_line env c₁))
  unfolding replay_loop
  replay_loop-continues rounds line c n = rw (replay_loop, n)

  -- nothing is executed of an empty queue
  pub replay-nothing :
      (rounds : ℕ) (c : Ctx) → c.sc.line_queue ≡ [] → replay_loop env rounds c ≡ ok c
  unfolding replay_loop next_line
  replay-nothing zero c e = refl
  replay-nothing (suc rounds) c e =
      replay_loop-stops rounds c (ap (λ l. next_line env l (is_waiting_for_core_reply c)) e)

  replay_loop-Drained :
      (rounds : ℕ) (c c' : Ctx)
      → length c.sc.line_queue ≤ rounds
      → replay_loop env rounds c ≡ ok c'
      → Drained env c c'
  unfolding replay_loop
  replay_loop-Drained zero c c' h e = elim (List-cases c.sc.line_queue) [
    | inl none_left ↦
        let same : c ≡ c' = cc in
        subst (λ x. Drained env c x) same
          (record {
            executed = [];
            in_order = refl;
            executes = Executes.nothing;
            stopped = inl none_left;
          })
    | inr (line, q, front) ↦ let p : length (line ∷ q) ≤ 0 = rw front at h in ground arith
  ]
  replay_loop-Drained (suc rounds) c c' h e =
      elim (next_line-cases c.sc.line_queue (is_waiting_for_core_reply c)) [
        | inl (n, why) ↦
            let ended : ok c ≡ ok c' = rw (replay_loop-stops rounds c n) at e in
            let same : c ≡ c' = cc in
            subst (λ x. Drained env c x) same
              (record {
                executed = [];
                in_order = refl;
                executes = Executes.nothing;
                stopped = why;
              })
        | inr (line, q, n, front, w) ↦
            let bound : length q ≤ rounds =
              let p : length (line ∷ q) ≤ suc rounds = rw front at h in ground arith in
            let (c₁, done, rest) =
              >>=-eq-ok (line_from_client env true line c)
                (λ c₁. replay_loop env rounds (pop_line env c₁))
                (sym (replay_loop-continues rounds line c n) ∙ e) in
            let same : SameQueue c c₁ =
              Post-ok (SameQueue c) (line_from_client env true line c)
                (queued_line-SameQueue line c (not_waiting-none c w)) done in
            let popped = pop_line-front line q c₁ (same ∙ front) in
            popped-Drained line q c c₁ c' front w done (
              replay_loop-Drained rounds (record c₁ { sc = record c₁.sc { line_queue = q } }) c'
                bound (ap (replay_loop env rounds) (sym popped) ∙ rest))
      ]

  -- When the queued lines of a client are executed and that returns, the lines that are gone are the
  -- first ones, each of them has been executed in its turn, when it stood at the front and the client
  -- waited for nothing, and it stops only at an empty queue or when the client waits for a reply: the
  -- length of the queue is enough rounds for the loop.
  pub replay_lines-Drained : (c c' : Ctx) → replay_lines env c ≡ ok c' → Drained env c c'
  unfolding replay_lines
  replay_lines-Drained c c' e = replay_loop-Drained (length c.sc.line_queue) c c' (ground arith) e
