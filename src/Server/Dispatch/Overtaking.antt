-- ===== src/Server/Dispatch/Overtaking.antt =====
-- A queued line that begins a data set: what becomes of the lines behind it (src/servapp.h).
use graphserv.Prelude.{
  ℕ, zero, suc, ◌≡◌, refl, ap, ◌∙◌, inl, inr, Bool, true, false, Text, List, [], ◌∷◌, none, some,
  is_empty, length,
}
use graphserv.External.{Env}
use graphserv.Outcome.{ok, ◌>>=◌}
use graphserv.Core.Entry.{CommandQEntry, new_entry, flushable, append_to_dataset}
use graphserv.Server.{Ctx, is_waiting_for_core_reply}
use graphserv.Server.Reply.{lacks_newline}
use graphserv.Server.Dispatch.{
  line_from_client, command_line, set_command, count_line, pop_line, next_line, replay_loop,
  replay_lines,
}
use graphserv.Server.Dispatch.Replay.{
  replay_loop-continues, replay_loop-stops, next_line-cases, queued_line-command_line,
  pop_line-tail, not_waiting-none,
}

module _ (env : Env) where
  replay_loop-waits :
      (rounds : ℕ) (c : Ctx) → is_waiting_for_core_reply c ≡ true → replay_loop env rounds c ≡ ok c
  unfolding replay_loop
  replay_loop-waits zero c w = refl
  replay_loop-waits (suc rounds) c w =
      elim (next_line-cases env c.sc.line_queue (is_waiting_for_core_reply c)) [
        | inl (n, why) ↦ replay_loop-stops env rounds c n
        | inr (line, q, n, e, w') ↦ cc
      ]

  -- the session once a queued line has begun a data set
  begun : Text → Ctx → Ctx
  unfolding set_command count_line
  begun line c =
      set_command (some (new_entry env c.sc.client_id line c.app.now)) (count_line line c)

  queued_line-begun :
      (line : Text) (c : Ctx)
      → lacks_newline line ≡ false
      → c.sc.cur_command ≡ none
      → env.line_indicates_dataset line ≡ true
      → line_from_client env true line c ≡ ok (begun line c)
  unfolding line_from_client flushable new_entry begun
  queued_line-begun line c nl h d =
      rw (line_from_client, nl)
        (queued_line-command_line env line (count_line line c) h
          ∙ rw (command_line, flushable, new_entry, d) refl)

  next_line-front :
      (line : Text) (q : List Text) (w : Bool) → w ≡ false → next_line env (line ∷ q) w ≡ some line
  unfolding next_line
  next_line-front line q w e = rw e

  begun-waiting :
      (line : Text) (c : Ctx) → is_waiting_for_core_reply (pop_line env (begun line c)) ≡ true
  unfolding is_waiting_for_core_reply pop_line begun
  begun-waiting line c = refl

  -- The first queued line is executed and begins a data set: the replay ends there.
  replay_lines-begun :
      (line : Text) (q : List Text) (c : Ctx)
      → lacks_newline line ≡ false
      → c.sc.line_queue ≡ line ∷ q
      → is_waiting_for_core_reply c ≡ false
      → env.line_indicates_dataset line ≡ true
      → replay_lines env c ≡ ok (pop_line env (begun line c))
  unfolding replay_lines
  replay_lines-begun line q c nl e w d =
      ap (λ l. replay_loop env (length l) c) e
      ∙ replay_loop-continues env (length q) line c
          (ap (λ l. next_line env l (is_waiting_for_core_reply c)) e ∙ next_line-front line q _ w)
      ∙ ap (λ r. r >>= λ c₁. replay_loop env (length q) (pop_line env c₁))
          (queued_line-begun line c nl (not_waiting-none c w) d)
      ∙ replay_loop-waits (length q) (pop_line env (begun line c)) (begun-waiting line c)

  -- A data set with one line that does not end it.
  pub record Overtaken (line next : Text) (q : List Text) (c : Ctx) : Type 0 where
    pub entry : CommandQEntry
    pub transfers : c.sc.cur_command ≡ some entry
    pub command_eq : entry.command ≡ line
    pub dataset_eq : entry.dataset ≡ next ∷ []
    pub still_queued : c.sc.line_queue ≡ q

  -- the session once the next line has joined the data set
  overtaken : Text → Text → Ctx → Ctx
  unfolding set_command count_line pop_line begun
  overtaken line next c =
      set_command (some (append_to_dataset env next (new_entry env c.sc.client_id line c.app.now)))
        (count_line next (pop_line env (begun line c)))

  next_line-overtakes :
      (line next : Text) (c : Ctx)
      → lacks_newline next ≡ false
      → is_empty (env.split_string next) ≡ false
      → env.line_indicates_dataset line ≡ true
      → line_from_client env false next (pop_line env (begun line c)) ≡ ok (overtaken line next c)
  unfolding line_from_client overtaken new_entry append_to_dataset flushable
  next_line-overtakes line next c nl more d =
      rw (line_from_client, nl, d, append_to_dataset, more, flushable) refl

  overtaken-Overtaken :
      (line next : Text) (q : List Text) (c : Ctx)
      → is_empty (env.split_string next) ≡ false
      → c.sc.line_queue ≡ line ∷ q
      → env.line_indicates_dataset line ≡ true
      → Overtaken line next q (overtaken line next c)
  unfolding overtaken append_to_dataset new_entry
  overtaken-Overtaken line next q c more e d = record {
    entry = append_to_dataset env next (new_entry env c.sc.client_id line c.app.now);
    transfers = refl;
    command_eq = rw d;
    dataset_eq = rw d;
    still_queued = pop_line-tail env line q c e;
  }

  -- If the first queued line is executed and begins a data set, then the replay ends there, the lines
  -- behind it stay in the queue, and the line that the client sends next, which is not blank, is taken
  -- for the data set before them.
  pub replay_lines-Overtaken :
      (line next : Text) (q : List Text) (c : Ctx)
      → lacks_newline line ≡ false
      → lacks_newline next ≡ false
      → is_empty (env.split_string next) ≡ false
      → c.sc.line_queue ≡ line ∷ q
      → is_waiting_for_core_reply c ≡ false
      → env.line_indicates_dataset line ≡ true
      → (c' : Ctx) × ((replay_lines env c >>= λ c₁. line_from_client env false next c₁) ≡ ok c')
        × Overtaken line next q c'
  replay_lines-Overtaken line next q c nl nl' more e w d = (
    overtaken line next c,
    ap (λ r. r >>= λ c₁. line_from_client env false next c₁) (replay_lines-begun line q c nl e w d)
        ∙ next_line-overtakes line next c nl' more d,
    overtaken-Overtaken line next q c more e d,
  )
