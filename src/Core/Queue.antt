-- ===== src/Core/Queue.antt =====
-- The command queue of a core: what one flush does, and whom the queue has data for.
use graphserv.Prelude.{
  ℕ, ◌≡◌, ◌↔◌, ◌⊎◌, inl, inr, refl, sym, ◌==◌, ==_iff, if◌then◌else◌, Bool, true, ◌&&◌, not,
  Bool-cases, Option-cases, List, [], ◌∷◌, none, some, arith,
}
use graphserv.External.{Env}
use graphserv.Core.{
  CoreInstance, flush_command_q, flush_loop, send, find_last_client_command, has_data_for_client,
}
use graphserv.Core.Entry.{CommandQEntry, flushable}

-- The core waits for nothing, so that a command may be sent to it.
abbrev pub is_idle : CoreInstance → Bool
is_idle core = not core.expecting_reply && not core.expecting_dataset

module _ (env : Env) where
  -- An independent description: the oldest command goes out if the core is idle and the command
  -- complete, and at most that one.
  unfoldable pub send_next : List CommandQEntry → CoreInstance → CoreInstance
  send_next [] core = core
  send_next (c ∷ rest) core =
      if is_idle core && flushable c then record (send env c core) { command_q = rest } else core

  flush_loop_busy :
      (q : List CommandQEntry) (core : CoreInstance)
      → core.expecting_reply ≡ true
      → flush_loop env q core ≡ record core { command_q = q }
  unfolding flush_loop
  flush_loop_busy [] core h = refl
  flush_loop_busy (c ∷ q) core h = rw h

  flush_loop-send_next :
      (q : List CommandQEntry) (core : CoreInstance)
      → core.command_q ≡ q
      → flush_loop env q core ≡ send_next q core
  unfolding flush_loop send_next
  flush_loop-send_next [] core h = ground arith
  flush_loop-send_next (c ∷ q) core h = elim (Bool-cases (is_idle core && flushable c)) [
    | inl go ↦ rw go (flush_loop_busy q (send env c core) (unfold send in refl))
    | inr stay ↦ rw stay (λ i. record core { command_q = sym h i })
  ]

  -- A flush of the queue sends the oldest command, whole, if the core is idle and the command is
  -- complete, and then waits for its reply; otherwise it changes nothing. It never sends two.
  pub flush_command_q-send_next :
      (core : CoreInstance) → flush_command_q env core ≡ send_next core.command_q core
  unfolding flush_command_q
  flush_command_q-send_next core = flush_loop-send_next core.command_q core refl

-- A command of the client is in the queue.
abbrev pub IsQueued : ℕ → List CommandQEntry → Type 0
IsQueued id [] = ⊥
IsQueued id (e ∷ q) = (e.client_id ≡ id) ⊎ IsQueued id q

-- The core has not finished the last command that it was sent.
abbrev pub IsBusy : CoreInstance → Type 0
IsBusy core = (core.expecting_reply ≡ true) ⊎ (core.expecting_dataset ≡ true)

find_last-none :
    (id : ℕ) (q : List CommandQEntry) → find_last_client_command id q ≡ none → ¬ IsQueued id q
unfolding find_last_client_command
find_last-none id [] h = λ w. w
find_last-none id (e ∷ q) h = elim (Option-cases (find_last_client_command id q)) [
  | inr (x, f) ↦ let p : some x ≡ none = rw (f, find_last_client_command) at h in cc
  | inl f ↦ elim (Bool-cases (e.client_id == id)) [
    | inl own ↦ let p : some e ≡ none = rw (f, find_last_client_command, own) at h in cc
    | inr no_own ↦ elim [ inl own ↦ ground arith | inr w ↦ find_last-none id q f w ]
  ]
]

find_last-some :
    (id : ℕ) (q : List CommandQEntry) (x : CommandQEntry)
    → find_last_client_command id q ≡ some x
    → IsQueued id q × (x.client_id ≡ id)
unfolding find_last_client_command
find_last-some id [] x h = cc
find_last-some id (e ∷ q) x h = elim (Option-cases (find_last_client_command id q)) [
  | inr (y, f) ↦
      let p : some y ≡ some x = rw (f, find_last_client_command) at h in
      let (w, own) = find_last-some id q y f in (inr w, cc)
  | inl f ↦ elim (Bool-cases (e.client_id == id)) [
    | inl own ↦
        let p : some e ≡ some x = rw (f, find_last_client_command, own) at h in
        let same : e.client_id ≡ id = (==_iff _ _).0 own in (inl same, cc)
    | inr no_own ↦ let p : none ≡ some x = rw (f, find_last_client_command, no_own) at h in cc
  ]
]

-- A core has data for a client exactly when it is still running the client's command or holds a
-- command of the client in its queue.
pub has_data_for_client_iff :
    (id : ℕ) (core : CoreInstance)
    → (has_data_for_client id core ≡ true)
      ↔ (((core.last_client_id ≡ id) × IsBusy core) ⊎ IsQueued id core.command_q)
unfolding has_data_for_client
has_data_for_client_iff id core = elim (Option-cases (find_last_client_command id core.command_q)) [
  | inl f ↦ let no_queued = find_last-none id core.command_q f in rw f (ground arith)
  | inr (x, f) ↦
      let (w, own) = find_last-some id core.command_q x f in
      ((λ _. inr w), λ _. rw f (ground arith))
]
