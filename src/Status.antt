-- ===== src/Status.antt =====
-- The status codes of src/const.h and getStatusCode of src/utils.h. A code is its value as an int.
use graphserv.Prelude.{
  ℕ, zero, suc, ◌+◌, ◌<◌, ◌≤◌, ◌≡◌, ◌≢◌, ◌⊎◌, inl, inr, false, Bool-cases, Text, List, [], ◌∷◌,
  ◌++◌, length, arith, if◌then◌else◌, same_text, same_text-eq, same_text_refl,
}
use graphserv.External.{Env}

module _ (env : Env) where
  -- the two codes that CommandStatus has after those of the core
  unfoldable pub cmd_access_denied : ℕ
  cmd_access_denied = env.core_status_count

  unfoldable pub cmd_not_found : ℕ
  cmd_not_found = suc env.core_status_count

  unfoldable pub status_msgs : List Text
  status_msgs = env.core_status_strings ++ env.denied_str ∷ env.fail_str ∷ []

  -- the loop of getStatusCode from index i on
  status_loop : ℕ → Text → List Text → ℕ
  status_loop i msg [] = env.cmd_failure
  status_loop i msg (s ∷ rest) = if same_text s msg then i else status_loop (suc i) msg rest

  unfoldable pub get_status_code : Text → ℕ
  unfolding status_loop status_msgs
  get_status_code msg = status_loop 0 msg status_msgs

  -- Where a text stands in a list first.
  pub data FirstAt (msg : Text) : List Text → ℕ → Type 0 where
    here : (rest : List Text) → FirstAt msg (msg ∷ rest) zero
    there :
        {s : Text} {rest : List Text} {i : ℕ}
        → s ≢ msg
        → FirstAt msg rest i
        → FirstAt msg (s ∷ rest) (suc i)

  status_loop-FirstAt :
      (msg : Text) (k : ℕ) {ss : List Text} {i : ℕ}
      → FirstAt msg ss i
      → status_loop k msg ss ≡ k + i
  unfolding status_loop
  status_loop-FirstAt m k (here rest) = rw (same_text_refl m) (omega arith)
  status_loop-FirstAt m k (there {s = s} {i = i} ne at) = elim (Bool-cases (same_text s m)) [
    | inl e ↦ absurd (ne (same_text-eq s m e))
    | inr e ↦ rw e (omega (arith, status_loop-FirstAt m (suc k) at))
  ]

  -- A status string that `statusMsgs` lists has the index of its first entry as its code.
  pub get_status_code-FirstAt :
      {msg : Text} {i : ℕ} → FirstAt msg status_msgs i → get_status_code msg ≡ i
  unfolding get_status_code
  get_status_code-FirstAt {msg} at = omega (arith, status_loop-FirstAt msg 0 at)

  FirstAt-append :
      {msg : Text} {i : ℕ} {xs : List Text} (ys : List Text)
      → FirstAt msg xs i
      → FirstAt msg (xs ++ ys) i
  FirstAt-append ys (here rest) = here (rest ++ ys)
  FirstAt-append ys (there ne at) = there ne (FirstAt-append ys at)

  FirstAt-lt : {msg : Text} {i : ℕ} {xs : List Text} → FirstAt msg xs i → i < length xs
  FirstAt-lt (here rest) = omega arith
  FirstAt-lt (there ne at) = omega (arith, FirstAt-lt at)

  -- A core's status string has the same code in `statusMsgs` as among the core's own strings.
  pub get_status_code-core :
      {msg : Text} {i : ℕ} → FirstAt msg env.core_status_strings i → get_status_code msg ≡ i
  get_status_code-core at =
      get_status_code-FirstAt
        (unfold status_msgs in FirstAt-append (env.denied_str ∷ env.fail_str ∷ []) at)

  status_loop-other :
      (k : ℕ) (msg d f : Text) (xs : List Text)
      → same_text f msg ≡ false
      → (status_loop k msg (xs ++ d ∷ f ∷ []) ≤ k + length xs)
        ⊎ (status_loop k msg (xs ++ d ∷ f ∷ []) ≡ env.cmd_failure)
  unfolding status_loop
  status_loop-other k msg d f [] h = ground arith
  status_loop-other k msg d f (x ∷ xs) h = ground (arith, status_loop-other (suc k) msg d f xs h)

  -- If FAIL_STR is one of the core's status strings, there are as many core codes as strings, and
  -- CMD_FAILURE is a core code, then getStatusCode never answers CMD_NOT_FOUND: the last entry of
  -- `statusMsgs` is never reached.
  pub get_status_code-ne-cmd_not_found :
      (msg : Text) {i : ℕ}
      → length env.core_status_strings ≡ env.core_status_count
      → env.cmd_failure < env.core_status_count
      → FirstAt env.fail_str env.core_status_strings i
      → get_status_code msg ≢ cmd_not_found
  get_status_code-ne-cmd_not_found msg n c at = elim (Bool-cases (same_text env.fail_str msg)) [
    | inl e ↦
        rw (← same_text-eq env.fail_str msg e, get_status_code-core at)
          (unfold cmd_not_found in λ h. omega (arith, FirstAt-lt at))
    | inr e ↦
        unfold cmd_not_found get_status_code status_msgs in
        λ h.
          omega
            (arith, status_loop-other 0 msg env.denied_str env.fail_str env.core_status_strings e)
  ]
