-- ===== src/Startup/Logging.antt =====
-- What the flags of the option -l select.
use graphserv.Prelude.{
  ℕ, ◌≡◌, ◌↔◌, ◌⊎◌, inl, inr, refl, sym, subst, ap, ◌∙◌, ◌==◌, ==_iff, if◌then◌else◌, Bool, true,
  false, ◌&&◌, ◌||◌, Bool-cases, Option-cases, Text, [], ◌∷◌, ◌++◌, none, some, contains, arith,
}
use graphserv.Startup.{
  LogLevel, log_info, log_error, log_auth, log_crit, LogMask, quiet_mask, logs, log_flag, log_flags,
}

-- All flags are known.
unfoldable pub are_known : Text → Bool
are_known [] = true
are_known (c ∷ rest) = (c == b'i' || c == b'e' || c == b'a' || c == b'q') && are_known rest

-- the flags behind the last q
unfoldable pub behind_quiet : Text → Text
behind_quiet [] = []
behind_quiet (c ∷ rest) =
    if contains b'q' rest then behind_quiet rest else if c == b'q' then rest else c ∷ rest

-- the bits of flags without a q, on top of a mask or of none
unfoldable pub select : Bool → Text → LogMask → LogMask
select quiet flags mask =
    let begin = if quiet then quiet_mask else mask in
    record {
      info = contains b'i' flags || begin.info;
      error = contains b'i' flags || contains b'e' flags || begin.error;
      auth = contains b'a' flags || begin.auth;
    }

-- An independent description: the last q takes everything away, and each flag behind it adds its own.
unfoldable pub selected : Text → LogMask → LogMask
unfolding behind_quiet select
selected flags mask = select (contains b'q' flags) (behind_quiet flags) mask

contains-step : (x c : ℕ) (rest : Text) → contains x (c ∷ rest) ≡ ((c == x) || contains x rest)
unfolding contains
contains-step x c rest = elim (Bool-cases (c == x)) [
  | inl e ↦ rw (contains, e) refl
  | inr e ↦ rw (contains, e) refl
]

behind_quiet-same : (flags : Text) → contains b'q' flags ≡ false → behind_quiet flags ≡ flags
unfolding behind_quiet
behind_quiet-same [] h = refl
behind_quiet-same (c ∷ rest) h =
    let both : ((c == b'q') || contains b'q' rest) ≡ false = rw (← contains-step b'q' c rest) h in
    let here : (c == b'q') ≡ false = ground arith in
    let later : contains b'q' rest ≡ false = ground arith in rw (later, here) refl

or_true : (x : Bool) → (x || true) ≡ true
or_true true = refl
or_true false = refl

abbrev mask_of : Bool → Bool → Bool → LogMask
mask_of i e a = record { info = i; error = e; auth = a }

masks : {i i' e e' a a' : Bool} → i ≡ i' → e ≡ e' → a ≡ a' → mask_of i e a ≡ mask_of i' e' a'
masks p q r = λ k. mask_of (p k) (q k) (r k)

-- the flags at the start of a text without a q
add-i :
    (rest : Text) (mask m : LogMask)
    → log_flag b'i' mask ≡ some m
    → select false (b'i' ∷ rest) mask ≡ select false rest m
unfolding log_flag select contains
add-i rest mask m e =
    let same : record mask { info = true; error = true } ≡ m = cc in
    rw (← same) (
      masks (sym (or_true (contains b'i' rest)))
        (sym (or_true (contains b'i' rest || contains b'e' rest))) refl)

add-e :
    (rest : Text) (mask m : LogMask)
    → log_flag b'e' mask ≡ some m
    → select false (b'e' ∷ rest) mask ≡ select false rest m
unfolding log_flag select contains
add-e rest mask m e =
    let same : record mask { error = true } ≡ m = cc in
    rw (← same) (
      masks refl
        (ap (λ b. b || mask.error) (or_true (contains b'i' rest))
          ∙ sym (or_true (contains b'i' rest || contains b'e' rest)))
        refl)

add-a :
    (rest : Text) (mask m : LogMask)
    → log_flag b'a' mask ≡ some m
    → select false (b'a' ∷ rest) mask ≡ select false rest m
unfolding log_flag select contains
add-a rest mask m e =
    let same : record mask { auth = true } ≡ m = cc in
    rw (← same) (masks refl refl (sym (or_true (contains b'a' rest))))

-- what a statement says at the flag that a test has found
at_flag : (P : ℕ → Type 0) (c flag : ℕ) → (c == flag) ≡ true → P flag → P c
at_flag P c flag e p = subst P (sym ((==_iff c flag).0 e)) p

add-select :
    (c : ℕ) (rest : Text) (mask m : LogMask)
    → (c == b'q') ≡ false
    → log_flag c mask ≡ some m
    → select false (c ∷ rest) mask ≡ select false rest m
unfolding log_flag
add-select c rest mask m nq e = elim (Bool-cases (c == b'i')) [
  | inl i ↦ at_flag Adds c b'i' i (add-i rest mask m) e
  | inr i ↦ elim (Bool-cases (c == b'e')) [
    | inl f ↦ at_flag Adds c b'e' f (add-e rest mask m) e
    | inr f ↦ elim (Bool-cases (c == b'a')) [
      | inl g ↦ at_flag Adds c b'a' g (add-a rest mask m) e
      | inr g ↦ let q : none ≡ some m = rw (log_flag, i, f, g, nq) at e in cc
    ]
  ]
]
  where
    Adds : ℕ → Type 0
    Adds x = log_flag x mask ≡ some m → select false (x ∷ rest) mask ≡ select false rest m

selected-step :
    (c : ℕ) (rest : Text) (mask m : LogMask)
    → log_flag c mask ≡ some m
    → selected (c ∷ rest) mask ≡ selected rest m
unfolding selected behind_quiet
selected-step c rest mask m e = elim (Bool-cases (contains b'q' rest)) [
  | inl q ↦
      let all : contains b'q' (c ∷ rest) ≡ true = contains-step b'q' c rest ∙ ground (arith, q) in
      rw (all, q) (unfold select in refl)
  | inr q ↦ elim (Bool-cases (c == b'q')) [
    | inl s ↦
        let all : contains b'q' (c ∷ rest) ≡ true = contains-step b'q' c rest ∙ ground (arith, s) in
        rw (all, q, s, behind_quiet-same rest q) (quiet c s e)
    | inr s ↦
        let all : contains b'q' (c ∷ rest) ≡ false =
          contains-step b'q' c rest ∙ ground (arith, s, q) in
        rw (all, q, s, behind_quiet-same rest q) (add-select c rest mask m s e)
  ]
]
  where
    quiet :
        (x : ℕ)
        → (x == b'q') ≡ true
        → log_flag x mask ≡ some m
        → select true rest mask ≡ select false rest m
    quiet x s f =
        at_flag (λ y. log_flag y mask ≡ some m → select true rest mask ≡ select false rest m) x b'q'
          s
          (unfold log_flag in
            unfold select in λ g. let same : quiet_mask ≡ m = cc in rw (← same) refl)
          f

log_flag-known :
    (c : ℕ) (mask : LogMask)
    → ((m : LogMask) × (log_flag c mask ≡ some m)
        × ((c == b'i' || c == b'e' || c == b'a' || c == b'q') ≡ true))
      ⊎ ((log_flag c mask ≡ none) × ((c == b'i' || c == b'e' || c == b'a' || c == b'q') ≡ false))
unfolding log_flag
log_flag-known c mask = elim (Bool-cases (c == b'i')) [
  | inl i ↦ rw i (inl (_, refl, refl))
  | inr i ↦ elim (Bool-cases (c == b'e')) [
    | inl e ↦ rw (i, e) (inl (_, refl, refl))
    | inr e ↦ elim (Bool-cases (c == b'a')) [
      | inl a ↦ rw (i, e, a) (inl (_, refl, refl))
      | inr a ↦ elim (Bool-cases (c == b'q')) [
        | inl q ↦ rw (i, e, a, q) (inl (_, refl, refl))
        | inr q ↦ rw (i, e, a, q) (inr (refl, refl))
      ]
    ]
  ]
]

-- The option -l is refused exactly if a flag is not one of i, e, a and q; otherwise only the flags
-- behind the last q count, on top of no output if there is a q and of the mask before if there is
-- none: i selects informational and error messages, e error messages, and a authentication messages.
pub log_flags-selected :
    (flags : Text) (mask : LogMask)
    → log_flags flags mask ≡ (if are_known flags then some (selected flags mask) else none)
unfolding log_flags are_known selected select behind_quiet contains
log_flags-selected [] mask = refl
log_flags-selected (c ∷ rest) mask = elim (log_flag-known c mask) [
  | inr (n, k) ↦ rw (log_flags, n, k) refl
  | inl (m, e, k) ↦
      rw (log_flags, e, k)
        (log_flags-selected rest m
          ∙ ap (λ s. if are_known rest then some s else none) (sym (selected-step c rest mask m e)))
]

pub log_flags-quiet :
    (flags : Text) (mask m : LogMask)
    → log_flags (flags ++ b'q' ∷ []) mask ≡ some m
    → m ≡ quiet_mask
unfolding log_flags log_flag
log_flags-quiet [] mask m e = cc
log_flags-quiet (c ∷ rest) mask m e = elim (Option-cases (log_flag c mask)) [
  | inl n ↦ let q : none ≡ some m = rw (log_flags, n) at e in cc
  | inr (m', n) ↦ log_flags-quiet rest m' m (rw (log_flags, n) at e)
]

-- Behind the flag q only critical messages are printed, whatever the flags before it: they are
-- printed still.
pub logs-quiet :
    (flags : Text) (mask m : LogMask) (level : LogLevel)
    → log_flags (flags ++ b'q' ∷ []) mask ≡ some m
    → (logs level m ≡ true) ↔ (level ≡ log_crit)
logs-quiet flags mask m level e = rw (log_flags-quiet flags mask m e) (at_level level)
  where
    at_level : (l : LogLevel) → (logs l quiet_mask ≡ true) ↔ (l ≡ log_crit)
    at_level log_info = unfold logs in ((λ h. cc), λ h. cc)
    at_level log_error = unfold logs in ((λ h. cc), λ h. cc)
    at_level log_auth = unfold logs in ((λ h. cc), λ h. cc)
    at_level log_crit = unfold logs in ((λ h. refl), λ h. refl)
