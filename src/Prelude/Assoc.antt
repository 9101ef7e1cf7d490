-- ===== src/Prelude/Assoc.antt =====
-- std::map and std::set with uint32_t keys, and std::map with string keys, as association lists.
use mathlib.Core.Path.{◌≡◌, refl, ap}
use Prim.Native.Nat.{ℕ}
use mathlib.Core.Bool.{Bool, true, false}
use mathlib.Core.List.{List, [], ◌∷◌}
use mathlib.Core.Option.{Option, none, some}
use native.Mathlib.Omega.{arith}
use mathlib.Core.Logic.{inl, inr}
use graphserv.Prelude.Tests.{◌==◌, ltb, Bool-cases, if◌then◌else◌}
use graphserv.Prelude.Lists.{Text, same_text, same_text-eq, same_text_comm}

module _ {ℓ} {V : Type ℓ} where
  -- find(key)
  unfoldable pub find : ℕ → List (ℕ × V) → Option V
  find k [] = none
  find k ((j, v) ∷ m) = if j == k then some v else find k m

  -- insert(pair(key, value)): the keys stay in ascending order, and an entry that is there stays.
  unfoldable pub insert : ℕ → V → List (ℕ × V) → List (ℕ × V)
  insert k v [] = (k, v) ∷ []
  insert k v ((j, w) ∷ m) =
      if k == j then (j, w) ∷ m else if ltb k j then (k, v) ∷ (j, w) ∷ m else (j, w) ∷ insert k v m

  -- A write through the pointer that the map holds under the key.
  unfoldable pub update : ℕ → V → List (ℕ × V) → List (ℕ × V)
  update k v [] = []
  update k v ((j, w) ∷ m) = if j == k then (j, v) ∷ m else (j, w) ∷ update k v m

  -- erase(key)
  unfoldable pub erase : ℕ → List (ℕ × V) → List (ℕ × V)
  erase k [] = []
  erase k ((j, w) ∷ m) = if j == k then erase k m else (j, w) ∷ erase k m

  pub find-update :
      (k i : ℕ) (v w : V) (m : List (ℕ × V))
      → find k m ≡ some w
      → find i (update k v m) ≡ (if i == k then some v else find i m)
  unfolding find update
  find-update k i v w [] h = cc
  find-update k i v w ((j, x) ∷ m) h = elim (Bool-cases (j == k)) [
    | inl e ↦ rw e (ground arith)
    | inr e ↦ rw e (ground (arith, find-update k i v w m))
  ]

  pub find-update_other :
      (k i : ℕ) (v : V) (m : List (ℕ × V)) → (i == k) ≡ false → find i (update k v m) ≡ find i m
  unfolding find update
  find-update_other k i v [] h = refl
  find-update_other k i v ((j, x) ∷ m) h = elim (Bool-cases (j == k)) [
    | inl e ↦ rw e (ground arith)
    | inr e ↦ rw e (ground (arith, find-update_other k i v m h))
  ]

  pub find-erase :
      (k i : ℕ) (m : List (ℕ × V)) → find i (erase k m) ≡ (if i == k then none else find i m)
  unfolding find erase
  find-erase k i [] = ground arith
  find-erase k i ((j, x) ∷ m) = elim (Bool-cases (j == k)) [
    | inl e ↦ rw e (ground (arith, find-erase k i m))
    | inr e ↦ rw e (ground (arith, find-erase k i m))
  ]

-- count(key) of a set
unfoldable pub member : ℕ → List ℕ → Bool
member k [] = false
member k (j ∷ s) = if j == k then true else member k s

-- insert(key) of a set
unfoldable pub add : ℕ → List ℕ → List ℕ
unfolding member
add k s = if member k s then s else k ∷ s

pub member-add : (k i : ℕ) (s : List ℕ) → member i (add k s) ≡ (if k == i then true else member i s)
unfolding member add
member-add k i s = ground (arith, same)
  where
    same : (k == i) ≡ true → member i s ≡ member k s
    same h = ap (λ (n : ℕ). member n s) (ground arith)

module _ {ℓ} {V : Type ℓ} where
  -- find(name) in a map with string keys
  unfoldable pub lookup : Text → List (Text × V) → Option V
  lookup k [] = none
  lookup k ((j, v) ∷ m) = if same_text j k then some v else lookup k m

  -- m[name] = value
  unfoldable pub put : Text → V → List (Text × V) → List (Text × V)
  put k v [] = (k, v) ∷ []
  put k v ((j, w) ∷ m) = if same_text j k then (j, v) ∷ m else (j, w) ∷ put k v m

  pub lookup-put :
      (k u : Text) (v : V) (m : List (Text × V))
      → lookup u (put k v m) ≡ (if same_text k u then some v else lookup u m)
  unfolding lookup put
  lookup-put k u v [] = refl
  lookup-put k u v ((j, w) ∷ m) = elim (Bool-cases (same_text j k)) [
    | inl e ↦ rw (e, ← same_text-eq j k e) (same (same_text j u))
    | inr e ↦ elim (Bool-cases (same_text j u)) [
      | inl p ↦ rw (e, lookup, p) (rw (← same_text-eq j u p, same_text_comm j k e))
      | inr p ↦ rw (e, lookup, p) (lookup-put k u v m)
    ]
  ]
    where
      same :
          (b : Bool)
          → (if b then some v else lookup u m)
            ≡ (if b then some v else if b then some w else lookup u m)
      same true = refl
      same false = refl
