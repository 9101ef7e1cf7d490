-- ===== src/Prelude/Entries.antt =====
-- What holds of all entries, and of all pairs of entries, of a map, under the changes of the map.
use mathlib.Core.Path.{◌≡◌, ap}
use Prim.Native.Nat.{ℕ, ◌<◌}
use native.Mathlib.Omega.{arith}
use mathlib.Core.Bool.{true, false}
use mathlib.Core.List.{List, [], ◌∷◌}
use mathlib.Core.Option.{some}
use mathlib.Core.Logic.{◌⊎◌, inl, inr}
use graphserv.Prelude.Tests.{◌==◌, ==_iff, ltb, Bool-cases}
use graphserv.Prelude.Lists.{All}
use graphserv.Prelude.Assoc.{find, insert, update, erase}

module _ {ℓ κ} {V : Type ℓ} (P : ℕ × V → Type κ) where
  -- what holds of an entry that is found
  pub found-All : (id : ℕ) (v : V) (m : List (ℕ × V)) → All P m → find id m ≡ some v → P (id, v)
  unfolding find
  found-All id v [] h e = cc
  found-All id v ((j, w) ∷ m) h e = elim (Bool-cases (j == id)) [
    | inl s ↦
        let q : some w ≡ some v = rw (find, s) at e in
        let k : j ≡ id = (==_iff j id).0 s in let same : w ≡ v = cc in rw (← k, ← same) h.0
    | inr s ↦ found-All id v m h.1 (rw (find, s) at e)
  ]

  pub update-All : (id : ℕ) (v : V) (m : List (ℕ × V)) → All P m → P (id, v) → All P (update id v m)
  unfolding update
  update-All id v [] h p = tt
  update-All id v ((j, w) ∷ m) h p = elim (Bool-cases (j == id)) [
    | inl s ↦ let k : j ≡ id = (==_iff j id).0 s in rw (update, s) (rw k p, h.1)
    | inr s ↦ rw (update, s) (h.0, update-All id v m h.1 p)
  ]

  pub insert-All : (id : ℕ) (v : V) (m : List (ℕ × V)) → All P m → P (id, v) → All P (insert id v m)
  unfolding insert
  insert-All id v [] h p = (p, tt)
  insert-All id v ((j, w) ∷ m) h p = elim (Bool-cases (id == j)) [
    | inl s ↦ rw (insert, s) h
    | inr s ↦ elim (Bool-cases (ltb id j)) [
      | inl l ↦ rw (insert, s, l) (p, h)
      | inr l ↦ rw (insert, s, l) (h.0, insert-All id v m h.1 p)
    ]
  ]

  pub erase-All : (id : ℕ) (m : List (ℕ × V)) → All P m → All P (erase id m)
  unfolding erase
  erase-All id [] h = tt
  erase-All id ((j, w) ∷ m) h = elim (Bool-cases (j == id)) [
    | inl s ↦ rw (erase, s) (erase-All id m h.1)
    | inr s ↦ rw (erase, s) (h.0, erase-All id m h.1)
  ]

pub All-map_to {ℓ κ} :
    {A : Type ℓ} (P Q : A → Type κ) (xs : List A) → ((x : A) → P x → Q x) → All P xs → All Q xs
All-map_to P Q [] f h = tt
All-map_to P Q (x ∷ xs) f h = (f x h.0, All-map_to P Q xs f h.1)

-- The relation holds of every entry and every later one.
abbrev pub Pairwise {ℓ κ} : {A : Type ℓ} → (A → A → Type κ) → List A → Type κ
Pairwise R [] = Unit
Pairwise R (x ∷ xs) = All (R x) xs × Pairwise R xs

module _ {ℓ κ} {V : Type ℓ} (R : ℕ × V → ℕ × V → Type κ)
    (swap : (p q : ℕ × V) → R p q → R q p) where
  pub update-Pairwise :
      (id : ℕ) (v v' : V) (m : List (ℕ × V))
      → find id m ≡ some v
      → ((q : ℕ × V) → R (id, v) q → R (id, v') q)
      → Pairwise R m
      → Pairwise R (update id v' m)
  unfolding update find
  update-Pairwise id v v' [] e f h = tt
  update-Pairwise id v v' ((j, w) ∷ m) e f h = elim (Bool-cases (j == id)) [
    | inl s ↦
        let q : some w ≡ some v = rw (find, s) at e in
        let k : j ≡ id = (==_iff j id).0 s in
        let same : w ≡ v = cc in
        rw (update, s, k) (All-map_to (R (id, v)) (R (id, v')) m f (rw (k, same) at h.0), h.1)
    | inr s ↦
        let rest : find id m ≡ some v = rw (find, s) at e in
        let old = found-All (R (j, w)) id v m h.0 rest in
        rw (update, s)
          (
            update-All (R (j, w)) id v' m h.0 (swap _ _ (f (j, w) (swap _ _ old))),
            update-Pairwise id v v' m rest f h.1,
          )
  ]

  pub insert-Pairwise :
      (id : ℕ) (v : V) (m : List (ℕ × V))
      → All (R (id, v)) m
      → Pairwise R m
      → Pairwise R (insert id v m)
  unfolding insert
  insert-Pairwise id v [] n h = (tt, tt)
  insert-Pairwise id v ((j, w) ∷ m) n h = elim (Bool-cases (id == j)) [
    | inl s ↦ rw (insert, s) h
    | inr s ↦ elim (Bool-cases (ltb id j)) [
      | inl l ↦ rw (insert, s, l) (n, h)
      | inr l ↦
          rw (insert, s, l)
            (insert-All (R (j, w)) id v m h.0 (swap _ _ n.0), insert-Pairwise id v m n.1 h.1)
    ]
  ]

pub erase-Pairwise {ℓ κ} :
    {V : Type ℓ} (R : ℕ × V → ℕ × V → Type κ) (id : ℕ) (m : List (ℕ × V))
    → Pairwise R m
    → Pairwise R (erase id m)
unfolding erase
erase-Pairwise R id [] h = tt
erase-Pairwise R id ((j, w) ∷ m) h = elim (Bool-cases (j == id)) [
  | inl s ↦ rw (erase, s) (erase-Pairwise R id m h.1)
  | inr s ↦ rw (erase, s) (erase-All (R (j, w)) id m h.0, erase-Pairwise R id m h.1)
]

-- The keys ascend.
abbrev pub IsAscending {ℓ} : {V : Type ℓ} → List (ℕ × V) → Type 0
IsAscending m = Pairwise (λ p q. p.0 < q.0) m

module _ {V : Type 0} where
  -- The map has the entry.
  abbrev pub IsEntry : ℕ → V → List (ℕ × V) → Type 0
  IsEntry k v [] = ⊥
  IsEntry k v ((j, w) ∷ m) = ((j ≡ k) × (w ≡ v)) ⊎ IsEntry k v m

  pub find-IsEntry : (k : ℕ) (v : V) (m : List (ℕ × V)) → find k m ≡ some v → IsEntry k v m
  unfolding find
  find-IsEntry k v [] e = cc
  find-IsEntry k v ((j, w) ∷ m) e = elim (Bool-cases (j == k)) [
    | inl s ↦ let q : some w ≡ some v = rw (find, s) at e in inl ((==_iff j k).0 s, cc)
    | inr s ↦ inr (find-IsEntry k v m (rw (find, s) at e))
  ]

  IsEntry-All :
      (P : ℕ × V → Type 0) (k : ℕ) (v : V) (m : List (ℕ × V)) → All P m → IsEntry k v m → P (k, v)
  IsEntry-All P k v [] h e = absurd e
  IsEntry-All P k v ((j, w) ∷ m) h (inl (a, b)) = rw (← a, ← b) h.0
  IsEntry-All P k v ((j, w) ∷ m) h (inr e) = IsEntry-All P k v m h.1 e

  -- With ascending keys the entry under a key is the one that find answers.
  pub IsEntry-find :
      (k : ℕ) (v : V) (m : List (ℕ × V)) → IsAscending m → IsEntry k v m → find k m ≡ some v
  unfolding find
  IsEntry-find k v [] h e = absurd e
  IsEntry-find k v ((j, w) ∷ m) h (inl (a, b)) =
      let s : (j == k) ≡ true = (==_iff j k).1 a in rw (find, s) (ap some b)
  IsEntry-find k v ((j, w) ∷ m) h (inr e) =
      let lt : j < k = IsEntry-All (λ q. j < q.0) k v m h.0 e in
      let s : (j == k) ≡ false = ground arith in rw (find, s) (IsEntry-find k v m h.1 e)

  update_keys :
      (P : ℕ → Type 0) (k : ℕ) (v : V) (m : List (ℕ × V))
      → All (λ p. P p.0) m
      → All (λ p. P p.0) (update k v m)
  unfolding update
  update_keys P k v [] h = tt
  update_keys P k v ((j, w) ∷ m) h = elim (Bool-cases (j == k)) [
    | inl s ↦ rw (update, s) h
    | inr s ↦ rw (update, s) (h.0, update_keys P k v m h.1)
  ]

  pub update-IsAscending :
      (k : ℕ) (v : V) (m : List (ℕ × V)) → IsAscending m → IsAscending (update k v m)
  unfolding update
  update-IsAscending k v [] h = tt
  update-IsAscending k v ((j, w) ∷ m) h = elim (Bool-cases (j == k)) [
    | inl s ↦ rw (update, s) h
    | inr s ↦ rw (update, s) (update_keys (λ n. j < n) k v m h.0, update-IsAscending k v m h.1)
  ]

  pub insert-IsAscending :
      (k : ℕ) (v : V) (m : List (ℕ × V)) → IsAscending m → IsAscending (insert k v m)
  unfolding insert
  insert-IsAscending k v [] h = (tt, tt)
  insert-IsAscending k v ((j, w) ∷ m) h = elim (Bool-cases (k == j)) [
    | inl s ↦ rw (insert, s) h
    | inr s ↦ elim (Bool-cases (ltb k j)) [
      | inl l ↦
          let lt : k < j = ground arith in
          rw (insert, s, l)
            ((lt, All-map_to (λ (q : ℕ × V). j < q.0) (λ q. k < q.0) m (λ q x. omega arith) h.0), h)
      | inr l ↦
          let lt : j < k = ground arith in
          rw (insert, s, l)
            (insert-All (λ (q : ℕ × V). j < q.0) k v m h.0 lt, insert-IsAscending k v m h.1)
    ]
  ]

  pub erase-IsAscending : (k : ℕ) (m : List (ℕ × V)) → IsAscending m → IsAscending (erase k m)
  erase-IsAscending k m h = erase-Pairwise (λ p q. p.0 < q.0) k m h
