-- ===== src/Auth/Split/Lines.antt =====
-- The lines that the reader of the credential files gets.
use graphserv.Prelude.{
  ℕ, zero, suc, ◌≤◌, ◌+◌, inl, inr, ◌==◌, Bool-cases, Text, [], ◌∷◌, ◌++◌, All, is_empty, length,
  length-append, arith,
}
use graphserv.Auth.Split.{c_string, fgets_loop, fgets_lines}

length-c_string : (s : Text) → length (c_string s) ≤ length s
unfolding c_string
length-c_string [] = omega arith
length-c_string (c ∷ rest) = elim (Bool-cases (c == 0)) [
  | inl e ↦ rw (c_string, e) (omega arith)
  | inr e ↦
      let h : length (c_string rest) ≤ length rest = length-c_string rest in
      rw (c_string, e) (omega arith)
]

-- a line with one byte more
longer-bound :
    (line : Text) (c : ℕ) → length line ≤ 1022 → length (c_string (line ++ c ∷ [])) ≤ 1023
longer-bound line c h = omega (arith, length-c_string (line ++ c ∷ []), length-append line (c ∷ []))

fgets_loop-bound :
    (file : Text) (room : ℕ) (line : Text)
    → length line + room ≤ 1022
    → All (λ l. length l ≤ 1023) (fgets_loop room line file)
unfolding fgets_loop
fgets_loop-bound [] room line h = elim (Bool-cases (is_empty line)) [
  | inl e ↦ rw (fgets_loop, e) tt
  | inr e ↦ rw (fgets_loop, e) (omega (arith, length-c_string line), tt)
]
fgets_loop-bound (c ∷ rest) room line h = elim (Bool-cases (c == 10)) [
  | inl e ↦
      rw (fgets_loop, e)
        (longer-bound line c (omega arith), fgets_loop-bound rest 1022 [] (omega arith))
  | inr e ↦ rw (fgets_loop, e) (by_room room h (λ r l k. fgets_loop-bound rest r l k))
]
  where
    by_room :
        (r : ℕ)
        → length line + r ≤ 1022
        → ((r' : ℕ) (l : Text)
            → length l + r' ≤ 1022
            → All (λ x. length x ≤ 1023) (fgets_loop r' l rest))
        → All
            (λ x. length x ≤ 1023)
            (elim r [
              | zero ↦ c_string (line ++ c ∷ []) ∷ fgets_loop 1022 [] rest
              | suc r' ↦ fgets_loop r' (line ++ c ∷ []) rest
            ])
    by_room zero k go = (longer-bound line c (omega arith), go 1022 [] (omega arith))
    by_room (suc r') k go = go r' (line ++ c ∷ []) (omega (arith, length-append line (c ∷ [])))

-- Whatever is in a file, each line that fgets reads of it fits the buffer of 1024 bytes with the zero
-- byte that ends it.
pub fgets_lines-bound : (file : Text) → All (λ l. length l ≤ 1023) (fgets_lines file)
unfolding fgets_lines
fgets_lines-bound file = fgets_loop-bound file 1022 [] (omega arith)
