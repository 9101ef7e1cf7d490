-- ===== src/Core/Lines.antt =====
-- LineRecvQ::nextLines of src/coreinstance.h: lines out of text that arrives in pieces.
use graphserv.Prelude.{
  ℕ, ◌≡◌, refl, sym, ap, ◌∙◌, ◌==◌, true, false, Bool-cases, inl, inr, Text, List, [], ◌∷◌, ◌++◌,
  concat, append_assoc, append-nil, some, All, ◌≢◌, arith,
}
use graphserv.Core.Entry.{next_lines, c_string, read_lines}

-- the lines of a piece and of the piece behind it, and what is left
abbrev pub next_two : Text → Text → Text → List Text × Text
next_two readbuf first second =
    let one = next_lines readbuf first in
    let two = next_lines one.1 second in (one.0 ++ two.0, two.1)

next_lines-newline :
    (readbuf rest : Text) (c : ℕ)
    → (c == 10) ≡ true
    → next_lines readbuf (c ∷ rest)
      ≡ ((readbuf ++ c ∷ []) ∷ (next_lines [] rest).0, (next_lines [] rest).1)
unfolding next_lines
next_lines-newline readbuf rest c e = rw (next_lines, e)

next_lines-other :
    (readbuf rest : Text) (c : ℕ)
    → (c == 10) ≡ false
    → next_lines readbuf (c ∷ rest) ≡ next_lines (readbuf ++ c ∷ []) rest
unfolding next_lines
next_lines-other readbuf rest c e = rw (next_lines, e)

-- It does not matter for the lines how the text that arrives is cut into two pieces.
pub next_lines-next_two :
    (readbuf first second : Text)
    → next_lines readbuf (first ++ second) ≡ next_two readbuf first second
unfolding next_lines
next_lines-next_two readbuf [] second = refl
next_lines-next_two readbuf (c ∷ first) second = elim (Bool-cases (c == 10)) [
  | inl e ↦
      rw (next_lines-newline readbuf (first ++ second) c e, next_lines-newline readbuf first c e)
        (ap (λ (r : List Text × Text). ((readbuf ++ c ∷ []) ∷ r.0, r.1))
          (next_lines-next_two [] first second))
  | inr e ↦
      rw (next_lines-other readbuf (first ++ second) c e, next_lines-other readbuf first c e)
        (next_lines-next_two (readbuf ++ c ∷ []) first second)
]

-- The lines and what is left are together the text that was kept and the text that arrived.
pub next_lines-concat :
    (readbuf str : Text)
    → concat (next_lines readbuf str).0 ++ (next_lines readbuf str).1 ≡ readbuf ++ str
unfolding next_lines
next_lines-concat readbuf [] = sym (append-nil readbuf)
next_lines-concat readbuf (c ∷ rest) = elim (Bool-cases (c == 10)) [
  | inl e ↦ rw (next_lines-newline readbuf rest c e) (
      append_assoc (readbuf ++ c ∷ []) (concat (next_lines [] rest).0) (next_lines [] rest).1
      ∙ ap (◌++◌ (readbuf ++ c ∷ [])) (next_lines-concat [] rest)
      ∙ append_assoc readbuf (c ∷ []) rest)
  | inr e ↦
      rw (next_lines-other readbuf rest c e)
        (next_lines-concat (readbuf ++ c ∷ []) rest ∙ append_assoc readbuf (c ∷ []) rest)
]

c_string-whole : (a : Text) → All (λ c. c ≢ 0) a → c_string a ≡ a
unfolding c_string
c_string-whole [] h = refl
c_string-whole (c ∷ a) (ne, h) =
    let other : (c == 0) ≡ false = ground (arith, ne) in
    rw (c_string, other) (ap (◌∷◌ c) (c_string-whole a h))

c_string-cut : (a b : Text) → All (λ c. c ≢ 0) a → c_string (a ++ 0 ∷ b) ≡ a
unfolding c_string
c_string-cut [] b h = refl
c_string-cut (c ∷ a) b (ne, h) =
    let other : (c == 0) ≡ false = ground (arith, ne) in
    rw (c_string, other) (ap (◌∷◌ c) (c_string-cut a b h))

-- the lines and what is kept, as one text
abbrev pub received : List Text × Text → Text
received r = concat r.0 ++ r.1

-- If what is read of a descriptor has no NUL, nothing of it is lost or changed: the lines and what is
-- kept are the text that was kept and the text read. If it has one, the rest from the NUL on is lost.
pub read_lines-received :
    (readbuf a b : Text)
    → All (λ c. c ≢ 0) a
    → (received (read_lines readbuf (some a)) ≡ readbuf ++ a)
      × (received (read_lines readbuf (some (a ++ 0 ∷ b))) ≡ readbuf ++ a)
unfolding read_lines
read_lines-received readbuf a b h = (
  rw (c_string-whole a h) (next_lines-concat readbuf a),
  rw (c_string-cut a b h) (next_lines-concat readbuf a),
)
