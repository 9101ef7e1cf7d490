-- ===== src/Auth/Split/Fields.antt =====
-- splitLine against joining: which fields it returns, and where it is undefined.
use mathlib.Core.List.{reverse-append, reverse-reverse}
use graphserv.Prelude.{
  ℕ, ◌≡◌, ◌≢◌, ◌↔◌, refl, sym, ap, ◌∙◌, ◌==◌, ==_refl, true, false, Bool-cases, Option-cases, inl,
  inr, Text, List, [], ◌∷◌, ◌++◌, reverse, append_assoc, append-nil, none, some, All, All-reverse,
  is_empty,
}
use graphserv.Prelude.Chars.{is_space}
use graphserv.Auth.Split.{trim_loop, field_loop, split_line}

-- The fields with the separator between them.
unfoldable pub join : ℕ → List Text → Text
join sep [] = []
join sep (f ∷ rest) = elim rest [ [] ↦ f | g ∷ more ↦ f ++ sep ∷ join sep rest ]

-- A field that does not hold the separator.
abbrev pub IsField : ℕ → Text → Type 0
IsField sep f = All (λ c. (c == sep) ≡ false) f

abbrev pub IsBlank : Text → Type 0
IsBlank = All (λ c. is_space c ≡ true)

field_loop-field :
    (sep : ℕ) (s f rest : Text)
    → IsField sep f
    → field_loop sep s (f ++ sep ∷ rest) ≡ (s ++ f) ∷ field_loop sep [] rest
unfolding field_loop
field_loop-field sep s [] rest h = rw (==_refl sep, field_loop) (rw (append-nil s))
field_loop-field sep s (c ∷ f) rest h =
    rw (h.0, field_loop)
      (field_loop-field sep (s ++ c ∷ []) f rest h.1
        ∙ ap (λ t. t ∷ field_loop sep [] rest) (append_assoc s (c ∷ []) f))

field_loop-join :
    (sep : ℕ) (f : Text) (fs : List Text)
    → All (IsField sep) (f ∷ fs)
    → field_loop sep [] (join sep (f ∷ fs) ++ sep ∷ []) ≡ f ∷ fs
unfolding join
field_loop-join sep f [] h = field_loop-field sep [] f [] h.0 ∙ (unfold field_loop in refl)
field_loop-join sep f (g ∷ fs) h =
    ap (field_loop sep []) (append_assoc f (sep ∷ join sep (g ∷ fs)) (sep ∷ []))
    ∙ field_loop-field sep [] f (join sep (g ∷ fs) ++ sep ∷ []) h.0
    ∙ ap (◌∷◌ f) (field_loop-join sep g fs h.1)

trim_loop-blank : (b r : Text) → IsBlank b → trim_loop (b ++ r) ≡ trim_loop r
unfolding trim_loop
trim_loop-blank [] r h = refl
trim_loop-blank (c ∷ b) r h = rw h.0 (trim_loop-blank b r h.1)

trim_loop-body :
    (body b : Text) (c : ℕ)
    → is_space c ≡ false
    → IsBlank b
    → trim_loop (reverse ((body ++ c ∷ []) ++ b)) ≡ some (reverse (body ++ c ∷ []))
trim_loop-body body b c solid h =
    ap trim_loop (reverse-append (body ++ c ∷ []) b)
    ∙ trim_loop-blank (reverse b) (reverse (body ++ c ∷ [])) (All-reverse _ b h)
    ∙ rw (reverse-append body (c ∷ [])) (unfold trim_loop in rw solid)

is_empty-solid : (body b : Text) (c : ℕ) → is_empty ((body ++ c ∷ []) ++ b) ≡ false
is_empty-solid [] b c = refl
is_empty-solid (x ∷ body) b c = refl

split_line-solid :
    (sep : ℕ) (body b : Text) (c : ℕ)
    → is_space c ≡ false
    → IsBlank b
    → split_line ((body ++ c ∷ []) ++ b) sep
      ≡ some (field_loop sep [] ((body ++ c ∷ []) ++ sep ∷ []))
unfolding split_line
split_line-solid sep body b c solid h =
    rw (is_empty-solid body b c, trim_loop-body body b c solid h)
      (rw (reverse-reverse (body ++ c ∷ [])))

-- The fields of a record that were joined by the separator, with any white space behind them, are
-- read back unchanged, if no field holds the separator and the last character is not white space.
pub split_line-join :
    (sep : ℕ) (fs : List Text) (body : Text) (c : ℕ) (blank : Text)
    → All (IsField sep) fs
    → join sep fs ≡ body ++ c ∷ []
    → is_space c ≡ false
    → IsBlank blank
    → split_line (join sep fs ++ blank) sep ≡ some fs
split_line-join sep [] body c blank free e solid h = absurd (nil-ne-solid body (unfold join in e))
  where
    nil-ne-solid : (t : Text) → [] ≢ t ++ c ∷ []
    nil-ne-solid [] q = cc
    nil-ne-solid (x ∷ t) q = cc
split_line-join sep (f ∷ fs) body c blank free e solid h =
    rw e (split_line-solid sep body blank c solid h)
    ∙ ap (λ t. some (field_loop sep [] (t ++ sep ∷ []))) (sym e)
    ∙ ap some (field_loop-join sep f fs free)

trim_loop-none : (r : Text) → trim_loop r ≡ none → IsBlank r
unfolding trim_loop
trim_loop-none [] h = tt
trim_loop-none (c ∷ r) h = elim (Bool-cases (is_space c)) [
  | inl e ↦ (e, trim_loop-none r (rw e at h))
  | inr e ↦ let q : some (c ∷ r) ≡ none = rw e at h in cc
]

blank_end : (l : Text) → IsBlank l → trim_loop (reverse l) ≡ none
blank_end l h =
    ap trim_loop (sym (append-nil (reverse l)))
    ∙ trim_loop-blank (reverse l) [] (All-reverse _ l h)
    ∙ (unfold trim_loop in refl)

-- A line has no defined result exactly when it has a character and is all white space: the scan for
-- its last character then runs past its start.
pub split_line-undefined :
    (line : Text) (sep : ℕ) → (split_line line sep ≡ none) ↔ ((line ≢ []) × IsBlank line)
unfolding split_line
split_line-undefined line sep = (to line, from line)
  where
    to : (l : Text) → split_line l sep ≡ none → (l ≢ []) × IsBlank l
    to [] h = cc
    to (c ∷ l) h = elim (Option-cases (trim_loop (reverse (c ∷ l)))) [
      | inl e ↦ (
        (λ q. cc),
        rw (reverse-reverse (c ∷ l)) at (All-reverse _ (reverse (c ∷ l)) (trim_loop-none _ e)),
      )
      | inr (r, e) ↦
          let q : some (field_loop sep [] (reverse r ++ sep ∷ [])) ≡ none =
            rw (e, split_line) at h in
          cc
    ]

    from : (l : Text) → (l ≢ []) × IsBlank l → split_line l sep ≡ none
    from [] h = absurd (h.0 refl)
    from (c ∷ l) h = rw (blank_end (c ∷ l) h.1, split_line)
