-- ===== src/Auth/Split.antt =====
-- PasswordAuth::splitLine of src/auth.h, and the lines that fgets reads.
pub mod Fields
pub mod Lines
use graphserv.Prelude.{
  ℕ, zero, suc, ◌==◌, if◌then◌else◌, Bool, true, false, Text, List, [], ◌∷◌, ◌++◌, reverse, Option,
  none, some, is_empty,
}
use graphserv.Prelude.Chars.{is_space}

-- The loop that cuts white space off the end, over the reversed line. On a line of white space only
-- it comes to read line[-1], which is undefined: `none`.
trim_loop : Text → Option Text
trim_loop [] = none
trim_loop (c ∷ rest) = if is_space c then trim_loop rest else some (c ∷ rest)

-- The loop over the characters, with the field that is being read.
field_loop : ℕ → Text → Text → List Text
field_loop sep s [] = []
field_loop sep s (c ∷ rest) = elim (c == sep) [
  | true ↦ s ∷ field_loop sep [] rest
  | false ↦ field_loop sep (s ++ c ∷ []) rest
]

unfoldable pub split_line : Text → ℕ → Option (List Text)
unfolding trim_loop field_loop is_space
split_line line sep = if is_empty line then some [] else elim (trim_loop (reverse line)) [
  | none ↦ none
  | some r ↦ some (field_loop sep [] (reverse r ++ sep ∷ []))
]

-- The strings that `while(fgets(line, 1024, f))` reads: up to 1023 bytes each, a newline included,
-- of which a C string ends at the first zero byte.
c_string : Text → Text
c_string [] = []
c_string (c ∷ rest) = if c == 0 then [] else c ∷ c_string rest

fgets_loop : ℕ → Text → Text → List Text
fgets_loop room line [] = if is_empty line then [] else c_string line ∷ []
fgets_loop room line (c ∷ rest) = elim (c == 10) [
  | true ↦ c_string (line ++ c ∷ []) ∷ fgets_loop 1022 [] rest
  | false ↦ elim room [
    | zero ↦ c_string (line ++ c ∷ []) ∷ fgets_loop 1022 [] rest
    | suc room' ↦ fgets_loop room' (line ++ c ∷ []) rest
  ]
]

-- `room` counts the bytes that fit behind the next one.
unfoldable pub fgets_lines : Text → List Text
unfolding fgets_loop c_string
fgets_lines file = fgets_loop 1022 [] file
