-- ===== src/Server/Names.antt =====
-- Which names isValidGraphName (src/servapp.h) accepts.
use graphserv.Prelude.{ℕ, ◌≡◌, ◌≤◌, ◌⊎◌, ◌↔◌, refl, true, Text, [], ◌∷◌, All, arith}
use graphserv.Prelude.Chars.{is_upper, is_lower, is_digit}
use graphserv.Server.{is_valid_graph_name, name_start, name_loop}

-- one of [a-zA-Z_-]
abbrev pub IsNameStart : ℕ → Type 0
IsNameStart c = ((b'a' ≤ c) × (c ≤ b'z')) ⊎ (((b'A' ≤ c) × (c ≤ b'Z')) ⊎ ((c ≡ b'_') ⊎ (c ≡ b'-')))

-- one of [a-zA-Z0-9_-]
abbrev pub IsNameChar : ℕ → Type 0
IsNameChar c = ((b'0' ≤ c) × (c ≤ b'9')) ⊎ IsNameStart c

-- [a-zA-Z_-][a-zA-Z0-9_-]*
abbrev pub IsGraphName : Text → Type 0
IsGraphName [] = ⊥
IsGraphName (c ∷ rest) = IsNameStart c × All IsNameChar rest

name_start_iff : (c : ℕ) → (name_start c ≡ true) ↔ IsNameStart c
unfolding name_start is_upper is_lower
name_start_iff c = ground arith

name_loop_iff : (s : Text) → (name_loop s ≡ true) ↔ All IsNameChar s
unfolding name_loop is_upper is_lower is_digit
name_loop_iff [] = ((λ _. tt), λ _. refl)
name_loop_iff (c ∷ rest) = let ih = name_loop_iff rest in ground arith

-- A graph may be named exactly by the words of [a-zA-Z_-][a-zA-Z0-9_-]*, as the comment on
-- isValidGraphName says.
pub is_valid_graph_name_iff : (s : Text) → (is_valid_graph_name s ≡ true) ↔ IsGraphName s
unfolding is_valid_graph_name
is_valid_graph_name_iff [] = ground arith
is_valid_graph_name_iff (c ∷ rest) =
    let start = name_start_iff c in let all = name_loop_iff (c ∷ rest) in ground arith
