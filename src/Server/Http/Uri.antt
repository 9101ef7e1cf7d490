-- ===== src/Server/Http/Uri.antt =====
-- The loop of lineFromHTTPClient (src/servapp.h) that decodes the request URI.
pub mod Encode
use graphserv.Prelude.{ℕ, ◌==◌, if◌then◌else◌, Bool, true, false, Text, [], ◌∷◌, Option, none, some}
use graphserv.Prelude.Chars.{is_print}
use graphserv.External.{Env}

-- hexChar, if sscanf finds one and it is printable
unfoldable pub printable : Option ℕ → Option ℕ
printable none = none
printable (some n) = if is_print n then some n else none

-- transformedURI += c
unfoldable pub push : ℕ → Option Text → Option Text
push c none = none
push c (some rest) = some (c ∷ rest)

-- the result for a hex number
unfoldable pub push_hex : Option ℕ → Option Text → Option Text
unfolding push
push_hex none rest = none
push_hex (some c) rest = push c rest

-- A character that is no percent sign: '+' is a space, and the slash in front is left out.
unfoldable pub plain : Bool → ℕ → Option Text → Option Text
unfolding push
plain first c rest =
    if c == b'+'
    then push 32 rest
    else if c == b'/'
    then (if first then rest else push c rest)
    else push c rest

module _ (env : Env) where
  -- `first` says that the index is 0; `none` is bad hex, after which the request is rejected.
  unfoldable pub decode_loop : Bool → Text → Option Text
  unfolding push push_hex plain printable
  decode_loop first [] = some []
  decode_loop first (c ∷ []) = if c == b'%' then none else plain first c (some [])
  decode_loop first (c ∷ d ∷ []) = elim (c == b'%') [
    | true ↦ if d == b'%' then some (b'%' ∷ []) else none
    | false ↦ plain first c (decode_loop false (d ∷ []))
  ]
  decode_loop first (c ∷ d ∷ e ∷ rest) = elim (c == b'%') [
    | true ↦ elim (d == b'%') [
      | true ↦ push b'%' (decode_loop false (e ∷ rest))
      | false ↦ push_hex (printable (env.sscanf_hex (d ∷ e ∷ rest))) (decode_loop false rest)
    ]
    | false ↦ plain first c (decode_loop false (d ∷ e ∷ rest))
  ]

  unfoldable pub decode_uri : Text → Option Text
  unfolding decode_loop
  decode_uri uri = decode_loop true uri
