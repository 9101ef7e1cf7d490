-- ===== src/Server/Http/Uri/Encode.antt =====
-- Reading back a command that a client has written into a URI.
use graphserv.Prelude.{
  ℕ, ◌≡◌, refl, sym, ap, ◌∙◌, ◌==◌, if◌then◌else◌, Bool, true, false, Bool-cases, inl, inr, Text,
  [], ◌∷◌, Option, some, All, ==_iff,
}
use graphserv.External.{Env}
use graphserv.Server.Http.Uri.{decode_uri, decode_loop, push, plain}

-- A plus sign for a space, and two percent signs for one.
unfoldable pub encode : Text → Text
encode [] = []
encode (c ∷ rest) =
    let more = encode rest in
    if c == 32 then b'+' ∷ more else if c == b'%' then b'%' ∷ b'%' ∷ more else c ∷ more

either : (b : Bool) (x : Option Text) → (if b then x else x) ≡ x
either true x = refl
either false x = refl

module _ (env : Env) where
  decode_loop-plain :
      (first : Bool) (c : ℕ) (rest : Text)
      → (c == b'%') ≡ false
      → decode_loop env first (c ∷ rest) ≡ plain first c (decode_loop env false rest)
  unfolding decode_loop
  decode_loop-plain first c [] e = rw (decode_loop, e)
  decode_loop-plain first c (d ∷ []) e = rw (decode_loop, e)
  decode_loop-plain first c (d ∷ x ∷ rest) e = rw (decode_loop, e)

  decode_loop-percent :
      (first : Bool) (rest : Text)
      → decode_loop env first (b'%' ∷ b'%' ∷ rest) ≡ push b'%' (decode_loop env false rest)
  unfolding decode_loop push
  decode_loop-percent first [] = refl
  decode_loop-percent first (x ∷ rest) = refl

  decode_loop-encode :
      (s : Text) → All (λ c. (c == b'+') ≡ false) s → decode_loop env false (encode s) ≡ some s
  unfolding decode_loop encode push plain
  decode_loop-encode [] h = refl
  decode_loop-encode (c ∷ rest) h =
      let ih = decode_loop-encode rest h.1 in
      elim (Bool-cases (c == 32)) [
        | inl space ↦
            let e : c ≡ 32 = (==_iff _ _).0 space in
            rw space (
              decode_loop-plain false b'+' (encode rest) refl
              ∙ rw ih (ap (λ n. some (n ∷ rest)) (sym e)))
        | inr no_space ↦ elim (Bool-cases (c == b'%')) [
          | inl percent ↦
              let e : c ≡ b'%' = (==_iff _ _).0 percent in
              rw (no_space, percent)
                (decode_loop-percent false (encode rest)
                  ∙ rw ih (ap (λ n. some (n ∷ rest)) (sym e)))
          | inr no_percent ↦
              rw (no_space, no_percent)
                (decode_loop-plain false c (encode rest) no_percent
                  ∙ rw (ih, plain, h.0) (either _ _))
        ]
      ]

  -- A command without a plus sign is read back from the URI that has a slash, and then the command
  -- with a plus sign for each space and two percent signs for each one.
  pub decode_uri-encode :
      (s : Text) → All (λ c. (c == b'+') ≡ false) s → decode_uri env (b'/' ∷ encode s) ≡ some s
  unfolding decode_uri plain
  decode_uri-encode s h = decode_loop-plain true b'/' (encode s) refl ∙ decode_loop-encode s h
