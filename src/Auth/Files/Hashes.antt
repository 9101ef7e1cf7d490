-- ===== src/Auth/Files/Hashes.antt =====
-- The form of the entries that readCredentialFiles accepts.
use graphserv.Prelude.{
  ◌≡◌, ◌≢◌, refl, ◌==◌, ==_iff, Bool-cases, inl, inr, Text, List, [], ◌∷◌, Option, none, some,
  length, same_text, same_text-eq,
}
use graphserv.Prelude.Assoc.{lookup, put, lookup-put}
use graphserv.Access.{AccessLevel, access_read, level_above}
use graphserv.Auth.Files.{
  UserInfo, Users, passwd_fields, passwd_loop, raise, elevate, group_line, apply_group, group_loop,
  read_credential_files,
}
use graphserv.Auth.Split.{split_line, fgets_lines}
use graphserv.External.{CredentialFiles}
use graphserv.Outcome.{ok, fails, ◌>>=◌, or_undefined, or_exits, >>=-eq-ok}

-- Every entry has a name and a hash of 13 characters, the length of a crypt() hash.
pub record HasHashes (users : Users) : Type 0 where
  pub named : (user : Text) (info : UserInfo) → lookup user users ≡ some info → user ≢ []
  pub hashed :
      (user : Text) (info : UserInfo) → lookup user users ≡ some info → length info.hash ≡ 13

put-HasHashes :
    (name : Text) (info : UserInfo) (users : Users)
    → name ≢ []
    → length info.hash ≡ 13
    → HasHashes users
    → HasHashes (put name info users)
put-HasHashes name info users ne len h = record {
  named = λ user i e. elim (Bool-cases (same_text name user)) [
    | inl same ↦ rw (← same_text-eq name user same) ne
    | inr other ↦ h.named user i (rw (lookup-put name user info users, other) at e)
  ];
  hashed = λ user i e. elim (Bool-cases (same_text name user)) [
    | inl same ↦
        let q : some info ≡ some i = rw (lookup-put name user info users, same) at e in
        let p : info ≡ i = cc in rw (← p) len
    | inr other ↦ h.hashed user i (rw (lookup-put name user info users, other) at e)
  ];
}

passwd_fields-HasHashes :
    (fields : List Text) (users users' : Users)
    → passwd_fields fields users ≡ ok users'
    → HasHashes users
    → HasHashes users'
unfolding passwd_fields
passwd_fields-HasHashes [] users users' e h = let q : users ≡ users' = cc in rw (← q) h
passwd_fields-HasHashes (user ∷ []) users users' e h = cc
passwd_fields-HasHashes ([] ∷ hash ∷ []) users users' e h = cc
passwd_fields-HasHashes ((c ∷ name) ∷ hash ∷ []) users users' e h =
    elim (Bool-cases (length hash == 13)) [
      | inl len ↦
          let q : ok (put (c ∷ name) (record { hash = hash; access_level = access_read }) users)
              ≡ ok users' =
            rw len at e in
          let p : put (c ∷ name) (record { hash = hash; access_level = access_read }) users
              ≡ users' =
            cc in
          rw (← p) (put-HasHashes (c ∷ name) _ users (λ n. cc) ((==_iff _ _).0 len) h)
      | inr len ↦ let q : fails ≡ ok users' = rw len at e in cc
    ]
passwd_fields-HasHashes (user ∷ hash ∷ more ∷ rest) users users' e h = cc

passwd_loop-HasHashes :
    (lines : List Text) (users users' : Users)
    → passwd_loop lines users ≡ ok users'
    → HasHashes users
    → HasHashes users'
unfolding passwd_loop
passwd_loop-HasHashes [] users users' e h = let q : users ≡ users' = cc in rw (← q) h
passwd_loop-HasHashes (line ∷ rest) users users' e h =
    let (fields, _, e₁) =
      >>=-eq-ok (or_undefined (split_line line b':'))
        (λ fields. passwd_fields fields users >>= passwd_loop rest) e in
    let (mid, e₂, e₃) = >>=-eq-ok (passwd_fields fields users) (passwd_loop rest) e₁ in
    passwd_loop-HasHashes rest mid users' e₃ (passwd_fields-HasHashes fields users mid e₂ h)

raise-HasHashes :
    (level : AccessLevel) (name : Text) (users : Users) (found : Option UserInfo)
    → lookup name users ≡ found
    → HasHashes users
    → HasHashes (raise level found name users)
unfolding raise
raise-HasHashes level name users none e h = h
raise-HasHashes level name users (some info) e h =
    elim (Bool-cases (level_above level info.access_level)) [
      | inl up ↦ rw up (put-HasHashes name _ users (h.named name info e) (h.hashed name info e) h)
      | inr up ↦ rw up h
    ]

elevate-HasHashes :
    (level : AccessLevel) (names : List Text) (users : Users)
    → HasHashes users
    → HasHashes (elevate level names users)
unfolding elevate
elevate-HasHashes level [] users h = h
elevate-HasHashes level (name ∷ names) users h =
    elevate-HasHashes level names _ (raise-HasHashes level name users (lookup name users) refl h)

apply_group-HasHashes :
    (entry : Option (AccessLevel × List Text)) (users : Users)
    → HasHashes users
    → HasHashes (apply_group entry users)
unfolding apply_group
apply_group-HasHashes none users h = h
apply_group-HasHashes (some (level, names)) users h = elevate-HasHashes level names users h

group_loop-HasHashes :
    (lines : List Text) (users users' : Users)
    → group_loop lines users ≡ ok users'
    → HasHashes users
    → HasHashes users'
unfolding group_loop
group_loop-HasHashes [] users users' e h = let q : users ≡ users' = cc in rw (← q) h
group_loop-HasHashes (line ∷ rest) users users' e h =
    let (entry, _, e₁) =
      >>=-eq-ok (group_line line) (λ entry. group_loop rest (apply_group entry users)) e in
    group_loop-HasHashes rest _ users' e₁ (apply_group-HasHashes entry users h)

-- A table that readCredentialFiles accepts has only entries with a name and a hash of 13 characters.
pub read_credential_files-HasHashes :
    (files : CredentialFiles) (users : Users)
    → read_credential_files files ≡ ok users
    → HasHashes users
unfolding read_credential_files
read_credential_files-HasHashes files users e =
    let (passwd, _, e₁) = >>=-eq-ok (or_exits files.htpasswd) _ e in
    let (mid, e₂, e₃) = >>=-eq-ok (passwd_loop (fgets_lines passwd) []) _ e₁ in
    let (groups, _, e₄) = >>=-eq-ok (or_exits files.group) _ e₃ in
    group_loop-HasHashes (fgets_lines groups) mid users e₄ (
      passwd_loop-HasHashes (fgets_lines passwd) [] mid e₂
        (unfold lookup in record { named = λ u i q. cc; hashed = λ u i q. cc }))
