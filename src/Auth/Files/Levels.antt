-- ===== src/Auth/Files/Levels.antt =====
-- The levels that the group file gives.
use graphserv.Prelude.{
  ◌≡◌, ◌≤◌, refl, ◌∙◌, true, false, Bool-cases, ◌⊎◌, inl, inr, Text, List, [], ◌∷◌, Option, none,
  some, same_text, same_text-eq, same_text_refl, arith,
}
use graphserv.Prelude.Assoc.{lookup, lookup-put}
use graphserv.Access.{AccessLevel, level_value, level_above}
use graphserv.Auth.Files.{UserInfo, Users, raise, elevate, group_line, apply_group, group_loop}
use graphserv.Outcome.{ok, >>=-eq-ok}

abbrev pub IsListed : Text → List Text → Type 0
IsListed user [] = ⊥
IsListed user (x ∷ names) = (x ≡ user) ⊎ IsListed user names

-- Some line of the group file puts the user in the group of the level.
pub data Grants (user : Text) (level : AccessLevel) : List Text → Type 0 where
  here :
      (line : Text) (rest names : List Text)
      → group_line line ≡ ok (some (level, names))
      → IsListed user names
      → Grants user level (line ∷ rest)
  there :
      (line : Text) {rest : List Text} → Grants user level rest → Grants user level (line ∷ rest)

-- The entry `after` has the hash of `before`, no lower level, and its level has the reason `P`.
pub record Raised (before after : UserInfo) (P : AccessLevel → Type 0) : Type 0 where
  pub same_hash : after.hash ≡ before.hash
  pub no_lower : level_value before.access_level ≤ level_value after.access_level
  pub reason : (after.access_level ≡ before.access_level) ⊎ P after.access_level

keep : (info : UserInfo) (P : AccessLevel → Type 0) → Raised info info P
keep info P = record { same_hash = refl; no_lower = omega arith; reason = inl refl }

module _ (user : Text) where
  -- raising another user's level
  raise-lookup_ne :
      (level : AccessLevel) (name : Text) (found : Option UserInfo) (users : Users)
      → same_text name user ≡ false
      → lookup user (raise level found name users) ≡ lookup user users
  unfolding raise
  raise-lookup_ne level name none users ne = refl
  raise-lookup_ne level name (some x) users ne =
      elim (Bool-cases (level_above level x.access_level)) [
        | inl up ↦ rw up (lookup-put name user (record x { access_level = level }) users ∙ rw ne)
        | inr up ↦ rw up
      ]

  abbrev RaisedTo : AccessLevel → Text → Users → UserInfo → Type 0
  RaisedTo level name users info =
      (after : UserInfo) × (lookup user users ≡ some after)
      × Raised info after (λ l. (name ≡ user) × (l ≡ level))
      × (name ≡ user → level_value level ≤ level_value after.access_level)

  raise-lookup_self :
      (level : AccessLevel) (name : Text) (users : Users) (info : UserInfo)
      → name ≡ user
      → lookup user users ≡ some info
      → RaisedTo level name (raise level (some info) name users) info
  unfolding raise
  raise-lookup_self level name users info e h =
      elim (Bool-cases (level_above level info.access_level)) [
        | inl up ↦ rw up (
          record info { access_level = level },
          lookup-put name user (record info { access_level = level }) users
              ∙ rw (e, same_text_refl user),
          record { same_hash = refl; no_lower = ground arith; reason = inr (e, refl) },
          λ _. omega arith,
        )
        | inr up ↦ rw up (info, h, keep info _, λ _. ground arith)
      ]

  raise-lookup :
      (level : AccessLevel) (name : Text) (users : Users) (info : UserInfo)
      → lookup user users ≡ some info
      → RaisedTo level name (raise level (lookup name users) name users) info
  raise-lookup level name users info h = elim (Bool-cases (same_text name user)) [
    | inl e ↦
        let p : name ≡ user = same_text-eq name user e in
        let q : lookup name users ≡ some info = rw p h in
        rw q (raise-lookup_self level name users info p h)
    | inr ne ↦ (
      info,
      raise-lookup_ne level name (lookup name users) users ne ∙ h,
      keep info _,
      λ p. let q : same_text name user ≡ true = rw p (same_text_refl user) in absurd (cc),
    )
  ]

Raised-trans :
    {a b c : UserInfo} {P Q : AccessLevel → Type 0} (R : AccessLevel → Type 0)
    → Raised a b P
    → Raised b c Q
    → ((l : AccessLevel) → P l → R l)
    → ((l : AccessLevel) → Q l → R l)
    → Raised a c R
Raised-trans {a} {b} {c} R r s f g = record {
  same_hash = s.same_hash ∙ r.same_hash;
  no_lower = omega (arith, r.no_lower, s.no_lower);
  reason = elim s.reason [
    | inr q ↦ inr (g c.access_level q)
    | inl e ↦ elim r.reason [ inl d ↦ inl (e ∙ d) | inr p ↦ inr (rw e (f b.access_level p)) ]
  ];
}

module _ (user : Text) where
  elevate-lookup :
      (level : AccessLevel) (names : List Text) (users : Users) (info : UserInfo)
      → lookup user users ≡ some info
      → (after : UserInfo) × (lookup user (elevate level names users) ≡ some after)
        × Raised info after (λ l. IsListed user names × (l ≡ level))
        × (IsListed user names → level_value level ≤ level_value after.access_level)
  unfolding elevate
  elevate-lookup level [] users info h = (info, h, keep info _, λ l. absurd l)
  elevate-lookup level (name ∷ names) users info h =
      let (mid, found, up, self) = raise-lookup user level name users info h in
      let (after, found', up', listed) = elevate-lookup level names _ mid found in
      (
        after,
        found',
        Raised-trans _ up up' (λ l p. (inl p.0, p.1)) (λ l p. (inr p.0, p.1)),
        elim [ inl e ↦ omega (arith, self e, up'.no_lower) | inr i ↦ listed i ],
      )

  apply_group-lookup :
      (line : Text) (rest : List Text) (entry : Option (AccessLevel × List Text)) (users : Users)
      (info : UserInfo)
      → group_line line ≡ ok entry
      → lookup user users ≡ some info
      → (after : UserInfo) × (lookup user (apply_group entry users) ≡ some after)
        × Raised info after (λ l. Grants user l (line ∷ rest))
        × ((l : AccessLevel) (names : List Text)
            → entry ≡ some (l, names)
            → IsListed user names
            → level_value l ≤ level_value after.access_level)
  unfolding apply_group
  apply_group-lookup line rest none users info e h = (info, h, keep info _, λ l names q. cc)
  apply_group-lookup line rest (some (level, names)) users info e h =
      let (after, found, up, listed) = elevate-lookup level names users info h in
      (
        after,
        found,
        Raised-trans _ (keep info (λ _. ⊥)) up (λ l. absurd)
            (λ l p. here line rest names (rw p.1 e) p.0),
        λ l names' q i.
            let el : level ≡ l = cc in let en : names ≡ names' = cc in rw (← el) (listed (rw en i)),
      )

  Grants-bound :
      (line : Text) (rest : List Text) (entry : Option (AccessLevel × List Text))
      (mid after : UserInfo)
      → group_line line ≡ ok entry
      → ((l : AccessLevel) (names : List Text)
          → entry ≡ some (l, names)
          → IsListed user names
          → level_value l ≤ level_value mid.access_level)
      → level_value mid.access_level ≤ level_value after.access_level
      → ((l : AccessLevel) → Grants user l rest → level_value l ≤ level_value after.access_level)
      → (l : AccessLevel) → Grants user l (line ∷ rest)
      → level_value l ≤ level_value after.access_level
  Grants-bound line rest entry mid after e own le bound l (here _ _ names q i) =
      omega (arith, own l names (cc) i)
  Grants-bound line rest entry mid after e own le bound l (there _ g) = bound l g

  -- The user's entry, of level and hash as in `info` before, once the lines have been read.
  abbrev pub IsHighest : List Text → UserInfo → Option UserInfo → Type 0
  IsHighest lines info found =
      (after : UserInfo) × (found ≡ some after)
      × Raised info after (λ l. Grants user l lines)
      × ((l : AccessLevel) → Grants user l lines → level_value l ≤ level_value after.access_level)

  -- After the group file has been read, a user of the htpasswd file has the same hash as before and
  -- the highest of the earlier level and the levels of the lines that list the user: no such level
  -- is above it, and it is the earlier one or that of one of these lines.
  pub group_loop-IsHighest :
      (lines : List Text) (users users' : Users) (info : UserInfo)
      → group_loop lines users ≡ ok users'
      → lookup user users ≡ some info
      → IsHighest lines info (lookup user users')
  unfolding group_loop
  group_loop-IsHighest [] users users' info e h =
      (info, let q : users ≡ users' = cc in rw (← q) h, keep info _, λ l. elim [ ])
  group_loop-IsHighest (line ∷ rest) users users' info e h =
      let (entry, q, e₁) =
        >>=-eq-ok (group_line line) (λ x. group_loop rest (apply_group x users)) e in
      let (mid, found, up, own) = apply_group-lookup line rest entry users info q h in
      let (after, found', up', bound) =
        group_loop-IsHighest rest (apply_group entry users) users' mid e₁ found in
      (
        after,
        found',
        Raised-trans _ up up' (λ l p. p) (λ l p. there line p),
        Grants-bound line rest entry mid after q own up'.no_lower bound,
      )
