-- ===== src/Auth/Authorize.antt =====
-- When authorize succeeds, and what a refresh of the cached tables leaves.
use graphserv.Prelude.{
  if◌then◌else◌, ℕ, ◌≡◌, ◌≢◌, ◌≤◌, ◌↔◌, refl, ap, ◌∙◌, leb, true, false, Bool-cases, Option-cases,
  ◌⊎◌, inl, inr, Text, List, [], ◌∷◌, Option, none, some, same_text, same_text-eq, same_text_refl,
  arith,
}
use graphserv.Prelude.Assoc.{lookup}
use graphserv.Access.{AccessLevel}
use graphserv.External.{Env, CredentialFiles}
use graphserv.Outcome.{Outcome, ok, fails, exits, undefined, >>=-eq-ok, ◌>>=◌}
use graphserv.Auth.Split.{split_line}
use graphserv.Auth.Split.Fields.{IsBlank, split_line-undefined}
use graphserv.Auth.Files.{read_credential_files}
use graphserv.Auth
use graphserv.Auth.{
  PasswordAuth, UserInfo, Users, after_read, needs_refresh, refresh_file_cache, check_password,
  check_credentials, check_after, authorize,
}

module _ (env : Env) where
  -- The credentials are user:password, of a user in the table whose hash the password reproduces.
  pub record Accepts (users : Users) (credentials : Text) (level : AccessLevel) : Type 0 where
    pub user : Text
    pub password : Text
    pub info : UserInfo
    pub split : split_line credentials b':' ≡ some (user ∷ password ∷ [])
    pub has_user : user ≢ []
    pub has_password : password ≢ []
    pub found : lookup user users ≡ some info
    pub hash_matches : env.crypt password info.hash ≡ some info.hash
    pub level_eq : info.access_level ≡ level

  check_credentials-Accepts :
      (users : Users) (credentials : Text) (cred : List Text) (level : AccessLevel)
      → split_line credentials b':' ≡ some cred
      → check_credentials env cred users ≡ ok (some level)
      → Accepts users credentials level
  unfolding check_credentials
  check_credentials-Accepts users credentials [] level s e = cc
  check_credentials-Accepts users credentials (u ∷ []) level s e = cc
  check_credentials-Accepts users credentials ([] ∷ p ∷ []) level s e = cc
  check_credentials-Accepts users credentials ((c ∷ u) ∷ [] ∷ []) level s e = cc
  check_credentials-Accepts users credentials ((c ∷ u) ∷ (d ∷ p) ∷ []) level s e =
      elim (Option-cases (lookup (c ∷ u) users)) [
        | inl missing ↦ let q : ok none ≡ ok (some level) = rw (missing, check_password) at e in cc
        | inr (info, found) ↦ elim (Option-cases (env.crypt (d ∷ p) info.hash)) [
          | inl null ↦
              let q : undefined ≡ ok (some level) = rw (found, check_password, null) at e in cc
          | inr (crypted, answer) ↦ elim (Bool-cases (same_text crypted info.hash)) [
            | inl same ↦
                let q : ok (some info.access_level) ≡ ok (some level) =
                  rw (found, check_password, answer, same) at e in
                record {
                  user = c ∷ u;
                  password = d ∷ p;
                  info = info;
                  split = s;
                  has_user = λ n. cc;
                  has_password = λ n. cc;
                  found = found;
                  hash_matches = answer ∙ ap some (same_text-eq _ _ same);
                  level_eq = cc;
                }
            | inr other ↦
                let q : ok none ≡ ok (some level) =
                  rw (found, check_password, answer, other) at e in
                cc
          ]
        ]
      ]
  check_credentials-Accepts users credentials (u ∷ p ∷ x ∷ rest) level s e = cc

  Accepts-check_credentials :
      (users : Users) (credentials : Text) (level : AccessLevel)
      (a : Accepts users credentials level)
      → check_credentials env (a.user ∷ a.password ∷ []) users ≡ ok (some level)
  unfolding check_credentials
  Accepts-check_credentials users credentials level a =
      go a.user a.password a.has_user a.has_password a.found a.hash_matches
    where
      go :
          (u p : Text)
          → u ≢ []
          → p ≢ []
          → lookup u users ≡ some a.info
          → env.crypt p a.info.hash ≡ some a.info.hash
          → check_credentials env (u ∷ p ∷ []) users ≡ ok (some level)
      go [] p nu np f m = absurd (nu refl)
      go (c ∷ u) [] nu np f m = absurd (np refl)
      go (c ∷ u) (d ∷ p) nu np f m =
          rw (f, check_password)
            (rw (m, same_text_refl a.info.hash) (ap (λ l. ok (some l)) a.level_eq))

  -- After a refresh that ends in a table, authorize grants a level exactly when the credentials are
  -- user:password with both parts non-empty, the user is in the table, crypt() of the password gives
  -- the stored hash, and the level is the one stored for the user.
  pub authorize-Accepts :
      (files : CredentialFiles) (now : ℕ) (credentials : Text) (auth auth' : PasswordAuth)
      (level : AccessLevel)
      → refresh_file_cache files now auth ≡ ok auth'
      → (authorize env files now credentials auth ≡ ok (auth', some level))
        ↔ Accepts auth'.users credentials level
  unfolding authorize
  authorize-Accepts files now credentials auth auth' level r = (to, from)
    where
      to :
          authorize env files now credentials auth ≡ ok (auth', some level)
          → Accepts auth'.users credentials level
      to e = elim (Option-cases (split_line credentials b':')) [
        | inl bad ↦
            let q : undefined ≡ ok (auth', some level) = rw (authorize, r, check_after, bad) at e in
            cc
        | inr (cred, s) ↦
            let (l, granted, same) =
              >>=-eq-ok (check_credentials env cred auth'.users) (λ level. ok (auth', level))
                (rw (authorize, r, check_after, s) at e) in
            let own : l ≡ some level = cc in
            check_credentials-Accepts auth'.users credentials cred level s (granted ∙ ap ok own)
      ]

      from :
          Accepts auth'.users credentials level
          → authorize env files now credentials auth ≡ ok (auth', some level)
      from a =
          rw
            (
              authorize,
              r,
              check_after,
              a.split,
              Accepts-check_credentials auth'.users credentials level a,
            )
            refl

  -- Credentials of white space only make authorize read before the start of the string: its
  -- behaviour is undefined whenever the refresh before it returns.
  pub authorize-undefined :
      (files : CredentialFiles) (now : ℕ) (credentials : Text) (auth auth' : PasswordAuth)
      → refresh_file_cache files now auth ≡ ok auth'
      → credentials ≢ []
      → IsBlank credentials
      → authorize env files now credentials auth ≡ undefined
  unfolding authorize
  authorize-undefined files now credentials auth auth' r ne blank =
      rw (authorize, r, check_after, (split_line-undefined credentials b':').1 (ne, blank))

-- One of the files has changed since the last refresh.
abbrev pub HasChanged : CredentialFiles → ℕ → Type 0
HasChanged files last =
    ((t : ℕ) × (files.htpasswd_mtime ≡ some t) × (last ≤ t))
    ⊎ ((t : ℕ) × (files.group_mtime ≡ some t) × (last ≤ t))

needs_refresh-HasChanged :
    (files : CredentialFiles) (last : ℕ)
    → needs_refresh files last ≡ some true
    → HasChanged files last
unfolding needs_refresh
needs_refresh-HasChanged files last e = elim (Option-cases files.htpasswd_mtime) [
  | inl no_stat ↦ let q : none ≡ some true = rw no_stat at e in cc
  | inr (t, p) ↦ elim (Bool-cases (leb last t)) [
    | inl newer ↦ inl (t, p, ground arith)
    | inr older ↦ elim (Option-cases files.group_mtime) [
      | inl no_stat ↦ let q : none ≡ some true = rw (p, older, no_stat) at e in cc
      | inr (g, p') ↦
          let q : some (leb last g) ≡ some true = rw (p, older, p') at e in
          let le : leb last g ≡ true = cc in inr (g, p', ground arith)
    ]
  ]
]

after_read-cases :
    (r : Outcome Users) (auth auth' : PasswordAuth)
    → after_read r auth ≡ ok auth'
    → (auth'.last_cache_refresh ≡ auth.last_cache_refresh)
      × ((r ≡ ok auth'.users) ⊎ ((r ≡ fails) × (auth'.users ≡ auth.users)))
unfolding after_read
after_read-cases (ok users) auth auth' e = ground arith
after_read-cases fails auth auth' e = ground arith
after_read-cases exits auth auth' e = cc
after_read-cases undefined auth auth' e = cc

-- A refresh that returns either changes nothing, or one of the files has changed since the last
-- refresh, the time is set, and the table is the whole content of the two files or, if they do not
-- parse, the old one.
pub refresh_file_cache-cases :
    (files : CredentialFiles) (now : ℕ) (auth auth' : PasswordAuth)
    → refresh_file_cache files now auth ≡ ok auth'
    → (auth' ≡ auth)
      ⊎ (HasChanged files auth.last_cache_refresh
          × (auth'.last_cache_refresh ≡ now)
          × ((read_credential_files files ≡ ok auth'.users)
              ⊎ ((read_credential_files files ≡ fails) × (auth'.users ≡ auth.users))))
unfolding refresh_file_cache
refresh_file_cache-cases files now auth auth' e =
    elim (Option-cases (needs_refresh files auth.last_cache_refresh)) [
      | inl no_stat ↦ let q : ok auth ≡ ok auth' = rw (refresh_file_cache, no_stat) at e in inl (cc)
      | inr (false, same) ↦
          let q : ok auth ≡ ok auth' = rw (refresh_file_cache, same) at e in inl (cc)
      | inr (true, newer) ↦
          let (time, table) =
            after_read-cases (read_credential_files files)
              (record auth { last_cache_refresh = now }) auth'
              (rw (refresh_file_cache, newer) at e) in
          inr (needs_refresh-HasChanged files auth.last_cache_refresh newer, time, table)
    ]

-- The htpasswd file is there, and it or the group file is not older than the last refresh.
abbrev pub NeedsReading : CredentialFiles → ℕ → Type 0
NeedsReading files last =
    (t : ℕ) × (files.htpasswd_mtime ≡ some t)
    × ((last ≤ t) ⊎ ((g : ℕ) × (files.group_mtime ≡ some g) × (last ≤ g)))

-- What reading the files at time `now` leaves of the tables.
abbrev pub reread : Outcome Users → ℕ → PasswordAuth → Outcome PasswordAuth
reread read now auth = elim read [
  | ok users ↦ ok (record { users = users; last_cache_refresh = now })
  | fails ↦ ok (record { users = auth.users; last_cache_refresh = now })
  | exits ↦ exits
  | undefined ↦ undefined
]

after_read-reread :
    (read : Outcome Users) (now : ℕ) (auth : PasswordAuth)
    → after_read read (record auth { last_cache_refresh = now }) ≡ reread read now auth
unfolding after_read
after_read-reread (ok users) now auth = refl
after_read-reread fails now auth = refl
after_read-reread exits now auth = refl
after_read-reread undefined now auth = refl

NeedsReading-needs_refresh :
    (files : CredentialFiles) (last : ℕ)
    → NeedsReading files last
    → needs_refresh files last ≡ some true
unfolding needs_refresh
NeedsReading-needs_refresh files last (t, stat, why) = elim (Bool-cases (leb last t)) [
  | inl newer ↦ rw (stat, newer) refl
  | inr older ↦ elim why [
    | inl newer ↦ ground arith
    | inr (g, group, newer) ↦
        let le : leb last g ≡ true = ground arith in rw (stat, older, group, le) refl
  ]
]

needs_refresh-NeedsReading :
    (files : CredentialFiles) (last : ℕ)
    → needs_refresh files last ≡ some true
    → NeedsReading files last
unfolding needs_refresh
needs_refresh-NeedsReading files last e = elim (Option-cases files.htpasswd_mtime) [
  | inl no_stat ↦ let q : none ≡ some true = rw no_stat at e in cc
  | inr (t, p) ↦ elim (Bool-cases (leb last t)) [
    | inl newer ↦ (t, p, inl (ground arith))
    | inr older ↦ elim (Option-cases files.group_mtime) [
      | inl no_stat ↦ let q : none ≡ some true = rw (p, older, no_stat) at e in cc
      | inr (g, p') ↦
          let q : some (leb last g) ≡ some true = rw (p, older, p') at e in
          let le : leb last g ≡ true = cc in (t, p, inr (g, p', ground arith))
    ]
  ]
]

-- A refresh reads both files exactly when the htpasswd file can be examined and it or, if it can be
-- examined, the group file is not older than the last refresh: then the time is set, and the table is
-- what the files hold or, if they do not parse, the old one. Otherwise a refresh changes nothing.
pub refresh_file_cache-NeedsReading :
    (files : CredentialFiles) (now : ℕ) (auth : PasswordAuth)
    → (NeedsReading files auth.last_cache_refresh
        → refresh_file_cache files now auth ≡ reread (read_credential_files files) now auth)
      × ((¬ NeedsReading files auth.last_cache_refresh)
          → refresh_file_cache files now auth ≡ ok auth)
unfolding refresh_file_cache
refresh_file_cache-NeedsReading files now auth = (
  (λ needs.
      rw (refresh_file_cache, NeedsReading-needs_refresh files auth.last_cache_refresh needs)
        (after_read-reread (read_credential_files files) now auth)),
  (λ not_needed. elim (Option-cases (needs_refresh files auth.last_cache_refresh)) [
    | inl no_stat ↦ rw (refresh_file_cache, no_stat) refl
    | inr (false, same) ↦ rw (refresh_file_cache, same) refl
    | inr (true, newer) ↦
        absurd (not_needed (needs_refresh-NeedsReading files auth.last_cache_refresh newer))
  ]),
)

-- authorize returns only if the refresh before it does, and then with the table of the refresh.
pub authorize-refreshed :
    (env : Env) (files : CredentialFiles) (now : ℕ) (credentials : Text) (auth auth' : PasswordAuth)
    (level : Option AccessLevel)
    → authorize env files now credentials auth ≡ ok (auth', level)
    → refresh_file_cache files now auth ≡ ok auth'
unfolding authorize
authorize-refreshed env files now credentials auth auth' level e =
    let (mid, r, done) =
      >>=-eq-ok (refresh_file_cache files now auth) (check_after env credentials) e in
    elim (Option-cases (split_line credentials b':')) [
      | inl bad ↦ let q : undefined ≡ ok (auth', level) = rw (bad, check_after) at done in cc
      | inr (cred, s) ↦
          let (l, _, own) =
            >>=-eq-ok (check_credentials env cred mid.users) (λ level. ok (mid, level))
              (rw (s, check_after) at done) in
          let same : mid ≡ auth' = cc in r ∙ ap ok same
    ]

-- The constructor begins with the content of the files, or without users if they do not parse.
pub create-cases :
    (files : CredentialFiles) (now : ℕ) (auth : PasswordAuth)
    → Auth.create files now ≡ ok auth
    → (read_credential_files files ≡ ok auth.users) ⊎ (auth.users ≡ [])
unfolding Auth.create
create-cases files now auth e =
    elim ((after_read-cases (read_credential_files files)
      (record { users = []; last_cache_refresh = now }) auth e).1) [
        | inl read ↦ inl read
        | inr (bad, same) ↦ inr same
      ]

-- The password of a user of the table cannot be tested: crypt() answers NULL for it.
pub record HasNoCrypt (env : Env) (users : Users) (credentials : Text) : Type 0 where
  pub user : Text
  pub password : Text
  pub info : UserInfo
  pub split : split_line credentials b':' ≡ some (user ∷ password ∷ [])
  pub found : lookup user users ≡ some info
  pub null : env.crypt password info.hash ≡ none

check_credentials-cases :
    (env : Env) (credentials : Text) (cred : List Text) (users : Users)
    → split_line credentials b':' ≡ some cred
    → ((l : Option AccessLevel) × (check_credentials env cred users ≡ ok l))
      ⊎ HasNoCrypt env users credentials
unfolding check_credentials check_password
check_credentials-cases env credentials [] users s = inl (none, refl)
check_credentials-cases env credentials (u ∷ []) users s = inl (none, refl)
check_credentials-cases env credentials ([] ∷ p ∷ []) users s = inl (none, refl)
check_credentials-cases env credentials ((c ∷ u) ∷ [] ∷ []) users s = inl (none, refl)
check_credentials-cases env credentials ((c ∷ u) ∷ (d ∷ p) ∷ []) users s =
    elim (Option-cases (lookup (c ∷ u) users)) [
      | inl missing ↦ inl (none, rw (missing, check_password) refl)
      | inr (info, found) ↦ elim (Option-cases (env.crypt (d ∷ p) info.hash)) [
        | inl null ↦ inr (record {
          user = c ∷ u;
          password = d ∷ p;
          info = info;
          split = s;
          found = found;
          null = null;
        })
        | inr (crypted, answer) ↦ inl (
          if same_text crypted info.hash then some info.access_level else none,
          rw (found, check_password, answer) refl,
        )
      ]
    ]
check_credentials-cases env credentials (u ∷ p ∷ x ∷ rest) users s = inl (none, refl)

-- Why authorize may not return.
abbrev pub AuthorizeTrouble : Env → CredentialFiles → ℕ → Text → PasswordAuth → Type 0
AuthorizeTrouble env files now credentials auth =
    ((credentials ≢ []) × IsBlank credentials)
    ⊎ ((auth' : PasswordAuth) → refresh_file_cache files now auth ≢ ok auth')
    ⊎ ((auth' : PasswordAuth) × (refresh_file_cache files now auth ≡ ok auth')
        × HasNoCrypt env auth'.users credentials)

pub authorize-cases :
    (env : Env) (files : CredentialFiles) (now : ℕ) (credentials : Text) (auth : PasswordAuth)
    → ((x : PasswordAuth × Option AccessLevel) × (authorize env files now credentials auth ≡ ok x))
      ⊎ AuthorizeTrouble env files now credentials auth
unfolding authorize check_after
authorize-cases env files now credentials auth = refreshed (refresh_file_cache files now auth) refl
  where
    refreshed :
        (r : Outcome PasswordAuth)
        → refresh_file_cache files now auth ≡ r
        → ((x : PasswordAuth × Option AccessLevel) × ((r >>= check_after env credentials) ≡ ok x))
          ⊎ AuthorizeTrouble env files now credentials auth
    refreshed (ok mid) r = elim (Option-cases (split_line credentials b':')) [
      | inl bad ↦ inr (inl ((split_line-undefined credentials b':').0 bad))
      | inr (cred, s) ↦ elim (check_credentials-cases env credentials cred mid.users s) [
        | inl (l, done) ↦ inl ((mid, l), rw (check_after, s, done) refl)
        | inr null ↦ inr (inr (inr (mid, r, null)))
      ]
    ]
    refreshed fails r = inr (inr (inl (λ auth' e. cc)))
    refreshed exits r = inr (inr (inl (λ auth' e. cc)))
    refreshed undefined r = inr (inr (inl (λ auth' e. cc)))
