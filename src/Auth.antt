-- ===== src/Auth.antt =====
-- class PasswordAuth of src/auth.h. Of the file system the class sees the contents and the times of
-- its two files; these are arguments of each call that reads them.
pub mod Split
pub mod Files
pub mod Authorize
use graphserv.Prelude.{
  ℕ, ◌≤◌, ◌==◌, leb, if◌then◌else◌, Bool, true, false, ◌||◌, Text, List, [], ◌∷◌, Option, none,
  some, is_empty, same_text,
}
use graphserv.Prelude.Assoc.{lookup}
use graphserv.Access.{AccessLevel}
use graphserv.External.{Env, CredentialFiles}
use graphserv.Outcome.{Outcome, ok, fails, exits, undefined, ◌>>=◌}
use Split.{split_line}
unfoldable pub use Files.{read_credential_files}
pub use Files.{UserInfo, Users}

pub record PasswordAuth : Type 0 where
  pub users : Users
  pub last_cache_refresh : ℕ

-- What the call of readCredentialFiles at time `now` leaves; its Boolean result is not looked at.
after_read : Outcome Users → PasswordAuth → Outcome PasswordAuth
after_read (ok users) auth = ok (record auth { users = users })
after_read fails auth = ok auth
after_read exits auth = exits
after_read undefined auth = undefined

-- the constructor, which reads the files and then sets the time
unfoldable pub create : CredentialFiles → ℕ → Outcome PasswordAuth
unfolding after_read
create files now =
    after_read (read_credential_files files) (record { users = []; last_cache_refresh = now })

-- the tests of refreshFileCache: `none` where a stat fails and the function returns
needs_refresh : CredentialFiles → ℕ → Option Bool
needs_refresh files last = elim files.htpasswd_mtime [
  | none ↦ none
  | some passwd ↦
      if leb last passwd
      then some true
      else elim files.group_mtime [ none ↦ none | some group ↦ some (leb last group) ]
]

unfoldable pub refresh_file_cache : CredentialFiles → ℕ → PasswordAuth → Outcome PasswordAuth
unfolding needs_refresh after_read
refresh_file_cache files now auth = elim (needs_refresh files auth.last_cache_refresh) [
  | none ↦ ok auth
  | some false ↦ ok auth
  | some true ↦ after_read (read_credential_files files) (record auth { last_cache_refresh = now })
]

module _ (env : Env) where
  -- the test of the password of a user that was found: where crypt() answers NULL, the comparison
  -- of that with the hash is undefined
  check_password : Text → Option UserInfo → Outcome (Option AccessLevel)
  check_password password none = ok none
  check_password password (some info) = elim (env.crypt password info.hash) [
    | none ↦ undefined
    | some crypted ↦ ok (if same_text crypted info.hash then some info.access_level else none)
  ]

  -- authorize after the split of the credentials: `none` is the result false
  check_credentials : List Text → Users → Outcome (Option AccessLevel)
  unfolding check_password
  check_credentials (user ∷ password ∷ []) users =
      if is_empty user || is_empty password
      then ok none
      else check_password password (lookup user users)
  check_credentials _ users = ok none

  -- the credentials after the refresh
  check_after : Text → PasswordAuth → Outcome (PasswordAuth × Option AccessLevel)
  unfolding check_credentials
  check_after credentials auth = elim (split_line credentials b':') [
    | none ↦ undefined
    | some cred ↦ check_credentials cred auth.users >>= λ level. ok (auth, level)
  ]

  unfoldable pub authorize :
      CredentialFiles → ℕ → Text → PasswordAuth → Outcome (PasswordAuth × Option AccessLevel)
  unfolding check_after
  authorize files now credentials auth =
      refresh_file_cache files now auth >>= check_after credentials
