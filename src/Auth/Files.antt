-- ===== src/Auth/Files.antt =====
-- PasswordAuth::readCredentialFiles of src/auth.h.
pub mod Levels
pub mod Hashes
use graphserv.Prelude.{
  ℕ, zero, suc, ◌==◌, if◌then◌else◌, Bool, true, false, ◌||◌, not, Text, List, [], ◌∷◌, Option,
  none, some, length, is_empty, same_text,
}
use graphserv.Prelude.Assoc.{lookup, put}
use graphserv.Access.{
  AccessLevel, access_read, access_write, access_admin, access_level_name, level_above,
}
use graphserv.Auth.Split.{split_line, fgets_lines}
use graphserv.External.{CredentialFiles}
use graphserv.Outcome.{Outcome, ok, fails, exits, undefined, ◌>>=◌, or_undefined, or_exits}

pub record UserInfo : Type 0 where
  pub hash : Text
  pub access_level : AccessLevel

abbrev pub Users : Type 0
Users = List (Text × UserInfo)

-- one line of the htpasswd file, split
passwd_fields : List Text → Users → Outcome Users
passwd_fields [] users = ok users
passwd_fields (user ∷ hash ∷ []) users =
    if is_empty user || not (length hash == 13)
    then fails
    else ok (put user (record { hash = hash; access_level = access_read }) users)
passwd_fields _ users = fails

unfoldable pub passwd_loop : List Text → Users → Outcome Users
unfolding passwd_fields
passwd_loop [] users = ok users
passwd_loop (line ∷ rest) users = or_undefined (split_line line b':') >>= λ fields.
    passwd_fields fields users >>= passwd_loop rest

unfoldable pub parse_level : Text → Option AccessLevel
parse_level name =
    if same_text name (access_level_name access_read)
    then some access_read
    else if same_text name (access_level_name access_write)
    then some access_write
    else if same_text name (access_level_name access_admin)
    then some access_admin
    else none

-- one user of a line of the group file
raise : AccessLevel → Option UserInfo → Text → Users → Users
raise level none user users = users
raise level (some info) user users =
    if level_above level info.access_level
    then put user (record info { access_level = level }) users
    else users

unfoldable pub elevate : AccessLevel → List Text → Users → Users
unfolding raise
elevate level [] users = users
elevate level (user ∷ rest) users = elevate level rest (raise level (lookup user users) user users)

-- one line of the group file, split: no entry for an empty line, or a level and its users
pub group_fields : List Text → Outcome (Option (AccessLevel × List Text))
group_fields [] = ok none
group_fields (name ∷ password ∷ gid ∷ members ∷ []) =
    if is_empty name then fails else elim (parse_level name) [
      | none ↦ fails
      | some level ↦ or_undefined (split_line members b',') >>= λ names. ok (some (level, names))
    ]
group_fields _ = fails

unfoldable pub group_line : Text → Outcome (Option (AccessLevel × List Text))
unfolding group_fields
group_line line = or_undefined (split_line line b':') >>= group_fields

apply_group : Option (AccessLevel × List Text) → Users → Users
unfolding elevate
apply_group none users = users
apply_group (some (level, names)) users = elevate level names users

unfoldable pub group_loop : List Text → Users → Outcome Users
unfolding apply_group
group_loop [] users = ok users
group_loop (line ∷ rest) users =
    group_line line >>= λ entry. group_loop rest (apply_group entry users)

-- The new table, which replaces the old one only if both files were read to their ends.
unfoldable pub read_credential_files : CredentialFiles → Outcome Users
unfolding passwd_loop group_loop
read_credential_files files = do
  passwd ← or_exits files.htpasswd
  users ← passwd_loop (fgets_lines passwd) []
  groups ← or_exits files.group
  group_loop (fgets_lines groups) users
