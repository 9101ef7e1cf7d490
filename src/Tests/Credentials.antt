-- ===== src/Tests/Credentials.antt =====
-- The password authority, names and status codes at concrete inputs.
use graphserv.Prelude.{
  ℕ, ◌≡◌, ◌≤◌, ◌≢◌, ◌↔◌, ◌⊎◌, inl, inr, refl, Bool, true, false, Text, codes, List, [], ◌∷◌, ◌++◌,
  All, same_text, Option, none, some, arith, length,
}
use graphserv.Prelude.Assoc.{lookup}
use graphserv.Prelude.Chars.{is_space}
use graphserv.Access.{AccessLevel, access_read, access_admin}
use graphserv.Outcome.{ok}
use graphserv.Status.{FirstAt, here, there}
use graphserv.Auth.Split.{split_line}
use graphserv.Auth.Split.{fgets_lines}
use graphserv.Auth.Split.Fields.{IsBlank, IsField, split_line-join, split_line-undefined, join}
use graphserv.Auth.Files.{UserInfo, Users, group_loop, read_credential_files}
use graphserv.Auth.Files.Levels.{IsHighest, group_loop-IsHighest}
use graphserv.Auth.Files.Hashes.{HasHashes, read_credential_files-HasHashes}
use graphserv.Auth.{PasswordAuth, refresh_file_cache, authorize}
use graphserv.Auth.Authorize.{
  Accepts, authorize-Accepts, NeedsReading, reread, refresh_file_cache-NeedsReading,
}
use graphserv.Server.{is_valid_graph_name}
use graphserv.Server.Names.{IsGraphName, is_valid_graph_name_iff}
use graphserv.Tests.Fixture.{sample_env, sample_files}

abbrev jo : Text × UserInfo
jo = (codes "jo", record { hash = codes "nopqrstuvwxyz"; access_level = access_read })

abbrev lea : AccessLevel → Text × UserInfo
lea level = (codes "lea", record { hash = codes "abcdefghijklm"; access_level = level })

-- the tables that the htpasswd file, and both files, give
abbrev passwd_users : Users
passwd_users = lea access_read ∷ jo ∷ []

abbrev pub all_users : Users
all_users = lea access_admin ∷ jo ∷ []

abbrev group_lines : List Text
group_lines = (codes "write:x:1:lea" ++ 10 ∷ []) ∷ (codes "admin:x:2:lea" ++ 10 ∷ []) ∷ []

group_lines-ok : group_loop group_lines passwd_users ≡ ok all_users
unfolding group_loop graphserv.Auth.Files.group_line graphserv.Auth.Files.parse_level split_line
    same_text graphserv.Access.access_level_name lookup graphserv.Prelude.Assoc.put
group_lines-ok = refl

lea-found : lookup (codes "lea") passwd_users ≡ some (lea access_read).1
unfolding lookup same_text
lea-found = refl

group_loop-IsHighest_example :
    IsHighest (codes "lea") group_lines (lea access_read).1 (lookup (codes "lea") all_users)
group_loop-IsHighest_example =
    group_loop-IsHighest (codes "lea") group_lines passwd_users all_users (lea access_read).1
      group_lines-ok lea-found

sample_files-ok : read_credential_files sample_files ≡ ok all_users
unfolding read_credential_files graphserv.Auth.Split.fgets_lines split_line
    graphserv.Auth.Files.group_line graphserv.Auth.Files.parse_level same_text
    graphserv.Access.access_level_name lookup graphserv.Prelude.Assoc.put
sample_files-ok = refl

read_credential_files-HasHashes_example : HasHashes all_users
read_credential_files-HasHashes_example =
    read_credential_files-HasHashes sample_files all_users sample_files-ok

-- a cache that is older than the files, and what the refresh makes of it
abbrev old_auth : PasswordAuth
old_auth = record { users = []; last_cache_refresh = 3 }

abbrev new_auth : PasswordAuth
new_auth = record { users = all_users; last_cache_refresh = 20 }

refreshed : refresh_file_cache sample_files 20 old_auth ≡ ok new_auth
unfolding refresh_file_cache read_credential_files graphserv.Auth.Split.fgets_lines split_line
    graphserv.Auth.Files.group_line graphserv.Auth.Files.parse_level same_text
    graphserv.Access.access_level_name lookup graphserv.Prelude.Assoc.put
refreshed = refl

refresh_file_cache-NeedsReading_example :
    (NeedsReading sample_files 3
      → refresh_file_cache sample_files 20 old_auth
        ≡ reread (read_credential_files sample_files) 20 old_auth)
    × ((¬ NeedsReading sample_files 3) → refresh_file_cache sample_files 20 old_auth ≡ ok old_auth)
refresh_file_cache-NeedsReading_example = refresh_file_cache-NeedsReading sample_files 20 old_auth

abbrev credentials : Text
credentials = codes "lea:abcdefghijklm"

authorize-Accepts_example :
    (authorize sample_env sample_files 20 credentials old_auth ≡ ok (new_auth, some access_admin))
    ↔ Accepts sample_env new_auth.users credentials access_admin
authorize-Accepts_example =
    authorize-Accepts sample_env sample_files 20 credentials old_auth new_auth access_admin
      refreshed

abbrev blanks : Text
blanks = codes "  "

blanks-IsBlank : IsBlank blanks
unfolding is_space
blanks-IsBlank = (refl, (refl, tt))

split_line-undefined_example : (split_line blanks b':' ≡ none) ↔ ((blanks ≢ []) × IsBlank blanks)
split_line-undefined_example = split_line-undefined blanks b':'

abbrev two_fields : List Text
two_fields = codes "jo" ∷ codes "x" ∷ []

fields-free : All (IsField b':') two_fields
fields-free = ((refl, (refl, tt)), ((refl, tt), tt))

two_fields-join : join b':' two_fields ≡ codes "jo:" ++ b'x' ∷ []
unfolding join
two_fields-join = refl

x-solid : is_space b'x' ≡ false
unfolding is_space
x-solid = refl

newline-IsBlank : IsBlank (10 ∷ [])
unfolding is_space
newline-IsBlank = (refl, tt)

split_line-join_example : split_line (join b':' two_fields ++ 10 ∷ []) b':' ≡ some two_fields
split_line-join_example =
    split_line-join b':' two_fields (codes "jo:") b'x' (10 ∷ []) fields-free two_fields-join x-solid
      newline-IsBlank

is_valid_graph_name_iff_example :
    (is_valid_graph_name (codes "a-1") ≡ true) ↔ IsGraphName (codes "a-1")
is_valid_graph_name_iff_example = is_valid_graph_name_iff (codes "a-1")

fail_str-FirstAt : FirstAt sample_env (codes "FAILED.") sample_env.core_status_strings 1
fail_str-FirstAt = there (λ e. cc) (here _)
