-- ===== src/Tests/Fixture.antt =====
-- A concrete system below the program: a simple splitter, a core with three commands, and a write(2)
-- that takes one byte at its second call and nothing at its third.
use graphserv.Prelude.{
  ◌+◌, ℕ, suc, ◌==◌, if◌then◌else◌, Bool, true, false, ◌&&◌, ◌||◌, Text, codes, List, [], ◌∷◌, ◌++◌,
  Option, none, some, contains, is_empty, length, same_text,
}
use graphserv.Access.{AccessLevel, access_read, access_write}
use graphserv.External.{Env, Written, wrote, would_block, CredentialFiles, fork_fails}

-- the words of a text between any of the separators, with the word that is being read
abbrev words_loop : Text → Text → Text → List Text
words_loop seps word [] = if is_empty word then [] else word ∷ []
words_loop seps word (c ∷ rest) =
    let here = words_loop seps (word ++ c ∷ []) rest in
    let next = words_loop seps [] rest in
    if contains c seps then (if is_empty word then next else word ∷ next) else here

abbrev pub index_of : Text → List Text → Option ℕ
index_of name [] = none
index_of name (x ∷ rest) =
    let later = index_of name rest in
    if same_text x name then some 0 else elim later [ none ↦ none | some i ↦ some (suc i) ]

-- a colon at the end of the line
abbrev ends_in_colon : Text → Bool
ends_in_colon [] = false
ends_in_colon (c ∷ rest) = (c == b':' && same_text rest (10 ∷ [])) || ends_in_colon rest

abbrev answer : ℕ → Text → Written
answer n s = if n == 1 then wrote 1 else if n == 2 then would_block else wrote (length s)

abbrev core_commands : Text → Option AccessLevel
core_commands name =
    if same_text name (codes "stats")
    then some access_read
    else if same_text name (codes "clear")
    then some access_write
    else none

-- lea is listed for writing and for administration, jo nowhere
abbrev pub sample_files : CredentialFiles
sample_files = record {
  htpasswd = some (codes "lea:abcdefghijklm" ++ 10 ∷ codes "jo:nopqrstuvwxyz" ++ 10 ∷ []);
  group = some (codes "write:x:1:lea" ++ 10 ∷ codes "admin:x:2:lea" ++ 10 ∷ []);
  htpasswd_mtime = some 7;
  group_mtime = some 9;
}

abbrev pub sample_env : Env
sample_env = record {
  files_at = λ _. sample_files;
  launch = λ _. fork_fails;
  fd_setsize = 1024;
  listen_fds = 3 ∷ 4 ∷ [];
  core_read_fd = λ id. 10 + id;
  core_stderr_fd = λ id. 100 + id;
  sscanf_hex = λ _. none;
  write_returns = λ fd call s. answer call s;
  shutdown_succeeds = λ _. true;
  kill_succeeds = λ _. true;
  error_text = codes "error";
  gettext = λ s. s;
  crypt = λ password hash. some password;
  format = λ s args. s;
  decimal = λ n. n ∷ [];
  decimal_02 = λ n. 0 ∷ n ∷ [];
  split_string = words_loop (32 ∷ 9 ∷ 10 ∷ []) [];
  split_string_by = λ s seps. words_loop seps [] s;
  line_indicates_dataset = ends_in_colon;
  find_command = λ names name. index_of name names;
  syntax_error = λ s. codes "FAILED. Syntax: " ++ s;
  cli_success = λ s. codes "OK. " ++ s;
  cli_failure = λ s. codes "FAILED. " ++ s;
  cli_none = λ s. codes "NONE. " ++ s;
  success_str = codes "OK.";
  fail_str = codes "FAILED.";
  error_str = codes "ERROR.";
  denied_str = codes "DENIED.";
  core_status_strings =
      codes "OK." ∷ codes "FAILED." ∷ codes "ERROR." ∷ codes "NONE." ∷ codes "VALUE." ∷ [];
  cmd_success = 0;
  cmd_failure = 1;
  cmd_error = 2;
  cmd_none = 3;
  cmd_value = 4;
  core_status_count = 5;
  protocol_version = codes "1";
  find_core_command = core_commands;
}
