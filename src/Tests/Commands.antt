-- ===== src/Tests/Commands.antt =====
-- Commands and their names at concrete inputs.
use graphserv.Outcome.{Ends}
use graphserv.Prelude.{
  ℕ, zero, suc, ◌≡◌, ◌≢◌, ◌↔◌, inl, inr, refl, true, false, Bool-cases, Text, codes, List, [], ◌∷◌,
  ◌++◌, Option, none, some, get_elem?, same_text, same_text-eq, same_text_refl, All, ap, arith,
}
use graphserv.External.{FindsByName}
use graphserv.Server.{quit}
use graphserv.Server.Commands.{find_command, command_name}
use graphserv.Server.Commands.Table.{FindsPresent, find_command_iff}
use graphserv.Server.Dispatch.{line_from_client}
use graphserv.Server.Processed.Endings.Lines.{CommandTrouble, command_of, line_from_client-Ends}
use graphserv.Core.Entry.{read_lines}
use graphserv.Core.Lines.{received, read_lines-received}
use graphserv.Tests.Fixture.{sample_env, index_of}
use graphserv.Tests.Sessions.{connected_client}

-- behind the first name
index_of-rest :
    (x name : Text) (rest : List Text) (i : ℕ) (o : Option ℕ)
    → ((k : ℕ) → o ≡ some k → get_elem? rest k ≡ some name)
    → elim o [ none ↦ none | some k ↦ some (suc k) ] ≡ some i
    → get_elem? (x ∷ rest) i ≡ some name
index_of-rest x name rest i none ih q = cc
index_of-rest x name rest i (some k) ih q = let at : i ≡ suc k = cc in rw at (ih k refl)

index_of-own :
    (names : List Text) (name : Text) (i : ℕ)
    → index_of name names ≡ some i
    → get_elem? names i ≡ some name
index_of-own [] name i e = cc
index_of-own (x ∷ rest) name i e = elim (Bool-cases (same_text x name)) [
  | inl s ↦
      let q : some 0 ≡ some i = rw s at e in
      let at : i ≡ 0 = cc in rw at (ap some (same_text-eq x name s))
  | inr s ↦
      index_of-rest x name rest i (index_of name rest) (λ k f. index_of-own rest name k f)
        (rw s at e)
]

sample_env-FindsByName : FindsByName sample_env
sample_env-FindsByName names name i e = index_of-own names name i e

some-later : (o : Option ℕ) → o ≢ none → elim o [ none ↦ none | some k ↦ some (suc k) ] ≢ none
some-later none ne e = ne refl
some-later (some k) ne e = cc

index_of-found :
    (names : List Text) (name : Text) (i : ℕ)
    → get_elem? names i ≡ some name
    → index_of name names ≢ none
index_of-found [] name i e q = cc
index_of-found (x ∷ rest) name zero e q =
    let same : x ≡ name = cc in
    let s : same_text x name ≡ true = rw same (same_text_refl name) in
    let no : some 0 ≡ none = rw s at q in cc
index_of-found (x ∷ rest) name (suc i) e q = elim (Bool-cases (same_text x name)) [
  | inl s ↦ let no : some 0 ≡ none = rw s at q in cc
  | inr s ↦ some-later (index_of name rest) (index_of-found rest name i e) (rw s at q)
]

sample_env-FindsPresent : FindsPresent sample_env
sample_env-FindsPresent names name i e = index_of-found names name i e

find_command_iff_example :
    (find_command sample_env (codes "quit") ≡ some quit) ↔ (codes "quit" ≡ command_name quit)
find_command_iff_example =
    find_command_iff sample_env (codes "quit") quit sample_env-FindsByName sample_env-FindsPresent

-- a line of separators for a core that runs
abbrev separators_line : Text
separators_line = codes "<" ++ 10 ∷ []

line_from_client-Ends_example :
    Ends
      (CommandTrouble sample_env
        (command_of sample_env separators_line connected_client)
        connected_client)
      (line_from_client sample_env false separators_line connected_client)
line_from_client-Ends_example =
    line_from_client-Ends sample_env false separators_line connected_client

abbrev log_text : Text
log_text = codes "ready" ++ 10 ∷ codes "x"

log_text-has_no_nul : All (λ c. c ≢ 0) log_text
log_text-has_no_nul = omega arith

read_lines-received_example :
    (received (read_lines (codes "a") (some log_text)) ≡ codes "a" ++ log_text)
    × (received (read_lines (codes "a") (some (log_text ++ 0 ∷ codes "lost")))
        ≡ codes "a" ++ log_text)
read_lines-received_example =
    read_lines-received (codes "a") log_text (codes "lost") log_text-has_no_nul
