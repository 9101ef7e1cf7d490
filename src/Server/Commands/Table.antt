-- ===== src/Server/Commands/Table.antt =====
-- The table of server commands: the names that ServCli::ServCli of src/main.cpp registers.
use graphserv.Prelude.{
  ℕ, zero, suc, ◌≡◌, ◌≢◌, ◌↔◌, inl, inr, refl, sym, ap, ◌∙◌, if◌then◌else◌, Option-cases, Text,
  List, [], ◌∷◌, Option, none, some, get_elem?, same_text,
}
use graphserv.External.{Env, FindsByName}
use graphserv.Server.{
  ServCmd, create_graph, use_graph, authorize, help, drop_graph, list_graphs, session_info,
  server_stats, protocol_version, quit, shutdown,
}
use graphserv.Server.Commands.{commands, command_name, command_names, command_index, find_command}

-- findCommand finds a command if there is one of the name.
abbrev pub FindsPresent : Env → Type 0
FindsPresent env =
    (names : List Text) (name : Text) (i : ℕ)
    → get_elem? names i ≡ some name
    → env.find_command names name ≢ none

-- the place of a name on a list
place : Text → List Text → ℕ
place name [] = 0
place name (n ∷ rest) = let more = place name rest in if same_text n name then 0 else suc more

place-command_name :
    (cmd : ServCmd) → place (command_name cmd) (command_names commands) ≡ command_index cmd
unfolding place command_name command_names command_index same_text
place-command_name create_graph = refl
place-command_name use_graph = refl
place-command_name authorize = refl
place-command_name help = refl
place-command_name drop_graph = refl
place-command_name list_graphs = refl
place-command_name session_info = refl
place-command_name server_stats = refl
place-command_name protocol_version = refl
place-command_name quit = refl
place-command_name shutdown = refl

command_index-elem : (cmd : ServCmd) → get_elem? commands (command_index cmd) ≡ some cmd
unfolding command_index get_elem?
command_index-elem create_graph = refl
command_index-elem use_graph = refl
command_index-elem authorize = refl
command_index-elem help = refl
command_index-elem drop_graph = refl
command_index-elem list_graphs = refl
command_index-elem session_info = refl
command_index-elem server_stats = refl
command_index-elem protocol_version = refl
command_index-elem quit = refl
command_index-elem shutdown = refl

command_name-injective : (a b : ServCmd) → command_name a ≡ command_name b → a ≡ b
command_name-injective a b e =
    let same : command_index a ≡ command_index b =
      sym (place-command_name a)
      ∙ ap (λ n. place n (command_names commands)) e
      ∙ place-command_name b in
    let q : some a ≡ some b =
      sym (command_index-elem a) ∙ ap (λ i. get_elem? commands i) same ∙ command_index-elem b in
    cc

names-elem :
    (l : List ServCmd) (i : ℕ) (name : Text)
    → get_elem? (command_names l) i ≡ some name
    → (cmd : ServCmd) × (get_elem? l i ≡ some cmd) × (name ≡ command_name cmd)
unfolding command_names get_elem?
names-elem [] zero name e = cc
names-elem [] (suc i) name e = cc
names-elem (cmd ∷ l) zero name e =
    let q : some (command_name cmd) ≡ some name = e in (cmd, refl, cc)
names-elem (cmd ∷ l) (suc i) name e = names-elem l i name e

elem-names :
    (l : List ServCmd) (i : ℕ) (cmd : ServCmd)
    → get_elem? l i ≡ some cmd
    → get_elem? (command_names l) i ≡ some (command_name cmd)
unfolding command_names get_elem?
elem-names [] zero cmd e = cc
elem-names [] (suc i) cmd e = cc
elem-names (c ∷ l) zero cmd e =
    let q : some c ≡ some cmd = e in let same : c ≡ cmd = cc in ap (λ d. some (command_name d)) same
elem-names (c ∷ l) (suc i) cmd e = elem-names l i cmd e

module _ (env : Env) where
  -- If findCommand of the submodule answers with a command of the name whenever there is one, the
  -- server finds a command exactly under its own name.
  pub find_command_iff :
      (name : Text) (cmd : ServCmd)
      → FindsByName env
      → FindsPresent env
      → (find_command env name ≡ some cmd) ↔ (name ≡ command_name cmd)
  unfolding find_command
  find_command_iff name cmd by_name present = (to (env.find_command names name) refl, from)
    where
      names : List Text
      names = command_names commands

      to :
          (o : Option ℕ)
          → env.find_command names name ≡ o
          → elim o [ none ↦ none | some i ↦ get_elem? commands i ] ≡ some cmd
          → name ≡ command_name cmd
      to none f e = cc
      to (some i) f e =
          let (d, at, own) = names-elem commands i name (by_name names name i f) in
          let q : some d ≡ some cmd = sym at ∙ e in
          let same : d ≡ cmd = cc in own ∙ ap command_name same

      from : name ≡ command_name cmd → find_command env name ≡ some cmd
      from own = elim (Option-cases (env.find_command names name)) [
        | inl f ↦
            let there : get_elem? names (command_index cmd) ≡ some name =
              elem-names commands (command_index cmd) cmd (command_index-elem cmd)
              ∙ ap some (sym own) in
            elim (present names name (command_index cmd) there f) [ ]
        | inr (i, f) ↦
            let (d, at, name_of) = names-elem commands i name (by_name names name i f) in
            let same = command_name-injective d cmd (sym name_of ∙ own) in
            rw (find_command, f) (at ∙ ap some same)
      ]
