-- ===== src/Server/Instances.antt =====
-- How the map coreInstances of src/servapp.h changes, and what stays true of it.
use graphserv.Prelude.{
  ℕ, ◌≡◌, ◌≢◌, inl, inr, refl, sym, ap, ◌∙◌, if◌then◌else◌, Bool, true, false, ◌&&◌, Bool-cases,
  Text, List, [], ◌∷◌, Option, none, some, All, same_text, same_text_refl,
}
use graphserv.Prelude.Entries.{
  found-All, update-All, insert-All, erase-All, All-map_to, Pairwise, update-Pairwise,
  insert-Pairwise, erase-Pairwise, IsEntry, find-IsEntry, IsEntry-find, IsAscending,
  update-IsAscending, insert-IsAscending, erase-IsAscending,
}
use graphserv.Prelude.Assoc.{find, insert, update, erase}
use graphserv.Access.{AccessLevel, access_admin}
use graphserv.External.{Env}
use graphserv.Core.{CoreInstance, get_name}
use graphserv.Core.Continuity.{HasOneState, Continues}
use graphserv.Core.Exchange.{Exchanges}
use graphserv.Core.Started.{IsStarted, IsStarted-HasOneState}
use graphserv.Server.{Graphserv, find_instance, running, named_loop}

if-some :
    (b : Bool) (x core : CoreInstance)
    → (if b then some x else none) ≡ some core
    → some x ≡ some core
if-some true x core e = e
if-some false x core e = cc

running-some :
    (o : Option CoreInstance) (core : CoreInstance) → running o ≡ some core → o ≡ some core
unfolding running
running-some none core e = cc
running-some (some x) core e = if-some x.process_running x core e

-- an instance that findInstance answers stands in the map
pub find_instance-IsEntry :
    (id : ℕ) (app : Graphserv) (core : CoreInstance)
    → find_instance id app ≡ some core
    → IsEntry id core app.core_instances
unfolding find_instance
find_instance-IsEntry id app core e =
    find-IsEntry id core app.core_instances (running-some (find id app.core_instances) core e)

abbrev pub Instances : Type 0
Instances = List (ℕ × CoreInstance)

-- No running instance of the map has the name.
abbrev pub IsFree : Env → Text → Instances → Type 0
IsFree env name cores = All (λ p. p.1.process_running ≡ true → get_name env p.1 ≢ name) cores

-- What a session of the level can do to the map: queue commands for an instance that is in it, send
-- its first ones, and stop it, or start one under a name that no running instance has. Nothing that
-- was queued is lost or overtaken.
pub data Evolves (env : Env) (level : AccessLevel) : Instances → Instances → Type 0 where
  keep : {a b : Instances} → b ≡ a → Evolves env level a b
  change :
      {a b : Instances} (id : ℕ) (core core' : CoreInstance)
      → IsEntry id core a
      → Continues level core core'
      → Exchanges core core'
      → b ≡ update core'.instance_id core' a
      → Evolves env level a b
  start :
      {a b : Instances} (id : ℕ) (name : Text) (core : CoreInstance)
      → level ≡ access_admin
      → IsFree env (get_name env core) a
      → IsStarted id name core
      → b ≡ insert core.instance_id core a
      → Evolves env level a b
  after :
      {a b c : Instances} → Evolves env level a b → Evolves env level b c → Evolves env level a c

-- Two running instances have different names.
abbrev pub AreApart : Env → ℕ × CoreInstance → ℕ × CoreInstance → Type 0
AreApart env p q =
    p.1.process_running ≡ true → q.1.process_running ≡ true → get_name env p.1 ≢ get_name env q.1

-- Each instance stands under its own ID and never waits for a status line and a data set at once, and
-- the running ones have different names.
pub record AreValid (env : Env) (cores : Instances) : Type 0 where
  pub ascending : IsAscending cores
  pub keyed : All (λ p. p.1.instance_id ≡ p.0) cores
  pub one_state : All (λ p. HasOneState p.1) cores
  pub distinct : Pairwise (AreApart env) cores

module _ (env : Env) where
  pub AreApart-swap : (p q : ℕ × CoreInstance) → AreApart env p q → AreApart env q p
  AreApart-swap p q h = λ rq rp e. h rp rq (sym e)

  get_name-Continues :
      {level : AccessLevel} (core core' : CoreInstance)
      → Continues level core core'
      → get_name env core' ≡ get_name env core
  unfolding get_name
  get_name-Continues core core' k = rw (k.same_id, k.same_name)

  pub Continues-AreApart :
      {level : AccessLevel} (id : ℕ) (core core' : CoreInstance)
      → Continues level core core'
      → (q : ℕ × CoreInstance) → AreApart env (id, core) q
      → AreApart env (id, core') q
  Continues-AreApart id core core' k q h = λ r rq e.
      h (elim k.running [ inl same ↦ sym same ∙ r | inr (stopped, _) ↦ cc ]) rq
        (sym (get_name-Continues core core' k) ∙ e)

  -- a change of an instance that is in the map
  pub update-AreValid :
      {level : AccessLevel} (a : Instances) (id : ℕ) (core core' : CoreInstance)
      → IsEntry id core a
      → Continues level core core'
      → AreValid env a
      → AreValid env (update core'.instance_id core' a)
  update-AreValid a id core core' entry k v =
      let f : find id a ≡ some core = IsEntry-find id core a v.ascending entry in
      let own : core.instance_id ≡ id =
        found-All (λ p. p.1.instance_id ≡ p.0) id core a v.keyed f in
      let put : update core'.instance_id core' a ≡ update id core' a =
        ap (λ (n : ℕ). update n core' a) (k.same_id ∙ own) in
      rw put (record {
        ascending = update-IsAscending id core' a v.ascending;
        keyed = update-All (λ p. p.1.instance_id ≡ p.0) id core' a v.keyed (k.same_id ∙ own);
        one_state =
            update-All (λ p. HasOneState p.1) id core' a v.one_state
              (k.one_state (found-All (λ p. HasOneState p.1) id core a v.one_state f));
        distinct =
            update-Pairwise (AreApart env) AreApart-swap id core core' a f
              (Continues-AreApart id core core' k) v.distinct;
      })

  pub Evolves-AreValid :
      {level : AccessLevel} {a b : Instances}
      → Evolves env level a b
      → AreValid env a
      → AreValid env b
  Evolves-AreValid (keep e) v = rw e v
  Evolves-AreValid (change {a} {b} id core core' entry k x e) v =
      rw e (update-AreValid a id core core' entry k v)
  Evolves-AreValid (start {a} {b} id name core admin free started e) v = rw e (record {
    ascending = insert-IsAscending core.instance_id core a v.ascending;
    keyed = insert-All (λ p. p.1.instance_id ≡ p.0) core.instance_id core a v.keyed refl;
    one_state =
        insert-All (λ p. HasOneState p.1) core.instance_id core a v.one_state
          (IsStarted-HasOneState id name core started);
    distinct =
        insert-Pairwise (AreApart env) AreApart-swap core.instance_id core a
          (All-map_to _ (AreApart env (core.instance_id, core)) a (λ q h. λ r rq e. h rq (sym e))
            free)
          v.distinct;
  })
  Evolves-AreValid (after p q) v = Evolves-AreValid q (Evolves-AreValid p v)

  -- an instance that is removed
  pub erase-AreValid :
      (id : ℕ) (cores : Instances) → AreValid env cores → AreValid env (erase id cores)
  erase-AreValid id cores v = record {
    ascending = erase-IsAscending id cores v.ascending;
    keyed = erase-All _ id cores v.keyed;
    one_state = erase-All _ id cores v.one_state;
    distinct = erase-Pairwise (AreApart env) id cores v.distinct;
  }

  pub named_loop-IsFree :
      (name : Text) (cores : Instances) → named_loop env name cores ≡ none → IsFree env name cores
  unfolding named_loop
  named_loop-IsFree name [] h = tt
  named_loop-IsFree name ((id, core) ∷ rest) h =
      elim (Bool-cases (same_text (get_name env core) name && core.process_running)) [
        | inl found ↦ let q : some core ≡ none = rw (named_loop, found) at h in cc
        | inr other ↦ (
          (λ r e.
              let p : same_text name name && true ≡ false = rw (e, r) at other in
              let q : true ≡ false = rw (same_text_refl name) at p in cc),
          named_loop-IsFree name rest (rw (named_loop, other) at h),
        )
      ]

  -- so does one that findNamedInstance answers
  pub named_loop-IsEntry :
      (name : Text) (cores : Instances) (core : CoreInstance)
      → named_loop env name cores ≡ some core
      → (id : ℕ) × IsEntry id core cores
  unfolding named_loop
  named_loop-IsEntry name [] core h = cc
  named_loop-IsEntry name ((id, x) ∷ rest) core h =
      elim (Bool-cases (same_text (get_name env x) name && x.process_running)) [
        | inl found ↦
            let q : some x ≡ some core = rw (named_loop, found) at h in (id, inl (refl, cc))
        | inr other ↦
            let (j, e) = named_loop-IsEntry name rest core (rw (named_loop, other) at h) in
            (j, inr e)
      ]
