-- ===== src/Server/Loop/Ends.antt =====
-- The safety of what a round does before and behind the passes: sessions that end, the statistics, the
-- queues of the instances, and the HTTP clients that have their answer.
use graphserv.Prelude.{
  ℕ, zero, suc, ◌≡◌, inl, inr, ◌∙◌, ◌-◌, ◌<◌, ltb, ◌&&◌, not, Bool-cases, Option-cases, List, [],
  ◌∷◌, none, some, All, map,
}
use graphserv.Prelude.Assoc.{find}
use graphserv.Prelude.Entries.{erase-All, erase-IsAscending, IsAscending, Pairwise}
use graphserv.Access.{access_admin, access_read}
use graphserv.External.{Env}
use graphserv.Core.{CoreInstance, find_last_client_command, flush_command_q}
use graphserv.Core.Continuity.{HasOneState, flush-Continues, requeue-Continues}
use graphserv.Session.{SessionContext}
use graphserv.Server.{Graphserv, Ctx, find_instance, shutdown_client}
use graphserv.Server.Instances.{
  Instances, AreValid, AreApart, AreApart-swap, Continues-AreApart, find_instance-IsEntry,
}
use graphserv.Server.Reply.Output.{shutdown_client-OnlyOutput}
use graphserv.Server.Loop.{
  put_session, close_dataset, release_core, remove_session, remove_all, remove_clients,
  refresh_stats, flush_cores, start_round, is_done, finish_loop, finish_round,
}
use graphserv.Server.Loop.Safety.{
  IsSafe, SessionIsSafe, Output-IsSafe, put_session-IsSafe, put_entry-IsSafe,
}

module _ (env : Env) where
  close_dataset-IsSafe :
      (id own : ℕ) (core : CoreInstance) (app : Graphserv)
      → find_instance own app ≡ some core
      → IsSafe env app
      → IsSafe env (close_dataset env id core app)
  unfolding close_dataset
  close_dataset-IsSafe id own core app f s =
      elim (Option-cases (find_last_client_command id core.command_q)) [
        | inl e ↦ rw (close_dataset, e) s
        | inr (ce, e) ↦ elim (Bool-cases (ce.accepts_data && not ce.data_finished)) [
          | inr b ↦ rw (close_dataset, e, b) s
          | inl b ↦
              rw (close_dataset, e, b)
                (put_entry-IsSafe env {level = access_admin} own core _ app
                  (find_instance-IsEntry own app core f) (requeue-Continues env access_admin _ core)
                  s)
        ]
      ]

  release_core-IsSafe :
      (sc : SessionContext) (app : Graphserv)
      → IsSafe env app
      → IsSafe env (release_core env sc app)
  unfolding release_core
  release_core-IsSafe sc app s = by_core sc.core_id
    where
      by_core :
          (id : ℕ)
          → IsSafe env (elim id [
            | zero ↦ app
            | suc n ↦ elim (find_instance sc.core_id app) [
              | none ↦ app
              | some core ↦ close_dataset env sc.client_id core app
            ]
          ])
      by_core zero = s
      by_core (suc n) = elim (Option-cases (find_instance sc.core_id app)) [
        | inl e ↦ rw e s
        | inr (core, e) ↦ rw e (close_dataset-IsSafe sc.client_id sc.core_id core app e s)
      ]

  pub remove_session-IsSafe :
      (id : ℕ) (app : Graphserv) → IsSafe env app → IsSafe env (remove_session env id app)
  unfolding remove_session
  remove_session-IsSafe id app s = elim (Option-cases (find id app.session_contexts)) [
    | inl e ↦ rw (remove_session, e) s
    | inr (sc, e) ↦
        let s₁ = release_core-IsSafe sc app s in
        rw (remove_session, e)
          (record {
            cores = s₁.cores;
            sessions = erase-All _ id (release_core env sc app).session_contexts s₁.sessions;
            ordered = erase-IsAscending id (release_core env sc app).session_contexts s₁.ordered;
            table = s₁.table;
          })
  ]

  remove_all-IsSafe :
      (ids : List ℕ) (app : Graphserv) → IsSafe env app → IsSafe env (remove_all env ids app)
  unfolding remove_all
  remove_all-IsSafe [] app s = s
  remove_all-IsSafe (id ∷ rest) app s =
      remove_all-IsSafe rest (remove_session env id app) (remove_session-IsSafe id app s)

  -- what the flush of all queues does to all instances
  flush_cores-All :
      (P Q : ℕ × CoreInstance → Type 0) (cores : Instances)
      → ((p : ℕ × CoreInstance) → P p → Q (p.0, flush_command_q env p.1))
      → All P cores
      → All Q (flush_cores env cores)
  unfolding flush_cores
  flush_cores-All P Q [] f h = tt
  flush_cores-All P Q ((id, core) ∷ rest) f h = (f (id, core) h.0, flush_cores-All P Q rest f h.1)

  flush_cores-Pairwise :
      (R : ℕ × CoreInstance → ℕ × CoreInstance → Type 0) (cores : Instances)
      → ((p q : ℕ × CoreInstance)
          → R p q
          → R (p.0, flush_command_q env p.1) (q.0, flush_command_q env q.1))
      → Pairwise R cores
      → Pairwise R (flush_cores env cores)
  unfolding flush_cores
  flush_cores-Pairwise R [] f h = tt
  flush_cores-Pairwise R ((id, core) ∷ rest) f h = (
    flush_cores-All (R (id, core)) (R (id, flush_command_q env core)) rest (λ q r. f (id, core) q r)
        h.0,
    flush_cores-Pairwise R rest f h.1,
  )

  flushed-AreApart :
      (p q : ℕ × CoreInstance)
      → AreApart env p q
      → AreApart env (p.0, flush_command_q env p.1) (q.0, flush_command_q env q.1)
  flushed-AreApart p q r =
      let kept = λ (c : CoreInstance). flush-Continues env access_read c in
      let p' : ℕ × CoreInstance = (p.0, flush_command_q env p.1) in
      let q' : ℕ × CoreInstance = (q.0, flush_command_q env q.1) in
      Continues-AreApart env p.0 p.1 _ (kept p.1) q' (
        AreApart-swap env q' p
          (Continues-AreApart env q.0 q.1 _ (kept q.1) p (AreApart-swap env p q r)))

  flush_cores-AreValid :
      (cores : Instances) → AreValid env cores → AreValid env (flush_cores env cores)
  flush_cores-AreValid cores v = record {
    ascending = flush_cores-Pairwise (λ p q. p.0 < q.0) cores (λ p q l. l) v.ascending;
    keyed =
        flush_cores-All (λ p. p.1.instance_id ≡ p.0) (λ p. p.1.instance_id ≡ p.0) cores
          (λ p k. (flush-Continues env access_read p.1).same_id ∙ k) v.keyed;
    one_state =
        flush_cores-All (λ p. HasOneState p.1) (λ p. HasOneState p.1) cores
          (λ p k. (flush-Continues env access_read p.1).one_state k) v.one_state;
    distinct = flush_cores-Pairwise (AreApart env) cores flushed-AreApart v.distinct;
  }

  refresh-keys :
      (k now : ℕ) (sessions : List (ℕ × SessionContext))
      → All (λ p. k < p.0) sessions
      → All {A = ℕ × SessionContext}
          (λ p. k < p.0)
          (map (λ p. (p.0, refresh_stats env now p.1)) sessions)
  refresh-keys k now [] h = tt
  refresh-keys k now ((id, sc) ∷ rest) h = (h.0, refresh-keys k now rest h.1)

  refresh-IsAscending :
      (now : ℕ) (sessions : List (ℕ × SessionContext))
      → IsAscending sessions
      → IsAscending (map (λ p. (p.0, refresh_stats env now p.1)) sessions)
  refresh-IsAscending now [] h = tt
  refresh-IsAscending now ((id, sc) ∷ rest) h =
      (refresh-keys id now rest h.0, refresh-IsAscending now rest h.1)

  refresh-SessionIsSafe :
      (now : ℕ) (sessions : List (ℕ × SessionContext))
      → All (SessionIsSafe env) sessions
      → All {A = ℕ × SessionContext}
          (SessionIsSafe env)
          (map (λ p. (p.0, refresh_stats env now p.1)) sessions)
  unfolding refresh_stats
  refresh-SessionIsSafe now [] h = tt
  refresh-SessionIsSafe now ((id, sc) ∷ rest) h = (
    elim (Bool-cases (ltb 10 (now - sc.stats.last_time))) [ inl e ↦ rw e h.0 | inr e ↦ rw e h.0 ],
    refresh-SessionIsSafe now rest h.1,
  )

  pub start_round-IsSafe : (app : Graphserv) → IsSafe env app → IsSafe env (start_round env app)
  unfolding start_round remove_clients
  start_round-IsSafe app s =
      let s₁ = remove_all-IsSafe app.clients_to_remove app s in
      record {
        cores =
            flush_cores-AreValid (remove_all env app.clients_to_remove app).core_instances s₁.cores;
        sessions =
            refresh-SessionIsSafe _ (remove_all env app.clients_to_remove app).session_contexts
              s₁.sessions;
        ordered =
            refresh-IsAscending _ (remove_all env app.clients_to_remove app).session_contexts
              s₁.ordered;
        table = s₁.table;
      }

  finish_loop-IsSafe :
      (sessions : List (ℕ × SessionContext)) (app : Graphserv)
      → All (SessionIsSafe env) sessions
      → IsSafe env app
      → IsSafe env (finish_loop env sessions app)
  unfolding finish_loop
  finish_loop-IsSafe [] app h s = s
  finish_loop-IsSafe ((id, sc) ∷ rest) app h s =
      let c : Ctx = record { app = app; sc = sc } in
      elim (Bool-cases (is_done env c)) [
        | inr e ↦ rw (finish_loop, e) (finish_loop-IsSafe rest app h.1 s)
        | inl e ↦
            rw (finish_loop, e)
              (finish_loop-IsSafe rest (put_session (shutdown_client env c)) h.1 (
                put_session-IsSafe env (shutdown_client env c) (
                  Output-IsSafe env c (shutdown_client env c) (shutdown_client-OnlyOutput env c)
                    (record { server = s; session = h.0.1 }))))
      ]

  pub finish_round-IsSafe : (app : Graphserv) → IsSafe env app → IsSafe env (finish_round env app)
  unfolding finish_round
  finish_round-IsSafe app s = finish_loop-IsSafe app.session_contexts app s.sessions s
