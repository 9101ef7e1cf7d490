-- ===== src/Core/Continuity.antt =====
-- What each operation on an instance keeps: who it is, whether it runs, and what it waits for.
use graphserv.Prelude.{
  ◌≡◌, ◌⊎◌, inl, inr, refl, ◌∙◌, false, ◌&&◌, Bool-cases, Text, List, [], ◌∷◌, arith,
}
use graphserv.Access.{AccessLevel, access_admin}
use graphserv.External.{Env}
use graphserv.Writer
use graphserv.Core.{CoreInstance, queue_command, flush_command_q, send, take_line}
use graphserv.Core.Entry.{CommandQEntry, flushable}
use graphserv.Core.Queue.{is_idle, send_next, flush_command_q-send_next}

-- The instance does not wait for a status line and a data set at once.
abbrev pub HasOneState : CoreInstance → Type 0
HasOneState core = core.expecting_reply && core.expecting_dataset ≡ false

-- The same instance later: a session of the level has worked on it, or the main loop.
pub record Continues (level : AccessLevel) (core core' : CoreInstance) : Type 0 where
  pub same_id : core'.instance_id ≡ core.instance_id
  pub same_name : core'.instance_name ≡ core.instance_name
  pub running :
      (core'.process_running ≡ core.process_running)
      ⊎ ((core'.process_running ≡ false) × (level ≡ access_admin))
  pub one_state : HasOneState core → HasOneState core'

-- The fields of an instance that say who it is and whether it runs.
abbrev SameIdentity : CoreInstance → CoreInstance → Type 0
SameIdentity core core' =
    (core'.instance_id ≡ core.instance_id)
    × (core'.instance_name ≡ core.instance_name)
    × (core'.process_running ≡ core.process_running)

module _ (env : Env) where
  send_next-SameIdentity :
      (q : List CommandQEntry) (core : CoreInstance) → SameIdentity core (send_next env q core)
  unfolding send_next send
  send_next-SameIdentity [] core = (refl, refl, refl)
  send_next-SameIdentity (c ∷ rest) core = elim (Bool-cases (is_idle core && flushable c)) [
    | inl go ↦ rw go (refl, refl, refl)
    | inr stay ↦ rw stay (refl, refl, refl)
  ]

  flush-SameIdentity : (core : CoreInstance) → SameIdentity core (flush_command_q env core)
  flush-SameIdentity core =
      rw (flush_command_q-send_next env core) (send_next-SameIdentity core.command_q core)

  take_line-SameIdentity :
      (line : Text) (core : CoreInstance) → SameIdentity core (take_line env line core).0
  unfolding take_line
  take_line-SameIdentity line core = ground arith

  send_next-HasOneState :
      (q : List CommandQEntry) (core : CoreInstance)
      → HasOneState core
      → HasOneState (send_next env q core)
  unfolding send_next send
  send_next-HasOneState [] core s = s
  send_next-HasOneState (c ∷ rest) core s = elim (Bool-cases (is_idle core && flushable c)) [
    | inl go ↦ rw go refl
    | inr stay ↦ rw stay s
  ]

  flush-HasOneState :
      (core : CoreInstance) → HasOneState core → HasOneState (flush_command_q env core)
  flush-HasOneState core s =
      rw (flush_command_q-send_next env core) (send_next-HasOneState core.command_q core s)

  take_line-HasOneState :
      (line : Text) (core : CoreInstance)
      → HasOneState core
      → HasOneState (take_line env line core).0
  unfolding take_line
  take_line-HasOneState line core s = ground (arith, s)

module _ (env : Env) (level : AccessLevel) where
  continues :
      {core core' : CoreInstance}
      → SameIdentity core core'
      → (HasOneState core → HasOneState core')
      → Continues level core core'
  continues same one_state = record {
    same_id = same.0;
    same_name = same.1;
    running = inl same.2;
    one_state = one_state;
  }

  pub queue-Continues :
      (ce : CommandQEntry) (core : CoreInstance)
      → Continues level core (flush_command_q env (queue_command ce core))
  unfolding queue_command
  queue-Continues ce core =
      continues (flush-SameIdentity env (queue_command ce core))
        (flush-HasOneState env (queue_command ce core))

  pub flush-Continues : (core : CoreInstance) → Continues level core (flush_command_q env core)
  flush-Continues core = continues (flush-SameIdentity env core) (flush-HasOneState env core)

  pub take_line-Continues :
      (line : Text) (core : CoreInstance) → Continues level core (take_line env line core).0
  take_line-Continues line core =
      continues (take_line-SameIdentity env line core) (take_line-HasOneState env line core)

  pub linebuf-Continues :
      (line : Text) (core : CoreInstance) → Continues level core (record core { linebuf = line })
  linebuf-Continues line core = record {
    same_id = refl;
    same_name = refl;
    running = inl refl;
    one_state = λ s. s;
  }

  pub drain-Continues :
      (core : CoreInstance)
      → Continues level core (record core { writer = (Writer.flush env core.writer).writer })
  drain-Continues core = record {
    same_id = refl;
    same_name = refl;
    running = inl refl;
    one_state = λ s. s;
  }

  pub stop-Continues :
      (core : CoreInstance)
      → level ≡ access_admin
      → Continues level core (record core { process_running = false })
  stop-Continues core a = record {
    same_id = refl;
    same_name = refl;
    running = inr (refl, a);
    one_state = λ s. s;
  }

  -- the queue may be changed otherwise, by the end of a session
  pub requeue-Continues :
      (q : List CommandQEntry) (core : CoreInstance)
      → Continues level core (record core { command_q = q })
  requeue-Continues q core = record {
    same_id = refl;
    same_name = refl;
    running = inl refl;
    one_state = λ s. s;
  }

pub Continues-trans :
    {level : AccessLevel} {a b c : CoreInstance}
    → Continues level a b
    → Continues level b c
    → Continues level a c
Continues-trans p q = record {
  same_id = q.same_id ∙ p.same_id;
  same_name = q.same_name ∙ p.same_name;
  running = ground (arith, p.running, q.running);
  one_state = λ s. q.one_state (p.one_state s);
}
