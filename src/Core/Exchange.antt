-- ===== src/Core/Exchange.antt =====
-- What queueCommand and flushCommandQ of src/coreinstance.h do to the queue of an instance and to
-- the bytes for its core.
use graphserv.Prelude.{
  ◌≡◌, refl, sym, ap, ◌∙◌, true, ◌&&◌, Bool-cases, inl, inr, List, [], ◌∷◌, ◌++◌, append_assoc,
  append-nil, concat, All, All-append, arith,
}
use graphserv.External.{Env}
use graphserv.Writer.Stream.{stream, write_all-stream}
use graphserv.Core.{CoreInstance, queue_command, flush_command_q, send}
use graphserv.Core.Entry.{CommandQEntry, flushable, wire}
use graphserv.Core.Queue.{is_idle, send_next, flush_command_q-send_next}
use graphserv.Core.Multiplex.{wire_bytes}

-- The same instance later: some commands are queued behind those of before, and the first ones of all
-- these are sent, whole and complete, and nothing else is written; the other ones are still queued.
pub record Exchanges (core core' : CoreInstance) : Type 0 where
  pub queued : List CommandQEntry
  pub sent : List CommandQEntry
  pub in_order : core.command_q ++ queued ≡ sent ++ core'.command_q
  pub on_wire : stream core'.writer ≡ stream core.writer ++ wire_bytes sent
  pub complete : All (λ e. flushable e ≡ true) sent

-- the queue and the output are as they were
pub still-Exchanges :
    (core core' : CoreInstance)
    → core'.command_q ≡ core.command_q
    → stream core'.writer ≡ stream core.writer
    → Exchanges core core'
still-Exchanges core core' q w = record {
  queued = [];
  sent = [];
  in_order = append-nil core.command_q ∙ sym q;
  on_wire = w ∙ sym (append-nil _);
  complete = tt;
}

wire_bytes-append :
    (xs ys : List CommandQEntry) → wire_bytes (xs ++ ys) ≡ wire_bytes xs ++ wire_bytes ys
wire_bytes-append [] ys = refl
wire_bytes-append (x ∷ xs) ys =
    ap (◌++◌ (concat (wire x))) (wire_bytes-append xs ys)
    ∙ sym (append_assoc (concat (wire x)) (wire_bytes xs) (wire_bytes ys))

pub Exchanges-trans : {a b c : CoreInstance} → Exchanges a b → Exchanges b c → Exchanges a c
Exchanges-trans {a} {b} {c} p q = record {
  queued = p.queued ++ q.queued;
  sent = p.sent ++ q.sent;
  in_order =
      sym (append_assoc a.command_q p.queued q.queued)
      ∙ ap (λ l. l ++ q.queued) p.in_order
      ∙ append_assoc p.sent b.command_q q.queued
      ∙ ap (◌++◌ p.sent) q.in_order
      ∙ sym (append_assoc p.sent q.sent c.command_q);
  on_wire =
      q.on_wire
      ∙ ap (λ l. l ++ wire_bytes q.sent) p.on_wire
      ∙ append_assoc (stream a.writer) (wire_bytes p.sent) (wire_bytes q.sent)
      ∙ ap (◌++◌ (stream a.writer)) (sym (wire_bytes-append p.sent q.sent));
  complete = All-append _ p.sent q.sent p.complete q.complete;
}

module _ (env : Env) where
  send_next-Exchanges :
      (q : List CommandQEntry) (core : CoreInstance)
      → core.command_q ≡ q
      → Exchanges core (send_next env q core)
  unfolding send_next send
  send_next-Exchanges [] core e = still-Exchanges core core refl refl
  send_next-Exchanges (c ∷ rest) core e = elim (Bool-cases (is_idle core && flushable c)) [
    | inl go ↦ rw go (record {
      queued = [];
      sent = c ∷ [];
      in_order = append-nil core.command_q ∙ e;
      on_wire =
          write_all-stream env (wire c) core.writer
          ∙ ap (◌++◌ (stream core.writer)) (sym (append-nil (concat (wire c))));
      complete = (ground arith, tt);
    })
    | inr stay ↦ rw stay (still-Exchanges core core refl refl)
  ]

  queue-Exchanges :
      (ce : CommandQEntry) (core : CoreInstance) → Exchanges core (queue_command ce core)
  unfolding queue_command
  queue-Exchanges ce core = record {
    queued = ce ∷ [];
    sent = [];
    in_order = refl;
    on_wire = sym (append-nil _);
    complete = tt;
  }

  -- forwardToCore queues a command and then flushes the queue
  pub forward-Exchanges :
      (ce : CommandQEntry) (core : CoreInstance)
      → Exchanges core (flush_command_q env (queue_command ce core))
  forward-Exchanges ce core = Exchanges-trans (queue-Exchanges ce core) (
      rw (flush_command_q-send_next env (queue_command ce core))
        (send_next-Exchanges _ (queue_command ce core) refl))
