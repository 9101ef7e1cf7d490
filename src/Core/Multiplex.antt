-- ===== src/Core/Multiplex.antt =====
-- How the commands of several clients share one core: any interleaving of commands that are queued,
-- of flushes, and of lines that the core sends.
use graphserv.Prelude.{
  ℕ, ◌≡◌, refl, sym, ap, ◌∙◌, if◌then◌else◌, true, false, ◌&&◌, Bool-cases, inl, inr, Text, List,
  [], ◌∷◌, ◌++◌, map, append_assoc, append-nil, concat, All, All-append, arith,
}
use mathlib.Core.List.{map-append}
use graphserv.External.{Env}
use graphserv.Writer.Stream.{stream, write_all-stream}
use graphserv.Core.{
  CoreInstance, Forward, as_status, queue_command, flush_command_q, send, take_line,
}
use graphserv.Core.Entry.{CommandQEntry, flushable, wire}
use graphserv.Core.Queue.{is_idle, send_next, flush_command_q-send_next}

pub data Event : Type 0 where
  enqueue : CommandQEntry → Event
  flush : Event
  output : Text → Event

-- A core, and the clients to which its status lines have gone, oldest first.
pub record Trace : Type 0 where
  pub core : CoreInstance
  pub status_for : List ℕ

-- The commands that the events queue, in order.
unfoldable pub queued : List Event → List CommandQEntry
queued [] = []
queued (enqueue e ∷ events) = e ∷ queued events
queued (_ ∷ events) = queued events

unfoldable pub routes : Forward → ℕ → List ℕ → List ℕ
routes as_status client done = done ++ client ∷ []
routes _ client done = done

module _ (env : Env) where
  unfoldable pub step : Event → Trace → Trace
  unfolding routes
  step (enqueue e) t = record t { core = queue_command e t.core }
  step flush t = record t { core = flush_command_q env t.core }
  step (output line) t = record {
    core = (take_line env line t.core).0;
    status_for = routes (take_line env line t.core).1 t.core.last_client_id t.status_for;
  }

  unfoldable pub run : List Event → Trace → Trace
  unfolding step
  run [] t = t
  run (e ∷ events) t = run events (step e t)

-- The bytes of commands, each with its data set.
abbrev pub wire_bytes : List CommandQEntry → Text
wire_bytes [] = []
wire_bytes (e ∷ es) = concat (wire e) ++ wire_bytes es

wire_bytes-append :
    (xs : List CommandQEntry) (e : CommandQEntry)
    → wire_bytes (xs ++ e ∷ []) ≡ wire_bytes xs ++ concat (wire e)
wire_bytes-append [] e = append-nil _
wire_bytes-append (x ∷ xs) e =
    ap (◌++◌ (concat (wire x))) (wire_bytes-append xs e)
    ∙ sym (append_assoc (concat (wire x)) (wire_bytes xs) (concat (wire e)))

abbrev pub clients : List CommandQEntry → List ℕ
clients = map (λ e. e.client_id)

-- The clients to which the status lines of the sent commands have gone, or are still to go.
abbrev pub routed : CoreInstance → List ℕ → List ℕ
routed core done = if core.expecting_reply then done ++ core.last_client_id ∷ [] else done

-- Of the commands queued, the first ones are sent: whole, in the order in which they were queued, and
-- nothing else is written to the core. Each sent command was complete. There is one status line for
-- each sent command, which goes to the client of that command; only that of the last sent command
-- may be still to come. The core never waits for a status line and a data set at once.
pub record Multiplexed (commands : List CommandQEntry) (t : Trace) : Type 0 where
  pub sent : List CommandQEntry
  pub in_order : commands ≡ sent ++ t.core.command_q
  pub on_wire : stream t.core.writer ≡ wire_bytes sent
  pub complete : All (λ e. flushable e ≡ true) sent
  pub answered : clients sent ≡ routed t.core t.status_for
  pub one_state : t.core.expecting_reply && t.core.expecting_dataset ≡ false

-- A core that was started and has had no command.
pub record IsFresh (t : Trace) : Type 0 where
  pub no_queue : t.core.command_q ≡ []
  pub no_output : stream t.core.writer ≡ []
  pub no_status : t.status_for ≡ []
  pub no_reply : t.core.expecting_reply ≡ false
  pub no_dataset : t.core.expecting_dataset ≡ false

module _ (env : Env) where
  send-Multiplexed :
      (commands : List CommandQEntry) (t : Trace) (c : CommandQEntry) (rest : List CommandQEntry)
      → t.core.command_q ≡ c ∷ rest
      → is_idle t.core && flushable c ≡ true
      → Multiplexed commands t
      → Multiplexed commands (record t { core = record (send env c t.core) { command_q = rest } })
  unfolding send
  send-Multiplexed commands t c rest q go m = record {
    sent = m.sent ++ c ∷ [];
    in_order = m.in_order ∙ ap (◌++◌ m.sent) q ∙ sym (append_assoc m.sent (c ∷ []) rest);
    on_wire =
        write_all-stream env (wire c) t.core.writer
        ∙ ap (λ b. b ++ concat (wire c)) m.on_wire
        ∙ sym (wire_bytes-append m.sent c);
    complete = All-append _ m.sent (c ∷ []) m.complete (ground arith, tt);
    answered =
        map-append _ m.sent (c ∷ [])
        ∙ ap (λ (l : List ℕ). l ++ c.client_id ∷ []) (m.answered ∙ idle);
    one_state = refl;
  }
    where
      idle : routed t.core t.status_for ≡ t.status_for
      idle = ground arith

  send_next-Multiplexed :
      (commands q : List CommandQEntry) (t : Trace)
      → t.core.command_q ≡ q
      → Multiplexed commands t
      → Multiplexed commands (record t { core = send_next env q t.core })
  unfolding send_next
  send_next-Multiplexed commands [] t e m = m
  send_next-Multiplexed commands (c ∷ rest) t e m =
      elim (Bool-cases (is_idle t.core && flushable c)) [
        | inl go ↦ rw go (send-Multiplexed commands t c rest e go m)
        | inr stay ↦ rw stay m
      ]

  pub take_line-Multiplexed :
      (commands : List CommandQEntry) (line : Text) (t : Trace)
      → Multiplexed commands t
      → Multiplexed commands (step env (output line) t)
  unfolding step take_line
  take_line-Multiplexed commands line t m = record {
    sent = m.sent;
    in_order = ground (arith, m.in_order);
    on_wire = ground (arith, m.on_wire);
    complete = m.complete;
    answered = ground (arith, m.answered, m.one_state);
    one_state = ground (arith, m.one_state);
  }

  pub enqueue-Multiplexed :
      (commands : List CommandQEntry) (e : CommandQEntry) (t : Trace)
      → Multiplexed commands t
      → Multiplexed (commands ++ e ∷ []) (step env (enqueue e) t)
  unfolding step queue_command
  enqueue-Multiplexed commands e t m = record {
    sent = m.sent;
    in_order = ap (λ q. q ++ e ∷ []) m.in_order ∙ append_assoc m.sent t.core.command_q (e ∷ []);
    on_wire = m.on_wire;
    complete = m.complete;
    answered = m.answered;
    one_state = m.one_state;
  }

  pub flush-Multiplexed :
      (commands : List CommandQEntry) (t : Trace)
      → Multiplexed commands t
      → Multiplexed commands (step env flush t)
  unfolding step
  flush-Multiplexed commands t m =
      rw (flush_command_q-send_next env t.core)
        (send_next-Multiplexed commands t.core.command_q t refl m)

  run-Multiplexed_from :
      (events : List Event) (commands : List CommandQEntry) (t : Trace)
      → Multiplexed commands t
      → Multiplexed (commands ++ queued events) (run env events t)
  unfolding run queued
  run-Multiplexed_from [] commands t m = rw (append-nil commands) m
  run-Multiplexed_from (enqueue e ∷ events) commands t m =
      rw (← append_assoc commands (e ∷ []) (queued events))
        (run-Multiplexed_from events (commands ++ e ∷ []) _ (enqueue-Multiplexed commands e t m))
  run-Multiplexed_from (flush ∷ events) commands t m =
      run-Multiplexed_from events commands _ (flush-Multiplexed commands t m)
  run-Multiplexed_from (output line ∷ events) commands t m =
      run-Multiplexed_from events commands _ (take_line-Multiplexed commands line t m)

  -- After any interleaving of commands queued, flushes and lines from a core that had no command
  -- before: the commands sent are the first ones queued, in order, each complete and written whole
  -- with its data set, and nothing else is written; each has one status line, which goes to its
  -- client, the last one's being perhaps still to come; and the core is never expected to send a
  -- status line and a data set at once.
  pub run-Multiplexed :
      (events : List Event) (t : Trace) → IsFresh t → Multiplexed (queued events) (run env events t)
  run-Multiplexed events t h = run-Multiplexed_from events [] t fresh
    where
      fresh : Multiplexed [] t
      fresh = record {
        sent = [];
        in_order = sym h.no_queue;
        on_wire = h.no_output;
        complete = tt;
        answered = ground (arith, h.no_reply, h.no_status);
        one_state = ground (arith, h.no_reply);
      }
