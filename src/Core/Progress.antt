-- ===== src/Core/Progress.antt =====
-- How a core that answers gets through its queue.
use graphserv.Prelude.{
  ℕ, ◌≡◌, refl, sym, ◌∙◌, if◌then◌else◌, Bool, true, false, ◌&&◌, not, Bool-cases, inl, inr, Text,
  List, [], ◌∷◌, ◌++◌, append_assoc, append-nil, All, is_empty, length, subst, arith,
}
use graphserv.External.{Env}
use graphserv.Core.{CoreInstance, Forward, as_status, as_dataset, send, take_line}
use graphserv.Core.Entry.{CommandQEntry, flushable}
use graphserv.Core.Queue.{is_idle, send_next, flush_command_q-send_next}
use graphserv.Core.Multiplex.{Event, flush, output, Trace, routes, step, run, clients}

-- What a core sends for a command: a status line and, if that line indicates a data set, the lines of
-- the data set and a line without words.
pub record Reply : Type 0 where
  pub status : Text
  pub dataset : List Text
  pub blank : Text

-- where the instance is in the protocol, and what it has still to send and has forwarded
record At (reply dataset : Bool) (client : ℕ) (q : List CommandQEntry) (done : List ℕ) (t : Trace)
    : Type 0 where
  pub has_reply : t.core.expecting_reply ≡ reply
  pub has_dataset : t.core.expecting_dataset ≡ dataset
  pub has_client : t.core.last_client_id ≡ client
  pub has_queue : t.core.command_q ≡ q
  pub has_done : t.status_for ≡ done

-- All commands are sent and answered, in order, and the instance waits for nothing.
pub record IsDone (q : List CommandQEntry) (done : List ℕ) (t : Trace) : Type 0 where
  pub no_queue : t.core.command_q ≡ []
  pub no_reply : t.core.expecting_reply ≡ false
  pub no_dataset : t.core.expecting_dataset ≡ false
  pub answered : t.status_for ≡ done ++ clients q

module _ (env : Env) where
  abbrev pub IsReply : Reply → Type 0
  IsReply r =
      All (λ line. is_empty (env.split_string line) ≡ false) r.dataset
      × (is_empty (env.split_string r.blank) ≡ true)

  abbrev pub dataset_events : List Text → Text → List Event
  dataset_events [] blank = output blank ∷ []
  dataset_events (line ∷ lines) blank = output line ∷ dataset_events lines blank

  abbrev pub reply_events : Reply → List Event
  reply_events r =
      output r.status
      ∷ (if env.line_indicates_dataset r.status then dataset_events r.dataset r.blank else [])

  -- a flush for each reply
  abbrev pub exchange : List Reply → List Event
  exchange [] = []
  exchange (r ∷ rs) = flush ∷ (reply_events r ++ exchange rs)

  run-append : (xs ys : List Event) (t : Trace) → run env (xs ++ ys) t ≡ run env ys (run env xs t)
  unfolding run
  run-append [] ys t = refl
  run-append (x ∷ xs) ys t = run-append xs ys (step env x t)

  flush-At :
      (c : CommandQEntry) (q : List CommandQEntry) (done : List ℕ) (client : ℕ) (t : Trace)
      → flushable c ≡ true
      → At false false client (c ∷ q) done t
      → At true false c.client_id q done (step env flush t)
  unfolding step send_next send
  flush-At c q done client t f a =
      let idle : is_idle t.core && flushable c ≡ true = rw (a.has_reply, a.has_dataset, f) refl in
      rw (flush_command_q-send_next env t.core, a.has_queue, idle)
        (record {
          has_reply = refl;
          has_dataset = refl;
          has_client = refl;
          has_queue = refl;
          has_done = a.has_done;
        })

  -- what a line changes, by what the instance waits for
  Taken : Bool → Bool → Forward → Text → CoreInstance → Type 0
  Taken reply dataset f line core =
      ((take_line env line core).0.expecting_reply ≡ reply)
      × ((take_line env line core).0.expecting_dataset ≡ dataset)
      × ((take_line env line core).0.last_client_id ≡ core.last_client_id)
      × ((take_line env line core).0.command_q ≡ core.command_q)
      × ((take_line env line core).1 ≡ f)

  take_status :
      (line : Text) (core : CoreInstance)
      → core.expecting_reply ≡ true
      → core.expecting_dataset ≡ false
      → Taken false (env.line_indicates_dataset line) as_status line core
  unfolding take_line Taken
  take_status line core r d = elim (Bool-cases (env.line_indicates_dataset line)) [
    | inl e ↦ rw (r, e) (refl, refl, refl, refl, refl)
    | inr e ↦ rw (r, d, e) (refl, refl, refl, refl, refl)
  ]

  take_data :
      (line : Text) (core : CoreInstance)
      → core.expecting_reply ≡ false
      → core.expecting_dataset ≡ true
      → Taken false (not (is_empty (env.split_string line))) as_dataset line core
  unfolding take_line Taken
  take_data line core r d = rw (r, d) (refl, refl, refl, refl, refl)

  status-At :
      (client : ℕ) (q : List CommandQEntry) (done : List ℕ) (line : Text) (t : Trace)
      → At true false client q done t
      → At false
          (env.line_indicates_dataset line)
          client
          q
          (done ++ client ∷ [])
          (step env (output line) t)
  unfolding step routes Taken
  status-At client q done line t a =
      let (r, d, c, k, f) = take_status line t.core a.has_reply a.has_dataset in
      record {
        has_reply = r;
        has_dataset = d;
        has_client = c ∙ a.has_client;
        has_queue = k ∙ a.has_queue;
        has_done = rw (f, a.has_client, a.has_done) refl;
      }

  data-At :
      (client : ℕ) (q : List CommandQEntry) (done : List ℕ) (line : Text) (t : Trace)
      → At false true client q done t
      → At false (not (is_empty (env.split_string line))) client q done (step env (output line) t)
  unfolding step routes Taken
  data-At client q done line t a =
      let (r, d, c, k, f) = take_data line t.core a.has_reply a.has_dataset in
      record {
        has_reply = r;
        has_dataset = d;
        has_client = c ∙ a.has_client;
        has_queue = k ∙ a.has_queue;
        has_done = rw f a.has_done;
      }

  dataset-At :
      (lines : List Text) (blank : Text) (client : ℕ) (q : List CommandQEntry) (done : List ℕ)
      (t : Trace)
      → All (λ line. is_empty (env.split_string line) ≡ false) lines
      → is_empty (env.split_string blank) ≡ true
      → At false true client q done t
      → At false false client q done (run env (dataset_events lines blank) t)
  unfolding run
  dataset-At [] blank client q done t h b a =
      let x = data-At client q done blank t a in
      subst (λ (w : Bool). At false (not w) client q done (step env (output blank) t)) b x
  dataset-At (line ∷ lines) blank client q done t h b a =
      dataset-At lines blank client q done (step env (output line) t) h.1 b (
        subst (λ (w : Bool). At false (not w) client q done (step env (output line) t)) h.0
          (data-At client q done line t a))

  reply-At :
      (r : Reply) (client : ℕ) (q : List CommandQEntry) (done : List ℕ) (t : Trace)
      → IsReply r
      → At true false client q done t
      → At false false client q (done ++ client ∷ []) (run env (reply_events r) t)
  unfolding run
  reply-At r client q done t w a =
      by_kind (env.line_indicates_dataset r.status) (status-At client q done r.status t a)
    where
      by_kind :
          (b : Bool)
          → At false b client q (done ++ client ∷ []) (step env (output r.status) t)
          → At false false client q (done ++ client ∷ []) (
              run env
                (if b then dataset_events r.dataset r.blank else [])
                (step env (output r.status) t))
      by_kind true x =
          dataset-At r.dataset r.blank client q (done ++ client ∷ []) (step env (output r.status) t)
            w.0 w.1 x
      by_kind false x = x

  exchange-At :
      (replies : List Reply) (q : List CommandQEntry) (done : List ℕ) (client : ℕ) (t : Trace)
      → length replies ≡ length q
      → All (λ c. flushable c ≡ true) q
      → All IsReply replies
      → At false false client q done t
      → IsDone q done (run env (exchange replies) t)
  unfolding run
  exchange-At [] [] done client t n f w a = record {
    no_queue = a.has_queue;
    no_reply = a.has_reply;
    no_dataset = a.has_dataset;
    answered = a.has_done ∙ sym (append-nil done);
  }
  exchange-At [] (c ∷ q) done client t n f w a = ground arith
  exchange-At (r ∷ rs) [] done client t n f w a = ground arith
  exchange-At (r ∷ rs) (c ∷ q) done client t n f w a =
      let sent = flush-At c q done client t f.0 a in
      let answered = reply-At r c.client_id q done (step env flush t) w.0 sent in
      let rest =
        exchange-At rs q (done ++ c.client_id ∷ []) c.client_id
          (run env (reply_events r) (step env flush t)) (ground arith) f.1 w.1 answered in
      rw (run-append (reply_events r) (exchange rs) (step env flush t)) (record {
        no_queue = rest.no_queue;
        no_reply = rest.no_reply;
        no_dataset = rest.no_dataset;
        answered = rest.answered ∙ append_assoc done (c.client_id ∷ []) (clients q);
      })

  -- If an instance waits for nothing, all commands in its queue are complete, and the core answers each
  -- flush of the queue by one reply (a status line and, if that line indicates a data set, lines with
  -- words and then one without), then as many flushes and replies as there are commands empty the
  -- queue, the instance waits for nothing again, and one status line has gone to the client of each
  -- command, in the order of the queue.
  pub exchange-IsDone :
      (replies : List Reply) (t : Trace)
      → is_idle t.core ≡ true
      → All (λ c. flushable c ≡ true) t.core.command_q
      → All IsReply replies
      → length replies ≡ length t.core.command_q
      → IsDone t.core.command_q t.status_for (run env (exchange replies) t)
  exchange-IsDone replies t idle complete w n =
      exchange-At replies t.core.command_q t.status_for t.core.last_client_id t n complete w
        (record {
          has_reply = ground arith;
          has_dataset = ground arith;
          has_client = refl;
          has_queue = refl;
          has_done = refl;
        })
