-- ===== src/Core/Started.antt =====
-- An instance that startCore (src/coreinstance.h) has started.
use graphserv.Prelude.{ℕ, ◌≡◌, refl, true, false, Bool-cases, inl, inr, Text, [], same_text, arith}
use graphserv.External.{Env, Launch, pipe_fails, fork_fails, replied, no_reply}
use graphserv.Writer.{set_write_fd}
use graphserv.Writer.Stream.{stream}
use graphserv.Core.{CoreInstance, create, set_name}
use graphserv.Core.Launch.{start_core, has_prefix, reply_version}
use graphserv.Core.Multiplex.{IsFresh}
use graphserv.Core.Continuity.{HasOneState}

-- A core runs, and has had no command; the name and the ID are as given.
pub record IsStarted (id : ℕ) (name : Text) (core : CoreInstance) : Type 0 where
  pub has_id : core.instance_id ≡ id
  pub has_name : core.instance_name ≡ name
  pub runs : core.process_running ≡ true
  pub fresh : IsFresh (record { core = core; status_for = [] })

-- If startCore returns true for a new instance, it runs under its ID and name, and it has had no
-- command and expects nothing.
pub start_core-IsStarted :
    (env : Env) (path : Text) (launch : Launch) (id : ℕ) (name : Text)
    → (start_core env path launch (set_name name (create id))).1 ≡ true
    → IsStarted id name (start_core env path launch (set_name name (create id))).0
unfolding start_core set_name create stream set_write_fd
start_core-IsStarted env path pipe_fails id name h = cc
start_core-IsStarted env path fork_fails id name h = cc
start_core-IsStarted env path (no_reply pid exit) id name h = cc
start_core-IsStarted env path (replied pid pipe line) id name h =
    elim (Bool-cases (has_prefix env.success_str line)) [
      | inr e ↦ let p : false ≡ true = rw e at h in cc
      | inl e ↦ elim (Bool-cases (same_text (reply_version env line) env.protocol_version)) [
        | inr v ↦ let p : false ≡ true = rw (e, v) at h in cc
        | inl v ↦
            rw (e, v)
              (record {
                has_id = refl;
                has_name = refl;
                runs = refl;
                fresh = record {
                  no_queue = refl;
                  no_output = refl;
                  no_status = refl;
                  no_reply = refl;
                  no_dataset = refl;
                };
              })
      ]
    ]

pub IsStarted-HasOneState :
    (id : ℕ) (name : Text) (core : CoreInstance) → IsStarted id name core → HasOneState core
IsStarted-HasOneState id name core h = ground (arith, h.fresh.no_reply)
