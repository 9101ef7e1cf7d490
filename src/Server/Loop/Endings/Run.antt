-- ===== src/Server/Loop/Endings/Run.antt =====
-- Why the main loop of src/servapp.h may end otherwise than by returning: the rounds of
-- mainloop_select.
use graphserv.Prelude.{ℕ, ◌+◌, ◌≡◌, ◌≤◌, Bool, true, false, List, [], ◌∷◌, map}
use graphserv.External.{Env}
use graphserv.Outcome.{Outcome, ok}
use graphserv.Server.{Graphserv}
use graphserv.Server.Loop.{start_round}
use graphserv.Server.Loop.Sets.{HasLarge, round_fds}
use graphserv.Server.Loop.Round.{
  Ready, ready, bad_descriptors, failed, Round, LoopState, set_time, set_app, accept_all,
  client_pass, disconnect_bad, has_bad_core, after_select, round,
}
use graphserv.Server.Loop.Endings.Rounds.{ClientTrouble, CoreTrouble}

module _ (env : Env) where
  -- behind the connections of the round
  abbrev pub accepted : Round → Ready → LoopState → Graphserv
  accepted r io l = (accept_all r.time io (set_app (set_time io.time l.app) l)).app

  -- Why a round may end otherwise than by returning, behind its start.
  pub data RoundTrouble (r : Round) (l : LoopState) : Type 0 where
    -- a descriptor has no room in an fd_set
    large_descriptor : HasLarge env (round_fds env r.time l.defer_until l.app) → RoundTrouble r l
    -- of a client, in the pass over the sessions
    from_client :
        (io : Ready)
        → r.selected ≡ ready io
        → ClientTrouble env io (map (λ p. p.0) (accepted r io l).session_contexts) (accepted r io l)
        → RoundTrouble r l
    -- of a core, in the pass over the instances
    from_core :
        (io : Ready) (app : Graphserv)
        → r.selected ≡ ready io
        → client_pass env io (map (λ p. p.0) (accepted r io l).session_contexts) (accepted r io l)
          ≡ ok app
        → CoreTrouble env io (map (λ p. p.0) app.core_instances) [] app
        → RoundTrouble r l
    -- a descriptor of a core is bad
    bad_core :
        (bad bad_output bad_input : ℕ → Bool)
        → r.selected ≡ bad_descriptors bad bad_output bad_input
        → has_bad_core env bad_output bad_input
            (disconnect_bad env bad l.app.session_contexts l.app).core_instances
          ≡ true
        → RoundTrouble r l
    select_failed : r.selected ≡ failed → RoundTrouble r l
    -- SIGINT has come three times
    third_interrupt :
        (m : LoopState)
        → after_select env r.time r.selected l ≡ ok m
        → 3 ≤ m.ncalls + r.interrupts
        → RoundTrouble r l

  -- the state behind the start of the round
  abbrev pub begun : Round → LoopState → LoopState
  begun r l = set_app (start_round env (set_time r.time l.app)) l

  -- A round that begins while the server is not quitting has trouble, behind rounds that return.
  pub data RunTrouble : List Round → LoopState → Type 0 where
    at_once :
        (r : Round) (rest : List Round) (l : LoopState)
        → l.app.quitting ≡ false
        → RoundTrouble r (begun r l)
        → RunTrouble (r ∷ rest) l
    later :
        (r : Round) (rest : List Round) (l m : LoopState)
        → l.app.quitting ≡ false
        → round env r l ≡ ok m
        → RunTrouble rest m
        → RunTrouble (r ∷ rest) l
