-- ===== src/Tests/Startup.antt =====
-- The start of the server at concrete inputs.
use graphserv.Prelude.{
  ◌≡◌, ◌↔◌, ◌⊎◌, refl, if◌then◌else◌, true, codes, List, [], ◌∷◌, ◌++◌, none, some, arith,
}
use graphserv.Startup.{
  LogLevel, log_error, log_crit, LogMask, default_mask, quiet_mask, logs, log_flags, SocketCalls,
  socket_fails, bind_fails, listening, listen_all, Opt, tcp, log, core, main, Ending, status,
}
use graphserv.Startup.Logging.{are_known, selected, log_flags-selected}
use graphserv.Startup.Flog.{Message, no_format, formatted, flog_all, criticals, flog_all-quiet}
use graphserv.Startup.Listening.{
  IsRefused, IsDeaf, no_sockets, listen_all-IsRefused, listen_all-IsDeaf,
}
use graphserv.Tests.Fixture.{sample_env}
use graphserv.Tests.Rounds.{nothing_ready}

log_flags-selected_example :
    log_flags (codes "iqa") default_mask
    ≡ (if are_known (codes "iqa") then some (selected (codes "iqa") default_mask) else none)
log_flags-selected_example = log_flags-selected (codes "iqa") default_mask

quiet-flags : log_flags (codes "ia" ++ b'q' ∷ []) default_mask ≡ some quiet_mask
unfolding log_flags
quiet-flags = refl

abbrev two_messages : List Message
two_messages =
    record { level = log_error; time = no_format; message = codes "a" ++ 10 ∷ [] }
    ∷ record { level = log_crit; time = formatted (codes "12:00"); message = codes "b" ++ 10 ∷ [] }
    ∷ []

flog_all-quiet_example :
    flog_all sample_env quiet_mask two_messages [] ≡ [] ++ criticals sample_env two_messages
flog_all-quiet_example =
    flog_all-quiet sample_env (codes "ia") default_mask quiet_mask two_messages [] quiet-flags

listen_all-IsRefused_example :
    (listen_all 6666 8090 (listening 3) bind_fails ≡ none)
    ↔ (IsRefused 6666 (listening 3) ⊎ IsRefused 8090 bind_fails)
listen_all-IsRefused_example = listen_all-IsRefused 6666 8090 (listening 3) bind_fails

listen_all-IsDeaf_example :
    (listen_all 6666 0 socket_fails (listening 3) ≡ some no_sockets)
    ↔ (IsDeaf 6666 socket_fails × IsDeaf 0 (listening 3))
listen_all-IsDeaf_example =
    listen_all-IsDeaf 6666 0 socket_fails (listening 3) tt (λ e. omega arith)

-- the last of two ports counts, and a bad flag of the option -l ends the program
bad_flag :
    main
      (λ s. true)
      (λ s. 80)
      sample_env
      (tcp (codes "1") ∷ log (codes "x") ∷ [])
      socket_fails
      socket_fails
      30
      (nothing_ready ∷ [])
    ≡ status 1
unfolding main log_flags graphserv.Startup.parse_options
bad_flag = refl
