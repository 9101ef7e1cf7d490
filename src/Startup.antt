-- ===== src/Startup.antt =====
-- main of src/main.cpp, Graphserv::run and openListenSocket of src/servapp.h, and the levels of log
-- output. getopt and the calls on sockets are arguments, by what they answer; Cli::isValidUint and
-- atoi are parameters.
pub mod Logging
pub mod Flog
pub mod Listening
use graphserv.Prelude.{
  ℕ, zero, suc, ◌==◌, ◌%◌, ◌^◌, if◌then◌else◌, Bool, true, false, ◌&&◌, ◌||◌, Text, codes, List, [],
  ◌∷◌, Option, none, some,
}
use graphserv.External.{Env}
use graphserv.Outcome.{Outcome, ok, fails, exits, undefined}
use graphserv.Server.Loop.Round.{Round, LoopState, create, run}

pub data LogLevel : Type 0 where
  log_info log_error log_auth log_crit : LogLevel

-- logMask, by its bits
pub record LogMask : Type 0 where
  pub info : Bool
  pub error : Bool
  pub auth : Bool

abbrev pub default_mask : LogMask
default_mask = record { info = false; error = true; auth = false }

abbrev pub quiet_mask : LogMask
quiet_mask = record { info = false; error = false; auth = false }

-- the test of flog: whether the line is printed
unfoldable pub logs : LogLevel → LogMask → Bool
logs log_info mask = mask.info
logs log_error mask = mask.error
logs log_auth mask = mask.auth
logs log_crit mask = true

-- the switch on a flag of the option -l: `none` for one that is unknown
unfoldable pub log_flag : ℕ → LogMask → Option LogMask
log_flag c mask =
    if c == b'i'
    then some (record mask { info = true; error = true })
    else if c == b'e'
    then some (record mask { error = true })
    else if c == b'a'
    then some (record mask { auth = true })
    else if c == b'q'
    then some quiet_mask
    else none

unfoldable pub log_flags : Text → LogMask → Option LogMask
unfolding log_flag
log_flags [] mask = some mask
log_flags (c ∷ rest) mask = elim (log_flag c mask) [ none ↦ none | some m ↦ log_flags rest m ]

-- What getopt answers, with optarg.
pub data Opt : Type 0 where
  unknown help libevent : Opt
  tcp http htpasswd group core log : Text → Opt

pub record Config : Type 0 where
  pub tcp_port : ℕ
  pub http_port : ℕ
  pub htpw_filename : Text
  pub group_filename : Text
  pub core_path : Text
  pub use_libevent : Bool
  pub log_mask : LogMask

abbrev pub default_config : Config
default_config = record {
  tcp_port = 6666;
  http_port = 8090;
  htpw_filename = codes "gspasswd.conf";
  group_filename = codes "gsgroups.conf";
  core_path = codes "./graphcore/graphcore";
  use_libevent = false;
  log_mask = default_mask;
}

-- The command line, or the status with which the program exits.
pub data Parsed : Type 0 where
  configured : Config → Parsed
  exits_with : ℕ → Parsed

-- How the calls of openListenSocket end: one of them fails, or there is a descriptor.
pub data SocketCalls : Type 0 where
  socket_fails setsockopt_fails bind_fails listen_fails : SocketCalls
  listening : ℕ → SocketCalls

-- openListenSocket: `none` is the result -1. If socket() fails it returns false, which is 0.
unfoldable pub open_listen_socket : SocketCalls → Option ℕ
open_listen_socket socket_fails = some 0
open_listen_socket setsockopt_fails = none
open_listen_socket bind_fails = none
open_listen_socket listen_fails = none
open_listen_socket (listening fd) = some fd

-- the descriptor of a listening socket; a port 0 has none
unfoldable pub listen_on : ℕ → SocketCalls → Option ℕ
unfolding open_listen_socket
listen_on zero calls = some 0
listen_on (suc port) calls = open_listen_socket calls

-- the start of Graphserv::run: `none` where it returns false
unfoldable pub listen_all : ℕ → ℕ → SocketCalls → SocketCalls → Option (ℕ × ℕ)
unfolding listen_on
listen_all tcp_port http_port tcp_calls http_calls = elim (listen_on tcp_port tcp_calls) [
  | none ↦ none
  | some listen_socket ↦ elim (listen_on http_port http_calls) [
    | none ↦ none
    | some http_socket ↦ some (listen_socket, http_socket)
  ]
]

-- How main ends: with a status, or by the libevent loop, which does not end.
pub data Ending : Type 0 where
  status : ℕ → Ending
  no_end : Ending
  bad_end : Ending

-- the end of main behind the loop: `fails` is the result false of run
unfoldable pub ending : Outcome LoopState → Ending
ending (ok l) = status 0
ending fails = status 1
ending exits = status 1
ending undefined = bad_end

module _ (is_valid_uint : Text → Bool) (atoi : Text → ℕ) where
  -- cmdlnParseUint: `none` is exit(1)
  unfoldable pub cmdln_parse_uint : Text → Option ℕ
  cmdln_parse_uint s = if is_valid_uint s then some (atoi s) else none

  -- the switch on an option
  unfoldable pub take_option : Opt → Config → Parsed
  unfolding cmdln_parse_uint
  take_option unknown config = exits_with 1
  take_option help config = exits_with 0
  take_option libevent config = configured (record config { use_libevent = true })
  take_option (tcp s) config = elim (cmdln_parse_uint s) [
    | none ↦ exits_with 1
    | some port ↦ configured (record config { tcp_port = port })
  ]
  take_option (http s) config = elim (cmdln_parse_uint s) [
    | none ↦ exits_with 1
    | some port ↦ configured (record config { http_port = port })
  ]
  take_option (htpasswd s) config = configured (record config { htpw_filename = s })
  take_option (group s) config = configured (record config { group_filename = s })
  take_option (core s) config = configured (record config { core_path = s })
  take_option (log s) config = elim (log_flags s config.log_mask) [
    | none ↦ exits_with 1
    | some mask ↦ configured (record config { log_mask = mask })
  ]

  unfoldable pub parse_options : List Opt → Config → Parsed
  unfolding take_option
  parse_options [] config = configured config
  parse_options (opt ∷ rest) config = elim (take_option opt config) [
    | exits_with n ↦ exits_with n
    | configured c ↦ parse_options rest c
  ]

  -- the server with this configuration: its constructor, and run
  unfoldable pub serve_config : Env → Config → SocketCalls → SocketCalls → ℕ → List Round → Ending
  unfolding ending
  serve_config env config tcp_calls http_calls now rounds =
      elim (create env config.tcp_port config.http_port config.core_path now) [
        | ok app ↦ elim (listen_all config.tcp_port config.http_port tcp_calls http_calls) [
          | none ↦ status 1
          | some sockets ↦
              if config.use_libevent
              then no_end
              else ending (run env rounds (record { app = app; defer_until = 0; ncalls = 0 }))
        ]
        | fails ↦ status 1
        | exits ↦ status 1
        | undefined ↦ bad_end
      ]

  unfoldable pub main : Env → List Opt → SocketCalls → SocketCalls → ℕ → List Round → Ending
  unfolding serve_config
  main env options tcp_calls http_calls now rounds = elim (parse_options options default_config) [
    | exits_with n ↦ status n
    | configured config ↦
        if config.tcp_port == 0 && config.http_port == 0
        then status 1
        else serve_config env config tcp_calls http_calls now rounds
  ]
