-- ===== src/Session.antt =====
-- SessionContext and HTTPSessionContext of src/session.h: the state of a connection. One record has
-- the fields of both classes; those of the derived class mean nothing for a TCP connection. What is
-- only set and never read (invalidDatasetStatus, invalidDatasetMsg, the libevent members, four of the
-- statistics) is left out. The statistics count in ℕ, and not in double.
use graphserv.Prelude.{ℕ, Bool, false, Text, List, [], Option, none}
use graphserv.Access.{AccessLevel, access_read}
use graphserv.Writer.{NonblockWriter, set_write_fd}
use graphserv.Core.Entry.{CommandQEntry}

pub data ConnectionType : Type 0 where
  conn_tcp conn_http : ConnectionType

pub record Stats : Type 0 where
  pub last_time : ℕ
  pub lines_sent : ℕ
  pub serv_commands_sent : ℕ
  pub bytes_sent : ℕ

unfoldable pub reset_stats : ℕ → Stats
reset_stats now = record { last_time = now; lines_sent = 0; serv_commands_sent = 0; bytes_sent = 0 }

pub record HttpClientState : Type 0 where
  pub request : List Text
  pub request_string : Text
  pub commands_executed : ℕ

pub record SessionContext : Type 0 where
  pub client_id : ℕ
  pub access_level : AccessLevel
  pub connection_type : ConnectionType
  pub core_id : ℕ
  pub sockfd : ℕ
  pub linebuf : Text
  pub line_queue : List Text
  pub choke_time : ℕ
  pub shutdown_time : ℕ
  pub cur_command : Option CommandQEntry
  pub stats : Stats
  pub writer : NonblockWriter
  pub conversation_finished : Bool
  pub http : HttpClientState

-- the two constructors, at time `now`
unfoldable pub create : ConnectionType → ℕ → ℕ → ℕ → SessionContext
unfolding reset_stats set_write_fd
create type id sock now = record {
  client_id = id;
  access_level = access_read;
  connection_type = type;
  core_id = 0;
  sockfd = sock;
  linebuf = [];
  line_queue = [];
  choke_time = 0;
  shutdown_time = 0;
  cur_command = none;
  stats = reset_stats now;
  writer = set_write_fd sock;
  conversation_finished = false;
  http = record { request = []; request_string = []; commands_executed = 0 };
}
