-- ===== src/Server.antt =====
-- class Graphserv of src/servapp.h: its state, and the functions that look after its maps.
--
-- A function that is given a reference to a session works on a `Ctx`: the server, and the session
-- that the reference is to. The map of sessions holds that session as it was when the reference was
-- taken; `Server.Loop` takes it out and puts it back. No function below reaches another session.
pub mod Reply
pub mod Dispatch
pub mod Forwarding
pub mod Commands
pub mod Http
pub mod Loop
pub mod Libevent
pub mod Processed
pub mod Names
pub mod Instances
use graphserv.Prelude.{
  ℕ, zero, suc, ◌+◌, ◌%◌, ◌^◌, ◌==◌, if◌then◌else◌, Bool, true, false, ◌&&◌, ◌||◌, not, Text, List,
  [], ◌∷◌, ◌++◌, Option, none, some, is_empty, same_text, codes,
}
use graphserv.Prelude.Assoc.{find, insert, update, erase, member, add}
use graphserv.Prelude.Chars.{is_upper, is_lower, is_digit}
use graphserv.External.{Env}
use graphserv.Auth.{PasswordAuth}
use graphserv.Core.{CoreInstance, get_name, set_name, has_data_for_client}
use graphserv.Core
use graphserv.Session.{SessionContext, ConnectionType}
use graphserv.Session

-- The classes of the server commands, and what their objects keep in lastStatusMessage.
pub data ServCmd : Type 0 where
  create_graph use_graph authorize help drop_graph list_graphs : ServCmd
  session_info server_stats protocol_version quit shutdown : ServCmd

pub record Graphserv : Type 0 where
  pub tcp_port : ℕ
  pub http_port : ℕ
  pub core_path : Text
  pub core_id_counter : ℕ
  pub session_id_counter : ℕ
  pub core_instances : List (ℕ × CoreInstance)
  pub session_contexts : List (ℕ × SessionContext)
  pub clients_to_remove : List ℕ
  pub password_auth : PasswordAuth
  pub status_messages : ServCmd → Text
  pub lines_from_clients : ℕ
  pub quitting : Bool
  -- what getTime() and time(0) answer
  pub now : ℕ

pub record Ctx : Type 0 where
  pub app : Graphserv
  pub sc : SessionContext

-- ++counter on a uint32_t
unfoldable pub next_id : ℕ → ℕ
next_id n = (n + 1) % 2 ^ 32

-- c is one of [a-zA-Z_-]
unfoldable pub name_start : ℕ → Bool
unfolding is_upper is_lower
name_start c = is_upper c || is_lower c || c == b'-' || c == b'_'

-- the loop of isValidGraphName over all characters
unfoldable pub name_loop : Text → Bool
unfolding is_upper is_lower is_digit
name_loop [] = true
name_loop (c ∷ rest) =
    if is_upper c || is_lower c || is_digit c || c == b'-' || c == b'_'
    then name_loop rest
    else false

unfoldable pub is_valid_graph_name : Text → Bool
unfolding name_start name_loop
is_valid_graph_name [] = false
is_valid_graph_name (c ∷ rest) = if name_start c then name_loop (c ∷ rest) else false

module _ (env : Env) where
  -- findNamedInstance on the map: the first running instance with the name
  pub named_loop : Text → List (ℕ × CoreInstance) → Option CoreInstance
  named_loop name [] = none
  named_loop name ((id, core) ∷ rest) =
      if same_text (get_name env core) name && core.process_running
      then some core
      else named_loop name rest

  unfoldable pub find_named_instance : Text → Graphserv → Option CoreInstance
  unfolding named_loop
  find_named_instance name app = named_loop name app.core_instances

-- only if it is running
unfoldable pub running : Option CoreInstance → Option CoreInstance
running none = none
running (some core) = if core.process_running then some core else none

unfoldable pub find_instance : ℕ → Graphserv → Option CoreInstance
unfolding running
find_instance id app = running (find id app.core_instances)

-- the instance, with the counter of the server
unfoldable pub create_core_instance : Text → Graphserv → Graphserv × CoreInstance
create_core_instance name app =
    let id = next_id app.core_id_counter in
    (record app { core_id_counter = id }, set_name name (Core.create id))

unfoldable pub add_core_instance : CoreInstance → Graphserv → Graphserv
add_core_instance core app = record app {
  core_instances = insert core.instance_id core app.core_instances;
}

unfoldable pub remove_core_instance : CoreInstance → Graphserv → Graphserv
remove_core_instance core app = record app {
  core_instances = erase core.instance_id app.core_instances;
}

-- What is written through a pointer to an instance of the map.
unfoldable pub put_core_instance : CoreInstance → Graphserv → Graphserv
put_core_instance core app = record app {
  core_instances = update core.instance_id core app.core_instances;
}

unfoldable pub find_client : ℕ → Graphserv → Option SessionContext
find_client id app = if member id app.clients_to_remove then none else find id app.session_contexts

-- forceClientDisconnect, of the client with the ID
unfoldable pub force_client_disconnect : ℕ → Graphserv → Graphserv
force_client_disconnect id app =
    if member id app.clients_to_remove
    then app
    else record app { clients_to_remove = add id app.clients_to_remove }

-- shutdownClient
unfoldable pub shutdown_client : Env → Ctx → Ctx
shutdown_client env c = record {
  app =
      if env.shutdown_succeeds c.sc.sockfd
      then c.app
      else force_client_disconnect c.sc.client_id c.app;
  sc = record c.sc { shutdown_time = c.app.now };
}

-- SessionContext::isWaitingForCoreReply
unfoldable pub is_waiting_for_core_reply : Ctx → Bool
is_waiting_for_core_reply c = elim c.sc.cur_command [
  | some ce ↦ true
  | none ↦ elim (find_instance c.sc.core_id c.app) [
    | none ↦ false
    | some core ↦ has_data_for_client c.sc.client_id core
  ]
]

-- createSession: the ID is counted also if closeOnExec fails, and then there is no session.
unfoldable pub create_session : Bool → ConnectionType → ℕ → Graphserv → Graphserv
create_session close_on_exec type sock app =
    let id = next_id app.session_id_counter in
    if close_on_exec
    then record app {
      session_id_counter = id;
      session_contexts = insert id (Session.create type id sock app.now) app.session_contexts;
    }
    else record app { session_id_counter = id }
