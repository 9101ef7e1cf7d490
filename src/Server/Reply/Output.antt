-- ===== src/Server/Reply/Output.antt =====
-- What a reply leaves alone: all but the session's writer, its HTTP state and its time of shutdown,
-- and the set of clients to remove.
use graphserv.Prelude.{
  ℕ, ◌≡◌, refl, ◌∙◌, ltb, if◌then◌else◌, Bool, true, false, Bool-cases, inl, inr, ◌==◌, Text,
  String, List, [], ◌∷◌, is_empty,
}
use graphserv.External.{Env}
use graphserv.Writer.{NonblockWriter, Flushed}
use graphserv.Prelude.Assoc.{member, add}
use graphserv.Status.{get_status_code, cmd_access_denied}
use graphserv.Writer
use graphserv.Session.{HttpClientState, ConnectionType, conn_tcp, conn_http}
use graphserv.Server.{Ctx, force_client_disconnect, shutdown_client, next_id}
use graphserv.Server.Reply.{
  store, write, writef, http_write_field, http_write_response_header, http_write_error_body,
  http_write_error_response, http_status_response, http_first_status, finish_conversation,
  http_forward_statusline, forward_statusline, forward_dataset, command_not_found, lacks_newline,
  trim_end, crlf,
}

pub record OnlyOutput (c c' : Ctx) : Type 0 where
  pub same_cores : c'.app.core_instances ≡ c.app.core_instances
  pub same_core_counter : c'.app.core_id_counter ≡ c.app.core_id_counter
  pub same_sessions : c'.app.session_contexts ≡ c.app.session_contexts
  pub same_auth : c'.app.password_auth ≡ c.app.password_auth
  pub same_messages : c'.app.status_messages ≡ c.app.status_messages
  pub same_now : c'.app.now ≡ c.app.now
  pub same_client : c'.sc.client_id ≡ c.sc.client_id
  pub same_level : c'.sc.access_level ≡ c.sc.access_level
  pub same_type : c'.sc.connection_type ≡ c.sc.connection_type
  pub same_core : c'.sc.core_id ≡ c.sc.core_id
  pub same_queue : c'.sc.line_queue ≡ c.sc.line_queue
  pub same_command : c'.sc.cur_command ≡ c.sc.cur_command

pub OnlyOutput-refl : (c : Ctx) → OnlyOutput c c
OnlyOutput-refl c = record {
  same_cores = refl;
  same_core_counter = refl;
  same_sessions = refl;
  same_auth = refl;
  same_messages = refl;
  same_now = refl;
  same_client = refl;
  same_level = refl;
  same_type = refl;
  same_core = refl;
  same_queue = refl;
  same_command = refl;
}

pub OnlyOutput-trans : {a b c : Ctx} → OnlyOutput a b → OnlyOutput b c → OnlyOutput a c
OnlyOutput-trans p q = record {
  same_cores = q.same_cores ∙ p.same_cores;
  same_core_counter = q.same_core_counter ∙ p.same_core_counter;
  same_sessions = q.same_sessions ∙ p.same_sessions;
  same_auth = q.same_auth ∙ p.same_auth;
  same_messages = q.same_messages ∙ p.same_messages;
  same_now = q.same_now ∙ p.same_now;
  same_client = q.same_client ∙ p.same_client;
  same_level = q.same_level ∙ p.same_level;
  same_type = q.same_type ∙ p.same_type;
  same_core = q.same_core ∙ p.same_core;
  same_queue = q.same_queue ∙ p.same_queue;
  same_command = q.same_command ∙ p.same_command;
}

-- Everything that a reply may change.
output :
    (c : Ctx) (removed : List ℕ) (w : NonblockWriter) (h : HttpClientState) (finished : Bool)
    (time : ℕ)
    → OnlyOutput c (record {
      app = record c.app { clients_to_remove = removed };
      sc = record c.sc {
        writer = w;
        http = h;
        conversation_finished = finished;
        shutdown_time = time;
      };
    })
output c removed w h finished time = record {
  same_cores = refl;
  same_core_counter = refl;
  same_sessions = refl;
  same_auth = refl;
  same_messages = refl;
  same_now = refl;
  same_client = refl;
  same_level = refl;
  same_type = refl;
  same_core = refl;
  same_queue = refl;
  same_command = refl;
}

if-OnlyOutput :
    (b : Bool) (c x y : Ctx) → OnlyOutput c x → OnlyOutput c y → OnlyOutput c (if b then x else y)
if-OnlyOutput true c x y hx hy = hx
if-OnlyOutput false c x y hx hy = hy

by_type-OnlyOutput :
    (t : ConnectionType) (c x y : Ctx)
    → OnlyOutput c x
    → OnlyOutput c y
    → OnlyOutput c (elim t [ conn_tcp ↦ x | conn_http ↦ y ])
by_type-OnlyOutput conn_tcp c x y hx hy = hx
by_type-OnlyOutput conn_http c x y hx hy = hy

-- with a disconnect or without
disconnect-OnlyOutput :
    (b : Bool) (c : Ctx) (id : ℕ) (w : NonblockWriter) (time : ℕ)
    → OnlyOutput c (record {
      app = if b then force_client_disconnect id c.app else c.app;
      sc = record c.sc { writer = w; shutdown_time = time };
    })
unfolding force_client_disconnect
disconnect-OnlyOutput false c id w time =
    output c c.app.clients_to_remove w c.sc.http c.sc.conversation_finished time
disconnect-OnlyOutput true c id w time = elim (Bool-cases (member id c.app.clients_to_remove)) [
  | inl e ↦ rw e (output c c.app.clients_to_remove w c.sc.http c.sc.conversation_finished time)
  | inr e ↦
      rw e (output c (add id c.app.clients_to_remove) w c.sc.http c.sc.conversation_finished time)
]

store-OnlyOutput : (f : Flushed) (c : Ctx) → OnlyOutput c (store f c)
unfolding store
store-OnlyOutput f c =
    disconnect-OnlyOutput f.write_failed c c.sc.client_id f.writer c.sc.shutdown_time

pub shutdown_client-OnlyOutput : (env : Env) (c : Ctx) → OnlyOutput c (shutdown_client env c)
unfolding shutdown_client
shutdown_client-OnlyOutput env c = elim (Bool-cases (env.shutdown_succeeds c.sc.sockfd)) [
  | inl e ↦ rw e (disconnect-OnlyOutput false c c.sc.client_id c.sc.writer c.app.now)
  | inr e ↦ rw e (disconnect-OnlyOutput true c c.sc.client_id c.sc.writer c.app.now)
]

module _ (env : Env) where
  pub write-OnlyOutput : (s : Text) (c : Ctx) → OnlyOutput c (write env s c)
  unfolding write
  write-OnlyOutput s c = store-OnlyOutput (Writer.write env s c.sc.writer) c

  pub writef-OnlyOutput : (s : Text) (c : Ctx) → OnlyOutput c (writef env s c)
  unfolding writef
  writef-OnlyOutput s c = store-OnlyOutput (Writer.writef env s c.sc.writer) c

  -- one more write behind what is an output already
  more : {c : Ctx} (s : Text) (x : Ctx) → OnlyOutput c x → OnlyOutput c (write env s x)
  more s x h = OnlyOutput-trans h (write-OnlyOutput s x)

  moref : {c : Ctx} (s : Text) (x : Ctx) → OnlyOutput c x → OnlyOutput c (writef env s x)
  moref s x h = OnlyOutput-trans h (writef-OnlyOutput s x)

  field-OnlyOutput : (field : Text) (c : Ctx) → OnlyOutput c (http_write_field env field c)
  unfolding http_write_field
  field-OnlyOutput field c =
      if-OnlyOutput (is_empty field) c c _ (OnlyOutput-refl c)
        (more crlf _ (write-OnlyOutput (trim_end field) c))

  header-OnlyOutput :
      (status : ℕ) (title : String) (field : Text) (c : Ctx)
      → OnlyOutput c (http_write_response_header env status title field c)
  unfolding http_write_response_header
  header-OnlyOutput status title field c =
      moref crlf _ (OnlyOutput-trans (moref _ _ (writef-OnlyOutput _ c)) (field-OnlyOutput field _))

  error-OnlyOutput :
      (status : ℕ) (title : String) (description field : Text) (c : Ctx)
      → OnlyOutput c (http_write_error_response env status title description field c)
  unfolding http_write_error_response http_write_error_body
  error-OnlyOutput status title description field c =
      let h = more description _ (header-OnlyOutput status title field c) in
      if-OnlyOutput (lacks_newline description) c _ _ (more (10 ∷ []) _ h) h

  status-OnlyOutput :
      (code : ℕ) (line : Text) (c : Ctx) → OnlyOutput c (http_status_response env code line c)
  unfolding http_status_response
  status-OnlyOutput code line c =
      if-OnlyOutput (code == env.cmd_success) c _ _ (more line _ (header-OnlyOutput 200 "OK" _ c)) (
        if-OnlyOutput (code == env.cmd_failure) c _ _ (error-OnlyOutput _ _ _ _ c) (
          if-OnlyOutput (code == env.cmd_error) c _ _ (error-OnlyOutput _ _ _ _ c) (
            if-OnlyOutput (code == env.cmd_none) c _ _ (error-OnlyOutput _ _ _ _ c) (
              if-OnlyOutput (code == cmd_access_denied env) c _ _ (error-OnlyOutput _ _ _ _ c) (
                if-OnlyOutput (code == env.cmd_value) c _ _
                  (more line _ (header-OnlyOutput 222 "Value" _ c))
                  (error-OnlyOutput _ _ _ _ c))))))

  finish-OnlyOutput : (c : Ctx) → OnlyOutput c (finish_conversation env c)
  unfolding finish_conversation
  finish-OnlyOutput c =
      output c c.app.clients_to_remove c.sc.writer c.sc.http true c.sc.shutdown_time

  first_status-OnlyOutput :
      (words : List Text) (line : Text) (c : Ctx)
      → OnlyOutput c (http_first_status env words line c)
  unfolding http_first_status
  first_status-OnlyOutput [] line c =
      OnlyOutput-trans (error-OnlyOutput _ _ _ _ c) (shutdown_client-OnlyOutput env _)
  first_status-OnlyOutput (word ∷ rest) line c =
      let h = status-OnlyOutput (get_status_code env word) line c in
      if-OnlyOutput (env.line_indicates_dataset line) c _ _ h
        (OnlyOutput-trans h (finish-OnlyOutput _))

  http_statusline-OnlyOutput :
      (line : Text) (c : Ctx) → OnlyOutput c (http_forward_statusline env line c)
  unfolding http_forward_statusline
  http_statusline-OnlyOutput line c =
      let n = next_id c.sc.http.commands_executed in
      let h =
        output c c.app.clients_to_remove c.sc.writer (record c.sc.http { commands_executed = n })
          c.sc.conversation_finished c.sc.shutdown_time in
      if-OnlyOutput (ltb 1 n) c _ _ (more line _ h)
        (OnlyOutput-trans h (first_status-OnlyOutput (env.split_string line) line _))

  pub forward_statusline-OnlyOutput :
      (line : Text) (c : Ctx) → OnlyOutput c (forward_statusline env line c)
  unfolding forward_statusline
  forward_statusline-OnlyOutput line c =
      by_type-OnlyOutput c.sc.connection_type c _ _ (write-OnlyOutput line c)
        (http_statusline-OnlyOutput line c)

  pub forward_dataset-OnlyOutput :
      (line : Text) (c : Ctx) → OnlyOutput c (forward_dataset env line c)
  unfolding forward_dataset
  forward_dataset-OnlyOutput line c =
      let h = write-OnlyOutput line c in
      by_type-OnlyOutput c.sc.connection_type c _ _ h (
        if-OnlyOutput (is_empty (env.split_string line)) c _ _
          (OnlyOutput-trans h (finish-OnlyOutput _)) h)

  pub command_not_found-OnlyOutput :
      (message : Text) (c : Ctx) → OnlyOutput c (command_not_found env message c)
  unfolding command_not_found
  command_not_found-OnlyOutput message c =
      by_type-OnlyOutput c.sc.connection_type c _ _ (writef-OnlyOutput _ c)
        (OnlyOutput-trans (error-OnlyOutput _ _ _ _ c) (finish-OnlyOutput _))
