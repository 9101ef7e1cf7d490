-- ===== src/Server/Reply.antt =====
-- What a session writes to its client: the virtual functions of SessionContext and
-- HTTPSessionContext, of src/session.h and src/main.cpp.
pub mod Output
pub mod Http
use graphserv.Prelude.{
  ℕ, suc, ◌+◌, ◌==◌, ltb, if◌then◌else◌, Bool, true, false, Text, text, String, List, [], ◌∷◌, ◌++◌,
  reverse, Option, none, some, is_empty,
}
use graphserv.Prelude.Chars.{is_space}
use graphserv.External.{Env}
use graphserv.Writer
use graphserv.Writer.{Flushed}
use graphserv.Status.{get_status_code, cmd_access_denied}
use graphserv.Session.{SessionContext, conn_tcp, conn_http}
use graphserv.Server.{Ctx, force_client_disconnect, shutdown_client, next_id}

-- the writer after a write, and the disconnect that SessionContext::writeFailed asks for
store : Flushed → Ctx → Ctx
store f c = record {
  app = if f.write_failed then force_client_disconnect c.sc.client_id c.app else c.app;
  sc = record c.sc { writer = f.writer };
}

-- rfind('\n') != size() - 1: the text has a last character, and that is no newline
unfoldable pub lacks_newline : Text → Bool
lacks_newline [] = false
lacks_newline (c ∷ rest) = elim rest [
  | [] ↦ if c == 10 then false else true
  | d ∷ more ↦ lacks_newline rest
]

-- the loop that cuts white space off the end of a header field; a field has other characters
drop_space : Text → Text
drop_space [] = []
drop_space (c ∷ rest) = if is_space c then drop_space rest else c ∷ rest

unfoldable pub trim_end : Text → Text
unfolding drop_space
trim_end s = reverse (drop_space (reverse s))

abbrev crlf : Text
crlf = 13 ∷ 10 ∷ []

module _ (env : Env) where
  unfoldable pub write : Text → Ctx → Ctx
  unfolding store
  write s c = store (Writer.write env s c.sc.writer) c

  unfoldable pub writef : Text → Ctx → Ctx
  unfolding store
  writef s c = store (Writer.writef env s c.sc.writer) c

  -- the optional field of httpWriteResponseHeader
  http_write_field : Text → Ctx → Ctx
  http_write_field field c = if is_empty field then c else write crlf (write (trim_end field) c)

  unfoldable pub http_write_response_header : ℕ → String → Text → Ctx → Ctx
  unfolding http_write_field
  http_write_response_header status title field c =
      let c₁ =
        writef (text "HTTP/1.0 " ++ env.decimal status ++ text " " ++ text title ++ crlf) c in
      let c₂ = writef (text "Content-Type: text/plain" ++ crlf) c₁ in
      writef crlf (http_write_field field c₂)

  unfoldable pub http_write_error_body : Text → Ctx → Ctx
  http_write_error_body description c =
      let c₁ = write description c in if lacks_newline description then write (10 ∷ []) c₁ else c₁

  unfoldable pub http_write_error_response : ℕ → String → Text → Text → Ctx → Ctx
  http_write_error_response status title description field c =
      http_write_error_body description (http_write_response_header status title field c)

  -- the switch of HTTPSessionContext::forwardStatusline, on the code of the first word
  unfoldable pub http_status_response : ℕ → Text → Ctx → Ctx
  http_status_response code line c =
      let header = text "X-GraphProcessor: " ++ line in
      if code == env.cmd_success
      then write line (http_write_response_header 200 "OK" header c)
      else if code == env.cmd_failure
      then http_write_error_response 400 "Bad Request" line header c
      else if code == env.cmd_error
      then http_write_error_response 500 "Internal Server Error" line header c
      else if code == env.cmd_none
      then http_write_error_response 404 "Not Found" line header c
      else if code == cmd_access_denied env
      then http_write_error_response 401 "Not Authorized" line header c
      else if code == env.cmd_value
      then write line (http_write_response_header 222 "Value" header c)
      else http_write_error_response 500 "Invalid GraphCore Status Line" line header c

  finish_conversation : Ctx → Ctx
  finish_conversation c = record c { sc = record c.sc { conversation_finished = true } }

  -- the first status line of an HTTP client, by its words
  http_first_status : List Text → Text → Ctx → Ctx
  unfolding finish_conversation
  http_first_status [] line c = shutdown_client env (
      http_write_error_response 500 "Internal Server Error"
        (env.gettext (text "Received empty status line from core. Please report.")) [] c)
  http_first_status (word ∷ rest) line c =
      let c₁ = http_status_response (get_status_code env word) line c in
      if env.line_indicates_dataset line then c₁ else finish_conversation c₁

  unfoldable pub http_forward_statusline : Text → Ctx → Ctx
  unfolding http_first_status
  http_forward_statusline line c =
      let n = next_id c.sc.http.commands_executed in
      let c₁ = record c {
        sc = record c.sc { http = record c.sc.http { commands_executed = n } };
      } in
      if ltb 1 n then write line c₁ else http_first_status (env.split_string line) line c₁

  unfoldable pub forward_statusline : Text → Ctx → Ctx
  forward_statusline line c = elim c.sc.connection_type [
    | conn_tcp ↦ write line c
    | conn_http ↦ http_forward_statusline line c
  ]

  unfoldable pub forward_dataset : Text → Ctx → Ctx
  unfolding finish_conversation
  forward_dataset line c = elim c.sc.connection_type [
    | conn_tcp ↦ write line c
    | conn_http ↦
        let c₁ = write line c in
        if is_empty (env.split_string line) then finish_conversation c₁ else c₁
  ]

  unfoldable pub command_not_found : Text → Ctx → Ctx
  unfolding finish_conversation
  command_not_found message c = elim c.sc.connection_type [
    | conn_tcp ↦ writef (env.fail_str ++ text " " ++ message ++ text "\n") c
    | conn_http ↦
        finish_conversation (
          http_write_error_response 501 "Not Implemented" (env.fail_str ++ text " " ++ message) []
            c)
  ]
