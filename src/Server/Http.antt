-- ===== src/Server/Http.antt =====
-- lineFromHTTPClient of src/servapp.h.
pub mod Uri
use graphserv.Prelude.{
  ℕ, zero, suc, ◌+◌, ◌==◌, if◌then◌else◌, Bool, true, false, ◌&&◌, ◌||◌, not, Text, text, codes,
  List, [], ◌∷◌, ◌++◌, map, Option, none, some, is_empty, length, drop, same_text,
}
use graphserv.Prelude.Chars.{to_upper}
use graphserv.External.{Env}
use graphserv.Outcome.{Outcome, ok}
use graphserv.Core.{CoreInstance}
use graphserv.Session.{HttpClientState}
use graphserv.Server.{Ctx, find_named_instance}
use graphserv.Server.Reply.{forward_statusline}
use graphserv.Server.Dispatch.{line_from_client}
use Uri.{decode_uri}

unfoldable pub set_core : ℕ → Ctx → Ctx
set_core id c = record c { sc = record c.sc { core_id = id } }

unfoldable pub set_request : List Text → Text → Ctx → Ctx
set_request request string c = record c {
  sc = record c.sc { http = record c.sc.http { request = request; request_string = string } };
}

module _ (env : Env) where
  open env use {gettext}

  -- a failure that ends the handling of the request
  unfoldable pub reject : Text → Ctx → Outcome Ctx
  reject message c = ok (forward_statusline env (env.fail_str ++ message) c)

  -- a command for the core with the name
  unfoldable pub core_request : Text → Text → Ctx → Outcome Ctx
  unfolding set_core
  core_request name command c = elim (find_named_instance env name c.app) [
    | none ↦ reject (text " " ++ gettext (text "No such instance.\n")) c
    | some core ↦
        if env.line_indicates_dataset command
        then reject (gettext (text " data sets not allowed in HTTP GET requests.\n")) c
        else line_from_client env false command (set_core core.instance_id c)
  ]

  -- the line that answers an empty request
  unfoldable pub welcome : Ctx → Text
  welcome c =
      env.format
        (gettext (
          text
            "%s this is the GraphServ HTTP module listening on port %d. protocol-version is %s. %d core instance(s) running, %d client connection(s) active including yours.\n"))
        (env.success_str
          ∷ env.decimal c.app.http_port
          ∷ env.protocol_version
          ∷ env.decimal (length c.app.core_instances)
          ∷ env.decimal (length c.app.session_contexts)
          ∷ [])

  -- a request that names no core
  unfoldable pub plain_request : Text → Ctx → Outcome Ctx
  unfolding welcome
  plain_request uri c =
      if is_empty (env.split_string uri)
      then ok (forward_statusline env (welcome c) c)
      else if env.line_indicates_dataset uri
      then reject (gettext (text " data sets not allowed in HTTP GET requests.\n")) c
      else line_from_client env false uri c

  -- the decoded URI by its parts between slashes
  unfoldable pub request_uri : Text → Ctx → Outcome Ctx
  unfolding core_request plain_request
  request_uri uri c = elim (env.split_string_by uri (codes "/")) [
    | core_name ∷ (word ∷ rest) ↦ core_request core_name (drop (suc (length core_name)) uri) c
    | _ ↦ plain_request uri c
  ]

  unfoldable pub is_known_version : Text → Bool
  is_known_version v = same_text v (codes "HTTP/1.0") || same_text v (codes "HTTP/1.1")

  -- the words of the request line
  unfoldable pub request_words : List Text → Ctx → Outcome Ctx
  unfolding is_known_version
  request_words (method ∷ uri ∷ version ∷ []) c =
      if is_known_version (map to_upper version)
      then elim (decode_uri env uri) [
        | none ↦ reject (gettext (text " bad hex in request URI.\n")) c
        | some decoded ↦ request_uri decoded c
      ]
      else reject (gettext (text " unknown HTTP version.\n")) c
  request_words _ c = reject (gettext (text " bad HTTP request string.\n")) c

  unfoldable pub first_line : List Text → Text
  first_line [] = []
  first_line (l ∷ rest) = l

  unfoldable pub line_from_http_client : Text → Ctx → Outcome Ctx
  unfolding set_request first_line
  line_from_http_client line c =
      let request = c.sc.http.request ++ line ∷ [] in
      let string = first_line request in
      if same_text line (10 ∷ [])
      then request_words (env.split_string string) (set_request [] string c)
      else ok (set_request request c.sc.http.request_string c)
