-- ===== src/Tests/Requests.antt =====
-- HTTP requests and replies at concrete inputs.
use graphserv.Server.Http.Uri.{decode_uri}
use graphserv.Server.Http.Uri.Encode.{encode, decode_uri-encode}
use graphserv.Prelude.{
  All, ◌==◌, ℕ, ◌≡◌, ◌≢◌, ◌≤◌, ◌⊎◌, inl, inr, refl, Bool, true, false, Text, codes, List, [], ◌∷◌,
  ◌++◌, Option, none, some, same_text, is_empty,
}
use graphserv.Prelude.Assoc.{lookup}
use graphserv.Outcome.{ok}
use graphserv.Core.{CoreInstance}
use graphserv.Core
use graphserv.Core.Entry.{CommandQEntry, new_entry}
use graphserv.Session.{SessionContext, conn_tcp, conn_http}
use graphserv.Session
use graphserv.Server.{Ctx, Graphserv, find_instance, is_waiting_for_core_reply}
use graphserv.Server.Reply.{lacks_newline}
use graphserv.Status.{get_status_code}
use graphserv.Server.Reply.{http_forward_statusline}
use graphserv.Server.Reply.Http.{sent, response_of, response_text, http_forward_statusline-sent}
use graphserv.Server.Forwarding.{forward_to_core, submit, core_separators}
use graphserv.Server.Dispatch.{line_from_client, replay_lines}
use graphserv.Server.Http.{line_from_http_client}
use graphserv.Server.Processed.Requests.{line_from_http_client-Handled}
use graphserv.Server.Processed.Lines.{Handled}
use graphserv.Tests.Fixture.{sample_env}
use graphserv.Tests.Sessions.{newline, connected_client, returned}

-- the request "a/b %", of whose characters none is a plus sign
abbrev request : Text
request = codes "a/b %"

request-free : All (λ c. (c == b'+') ≡ false) request
request-free = (refl, (refl, (refl, (refl, (refl, tt)))))

decode_uri-encode_example : decode_uri sample_env (b'/' ∷ encode request) ≡ some request
decode_uri-encode_example = decode_uri-encode sample_env request request-free

-- an HTTP client whose request ends
abbrev http_client : Ctx
http_client = record connected_client {
  sc = record (Session.create conn_http 4 9 30) {
    http = record {
      request = (codes "GET /protocol-version HTTP/1.0" ++ newline) ∷ [];
      request_string = [];
      commands_executed = 0;
    };
  };
}

abbrev after_request : Ctx
after_request = returned http_client (line_from_http_client sample_env newline http_client)

request-returns : line_from_http_client sample_env newline http_client ≡ ok after_request
unfolding line_from_http_client same_text graphserv.Server.Http.request_words
    graphserv.Prelude.contains graphserv.Prelude.Chars.to_upper decode_uri
    graphserv.Server.Http.request_uri line_from_client Session.create is_waiting_for_core_reply
    find_instance graphserv.Prelude.Assoc.find graphserv.Core.Entry.flushable new_entry
    lacks_newline graphserv.Server.Dispatch.process_command graphserv.Server.Commands.find_command
    graphserv.Server.Commands.command_name graphserv.Server.Dispatch.server_command
    graphserv.Server.Forwarding.has_redirection graphserv.Server.Commands.Execute.execute
    graphserv.Server.Commands.command_level graphserv.Server.Commands.returns_void
    graphserv.Server.Commands.Execute.exec
request-returns = refl

line_from_http_client-Handled_example : Handled sample_env http_client after_request
line_from_http_client-Handled_example =
    line_from_http_client-Handled sample_env newline http_client after_request request-returns

abbrev status_line : Text
status_line = codes "NONE. nothing" ++ newline

status-words : sample_env.split_string status_line ≡ codes "NONE." ∷ codes "nothing" ∷ []
unfolding graphserv.Prelude.contains
status-words = refl

http_forward_statusline-sent_example :
    (sent (http_forward_statusline sample_env status_line http_client)
      ≡ sent http_client
        ++ response_text sample_env
            (response_of sample_env (get_status_code sample_env (codes "NONE.")))
            status_line)
    × (sample_env.line_indicates_dataset status_line ≡ false
        → (http_forward_statusline sample_env status_line http_client).sc.conversation_finished
          ≡ true)
http_forward_statusline-sent_example =
    http_forward_statusline-sent sample_env status_line (codes "NONE.") (codes "nothing" ∷ [])
      http_client refl status-words
