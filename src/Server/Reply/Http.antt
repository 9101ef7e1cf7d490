-- ===== src/Server/Reply/Http.antt =====
-- What an HTTP client gets for the status line of its command.
use graphserv.Prelude.{
  ℕ, ◌≡◌, refl, sym, ap, ◌∙◌, inl, inr, ◌==◌, ltb, if◌then◌else◌, Bool, true, false, Bool-cases,
  Text, text, String, List, [], ◌∷◌, ◌++◌, take, is_empty, append_assoc, append-nil,
}
use graphserv.External.{Env}
use graphserv.Writer.Stream.{stream, write-stream}
use graphserv.Writer
use graphserv.Status.{get_status_code, cmd_access_denied}
use graphserv.Server.{Ctx, next_id}
use graphserv.Server.Reply.{
  store, crlf, trim_end, lacks_newline, write, writef, http_write_field, http_write_response_header,
  http_write_error_body, http_write_error_response, http_status_response, finish_conversation,
  http_first_status, http_forward_statusline,
}

-- The bytes for the client, in order.
abbrev pub sent : Ctx → Text
sent c = stream c.sc.writer

-- The step writes the text.
abbrev pub Appends : Text → Ctx → Ctx → Type 0
Appends s c c' = sent c' ≡ sent c ++ s

Appends-trans : (s t : Text) (a b c : Ctx) → Appends s a b → Appends t b c → Appends (s ++ t) a c
Appends-trans s t a b c p q = q ∙ ap (λ x. x ++ t) p ∙ append_assoc (sent a) s t

-- The status and its title, and whether the line is reported as an error.
pub record Response : Type 0 where
  pub code : ℕ
  pub title : String
  pub is_error : Bool

module _ (env : Env) where
  -- a formatted line of the header
  abbrev pub header_line : Text → Text
  header_line s = take 2047 s

  abbrev pub field_text : Text → Text
  field_text field = if is_empty field then [] else trim_end field ++ crlf

  abbrev pub header_text : ℕ → String → Text → Text
  header_text code title field =
      header_line (text "HTTP/1.0 " ++ env.decimal code ++ text " " ++ text title ++ crlf)
      ++ (header_line (text "Content-Type: text/plain" ++ crlf)
          ++ (field_text field ++ header_line crlf))

  abbrev pub body_text : Text → Text
  body_text s = s ++ (if lacks_newline s then 10 ∷ [] else [])

  -- the table from the codes of status lines to responses
  unfoldable pub response_of : ℕ → Response
  response_of code =
      if code == env.cmd_success
      then record { code = 200; title = "OK"; is_error = false }
      else if code == env.cmd_failure
      then record { code = 400; title = "Bad Request"; is_error = true }
      else if code == env.cmd_error
      then record { code = 500; title = "Internal Server Error"; is_error = true }
      else if code == env.cmd_none
      then record { code = 404; title = "Not Found"; is_error = true }
      else if code == cmd_access_denied env
      then record { code = 401; title = "Not Authorized"; is_error = true }
      else if code == env.cmd_value
      then record { code = 222; title = "Value"; is_error = false }
      else record { code = 500; title = "Invalid GraphCore Status Line"; is_error = true }

  -- one response: the header with the status line in it, an empty line, and the status line
  abbrev pub response_text : Response → Text → Text
  response_text r line =
      header_text r.code r.title (text "X-GraphProcessor: " ++ line)
      ++ (if r.is_error then body_text line else line)

  pub write-Appends : (s : Text) (c : Ctx) → Appends s c (write env s c)
  unfolding write store
  write-Appends s c = write-stream env s c.sc.writer

  writef-Appends : (s : Text) (c : Ctx) → Appends (header_line s) c (writef env s c)
  unfolding writef store Writer.writef
  writef-Appends s c = write-stream env (take 2047 s) c.sc.writer

  field-Appends :
      (field : Text) (c : Ctx) → Appends (field_text field) c (http_write_field env field c)
  unfolding http_write_field
  field-Appends field c = elim (Bool-cases (is_empty field)) [
    | inl e ↦ rw e (sym (append-nil (sent c)))
    | inr e ↦ rw e (
        let c₁ = write env (trim_end field) c in
        Appends-trans (trim_end field) crlf c c₁ (write env crlf c₁)
          (write-Appends (trim_end field) c) (write-Appends crlf c₁))
  ]

  header-Appends :
      (code : ℕ) (title : String) (field : Text) (c : Ctx)
      → Appends (header_text code title field) c (http_write_response_header env code title field c)
  unfolding http_write_response_header
  header-Appends code title field c =
      let first = text "HTTP/1.0 " ++ env.decimal code ++ text " " ++ text title ++ crlf in
      let second = text "Content-Type: text/plain" ++ crlf in
      let c₁ = writef env first c in
      let c₂ = writef env second c₁ in
      let c₃ = http_write_field env field c₂ in
      let c₄ = writef env crlf c₃ in
      Appends-trans (header_line first)
        (header_line second ++ (field_text field ++ header_line crlf)) c c₁ c₄
        (writef-Appends first c)
        (Appends-trans (header_line second) (field_text field ++ header_line crlf) c₁ c₂ c₄
          (writef-Appends second c₁)
          (Appends-trans (field_text field) (header_line crlf) c₂ c₃ c₄ (field-Appends field c₂)
            (writef-Appends crlf c₃)))

  body-Appends : (s : Text) (c : Ctx) → Appends (body_text s) c (http_write_error_body env s c)
  unfolding http_write_error_body
  body-Appends s c = elim (Bool-cases (lacks_newline s)) [
    | inl e ↦ rw e (
        Appends-trans s (10 ∷ []) c (write env s c) (write env (10 ∷ []) (write env s c))
          (write-Appends s c) (write-Appends (10 ∷ []) (write env s c)))
    | inr e ↦ rw e (write-Appends s c ∙ ap (◌++◌ (sent c)) (sym (append-nil s)))
  ]

  -- a response that reports an error, and one that does not
  error-Appends :
      (code : ℕ) (title : String) (line : Text) (c : Ctx)
      → Appends
          (response_text (record { code = code; title = title; is_error = true }) line)
          c
          (http_write_error_response env code title line (text "X-GraphProcessor: " ++ line) c)
  unfolding http_write_error_response
  error-Appends code title line c =
      let field = text "X-GraphProcessor: " ++ line in
      let c₁ = http_write_response_header env code title field c in
      Appends-trans (header_text code title field) (body_text line) c c₁
        (http_write_error_body env line c₁) (header-Appends code title field c)
        (body-Appends line c₁)

  answer-Appends :
      (code : ℕ) (title : String) (line : Text) (c : Ctx)
      → Appends (response_text (record { code = code; title = title; is_error = false }) line) c (
          write env line
            (http_write_response_header env code title (text "X-GraphProcessor: " ++ line) c))
  answer-Appends code title line c =
      let field = text "X-GraphProcessor: " ++ line in
      let c₁ = http_write_response_header env code title field c in
      Appends-trans (header_text code title field) line c c₁ (write env line c₁)
        (header-Appends code title field c) (write-Appends line c₁)

  if-Appends :
      (b : Bool) (r r' : Response) (x y c : Ctx) (line : Text)
      → Appends (response_text r line) c x
      → Appends (response_text r' line) c y
      → Appends (response_text (if b then r else r') line) c (if b then x else y)
  if-Appends true r r' x y c line p q = p
  if-Appends false r r' x y c line p q = q

  status-Appends :
      (code : ℕ) (line : Text) (c : Ctx)
      → Appends (response_text (response_of code) line) c (http_status_response env code line c)
  unfolding http_status_response response_of
  status-Appends code line c =
      if-Appends (code == env.cmd_success) _ _ _ _ c line (answer-Appends 200 "OK" line c) (
        if-Appends (code == env.cmd_failure) _ _ _ _ c line (error-Appends 400 "Bad Request" line c)
          (if-Appends (code == env.cmd_error) _ _ _ _ c line
            (error-Appends 500 "Internal Server Error" line c)
            (if-Appends (code == env.cmd_none) _ _ _ _ c line (error-Appends 404 "Not Found" line c)
              (if-Appends (code == cmd_access_denied env) _ _ _ _ c line
                (error-Appends 401 "Not Authorized" line c)
                (if-Appends (code == env.cmd_value) _ _ _ _ c line
                  (answer-Appends 222 "Value" line c)
                  (error-Appends 500 "Invalid GraphCore Status Line" line c))))))

  -- The first status line of an HTTP client is answered by exactly one response: the status that
  -- belongs to the code of its first word, each line of the header cut to 2047 bytes, the status line
  -- as a field of the header, and the status line as the body, which ends in a newline if it reports
  -- an error. If the line indicates no data set the conversation is finished.
  pub http_forward_statusline-sent :
      (line word : Text) (rest : List Text) (c : Ctx)
      → c.sc.http.commands_executed ≡ 0
      → env.split_string line ≡ word ∷ rest
      → (sent (http_forward_statusline env line c)
          ≡ sent c ++ response_text (response_of (get_status_code env word)) line)
        × (env.line_indicates_dataset line ≡ false
            → (http_forward_statusline env line c).sc.conversation_finished ≡ true)
  unfolding http_forward_statusline http_first_status finish_conversation
  http_forward_statusline-sent line word rest c none_yet words =
      rw (http_forward_statusline, first, words, http_first_status)
        (elim (Bool-cases (env.line_indicates_dataset line)) [
          | inl d ↦ rw d (status-Appends (get_status_code env word) line counted, λ n. cc)
          | inr d ↦ rw d (status-Appends (get_status_code env word) line counted, λ n. refl)
        ])
    where
      first : ltb 1 (next_id c.sc.http.commands_executed) ≡ false
      first = unfold next_id in rw none_yet refl

      counted : Ctx
      counted = record c {
        sc = record c.sc {
          http = record c.sc.http { commands_executed = next_id c.sc.http.commands_executed };
        };
      }
