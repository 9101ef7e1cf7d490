-- ===== src/Server/Processed/Requests.antt =====
-- What a line from an HTTP client can change.
use graphserv.Prelude.{
  suc, ◌≡◌, inl, inr, refl, ◌∙◌, false, Bool-cases, Text, codes, List, [], ◌∷◌, ◌++◌, map, is_empty,
  length, drop, same_text,
}
use graphserv.Prelude.Chars.{to_upper}
use graphserv.External.{Env}
use graphserv.Outcome.{Post, Post-ok, Outcome, ok, fails, exits, undefined}
use graphserv.Session.{SessionContext}
use graphserv.Server.{Ctx, find_named_instance}
use graphserv.Server.Reply.Output.{OnlyOutput, forward_statusline-OnlyOutput}
use graphserv.Server.Dispatch.{line_from_client}
use graphserv.Server.Http.{
  set_core, set_request, reject, core_request, plain_request, request_uri, is_known_version,
  request_words, first_line, line_from_http_client,
}
use graphserv.Server.Http.Uri.{decode_uri}
use graphserv.Server.Instances.{Evolves}
use graphserv.Server.Processed.{OnlyOutput-Processed}
use graphserv.Server.Processed.Lines.{Handled, Processed-Handled, line-Handled}
use graphserv.Server.Processed.Help.{found-Post}

module _ (env : Env) where
  Output-Handled : {c c' : Ctx} → OnlyOutput c c' → Handled env c c'
  Output-Handled o = Processed-Handled env (OnlyOutput-Processed env o)

  -- what the reference to the session has changed before does not matter
  behind_session :
      (c : Ctx) (sc : SessionContext) (r : Outcome Ctx)
      → sc.client_id ≡ c.sc.client_id
      → sc.connection_type ≡ c.sc.connection_type
      → sc.access_level ≡ c.sc.access_level
      → Post (Handled env (record c { sc = sc })) r
      → Post (Handled env c) r
  behind_session c sc (ok x) i t l p = record {
    same_sessions = p.same_sessions;
    same_client = p.same_client ∙ i;
    same_type = p.same_type ∙ t;
    level = elim p.level [ inl e ↦ inl (e ∙ l) | inr g ↦ inr g ];
    cores = rw (← l) p.cores;
    auth = p.auth;
    same_now = p.same_now;
  }
  behind_session c sc fails i t l p = tt
  behind_session c sc exits i t l p = tt
  behind_session c sc undefined i t l p = tt

  reject-Handled : (message : Text) (c : Ctx) → Post (Handled env c) (reject env message c)
  unfolding reject
  reject-Handled message c = Output-Handled (forward_statusline-OnlyOutput env _ c)

  core_request-Handled :
      (name command : Text) (c : Ctx) → Post (Handled env c) (core_request env name command c)
  unfolding core_request set_core
  core_request-Handled name command c =
      found-Post env (find_named_instance env name c.app) (Handled env c) _ _ (reject-Handled _ c)
        (λ core f. elim (Bool-cases (env.line_indicates_dataset command)) [
          | inl e ↦ rw e (reject-Handled _ c)
          | inr e ↦
              let sc = record c.sc { core_id = core.instance_id } in
              rw e (
                behind_session c sc (line_from_client env false command (record c { sc = sc })) refl
                  refl refl (line-Handled env false command (record c { sc = sc })))
        ])

  plain_request-Handled : (uri : Text) (c : Ctx) → Post (Handled env c) (plain_request env uri c)
  unfolding plain_request
  plain_request-Handled uri c = elim (Bool-cases (is_empty (env.split_string uri))) [
    | inl e ↦ rw e (Output-Handled (forward_statusline-OnlyOutput env _ c))
    | inr e ↦ elim (Bool-cases (env.line_indicates_dataset uri)) [
      | inl d ↦ rw (e, d) (reject-Handled _ c)
      | inr d ↦ rw (e, d) (line-Handled env false uri c)
    ]
  ]

  request_uri-Handled : (uri : Text) (c : Ctx) → Post (Handled env c) (request_uri env uri c)
  unfolding request_uri
  request_uri-Handled uri c = by_parts (env.split_string_by uri (codes "/"))
    where
      by_parts :
          (parts : List Text)
          → Post (Handled env c) (elim parts [
            | core_name ∷ (word ∷ rest) ↦
                core_request env core_name (drop (suc (length core_name)) uri) c
            | _ ↦ plain_request env uri c
          ])
      by_parts [] = plain_request-Handled uri c
      by_parts (x ∷ []) = plain_request-Handled uri c
      by_parts (x ∷ y ∷ rest) = core_request-Handled x _ c

  request_words-Handled :
      (words : List Text) (c : Ctx) → Post (Handled env c) (request_words env words c)
  unfolding request_words
  request_words-Handled [] c = reject-Handled _ c
  request_words-Handled (m ∷ []) c = reject-Handled _ c
  request_words-Handled (m ∷ u ∷ []) c = reject-Handled _ c
  request_words-Handled (m ∷ u ∷ v ∷ []) c =
      elim (Bool-cases (is_known_version env (map to_upper v))) [
        | inr e ↦ rw e (reject-Handled _ c)
        | inl e ↦ rw e (
            found-Post env (decode_uri env u) (Handled env c) _ _ (reject-Handled _ c)
              (λ decoded f. request_uri-Handled decoded c))
      ]
  request_words-Handled (m ∷ u ∷ v ∷ x ∷ rest) c = reject-Handled _ c

  pub request-Handled :
      (line : Text) (c : Ctx) → Post (Handled env c) (line_from_http_client env line c)
  unfolding line_from_http_client set_request
  request-Handled line c =
      let request = c.sc.http.request ++ line ∷ [] in
      let string = first_line env request in
      elim (Bool-cases (same_text line (10 ∷ []))) [
        | inl e ↦
            let sc = record c.sc {
              http = record c.sc.http { request = []; request_string = string };
            } in
            rw e (
              behind_session c sc
                (request_words env (env.split_string string) (record c { sc = sc })) refl refl refl
                (request_words-Handled _ (record c { sc = sc })))
        | inr e ↦ rw e (record {
          same_sessions = refl;
          same_client = refl;
          same_type = refl;
          level = inl refl;
          cores = Evolves.keep refl;
          auth = inl refl;
          same_now = refl;
        })
      ]

  -- As for `line_from_client`: if the handling of a line of an HTTP request returns, no other session
  -- has changed, the client's access level is unchanged or was granted for credentials, the
  -- queues of the instances have only got commands behind those that they had and lost the first ones,
  -- which are sent whole and in order, and only an administrator has stopped an instance or started
  -- one, under a name that no running instance has.
  pub line_from_http_client-Handled :
      (line : Text) (c c' : Ctx) → line_from_http_client env line c ≡ ok c' → Handled env c c'
  line_from_http_client-Handled line c c' e =
      Post-ok (Handled env c) (line_from_http_client env line c) (request-Handled line c) e
