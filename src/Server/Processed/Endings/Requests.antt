-- ===== src/Server/Processed/Endings/Requests.antt =====
-- The lines of an HTTP request, in lineFromHTTPClient of src/servapp.h.
use graphserv.Outcome.{Ends, Ends-map, found-Ends, if-Ends}
use graphserv.Prelude.{
  ℕ, suc, ◌≡◌, inl, inr, refl, false, Bool-cases, Text, codes, List, [], ◌∷◌, ◌++◌, map, some,
  is_empty, length, drop, same_text, same_text-eq,
}
use graphserv.Prelude.Chars.{to_upper}
use graphserv.External.{Env}
use graphserv.Core.{CoreInstance}
use graphserv.Server.{Ctx, find_named_instance}
use graphserv.Server.Http.{
  set_core, set_request, reject, core_request, plain_request, request_uri, is_known_version,
  request_words, first_line, line_from_http_client,
}
use graphserv.Server.Http.Uri.{decode_uri}
use graphserv.Server.Processed.Endings.Lines.{CommandTrouble, command_of, line_from_client-Ends}

module _ (env : Env) where
  -- the session, connected to the instance with the ID
  abbrev pub connected_to : ℕ → Ctx → Ctx
  connected_to id c = record c { sc = record c.sc { core_id = id } }

  -- The command of a decoded URI has trouble: the URI itself, or what stands behind the name of an
  -- instance that runs.
  pub data UriTrouble (uri : Text) (c : Ctx) : Type 0 where
    whole_uri : CommandTrouble env (command_of env uri c) c → UriTrouble uri c
    named_core :
        (name : Text) (core : CoreInstance)
        → find_named_instance env name c.app ≡ some core
        → CommandTrouble env
            (command_of env (drop (suc (length name)) uri) c)
            (connected_to core.instance_id c)
        → UriTrouble uri c

  -- The request is complete, and the command of its URI has trouble.
  pub data RequestTrouble (line : Text) (c : Ctx) : Type 0 where
    request_trouble :
        (method uri version decoded : Text)
        → line ≡ 10 ∷ []
        → env.split_string (first_line env (c.sc.http.request ++ line ∷ []))
          ≡ method ∷ uri ∷ version ∷ []
        → decode_uri env uri ≡ some decoded
        → UriTrouble decoded c
        → RequestTrouble line c

  core_request-Ends :
      (name uri : Text) (c : Ctx)
      → Ends (UriTrouble uri c) (core_request env name (drop (suc (length name)) uri) c)
  unfolding core_request reject set_core
  core_request-Ends name uri c =
      let command = drop (suc (length name)) uri in
      found-Ends (find_named_instance env name c.app) _ _ (inl (_, refl)) (λ core f.
        if-Ends (env.line_indicates_dataset command) _ _ (inl (_, refl)) (
          Ends-map (λ t. UriTrouble.named_core name core f t)
            (line_from_client-Ends env false command (connected_to core.instance_id c))))

  plain_request-Ends : (uri : Text) (c : Ctx) → Ends (UriTrouble uri c) (plain_request env uri c)
  unfolding plain_request reject
  plain_request-Ends uri c = if-Ends (is_empty (env.split_string uri)) _ _ (inl (_, refl)) (
      if-Ends (env.line_indicates_dataset uri) _ _ (inl (_, refl))
        (Ends-map (λ t. UriTrouble.whole_uri t) (line_from_client-Ends env false uri c)))

  request_uri-Ends : (uri : Text) (c : Ctx) → Ends (UriTrouble uri c) (request_uri env uri c)
  unfolding request_uri
  request_uri-Ends uri c = by_parts (env.split_string_by uri (codes "/"))
    where
      by_parts :
          (parts : List Text)
          → Ends (UriTrouble uri c) (elim parts [
            | core_name ∷ (word ∷ rest) ↦
                core_request env core_name (drop (suc (length core_name)) uri) c
            | _ ↦ plain_request env uri c
          ])
      by_parts [] = plain_request-Ends uri c
      by_parts (x ∷ []) = plain_request-Ends uri c
      by_parts (x ∷ y ∷ rest) = core_request-Ends x uri c

  -- the words of a request line are method, URI and version, and the command of the URI has trouble
  abbrev WordsTrouble : List Text → Ctx → Type 0
  WordsTrouble words c =
      (method : Text) × (uri : Text) × (version : Text) × (decoded : Text) × (words
        ≡ method ∷ uri ∷ version ∷ [])
      × (decode_uri env uri ≡ some decoded)
      × UriTrouble decoded c

  request_words-Ends :
      (words : List Text) (c : Ctx) → Ends (WordsTrouble words c) (request_words env words c)
  unfolding request_words reject
  request_words-Ends [] c = inl (_, refl)
  request_words-Ends (m ∷ []) c = inl (_, refl)
  request_words-Ends (m ∷ u ∷ []) c = inl (_, refl)
  request_words-Ends (m ∷ u ∷ v ∷ []) c =
      if-Ends (is_known_version env (map to_upper v)) _ _
        (found-Ends (decode_uri env u) _ _ (inl (_, refl)) (λ decoded f.
          Ends-map (λ t. (m, u, v, decoded, refl, f, t)) (request_uri-Ends decoded c)))
        (inl (_, refl))
  request_words-Ends (m ∷ u ∷ v ∷ x ∷ rest) c = inl (_, refl)

  -- the fields of the request do not matter
  set_request-UriTrouble :
      (request : List Text) (string uri : Text) (c : Ctx)
      → UriTrouble uri (set_request request string c)
      → UriTrouble uri c
  unfolding set_request
  set_request-UriTrouble request string uri c (UriTrouble.whole_uri t) = UriTrouble.whole_uri t
  set_request-UriTrouble request string uri c (UriTrouble.named_core name core f t) =
      UriTrouble.named_core name core f t

  pub request-Ends :
      (line : Text) (c : Ctx) → Ends (RequestTrouble line c) (line_from_http_client env line c)
  unfolding line_from_http_client
  request-Ends line c =
      let string = first_line env (c.sc.http.request ++ line ∷ []) in
      elim (Bool-cases (same_text line (10 ∷ []))) [
        | inr e ↦ rw (line_from_http_client, e) (inl (_, refl))
        | inl e ↦
            rw (line_from_http_client, e)
              (Ends-map
                (λ t.
                  let (m, u, v, decoded, words, d, trouble) = t in
                  RequestTrouble.request_trouble m u v decoded (same_text-eq line (10 ∷ []) e) words
                    d (set_request-UriTrouble [] string decoded c trouble))
                (request_words-Ends (env.split_string string) (set_request [] string c)))
      ]
