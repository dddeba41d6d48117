-- ===== src/Http/Signing.antt =====
-- What a server can check of the requests of src/mexc_http_spot_session.cpp and
-- src/mexc_http_futures_session.cpp.
use mexc_cpp_api.Base.{
  ℕ, ◌≡◌, refl, sym, ap, ◌∙◌, ◌⊎◌, inl, inr, [], ◌∷◌, ◌++◌, Bool, true, false, Option, none, some,
  is_empty, ◌==◌, if◌then◌else◌, throw, Exception,
}
use mexc_cpp_api.Base.Effects.{runtime_error}
use mexc_cpp_api.Base.Int.{pos}
use mexc_cpp_api.Base.Text.{Text, codes, to_string, substr, text_eq, text_eq_refl}
use mexc_cpp_api.Base.StringMap.{
  StringMap, lookup, insert_or_assign, erase, lookup-insert_or_assign, erase-insert_or_assign,
  insert_or_assign-cons,
}
use mexc_cpp_api.Http.{Verb, Request, Crypto, Environment, header}
use mexc_cpp_api.Http.Query.{create_query_str}
use mexc_cpp_api.Http.Query.Laws.{joined, create_query_str-eq-joined, Without}
use mexc_cpp_api.Http.Spot.{SpotSession, sign, create_request}
use mexc_cpp_api.Http.Futures.{
  FuturesSession, AuthSource, web, open_api, authenticate_get, authenticate_web_post, dressed,
  get_request, post_request, target_of, method_get, method_post, md5_hex,
}

is_empty-query :
    (p : Text × Text) (ps : StringMap Text) → is_empty (create_query_str (p ∷ ps)) ≡ false
is_empty-query (k, v) ps = rw (create_query_str-eq-joined ((k, v) ∷ ps)) (nonempty k v ps)
  where
    nonempty : (k v : Text) (ps : StringMap Text) → is_empty (joined ((k, v) ∷ ps)) ≡ false
    nonempty [] v [] = refl
    nonempty (c ∷ k) v [] = refl
    nonempty [] v (q ∷ qs) = refl
    nonempty (c ∷ k) v (q ∷ qs) = refl

is_empty-query_cons :
    (m : StringMap Text)
    → (p : Text × Text) × (ps : StringMap Text) × (m ≡ p ∷ ps)
    → is_empty (create_query_str m) ≡ false
is_empty-query_cons m (p, ps, e) = rw e (is_empty-query p ps)

module _ (crypto : Crypto) where
  open crypto use {hmac_sha256, md5, string_to_hex}

  module _ (session : SpotSession) (ts : ℕ) (ps : StringMap Text) where
    stamped : StringMap Text
    stamped = insert_or_assign (codes "timestamp") (to_string (pos ts)) ps

    is_empty-sign : is_empty (create_query_str (sign crypto session ts ps)) ≡ false
    unfolding sign
    is_empty-sign = is_empty-query_cons _ (insert_or_assign-cons _ _ _)

    lookup-stamped :
        lookup (codes "signature") ps ≡ none → lookup (codes "signature") stamped ≡ none
    unfolding stamped text_eq
    lookup-stamped h =
        lookup-insert_or_assign (codes "timestamp") (codes "signature") (to_string (pos ts)) ps ∙ h

    lookup-signature :
        lookup (codes "signature") ps ≡ none
        → lookup (codes "signature") (sign crypto session ts ps)
          ≡ some (
              string_to_hex (
                hmac_sha256 session.api_secret
                  (create_query_str (erase (codes "signature") (sign crypto session ts ps)))))
    unfolding sign stamped text_eq
    lookup-signature h =
        lookup-insert_or_assign (codes "signature") (codes "signature") _ stamped
        ∙ ap (λ m. some (string_to_hex (hmac_sha256 session.api_secret (create_query_str m))))
            (sym (erase-insert_or_assign (codes "signature") _ stamped (lookup-stamped h)))

    lookup-timestamp :
        lookup (codes "timestamp") (sign crypto session ts ps) ≡ some (to_string (pos ts))
    unfolding sign stamped text_eq
    lookup-timestamp =
        lookup-insert_or_assign (codes "signature") (codes "timestamp") _ stamped
        ∙ lookup-insert_or_assign (codes "timestamp") (codes "timestamp") (to_string (pos ts)) ps

    lookup-caller :
        (name : Text)
        → text_eq (codes "timestamp") name ≡ false
        → text_eq (codes "signature") name ≡ false
        → lookup name (sign crypto session ts ps) ≡ lookup name ps
    unfolding sign stamped
    lookup-caller name no_stamp no_signature =
        lookup-insert_or_assign (codes "signature") name _ stamped
        ∙ rw no_signature (
            lookup-insert_or_assign (codes "timestamp") name (to_string (pos ts)) ps
            ∙ rw no_stamp refl)

  -- A private request of the spot session whose parameters hold no signature yet. Its query is the
  -- parameters with the time stamp and a signature: under any other name stands what the caller gave,
  -- if anything. The signature is that of the query without it, and the key stands in the header.
  pub spot_request_signed :
      (session : SpotSession) (ts : ℕ) (verb : Verb) (path : Text) (ps : StringMap Text)
      (name : Text)
      → lookup (codes "signature") ps ≡ none
      → text_eq (codes "timestamp") name ≡ false
      → text_eq (codes "signature") name ≡ false
      → let (req, signed) = create_request crypto session ts verb path ps false in
        (req.target ≡ path ++ (codes "?" ++ create_query_str signed))
        × (lookup (codes "signature") signed
            ≡ some (
                string_to_hex (
                  hmac_sha256 session.api_secret
                    (create_query_str (erase (codes "signature") signed)))))
        × (lookup (codes "timestamp") signed ≡ some (to_string (pos ts)))
        × (lookup name signed ≡ lookup name ps)
        × (header "X-MEXC-APIKEY" req ≡ some session.api_key)
  unfolding create_request
  spot_request_signed session ts verb path ps name h no_stamp no_signature = (
    rw (is_empty-sign session ts ps),
    lookup-signature session ts ps h,
    lookup-timestamp session ts ps,
    lookup-caller session ts ps name no_stamp no_signature,
    refl,
  )

  -- A public request of the spot session: the parameters stay as they are, none is added to the query,
  -- and the key is not in the headers.
  spot_request_public :
      (session : SpotSession) (ts : ℕ) (verb : Verb) (path : Text) (ps : StringMap Text)
      → let (req, after) = create_request crypto session ts verb path ps true in
        (after ≡ ps) × (req.target ≡ target_of path ps) × (header "X-MEXC-APIKEY" req ≡ none)
  unfolding create_request
  spot_request_public session ts verb path ps = (refl, refl, refl)

-- The part of a target behind the first `?`.
abbrev query_of : Text → Text
query_of [] = []
query_of (c ∷ t) = if c == b'?' then t else query_of t

query_of-append :
    (path query : Text) → Without b'?' path → query_of (path ++ (b'?' ∷ query)) ≡ query
query_of-append [] query w = refl
query_of-append (c ∷ path) query w = rw (w.0) (query_of-append path query w.1)

query_of-path : (path : Text) → Without b'?' path → query_of path ≡ []
query_of-path [] w = refl
query_of-path (c ∷ path) w = rw (w.0) (query_of-path path w.1)

query_of-target :
    (path : Text) (ps : StringMap Text)
    → Without b'?' path
    → query_of (target_of path ps) ≡ create_query_str ps
unfolding create_query_str
query_of-target path [] w = query_of-path path w ∙ sym (create_query_str-eq-joined [])
query_of-target path (p ∷ ps) w = rw (is_empty-query p ps) (query_of-append path _ w)

pub AuthSource-cases : (a : AuthSource) → (a ≡ web) ⊎ (a ≡ open_api)
AuthSource-cases web = inl refl
AuthSource-cases open_api = inr refl

module _ (crypto : Crypto) where
  open crypto use {hmac_sha256, string_to_hex}

  abbrev matches : Option Text → Option Text → Option Text → (Text → Text → Text) → Bool
  matches (some a) (some b) (some c) expected = text_eq c (expected a b)
  matches _ _ _ expected = false

  -- A server that knows the secret of an API key checks the signature against the headers and the
  -- query that it receives.
  abbrev pub accepts_key : Text → Request → Bool
  accepts_key secret req =
      matches (header "ApiKey" req) (header "Request-Time" req) (header "Signature" req)
        λ key time. string_to_hex (hmac_sha256 secret (key ++ (time ++ query_of req.target)))

  -- A server of the web site checks the digest against the headers and the body.
  abbrev pub accepts_token : Request → Bool
  accepts_token req =
      matches (header "Authorization" req) (header "x-mxc-nonce" req) (header "x-mxc-sign" req)
        λ token nonce.
          md5_hex crypto (nonce ++ (req.body ++ substr 7 (md5_hex crypto (token ++ nonce))))

  module _ (env : Environment) (session : FuturesSession) (path : Text) (w : env.World) where
    open env use {World, exchange, current_time_ms, version_string}

    -- A private GET request under an API key reaches the network as a request whose signature the
    -- server accepts, if the path holds no `?`.
    pub method_get_accepted :
        (ps : StringMap Text)
        → session.auth_source ≡ open_api
        → Without b'?' path
        → (req : Request) × (method_get crypto env session path ps false w
            ≡ exchange session.uri req (current_time_ms w).1)
          × (accepts_key session.api_secret req ≡ true)
    unfolding method_get dressed authenticate_get
    method_get_accepted ps e plain = (
      dressed version_string session
          (authenticate_get crypto session (current_time_ms w).0 ps (get_request path ps)),
      rw e,
      rw (e, query_of-target path ps plain) (text_eq_refl _),
    )

    -- A POST request either goes out from a session of the web site, with the given body and a digest
    -- that the server accepts, or the session has an API key: then the call throws, and nothing is
    -- sent.
    pub method_post_cases :
        (json_body : Text)
        → ((session.auth_source ≡ web)
            × (req : Request) × (method_post crypto env session path json_body w
                ≡ exchange session.uri req (current_time_ms w).1)
            × (req.body ≡ json_body)
            × (header "Authorization" req ≡ some session.web_token)
            × (accepts_token req ≡ true))
          ⊎ ((session.auth_source ≡ open_api)
              × (e : Exception) × (method_post crypto env session path json_body w ≡ (throw e, w)))
    unfolding method_post dressed authenticate_web_post
    method_post_cases json_body = elim (AuthSource-cases session.auth_source) [
      | inl e ↦ inl (
        e,
        dressed version_string session (
            authenticate_web_post crypto session (current_time_ms w).0 json_body
              (post_request path json_body)),
        rw e,
        rw e,
        rw e,
        rw e (text_eq_refl _),
      )
      | inr e ↦ inr (
        e,
        runtime_error (codes "OpenAPI POST authentication not implemented for MEXC futures"),
        rw e,
      )
    ]

    -- A public GET request holds none of the headers that tell who sends it.
    method_get_anonymous :
        (ps : StringMap Text)
        → (req : Request) × (method_get crypto env session path ps true w
            ≡ exchange session.uri req w)
          × (header "ApiKey" req ≡ none)
          × (header "Signature" req ≡ none)
          × (header "Authorization" req ≡ none)
    unfolding method_get dressed
    method_get_anonymous ps = elim (AuthSource-cases session.auth_source) [
      | inl e ↦ (dressed version_string session (get_request path ps), refl, rw e, rw e, rw e)
      | inr e ↦ (dressed version_string session (get_request path ps), refl, rw e, rw e, rw e)
    ]
