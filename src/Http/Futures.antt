-- ===== src/Http/Futures.antt =====
-- src/mexc_http_futures_session.cpp: the requests of the futures session under its two ways of
-- authentication.
use mexc_cpp_api.Base.{ℕ, Bool, true, false, [], ◌++◌, Outcome, throw, is_empty, if◌then◌else◌}
use mexc_cpp_api.Base.Text.{Text, codes, to_string, substr}
use mexc_cpp_api.Base.Int.{pos}
use mexc_cpp_api.Base.Effects.{runtime_error}
use mexc_cpp_api.Base.StringMap.{StringMap}
use mexc_cpp_api.Http.{get, post, Request, Response, Crypto, Environment, set_header}
use mexc_cpp_api.Http.Query.{create_query_str}

pub data AuthSource : Type 0 where
  open_api web : AuthSource

abbrev pub api_uri_futures : Text
api_uri_futures = codes "contract.mexc.com"

abbrev pub api_uri_futures_web : Text
api_uri_futures_web = codes "futures.mexc.com"

-- `HTTPSession::P`, less what belongs to OpenSSL and Asio.
pub record FuturesSession : Type 0 where
  pub api_key : Text
  pub api_secret : Text
  pub web_token : Text
  pub auth_source : AuthSource
  pub uri : Text

-- The constructor with an API key.
abbrev pub key_session : Text → Text → FuturesSession
key_session api_key api_secret = record {
  api_key = api_key;
  api_secret = api_secret;
  web_token = [];
  auth_source = open_api;
  uri = api_uri_futures;
}

abbrev pub uri_of : AuthSource → Text
uri_of web = api_uri_futures_web
uri_of open_api = api_uri_futures

-- The constructor with a token of the web site.
abbrev pub token_session : Text → AuthSource → FuturesSession
token_session web_token source = record {
  api_key = [];
  api_secret = [];
  web_token = web_token;
  auth_source = source;
  uri = uri_of source;
}

module _ (crypto : Crypto) where
  open crypto use {hmac_sha256, md5, string_to_hex}

  unfoldable pub md5_hex : Text → Text
  md5_hex input = string_to_hex (md5 input)

  unfoldable pub authenticate_get : FuturesSession → ℕ → StringMap Text → Request → Request
  authenticate_get session ts parameters req =
      let parameter_string = create_query_str parameters in
      let str_to_sign = session.api_key ++ (to_string (pos ts) ++ parameter_string) in
      set_header "Signature" (string_to_hex (hmac_sha256 session.api_secret str_to_sign)) (
        set_header "Request-Time" (to_string (pos ts)) (
          set_header "Content-Type" (codes "application/json")
            (set_header "ApiKey" session.api_key req)))

  unfoldable pub authenticate_web_get : FuturesSession → Request → Request
  authenticate_web_get session req = set_header "Authorization" session.web_token req

  unfoldable pub authenticate_web_post : FuturesSession → ℕ → Text → Request → Request
  unfolding md5_hex
  authenticate_web_post session ts json_body req =
      let timestamp = to_string (pos ts) in
      let g = substr 7 (md5_hex (session.web_token ++ timestamp)) in
      let sign = md5_hex (timestamp ++ (json_body ++ g)) in
      set_header "x-mxc-sign" sign
        (set_header "x-mxc-nonce" timestamp (set_header "Authorization" session.web_token req))

unfoldable pub set_browser_headers : Request → Request
set_browser_headers req = set_header "dnt" (codes "1") (
    set_header "cache-control" (codes "no-cache") (
      set_header "accept-language" (codes "en-US,en;q=0.9") (
        set_header "accept" (codes "*/*") (
          set_header "referer" (codes "https://www.mexc.com/") (
            set_header "origin" (codes "https://www.mexc.com") (
              set_header "User-Agent"
                (codes
                  "Mozilla/5.0 (X11; Linux x86_64) AppleWebKit/537.36 (KHTML, like Gecko) Chrome/131.0.0.0 Safari/537.36")
                req))))))

-- The headers that `P::request` adds before it connects.
unfoldable pub dressed : Text → FuturesSession → Request → Request
unfolding set_browser_headers
dressed user_agent session req =
    let hosted = set_header "Host" session.uri req in
    elim session.auth_source [
      | web ↦ set_browser_headers hosted
      | open_api ↦ set_header "User-Agent" user_agent hosted
    ]

-- The target of a GET request.
abbrev pub target_of : Text → StringMap Text → Text
target_of path parameters =
    let query_string = create_query_str parameters in
    if is_empty query_string then path else path ++ (codes "?" ++ query_string)

abbrev pub get_request : Text → StringMap Text → Request
get_request path parameters = record {
  verb = get;
  target = target_of path parameters;
  headers = [];
  body = [];
}

-- `prepare_payload` sets the length of the body, which `Http.Request` does not keep.
abbrev pub post_request : Text → Text → Request
post_request path json_body =
    set_header "Content-Type" (codes "application/json")
      (record { verb = post; target = path; headers = []; body = json_body })

module _ (crypto : Crypto) (env : Environment) where
  open env use {World, current_time_ms, exchange, version_string}

  -- A private GET request; only the OpenAPI signature reads the clock.
  private_get :
      AuthSource → FuturesSession → Text → StringMap Text → World → Outcome Response × World
  private_get web session path parameters w =
      exchange session.uri
        (dressed version_string session
          (authenticate_web_get crypto session (get_request path parameters)))
        w
  private_get open_api session path parameters w =
      let (ts, w') = current_time_ms w in
      exchange session.uri
        (dressed version_string session
          (authenticate_get crypto session ts parameters (get_request path parameters)))
        w'

  unfoldable pub method_get :
      FuturesSession → Text → StringMap Text → Bool → World → Outcome Response × World
  unfolding private_get
  method_get session path parameters true w =
      exchange session.uri (dressed version_string session (get_request path parameters)) w
  method_get session path parameters false w =
      private_get session.auth_source session path parameters w

  private_post : AuthSource → FuturesSession → Text → Text → World → Outcome Response × World
  private_post web session path json_body w =
      let (ts, w') = current_time_ms w in
      exchange session.uri
        (dressed version_string session
          (authenticate_web_post crypto session ts json_body (post_request path json_body)))
        w'
  private_post open_api session path json_body w = (
    throw (runtime_error (codes "OpenAPI POST authentication not implemented for MEXC futures")),
    w,
  )

  unfoldable pub method_post : FuturesSession → Text → Text → World → Outcome Response × World
  unfolding private_post
  method_post session path json_body w = private_post session.auth_source session path json_body w
