-- ===== src/Http/Spot.antt =====
-- src/mexc_http_spot_session.cpp: the requests of the spot session and their signature. The parameters
-- of a call are changed by it, so an operation also gives the new ones.
use mexc_cpp_api.Base.{ℕ, Bool, true, false, [], ◌++◌, Outcome, is_empty, if◌then◌else◌}
use mexc_cpp_api.Base.Text.{Text, codes, to_string}
use mexc_cpp_api.Base.Int.{pos}
use mexc_cpp_api.Base.StringMap.{StringMap, insert_or_assign}
use mexc_cpp_api.Http.{
  Verb, get, post, put, delete, Request, Response, Crypto, Environment, set_header,
}
use mexc_cpp_api.Http.Query.{create_query_str}

abbrev pub api_uri_spot : Text
api_uri_spot = codes "api.mexc.com"

-- `HTTPSession::P`, less what belongs to OpenSSL and Asio.
pub record SpotSession : Type 0 where
  pub api_key : Text
  pub api_secret : Text
  pub uri : Text

-- The constructor.
abbrev pub spot_session : Text → Text → SpotSession
spot_session api_key api_secret = record {
  api_key = api_key;
  api_secret = api_secret;
  uri = api_uri_spot;
}

module _ (crypto : Crypto) where
  open crypto use {hmac_sha256, string_to_hex}

  -- `sign`, at the time `ts`.
  unfoldable pub sign : SpotSession → ℕ → StringMap Text → StringMap Text
  sign session ts parameters =
      let stamped = insert_or_assign (codes "timestamp") (to_string (pos ts)) parameters in
      insert_or_assign (codes "signature")
        (string_to_hex (hmac_sha256 session.api_secret (create_query_str stamped))) stamped

  -- `createRequest`: the request, and the parameters as they are after it.
  unfoldable pub create_request :
      SpotSession → ℕ → Verb → Text → StringMap Text → Bool → Request × StringMap Text
  unfolding sign
  create_request session ts method path parameters is_public =
      let signed = if is_public then parameters else sign session ts parameters in
      let query_string = create_query_str signed in
      let final_path =
        if is_empty query_string then path else path ++ (codes "?" ++ query_string) in
      let req : Request = record { verb = method; target = final_path; headers = []; body = [] } in
      (if is_public then req else set_header "X-MEXC-APIKEY" session.api_key req, signed)

abbrev is_post : Verb → Bool
is_post get = false
is_post post = true
is_post put = false
is_post delete = false

-- The headers that `P::request` adds before it connects.
unfoldable pub dressed : Text → SpotSession → Request → Request
dressed user_agent session req =
    let agent = set_header "User-Agent" user_agent (set_header "Host" session.uri req) in
    if is_post req.verb then set_header "Content-Type" (codes "application/json") agent else agent

module _ (crypto : Crypto) (env : Environment) where
  open env use {World, current_time_ms, exchange, version_string}

  -- `methodGet`, `methodPost`, `methodPut` and `methodDelete`. The clock is read by `sign` alone.
  unfoldable pub method :
      SpotSession → Verb → Text → StringMap Text → Bool → World → Outcome Response × World
  unfolding dressed
  method session verb path parameters true w =
      exchange session.uri
        (dressed version_string session
          (create_request crypto session 0 verb path parameters true).0)
        w
  method session verb path parameters false w =
      let (ts, w') = current_time_ms w in
      exchange session.uri
        (dressed version_string session
          (create_request crypto session ts verb path parameters false).0)
        w'
