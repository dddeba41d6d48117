-- ===== src/SpotClient.antt =====
-- `RESTClient` of src/mexc_spot_rest_client.cpp.
pub mod Answers
mod Tests
use mexc_cpp_api.Base.{
  ℕ, Bool, true, false, List, [], ◌∷◌, ◌++◌, Option, Outcome, ok, throw, Mutate, ◌>>=◌, finish,
  each, local, ltb, if◌then◌else◌,
}
use mexc_cpp_api.Base.Effects.{api_error}
use mexc_cpp_api.Base.Int.{ℤ, pos, ltb_ℤ, eqb_ℤ}
use mexc_cpp_api.Base.Text.{Text, codes, to_string}
use mexc_cpp_api.Base.StringMap.{StringMap, insert_or_assign}
use mexc_cpp_api.Enums.{
  CandleInterval, candle_interval_to_spot_string, number_of_ms_for_candle_interval,
}
use mexc_cpp_api.External.{Library}
use mexc_cpp_api.Http.{Verb, get, post, put, delete, Response, Crypto, Environment}
use mexc_cpp_api.Http.Spot.{SpotSession, spot_session, method}
use mexc_cpp_api.RateLimiter.{RateLimiter, wait}
use mexc_cpp_api.Models
use mexc_cpp_api.FuturesClient.{check_response}
use mexc_cpp_api.SpotPrices

module _ (library : Library) where
  open library use {Json, parse, is_object, is_array, elements}

  -- `handleMEXCResponse<V>`, with the part of `V` that it inherits from `Response`.
  unfoldable pub handle_mexc_response :
      {V : Type 0}
      → V
      → (Json → Mutate V)
      → (V → Models.Spot.Response library)
      → Response
      → Outcome V
  handle_mexc_response fresh from_json base response = parse response.body >>= λ json.
      finish (from_json json fresh) >>= λ ret_val.
      if eqb_ℤ (base ret_val).code (pos 0)
      then ok ret_val
      else throw (api_error (base ret_val).code (base ret_val).msg)

  candle_item : Json → Mutate (List (Models.Spot.Candle library))
  candle_item el =
      local (Models.Spot.fresh_candle library) (Models.Spot.candle_from_json library el)
        (λ candle ret_val. ret_val ++ (candle ∷ []))

  -- The loop over the elements of the answer.
  unfoldable pub read_candles : Json → Outcome (List (Models.Spot.Candle library))
  unfolding candle_item
  read_candles response_json = finish (each candle_item (elements response_json) [])

  ticker_item : Json → Mutate (List (Models.Spot.TickerPrice library))
  ticker_item el =
      local (Models.Spot.fresh_ticker_price library) (Models.Spot.ticker_price_from_json library el)
        (λ ticker ret_val. ret_val ++ (ticker ∷ []))

  -- One ticker, a list of them, or anything else, which is none.
  unfoldable pub read_ticker_prices : Json → Outcome (List (Models.Spot.TickerPrice library))
  unfolding ticker_item
  read_ticker_prices response_json =
      if is_object response_json
      then finish (ticker_item response_json [])
      else if is_array response_json
      then finish (each ticker_item (elements response_json) [])
      else ok []

module _ (library : Library) (crypto : Crypto) (env : Environment) where
  open library use {Json, parse}
  open env use {World, current_time_ms, sleep_for_ms}

  -- The client, and the world in which it runs.
  pub record Client : Type 0 where
    pub http_session : SpotSession
    pub rate_limiter : RateLimiter
    pub world : World

  -- The constructor and `setCredentials`.
  abbrev pub new_client : Text → Text → World → Client
  new_client api_key api_secret w = record {
    http_session = spot_session api_key api_secret;
    rate_limiter = record { request_times = [] };
    world = w;
  }

  unfoldable pub set_credentials : Text → Text → Client → Client
  set_credentials api_key api_secret c = record c { http_session = spot_session api_key api_secret }

  -- `rateLimiter.wait()`.
  unfoldable pub rate_limited : Client → Client
  rate_limited c =
      let (now, w) = current_time_ms c.world in
      let (limiter, pause) = wait now c.rate_limiter in
      record c { rate_limiter = limiter; world = if ltb 0 pause then sleep_for_ms pause w else w }

  -- The wait, the request, the check of its status and the reading of its body.
  unfoldable pub call :
      {V : Type 0}
      → Verb
      → Text
      → StringMap Text
      → Bool
      → (Response → Outcome V)
      → Client
      → Outcome V × Client
  unfolding rate_limited
  call verb path parameters is_public read c =
      let c' = rate_limited c in
      let (o, w) = method crypto env c'.http_session verb path parameters is_public c'.world in
      (o >>= λ r. check_response r >>= read, record c' { world = w })

  -- `P::getHistoricalPrices`: one page of candles.
  unfoldable pub get_price_page :
      Text
      → CandleInterval
      → ℤ
      → ℤ
      → ℤ
      → Client
      → Outcome (List (Models.Spot.Candle library)) × Client
  get_price_page symbol interval start_time end_time limit =
      let named =
        insert_or_assign (codes "interval") (candle_interval_to_spot_string interval)
          (insert_or_assign (codes "symbol") symbol []) in
      let started =
        if ltb_ℤ (pos 0) start_time
        then insert_or_assign (codes "startTime") (to_string start_time) named
        else named in
      let ended = insert_or_assign (codes "endTime") (to_string end_time) started in
      let parameters =
        if eqb_ℤ limit (pos 500)
        then ended
        else insert_or_assign (codes "limit") (to_string limit) ended in
      call get (codes "/api/v3/klines") parameters true λ r. parse r.body >>= read_candles library

  -- `getHistoricalPrices`, with fuel for the pages.
  unfoldable pub download_prices :
      ℕ
      → Text
      → CandleInterval
      → ℤ
      → ℤ
      → Option (List (Models.Spot.Candle library) → Client → Client)
      → Client
      → Option (Outcome (List (Models.Spot.Candle library)) × Client)
  download_prices fuel symbol interval start_time end_time writer =
      SpotPrices.get_historical_prices (λ c. c.open_time)
        (pos (number_of_ms_for_candle_interval interval))
        (λ from to. get_price_page symbol interval from to (pos SpotPrices.limit)) writer fuel
        start_time end_time

  unfoldable pub get_server_time : Client → Outcome ℤ × Client
  get_server_time = call get (codes "/api/v3/time") [] true λ r. parse r.body >>= λ json.
      finish (
        Models.Spot.server_time_from_json library json
          (record { response = Models.Spot.fresh_response library; server_time = pos 0 }))
      >>= λ v. ok v.server_time

  unfoldable pub get_ticker_price :
      Text → Client → Outcome (List (Models.Spot.TickerPrice library)) × Client
  get_ticker_price symbol =
      call get (codes "/api/v3/ticker/price") (insert_or_assign (codes "symbol") symbol []) true
        λ r. parse r.body >>= read_ticker_prices library

  abbrev listen_key : Response → Outcome Text
  listen_key r =
      handle_mexc_response library
        (record { response = Models.Spot.fresh_response library; listen_key = [] })
        (Models.Spot.listen_key_from_json library) (λ v. v.response) r
      >>= λ v. ok v.listen_key

  abbrev user_data_stream : Text
  user_data_stream = codes "/api/v3/userDataStream"

  unfoldable pub get_listen_key : Client → Outcome Text × Client
  get_listen_key = call post user_data_stream [] false listen_key

  unfoldable pub get_listen_keys : Client → Outcome (Models.Spot.ListenKeys library) × Client
  get_listen_keys = call get user_data_stream [] false (
      handle_mexc_response library
        (record {
          response = Models.Spot.fresh_response library;
          available = pos 0;
          total = pos 0;
          listen_keys = [];
        })
        (Models.Spot.listen_keys_from_json library) (λ v. v.response))

  unfoldable pub renew_listen_key : Text → Client → Outcome Text × Client
  renew_listen_key key =
      call put user_data_stream (insert_or_assign (codes "listenKey") key []) false listen_key

  unfoldable pub close_listen_key : Text → Client → Outcome Text × Client
  close_listen_key key =
      call delete user_data_stream (insert_or_assign (codes "listenKey") key []) false listen_key
