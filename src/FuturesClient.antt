-- ===== src/FuturesClient.antt =====
-- `RESTClient` of src/mexc_futures_rest_client.cpp: each operation builds a path and parameters, waits
-- for the rate limiter, sends the request, and reads the answer.
pub mod Answers
pub mod Pacing
mod Tests
use mexc_cpp_api.Base.{
  ℕ, Bool, true, false, List, [], ◌∷◌, ◌++◌, Option, String, Outcome, ok, throw, Mutate, ◌>>=◌,
  finish, is_empty, map, ltb, if◌then◌else◌,
}
use mexc_cpp_api.Base.Effects.{bad_response, api_error}
use mexc_cpp_api.Base.Int.{ℤ, pos, eqb_ℤ}
use mexc_cpp_api.Base.Text.{Text, codes, to_string}
use mexc_cpp_api.Base.StringMap.{StringMap, insert_or_assign}
use mexc_cpp_api.Enums.{CandleInterval, enum_name}
use mexc_cpp_api.External.{Library}
use mexc_cpp_api.Http.{Response, Crypto, Environment}
use mexc_cpp_api.Http.Futures.{
  FuturesSession, AuthSource, web, key_session, token_session, method_get, method_post,
}
use mexc_cpp_api.RateLimiter.{RateLimiter, wait}
use mexc_cpp_api.Models
use mexc_cpp_api.FuturesPrices

-- `checkResponse`: the status is that of a good answer.
unfoldable pub check_response : Response → Outcome Response
check_response response =
    if eqb_ℤ response.status (pos 200)
    then ok response
    else throw (bad_response response.status response.body)

module _ (library : Library) where
  open library use {Json, parse}

  -- `handleMEXCResponse<V>`, with the part of `V` that it inherits from `Response`.
  unfoldable pub handle_mexc_response :
      {V : Type 0}
      → V
      → (Json → Mutate V)
      → (V → Models.Futures.Response library)
      → Response
      → Outcome V
  handle_mexc_response fresh from_json base response = parse response.body >>= λ json.
      finish (from_json json fresh) >>= λ ret_val.
      if (base ret_val).success then ok ret_val else throw (api_error (base ret_val).code [])

module _ (library : Library) (crypto : Crypto) (env : Environment) where
  open library use {Json, Double, of_int, of_list, dump}
  open env use {World, current_time_ms, sleep_for_ms}

  -- The client, and the world in which it runs.
  pub record Client : Type 0 where
    pub http_session : FuturesSession
    pub rate_limiter : RateLimiter
    pub world : World

  -- The constructors, `setCredentials` and `setWebToken`.
  abbrev pub key_client : Text → Text → World → Client
  key_client api_key api_secret w = record {
    http_session = key_session api_key api_secret;
    rate_limiter = record { request_times = [] };
    world = w;
  }

  abbrev pub token_client : Text → AuthSource → World → Client
  token_client web_token source w = record {
    http_session = token_session web_token source;
    rate_limiter = record { request_times = [] };
    world = w;
  }

  unfoldable pub set_credentials : Text → Text → Client → Client
  set_credentials api_key api_secret c = record c { http_session = key_session api_key api_secret }

  unfoldable pub set_web_token : Text → Client → Client
  set_web_token web_token c = record c { http_session = token_session web_token web }

  -- `rateLimiter.wait()`.
  unfoldable pub rate_limited : Client → Client
  rate_limited c =
      let (now, w) = current_time_ms c.world in
      let (limiter, pause) = wait now c.rate_limiter in
      record c { rate_limiter = limiter; world = if ltb 0 pause then sleep_for_ms pause w else w }

  -- What an operation reads from the answer, and the client after it.
  abbrev pub answered :
      {V : Type 0} → Client → Outcome Response × World → (Response → Outcome V) → Outcome V × Client
  answered c (o, w) read = (o >>= λ r. check_response r >>= read, record c { world = w })

  unfoldable pub get_call :
      {V : Type 0}
      → Text
      → StringMap Text
      → Bool
      → (Response → Outcome V)
      → Client
      → Outcome V × Client
  unfolding rate_limited
  get_call path parameters is_public read c =
      let c' = rate_limited c in
      answered c' (method_get crypto env c'.http_session path parameters is_public c'.world) read

  -- A body that cannot be printed throws before the rate limiter is asked.
  unfoldable pub post_call :
      {V : Type 0} → Text → Outcome Text → (Response → Outcome V) → Client → Outcome V × Client
  unfolding rate_limited
  post_call path (ok json_body) read c =
      let c' = rate_limited c in
      answered c' (method_post crypto env c'.http_session path json_body c'.world) read
  post_call path (throw e) read c = (throw e, c)
  post_call path Outcome.fault read c = (Outcome.fault, c)

  unfoldable pub get_server_time : Client → Outcome ℤ × Client
  get_server_time = get_call (codes "/api/v1/contract/ping") [] true λ r.
      handle_mexc_response library
        (record { response = Models.Futures.fresh_response library; server_time = pos 0 })
        (Models.Futures.server_time_from_json library) (λ v. v.response) r
      >>= λ v. ok v.server_time

  -- The symbol is a parameter only if it is given.
  abbrev symbol_parameter : Text → StringMap Text
  symbol_parameter symbol =
      if is_empty symbol then [] else insert_or_assign (codes "symbol") symbol []

  unfoldable pub get_contract_details :
      Text → Client → Outcome (List (Models.Contracts.ContractDetail library)) × Client
  get_contract_details symbol =
      get_call (codes "/api/v1/contract/detail") (symbol_parameter symbol) true λ r.
        handle_mexc_response library (Models.Contracts.fresh_contract_details library)
          (Models.Contracts.contract_details_from_json library) (λ v. v.response) r
        >>= λ v. ok v.contract_details

  unfoldable pub get_contract_funding_rate :
      Text → Client → Outcome (Models.Funding.FundingRate library) × Client
  get_contract_funding_rate contract =
      get_call (codes "/api/v1/contract/funding_rate/" ++ contract) [] true (
        handle_mexc_response library (Models.Funding.fresh_funding_rate library)
          (Models.Funding.funding_rate_from_json library) (λ v. v.response))

  unfoldable pub get_contract_funding_rates :
      Client → Outcome (List (Models.Funding.FundingRate library)) × Client
  get_contract_funding_rates = get_call (codes "/api/v1/contract/funding_rate") [] true λ r.
      handle_mexc_response library (Models.Funding.fresh_funding_rates library)
        (Models.Funding.funding_rates_from_json library) (λ v. v.response) r
      >>= λ v. ok v.funding_rates

  unfoldable pub get_contract_funding_rate_history :
      Text → ℤ → ℤ → Client → Outcome (Models.Funding.HistoricalFundingRates library) × Client
  get_contract_funding_rate_history symbol page_num page_size =
      get_call (codes "/api/v1/contract/funding_rate/history")
        (insert_or_assign (codes "page_size") (to_string page_size) (
          insert_or_assign (codes "page_num") (to_string page_num)
            (insert_or_assign (codes "symbol") symbol [])))
        true
        (handle_mexc_response library (Models.Funding.fresh_historical_rates library)
          (Models.Funding.historical_rates_from_json library) (λ v. v.response))

  unfoldable pub get_wallet_balance :
      Text → Client → Outcome (Models.Account.WalletBalance library) × Client
  get_wallet_balance currency =
      get_call (codes "/api/v1/private/account/asset/" ++ currency) [] false (
        handle_mexc_response library (Models.Account.fresh_wallet_balance library)
          (Models.Account.wallet_balance_from_json library) (λ v. v.response))

  unfoldable pub get_contract_ticker :
      Text → Client → Outcome (Models.Account.Ticker library) × Client
  get_contract_ticker symbol =
      get_call (codes "/api/v1/contract/ticker") (insert_or_assign (codes "symbol") symbol []) true
        (handle_mexc_response library (Models.Account.fresh_ticker library)
          (Models.Account.ticker_from_json library) (λ v. v.response))

  unfoldable pub get_open_positions :
      Text → Client → Outcome (List (Models.Positions.OpenPosition library)) × Client
  get_open_positions symbol =
      get_call (codes "/api/v1/private/position/open_positions") (symbol_parameter symbol) false
        λ r.
          handle_mexc_response library (Models.Positions.fresh_open_positions library)
            (Models.Positions.open_positions_from_json library) (λ v. v.response) r
          >>= λ v. ok v.positions

  unfoldable pub submit_order :
      Models.Orders.OrderRequest library
      → Client
      → Outcome (Models.Orders.OrderResponse library) × Client
  submit_order request =
      post_call (codes "/api/v1/private/order/submit")
        (dump (Models.Orders.order_request_to_json library request))
        (handle_mexc_response library (Models.Orders.fresh_order_response library)
          (Models.Orders.order_response_from_json library) (λ v. v.response))

  unfoldable pub cancel_orders :
      List ℤ → Client → Outcome (Models.Orders.CancelOrderResponse library) × Client
  cancel_orders order_ids =
      post_call (codes "/api/v1/private/order/cancel") (dump (of_list (map of_int order_ids))) (
        handle_mexc_response library (Models.Orders.fresh_cancel_order_response library)
          (Models.Orders.cancel_order_response_from_json library) (λ v. v.response))

  -- `P::getHistoricalPrices`: one page of candles.
  unfoldable pub get_price_page :
      Text
      → CandleInterval
      → ℤ
      → ℤ
      → Client
      → Outcome (List (Models.Candles.Candle library)) × Client
  get_price_page symbol interval start_time end_time =
      get_call (codes "/api/v1/contract/kline/" ++ symbol)
        (insert_or_assign (codes "end") (to_string end_time) (
          insert_or_assign (codes "start") (to_string start_time)
            (insert_or_assign (codes "interval") (enum_name interval) [])))
        true
        λ r.
          handle_mexc_response library (Models.Candles.fresh_candles library)
            (Models.Candles.candles_from_json library) (λ v. v.response) r
          >>= λ v. ok v.candles

  -- `getHistoricalPrices`, with fuel for the pages.
  unfoldable pub download_prices :
      ℕ
      → Text
      → CandleInterval
      → ℤ
      → ℤ
      → Option (List (Models.Candles.Candle library) → Client → Client)
      → Client
      → Option (Outcome (List (Models.Candles.Candle library)) × Client)
  download_prices fuel symbol interval start_time end_time writer =
      FuturesPrices.get_historical_prices (λ c. c.open_time) (get_price_page symbol interval) writer
        fuel start_time end_time
