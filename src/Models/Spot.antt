-- ===== src/Models/Spot.antt =====
-- `vk::mexc::spot` of include/vk/mexc/mexc_models.h and src/mexc_models.cpp.
use mexc_cpp_api.Base.{
  ℕ, List, [], Outcome, Step, done, Mutate, ◌>>=◌, ◌>>◌, assign, within, is_empty, if◌then◌else◌,
}
use mexc_cpp_api.Base.Text.{Text}
use mexc_cpp_api.Base.Int.{ℤ, pos}
use mexc_cpp_api.External.{Library}
use mexc_cpp_api.External.Reading.{int32_member, text_member, int_member}

module _ (library : Library) where
  open library use {
    Json, Decimal, null_json, at_key, at_index, at_key_or_null, get_string, get_strings, get_int,
    read_string, zero_decimal, decimal_of_text, stoi,
  }

  pub record Response : Type 0 where
    pub code : ℤ
    pub msg : Text
    pub payload : Json

  abbrev pub fresh_response : Response
  fresh_response = record { code = pos 0; msg = []; payload = null_json }

  set_code : Text → Mutate Response
  set_code code_str =
      if is_empty code_str then done else assign (stoi code_str) (λ v r. record r { code = v })

  -- `Response::fromJson`.
  unfoldable pub response_from_json : Json → Mutate Response
  unfolding set_code
  response_from_json json r = elim (read_string json "code" []) [
    | Outcome.ok code_str ↦
        (do
          text_member library json "msg" (λ s. s.msg) (λ v s. record s { msg = v })
          set_code code_str)
          r
    | Outcome.throw e ↦ Step.threw e r
    | Outcome.fault ↦ Step.faulted
  ]

  pub record ServerTime : Type 0 where
    pub response : Response
    pub server_time : ℤ

  unfoldable pub server_time_from_json : Json → Mutate ServerTime
  server_time_from_json json = do
    within (λ s. s.response) (λ r s. record s { response = r }) (response_from_json json)
    int_member library json "serverTime" (λ s. s.server_time) (λ v s. record s { server_time = v })

  pub record Candle : Type 0 where
    pub response : Response
    pub open_time : ℤ
    pub close_time : ℤ
    pub open_price : Decimal
    pub high : Decimal
    pub low : Decimal
    pub close_price : Decimal
    pub volume : Decimal
    pub quote_asset_volume : Decimal

  abbrev pub fresh_candle : Candle
  fresh_candle = record {
    response = fresh_response;
    open_time = pos 0;
    close_time = pos 0;
    open_price = zero_decimal;
    high = zero_decimal;
    low = zero_decimal;
    close_price = zero_decimal;
    volume = zero_decimal;
    quote_asset_volume = zero_decimal;
  }

  -- `json[i]` as an integer, and as the text of a decimal.
  int_at : Json → ℕ → Outcome ℤ
  int_at json i = at_index json i >>= get_int

  decimal_at : Json → ℕ → Outcome Decimal
  decimal_at json i = at_index json i >>= λ v. get_string v >>= decimal_of_text

  unfoldable pub candle_from_json : Json → Mutate Candle
  unfolding int_at decimal_at
  candle_from_json json = do
    within (λ s. s.response) (λ r s. record s { response = r }) (response_from_json json)
    assign (int_at json 0) (λ v s. record s { open_time = v })
    assign (decimal_at json 1) (λ v s. record s { open_price = v })
    assign (decimal_at json 2) (λ v s. record s { high = v })
    assign (decimal_at json 3) (λ v s. record s { low = v })
    assign (decimal_at json 4) (λ v s. record s { close_price = v })
    assign (decimal_at json 5) (λ v s. record s { volume = v })
    assign (int_at json 6) (λ v s. record s { close_time = v })
    assign (decimal_at json 7) (λ v s. record s { quote_asset_volume = v })

  pub record TickerPrice : Type 0 where
    pub response : Response
    pub symbol : Text
    pub price : Decimal

  abbrev pub fresh_ticker_price : TickerPrice
  fresh_ticker_price = record { response = fresh_response; symbol = []; price = zero_decimal }

  unfoldable pub ticker_price_from_json : Json → Mutate TickerPrice
  ticker_price_from_json json = do
    within (λ s. s.response) (λ r s. record s { response = r }) (response_from_json json)
    text_member library json "symbol" (λ s. s.symbol) (λ v s. record s { symbol = v })
    assign (at_key json "price" >>= λ v. get_string v >>= decimal_of_text)
        (λ v s. record s { price = v })

  pub record ListenKey : Type 0 where
    pub response : Response
    pub listen_key : Text

  unfoldable pub listen_key_from_json : Json → Mutate ListenKey
  listen_key_from_json json = do
    within (λ s. s.response) (λ r s. record s { response = r }) (response_from_json json)
    text_member library json "listenKey" (λ s. s.listen_key) (λ v s. record s { listen_key = v })

  pub record ListenKeys : Type 0 where
    pub response : Response
    pub available : ℤ
    pub total : ℤ
    pub listen_keys : List Text

  unfoldable pub listen_keys_from_json : Json → Mutate ListenKeys
  listen_keys_from_json json = do
    within (λ s. s.response) (λ r s. record s { response = r }) (response_from_json json)
    int32_member library json "available" (λ s. s.available) (λ v s. record s { available = v })
    int32_member library json "total" (λ s. s.total) (λ v s. record s { total = v })
    assign (at_key json "listenKey" >>= get_strings) (λ v s. record s { listen_keys = v })
