-- ===== src/Connector.antt =====
-- `MEXCFuturesExchangeConnector` of src/mexc_futures_exchange_connector.cpp, on the futures client. The
-- types of the common interface belong to the submodule vk_cpp_common: the records hold what the code
-- reads and writes of them, and the enumerations the enumerators that the code names.
pub mod Orders
pub mod Answers
pub mod OrderRules
pub mod Placing
mod Tests
use mexc_cpp_api.Base.{
  ℕ, Bool, true, false, List, [], ◌∷◌, ◌++◌, Option, some, none, String, Outcome, ok, throw, Mutate,
  ◌>>=◌, is_empty, map, if◌then◌else◌,
}
use mexc_cpp_api.Base.Effects.{unsupported_interval}
use mexc_cpp_api.Base.Int.{ℤ, pos, quot, eqb_ℤ}
use mexc_cpp_api.Base.Text.{Text, codes}
use mexc_cpp_api.Enums.{
  min1, min5, min15, min30, min60, hour4, hour8, day1, week1, month1, open_long, close_short,
  open_short, close_long, cross, margin_type_of,
}
use mexc_cpp_api.Enums
use mexc_cpp_api.External.{Library}
use mexc_cpp_api.Http.{Crypto, Environment}
use mexc_cpp_api.Http.Futures.{web}
use mexc_cpp_api.Models
use mexc_cpp_api.FuturesClient.{
  Client, key_client, token_client, submit_order, get_contract_ticker, get_wallet_balance,
  get_contract_funding_rate, get_contract_funding_rates, get_contract_details, get_open_positions,
  get_contract_funding_rate_history, download_prices,
}
use mexc_cpp_api.FundingHistory
use mexc_cpp_api.FundingHistory.{Page}
use mexc_cpp_api.Connector.Orders.{Order, Trade, request_of, trade_of}
use mexc_cpp_api.Connector.Answers.{
  TickerPrice, Balance, FundingRate, Symbol, Position, Candle, ticker_price_of, balance_of,
  funding_rate_of, historical_rate_of, symbol_of, position_of, candle_of,
}

-- `vk::CandleInterval`; `other_interval` is any that `toMexcInterval` does not name.
pub data CommonInterval : Type 0 where
  minute_1 minute_5 minute_15 minute_30 hour_1 hour_4 hour_8 day_1 week_1 month_1 : CommonInterval
  other_interval : CommonInterval

unfoldable pub to_mexc_interval : CommonInterval → Outcome Enums.CandleInterval
to_mexc_interval minute_1 = ok min1
to_mexc_interval minute_5 = ok min5
to_mexc_interval minute_15 = ok min15
to_mexc_interval minute_30 = ok min30
to_mexc_interval hour_1 = ok min60
to_mexc_interval hour_4 = ok hour4
to_mexc_interval hour_8 = ok hour8
to_mexc_interval day_1 = ok day1
to_mexc_interval week_1 = ok week1
to_mexc_interval month_1 = ok month1
to_mexc_interval other_interval = throw unsupported_interval

-- The credentials of `login`.
pub record Credentials : Type 0 where
  pub api_key : Text
  pub api_secret : Text
  pub pass_phrase : Text

abbrev pub converted : {A B S : Type 0} → (A → B) → Outcome A × S → Outcome B × S
converted f (o, s) = (o >>= λ a. ok (f a), s)

abbrev pub converted_all :
    {A B S : Type 0} → (A → B) → Option (Outcome (List A) × S) → Option (Outcome (List B) × S)
converted_all f none = none
converted_all f (some (o, s)) = some (o >>= λ xs. ok (map f xs), s)

module _ (library : Library) (crypto : Crypto) (env : Environment) where
  abbrev State : Type 0
  State = Client library crypto env

  -- `login`: the new client; an empty secret means a token of the web site.
  unfoldable pub login : Credentials → State → State
  login credentials c =
      if is_empty credentials.api_secret
      then token_client library crypto env credentials.api_key web c.world
      else key_client library crypto env credentials.api_key credentials.api_secret c.world

  unfoldable pub submit :
      Outcome (Models.Orders.OrderRequest library) → State → Outcome (Trade library) × State
  submit (ok request) c = converted (trade_of library) (submit_order library crypto env request c)
  submit (throw e) c = (throw e, c)
  submit Outcome.fault c = (Outcome.fault, c)

  unfoldable pub place_order : Order library → State → Outcome (Trade library) × State
  unfolding submit
  place_order order c = submit (request_of library order) c

  unfoldable pub get_ticker_price : Text → State → Outcome (TickerPrice library) × State
  get_ticker_price symbol c =
      converted (ticker_price_of library) (get_contract_ticker library crypto env symbol c)

  unfoldable pub get_account_balance : Text → State → Outcome (Balance library) × State
  get_account_balance currency c =
      converted (balance_of library) (get_wallet_balance library crypto env currency c)

  unfoldable pub get_funding_rate : Text → State → Outcome (FundingRate library) × State
  get_funding_rate symbol c =
      converted (funding_rate_of library) (get_contract_funding_rate library crypto env symbol c)

  unfoldable pub get_funding_rates : State → Outcome (List (FundingRate library)) × State
  get_funding_rates c =
      converted (map (funding_rate_of library)) (get_contract_funding_rates library crypto env c)

  unfoldable pub get_symbol_info : Text → State → Outcome (List (Symbol library)) × State
  get_symbol_info symbol c =
      converted (map (symbol_of library)) (get_contract_details library crypto env symbol c)

  unfoldable pub get_position_info : Text → State → Outcome (List (Position library)) × State
  get_position_info symbol c =
      converted (map (position_of library)) (get_open_positions library crypto env symbol c)

  -- A page of the history of rates, 1000 to a page.
  unfoldable pub rate_page :
      Text → ℕ → State → Outcome (Page (Models.Funding.HistoricalFundingRate library)) × State
  rate_page symbol page_num c =
      converted (λ v. record { result_list = v.result_list; total_page = v.total_page })
        (get_contract_funding_rate_history library crypto env symbol (pos page_num) (pos 1000) c)

  -- With fuel for the pages; `sort` is `std::ranges::sort` by `fundingTime`.
  unfoldable pub get_historical_funding_rates :
      ℕ
      → (List (FundingRate library) → List (FundingRate library))
      → Text
      → ℤ
      → ℤ
      → State
      → Option (Outcome (List (FundingRate library)) × State)
  get_historical_funding_rates fuel sort symbol start_time end_time =
      FundingHistory.get_historical_funding_rates (λ r. r.settle_time) (historical_rate_of library)
        start_time end_time fuel sort (rate_page symbol)

  candles_for :
      Outcome Enums.CandleInterval
      → ℕ
      → Text
      → ℤ
      → ℤ
      → State
      → Option (Outcome (List (Candle library)) × State)
  candles_for (ok interval) fuel symbol start_time end_time c = converted_all (candle_of library) (
      download_prices library crypto env fuel symbol interval (quot start_time 1000)
        (quot end_time 1000) none c)
  candles_for (throw e) fuel symbol start_time end_time c = some (throw e, c)
  candles_for Outcome.fault fuel symbol start_time end_time c = some (Outcome.fault, c)

  -- With fuel for the pages of the client.
  unfoldable pub get_historical_candles :
      ℕ → Text → CommonInterval → ℤ → ℤ → State → Option (Outcome (List (Candle library)) × State)
  unfolding candles_for
  get_historical_candles fuel symbol interval start_time end_time c =
      candles_for (to_mexc_interval interval) fuel symbol start_time end_time c
