-- ===== src/Models/Events.antt =====
-- include/vk/mexc/mexc_event_models.h and src/mexc_event_models.cpp.
pub mod Members
use mexc_cpp_api.Base.{Bool, false, [], Mutate, ◌>>◌, assign, is_empty, not}
use mexc_cpp_api.Base.Text.{Text}
use mexc_cpp_api.Base.Int.{ℤ, pos, negsuc, eqb_ℤ}
use mexc_cpp_api.Enums.{CandleInterval, min1}
use mexc_cpp_api.External.{Library}
use mexc_cpp_api.External.Reading.{text_member, int_member, double_member, interval_member}
use mexc_cpp_api.Models.Orders.{set_key_if}

-- `WSSubscriptionParameters`.
pub record SubscriptionParameters : Type 0 where
  pub symbol : Text
  pub interval : Text
  pub limit : ℤ
  pub compress : Bool

abbrev pub fresh_parameters : SubscriptionParameters
fresh_parameters = record { symbol = []; interval = []; limit = negsuc 0; compress = false }

-- `WSSubscription`.
pub record Subscription : Type 0 where
  pub method : Text
  pub parameters : SubscriptionParameters

module _ (library : Library) where
  open library use {
    Json, Double, null_json, at_key, set_key, of_string, of_int, of_bool, zero_double,
  }

  unfoldable pub parameters_to_json : SubscriptionParameters → Json
  parameters_to_json p =
      set_key_if library (not (is_empty p.interval)) "interval" (of_string p.interval) (
        set_key_if library (not (eqb_ℤ p.limit (negsuc 0))) "limit" (of_int p.limit) (
          set_key_if library p.compress "compress" (of_bool p.compress)
            (set_key "symbol" (of_string p.symbol) null_json)))

  unfoldable pub subscription_to_json : Subscription → Json
  subscription_to_json s =
      set_key "param" (parameters_to_json s.parameters)
        (set_key "method" (of_string s.method) null_json)

  pub record Event : Type 0 where
    pub channel : Text
    pub symbol : Text
    pub ts : ℤ
    pub payload : Json

  abbrev pub fresh_event : Event
  fresh_event = record { channel = []; symbol = []; ts = pos 0; payload = null_json }

  unfoldable pub event_from_json : Json → Mutate Event
  event_from_json json = do
    text_member library json "channel" (λ s. s.channel) (λ v s. record s { channel = v })
    text_member library json "symbol" (λ s. s.symbol) (λ v s. record s { symbol = v })
    int_member library json "ts" (λ s. s.ts) (λ v s. record s { ts = v })
    assign (at_key json "data") (λ v s. record s { payload = v })

  pub record EventTicker : Type 0 where
    pub symbol : Text
    pub bid1 : Double
    pub ask1 : Double
    pub volume24 : Double
    pub hold_vol : Double
    pub lower24_price : Double
    pub high24_price : Double
    pub rise_fall_rate : Double
    pub rise_fall_value : Double
    pub index_price : Double
    pub fair_price : Double
    pub funding_rate : Double
    pub timestamp : ℤ

  abbrev pub fresh_event_ticker : EventTicker
  fresh_event_ticker = record {
    symbol = [];
    bid1 = zero_double;
    ask1 = zero_double;
    volume24 = zero_double;
    hold_vol = zero_double;
    lower24_price = zero_double;
    high24_price = zero_double;
    rise_fall_rate = zero_double;
    rise_fall_value = zero_double;
    index_price = zero_double;
    fair_price = zero_double;
    funding_rate = zero_double;
    timestamp = pos 0;
  }

  unfoldable pub event_ticker_from_json : Json → Mutate EventTicker
  event_ticker_from_json json = do
    text_member library json "symbol" (λ s. s.symbol) (λ v s. record s { symbol = v })
    double_member library json "bid1" (λ s. s.bid1) (λ v s. record s { bid1 = v })
    double_member library json "ask1" (λ s. s.ask1) (λ v s. record s { ask1 = v })
    double_member library json "volume24" (λ s. s.volume24) (λ v s. record s { volume24 = v })
    double_member library json "holdVol" (λ s. s.hold_vol) (λ v s. record s { hold_vol = v })
    double_member library json "lower24Price" (λ s. s.lower24_price)
        (λ v s. record s { lower24_price = v })
    double_member library json "high24Price" (λ s. s.high24_price)
        (λ v s. record s { high24_price = v })
    double_member library json "riseFallRate" (λ s. s.rise_fall_rate)
        (λ v s. record s { rise_fall_rate = v })
    double_member library json "riseFallValue" (λ s. s.rise_fall_value)
        (λ v s. record s { rise_fall_value = v })
    double_member library json "indexPrice" (λ s. s.index_price)
        (λ v s. record s { index_price = v })
    double_member library json "fairPrice" (λ s. s.fair_price) (λ v s. record s { fair_price = v })
    double_member library json "fundingRate" (λ s. s.funding_rate)
        (λ v s. record s { funding_rate = v })
    int_member library json "m_timestamp" (λ s. s.timestamp) (λ v s. record s { timestamp = v })

  pub record EventCandlestick : Type 0 where
    pub symbol : Text
    pub amount : Double
    pub interval : CandleInterval
    pub open_price : Double
    pub high : Double
    pub low : Double
    pub close_price : Double
    pub volume : Double
    pub start : ℤ

  abbrev pub fresh_event_candlestick : EventCandlestick
  fresh_event_candlestick = record {
    symbol = [];
    amount = zero_double;
    interval = min1;
    open_price = zero_double;
    high = zero_double;
    low = zero_double;
    close_price = zero_double;
    volume = zero_double;
    start = pos 0;
  }

  unfoldable pub event_candlestick_from_json : Json → Mutate EventCandlestick
  event_candlestick_from_json json = do
    text_member library json "symbol" (λ s. s.symbol) (λ v s. record s { symbol = v })
    double_member library json "a" (λ s. s.amount) (λ v s. record s { amount = v })
    interval_member library json "interval" (λ s. s.interval) (λ v s. record s { interval = v })
    double_member library json "o" (λ s. s.open_price) (λ v s. record s { open_price = v })
    double_member library json "h" (λ s. s.high) (λ v s. record s { high = v })
    double_member library json "l" (λ s. s.low) (λ v s. record s { low = v })
    double_member library json "c" (λ s. s.close_price) (λ v s. record s { close_price = v })
    double_member library json "q" (λ s. s.volume) (λ v s. record s { volume = v })
    int_member library json "t" (λ s. s.start) (λ v s. record s { start = v })
