-- ===== src/StreamManager/Tests.antt =====
-- The stream manager at concrete inputs, with a library that can read one text: a candlestick.
use mexc_cpp_api.Base.{
  ◌≡◌, refl, ℕ, ◌+◌, ◌*◌, ◌≤◌, arith, Bool, true, false, [], ◌∷◌, ◌++◌, Option, none, some, ok,
  done, each,
}
use mexc_cpp_api.Base.Effects.{bad_function_call}
use mexc_cpp_api.Base.Text.{codes, text_eq, contains_text, has_prefix}
use mexc_cpp_api.Base.Int.{pos}
use mexc_cpp_api.Base.StringMap.{lookup, insert_or_assign}
use mexc_cpp_api.Enums.{min1}
use mexc_cpp_api.External.{Library}
use mexc_cpp_api.External.Sample.{sample, Json, null, member, has_key, value_at}
use mexc_cpp_api.Models.Events.{
  fresh_event_ticker, Event, EventTicker, EventCandlestick, fresh_event_candlestick,
  event_from_json, event_candlestick_from_json, event_ticker_from_json,
}
use mexc_cpp_api.Subscriptions.{is_api_control_msg}
use mexc_cpp_api.Session.{Session, Completion, reading, invoke}
use mexc_cpp_api.Client.{Client, new_client}
use mexc_cpp_api.StreamManager.{
  find_ticker, Store, on_event, on_ticker, on_candlestick, logged, find_candlestick,
  read_event_ticker, read_event_candlestick,
}
use mexc_cpp_api.StreamManager.Waiting.{blocking_bound, ticker_times_out}
use mexc_cpp_api.StreamManager.Contents.{store_refines_latest, latest_candlestick, storing}
use mexc_cpp_api.StreamManager.Tickers.{cell_after_all, tickers_refine_cells}
use mexc_cpp_api.StreamManager.Delivery.{candlestick_delivered, on_event-throws}

abbrev bar : Json
bar = member "c" (Json.number (pos 7)) null

abbrev message : Json
message =
    member "channel" (Json.text (codes "push.kline"))
      (member "symbol" (Json.text (codes "BTC_USDT")) (member "data" bar null))

abbrev chatty : Library
chatty = record sample { parse = λ t. ok message }

abbrev event : Event chatty
event = record {
  channel = codes "push.kline";
  symbol = codes "BTC_USDT";
  ts = pos 0;
  payload = bar;
}

abbrev candle : EventCandlestick chatty
candle = record (fresh_event_candlestick chatty) { close_price = pos 7 }

abbrev store : Bool → Store chatty
store has_logger = record {
  tickers = [];
  candlesticks = [];
  timeout = pos 5;
  has_logger = has_logger;
}

blocking_bound_example :
    ((r : Option (EventTicker chatty) × ℕ) × (read_event_ticker chatty
          (codes "BTC_USDT")
          (λ i. store true)
        ≡ ok r)
      × (3 * r.1 ≤ 300 * 5 + 3))
    × ((r : Option (EventCandlestick chatty) × ℕ) × (read_event_candlestick chatty
            (codes "BTC_USDT")
            min1
            (λ i. store true)
          ≡ ok r)
        × (3 * r.1 ≤ 300 * 5 + 3))
blocking_bound_example =
    blocking_bound chatty (λ i. store true) 5 refl (omega arith) (codes "BTC_USDT") min1

ticker_times_out_example :
    read_event_ticker chatty (codes "BTC_USDT") (λ i. store true) ≡ ok (none, 100 * 5 + 1)
unfolding lookup
ticker_times_out_example =
    ticker_times_out chatty (λ i. store true) 5 refl (omega arith) (codes "BTC_USDT") (λ j h. refl)
      (λ j h. refl)

store_refines_latest_example :
    find_candlestick chatty
      (codes "BTC_USDT")
      min1
      (storing chatty (codes "BTC_USDT") candle (store true))
    ≡ latest_candlestick chatty
        (codes "BTC_USDT")
        min1
        (event ∷ [])
        (find_candlestick chatty (codes "BTC_USDT") min1 (store true))
unfolding each on_event on_candlestick logged contains_text has_prefix event_candlestick_from_json
    has_key value_at text_eq
store_refines_latest_example =
    store_refines_latest chatty (codes "BTC_USDT") min1 (event ∷ []) (store true)
      (storing chatty (codes "BTC_USDT") candle (store true)) refl

abbrev session : Session chatty (Store chatty)
session = record {
  host = [];
  subscriptions = record { confirmed = bar ∷ []; requests = []; subscribing = null };
  has_logger = true;
  callback = some (on_event chatty);
  owner = store true;
  last_ping = pos 0;
  last_pong = pos 0;
  pending = [];
  sent = [];
}

abbrev states : ℕ → Store chatty
states i = storing chatty (codes "BTC_USDT") candle (store true)

abbrev arrival : Completion
arrival = record {
  failed = false;
  is_named = true;
  port = 443;
  received = codes "m";
  now = pos 0;
  is_open = true;
}

candlestick_delivered_example :
    (invoke chatty (Store chatty) reading arrival session
      ≡ done (record session { owner = states 0; pending = session.pending ++ (reading ∷ []) }))
    × (read_event_candlestick chatty (codes "BTC_USDT") min1 states ≡ ok (some candle, 0))
unfolding has_key value_at is_api_control_msg contains_text has_prefix event_from_json
    event_candlestick_from_json text_eq
candlestick_delivered_example =
    candlestick_delivered chatty session arrival message event candle 4 states refl refl refl refl
      refl refl refl refl refl refl refl refl (omega arith) refl

-- A ticker whose symbol is no text, where there is no logger.
abbrev broken : Event chatty
broken = record {
  channel = codes "push.ticker";
  symbol = codes "BTC_USDT";
  ts = pos 0;
  payload = member "symbol" null null;
}

on_event-throws_example :
    ((store false).has_logger ≡ false) × (bad_function_call ≡ bad_function_call)
unfolding on_event on_ticker logged contains_text has_prefix lookup event_ticker_from_json has_key
    value_at text_eq
on_event-throws_example =
    on_event-throws chatty broken (store false) (store false) bad_function_call refl

abbrev manager : Client chatty (Store chatty)
manager = new_client chatty (Store chatty) (store false)

abbrev quote : Event chatty
quote = record {
  channel = codes "push.ticker";
  symbol = codes "BTC_USDT";
  ts = pos 0;
  payload =
      member "symbol" (Json.text (codes "BTC_USDT")) (member "bid1" (Json.number (pos 3)) null);
}

abbrev quoted : Store chatty
quoted = record (store true) {
  tickers =
      (
        codes "BTC_USDT",
        record (fresh_event_ticker chatty) { symbol = codes "BTC_USDT"; bid1 = pos 3 },
      )
      ∷ [];
}

tickers_refine_cells_example :
    find_ticker chatty (codes "BTC_USDT") quoted
    ≡ cell_after_all chatty
        (codes "BTC_USDT")
        (quote ∷ [])
        (find_ticker chatty (codes "BTC_USDT") (store true))
unfolding each on_event on_ticker logged lookup insert_or_assign contains_text has_prefix
    event_ticker_from_json has_key value_at text_eq
tickers_refine_cells_example =
    tickers_refine_cells chatty (codes "BTC_USDT") (quote ∷ []) (store true) quoted (refl, tt) refl
