-- ===== src/StreamManager/Streams.antt =====
-- How `WSStreamManager` of src/mexc_ws_stream_manager.cpp subscribes: its calls of the WebSocket client, whose
-- callback changes the store.
use mexc_cpp_api.Base.{
  Bool, none, some, ok, throw, fault, Step, done, threw, faulted, Mutate, next, false, [],
  if◌then◌else◌,
}
use mexc_cpp_api.Base.Text.{Text, codes}
use mexc_cpp_api.Base.Int.{ℤ, pos}
use mexc_cpp_api.Enums.{CandleInterval, enum_name}
use mexc_cpp_api.External.{Library}
use mexc_cpp_api.Models.Events.{Subscription, fresh_parameters, subscription_to_json}
use mexc_cpp_api.Client.{
  Client, new_client, current_owner, run_client, set_logger_callback, set_data_event_callback,
  subscribe_client, is_subscribed_client, destroy_client,
}
use mexc_cpp_api.StreamManager.{Store, on_event, set_timeout}

-- The subscriptions of the two streams.
unfoldable pub ticker_request : Text → Subscription
ticker_request pair = record {
  method = codes "sub.ticker";
  parameters = record fresh_parameters { symbol = pair };
}

unfoldable pub candlestick_request : Text → CandleInterval → Subscription
candlestick_request pair interval = record {
  method = codes "sub.kline";
  parameters = record fresh_parameters { symbol = pair; interval = enum_name interval };
}

module _ (library : Library) where
  open library use {Json, dump}

  -- `WSStreamManager` is its client, whose callback changes the store.
  abbrev pub Manager : Type 0
  Manager = Client library (Store library)

  abbrev pub store_of : Manager → Store library
  store_of = current_owner library (Store library)

  -- A change of the store.
  unfoldable pub change_store : (Store library → Store library) → Manager → Manager
  change_store change m = elim m.session [
    | none ↦ record m { owner = change m.owner }
    | some s ↦ record m { session = some (record s { owner = change s.owner }) }
  ]

  -- The constructor.
  unfoldable pub new_manager : Manager
  new_manager = set_data_event_callback library (Store library) (some (on_event library)) (
      new_client library (Store library)
        (record { tickers = []; candlesticks = []; timeout = pos 5; has_logger = false }))

  -- The destructor.
  unfoldable pub destroy_manager : Manager → Step Manager
  destroy_manager m =
      next (destroy_client library (Store library) m)
        (λ d. done (change_store (set_timeout library (pos 0)) d)) (λ d. d)

  unfoldable pub set_manager_timeout : ℤ → Manager → Manager
  set_manager_timeout seconds = change_store (set_timeout library seconds)

  -- `setLoggerCallback`: both the store and the client have the logger.
  unfoldable pub set_manager_logger : Bool → Manager → Manager
  set_manager_logger has_logger m =
      set_logger_callback library (Store library) has_logger
        (change_store (λ s. record s { has_logger = has_logger }) m)

  -- The message that a subscription is made, if there is a logger.
  unfoldable pub announce : Json → Mutate Manager
  announce request m =
      if (store_of m).has_logger
      then (elim (dump request) [ ok text ↦ done m | throw e ↦ threw e m | fault ↦ faulted ])
      else done m

  unfoldable pub subscribe_stream : Subscription → Mutate Manager
  subscribe_stream subscription m =
      let request = subscription_to_json library subscription in
      next
        (if is_subscribed_client library (Store library) request m
          then done m
          else next (announce request m) (subscribe_client library (Store library) request)
              (λ d. d))
        (λ d. done (run_client library (Store library) d)) (λ d. d)

  unfoldable pub subscribe_ticker_stream : Text → Mutate Manager
  subscribe_ticker_stream pair = subscribe_stream (ticker_request pair)

  unfoldable pub subscribe_candlestick_stream : Text → CandleInterval → Mutate Manager
  subscribe_candlestick_stream pair interval = subscribe_stream (candlestick_request pair interval)

  unfoldable pub manager_timeout : Manager → ℤ
  manager_timeout m = (store_of m).timeout
