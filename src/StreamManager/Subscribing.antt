-- ===== src/StreamManager/Subscribing.antt =====
-- What a call of `subscribeTickerStream` or `subscribeCandlestickStream` of src/mexc_ws_stream_manager.cpp
-- does where no session is alive.
use mexc_cpp_api.Base.Text.{Text}
use mexc_cpp_api.Enums.{CandleInterval}
use mexc_cpp_api.External.{Library}
use mexc_cpp_api.Models.Events.{subscription_to_json}
use mexc_cpp_api.StreamManager.Streams.{ticker_request, candlestick_request}

module _ (library : Library) where
  open library use {Json, dump, of_string, at_key}

  abbrev pub ticker_json : Text → Json
  ticker_json pair = subscription_to_json library (ticker_request pair)

  abbrev pub candlestick_json : Text → CandleInterval → Json
  candlestick_json pair interval = subscription_to_json library (candlestick_request pair interval)
