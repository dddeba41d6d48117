-- ===== src/Lib.antt =====
-- Verification of mexc_api, a C++ client of the MEXC exchange.
--
-- The program has a REST client for the spot API and one for the futures API, each on an HTTP session
-- that signs the requests and each with a rate limiter; data models that are read from JSON; a WebSocket
-- client with a stream manager for market events; and a connector that offers the futures client under
-- the interface that all exchanges of its author share. This library models the sessions, the rate
-- limiter, the models, the two REST clients, the WebSocket session with its subscriptions, the
-- WebSocket client, the stream manager and the connector.
--
-- Base: numbers, texts (lists of bytes), ordered maps (`std::map<std::string, std::string>` as a list in
--   the order of the keys), and the results of code that may throw. `Outcome` has a third form, `fault`,
--   for undefined behaviour; `Step` also holds what a member function has changed before it throws. Of the
--   exceptions, only a callback throws one that is not derived from `std::exception`: the libraries that
--   the program calls do not.
-- External: nlohmann::json, `double`, the decimals of Boost and the helpers of the submodule
--   vk_cpp_common are the fields of the record `Library`, an argument of every model that uses them.
-- RateLimiter: `RateLimiter` of src/mexc_futures_rest_client.cpp and src/mexc_spot_rest_client.cpp. `wait`
--   is a call that nobody interrupts, `enter` and `wake` are the two parts under the mutex. Window holds
--   the theorems on callers one after another, Burst those on what the class does not prevent.
-- Enums: include/vk/mexc/mexc_enums.h and src/mexc.cpp.
-- Models: include/vk/mexc/mexc_models.h, include/vk/mexc/mexc_event_models.h, src/mexc_models.cpp and
--   src/mexc_event_models.cpp, a module for each group of structures. The member `data` is `payload`, and
--   `open` and `close` are `open_price` and `close_price`. Candles.Cells, Candles.Rows, Orders.Members and
--   Events.Members hold theorems.
-- Http: src/mexc_http_spot_session.cpp and src/mexc_http_futures_session.cpp. The digests are the record
--   `Crypto`. The clock, sleeping and the network are the record `Environment`, over a type of worlds.
--   Signing holds what a server can check of a request.
-- FuturesPrices: the pagination of `RESTClient::getHistoricalPrices` of src/mexc_futures_rest_client.cpp.
--   Its fuel is the number of rounds; Complete and Ends say how much is enough.
-- FundingHistory: the pagination of `getHistoricalFundingRates` of src/mexc_futures_exchange_connector.cpp.
--   Its fuel is the number of pages.
-- FuturesClient: the operations of `RESTClient` of src/mexc_futures_rest_client.cpp, over `get_call` and
--   `post_call`, which are what each of them does around its own path, parameters and model. Answers
--   says which answers give a result, Pacing follows the rate limiter through a sequence of calls.
-- SpotPrices, SpotClient: the same of src/mexc_spot_rest_client.cpp, over `call`. The fuel of SpotPrices is
--   the number of rounds; Ends says how much is enough, Gaps what the pages leave out.
-- Subscriptions: `writeSubscription`, `readSubscription`, `handleApiControlMsg` and `isSubscribed` of
--   src/mexc_futures_ws_session.cpp. Writing follows a subscription from its request to its confirmation.
-- Session: the handlers of `WebSocketSession` of src/mexc_futures_ws_session.cpp. `pending` holds the
--   asynchronous operations that were started and whose handlers were not called; `invoke` calls one.
--   Steps is the relation of all steps, in any order. Frame, Messages and Handlers follow a relation
--   between two states through every handler; Bounds counts the outstanding operations, Order and Silence
--   are on what is sent, Progress and Establishing on the way from `run` to the confirmations, Lifetime on the
--   destruction of the session, Ends and Exceptions on what leaves a handler, Delivering on what reaches the
--   callback.
-- Client: `WSClient` of src/mexc_futures_ws_client.cpp: the session that it keeps a `weak_ptr` to, and the
--   thread of the `io_context`, whose place between two accesses of the flag is the type `Thread`. Runs
--   follows `subscribe` and `run`.
-- StreamManager: `WSStreamManager` of src/mexc_ws_stream_manager.cpp. `Store` holds what the callback
--   changes, on the thread of the client; the functions that wait see one store for each round. Streams
--   has the calls of the client. Callback, Contents, Tickers, Waiting, Delivery and Subscribing hold
--   theorems.
-- Connector: `MEXCFuturesExchangeConnector`; Orders and Answers hold what goes in and what comes out.
--   OrderRules and Placing hold the theorems on orders.
--
-- Integers are exact: the code's `int` and `int64_t` hold times and counts. Where a product of a candle's
-- time leaves `int64_t`, or a floating-point number does not fit an `int`, the model has `fault`; a
-- number that the code reads as `int` is taken modulo 2 ^ 32.
-- `std::mutex` is what makes `enter` and `wake` single steps, and the strands and the one
-- thread of the `io_context` are what makes a handler one. The rounds of a timed read are its fuel: their
-- number is that of the source's loop.
--
-- Not modelled: the connections themselves (Boost.Asio, Boost.Beast, OpenSSL) and the logging, which are
-- library calls, where a logger is there or not and does not throw; the memory of the buffers that are
-- written; calls of the WebSocket client from two threads at once, or while a handler is running; the
-- handlers that a destroyed session has left in the `io_context` once another one is open; the header
-- Content-Length, which Beast computes; and the `fromJson` and `toJson` that only throw "Unimplemented".
pub mod Base
pub mod RateLimiter
pub mod Enums
pub mod External
pub mod Models
pub mod Http
pub mod FuturesPrices
pub mod FundingHistory
pub mod SpotPrices
pub mod FuturesClient
pub mod SpotClient
pub mod Connector
pub mod Subscriptions
pub mod Session
pub mod Client
pub mod StreamManager
