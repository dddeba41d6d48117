-- ===== src/StreamManager.antt =====
-- The data that `WSStreamManager` of src/mexc_ws_stream_manager.cpp keeps: the callback that stores the
-- events, and the functions that wait for them.
pub mod Waiting
pub mod Callback
pub mod Contents
pub mod Tickers
pub mod Delivery
pub mod Streams
pub mod Subscribing
mod Tests
use mexc_cpp_api.Base.{
  ℕ, zero, suc, ◌==◌, Bool, ◌&&◌, List, [], ◌∷◌, Option, none, some, Outcome, ok, fault, throw,
  Step, done, threw, faulted, Mutate, local, within, if◌then◌else◌,
}
use mexc_cpp_api.Base.Effects.{bad_function_call}
use mexc_cpp_api.Base.Text.{Text, codes, contains_text}
use mexc_cpp_api.Base.Int.{ℤ, pos, negsuc, scale, leb_ℤ, eqb_ℤ}
use mexc_cpp_api.Base.StringMap.{StringMap, lookup, insert_or_assign}
use mexc_cpp_api.Enums.{
  CandleInterval, min1, min5, min15, min30, min60, hour4, hour8, day1, week1, month1,
}
use mexc_cpp_api.External.{Library}
use mexc_cpp_api.Models.Events.{
  Event, EventTicker, fresh_event_ticker, event_ticker_from_json, EventCandlestick,
  fresh_event_candlestick, event_candlestick_from_json,
}

-- The underlying values of `CandleInterval`, by which the inner map is ordered.
unfoldable pub interval_value : CandleInterval → ℕ
interval_value min1 = 0
interval_value min5 = 1
interval_value min15 = 2
interval_value min30 = 3
interval_value min60 = 4
interval_value hour4 = 5
interval_value hour8 = 6
interval_value day1 = 7
interval_value week1 = 8
interval_value month1 = 9

unfoldable pub same_interval : CandleInterval → CandleInterval → Bool
same_interval i j = interval_value i == interval_value j

-- `static_cast<int>(timeout / 0.01)`, which is undefined for what does not fit. The quotient is rounded
-- to the hundredfold of `timeout` exactly.
unfoldable pub max_num_tries : ℤ → Outcome ℤ
max_num_tries timeout =
    let tries = scale timeout 100 in
    if leb_ℤ (negsuc 2147483647) tries && leb_ℤ tries (pos 2147483647) then ok tries else fault

-- How often the loop runs at most.
abbrev pub rounds : ℤ → ℕ
rounds (pos n) = suc n
rounds (negsuc n) = 0

module _ (library : Library) where
  -- `std::map<CandleInterval, EventCandlestick>`.
  abbrev pub IntervalMap : Type 0
  IntervalMap = List (CandleInterval × EventCandlestick library)

  unfoldable pub find_interval : CandleInterval → IntervalMap → Option (EventCandlestick library)
  find_interval i [] = none
  find_interval i ((j, c) ∷ m) =
      let rest = find_interval i m in if same_interval j i then some c else rest

  unfoldable pub assign_interval :
      CandleInterval → EventCandlestick library → IntervalMap → IntervalMap
  assign_interval i c [] = (i, c) ∷ []
  assign_interval i c ((j, d) ∷ m) =
      let rest = assign_interval i c m in if same_interval j i then (i, c) ∷ m else (j, d) ∷ rest

  -- `WSStreamManager::P` without the client.
  pub record Store : Type 0 where
    pub tickers : StringMap (EventTicker library)
    pub candlesticks : StringMap IntervalMap
    pub timeout : ℤ
    pub has_logger : Bool

  -- A `try` block whose exceptions are logged, without a test that there is a logger. What the blocks
  -- throw is derived from `std::exception`.
  unfoldable pub logged : Step Store → Step Store
  logged (done s) = done s
  logged (threw e s) = if s.has_logger then done s else threw bad_function_call s
  logged faulted = faulted

  -- A new ticker is stored under the symbol of the payload, a known one is changed in place.
  unfoldable pub on_ticker : Event library → Mutate Store
  on_ticker event s = elim (lookup event.symbol s.tickers) [
    | none ↦
        local (fresh_event_ticker library) (event_ticker_from_json library event.payload)
          (λ t (v : Store). record v { tickers = insert_or_assign t.symbol t v.tickers }) s
    | some ticker ↦
        within (λ (v : Store). ticker)
          (λ t v. record v { tickers = insert_or_assign event.symbol t v.tickers })
          (event_ticker_from_json library event.payload) s
  ]

  abbrev pub intervals_of : Option IntervalMap → IntervalMap
  intervals_of none = []
  intervals_of (some m) = m

  unfoldable pub on_candlestick : Event library → Mutate Store
  on_candlestick event =
      local (fresh_event_candlestick library) (event_candlestick_from_json library event.payload)
        (λ c (v : Store). record v {
          candlesticks =
              insert_or_assign event.symbol
                (assign_interval c.interval c (intervals_of (lookup event.symbol v.candlesticks)))
                v.candlesticks;
        })

  -- The callback.
  unfoldable pub on_event : Event library → Mutate Store
  on_event event s =
      if contains_text (codes "push.ticker") event.channel
      then logged (on_ticker event s)
      else if contains_text (codes "push.kline") event.channel
      then logged (on_candlestick event s)
      else done s

  unfoldable pub set_timeout : ℤ → Store → Store
  set_timeout seconds s = record s { timeout = seconds }

  -- What is found, and how often the thread has slept for 3 ms. `states i` is what the loop sees in its
  -- round `i`: other threads change the store between two rounds.
  unfoldable pub poll {ℓ} : {A : Type ℓ} → (Store → Option A) → ℕ → ℕ → (ℕ → Store) → Option A × ℕ
  poll find zero i states = (none, i)
  poll find (suc left) i states =
      let rest = poll find left (suc i) states in
      if eqb_ℤ (states i).timeout (pos 0)
      then (none, i)
      else elim (find (states i)) [ some v ↦ (some v, i) | none ↦ rest ]

  abbrev read_with {ℓ} : {A : Type ℓ} → (Store → Option A) → (ℕ → Store) → Outcome (Option A × ℕ)
  read_with find states = elim (max_num_tries (states 0).timeout) [
    | ok tries ↦ ok (poll find (rounds tries) 0 states)
    | throw e ↦ throw e
    | fault ↦ fault
  ]

  abbrev pub find_ticker : Text → Store → Option (EventTicker library)
  find_ticker pair s = lookup pair s.tickers

  abbrev pub find_candlestick : Text → CandleInterval → Store → Option (EventCandlestick library)
  find_candlestick pair interval s = elim (lookup pair s.candlesticks) [
    | none ↦ none
    | some m ↦ find_interval interval m
  ]

  unfoldable pub read_event_ticker : Text → (ℕ → Store) → Outcome (Option (EventTicker library) × ℕ)
  unfolding max_num_tries
  read_event_ticker pair = read_with (find_ticker pair)

  unfoldable pub read_event_candlestick :
      Text → CandleInterval → (ℕ → Store) → Outcome (Option (EventCandlestick library) × ℕ)
  read_event_candlestick pair interval = read_with (find_candlestick pair interval)
