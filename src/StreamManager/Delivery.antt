-- ===== src/StreamManager/Delivery.antt =====
-- From the bytes that a session of src/mexc_futures_ws_session.cpp reads to what `readEventCandlestick` of
-- src/mexc_ws_stream_manager.cpp returns, and the exceptions of the callback in between.
use mexc_cpp_api.Base.{
  ◌≡◌, refl, sym, ap, ◌∙◌, subst, ℕ, suc, ◌*◌, ◌≤◌, arith, Bool, true, false, [], ◌∷◌, ◌++◌,
  is_empty, some, ok, Step, done, threw, faulted, Exception, finish, if◌then◌else◌,
}
use mexc_cpp_api.Base.Effects.{bad_function_call}
use mexc_cpp_api.Base.Text.{Text, codes, contains_text, text_eq_refl}
use mexc_cpp_api.Base.Int.{pos, eqb_ℤ}
use mexc_cpp_api.Enums.{CandleInterval}
use mexc_cpp_api.External.{Library}
use mexc_cpp_api.Models.Events.{
  Event, fresh_event, event_from_json, EventCandlestick, fresh_event_candlestick,
  event_candlestick_from_json,
}
use mexc_cpp_api.Session.{
  Session, accept, dispatch, deliver, Completion, reading, start, invoke, complete, on_read, rescue,
}
use mexc_cpp_api.Session.Delivering.{goes_on}
use mexc_cpp_api.StreamManager.{
  Store, same_interval, logged, on_ticker, on_candlestick, on_event, find_candlestick,
  read_event_candlestick,
}
use mexc_cpp_api.StreamManager.Callback.{on_event-cases, is_ticker}
use mexc_cpp_api.StreamManager.Contents.{storing, find-storing}
use mexc_cpp_api.StreamManager.Waiting.{candlestick_arrives}
use mexc_cpp_api.Subscriptions.{is_api_control_msg}

module _ (library : Library) where
  open library use {parse, is_object}

  stores :
      (event : Event library) (c : EventCandlestick library) (s : Store library)
      → is_ticker library event ≡ false
      → contains_text (codes "push.kline") event.channel ≡ true
      → event_candlestick_from_json library event.payload (fresh_event_candlestick library) ≡ done c
      → on_event library event s ≡ done (storing library event.symbol c s)
  unfolding on_event on_candlestick logged
  stores event c s no_ticker kline fills = rw (no_ticker) (rw kline (rw fills refl))

  accept-delivers :
      (s : Session library (Store library)) (received : Text) (json : library.Json)
      (event : Event library) (u : Store library)
      → parse received ≡ ok json
      → is_object json ≡ true
      → is_api_control_msg library json ≡ ok false
      → finish (event_from_json library json (fresh_event library)) ≡ ok event
      → s.callback ≡ some (on_event library)
      → on_event library event s.owner ≡ done u
      → accept library (Store library) received s ≡ done (record s { owner = u })
  unfolding accept dispatch deliver
  accept-delivers s received json event u parses object control reads tells takes =
      rw (parses, accept)
        (rw object (
          rw (control, dispatch)
            (rw (reads, deliver)
              (rw tells (rw takes (ap (λ k. done (record s { callback = k; owner = u })) tells))))))

  same_interval_refl : (i : CandleInterval) → same_interval i i ≡ true
  unfolding same_interval
  same_interval_refl i = ground arith

  found_at_once :
      (event : Event library) (c : EventCandlestick library) (s : Store library)
      → find_candlestick library event.symbol c.interval (storing library event.symbol c s) ≡ some c
  found_at_once event c s =
      find-storing library event.symbol event.symbol c.interval c s
      ∙ rw (text_eq_refl event.symbol, same_interval_refl c.interval) refl

  never_zero :
      (states : ℕ → Store library) (t : ℕ)
      → (states 0).timeout ≡ pos (suc t)
      → (j : ℕ) → j ≤ 0
      → eqb_ℤ (states j).timeout (pos 0) ≡ false
  never_zero states t start j h =
      subst (λ k. eqb_ℤ (states k).timeout (pos 0) ≡ false) (first j h) (rw start (ground arith))
    where
      first : (i : ℕ) → i ≤ 0 → 0 ≡ i
      first i g = omega arith

  -- The handler of a read, where nothing waits to be sent and something is confirmed.
  reads_on :
      (s : Session library (Store library)) (c : Completion) (u : Store library)
      → c.failed ≡ false
      → accept library (Store library) c.received s ≡ done (record s { owner = u })
      → s.subscriptions.requests ≡ []
      → is_empty s.subscriptions.confirmed ≡ false
      → invoke library (Store library) reading c s
        ≡ done (record s { owner = u; pending = s.pending ++ (reading ∷ []) })
  unfolding invoke complete on_read rescue
  reads_on s c u good accepts requests confirmed = rw good (
      rw accepts (
        rw
          (goes_on library (Store library) (on_event library) (record s { owner = u }) requests
            confirmed)
          refl))

  -- The read of a session whose callback is that of the stream manager ends with an object that is no
  -- control message and is an event of a candlestick channel, whose payload can be read, while no request
  -- waits and some subscription is confirmed. Then the whole handler stores the candlestick and starts
  -- the next read: it sends nothing, and changes nothing else of the session. With a timeout of t s, t
  -- above 0, whose hundredfold is an `int`, `readEventCandlestick` for the event's pair and the
  -- candlestick's interval then returns the candlestick without sleeping.
  pub candlestick_delivered :
      (s : Session library (Store library)) (f : Completion) (json : library.Json)
      (event : Event library) (c : EventCandlestick library) (t : ℕ) (states : ℕ → Store library)
      → f.failed ≡ false
      → parse f.received ≡ ok json
      → is_object json ≡ true
      → is_api_control_msg library json ≡ ok false
      → finish (event_from_json library json (fresh_event library)) ≡ ok event
      → s.callback ≡ some (on_event library)
      → is_ticker library event ≡ false
      → contains_text (codes "push.kline") event.channel ≡ true
      → event_candlestick_from_json library event.payload (fresh_event_candlestick library) ≡ done c
      → s.subscriptions.requests ≡ []
      → is_empty s.subscriptions.confirmed ≡ false
      → s.owner.timeout ≡ pos (suc t)
      → 100 * suc t ≤ 2147483647
      → states 0 ≡ storing library event.symbol c s.owner
      → (invoke library (Store library) reading f s
          ≡ done (record s { owner = states 0; pending = s.pending ++ (reading ∷ []) }))
        × (read_event_candlestick library event.symbol c.interval states ≡ ok (some c, 0))
  candlestick_delivered s f json event c t states good parses object control reads tells no_ticker
        kline fills requests confirmed timeout fits seen =
      (
        reads_on s f (states 0) good
            (accept-delivers s f.received json event (states 0) parses object control reads tells
              (stores event c s.owner no_ticker kline fills ∙ ap done (sym seen)))
            requests confirmed,
        candlestick_arrives library states (suc t)
            (ap (λ (v : Store library). v.timeout) seen ∙ timeout) fits event.symbol c.interval 0 c
            (λ j h. absurd (omega (arith, h)))
            (ap (find_candlestick library event.symbol c.interval) seen
              ∙ found_at_once event c s.owner)
            (never_zero states t (ap (λ (v : Store library). v.timeout) seen ∙ timeout))
            (omega arith),
      )

  logged-throws :
      (y : Step (Store library)) (t : Store library) (x : Exception)
      → logged library y ≡ threw x t
      → (t.has_logger ≡ false) × (x ≡ bad_function_call)
  unfolding logged
  logged-throws (done u) t x h = cc
  logged-throws faulted t x h = cc
  logged-throws (threw e u) t x h = known u.has_logger refl h
    where
      same : threw bad_function_call u ≡ threw x t → (u ≡ t) × (x ≡ bad_function_call)
      same g = (cc, cc)

      known :
          (b : Bool)
          → u.has_logger ≡ b
          → (if b then done u else threw bad_function_call u) ≡ threw x t
          → (t.has_logger ≡ false) × (x ≡ bad_function_call)
      known true k g = cc
      known false k g = (ap (λ (v : Store library). v.has_logger) (sym (same g).0) ∙ k, (same g).1)

  -- An exception leaves the callback only if there is no logger, and it is then the one of the missing
  -- logger, whatever the exception was that should have been logged.
  pub on_event-throws :
      (event : Event library) (s t : Store library) (x : Exception)
      → on_event library event s ≡ threw x t
      → (t.has_logger ≡ false) × (x ≡ bad_function_call)
  on_event-throws event s t x =
      on_event-cases library
        (λ a b y. y ≡ threw x t → (t.has_logger ≡ false) × (x ≡ bad_function_call)) event s
        (λ b. logged-throws (on_ticker library event s) t x)
        (logged-throws (on_candlestick library event s) t x) (λ g. cc)
