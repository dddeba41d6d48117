-- ===== src/StreamManager/Contents.antt =====
-- What the callback of src/mexc_ws_stream_manager.cpp has stored after any sequence of events, described for
-- one pair at a time.
use mexc_cpp_api.Base.{
  All, ◌≡◌, refl, sym, ap, ◌∙◌, arith, inl, inr, ◌&&◌, not, Bool-cases, List, [], ◌∷◌, Option, none,
  some, Step, done, threw, faulted, next, each, if◌then◌else◌,
}
use mexc_cpp_api.Base.Effects.{after_all, each-after_all, done-injective}
use mexc_cpp_api.Base.Text.{Text, text_eq, text_eq_iff}
use mexc_cpp_api.Base.StringMap.{lookup, insert_or_assign, lookup-insert_or_assign}
use mexc_cpp_api.Enums.{CandleInterval}
use mexc_cpp_api.External.{Library}
use mexc_cpp_api.Models.Events.{
  Event, EventTicker, fresh_event_ticker, event_ticker_from_json, EventCandlestick,
  fresh_event_candlestick, event_candlestick_from_json,
}
use mexc_cpp_api.Session.Steps.{Lands}
use mexc_cpp_api.StreamManager.Callback.{is_candlestick, logged-Lands, on_event-cases}
use mexc_cpp_api.StreamManager.{
  Store, same_interval, IntervalMap, find_interval, assign_interval, intervals_of, on_ticker,
  on_candlestick, on_event, find_candlestick,
}

module _ (library : Library) where
  find-assign :
      (i j : CandleInterval) (c : EventCandlestick library) (m : IntervalMap library)
      → find_interval library i (assign_interval library j c m)
        ≡ (if same_interval j i then some c else find_interval library i m)
  unfolding find_interval assign_interval same_interval
  find-assign i j c [] = refl
  find-assign i j c ((k, d) ∷ m) = ground (arith, find-assign i j c m)

  -- A local object is filled and stored, or the store is left.
  local-candlesticks :
      (x : Step (EventTicker library)) (f : EventTicker library → Store library)
      (s t : Store library)
      → ((u : EventTicker library) → (f u).candlesticks ≡ s.candlesticks)
      → Lands (next x (λ u. done (f u)) (λ u. s)) t
      → t.candlesticks ≡ s.candlesticks
  local-candlesticks (done u) f s t same h = ap (λ v. v.candlesticks) (sym h) ∙ same u
  local-candlesticks (threw e u) f s t same h = ap (λ v. v.candlesticks) (sym h)
  local-candlesticks faulted f s t same h = absurd h

  within-candlesticks :
      (x : Step (EventTicker library)) (f : EventTicker library → Store library)
      (s t : Store library)
      → ((u : EventTicker library) → (f u).candlesticks ≡ s.candlesticks)
      → Lands (next x (λ u. done (f u)) f) t
      → t.candlesticks ≡ s.candlesticks
  within-candlesticks (done u) f s t same h = ap (λ v. v.candlesticks) (sym h) ∙ same u
  within-candlesticks (threw e u) f s t same h = ap (λ v. v.candlesticks) (sym h) ∙ same u
  within-candlesticks faulted f s t same h = absurd h

  on_ticker-candlesticks :
      (e : Event library) (s t : Store library)
      → Lands (on_ticker library e s) t
      → t.candlesticks ≡ s.candlesticks
  unfolding on_ticker
  on_ticker-candlesticks e s t h = known (lookup e.symbol s.tickers) h
    where
      fill : EventTicker library → Step (EventTicker library)
      fill = event_ticker_from_json library e.payload

      fresh : EventTicker library → Store library
      fresh u = record s { tickers = insert_or_assign u.symbol u s.tickers }

      store : EventTicker library → Store library
      store u = record s { tickers = insert_or_assign e.symbol u s.tickers }

      known :
          (found : Option (EventTicker library))
          → Lands
              (elim found [
                | none ↦ next (fill (fresh_event_ticker library)) (λ u. done (fresh u)) (λ u. s)
                | some ticker ↦ next (fill ticker) (λ u. done (store u)) store
              ])
              t
          → t.candlesticks ≡ s.candlesticks
      known none g = local-candlesticks (fill (fresh_event_ticker library)) fresh s t (λ u. refl) g
      known (some ticker) g = within-candlesticks (fill ticker) store s t (λ u. refl) g

  -- The candlestick that an event brings for a pair and an interval.
  abbrev candlestick_of :
      Text
      → CandleInterval
      → Text
      → Step (EventCandlestick library)
      → Option (EventCandlestick library)
  candlestick_of pair interval symbol (done c) =
      if text_eq symbol pair && same_interval c.interval interval then some c else none
  candlestick_of pair interval symbol _ = none

  unfoldable pub candlestick_in :
      Text → CandleInterval → Event library → Option (EventCandlestick library)
  candlestick_in pair interval e =
      if is_candlestick library e
      then candlestick_of pair interval e.symbol
          (event_candlestick_from_json library e.payload (fresh_event_candlestick library))
      else none

  -- The state in which a candlestick has been stored under a symbol.
  abbrev pub storing : Text → EventCandlestick library → Store library → Store library
  storing symbol c s = record s {
    candlesticks =
        insert_or_assign symbol
          (assign_interval library c.interval c
            (intervals_of library (lookup symbol s.candlesticks)))
          s.candlesticks;
  }

  abbrev in_map : CandleInterval → Option (IntervalMap library) → Option (EventCandlestick library)
  in_map interval m = elim m [ none ↦ none | some n ↦ find_interval library interval n ]

  find-intervals_of :
      (interval : CandleInterval) (m : Option (IntervalMap library))
      → find_interval library interval (intervals_of library m) ≡ in_map interval m
  unfolding find_interval
  find-intervals_of interval none = refl
  find-intervals_of interval (some n) = refl

  pub find-storing :
      (pair symbol : Text) (interval : CandleInterval) (c : EventCandlestick library)
      (s : Store library)
      → find_candlestick library pair interval (storing symbol c s) ≡ (
          if text_eq symbol pair && same_interval c.interval interval
          then some c
          else find_candlestick library pair interval s)
  find-storing pair symbol interval c s =
      let ms = s.candlesticks in
      let n = assign_interval library c.interval c (intervals_of library (lookup symbol ms)) in
      let found = ap (in_map interval) (lookup-insert_or_assign symbol pair n ms) in
      elim (Bool-cases (text_eq symbol pair)) [
        | inl e ↦
            found
            ∙ rw e (
                find-assign interval c.interval c (intervals_of library (lookup symbol ms))
                ∙ ap (λ o. if same_interval c.interval interval then some c else o)
                    (find-intervals_of interval (lookup symbol ms)
                      ∙ ap (λ k. in_map interval (lookup k ms)) ((text_eq_iff symbol pair).0 e)))
        | inr e ↦ found ∙ rw e refl
      ]

  -- `none` keeps what was there.
  abbrev or_else :
      Option (EventCandlestick library)
      → Option (EventCandlestick library)
      → Option (EventCandlestick library)
  or_else none before = before
  or_else (some c) before = some c

  -- The last one that the events bring, or the one from before.
  unfoldable pub latest_candlestick :
      Text
      → CandleInterval
      → List (Event library)
      → Option (EventCandlestick library)
      → Option (EventCandlestick library)
  latest_candlestick pair interval = after_all (λ e. or_else (candlestick_in pair interval e))

  on_candlestick-find :
      (pair : Text) (interval : CandleInterval) (e : Event library) (s t : Store library)
      → Lands (on_candlestick library e s) t
      → find_candlestick library pair interval t
        ≡ or_else
            (candlestick_of pair interval e.symbol
              (event_candlestick_from_json library e.payload (fresh_event_candlestick library)))
            (find_candlestick library pair interval s)
  unfolding on_candlestick
  on_candlestick-find pair interval e s t h =
      known (event_candlestick_from_json library e.payload (fresh_event_candlestick library)) h
    where
      known :
          (x : Step (EventCandlestick library))
          → Lands (next x (λ c. done (storing e.symbol c s)) (λ c. s)) t
          → find_candlestick library pair interval t
            ≡ or_else
                (candlestick_of pair interval e.symbol x)
                (find_candlestick library pair interval s)
      known (done c) g =
          ap (find_candlestick library pair interval) (sym g)
          ∙ find-storing pair e.symbol interval c s
          ∙ ground arith
      known (threw x c) g = ap (find_candlestick library pair interval) (sym g)
      known faulted g = absurd g

  on_event-find :
      (pair : Text) (interval : CandleInterval) (e : Event library) (s t : Store library)
      → on_event library e s ≡ done t
      → find_candlestick library pair interval t
        ≡ or_else (candlestick_in pair interval e) (find_candlestick library pair interval s)
  unfolding candlestick_in
  on_event-find pair interval e s t =
      let brought =
        candlestick_of pair interval e.symbol
          (event_candlestick_from_json library e.payload (fresh_event_candlestick library)) in
      on_event-cases library
        (λ a b x.
          x ≡ done t
          → find_candlestick library pair interval t
            ≡ or_else (if not a && b then brought else none)
                (find_candlestick library pair interval s))
        e s
        (λ b g.
          ap (λ m. in_map interval (lookup pair m))
            (on_ticker-candlesticks e s t (logged-Lands library (on_ticker library e s) t g)))
        (λ g.
          on_candlestick-find pair interval e s t
            (logged-Lands library (on_candlestick library e s) t g))
        (λ g. ap (find_candlestick library pair interval) (sym (done-injective g)))

  All-Unit : (events : List (Event library)) → All (λ e. Unit {0}) events
  All-Unit [] = tt
  All-Unit (e ∷ events) = (tt, All-Unit events)

  -- After events that the callback has taken without an exception, the store has, for each pair and each
  -- interval, the candlestick that the last of them brought, or the one from before if none brought any.
  -- An event brings one if it is a candlestick event of the pair whose payload can be read and has the
  -- interval.
  pub store_refines_latest :
      (pair : Text) (interval : CandleInterval) (events : List (Event library))
      (s t : Store library)
      → each (on_event library) events s ≡ done t
      → find_candlestick library pair interval t
        ≡ latest_candlestick pair interval events (find_candlestick library pair interval s)
  unfolding latest_candlestick
  store_refines_latest pair interval events s t =
      each-after_all (on_event library) (find_candlestick library pair interval)
        (λ e. or_else (candlestick_in pair interval e)) (λ e. Unit {0})
        (λ e u v good. on_event-find pair interval e u v) events s t (All-Unit events)
