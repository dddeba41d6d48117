-- ===== src/StreamManager/Tickers.antt =====
-- What the callback of src/mexc_ws_stream_manager.cpp makes of the tickers, described for one pair at a time.
use mexc_cpp_api.Base.{
  ◌≡◌, refl, sym, ap, ◌∙◌, inl, inr, Bool, true, false, Bool-cases, List, Option, none, some, Step,
  done, threw, faulted, next, each, All, if◌then◌else◌,
}
use mexc_cpp_api.Base.Effects.{after_all, each-after_all, done-injective}
use mexc_cpp_api.Base.Text.{Text, text_eq, text_eq_iff}
use mexc_cpp_api.Base.StringMap.{StringMap, lookup, insert_or_assign, lookup-insert_or_assign}
use mexc_cpp_api.External.{Library}
use mexc_cpp_api.Models.Events.{
  Event, EventTicker, fresh_event_ticker, event_ticker_from_json, EventCandlestick,
  fresh_event_candlestick, event_candlestick_from_json,
}
use mexc_cpp_api.Session.Steps.{Lands}
use mexc_cpp_api.StreamManager.{Store, on_ticker, on_candlestick, on_event, find_ticker}
use mexc_cpp_api.StreamManager.Callback.{on_event-cases, is_ticker, logged-Lands}
use mexc_cpp_api.StreamManager.Contents.{storing}

-- What is at a key is changed, and nothing else.
at_key_only {ℓ} :
    {V : Type ℓ} (pair symbol : Text) (m : StringMap V) (found : Option V)
    (value : Option V → Option V)
    → lookup symbol m ≡ found
    → (if text_eq symbol pair then value found else lookup pair m)
      ≡ (if text_eq symbol pair then value (lookup pair m) else lookup pair m)
at_key_only pair symbol m found value e = elim (Bool-cases (text_eq symbol pair)) [
  | inl same ↦ rw same (ap value (sym e ∙ ap (λ k. lookup k m) ((text_eq_iff symbol pair).0 same)))
  | inr other ↦ rw other refl
]

either {ℓ} : {A : Type ℓ} (b : Bool) (a : A) → (if b then a else a) ≡ a
either true a = refl
either false a = refl

module _ (library : Library) where
  -- A ticker that has been filled from a payload, half of it if the payload cannot be read.
  abbrev filled : EventTicker library → Step (EventTicker library) → EventTicker library
  filled old (done t) = t
  filled old (threw e t) = t
  filled old faulted = old

  abbrev made : Step (EventTicker library) → Option (EventTicker library)
  made (done t) = some t
  made _ = none

  abbrev refreshed :
      (EventTicker library → Step (EventTicker library))
      → Option (EventTicker library)
      → Option (EventTicker library)
  refreshed fill none = made (fill (fresh_event_ticker library))
  refreshed fill (some t) = some (filled t (fill t))

  -- One cell, which each ticker event of the pair makes or refreshes.
  abbrev pub cell_after :
      Text → Event library → Option (EventTicker library) → Option (EventTicker library)
  cell_after pair e cell =
      if is_ticker library e
      then (if text_eq e.symbol pair
          then refreshed (event_ticker_from_json library e.payload) cell
          else cell)
      else cell

  unfoldable pub cell_after_all :
      Text → List (Event library) → Option (EventTicker library) → Option (EventTicker library)
  cell_after_all pair = after_all (cell_after pair)

  -- A payload that can be read has the symbol of its event.
  abbrev IsNamedBy : Text → Step (EventTicker library) → Type 0
  IsNamedBy symbol (done t) = t.symbol ≡ symbol
  IsNamedBy symbol _ = Unit

  abbrev pub IsNamed : Event library → Type 0
  IsNamed e =
      IsNamedBy e.symbol (event_ticker_from_json library e.payload (fresh_event_ticker library))

  abbrev assigned : Text → EventTicker library → Store library → Store library
  assigned symbol t s = record s { tickers = insert_or_assign symbol t s.tickers }

  new_ticker :
      (pair symbol : Text) (x : Step (EventTicker library)) (s t : Store library)
      → IsNamedBy symbol x
      → Lands (next x (λ u. done (assigned u.symbol u s)) (λ u. s)) t
      → lookup symbol s.tickers ≡ none
      → lookup pair t.tickers ≡ (if text_eq symbol pair then made x else lookup pair s.tickers)
  new_ticker pair symbol (done u) s t named h e =
      ap (λ (v : Store library). lookup pair v.tickers) (sym h)
      ∙ lookup-insert_or_assign u.symbol pair u s.tickers
      ∙ ap (λ k. if text_eq k pair then some u else lookup pair s.tickers) named
  new_ticker pair symbol (threw x u) s t named h e =
      ap (λ (v : Store library). lookup pair v.tickers) (sym h)
      ∙ sym (
          at_key_only pair symbol s.tickers none (λ o. o) e
          ∙ either (text_eq symbol pair) (lookup pair s.tickers))
  new_ticker pair symbol faulted s t named h e = absurd h

  known_ticker :
      (pair symbol : Text) (old : EventTicker library) (x : Step (EventTicker library))
      (s t : Store library)
      → Lands (next x (λ u. done (assigned symbol u s)) (λ u. assigned symbol u s)) t
      → lookup pair t.tickers
        ≡ (if text_eq symbol pair then some (filled old x) else lookup pair s.tickers)
  known_ticker pair symbol old (done u) s t h =
      ap (λ (v : Store library). lookup pair v.tickers) (sym h)
      ∙ lookup-insert_or_assign symbol pair u s.tickers
  known_ticker pair symbol old (threw e u) s t h =
      ap (λ (v : Store library). lookup pair v.tickers) (sym h)
      ∙ lookup-insert_or_assign symbol pair u s.tickers
  known_ticker pair symbol old faulted s t h = absurd h

  on_ticker-cell :
      (pair : Text) (e : Event library) (s t : Store library)
      → IsNamed e
      → Lands (on_ticker library e s) t
      → lookup pair t.tickers ≡ (
          if text_eq e.symbol pair
          then refreshed (event_ticker_from_json library e.payload) (lookup pair s.tickers)
          else lookup pair s.tickers)
  unfolding on_ticker
  on_ticker-cell pair e s t named h = known (lookup e.symbol s.tickers) refl h
    where
      fill : EventTicker library → Step (EventTicker library)
      fill = event_ticker_from_json library e.payload

      known :
          (found : Option (EventTicker library))
          → lookup e.symbol s.tickers ≡ found
          → Lands
              (elim found [
                | none ↦
                    next
                      (fill (fresh_event_ticker library))
                      (λ u. done (assigned u.symbol u s))
                      (λ u. s)
                | some old ↦
                    next (fill old) (λ u. done (assigned e.symbol u s)) (λ u. assigned e.symbol u s)
              ])
              t
          → lookup pair t.tickers ≡ (
              if text_eq e.symbol pair
              then refreshed fill (lookup pair s.tickers)
              else lookup pair s.tickers)
      known none k g =
          new_ticker pair e.symbol (fill (fresh_event_ticker library)) s t named g k
          ∙ at_key_only pair e.symbol s.tickers none (refreshed fill) k
      known (some old) k g =
          known_ticker pair e.symbol old (fill old) s t g
          ∙ at_key_only pair e.symbol s.tickers (some old) (refreshed fill) k

  on_candlestick-tickers :
      (e : Event library) (s t : Store library)
      → Lands (on_candlestick library e s) t
      → t.tickers ≡ s.tickers
  unfolding on_candlestick
  on_candlestick-tickers e s t h =
      known (event_candlestick_from_json library e.payload (fresh_event_candlestick library)) h
    where
      known :
          (x : Step (EventCandlestick library))
          → Lands (next x (λ c. done (storing library e.symbol c s)) (λ c. s)) t
          → t.tickers ≡ s.tickers
      known (done c) g = ap (λ (v : Store library). v.tickers) (sym g)
      known (threw x c) g = ap (λ (v : Store library). v.tickers) (sym g)
      known faulted g = absurd g

  on_event-cell :
      (pair : Text) (e : Event library) (s t : Store library)
      → IsNamed e
      → on_event library e s ≡ done t
      → lookup pair t.tickers ≡ cell_after pair e (lookup pair s.tickers)
  on_event-cell pair e s t named =
      on_event-cases library
        (λ a b x.
          x ≡ done t
          → lookup pair t.tickers ≡ (
              if a
              then (if text_eq e.symbol pair
                  then refreshed (event_ticker_from_json library e.payload) (lookup pair s.tickers)
                  else lookup pair s.tickers)
              else lookup pair s.tickers))
        e s
        (λ b g. on_ticker-cell pair e s t named (logged-Lands library (on_ticker library e s) t g))
        (λ g.
          ap (lookup pair)
            (on_candlestick-tickers e s t (logged-Lands library (on_candlestick library e s) t g)))
        (λ g. ap (λ (v : Store library). lookup pair v.tickers) (sym (done-injective g)))

  -- Let each payload that can be read have the symbol of its event. After events that the callback has
  -- taken without an exception, each pair has the ticker of a cell of its own: the ticker events of the
  -- pair fill it, from a fresh one if there is none, where a payload that cannot be read makes no new
  -- ticker but leaves a known one half filled; all other events leave it.
  pub tickers_refine_cells :
      (pair : Text) (events : List (Event library)) (s t : Store library)
      → All IsNamed events
      → each (on_event library) events s ≡ done t
      → find_ticker library pair t ≡ cell_after_all pair events (find_ticker library pair s)
  unfolding cell_after_all
  tickers_refine_cells pair =
      each-after_all (on_event library) (find_ticker library pair) (cell_after pair) IsNamed
        (λ e s t. on_event-cell pair e s t)
