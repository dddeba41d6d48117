-- ===== src/StreamManager/Callback.antt =====
-- The callback of src/mexc_ws_stream_manager.cpp taken apart: its three ways, and what the `catch` leaves.
use mexc_cpp_api.Base.{
  ◌≡◌, Bool, true, false, ◌&&◌, not, Step, done, threw, faulted, arith, if◌then◌else◌,
}
use mexc_cpp_api.Base.Effects.{done-injective}
use mexc_cpp_api.Base.Text.{codes, contains_text}
use mexc_cpp_api.External.{Library}
use mexc_cpp_api.Models.Events.{Event}
use mexc_cpp_api.Session.Steps.{Lands}
use mexc_cpp_api.StreamManager.{Store, logged, on_ticker, on_candlestick, on_event}

module _ (library : Library) where
  abbrev pub is_ticker : Event library → Bool
  is_ticker e = contains_text (codes "push.ticker") e.channel

  abbrev pub is_candlestick : Event library → Bool
  is_candlestick e = not (is_ticker e) && contains_text (codes "push.kline") e.channel

  pub logged-Lands :
      (x : Step (Store library)) (t : Store library) → logged library x ≡ done t → Lands x t
  unfolding logged
  logged-Lands (done s) t h = done-injective h
  logged-Lands (threw e s) t h = ground (arith, h)
  logged-Lands faulted t h = cc

  -- The three ways through the callback.
  pub on_event-cases {ℓ} :
      (P : Bool → Bool → Step (Store library) → Type ℓ) (e : Event library) (s : Store library)
      → ((b : Bool) → P true b (logged library (on_ticker library e s)))
      → P false true (logged library (on_candlestick library e s))
      → P false false (done s)
      → P (is_ticker e) (contains_text (codes "push.kline") e.channel) (on_event library e s)
  unfolding on_event
  on_event-cases P e s ticker candlestick other =
      cases (is_ticker e) (contains_text (codes "push.kline") e.channel)
    where
      cases :
          (a b : Bool)
          → P a b (
              if a
              then logged library (on_ticker library e s)
              else if b
              then logged library (on_candlestick library e s)
              else done s)
      cases true b = ticker b
      cases false true = candlestick
      cases false false = other
