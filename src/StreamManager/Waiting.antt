-- ===== src/StreamManager/Waiting.antt =====
-- How long `readEventTicker` and `readEventCandlestick` of src/mexc_ws_stream_manager.cpp wait, and for what.
use mexc_cpp_api.Base.{
  ok, ◌*◌, ◌≡◌, refl, sym, ap, ◌∙◌, subst, ℕ, zero, suc, ◌+◌, ◌≤◌, ◌<◌, arith, ◌⊎◌, inl, inr, false,
  Option, none, some,
}
use mexc_cpp_api.Base.Int.{pos, eqb_ℤ, scale}
use mexc_cpp_api.Base.Text.{Text}
use mexc_cpp_api.Enums.{CandleInterval}
use mexc_cpp_api.External.{Library}
use mexc_cpp_api.Models.Events.{EventTicker, EventCandlestick}
use mexc_cpp_api.StreamManager.{
  max_num_tries, read_with, find_ticker, find_candlestick, read_event_ticker,
  read_event_candlestick, Store, poll,
}

module _ (library : Library) {A : Type 0} (find : Store library → Option A)
    (states : ℕ → Store library) where
  -- Nothing sets the timeout to 0 up to round `n`.
  abbrev Lasts : ℕ → Type 0
  Lasts n = (j : ℕ) → j ≤ n → eqb_ℤ (states j).timeout (pos 0) ≡ false

  poll-step :
      (left i : ℕ)
      → eqb_ℤ (states i).timeout (pos 0) ≡ false
      → find (states i) ≡ none
      → poll library find (suc left) i states ≡ poll library find left (suc i) states
  unfolding poll
  poll-step left i lasts absent = rw (lasts) (rw (absent, poll) refl)

  le_cases : (i n : ℕ) → i ≤ n → (i ≡ n) ⊎ (i < n)
  le_cases i n h = grind arith

  poll-finds :
      (left i n : ℕ) (v : A)
      → ((j : ℕ) → j < n → find (states j) ≡ none)
      → Lasts n
      → find (states n) ≡ some v
      → i ≤ n
      → n < i + left
      → poll library find left i states ≡ (some v, n)
  unfolding poll
  poll-finds zero i n v absent lasts found above below = absurd (omega arith)
  poll-finds (suc left) i n v absent lasts found above below = elim (le_cases i n above) [
    | inl e ↦
        subst (λ j. poll library find (suc left) j states ≡ (some v, n)) (sym e)
          (rw (lasts n (omega arith)) (rw (found, poll) refl))
    | inr lt ↦
        poll-step left i (lasts i (omega arith)) (absent i lt)
        ∙ poll-finds left (suc i) n v absent lasts found (omega arith) (omega arith)
  ]

  poll-misses :
      (left i : ℕ)
      → ((j : ℕ) → j < i + left → find (states j) ≡ none)
      → ((j : ℕ) → j < i + left → eqb_ℤ (states j).timeout (pos 0) ≡ false)
      → poll library find left i states ≡ (none, i + left)
  unfolding poll
  poll-misses zero i absent lasts = ap (λ k. (none, k)) (omega arith)
  poll-misses (suc left) i absent lasts =
      poll-step left i (lasts i (omega arith)) (absent i (omega arith))
      ∙ poll-misses left (suc i) (λ j h. absent j (omega arith)) (λ j h. lasts j (omega arith))
      ∙ ap (λ k. (none, k)) (omega arith)

  poll-bound : (left i : ℕ) → (poll library find left i states).1 ≤ i + left
  unfolding poll
  poll-bound zero i = omega arith
  poll-bound (suc left) i = ground (arith, poll-bound left (suc i))

max_num_tries-fits : (t : ℕ) → 100 * t ≤ 2147483647 → max_num_tries (pos t) ≡ ok (pos (100 * t))
unfolding max_num_tries scale
max_num_tries-fits t h = ground arith

module _ (library : Library) (states : ℕ → Store library) (t : ℕ)
    (starts : (states 0).timeout ≡ pos t) (fits : 100 * t ≤ 2147483647) where
  read_with-ok :
      {A : Type 0} (find : Store library → Option A)
      → read_with library find states ≡ ok (poll library find (suc (100 * t)) 0 states)
  read_with-ok find = rw (ap max_num_tries starts ∙ max_num_tries-fits t fits, read_with) refl

  -- Let the timeout be t s at the call, t not negative and the hundredfold of t an `int`. Whatever other
  -- threads do, both functions return, after at most 300 t + 3 ms of sleep.
  pub blocking_bound :
      (pair : Text) (interval : CandleInterval)
      → ((r : Option (EventTicker library) × ℕ) × (read_event_ticker library pair states ≡ ok r)
          × (3 * r.1 ≤ 300 * t + 3))
        × ((r : Option (EventCandlestick library) × ℕ) × (read_event_candlestick library pair
                interval states
              ≡ ok r)
            × (3 * r.1 ≤ 300 * t + 3))
  unfolding read_event_ticker read_event_candlestick
  blocking_bound pair interval = (
    (
      _,
      read_with-ok (find_ticker library pair),
      omega (arith, poll-bound library (find_ticker library pair) states (suc (100 * t)) 0),
    ),
    (
      _,
      read_with-ok (find_candlestick library pair interval),
      omega (
        arith,
        poll-bound library (find_candlestick library pair interval) states (suc (100 * t)) 0,
      ),
    ),
  )

  -- Let the timeout be t s at the call, as above. If the candlestick is first in the store in round n, with
  -- n at most 100 t, and the timeout is not set to 0 up to then, `readEventCandlestick` returns it, after n
  -- sleeps.
  pub candlestick_arrives :
      (pair : Text) (interval : CandleInterval) (n : ℕ) (c : EventCandlestick library)
      → ((j : ℕ) → j < n → find_candlestick library pair interval (states j) ≡ none)
      → find_candlestick library pair interval (states n) ≡ some c
      → ((j : ℕ) → j ≤ n → eqb_ℤ (states j).timeout (pos 0) ≡ false)
      → n ≤ 100 * t
      → read_event_candlestick library pair interval states ≡ ok (some c, n)
  unfolding read_event_candlestick
  candlestick_arrives pair interval n c absent found lasts le =
      let find = find_candlestick library pair interval in
      read_with-ok find
      ∙ ap ok (
          poll-finds library find states (suc (100 * t)) 0 n c absent lasts found (omega arith)
            (omega arith))

  -- Let the timeout be t s at the call, as above. If the ticker is never in the store and the timeout is
  -- never set to 0, `readEventTicker` returns nothing after exactly 100 t + 1 sleeps of 3 ms.
  pub ticker_times_out :
      (pair : Text)
      → ((j : ℕ) → j ≤ 100 * t → find_ticker library pair (states j) ≡ none)
      → ((j : ℕ) → j ≤ 100 * t → eqb_ℤ (states j).timeout (pos 0) ≡ false)
      → read_event_ticker library pair states ≡ ok (none, 100 * t + 1)
  unfolding read_event_ticker
  ticker_times_out pair absent lasts =
      let find = find_ticker library pair in
      read_with-ok find
      ∙ ap ok (
          poll-misses library find states (suc (100 * t)) 0 (λ j h. absent j (omega arith))
            (λ j h. lasts j (omega arith))
          ∙ ap (λ k. (none, k)) (omega arith))
