-- ===== src/FuturesPrices.antt =====
-- The pagination of `RESTClient::getHistoricalPrices` of src/mexc_futures_rest_client.cpp, over any
-- type of candles and any way to fetch a page.
pub mod Complete
pub mod Ends
mod Tests
use mexc_cpp_api.Base.{
  ℕ, zero, suc, Bool, true, false, List, [], ◌∷◌, ◌++◌, Option, none, some, Outcome, ok, throw,
  fault, drop_last,
}
use mexc_cpp_api.Base.Int.{ℤ, pos, quot, ◌-ℤ◌, ltb_ℤ}

module _ {W C : Type 0} where
  -- A page that was fetched is handed on; a failure ends the download.
  abbrev pub with_page :
      Outcome (List C) × W
      → (List C → W → Option (Outcome (List C) × W))
      → Option (Outcome (List C) × W)
  with_page (ok candles, w) k = k candles w
  with_page (throw e, w) k = some (throw e, w)
  with_page (fault, w) k = some (fault, w)

  -- `if (writer) writer(candles)`.
  abbrev pub write : Option (List C → W → W) → List C → W → W
  write none candles w = w
  write (some writer) candles w = writer candles w

  -- The newest candle is dropped at the end.
  abbrev pub without_newest : Option (Outcome (List C) × W) → Option (Outcome (List C) × W)
  without_newest none = none
  without_newest (some (ok candles, w)) = some (ok (drop_last candles), w)
  without_newest (some (throw e, w)) = some (throw e, w)
  without_newest (some (fault, w)) = some (fault, w)

module _ {W C : Type 0} (open_time : C → ℤ) (fetch : ℤ → ℤ → W → Outcome (List C) × W)
    (writer : Option (List C → W → W)) where
  -- The loop, with `ret_val` as collected so far and the page that was fetched last; `none` is that
  -- the fuel, the number of rounds, has run out.
  pub pages : ℕ → ℤ → List C → List C → W → Option (Outcome (List C) × W)
  pages fuel start_time ret_val [] w = some (ok ret_val, w)
  pages zero start_time ret_val (c ∷ cs) w = none
  pages (suc fuel) start_time ret_val (c ∷ cs) w =
      let current_end_time = quot (open_time c) 1000 -ℤ pos 1 in
      let w' = write writer (c ∷ cs) w in
      elim (ltb_ℤ start_time current_end_time) [
        | true ↦
            with_page (fetch start_time current_end_time w')
              (pages fuel start_time ((c ∷ cs) ++ ret_val))
        | false ↦ some (ok ((c ∷ cs) ++ ret_val), w')
      ]

  unfoldable pub get_historical_prices : ℕ → ℤ → ℤ → W → Option (Outcome (List C) × W)
  get_historical_prices fuel start_time end_time w =
      without_newest (elim (ltb_ℤ start_time end_time) [
        | true ↦ with_page (fetch start_time end_time w) (pages fuel start_time [])
        | false ↦ some (ok [], w)
      ])
