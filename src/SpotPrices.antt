-- ===== src/SpotPrices.antt =====
-- The pagination of `RESTClient::getHistoricalPrices` of src/mexc_spot_rest_client.cpp, over any type of
-- candles and any way to fetch a page.
pub mod Ends
pub mod Gaps
mod Tests
use mexc_cpp_api.Base.{
  ℕ, zero, suc, Bool, true, false, List, [], ◌∷◌, ◌++◌, Option, none, some, Outcome, ok,
  if◌then◌else◌,
}
use mexc_cpp_api.Base.Int.{ℤ, pos, scale, ◌-ℤ◌, ltb_ℤ, leb_ℤ, max_ℤ}
use mexc_cpp_api.FuturesPrices.{with_page, write}

-- Candles to a page.
abbrev pub limit : ℕ
limit = 1000

module _ (interval_ms : ℤ) where
  -- Where the first page starts: 0 stands for no start, where the range is long.
  abbrev pub first_start : ℤ → ℤ → ℤ
  first_start start_time end_time =
      if ltb_ℤ (scale interval_ms limit) (end_time -ℤ start_time) then pos 0 else start_time

  -- Where a later page starts.
  abbrev pub batch_start : ℤ → ℤ → ℤ
  batch_start start_time current_end_time =
      max_ℤ start_time (current_end_time -ℤ scale interval_ms limit)

module _ {W C : Type 0} (open_time : C → ℤ) (interval_ms : ℤ)
    (fetch : ℤ → ℤ → W → Outcome (List C) × W) (writer : Option (List C → W → W)) where
  -- The loop; the fuel is the number of rounds.
  pub pages : ℕ → ℤ → List C → List C → W → Option (Outcome (List C) × W)
  pages fuel start_time ret_val [] w = some (ok ret_val, w)
  pages zero start_time ret_val (c ∷ cs) w = none
  pages (suc fuel) start_time ret_val (c ∷ cs) w =
      let current_end_time = open_time c -ℤ interval_ms in
      let w' = write writer (c ∷ cs) w in
      elim (leb_ℤ start_time current_end_time) [
        | true ↦
            with_page
              (fetch (batch_start interval_ms start_time current_end_time) current_end_time w')
              (pages fuel start_time ((c ∷ cs) ++ ret_val))
        | false ↦ some (ok ((c ∷ cs) ++ ret_val), w')
      ]

  unfoldable pub get_historical_prices : ℕ → ℤ → ℤ → W → Option (Outcome (List C) × W)
  get_historical_prices fuel start_time end_time w = elim (leb_ℤ start_time end_time) [
    | true ↦
        with_page (fetch (first_start interval_ms start_time end_time) end_time w)
          (pages fuel start_time [])
    | false ↦ some (ok [], w)
  ]
