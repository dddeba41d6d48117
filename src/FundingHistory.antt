-- ===== src/FundingHistory.antt =====
-- The pagination of `MEXCFuturesExchangeConnector::getHistoricalFundingRates` of
-- src/mexc_futures_exchange_connector.cpp, over any type of rates and any way to fetch a page.
pub mod Complete
mod Tests
use mexc_cpp_api.Base.{
  ℕ, zero, suc, Bool, true, false, ◌&&◌, ◌||◌, List, [], ◌∷◌, ◌++◌, map, filter, is_empty, last_or,
  Option, none, some, Outcome, ok, throw, fault,
}
use mexc_cpp_api.Base.Int.{ℤ, pos, ltb_ℤ, leb_ℤ}

-- What the loop uses of `HistoricalFundingRates`.
pub record Page (R : Type 0) : Type 0 where
  pub result_list : List R
  pub total_page : ℤ

module _ {R : Type 0} (settle_time : R → ℤ) (start_time end_time : ℤ) where
  -- The filter by time.
  abbrev pub in_range : R → Bool
  in_range rate = leb_ℤ start_time (settle_time rate) && leb_ℤ (settle_time rate) end_time

  -- `!list.empty() && list.back().settleTime < startTime`.
  abbrev pub ends_before : List R → Bool
  ends_before [] = false
  ends_before (rate ∷ rates) = ltb_ℤ (settle_time (last_or rate rates)) start_time

  -- Whether the loop goes on behind a page.
  abbrev pub is_last : ℕ → Page R → Bool
  is_last page_num page =
      (leb_ℤ page.total_page (pos page_num) || is_empty page.result_list)
      || ends_before page.result_list

module _ {R F : Type 0} (settle_time : R → ℤ) (convert : R → F) (start_time end_time : ℤ) where
  abbrev pub collect : List F → List R → List F
  collect ret_val rates =
      ret_val ++ map convert (filter (in_range settle_time start_time end_time) rates)

module _ {W F : Type 0} where
  -- The result behind the sort.
  abbrev pub sorted_by :
      (List F → List F) → Option (Outcome (List F) × W) → Option (Outcome (List F) × W)
  sorted_by sort none = none
  sorted_by sort (some (ok rates, w)) = some (ok (sort rates), w)
  sorted_by sort (some (throw e, w)) = some (throw e, w)
  sorted_by sort (some (fault, w)) = some (fault, w)

module _ {W R F : Type 0} (settle_time : R → ℤ) (convert : R → F) (start_time end_time : ℤ) where
  -- What follows the fetch of a page; `rest` is the loop from the next page on.
  abbrev pub turn :
      ℕ
      → List F
      → (List F → W → Option (Outcome (List F) × W))
      → Outcome (Page R) × W
      → Option (Outcome (List F) × W)
  turn page_num ret_val rest (ok page, w) =
      elim (is_last settle_time start_time end_time page_num page) [
        | true ↦
            some (ok (collect settle_time convert start_time end_time ret_val page.result_list), w)
        | false ↦ rest (collect settle_time convert start_time end_time ret_val page.result_list) w
      ]
  turn page_num ret_val rest (throw e, w) = some (throw e, w)
  turn page_num ret_val rest (fault, w) = some (fault, w)

  -- The loop from page `page_num` on; `none` is that the fuel, the number of pages, has run out.
  pub rates_from :
      ℕ → (ℕ → W → Outcome (Page R) × W) → ℕ → List F → W → Option (Outcome (List F) × W)
  rates_from zero fetch page_num ret_val w = none
  rates_from (suc fuel) fetch page_num ret_val w =
      turn page_num ret_val (rates_from fuel fetch (suc page_num)) (fetch page_num w)

  -- `std::ranges::sort` is `sort`.
  unfoldable pub get_historical_funding_rates :
      ℕ → (List F → List F) → (ℕ → W → Outcome (Page R) × W) → W → Option (Outcome (List F) × W)
  get_historical_funding_rates fuel sort fetch w = sorted_by sort (rates_from fuel fetch 1 [] w)
