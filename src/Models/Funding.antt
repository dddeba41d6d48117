-- ===== src/Models/Funding.antt =====
-- The funding rates of include/vk/mexc/mexc_models.h and src/mexc_models.cpp.
use mexc_cpp_api.Base.{
  List, [], ◌∷◌, ◌++◌, Step, done, Mutate, ◌>>◌, within, local, each, if◌then◌else◌, Outcome,
}
use mexc_cpp_api.Base.Text.{Text}
use mexc_cpp_api.Base.Int.{ℤ, pos}
use mexc_cpp_api.External.{Library}
use mexc_cpp_api.External.Reading.{int32_member, text_member, int_member, decimal_member}
use mexc_cpp_api.Models.Futures.{Response, fresh_response, response_from_json}

module _ (library : Library) where
  open library use {
    Json, Decimal, null_json, contains, at_key, is_array, elements, set_key, zero_decimal,
  }

  pub record FundingRate : Type 0 where
    pub response : Response library
    pub symbol : Text
    pub funding_rate : Decimal
    pub max_funding_rate : Decimal
    pub min_funding_rate : Decimal
    pub collect_cycle : ℤ
    pub next_settle_time : ℤ
    pub timestamp : ℤ

  abbrev pub fresh_funding_rate : FundingRate
  fresh_funding_rate = record {
    response = fresh_response library;
    symbol = [];
    funding_rate = zero_decimal;
    max_funding_rate = zero_decimal;
    min_funding_rate = zero_decimal;
    collect_cycle = pos 0;
    next_settle_time = pos 0;
    timestamp = pos 0;
  }

  -- The members that are read from `data`.
  funding_rate_members : Json → Mutate FundingRate
  funding_rate_members json = do
    text_member library json "symbol" (λ s. s.symbol) (λ v s. record s { symbol = v })
    decimal_member library json "fundingRate" (λ v s. record s { funding_rate = v })
    decimal_member library json "maxFundingRate" (λ v s. record s { max_funding_rate = v })
    decimal_member library json "minFundingRate" (λ v s. record s { min_funding_rate = v })
    int32_member library json "collectCycle" (λ s. s.collect_cycle)
        (λ v s. record s { collect_cycle = v })
    int_member library json "nextSettleTime" (λ s. s.next_settle_time)
        (λ v s. record s { next_settle_time = v })
    int_member library json "timestamp" (λ s. s.timestamp) (λ v s. record s { timestamp = v })

  unfoldable pub funding_rate_from_json : Json → Mutate FundingRate
  unfolding funding_rate_members
  funding_rate_from_json json = do
    within (λ s. s.response) (λ r s. record s { response = r }) (response_from_json library json)
    λ s. funding_rate_members s.response.payload s

  pub record FundingRates : Type 0 where
    pub response : Response library
    pub funding_rates : List FundingRate

  abbrev pub fresh_funding_rates : FundingRates
  fresh_funding_rates = record { response = fresh_response library; funding_rates = [] }

  -- One round of the loop: the element is wrapped as the `data` of an object of its own.
  funding_rate_item : Json → Mutate FundingRates
  funding_rate_item el =
      local fresh_funding_rate (funding_rate_from_json (set_key "data" el null_json))
        (λ v s. record s { funding_rates = s.funding_rates ++ (v ∷ []) })

  unfoldable pub funding_rates_from_json : Json → Mutate FundingRates
  unfolding funding_rate_item
  funding_rates_from_json json = do
    within (λ s. s.response) (λ r s. record s { response = r }) (response_from_json library json)
    λ s. each funding_rate_item (elements s.response.payload) s

  pub record HistoricalFundingRate : Type 0 where
    pub symbol : Text
    pub funding_rate : Decimal
    pub settle_time : ℤ

  abbrev pub fresh_historical_rate : HistoricalFundingRate
  fresh_historical_rate = record { symbol = []; funding_rate = zero_decimal; settle_time = pos 0 }

  unfoldable pub historical_rate_from_json : Json → Mutate HistoricalFundingRate
  historical_rate_from_json json = do
    text_member library json "symbol" (λ s. s.symbol) (λ v s. record s { symbol = v })
    decimal_member library json "fundingRate" (λ v s. record s { funding_rate = v })
    int_member library json "settleTime" (λ s. s.settle_time) (λ v s. record s { settle_time = v })

  pub record HistoricalFundingRates : Type 0 where
    pub response : Response library
    pub page_size : ℤ
    pub total_count : ℤ
    pub total_page : ℤ
    pub current_page : ℤ
    pub result_list : List HistoricalFundingRate

  abbrev pub fresh_historical_rates : HistoricalFundingRates
  fresh_historical_rates = record {
    response = fresh_response library;
    page_size = pos 0;
    total_count = pos 0;
    total_page = pos 0;
    current_page = pos 0;
    result_list = [];
  }

  historical_rate_item : Json → Mutate HistoricalFundingRates
  historical_rate_item item =
      local fresh_historical_rate (historical_rate_from_json item)
        (λ v s. record s { result_list = s.result_list ++ (v ∷ []) })

  -- The loop over `data["resultList"]`, where that is an array.
  historical_rate_items : Json → Mutate HistoricalFundingRates
  unfolding historical_rate_item
  historical_rate_items json s =
      if contains json "resultList"
      then elim (at_key json "resultList") [
        | Outcome.ok list ↦
            if is_array list then each historical_rate_item (elements list) s else done s
        | Outcome.throw e ↦ Step.threw e s
        | Outcome.fault ↦ Step.faulted
      ]
      else done s

  unfoldable pub historical_rates_from_json : Json → Mutate HistoricalFundingRates
  unfolding historical_rate_items
  historical_rates_from_json json = do
    within (λ s. s.response) (λ r s. record s { response = r }) (response_from_json library json)
    λ s.
        (do
          int32_member library s.response.payload "pageSize" (λ t. t.page_size)
              (λ v t. record t { page_size = v })
          int32_member library s.response.payload "totalCount" (λ t. t.total_count)
              (λ v t. record t { total_count = v })
          int32_member library s.response.payload "totalPage" (λ t. t.total_page)
              (λ v t. record t { total_page = v })
          int32_member library s.response.payload "currentPage" (λ t. t.current_page)
              (λ v t. record t { current_page = v })
          historical_rate_items s.response.payload)
          s
