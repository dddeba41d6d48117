-- ===== src/Models/Candles.antt =====
-- `futures::Candle` and `Candles` of include/vk/mexc/mexc_models.h and src/mexc_models.cpp.
pub mod Cells
pub mod Rows
use mexc_cpp_api.Base.{
  ℕ, Bool, List, [], ◌∷◌, ◌++◌, Step, Outcome, done, Mutate, ◌>>=◌, ◌>>◌, assign, within, local,
  each, range_from, ◌==◌, if◌then◌else◌,
}
use mexc_cpp_api.Base.Int.{ℤ, pos, scale, fits_int64}
use mexc_cpp_api.External.{Library}
use mexc_cpp_api.Models.Futures.{Response, fresh_response, response_from_json}

module _ (library : Library) where
  open library use {
    Json, Decimal, contains, at_key, at_index, at_key_or_null, size, get_int, get_double,
    double_to_string, decimal_of_text, zero_decimal,
  }

  pub record Candle : Type 0 where
    pub open_time : ℤ
    pub open_price : Decimal
    pub high : Decimal
    pub low : Decimal
    pub close_price : Decimal
    pub volume : Decimal
    pub amount : Decimal

  abbrev pub fresh_candle : Candle
  fresh_candle = record {
    open_time = pos 0;
    open_price = zero_decimal;
    high = zero_decimal;
    low = zero_decimal;
    close_price = zero_decimal;
    volume = zero_decimal;
    amount = zero_decimal;
  }

  -- `times[i].get<std::int64_t>() * 1000`, which is undefined where it leaves `int64_t`.
  unfoldable pub ms_at : Json → ℕ → Outcome ℤ
  ms_at json i = at_index json i >>= λ v. get_int v >>= λ n.
      if fits_int64 (scale n 1000) then Outcome.ok (scale n 1000) else Outcome.fault

  -- `assign(std::to_string(column[i].get<double>()))`.
  unfoldable pub decimal_at : Json → ℕ → Outcome Decimal
  decimal_at json i =
      at_index json i >>= λ v. get_double v >>= λ d. decimal_of_text (double_to_string d)

  -- The arrays of `data`, one for each member of a candle.
  pub record Columns : Type 0 where
    pub times : Json
    pub opens : Json
    pub highs : Json
    pub lows : Json
    pub closes : Json
    pub vols : Json
    pub amounts : Json

  unfoldable pub columns_of : Json → Outcome Columns
  columns_of json = do
    times ← at_key_or_null json "time"
    opens ← at_key_or_null json "open"
    highs ← at_key_or_null json "high"
    lows ← at_key_or_null json "low"
    closes ← at_key_or_null json "close"
    vols ← at_key_or_null json "vol"
    amounts ← at_key_or_null json "amount"
    Outcome.ok (record {
      times = times;
      opens = opens;
      highs = highs;
      lows = lows;
      closes = closes;
      vols = vols;
      amounts = amounts;
    })

  -- The candle with index `i`.
  unfoldable pub candle_at : Columns → ℕ → Mutate Candle
  unfolding ms_at decimal_at
  candle_at columns i = do
    assign (ms_at columns.times i) (λ v s. record s { open_time = v })
    assign (decimal_at columns.opens i) (λ v s. record s { open_price = v })
    assign (decimal_at columns.highs i) (λ v s. record s { high = v })
    assign (decimal_at columns.lows i) (λ v s. record s { low = v })
    assign (decimal_at columns.closes i) (λ v s. record s { close_price = v })
    assign (decimal_at columns.vols i) (λ v s. record s { volume = v })
    assign (decimal_at columns.amounts i) (λ v s. record s { amount = v })

  pub record Candles : Type 0 where
    pub response : Response library
    pub candles : List Candle

  abbrev pub fresh_candles : Candles
  fresh_candles = record { response = fresh_response library; candles = [] }

  unfoldable pub candle_item : Columns → ℕ → Mutate Candles
  candle_item columns i =
      local fresh_candle (candle_at columns i) (λ v s. record s { candles = s.candles ++ (v ∷ []) })

  unfoldable pub fill : Outcome Columns → Mutate Candles
  fill (Outcome.ok columns) s = each (candle_item columns) (range_from 0 (size columns.times)) s
  fill (Outcome.throw e) s = Step.threw e s
  fill Outcome.fault s = Step.faulted

  -- What follows `Response::fromJson`: no `time`, or an empty one, is no candle.
  unfoldable pub candles_from_payload : Json → Mutate Candles
  unfolding fill
  candles_from_payload json s =
      if contains json "time"
      then elim (at_key json "time") [
        | Outcome.ok times ↦ if size times == 0 then done s else fill (columns_of json) s
        | Outcome.throw e ↦ Step.threw e s
        | Outcome.fault ↦ Step.faulted
      ]
      else done s

  unfoldable pub candles_from_json : Json → Mutate Candles
  candles_from_json json = do
    within (λ s. s.response) (λ r s. record s { response = r }) (response_from_json library json)
    λ s. candles_from_payload s.response.payload s
