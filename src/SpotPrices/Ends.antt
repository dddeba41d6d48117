-- ===== src/SpotPrices/Ends.antt =====
-- When `RESTClient::getHistoricalPrices` of src/mexc_spot_rest_client.cpp comes to an end, whatever
-- candles the server sends.
use mexc_cpp_api.Base.{
  ℕ, zero, suc, ◌+◌, ◌*◌, ◌<◌, ◌≡◌, refl, inl, inr, List, [], ◌∷◌, ◌++◌, Option, some, Outcome, ok,
  throw, fault, arith, Bool-cases, leb→le,
}
use mexc_cpp_api.Base.Int.{ℤ, pos, pos_part, neg_part, ◌-ℤ◌, leb_ℤ, ◌≤ℤ◌, int_laws}
use mexc_cpp_api.FuturesPrices.{with_page, write}
use mexc_cpp_api.SpotPrices.{pages, get_historical_prices}

module _ {W C : Type 0} (open_time : C → ℤ) (iv : ℕ) (fetch : ℤ → ℤ → W → Outcome (List C) × W)
    (writer : Option (List C → W → W)) where
  -- A page is empty, or no page at all, or begins with a candle that is no later than its end.
  abbrev pub OpensBy : ℤ → List C → Type 0
  OpensBy end_time [] = Unit
  OpensBy end_time (c ∷ cs) = open_time c ≤ℤ end_time

  abbrev pub PageOpensBy : ℤ → Outcome (List C) × W → Type 0
  PageOpensBy end_time (ok candles, w) = OpensBy end_time candles
  PageOpensBy end_time (throw e, w) = Unit
  PageOpensBy end_time (fault, w) = Unit

  abbrev Returns : Option (Outcome (List C) × W) → Type 0
  Returns r = (o : Outcome (List C) × W) × (r ≡ some o)

  with_page-Returns :
      (end_time : ℤ) (o : Outcome (List C) × W) (k : List C → W → Option (Outcome (List C) × W))
      → PageOpensBy end_time o
      → ((page : List C) (w : W) → OpensBy end_time page → Returns (k page w))
      → Returns (with_page o k)
  with_page-Returns end_time (fault, w) k t go = ((fault, w), refl)
  with_page-Returns end_time (throw e, w) k t go = ((throw e, w), refl)
  with_page-Returns end_time (ok page, w) k t go = go page w t

  -- The milliseconds from `start_time` up to `end_time` are fewer than `n` intervals have.
  abbrev pub Spans : ℕ → ℤ → ℤ → Type 0
  Spans n start_time end_time =
      pos_part end_time + neg_part start_time < n * iv + pos_part start_time + neg_part end_time

  module _ (start_time : ℤ)
      (opens_by : (from to : ℤ) (w : W) → PageOpensBy to (fetch from to w)) where
    pages_return :
        (fuel : ℕ) (end_time : ℤ) (ret_val page : List C) (w : W)
        → start_time ≤ℤ end_time
        → OpensBy end_time page
        → Spans fuel start_time end_time
        → Returns (pages open_time (pos iv) fetch writer fuel start_time ret_val page w)
    unfolding pages
    pages_return fuel end_time ret_val [] w h t f = (_, refl)
    pages_return zero end_time ret_val (c ∷ cs) w h t f = absurd (omega arith)
    pages_return (suc fuel) end_time ret_val (c ∷ cs) w h t f =
        let next : ℤ = open_time c -ℤ pos iv in
        elim (Bool-cases (leb_ℤ start_time next)) [
          | inl more ↦
              rw (more, pages)
                (with_page-Returns next _ _ (opens_by _ next (write writer (c ∷ cs) w))
                  λ page w' t'.
                    pages_return fuel next ((c ∷ cs) ++ ret_val) page w' (leb→le _ _ more) t'
                      (omega int_laws))
          | inr last ↦ rw (last, pages) (_, refl)
        ]

    -- If no page begins with a candle later than the end that was asked for, the download of the spot
    -- client ends within as many rounds as it takes intervals to exceed the range, whatever else the
    -- server sends.
    pub spot_prices_end :
        (fuel : ℕ) (end_time : ℤ) (w : W)
        → Spans fuel start_time end_time
        → (o : Outcome (List C) × W) × (get_historical_prices open_time
              (pos iv)
              fetch
              writer
              fuel
              start_time
              end_time
              w
            ≡ some o)
    unfolding get_historical_prices
    spot_prices_end fuel end_time w f = elim (Bool-cases (leb_ℤ start_time end_time)) [
      | inl range ↦
          rw (range, get_historical_prices)
            (with_page-Returns end_time _ _ (opens_by _ end_time w)
              λ page w' t. pages_return fuel end_time [] page w' (leb→le _ _ range) t f)
      | inr none' ↦ rw (none', get_historical_prices) (_, refl)
    ]
