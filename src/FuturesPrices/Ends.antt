-- ===== src/FuturesPrices/Ends.antt =====
-- When `RESTClient::getHistoricalPrices` of src/mexc_futures_rest_client.cpp comes to an end, whatever
-- candles the server sends.
use mexc_cpp_api.Base.{
  ℕ, zero, suc, ◌+◌, ◌≤◌, ◌≡◌, refl, inl, inr, List, [], ◌∷◌, ◌++◌, Option, none, some, Outcome, ok,
  throw, fault, arith, Bool-cases, ltb→lt,
}
use mexc_cpp_api.Base.Int.{ℤ, pos, quot, pos_part, neg_part, ◌-ℤ◌, ltb_ℤ, ◌≤ℤ◌, ◌<ℤ◌, int_laws}
use mexc_cpp_api.FuturesPrices.{with_page, write, without_newest, pages, get_historical_prices}

module _ {W C : Type 0} (open_time : C → ℤ) (fetch : ℤ → ℤ → W → Outcome (List C) × W)
    (writer : Option (List C → W → W)) where
  -- A page either is empty or begins with a candle that is no later than the end that was asked for.
  abbrev pub InTime : ℤ → List C → Type 0
  InTime end_time [] = Unit
  InTime end_time (c ∷ cs) = quot (open_time c) 1000 ≤ℤ end_time

  abbrev pub PageInTime : ℤ → Outcome (List C) × W → Type 0
  PageInTime end_time (ok candles, w) = InTime end_time candles
  PageInTime end_time (throw e, w) = Unit
  PageInTime end_time (fault, w) = Unit

  abbrev Ended : Option (Outcome (List C) × W) → Type 0
  Ended r = (o : Outcome (List C) × W) × (r ≡ some o)

  -- The seconds from `start_time` up to `end_time` are fewer than `n`.
  abbrev Within : ℕ → ℤ → ℤ → Type 0
  Within n start_time end_time =
      pos_part end_time + neg_part start_time ≤ n + pos_part start_time + neg_part end_time

  with_page-Ended :
      (end_time : ℤ) (o : Outcome (List C) × W) (k : List C → W → Option (Outcome (List C) × W))
      → PageInTime end_time o
      → ((page : List C) (w : W) → InTime end_time page → Ended (k page w))
      → Ended (with_page o k)
  with_page-Ended end_time (ok page, w) k t h = h page w t
  with_page-Ended end_time (throw e, w) k t h = ((throw e, w), refl)
  with_page-Ended end_time (fault, w) k t h = ((fault, w), refl)

  without_newest-Ended : (r : Option (Outcome (List C) × W)) → Ended r → Ended (without_newest r)
  without_newest-Ended none (o, e) = cc
  without_newest-Ended (some (ok page, w)) e = (_, refl)
  without_newest-Ended (some (throw x, w)) e = (_, refl)
  without_newest-Ended (some (fault, w)) e = (_, refl)

  module _ (start_time : ℤ)
      (in_time : (end_time : ℤ) (w : W) → PageInTime end_time (fetch start_time end_time w)) where
    pages_end :
        (fuel : ℕ) (end_time : ℤ) (ret_val page : List C) (w : W)
        → start_time <ℤ end_time
        → InTime end_time page
        → Within fuel start_time end_time
        → Ended (pages open_time fetch writer fuel start_time ret_val page w)
    unfolding pages
    pages_end fuel end_time ret_val [] w h t f = (_, refl)
    pages_end zero end_time ret_val (c ∷ cs) w h t f = absurd (omega arith)
    pages_end (suc fuel) end_time ret_val (c ∷ cs) w h t f =
        let next : ℤ = quot (open_time c) 1000 -ℤ pos 1 in
        elim (Bool-cases (ltb_ℤ start_time next)) [
          | inl more ↦
              rw (more, pages)
                (with_page-Ended next _ _ (in_time next (write writer (c ∷ cs) w)) λ page w' t'.
                  pages_end fuel next ((c ∷ cs) ++ ret_val) page w' (ltb→lt _ _ more) t'
                    (omega int_laws))
          | inr last ↦ rw (last, pages) (_, refl)
        ]

    -- If no page begins with a candle later than the end that was asked for, the download ends within
    -- as many rounds as there are seconds in the range, whatever else the server sends.
    pub get_historical_prices_ends :
        (fuel : ℕ) (end_time : ℤ) (w : W)
        → pos_part end_time + neg_part start_time ≤ fuel + pos_part start_time + neg_part end_time
        → (o : Outcome (List C) × W) × (get_historical_prices open_time fetch writer fuel start_time
              end_time w
            ≡ some o)
    unfolding get_historical_prices
    get_historical_prices_ends fuel end_time w f = elim (Bool-cases (ltb_ℤ start_time end_time)) [
      | inl range ↦
          rw (range, get_historical_prices)
            (without_newest-Ended _ (
              with_page-Ended end_time _ _ (in_time end_time w)
                λ page w' t. pages_end fuel end_time [] page w' (ltb→lt _ _ range) t f))
      | inr none' ↦ rw (none', get_historical_prices) (_, refl)
    ]
