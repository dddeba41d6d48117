-- ===== src/SpotPrices/Tests.antt =====
-- The pagination of the spot client at a concrete server.
use mexc_cpp_api.Base.{
  ℕ, zero, suc, ◌+◌, ◌≤◌, ◌≡◌, refl, List, [], ◌∷◌, Bool-cases, lt→ltb, inl, inr, Option, some,
  none, Outcome, ok, arith, length, All, if◌then◌else◌,
}
use mexc_cpp_api.Base.Int.{ℤ, pos, ◌+ℤ◌, ◌-ℤ◌, leb_ℤ, ltb_ℤ, ◌≤ℤ◌, ◌<ℤ◌, int_laws, scale}
use mexc_cpp_api.SpotPrices.{get_historical_prices}
use mexc_cpp_api.SpotPrices.Ends.{OpensBy, PageOpensBy, spot_prices_end}
use mexc_cpp_api.SpotPrices.Gaps.{FromStart, PageFrom, Misses, spot_prices_gap}

abbrev time : ℤ → ℤ
time c = c

-- A candle every 10 ms from `from` up to `to`, at most `n` of them.
slots : ℕ → ℤ → ℤ → List ℤ
slots zero from to = []
slots (suc n) from to =
    let rest = slots n (from +ℤ pos 10) to in if leb_ℤ from to then from ∷ rest else []

-- Without a start the server gives the two newest candles.
abbrev page : ℤ → ℤ → List ℤ
page from to = if ltb_ℤ (pos 0) from then slots 1000 from to else (to -ℤ pos 10) ∷ to ∷ []

abbrev fetch : ℤ → ℤ → ℕ → Outcome (List ℤ) × ℕ
fetch from to w = (ok (page from to), w + 1)

abbrev writer : Option (List ℤ → ℕ → ℕ)
writer = none

slots-FromStart : (n : ℕ) (from to : ℤ) → FromStart time 10 from (slots n from to)
unfolding slots
slots-FromStart zero from to = tt
slots-FromStart (suc n) from to = elim (Bool-cases (leb_ℤ from to)) [
  | inl e ↦ rw e (refl, slots-FromStart n (from +ℤ pos 10) to)
  | inr e ↦ rw e tt
]

length-slots : (n : ℕ) (from to : ℤ) → length (slots n from to) ≤ n
unfolding slots
length-slots zero from to = omega arith
length-slots (suc n) from to = ground (arith, length-slots n (from +ℤ pos 10) to)

slots-All : (n : ℕ) (from to : ℤ) → All (λ c. c ≤ℤ to) (slots n from to)
unfolding slots
slots-All zero from to = tt
slots-All (suc n) from to = ground (arith, slots-All n (from +ℤ pos 10) to)

page-From : (from to : ℤ) (w : ℕ) → pos 0 <ℤ from → PageFrom time 10 from to (fetch from to w)
page-From from to w h =
    rw (lt→ltb _ _ h)
      (slots-FromStart 1000 from to, length-slots 1000 from to, slots-All 1000 from to)

slots-OpensBy : (n : ℕ) (from to : ℤ) → OpensBy time 10 fetch writer to (slots n from to)
unfolding slots
slots-OpensBy zero from to = tt
slots-OpensBy (suc n) from to = ground arith

page-OpensBy : (from to : ℤ) (w : ℕ) → PageOpensBy time 10 fetch writer to (fetch from to w)
page-OpensBy from to w = elim (Bool-cases (ltb_ℤ (pos 0) from)) [
  | inl e ↦ rw e (slots-OpensBy 1000 from to)
  | inr e ↦ rw e (omega int_laws)
]

spot_prices_gap_example :
    Misses time 10 fetch writer
      (pos 10)
      (omega arith)
      (omega arith)
      page-From
      (pos 29_980)
      (get_historical_prices time (pos 10) fetch writer 3000 (pos 10) (pos 30_000) 0)
unfolding ◌-ℤ◌ scale
spot_prices_gap_example =
    spot_prices_gap time 10 fetch writer (pos 10) (omega arith) (omega arith) page-From (pos 29_980)
      3000 (pos 30_000) (pos 29_990) (pos 30_000 ∷ []) 0 1 refl (omega arith, tt) refl (omega arith)

spot_prices_end_example :
    (o : Outcome (List ℤ) × ℕ) × (get_historical_prices time
        (pos 10)
        fetch
        writer
        3000
        (pos 10)
        (pos 30_000)
        0
      ≡ some o)
spot_prices_end_example =
    spot_prices_end time 10 fetch writer (pos 10) page-OpensBy 3000 (pos 30_000) 0 (omega arith)
