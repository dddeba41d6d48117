-- ===== src/FuturesPrices/Tests.antt =====
-- The download of futures candles from a server that sends at most two candles at a time.
use mexc_cpp_api.Base.{
  ℕ, suc, ◌+◌, ◌*◌, ◌≡◌, refl, sym, ap, ◌∙◌, inl, inr, List, [], ◌∷◌, ◌++◌, Option, some, Outcome,
  ok, All, length, arith, Bool-cases, leb, drop_last, filter, if◌then◌else◌,
}
use mexc_cpp_api.Base.Int.{ℤ, pos, quot, leb_ℤ, ◌-ℤ◌, ◌≤ℤ◌, ◌<ℤ◌}
use mexc_cpp_api.FuturesPrices.{get_historical_prices, pages}
use mexc_cpp_api.FuturesPrices.Complete.{Serves, Spaced, seconds, get_historical_prices_complete}
use mexc_cpp_api.FuturesPrices.Ends.{PageInTime, InTime, get_historical_prices_ends}

-- A candle is its time.
abbrev time : ℤ → ℤ
time c = c

abbrev newest_two : List ℤ → List ℤ
newest_two [] = []
newest_two (c ∷ cs) = if leb (length cs) 1 then c ∷ cs else newest_two cs

abbrev up_to : ℤ → List ℤ → List ℤ
up_to end_time = filter λ c. leb_ℤ (seconds time c) end_time

abbrev held : List ℤ
held = pos 60_000 ∷ pos 120_000 ∷ pos 180_000 ∷ pos 240_000 ∷ pos 300_000 ∷ []

-- The world counts the pages, and the writer counts the candles.
abbrev fetch : ℤ → ℤ → ℕ → Outcome (List ℤ) × ℕ
fetch start_time end_time w = (ok (newest_two (up_to end_time held)), w + 1)

abbrev writer : Option (List ℤ → ℕ → ℕ)
writer = some λ candles w. w + 100 * length candles

downloads :
    get_historical_prices time fetch writer 5 (pos 10) (pos 400) 0
    ≡ some (ok (pos 60_000 ∷ pos 120_000 ∷ pos 180_000 ∷ pos 240_000 ∷ []), 504)
unfolding get_historical_prices pages ◌-ℤ◌ quot
downloads = refl

newest_two-split : (cs : List ℤ) → (rest : List ℤ) × (rest ++ newest_two cs ≡ cs)
newest_two-split [] = ([], refl)
newest_two-split (c ∷ cs) = elim (Bool-cases (leb (length cs) 1)) [
  | inl few ↦ ([], rw few)
  | inr many ↦ let (rest, e) = newest_two-split cs in (c ∷ rest, rw many (ap (◌∷◌ c) e))
]

newest_two-nil : (cs : List ℤ) → newest_two cs ≡ [] → cs ≡ []
newest_two-nil [] e = refl
newest_two-nil (c ∷ []) e = e
newest_two-nil (c ∷ d ∷ cs) e = elim (Bool-cases (leb (suc (length cs)) 1)) [
  | inl few ↦ rw few at e
  | inr many ↦ let no : d ∷ cs ≡ [] = newest_two-nil (d ∷ cs) (rw many at e) in cc
]

up_to-split :
    (end_time : ℤ) (older newer : List ℤ)
    → All (λ c. seconds time c ≤ℤ end_time) older
    → All (λ c. end_time <ℤ seconds time c) newer
    → up_to end_time (older ++ newer) ≡ older
up_to-split end_time [] [] a b = refl
up_to-split end_time [] (d ∷ newer) a b = ground (arith, up_to-split end_time [] newer tt b.1)
up_to-split end_time (c ∷ older) newer a b = ground (arith, up_to-split end_time older newer a.1 b)

fetch-Serves : Serves time (pos 10) held fetch
fetch-Serves = record {
  answers = λ end_time older newer w e a b.
      let kept : up_to end_time held ≡ older =
        ap (up_to end_time) (sym e) ∙ up_to-split end_time older newer a b in
      let (rest, split) = newest_two-split older in
      (
        rest,
        newest_two older,
        w + 1,
        split,
        ap (λ cs. (ok (newest_two cs), w + 1)) kept,
        newest_two-nil older,
      );
}

held-Spaced : Spaced time held
unfolding quot
held-Spaced = omega arith

get_historical_prices_complete_example :
    (w' : ℕ) × (get_historical_prices time fetch writer 5 (pos 10) (pos 400) 0
      ≡ some (ok (drop_last held), w'))
unfolding quot
get_historical_prices_complete_example =
    get_historical_prices_complete time (pos 10) held fetch writer fetch-Serves held-Spaced
      (omega arith) 5 (pos 400) 0 (omega arith) (omega arith) (omega arith)

newest_two-All : (P : ℤ → Type 0) (cs : List ℤ) → All P cs → All P (newest_two cs)
newest_two-All P [] a = tt
newest_two-All P (c ∷ cs) a = ground (arith, newest_two-All P cs a.1)

up_to-All : (end_time : ℤ) (cs : List ℤ) → All (λ c. seconds time c ≤ℤ end_time) (up_to end_time cs)
up_to-All end_time [] = tt
up_to-All end_time (c ∷ cs) = ground (arith, up_to-All end_time cs)

InTime-of_All :
    (end_time : ℤ) (cs : List ℤ)
    → All (λ c. seconds time c ≤ℤ end_time) cs
    → InTime time fetch writer end_time cs
InTime-of_All end_time [] a = tt
InTime-of_All end_time (c ∷ cs) a = a.0

fetch-in_time :
    (end_time : ℤ) (w : ℕ) → PageInTime time fetch writer end_time (fetch (pos 10) end_time w)
fetch-in_time end_time w =
    InTime-of_All end_time _ (newest_two-All _ (up_to end_time held) (up_to-All end_time held))

get_historical_prices_ends_example :
    (o : Outcome (List ℤ) × ℕ) × (get_historical_prices time fetch writer 390 (pos 10) (pos 400) 0
      ≡ some o)
get_historical_prices_ends_example =
    get_historical_prices_ends time fetch writer (pos 10) fetch-in_time 390 (pos 400) 0
      (omega arith)
