-- ===== src/SpotPrices/Gaps.antt =====
-- What `RESTClient::getHistoricalPrices` of src/mexc_spot_rest_client.cpp misses if the server answers
-- as its comments say: with `limit` candles from the start on.
use mexc_cpp_api.Base.{
  ℕ, zero, suc, ◌+◌, ◌*◌, ◌≤◌, ◌<◌, ◌≡◌, ◌≢◌, sym, ap, inl, inr, List, [], ◌∷◌, ◌++◌, Option, some,
  Outcome, ok, throw, fault, arith, Bool-cases, All, All-append, All-imp, length,
}
use mexc_cpp_api.Base.Int.{
  ℤ, pos, pos_part, neg_part, scale, max_ℤ, ◌+ℤ◌, ◌-ℤ◌, leb_ℤ, ◌≤ℤ◌, ◌<ℤ◌, int_laws, -ℤ_parts,
}
use mexc_cpp_api.FuturesPrices.{with_page}
use mexc_cpp_api.SpotPrices.{limit, pages, batch_start, first_start, get_historical_prices}

lt-ne : (a b : ℤ) → a <ℤ b → a ≢ b
lt-ne a b h = λ e. let p = ap pos_part e in let n = ap neg_part e in omega arith

module _ {C : Type 0} (open_time : C → ℤ) (iv : ℕ) where
  -- One candle for each interval from `from` on.
  abbrev pub FromStart : ℤ → List C → Type 0
  FromStart from [] = Unit
  FromStart from (c ∷ cs) = (open_time c ≡ from) × FromStart (from +ℤ pos iv) cs

  FromStart-below :
      (n : ℕ) (from : ℤ) (cs : List C)
      → FromStart from cs
      → length cs ≤ n
      → All
          (λ c.
            pos_part (open_time c) + neg_part from + iv
            ≤ n * iv + pos_part from + neg_part (open_time c))
          cs
  FromStart-below n from [] s h = tt
  FromStart-below zero from (c ∷ cs) s h = absurd (omega arith)
  FromStart-below (suc n) from (c ∷ cs) s h =
      let p = ap pos_part s.0 in
      let q = ap neg_part s.0 in
      (
        omega arith,
        All-imp _ _ cs (λ d k. omega int_laws)
            (FromStart-below n (from +ℤ pos iv) cs s.1 (omega arith)),
      )

  -- A page as the exchange gives it: from the start on, at most `limit` candles, none after the end.
  abbrev pub PageFrom : {W : Type 0} → ℤ → ℤ → Outcome (List C) × W → Type 0
  PageFrom from to (ok cs, w) =
      FromStart from cs × (length cs ≤ limit) × All (λ c. open_time c ≤ℤ to) cs
  PageFrom from to (throw e, w) = Unit
  PageFrom from to (fault, w) = Unit

  module _ {W : Type 0} (fetch : ℤ → ℤ → W → Outcome (List C) × W)
      (writer : Option (List C → W → W)) (start_time : ℤ) (positive : pos 0 <ℤ start_time)
      (some_time : 0 < iv)
      (forward : (from to : ℤ) (w : W) → pos 0 <ℤ from → PageFrom from to (fetch from to w))
      (missed : ℤ) where
    abbrev pub Misses : Option (Outcome (List C) × W) → Type 0
    Misses (some (ok cs, w)) = All (λ c. open_time c ≢ missed) cs
    Misses _ = Unit

    batch_positive : (to : ℤ) → pos 0 <ℤ batch_start (pos iv) start_time to
    unfolding max_ℤ
    batch_positive to = ground (arith, -ℤ_parts to (scale (pos iv) limit))

    with_page-Misses :
        (from to : ℤ) (o : Outcome (List C) × W) (k : List C → W → Option (Outcome (List C) × W))
        → PageFrom from to o
        → ((page : List C) (w : W)
            → FromStart from page
            → length page ≤ limit
            → All (λ c. open_time c ≤ℤ to) page
            → Misses (k page w))
        → Misses (with_page o k)
    with_page-Misses from to (fault, w) k t go = tt
    with_page-Misses from to (throw e, w) k t go = tt
    with_page-Misses from to (ok page, w) k (t, few, by) go = go page w t few by

    pages_below :
        (fuel : ℕ) (ret_val page : List C) (w : W)
        → All (λ c. open_time c ≢ missed) ret_val
        → All (λ c. open_time c <ℤ missed) page
        → Misses (pages open_time (pos iv) fetch writer fuel start_time ret_val page w)
    unfolding pages
    pages_below fuel ret_val [] w r p = r
    pages_below zero ret_val (c ∷ cs) w r p = tt
    pages_below (suc fuel) ret_val (c ∷ cs) w r p =
        let next : ℤ = open_time c -ℤ pos iv in
        let kept =
          All-append (λ d. open_time d ≢ missed) (c ∷ cs) ret_val
            (All-imp _ _ (c ∷ cs) (λ d h. lt-ne _ _ h) p) r in
        elim (Bool-cases (leb_ℤ start_time next)) [
          | inl more ↦
              rw (more, pages)
                (with_page-Misses _ next _ _ (forward _ next _ (batch_positive next))
                  λ page w' t few by.
                    pages_below fuel ((c ∷ cs) ++ ret_val) page w' kept
                      (All-imp _ _ page (λ d h. omega int_laws) by))
          | inr last ↦ rw (last, pages) kept
        ]

    -- The second page starts so early that it ends before `missed`.
    second_page :
        (to : ℤ) (page : List C)
        → to ≡ missed
        → pos_part start_time + neg_part to + limit * iv ≤ pos_part to + neg_part start_time
        → FromStart (batch_start (pos iv) start_time to) page
        → length page ≤ limit
        → All (λ c. open_time c <ℤ missed) page
    unfolding max_ℤ scale
    second_page to page e far s few =
        let from : ℤ = batch_start (pos iv) start_time to in
        let p = ap pos_part e in
        let n = ap neg_part e in
        let early : pos_part from + neg_part to + limit * iv ≡ pos_part to + neg_part from =
          ground (arith, -ℤ_parts to (pos (iv * limit))) in
        All-imp _ _ page (λ d h. omega arith) (FromStart-below limit from page s few)

    pages_miss :
        (fuel : ℕ) (ret_val : List C) (c : C) (cs : List C) (w : W)
        → open_time c -ℤ pos iv ≡ missed
        → pos_part start_time + neg_part missed + limit * iv ≤ pos_part missed + neg_part start_time
        → All (λ d. open_time c ≤ℤ open_time d) cs
        → All (λ d. open_time d ≢ missed) ret_val
        → Misses (pages open_time (pos iv) fetch writer fuel start_time ret_val (c ∷ cs) w)
    unfolding pages
    pages_miss zero ret_val c cs w e far rising r = tt
    pages_miss (suc fuel) ret_val c cs w e far rising r =
        let next : ℤ = open_time c -ℤ pos iv in
        let p = ap pos_part e in
        let n = ap neg_part e in
        let after : missed <ℤ open_time c = omega int_laws in
        let kept =
          All-append (λ d. open_time d ≢ missed) (c ∷ cs) ret_val
            (
              (λ q. lt-ne _ _ after (sym q)),
              All-imp _ _ cs (λ d h. λ q. lt-ne missed (open_time d) (omega arith) (sym q)) rising,
            )
            r in
        elim (Bool-cases (leb_ℤ start_time next)) [
          | inl more ↦
              rw (more, pages)
                (with_page-Misses _ next _ _ (forward _ next _ (batch_positive next))
                  λ page w' t few by.
                    pages_below fuel ((c ∷ cs) ++ ret_val) page w' kept
                      (second_page next page e (omega arith) t few))
          | inr last ↦ rw (last, pages) kept
        ]

    -- A server that answers a request with a start by one candle per interval from there on, at most
    -- 1000 and none after the end, makes the spot client lose a candle. Let the range start after
    -- time 0, let the first page not be empty and rise, and let the time one interval before the first
    -- page lie 1000 intervals or more after the start of the range: a list that the download returns
    -- holds no candle of that time.
    pub spot_prices_gap :
        (fuel : ℕ) (end_time : ℤ) (c : C) (cs : List C) (w w' : W)
        → fetch (first_start (pos iv) start_time end_time) end_time w ≡ (ok (c ∷ cs), w')
        → All (λ d. open_time c ≤ℤ open_time d) cs
        → open_time c -ℤ pos iv ≡ missed
        → pos_part start_time + neg_part missed + limit * iv ≤ pos_part missed + neg_part start_time
        → Misses (get_historical_prices open_time (pos iv) fetch writer fuel start_time end_time w)
    unfolding get_historical_prices
    spot_prices_gap fuel end_time c cs w w' first rising e far =
        elim (Bool-cases (leb_ℤ start_time end_time)) [
          | inl range ↦
              rw (range, get_historical_prices)
                (rw (first, with_page) (pages_miss fuel [] c cs w' e far rising tt))
          | inr none' ↦ rw (none', get_historical_prices) tt
        ]
