-- ===== src/FuturesPrices/Complete.antt =====
-- What `RESTClient::getHistoricalPrices` of src/mexc_futures_rest_client.cpp returns from a server
-- that answers each page with the newest candles of the range.
use mexc_cpp_api.Base.{
  ℕ, zero, suc, ◌+◌, ◌≤◌, ◌≡◌, refl, sym, ap, ◌∙◌, inl, inr, true, false, List, [], ◌∷◌, ◌++◌,
  Option, some, Outcome, ok, drop_last, All, length, length-append, arith, append_assoc, append-nil,
  Bool-cases, ltb, lt→ltb, subst,
}
use mexc_cpp_api.Base.Int.{ℤ, pos, quot, pos_part, neg_part, ◌-ℤ◌, ltb_ℤ, ◌≤ℤ◌, ◌<ℤ◌, int_laws}
use mexc_cpp_api.FuturesPrices.{write, without_newest, pages, get_historical_prices}

append-eq-nil {ℓ} : {A : Type ℓ} (xs ys : List A) → xs ++ ys ≡ [] → xs ≡ []
append-eq-nil [] ys e = refl
append-eq-nil (x ∷ xs) ys e = cc

module _ {C : Type 0} (open_time : C → ℤ) where
  -- The time of a candle in whole seconds.
  abbrev pub seconds : C → ℤ
  seconds c = quot (open_time c) 1000

  abbrev pub Gap : C → C → Type 0
  Gap c d =
      pos_part (seconds c) + neg_part (seconds d) + 2 ≤ pos_part (seconds d) + neg_part (seconds c)

  -- At least two seconds lie between a candle and each later one.
  abbrev pub Spaced : List C → Type 0
  Spaced [] = Unit
  Spaced (c ∷ cs) = All (Gap c) cs × Spaced cs

  Spaced-append :
      (rest : List C) (c : C) (cs : List C)
      → Spaced (rest ++ (c ∷ cs))
      → All (λ d. Gap d c) rest × Spaced (c ∷ cs)
  Spaced-append [] c cs s = (tt, s)
  Spaced-append (d ∷ rest) c cs s =
      let (before, after) = Spaced-append rest c cs s.1 in ((All-head rest c cs s.0, before), after)
    where
      All-head : (rest : List C) (c : C) (cs : List C) → All (Gap d) (rest ++ (c ∷ cs)) → Gap d c
      All-head [] c cs a = a.0
      All-head (e ∷ rest) c cs a = All-head rest c cs a.1

  All-left : (P : C → Type 0) (xs ys : List C) → All P (xs ++ ys) → All P xs
  All-left P [] ys a = tt
  All-left P (x ∷ xs) ys a = (a.0, All-left P xs ys a.1)

  -- The end of the next page, one second before the oldest candle.
  abbrev next_end : C → ℤ
  next_end c = quot (open_time c) 1000 -ℤ pos 1

  next_end-older :
      (c : C) (rest : List C) → All (λ d. Gap d c) rest → All (λ d. seconds d ≤ℤ next_end c) rest
  next_end-older c [] a = tt
  next_end-older c (d ∷ rest) a = (omega int_laws, next_end-older c rest a.1)

  next_end-newer :
      (c : C) (cs : List C) → Spaced (c ∷ cs) → All (λ d. next_end c <ℤ seconds d) (c ∷ cs)
  next_end-newer c cs s = (omega int_laws, later cs s.0)
    where
      later : (cs : List C) → All (Gap c) cs → All (λ d. next_end c <ℤ seconds d) cs
      later [] a = tt
      later (d ∷ ds) a = (omega int_laws, later ds a.1)

  -- Where the next page would begin at `start_time` or before it, nothing is left to fetch.
  nothing_left :
      (start_time : ℤ) (c : C) (rest : List C)
      → All (λ d. Gap d c) rest
      → All (λ d. start_time ≤ℤ seconds d) rest
      → ltb_ℤ start_time (next_end c) ≡ false
      → rest ≡ []
  nothing_left start_time c [] g r h = refl
  nothing_left start_time c (d ∷ rest) g r h = absurd (omega (int_laws, not_ltb _ _ h))
    where
      not_ltb : (a b : ℕ) → ltb a b ≡ false → b ≤ a
      not_ltb a b e = ground arith

  -- All candles that the server has in a range from `start_time` on are `held`. For every end of
  -- the range it sends the newest of those up to that end, in order, and none only if there is none.
  pub record Serves {W : Type 0} (start_time : ℤ) (held : List C)
      (fetch : ℤ → ℤ → W → Outcome (List C) × W) : Type 0 where
    pub answers :
        (end_time : ℤ) (older newer : List C) (w : W)
        → older ++ newer ≡ held
        → All (λ c. seconds c ≤ℤ end_time) older
        → All (λ c. end_time <ℤ seconds c) newer
        → (rest page : List C) × (w' : W) × (rest ++ page ≡ older)
          × (fetch start_time end_time w ≡ (ok page, w'))
          × (page ≡ [] → older ≡ [])

  module _ {W : Type 0} (start_time : ℤ) (held : List C) (fetch : ℤ → ℤ → W → Outcome (List C) × W)
      (writer : Option (List C → W → W)) (serves : Serves start_time held fetch)
      (spaced : Spaced held) (in_range : All (λ c. start_time ≤ℤ seconds c) held) where
    pages-last :
        (fuel : ℕ) (c : C) (cs newer : List C) (w : W)
        → ltb_ℤ start_time (next_end c) ≡ false
        → pages open_time fetch writer (suc fuel) start_time newer (c ∷ cs) w
          ≡ some (ok ((c ∷ cs) ++ newer), write writer (c ∷ cs) w)
    unfolding pages
    pages-last fuel c cs newer w h = rw (h, pages)

    pages-more :
        (fuel : ℕ) (c : C) (cs newer page : List C) (w w' : W)
        → ltb_ℤ start_time (next_end c) ≡ true
        → fetch start_time (next_end c) (write writer (c ∷ cs) w) ≡ (ok page, w')
        → pages open_time fetch writer (suc fuel) start_time newer (c ∷ cs) w
          ≡ pages open_time fetch writer fuel start_time ((c ∷ cs) ++ newer) page w'
    unfolding pages
    pages-more fuel c cs newer page w w' h e = rw (h, pages) (rw e)

    pages_complete :
        (fuel : ℕ) (rest page newer : List C) (w : W)
        → rest ++ (page ++ newer) ≡ held
        → (page ≡ [] → rest ≡ [])
        → length rest + length page ≤ fuel
        → (w' : W) × (pages open_time fetch writer fuel start_time newer page w
            ≡ some (ok held, w'))
    unfolding pages
    pages_complete fuel rest [] newer w e h f =
        (w, ap (λ r. some (ok r, w)) (ap (λ r. r ++ newer) (sym (h refl)) ∙ e))
    pages_complete zero rest (c ∷ cs) newer w e h f = absurd (omega arith)
    pages_complete (suc fuel) rest (c ∷ cs) newer w e h f =
        let (gaps, tail) = Spaced-append rest c (cs ++ newer) (subst Spaced (sym e) spaced) in
        let ranged =
          All-left (λ d. start_time ≤ℤ seconds d) rest ((c ∷ cs) ++ newer)
            (subst (All (λ d. start_time ≤ℤ seconds d)) (sym e) in_range) in
        let w₁ = write writer (c ∷ cs) w in
        elim (Bool-cases (ltb_ℤ start_time (next_end c))) [
          | inl more ↦
              let (rest', page', w₂, split, fetched, empty) =
                serves.answers (next_end c) rest ((c ∷ cs) ++ newer) w₁ e
                  (next_end-older c rest gaps) (next_end-newer c (cs ++ newer) tail) in
              let (w₃, done) =
                pages_complete fuel rest' page' ((c ∷ cs) ++ newer) w₂
                  (sym (append_assoc rest' page' ((c ∷ cs) ++ newer))
                    ∙ ap (λ r. r ++ ((c ∷ cs) ++ newer)) split
                    ∙ e)
                  (λ nil. append-eq-nil rest' page' (split ∙ empty nil))
                  (omega (arith, ap length split, length-append rest' page')) in
              (w₃, pages-more fuel c cs newer page' w w₂ more fetched ∙ done)
          | inr last ↦ (
            w₁,
            pages-last fuel c cs newer w last
                ∙ ap (λ r. some (ok r, w₁))
                    (ap (λ r. r ++ ((c ∷ cs) ++ newer))
                        (sym (nothing_left start_time c rest gaps ranged last))
                      ∙ e),
          )
        ]

    first_page :
        (fuel : ℕ) (end_time : ℤ) (page : List C) (w w' : W)
        → ltb_ℤ start_time end_time ≡ true
        → fetch start_time end_time w ≡ (ok page, w')
        → get_historical_prices open_time fetch writer fuel start_time end_time w
          ≡ without_newest (pages open_time fetch writer fuel start_time [] page w')
    unfolding get_historical_prices
    first_page fuel end_time page w w' h e = rw (h, get_historical_prices) (rw e)

    -- If the range is not empty, the server serves it and the candles lie two seconds apart, then with
    -- as much fuel as there are candles the download ends, and returns all the candles of
    -- the range, in order, but the newest.
    pub get_historical_prices_complete :
        (fuel : ℕ) (end_time : ℤ) (w : W)
        → length held ≤ fuel
        → start_time <ℤ end_time
        → All (λ c. seconds c ≤ℤ end_time) held
        → (w' : W) × (get_historical_prices open_time fetch writer fuel start_time end_time w
            ≡ some (ok (drop_last held), w'))
    get_historical_prices_complete fuel end_time w f h before =
        let (rest, page, w₁, split, fetched, empty) =
          serves.answers end_time held [] w (append-nil held) before tt in
        let (w₂, done) =
          pages_complete fuel rest page [] w₁ (ap (◌++◌ rest) (append-nil page) ∙ split)
            (λ nil. append-eq-nil rest page (split ∙ empty nil))
            (omega (arith, ap length split, length-append rest page)) in
        (w₂, first_page fuel end_time page w w₁ (lt→ltb _ _ h) fetched ∙ ap without_newest done)
