-- ===== src/FundingHistory/Complete.antt =====
-- What `MEXCFuturesExchangeConnector::getHistoricalFundingRates` of
-- src/mexc_futures_exchange_connector.cpp returns from a server that lists the newest rates first.
use mathlib.Core.Path.{ap₂}
use mathlib.Core.List.{Perm}
use mexc_cpp_api.Base.{
  ℕ, zero, suc, ◌≤◌, ◌<◌, ◌≡◌, refl, sym, ap, ◌∙◌, inl, inr, Bool, ◌&&◌, true, false, List, [], ◌∷◌,
  ◌++◌, map, filter, filter-append, last_or, Option, some, Outcome, ok, All, length, length-append,
  arith, append_assoc, append-nil, Bool-cases, subst,
}
use mexc_cpp_api.Base.Int.{ℤ, pos, ltb_ℤ, leb_ℤ, ◌≤ℤ◌}
use mexc_cpp_api.FundingHistory.{
  Page, in_range, is_last, collect, turn, rates_from, sorted_by, get_historical_funding_rates,
}

abbrev pub concat {ℓ} : {A : Type ℓ} → List (List A) → List A
concat [] = []
concat (xs ∷ xss) = xs ++ concat xss

concat-append {ℓ} :
    {A : Type ℓ} (xss yss : List (List A)) → concat (xss ++ yss) ≡ concat xss ++ concat yss
concat-append [] yss = refl
concat-append (xs ∷ xss) yss = rw (concat-append xss yss) (sym (append_assoc xs (concat xss) _))

All-right {ℓ μ} :
    {R : Type ℓ} (Holds : R → Type μ) (front back : List R)
    → All Holds (front ++ back)
    → All Holds back
All-right Holds [] back of_all = of_all
All-right Holds (r ∷ front) back of_all = All-right Holds front back of_all.1

map-append' {ℓ κ} :
    {A : Type ℓ} {B : Type κ} (f : A → B) (xs ys : List A) → map f (xs ++ ys) ≡ map f xs ++ map f ys
map-append' f [] ys = refl
map-append' f (x ∷ xs) ys = ap (◌∷◌ (f x)) (map-append' f xs ys)

module _ {R : Type 0} (settle_time : R → ℤ) where
  -- The rates come newest first.
  abbrev pub Falling : List R → Type 0
  Falling [] = Unit
  Falling (r ∷ rs) = All (λ s. settle_time s ≤ℤ settle_time r) rs × Falling rs

  Falling-right : (xs ys : List R) → Falling (xs ++ ys) → Falling ys
  Falling-right [] ys f = f
  Falling-right (x ∷ xs) ys f = Falling-right xs ys f.1

  -- What follows a list is no later than its last element.
  Falling-last :
      (x : R) (xs ys : List R)
      → Falling (x ∷ (xs ++ ys))
      → All (λ s. settle_time s ≤ℤ settle_time (last_or x xs)) ys
  Falling-last x [] ys f = f.0
  Falling-last x (y ∷ xs) ys f = Falling-last y xs ys f.1

  none_in_range :
      (start_time end_time b : ℤ) (ys : List R)
      → ltb_ℤ b start_time ≡ true
      → All (λ s. settle_time s ≤ℤ b) ys
      → filter (in_range settle_time start_time end_time) ys ≡ []
  none_in_range start_time end_time b [] h a = refl
  none_in_range start_time end_time b (y ∷ ys) h a =
      ground (arith, none_in_range start_time end_time b ys h a.1)

-- Times that do not fall along the list.
abbrev pub Rising : {F : Type 0} → (F → ℤ) → List F → Type 0
Rising time [] = Unit
Rising time (r ∷ rs) = All (λ s. time r ≤ℤ time s) rs × Rising time rs

-- `start ≤ t ≤ end`.
abbrev pub is_between : ℤ → ℤ → ℤ → Bool
is_between start_time end_time t = leb_ℤ start_time t && leb_ℤ t end_time

-- A page has a rate.
abbrev pub HasRate : {R : Type 0} → List R → Type 0
HasRate [] = ⊥
HasRate (r ∷ rs) = Unit

-- The server has these pages, and tells how many there are.
pub record ServesPages {W : Type 0} {R : Type 0} (pages : List (List R))
    (fetch : ℕ → W → Outcome (Page R) × W) : Type 0 where
  pub answers :
      (before after : List (List R)) (page : List R) (w : W)
      → before ++ (page ∷ after) ≡ pages
      → (w' : W) × (fetch (suc (length before)) w
          ≡ (ok (record { result_list = page; total_page = pos (length pages) }), w'))

module _ {W R F : Type 0} (settle_time : R → ℤ) (convert : R → F) (start_time end_time : ℤ)
    (pages : List (List R)) (fetch : ℕ → W → Outcome (Page R) × W)
    (serves : ServesPages pages fetch) (falling : Falling settle_time (concat pages))
    (rates : All HasRate pages) where
  wanted : List R → List F
  wanted rs = map convert (filter (in_range settle_time start_time end_time) rs)

  wanted-append : (xs ys : List R) → wanted (xs ++ ys) ≡ wanted xs ++ wanted ys
  unfolding wanted
  wanted-append xs ys =
      rw (filter-append (in_range settle_time start_time end_time) xs ys) (map-append' convert _ _)

  turn_last :
      (fuel page_num : ℕ) (ret_val : List F) (page : Page R) (w w' : W)
      → fetch page_num w ≡ (ok page, w')
      → is_last settle_time start_time end_time page_num page ≡ true
      → rates_from settle_time convert start_time end_time (suc fuel) fetch page_num ret_val w
        ≡ some (ok (collect settle_time convert start_time end_time ret_val page.result_list), w')
  unfolding rates_from
  turn_last fuel page_num ret_val page w w' e h = rw (e, rates_from) (rw (h, turn))

  turn_next :
      (fuel page_num : ℕ) (ret_val : List F) (page : Page R) (w w' : W)
      → fetch page_num w ≡ (ok page, w')
      → is_last settle_time start_time end_time page_num page ≡ false
      → rates_from settle_time convert start_time end_time (suc fuel) fetch page_num ret_val w
        ≡ rates_from settle_time convert start_time end_time fuel fetch
            (suc page_num)
            (collect settle_time convert start_time end_time ret_val page.result_list)
            w'
  unfolding rates_from
  turn_next fuel page_num ret_val page w w' e h = rw (e, rates_from) (rw (h, turn))

  last_early :
      (before after : List (List R)) (next : List R) (r : R) (rs : List R)
      → before ++ ((r ∷ rs) ∷ next ∷ after) ≡ pages
      → is_last settle_time start_time end_time
          (suc (length before))
          (record { result_list = r ∷ rs; total_page = pos (length pages) })
        ≡ true
      → ltb_ℤ (settle_time (last_or r rs)) start_time ≡ true
  last_early before after next r rs e h =
      ground (arith, ap length e, length-append before ((r ∷ rs) ∷ next ∷ after))

  -- If the loop stops at a page, no later page has a rate in the range.
  rest_unwanted :
      (before after : List (List R)) (page : List R)
      → before ++ (page ∷ after) ≡ pages
      → is_last settle_time start_time end_time
          (suc (length before))
          (record { result_list = page; total_page = pos (length pages) })
        ≡ true
      → wanted (concat after) ≡ []
  unfolding wanted
  rest_unwanted before [] page e h = refl
  rest_unwanted before (next ∷ after) [] e h =
      absurd (All-right HasRate before ([] ∷ next ∷ after) (subst (All HasRate) (sym e) rates)).0
  rest_unwanted before (next ∷ after) (r ∷ rs) e h =
      let tail = Falling-right settle_time (concat before) ((r ∷ rs) ++ concat (next ∷ after)) (
        subst (Falling settle_time)
          (ap concat (sym e) ∙ concat-append before ((r ∷ rs) ∷ next ∷ after)) falling) in
      ap (map convert) (
        none_in_range settle_time start_time end_time _ (concat (next ∷ after))
          (last_early before after next r rs e h) (Falling-last settle_time r rs _ tail))

  wanted-pages :
      (before after : List (List R)) (page : List R)
      → before ++ (page ∷ after) ≡ pages
      → wanted (concat pages) ≡ (wanted (concat before) ++ wanted page) ++ wanted (concat after)
  wanted-pages before after page e =
      ap (λ p. wanted (concat p)) (sym e)
      ∙ ap wanted (concat-append before (page ∷ after))
      ∙ wanted-append (concat before) (page ++ concat after)
      ∙ ap (◌++◌ (wanted (concat before))) (wanted-append page (concat after))
      ∙ sym (append_assoc (wanted (concat before)) (wanted page) (wanted (concat after)))

  wanted-snoc :
      (before : List (List R)) (page : List R)
      → wanted (concat (before ++ (page ∷ []))) ≡ wanted (concat before) ++ wanted page
  wanted-snoc before page =
      ap wanted (concat-append before (page ∷ []))
      ∙ wanted-append (concat before) (page ++ [])
      ∙ ap (λ p. wanted (concat before) ++ wanted p) (append-nil page)

  length-snoc :
      (before : List (List R)) (page : List R)
      → length (before ++ (page ∷ [])) ≡ suc (length before)
  length-snoc before page = omega (arith, length-append before (page ∷ []))

  last_of_all :
      (before : List (List R)) (page : List R)
      → before ++ (page ∷ []) ≡ pages
      → is_last settle_time start_time end_time
          (suc (length before))
          (record { result_list = page; total_page = pos (length pages) })
        ≡ true
  last_of_all before page e = ground (arith, ap length e, length-snoc before page)

  abbrev Finds : Option (Outcome (List F) × W) → Type 0
  Finds r = (w' : W) × (r ≡ some (ok (wanted (concat pages)), w'))

  stops :
      (fuel : ℕ) (before after : List (List R)) (page : List R) (w : W)
      → before ++ (page ∷ after) ≡ pages
      → is_last settle_time start_time end_time
          (suc (length before))
          (record { result_list = page; total_page = pos (length pages) })
        ≡ true
      → Finds (
          rates_from settle_time convert start_time end_time
            (suc fuel)
            fetch
            (suc (length before))
            (wanted (concat before))
            w)
  unfolding wanted
  stops fuel before after page w e stop =
      let (w', fetched) = serves.answers before after page w e in
      (
        w',
        turn_last fuel (suc (length before)) _ _ w w' fetched stop
            ∙ ap (λ r. some (ok r, w'))
                (sym (
                  wanted-pages before after page e
                  ∙ ap (◌++◌ (wanted (concat before) ++ wanted page))
                      (rest_unwanted before after page e stop)
                  ∙ append-nil (wanted (concat before) ++ wanted page))),
      )

  rates_from_complete :
      (fuel : ℕ) (before after : List (List R)) (page : List R) (w : W)
      → before ++ (page ∷ after) ≡ pages
      → length after < fuel
      → Finds (
          rates_from settle_time convert start_time end_time fuel fetch
            (suc (length before))
            (wanted (concat before))
            w)
  unfolding wanted
  rates_from_complete zero before after page w e f = elim f [ ]
  rates_from_complete (suc fuel) before [] page w e f =
      stops fuel before [] page w e (last_of_all before page e)
  rates_from_complete (suc fuel) before (next ∷ after) page w e f =
      elim (Bool-cases (
        is_last settle_time start_time end_time (suc (length before))
          (record { result_list = page; total_page = pos (length pages) }))) [
            | inl stop ↦ stops fuel before (next ∷ after) page w e stop
            | inr go ↦
                let (w', fetched) = serves.answers before (next ∷ after) page w e in
                let ih =
                  rates_from_complete fuel (before ++ (page ∷ [])) after next w'
                    (append_assoc before (page ∷ []) (next ∷ after) ∙ e) (omega arith) in
                subst Finds
                  (ap₂
                      (λ n r.
                        rates_from settle_time convert start_time end_time fuel fetch (suc n) r w')
                      (length-snoc before page) (wanted-snoc before page)
                    ∙ sym (turn_next fuel (suc (length before)) _ _ w w' fetched go))
                  ih
          ]

  -- If the server lists the rates newest first, in pages that are not empty, and `sort` sorts, then
  -- with as much fuel as there are pages the download ends, and returns in rising order exactly the
  -- rates of all pages from the start to the end, both included, although it may stop before the last
  -- page.
  pub get_historical_funding_rates_complete :
      (funding_time : F → ℤ) (sort : List F → List F) (fuel : ℕ) (w : W) (first : List R)
      (others : List (List R))
      → ((rs : List F) → Perm (sort rs) rs × Rising funding_time (sort rs))
      → first ∷ others ≡ pages
      → length pages ≤ fuel
      → (out : List F) × (w' : W) × (get_historical_funding_rates settle_time convert start_time
            end_time fuel sort fetch w
          ≡ some (ok out, w'))
        × Perm out (
            map convert
              (filter (λ r. is_between start_time end_time (settle_time r)) (concat pages)))
        × Rising funding_time out
  unfolding get_historical_funding_rates wanted
  get_historical_funding_rates_complete funding_time sort fuel w first others sorts e f =
      let (w', done) = rates_from_complete fuel [] others first w e (omega (arith, ap length e)) in
      let found = wanted (concat pages) in
      (sort found, w', ap (sorted_by sort) done, (sorts found).0, (sorts found).1)
