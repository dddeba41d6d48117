-- ===== src/FundingHistory/Tests.antt =====
-- The download of funding rates from a server with three pages.
use mathlib.Core.List.{Perm}
use mathlib.Core.List.Perm
use mexc_cpp_api.Base.{
  ℕ, zero, suc, ◌+◌, ◌≡◌, refl, sym, ap, ◌∙◌, inl, inr, List, [], ◌∷◌, ◌++◌, map, filter, some,
  Outcome, ok, All, length, arith, if◌then◌else◌, Bool-cases,
}
use mexc_cpp_api.Base.Int.{ℤ, pos, leb_ℤ, ◌≤ℤ◌}
use mexc_cpp_api.FundingHistory.{Page, rates_from, get_historical_funding_rates}
use mexc_cpp_api.FundingHistory.Complete.{
  ServesPages, Rising, concat, is_between, get_historical_funding_rates_complete,
}

-- A rate is its time.
abbrev time : ℤ → ℤ
time r = r

abbrev insert : ℤ → List ℤ → List ℤ
insert r [] = r ∷ []
insert r (s ∷ rs) = if leb_ℤ r s then r ∷ s ∷ rs else s ∷ insert r rs

abbrev sort : List ℤ → List ℤ
sort [] = []
sort (r ∷ rs) = insert r (sort rs)

insert-perm : (r : ℤ) (rs : List ℤ) → Perm (insert r rs) (r ∷ rs)
insert-perm r [] = Perm.refl (r ∷ [])
insert-perm r (s ∷ rs) = elim (Bool-cases (leb_ℤ r s)) [
  | inl le ↦ rw le (Perm.refl (r ∷ s ∷ rs))
  | inr gt ↦ rw gt (Perm.trans (Perm.cons s (insert-perm r rs)) (Perm.swap r s rs))
]

insert-All : (P : ℤ → Type 0) (r : ℤ) (rs : List ℤ) → P r → All P rs → All P (insert r rs)
insert-All P r [] p a = (p, tt)
insert-All P r (s ∷ rs) p a = ground (arith, insert-All P r rs p a.1)

All-le : (r s : ℤ) (rs : List ℤ) → r ≤ℤ s → All (λ t. s ≤ℤ t) rs → All (λ t. r ≤ℤ t) rs
All-le r s [] h a = tt
All-le r s (t ∷ rs) h a = (omega arith, All-le r s rs h a.1)

insert-Rising : (r : ℤ) (rs : List ℤ) → Rising time rs → Rising time (insert r rs)
insert-Rising r [] h = (tt, tt)
insert-Rising r (s ∷ rs) h = elim (Bool-cases (leb_ℤ r s)) [
  | inl le ↦ let small : r ≤ℤ s = ground arith in rw le ((small, All-le r s rs small h.0), h)
  | inr gt ↦ rw gt (insert-All (λ t. s ≤ℤ t) r rs (ground arith) h.0, insert-Rising r rs h.1)
]

sort-sorts : (rs : List ℤ) → Perm (sort rs) rs × Rising time (sort rs)
sort-sorts [] = (Perm.refl [], tt)
sort-sorts (r ∷ rs) =
    let (p, h) = sort-sorts rs in
    (Perm.trans (insert-perm r (sort rs)) (Perm.cons r p), insert-Rising r (sort rs) h)

abbrev pages : List (List ℤ)
pages = (pos 90 ∷ pos 80 ∷ []) ∷ (pos 70 ∷ pos 60 ∷ []) ∷ (pos 50 ∷ []) ∷ []

abbrev page_at : ℕ → List (List ℤ) → List ℤ
page_at n [] = []
page_at zero (page ∷ rest) = page
page_at (suc n) (page ∷ rest) = page_at n rest

-- The world counts the pages.
abbrev fetch : ℕ → ℕ → Outcome (Page ℤ) × ℕ
fetch zero w = (ok (record { result_list = []; total_page = pos 3 }), w + 1)
fetch (suc n) w = (ok (record { result_list = page_at n pages; total_page = pos 3 }), w + 1)

page_at-append :
    (before after : List (List ℤ)) (page : List ℤ)
    → page_at (length before) (before ++ (page ∷ after)) ≡ page
page_at-append [] after page = refl
page_at-append (p ∷ before) after page = page_at-append before after page

fetch-Serves : ServesPages pages fetch
fetch-Serves = record {
  answers = λ before after page w e. (
    w + 1,
    ap (λ p. (ok (record { result_list = p; total_page = pos 3 }), w + 1))
        (ap (page_at (length before)) (sym e) ∙ page_at-append before after page),
  );
}

-- The third page is not asked for.
stops_early :
    get_historical_funding_rates time time (pos 65) (pos 85) 3 sort fetch 0
    ≡ some (ok (pos 70 ∷ pos 80 ∷ []), 2)
unfolding get_historical_funding_rates rates_from
stops_early = refl

get_historical_funding_rates_complete_example :
    (out : List ℤ) × (w' : ℕ) × (get_historical_funding_rates time time
        (pos 65)
        (pos 85)
        3
        sort
        fetch
        0
      ≡ some (ok out, w'))
    × Perm out (map time (filter (λ r. is_between (pos 65) (pos 85) (time r)) (concat pages)))
    × Rising time out
get_historical_funding_rates_complete_example =
    get_historical_funding_rates_complete time time (pos 65) (pos 85) pages fetch fetch-Serves
      (omega arith) (omega arith) time sort 3 0 (pos 90 ∷ pos 80 ∷ [])
      ((pos 70 ∷ pos 60 ∷ []) ∷ (pos 50 ∷ []) ∷ []) sort-sorts refl (omega arith)
