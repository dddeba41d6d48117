-- ===== src/Models/Candles/Rows.antt =====
-- Which candles `Candles::fromJson` of src/mexc_models.cpp reads from the arrays of the answer.
use mexc_cpp_api.Base.{
  ℕ, ◌≡◌, refl, sym, ap, ◌∙◌, ◌<◌, arith, ◌⊎◌, inl, inr, Bool, true, false, List, [], ◌∷◌, ◌++◌,
  Outcome, ok, throw, fault, Step, done, threw, faulted, next, each, range_from, append_assoc,
  append-nil, ◌==◌, if◌then◌else◌,
}
use mexc_cpp_api.Base.Effects.{done-injective}
use mexc_cpp_api.External.{Library}
use mexc_cpp_api.Models.Candles.{
  Candle, Columns, Candles, fresh_candle, columns_of, candle_at, candle_item, candles_from_payload,
  fill,
}
use mexc_cpp_api.Models.Candles.Cells.{IsRow, AreColumns, columns_lem, candle_lem}

next-eq-done {ℓ} :
    {S : Type ℓ} (m : Step S) (k : S → Step S) {t : S}
    → next m k (λ u. u) ≡ done t
    → (s : S) × (m ≡ done s) × (k s ≡ done t)
next-eq-done (done s) k h = (s, refl, h)
next-eq-done (threw e s) k h = cc
next-eq-done faulted k h = cc

module _ (library : Library) where
  open library use {
    Json, Decimal, contains, at_key, at_key_or_null, size, at_index, get_int, get_double,
    double_to_string, decimal_of_text,
  }

  -- One candle for each index, in the order of the indices.
  abbrev pub Rows : Json → List ℕ → List (Candle library) → Type 0
  Rows json [] [] = Unit
  Rows json [] (c ∷ cs) = ⊥
  Rows json (i ∷ is) [] = ⊥
  Rows json (i ∷ is) (c ∷ cs) = IsRow library json i c × Rows json is cs

  item_lem :
      (columns : Columns library) (i : ℕ) (s t : Candles library)
      → candle_item library columns i s ≡ done t
      → (c : Candle library) × (candle_at library columns i (fresh_candle library) ≡ done c)
        × (t ≡ record s { candles = s.candles ++ (c ∷ []) })
  unfolding candle_item
  item_lem columns i s t h = go (candle_at library columns i (fresh_candle library)) h
    where
      go :
          (step : Step (Candle library))
          → next step (λ c. done (record s { candles = s.candles ++ (c ∷ []) })) (λ c. s) ≡ done t
          → (c : Candle library) × (step ≡ done c)
            × (t ≡ record s { candles = s.candles ++ (c ∷ []) })
      go (done c) e = (c, refl, cc)
      go (threw x c) e = cc
      go faulted e = cc

  -- `s` with more candles behind its own.
  abbrev pub extended : Candles library → List (Candle library) → Candles library
  extended s cs = record s { candles = s.candles ++ cs }

  abbrev replaced : Candles library → List (Candle library) → Candles library
  replaced s cs = record s { candles = cs }

  each_items :
      (json : Json) (columns : Columns library) (is : List ℕ) (s t : Candles library)
      → AreColumns library json columns
      → each (candle_item library columns) is s ≡ done t
      → (cs : List (Candle library)) × Rows json is cs × (t ≡ extended s cs)
  unfolding each
  each_items json columns [] s t are h =
      ([], tt, done-injective (sym h) ∙ ap (replaced s) (sym (append-nil s.candles)))
  each_items json columns (i ∷ is) s t are h =
      let (u, e, h') = next-eq-done (candle_item library columns i s) _ h in
      let (c, filled, same) = item_lem columns i s u e in
      let (cs, rows, last) = each_items json columns is u t are h' in
      (
        c ∷ cs,
        (candle_lem library json columns i c are filled, rows),
        last
            ∙ (ap (λ v. extended v cs) same ∙ ap (replaced s) (append_assoc s.candles (c ∷ []) cs)),
      )

  -- The answer has no times.
  abbrev pub HasNone : Json → Type 0
  HasNone json =
      (contains json "time" ≡ false)
      ⊎ ((times : Json) × (at_key json "time" ≡ ok times) × (size times ≡ 0))

  -- `t` is `s` with one candle for each index of the array `time` behind its own.
  abbrev pub Filled : Json → Candles library → Candles library → Type 0
  Filled json s t =
      (times : Json) × (cs : List (Candle library)) × (at_key_or_null json "time" ≡ ok times)
      × Rows json (range_from 0 (size times)) cs
      × (t ≡ extended s cs)

  fill-Filled :
      (json : Json) (o : Outcome (Columns library)) (s t : Candles library)
      → columns_of library json ≡ o
      → fill library o s ≡ done t
      → Filled json s t
  unfolding fill
  fill-Filled json (ok columns) s t k e =
      let are = columns_lem library json columns k in
      let (cs, rows, same) =
        each_items json columns (range_from 0 (size columns.times)) s t are e in
      (columns.times, cs, are.times, rows, same)
  fill-Filled json (throw x) s t k e = cc
  fill-Filled json fault s t k e = cc

  -- If the reading of the answer's data succeeds, either there are no times and no candle is added, or
  -- there are some, and behind the candles that were there stand those of the answer: one for each index
  -- of the array `time`, in that order. Each holds the elements with its index of the arrays `open`,
  -- `high`, `low`, `close`, `vol` and `amount`, and a thousand times that of `time`.
  pub candles_from_payload-Rows :
      (json : Json) (s t : Candles library)
      → candles_from_payload library json s ≡ done t
      → (HasNone json × (t ≡ s))
        ⊎ ((found : Json) × (at_key json "time" ≡ ok found) × (0 < size found) × Filled json s t)
  unfolding candles_from_payload
  candles_from_payload-Rows json s t h =
      guarded (contains json "time") (at_key json "time") refl refl h
    where
      counted :
          (found : Json) (empty : Bool)
          → at_key json "time" ≡ ok found
          → (size found == 0) ≡ empty
          → (if empty then done s else fill library (columns_of library json) s) ≡ done t
          → (HasNone json × (t ≡ s))
            ⊎ ((found : Json) × (at_key json "time" ≡ ok found)
                × (0 < size found)
                × Filled json s t)
      counted found true k l e = inl (inr (found, k, ground (arith, l)), sym (done-injective e))
      counted found false k l e =
          inr (found, k, ground (arith, l), fill-Filled json (columns_of library json) s t refl e)

      guarded :
          (present : Bool) (times : Outcome Json)
          → contains json "time" ≡ present
          → at_key json "time" ≡ times
          → (if present
              then elim times [
                | ok found ↦
                    if size found == 0 then done s else fill library (columns_of library json) s
                | throw e ↦ threw e s
                | fault ↦ faulted
              ]
              else done s)
            ≡ done t
          → (HasNone json × (t ≡ s))
            ⊎ ((found : Json) × (at_key json "time" ≡ ok found)
                × (0 < size found)
                × Filled json s t)
      guarded false times p k e = inl (inl p, sym (done-injective e))
      guarded true (ok found) p k e = counted found (size found == 0) k refl e
      guarded true (throw x) p k e = cc
      guarded true fault p k e = cc
