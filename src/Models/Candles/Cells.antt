-- ===== src/Models/Candles/Cells.antt =====
-- What one candle of `Candles::fromJson` of src/mexc_models.cpp is read from.
use mexc_cpp_api.Base.{
  ℕ, ◌≡◌, refl, sym, ap, ◌∙◌, Bool, true, false, Outcome, ok, throw, fault, done, ◌>>=◌, >>=-eq-ok,
  ok-injective, String, assign, ◌>>◌, subst, if◌then◌else◌,
}
use mexc_cpp_api.Base.Int.{ℤ, scale, fits_int64}
use mexc_cpp_api.Base.Effects.{done-injective}
use mexc_cpp_api.External.{Library}
use mexc_cpp_api.Models.Candles.{
  Candle, Columns, fresh_candle, columns_of, candle_at, ms_at, decimal_at,
}

module _ (library : Library) where
  open library use {
    Json, Decimal, contains, at_key, at_key_or_null, size, at_index, get_int, get_double,
    double_to_string, decimal_of_text,
  }

  -- The element with index `i` of the array under a key.
  abbrev pub cell : {A : Type 0} → Json → String → ℕ → (Json → Outcome A) → Outcome A
  cell json key i read = at_key_or_null json key >>= λ column. at_index column i >>= read

  -- A number that becomes a decimal through its text.
  abbrev pub price : Json → Outcome Decimal
  price v = get_double v >>= λ d. decimal_of_text (double_to_string d)

  -- The candle holds the elements with index `i`, and its time in milliseconds.
  pub record IsRow (json : Json) (i : ℕ) (c : Candle library) : Type 0 where
    pub seconds : ℤ
    pub time : cell json "time" i get_int ≡ ok seconds
    pub ms : c.open_time ≡ scale seconds 1000
    pub open_price : cell json "open" i price ≡ ok c.open_price
    pub high : cell json "high" i price ≡ ok c.high
    pub low : cell json "low" i price ≡ ok c.low
    pub close_price : cell json "close" i price ≡ ok c.close_price
    pub volume : cell json "vol" i price ≡ ok c.volume
    pub amount : cell json "amount" i price ≡ ok c.amount

  ms_lem :
      (o : Outcome Json) (m : ℤ)
      → (o >>= λ v.
          get_int v >>= λ n. if fits_int64 (scale n 1000) then ok (scale n 1000) else fault)
        ≡ ok m
      → (n : ℤ) × ((o >>= get_int) ≡ ok n) × (m ≡ scale n 1000)
  ms_lem o m h =
      let (v, e, h') = >>=-eq-ok o _ h in
      let (n, e', h'') = >>=-eq-ok (get_int v) _ h' in
      (n, ap (λ x. x >>= get_int) e ∙ e', fitting (fits_int64 (scale n 1000)) n h'')
    where
      fitting :
          (b : Bool) (n : ℤ) → (if b then ok (scale n 1000) else fault) ≡ ok m → m ≡ scale n 1000
      fitting true n g = sym (ok-injective g)
      fitting false n g = cc

  -- What the members of a candle are read from.
  abbrev Members : Outcome ℤ → (o h l cl v a : Outcome Decimal) → Candle library → Type 0
  Members t o h l cl v a c =
      (t ≡ ok c.open_time)
      × (o ≡ ok c.open_price)
      × (h ≡ ok c.high)
      × (l ≡ ok c.low)
      × (cl ≡ ok c.close_price)
      × (v ≡ ok c.volume)
      × (a ≡ ok c.amount)

  members_lem :
      (t : Outcome ℤ) (o h l cl v a : Outcome Decimal) (c : Candle library)
      → (do
        assign t (λ x s. record s { open_time = x })
        assign o (λ x s. record s { open_price = x })
        assign h (λ x s. record s { high = x })
        assign l (λ x s. record s { low = x })
        assign cl (λ x s. record s { close_price = x })
        assign v (λ x s. record s { volume = x })
        assign a (λ x s. record s { amount = x }))
          (fresh_candle library)
        ≡ done c
      → Members t o h l cl v a c
  members_lem (ok t) (ok o) (ok h) (ok l) (ok cl) (ok v) (ok a) c e =
      subst (Members (ok t) (ok o) (ok h) (ok l) (ok cl) (ok v) (ok a)) (done-injective e)
        (refl, refl, refl, refl, refl, refl, refl)
  members_lem fault o h l cl v a c e = cc
  members_lem (throw x) o h l cl v a c e = cc
  members_lem (ok t) fault h l cl v a c e = cc
  members_lem (ok t) (throw x) h l cl v a c e = cc
  members_lem (ok t) (ok o) fault l cl v a c e = cc
  members_lem (ok t) (ok o) (throw x) l cl v a c e = cc
  members_lem (ok t) (ok o) (ok h) fault cl v a c e = cc
  members_lem (ok t) (ok o) (ok h) (throw x) cl v a c e = cc
  members_lem (ok t) (ok o) (ok h) (ok l) fault v a c e = cc
  members_lem (ok t) (ok o) (ok h) (ok l) (throw x) v a c e = cc
  members_lem (ok t) (ok o) (ok h) (ok l) (ok cl) fault a c e = cc
  members_lem (ok t) (ok o) (ok h) (ok l) (ok cl) (throw x) a c e = cc
  members_lem (ok t) (ok o) (ok h) (ok l) (ok cl) (ok v) fault c e = cc
  members_lem (ok t) (ok o) (ok h) (ok l) (ok cl) (ok v) (throw x) c e = cc

  -- The arrays of the answer, each under its key.
  pub record AreColumns (json : Json) (columns : Columns library) : Type 0 where
    pub times : at_key_or_null json "time" ≡ ok columns.times
    opens : at_key_or_null json "open" ≡ ok columns.opens
    highs : at_key_or_null json "high" ≡ ok columns.highs
    lows : at_key_or_null json "low" ≡ ok columns.lows
    closes : at_key_or_null json "close" ≡ ok columns.closes
    vols : at_key_or_null json "vol" ≡ ok columns.vols
    amounts : at_key_or_null json "amount" ≡ ok columns.amounts

  pub columns_lem :
      (json : Json) (columns : Columns library)
      → columns_of library json ≡ ok columns
      → AreColumns json columns
  unfolding columns_of
  columns_lem json columns h =
      let (t, e1, h1) = >>=-eq-ok (at_key_or_null json "time") _ h in
      let (o, e2, h2) = >>=-eq-ok (at_key_or_null json "open") _ h1 in
      let (u, e3, h3) = >>=-eq-ok (at_key_or_null json "high") _ h2 in
      let (l, e4, h4) = >>=-eq-ok (at_key_or_null json "low") _ h3 in
      let (c, e5, h5) = >>=-eq-ok (at_key_or_null json "close") _ h4 in
      let (v, e6, h6) = >>=-eq-ok (at_key_or_null json "vol") _ h5 in
      let (a, e7, h7) = >>=-eq-ok (at_key_or_null json "amount") _ h6 in
      subst (AreColumns json) (ok-injective h7) (record {
        times = e1;
        opens = e2;
        highs = e3;
        lows = e4;
        closes = e5;
        vols = e6;
        amounts = e7;
      })

  cell_lem :
      {A : Type 0} (json column : Json) (key : String) (i : ℕ) (read : Json → Outcome A) {a : A}
      → at_key_or_null json key ≡ ok column
      → (at_index column i >>= read) ≡ ok a
      → cell json key i read ≡ ok a
  cell_lem json column key i read e h = rw e h

  pub candle_lem :
      (json : Json) (columns : Columns library) (i : ℕ) (c : Candle library)
      → AreColumns json columns
      → candle_at library columns i (fresh_candle library) ≡ done c
      → IsRow json i c
  unfolding candle_at ms_at decimal_at
  candle_lem json columns i c are h =
      let (t, o, u, l, cl, v, a) = members_lem _ _ _ _ _ _ _ c h in
      let (n, e, same) = ms_lem (at_index columns.times i) c.open_time t in
      record {
        seconds = n;
        time = cell_lem json columns.times "time" i get_int are.times e;
        ms = same;
        open_price = cell_lem json columns.opens "open" i price are.opens o;
        high = cell_lem json columns.highs "high" i price are.highs u;
        low = cell_lem json columns.lows "low" i price are.lows l;
        close_price = cell_lem json columns.closes "close" i price are.closes cl;
        volume = cell_lem json columns.vols "vol" i price are.vols v;
        amount = cell_lem json columns.amounts "amount" i price are.amounts a;
      }
