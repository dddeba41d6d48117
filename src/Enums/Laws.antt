-- ===== src/Enums/Laws.antt =====
-- The names and lengths of the candle intervals of include/vk/mexc/mexc_enums.h and src/mexc.cpp.
use mexc_cpp_api.Base.{
  ℕ, ◌+◌, ◌*◌, ◌^◌, ◌<◌, ◌≤◌, ◌≡◌, ◌≢◌, ◌-◌, ◌==◌, zero, suc, [], ◌∷◌, refl, sym, ap, ◌∙◌,
  if◌then◌else◌, arith,
}
use mexc_cpp_api.Base.Text.{Text, codes, has_prefix, substr}
use mexc_cpp_api.Base.Int.{ℤ, pos, negsuc}
use mexc_cpp_api.Enums.{
  CandleInterval, min1, min5, min15, min30, min60, hour4, hour8, day1, week1, month1, enum_name,
  number_of_ms_for_candle_interval, candle_interval_to_spot_string, margin_number, margin_type_of,
}

-- An independent reading of the names: a number in decimal, and a unit of time in ms.
abbrev decimal_value : ℕ → Text → ℕ
decimal_value n [] = n
decimal_value n (d ∷ t) = decimal_value (10 * n + (d - b'0')) t

abbrev unit_ms : ℕ → ℕ
unit_ms c =
    if c == b'm'
    then 60 * 1000
    else if c == b'h'
    then 60 * 60 * 1000
    else if c == b'd'
    then 24 * 60 * 60 * 1000
    else if c == b'W'
    then 7 * 24 * 60 * 60 * 1000
    else 30 * 24 * 60 * 60 * 1000

-- "15m": the number, then the unit.
abbrev pub spot_string_ms : ℕ → Text → ℕ
spot_string_ms n [] = 0
spot_string_ms n (c ∷ []) = n * unit_ms c
spot_string_ms n (c ∷ d ∷ t) = spot_string_ms (10 * n + (c - b'0')) (d ∷ t)

-- "Min15": the unit, told by its first two letters, then the number.
abbrev pub enum_name_ms : Text → ℕ
enum_name_ms t =
    if has_prefix (codes "Min") t
    then decimal_value 0 (substr 3 t) * (60 * 1000)
    else if has_prefix (codes "Hour") t
    then decimal_value 0 (substr 4 t) * (60 * 60 * 1000)
    else if has_prefix (codes "Day") t
    then decimal_value 0 (substr 3 t) * (24 * 60 * 60 * 1000)
    else if has_prefix (codes "Week") t
    then decimal_value 0 (substr 4 t) * (7 * 24 * 60 * 60 * 1000)
    else if has_prefix (codes "Month") t
    then decimal_value 0 (substr 5 t) * (30 * 24 * 60 * 60 * 1000)
    else 0

-- Both names of an interval say its length: read as a number and a unit (a month being 30 days) they
-- give the number of milliseconds that the code computes with.
names-tell-ms :
    (i : CandleInterval)
    → (spot_string_ms 0 (candle_interval_to_spot_string i) ≡ number_of_ms_for_candle_interval i)
      × (enum_name_ms (enum_name i) ≡ number_of_ms_for_candle_interval i)
unfolding candle_interval_to_spot_string enum_name number_of_ms_for_candle_interval has_prefix
    substr
names-tell-ms min1 = (refl, refl)
names-tell-ms _ = (refl, refl)

-- The interval of a given length.
abbrev of_ms : ℕ → CandleInterval
of_ms n =
    if n == 60000
    then min1
    else if n == 300000
    then min5
    else if n == 900000
    then min15
    else if n == 1800000
    then min30
    else if n == 3600000
    then min60
    else if n == 14400000
    then hour4
    else if n == 28800000
    then hour8
    else if n == 86400000
    then day1
    else if n == 604800000
    then week1
    else month1

of_ms_lem : (i : CandleInterval) → of_ms (number_of_ms_for_candle_interval i) ≡ i
unfolding number_of_ms_for_candle_interval
of_ms_lem min1 = refl
of_ms_lem _ = refl

ms-injective :
    (i j : CandleInterval)
    → number_of_ms_for_candle_interval i ≡ number_of_ms_for_candle_interval j
    → i ≡ j
ms-injective i j e = sym (of_ms_lem i) ∙ ap of_ms e ∙ of_ms_lem j

-- Two intervals with the same name in either API are the same interval.
names-injective :
    (i j : CandleInterval)
    → (enum_name i ≡ enum_name j → i ≡ j)
      × (candle_interval_to_spot_string i ≡ candle_interval_to_spot_string j → i ≡ j)
names-injective i j = (
  λ e. ms-injective i j (sym (names-tell-ms i).1 ∙ ap enum_name_ms e ∙ (names-tell-ms j).1),
  λ e. ms-injective i j (sym (names-tell-ms i).0 ∙ ap (spot_string_ms 0) e ∙ (names-tell-ms j).0),
)

-- The lengths that the code computes in `int` fit into 31 bits, and every length, taken a thousand
-- times as the pagination of the spot client takes it, fits into 63 bits.
ms_bounds :
    (i : CandleInterval)
    → (i ≢ month1 → number_of_ms_for_candle_interval i < 2 ^ 31)
      × (1000 * number_of_ms_for_candle_interval i < 2 ^ 63)
      × (60000 ≤ number_of_ms_for_candle_interval i)
unfolding number_of_ms_for_candle_interval
ms_bounds month1 = (λ ne. absurd (ne refl), omega arith, omega arith)
ms_bounds _ = (λ ne. omega arith, omega arith, omega arith)

-- A number that is cast to a margin type and sent is sent unchanged.
margin_number-margin_type_of : (n : ℤ) → margin_number (margin_type_of n) ≡ n
unfolding margin_number margin_type_of
margin_number-margin_type_of (pos zero) = refl
margin_number-margin_type_of (pos (suc zero)) = refl
margin_number-margin_type_of (pos (suc (suc zero))) = refl
margin_number-margin_type_of (pos (suc (suc (suc n)))) = refl
margin_number-margin_type_of (negsuc n) = refl
