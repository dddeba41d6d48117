-- ===== src/External/Reading.antt =====
-- The reading of one member, as the `fromJson` functions of src/mexc_models.cpp and
-- src/mexc_event_models.cpp do it: from a key of a JSON object into a field.
use mexc_cpp_api.Base.{Bool, String, Outcome, Mutate, assign, ◌>>=◌, if◌then◌else◌}
use mexc_cpp_api.Base.Text.{Text}
use mexc_cpp_api.Base.Int.{ℤ}
use mexc_cpp_api.Enums.{CandleInterval}
use mexc_cpp_api.External.{Library}

module _ (library : Library) where
  open library use {
    Json, Double, Decimal, contains, at_key, is_number, get_double, read_string, read_int,
    read_int32, read_bool, read_double, read_magic_enum, read_decimal_value, double_to_string,
    decimal_of_text,
  }

  abbrev pub text_member : {S : Type 0} → Json → String → (S → Text) → (Text → S → S) → Mutate S
  text_member json key field store s = assign (read_string json key (field s)) store s

  abbrev pub int_member : {S : Type 0} → Json → String → (S → ℤ) → (ℤ → S → S) → Mutate S
  int_member json key field store s = assign (read_int json key (field s)) store s

  abbrev pub int32_member : {S : Type 0} → Json → String → (S → ℤ) → (ℤ → S → S) → Mutate S
  int32_member json key field store s = assign (read_int32 json key (field s)) store s

  abbrev pub bool_member : {S : Type 0} → Json → String → (S → Bool) → (Bool → S → S) → Mutate S
  bool_member json key field store s = assign (read_bool json key (field s)) store s

  abbrev pub double_member :
      {S : Type 0} → Json → String → (S → Double) → (Double → S → S) → Mutate S
  double_member json key field store s = assign (read_double json key (field s)) store s

  abbrev pub interval_member :
      {S : Type 0} → Json → String → (S → CandleInterval) → (CandleInterval → S → S) → Mutate S
  interval_member json key field store s = assign (read_magic_enum json key (field s)) store s

  -- A decimal that `readDecimalValue` reads whatever its form.
  abbrev pub decimal_value_member : {S : Type 0} → Json → String → (Decimal → S → S) → Mutate S
  decimal_value_member json key store s = assign (read_decimal_value json key) store s

  -- A decimal that MEXC sends as a number: it goes through `double` and `std::to_string`.
  unfoldable pub number_or_decimal : Json → String → Outcome Decimal
  number_or_decimal json key =
      if contains json key
      then (at_key json key >>= λ value.
          if is_number value
          then (get_double value >>= λ d. decimal_of_text (double_to_string d))
          else read_decimal_value json key)
      else read_decimal_value json key

  abbrev pub decimal_member : {S : Type 0} → Json → String → (Decimal → S → S) → Mutate S
  decimal_member json key store s = assign (number_or_decimal json key) store s
