-- ===== src/External.antt =====
-- What the code uses of libraries that are not in the repository: nlohmann::json, the multiprecision
-- decimals of Boost, `double`, and the helpers of the submodule vk_cpp_common. They are the fields
-- of a record, which every model takes as its argument.
pub mod Reading
pub mod Sample
use mexc_cpp_api.Base.{ℕ, Bool, List, String, Outcome}
use mexc_cpp_api.Base.Text.{Text}
use mexc_cpp_api.Base.Int.{ℤ}
use mexc_cpp_api.Enums.{CandleInterval}

pub record Library : Type 1 where
  pub Json : Type 0
  pub Double : Type 0
  -- `cpp_dec_float_50`.
  pub Decimal : Type 0
  -- nlohmann::json, reading. `at_key` is `operator[]` of a const object, undefined for a missing key;
  -- `at_index` that of a const array, undefined outside the array; `get` throws at another type.
  pub null_json : Json
  pub contains : Json → String → Bool
  pub at_key : Json → String → Outcome Json
  pub at_index : Json → ℕ → Outcome Json
  -- `operator[]` of an object that may be changed: it stores null under a missing key, and gives it.
  pub at_key_or_null : Json → String → Outcome Json
  pub elements : Json → List Json
  pub size : Json → ℕ
  pub is_object : Json → Bool
  pub is_array : Json → Bool
  pub is_string : Json → Bool
  pub is_number : Json → Bool
  pub is_number_integer : Json → Bool
  pub get_string : Json → Outcome Text
  pub get_strings : Json → Outcome (List Text)
  pub get_int : Json → Outcome ℤ
  pub get_bool : Json → Outcome Bool
  pub get_double : Json → Outcome Double
  pub json_eq : Json → Json → Bool
  pub parse : Text → Outcome Json
  pub dump : Json → Outcome Text
  -- nlohmann::json, building. `set_key` is `j[key] = v` where `j` is null or an object.
  pub of_string : Text → Json
  pub of_int : ℤ → Json
  pub of_bool : Bool → Json
  pub of_double : Double → Json
  pub of_list : List Json → Json
  pub set_key : String → Json → Json → Json
  -- json_utils.h: `readValue<T>(json, key, value)` takes the present value and gives the new one; `T` is
  -- `int64_t` for `read_int` and `int` for `read_int32`.
  pub read_string : Json → String → Text → Outcome Text
  pub read_int : Json → String → ℤ → Outcome ℤ
  pub read_int32 : Json → String → ℤ → Outcome ℤ
  pub read_bool : Json → String → Bool → Outcome Bool
  pub read_double : Json → String → Double → Outcome Double
  pub read_magic_enum : Json → String → CandleInterval → Outcome CandleInterval
  pub read_decimal_value : Json → String → Outcome Decimal
  -- `double`: 0.0, `x > 0`, the product, the cast from an integer, and `std::to_string`.
  pub zero_double : Double
  pub is_positive : Double → Bool
  pub times : Double → Double → Double
  pub double_of_int : ℤ → Double
  pub double_to_string : Double → Text
  -- `cpp_dec_float_50`: 0, `assign` from a text, and `convert_to<double>`.
  pub zero_decimal : Decimal
  pub decimal_of_text : Text → Outcome Decimal
  pub convert_to_double : Decimal → Double
  -- `std::stoi`, which throws at a text that is no `int`.
  pub stoi : Text → Outcome ℤ
