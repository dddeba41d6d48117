-- ===== src/External/Sample.antt =====
-- A small instance of the libraries, for tests: JSON without nested lists, whole numbers for the
-- floating-point ones, and two texts that can be parsed.
use mexc_cpp_api.Base.{
  ℕ, zero, suc, Bool, true, false, List, [], ◌∷◌, String, Outcome, ok, throw, fault, ◌>>=◌,
  if◌then◌else◌,
}
use mexc_cpp_api.Base.Effects.{json_exception, invalid_argument}
use mexc_cpp_api.Base.Text.{Text, codes, text_eq}
use mexc_cpp_api.Base.Int.{ℤ, pos, ltb_ℤ}
use mexc_cpp_api.External.{Library}

-- An object is a chain of members, the newest first, and an array a chain of items.
pub data Json : Type 0 where
  null : Json
  text : Text → Json
  number : ℤ → Json
  flag : Bool → Json
  member : String → Json → Json → Json
  nothing : Json
  item : Json → Json → Json

abbrev same_key : String → String → Bool
same_key k l = text_eq (codes k) (codes l)

unfoldable pub has_key : Json → String → Bool
has_key (member k v rest) l = let found = has_key rest l in if same_key k l then true else found
has_key _ l = false

unfoldable pub value_at : Json → String → Outcome Json
value_at (member k v rest) l = let found = value_at rest l in if same_key k l then ok v else found
value_at _ l = fault

unfoldable pub items : Json → List Json
items (item v rest) = v ∷ items rest
items _ = []

unfoldable pub count : Json → ℕ
count (item v rest) = suc (count rest)
count (member k v rest) = suc (count rest)
count _ = 0

unfoldable pub index : Json → ℕ → Outcome Json
index (item v rest) zero = ok v
index (item v rest) (suc i) = index rest i
index _ i = fault

unfoldable pub array_of : List Json → Json
array_of [] = nothing
array_of (v ∷ vs) = item v (array_of vs)

abbrev text_of : Json → Outcome Text
text_of (text t) = ok t
text_of _ = throw json_exception

abbrev int_of : Json → Outcome ℤ
int_of (number n) = ok n
int_of _ = throw json_exception

abbrev bool_of : Json → Outcome Bool
bool_of (flag b) = ok b
bool_of _ = throw json_exception

abbrev read : {A : Type 0} → (Json → Outcome A) → Json → String → A → Outcome A
read get json key present = if has_key json key then (value_at json key >>= get) else ok present

-- The answer to an accepted order, and that to a refused one.
abbrev pub accepted : Json
accepted =
    member "success" (flag true)
      (member "code" (number (pos 0)) (member "data" (number (pos 77)) null))

abbrev pub refused : Json
refused = member "success" (flag false) (member "code" (number (pos 602)) null)

abbrev parsed : Text → Outcome Json
parsed t =
    if text_eq t (codes "accepted")
    then ok accepted
    else if text_eq t (codes "refused")
    then ok refused
    else throw json_exception

abbrev pub sample : Library
sample = record {
  Json = Json;
  Double = ℤ;
  Decimal = ℤ;
  null_json = null;
  contains = has_key;
  at_key = value_at;
  at_index = index;
  at_key_or_null = λ json key. if has_key json key then value_at json key else ok null;
  elements = items;
  size = count;
  is_object = λ json. elim json [ member k v rest ↦ true | _ ↦ false ];
  is_array = λ json. elim json [ nothing ↦ true | item v rest ↦ true | _ ↦ false ];
  is_string = λ json. elim json [ text t ↦ true | _ ↦ false ];
  is_number = λ json. elim json [ number n ↦ true | _ ↦ false ];
  is_number_integer = λ json. elim json [ number n ↦ true | _ ↦ false ];
  get_string = text_of;
  get_strings = λ json. text_of json >>= λ t. ok (t ∷ []);
  get_int = int_of;
  get_bool = bool_of;
  get_double = int_of;
  json_eq = λ a b. elim (text_of a) [
    | ok t ↦ (elim (text_of b) [ ok u ↦ text_eq t u | _ ↦ false ])
    | _ ↦ false
  ];
  parse = parsed;
  dump = λ json. ok (codes "json");
  of_string = text;
  of_int = number;
  of_bool = flag;
  of_double = number;
  of_list = array_of;
  set_key = member;
  read_string = read text_of;
  read_int = read int_of;
  read_int32 = read int_of;
  read_bool = read bool_of;
  read_double = read int_of;
  read_magic_enum = λ json key present. ok present;
  read_decimal_value = λ json key. value_at json key >>= int_of;
  zero_double = pos 0;
  is_positive = ltb_ℤ (pos 0);
  times = λ a b. a;
  double_of_int = λ n. n;
  double_to_string = λ n. codes "1";
  zero_decimal = pos 0;
  decimal_of_text = λ t. ok (pos 1);
  convert_to_double = λ d. d;
  stoi = λ t. throw invalid_argument;
}
