-- ===== src/Base/Text.antt =====
-- `std::string` as a list of bytes: comparison, search, substrings and decimal print.
use Prim.Native.Nat.{ℕ, zero, suc, ◌+◌, ◌/◌, ◌%◌}
use Prim.Native.Char.{code}
use Prim.Native.String.{String}
use mathlib.Core.Path.{◌≡◌, refl}
use mathlib.Core.Logic.{◌↔◌}
use mathlib.Core.Bool.{Bool, true, false, ◌&&◌, ◌||◌}
use mathlib.Core.List.{List, [], ◌∷◌}
use native.Mathlib.Omega.{arith}
use mexc_cpp_api.Base.Tests.{ltb, ◌==◌, if◌then◌else◌}
use mexc_cpp_api.Base.Int.{ℤ, pos, negsuc}

abbrev pub Text : Type 0
Text = List ℕ

-- The bytes of an ASCII literal.
abbrev pub codes : String → Text
codes String.[] = []
codes (String.◌∷◌ c s) = code c ∷ codes s

-- `operator==`.
unfoldable pub text_eq : Text → Text → Bool
text_eq [] [] = true
text_eq (a ∷ s) (b ∷ t) = (a == b) && text_eq s t
text_eq s t = false

-- `operator<`, the order of the keys of a `std::map`.
unfoldable pub text_lt : Text → Text → Bool
text_lt [] [] = false
text_lt [] (b ∷ t) = true
text_lt (a ∷ s) [] = false
text_lt (a ∷ s) (b ∷ t) = ltb a b || ((a == b) && text_lt s t)

unfoldable pub has_prefix : Text → Text → Bool
has_prefix [] t = true
has_prefix (a ∷ s) [] = false
has_prefix (a ∷ s) (b ∷ t) = (a == b) && has_prefix s t

-- `t.find(s) != npos`.
unfoldable pub contains_text : Text → Text → Bool
unfolding has_prefix
contains_text s [] = has_prefix s []
contains_text s (b ∷ t) = has_prefix s (b ∷ t) || contains_text s t

-- `t.substr(n)` where `n` is at most the length of `t`.
unfoldable pub substr : ℕ → Text → Text
substr zero t = t
substr (suc n) [] = []
substr (suc n) (b ∷ t) = substr n t

-- The digits of a number in front of `rest`; the fuel is above the number of digits.
decimal_from : ℕ → ℕ → Text → Text
decimal_from zero n rest = rest
decimal_from (suc fuel) n rest =
    let digits = (48 + n % 10) ∷ rest in
    let more = decimal_from fuel (n / 10) digits in if ltb n 10 then digits else more

-- `std::to_string`.
unfoldable pub to_string : ℤ → Text
unfolding decimal_from
to_string (pos n) = decimal_from (suc n) n []
to_string (negsuc n) = b'-' ∷ decimal_from (suc (suc n)) (suc n) []

pub text_eq_iff : (s t : Text) → (text_eq s t ≡ true) ↔ (s ≡ t)
unfolding text_eq
text_eq_iff [] [] = (λ h. refl, λ h. refl)
text_eq_iff [] (b ∷ t) = (λ h. cc, λ h. cc)
text_eq_iff (a ∷ s) [] = (λ h. cc, λ h. cc)
text_eq_iff (a ∷ s) (b ∷ t) = ground (arith, text_eq_iff s t)

pub text_eq_refl : (s : Text) → text_eq s s ≡ true
text_eq_refl s = (text_eq_iff s s).1 refl

pub text_lt_irrefl : (s : Text) → text_lt s s ≡ false
unfolding text_lt
text_lt_irrefl [] = refl
text_lt_irrefl (a ∷ s) = ground (arith, text_lt_irrefl s)

pub text_lt_trans : (s t u : Text) → text_lt s t ≡ true → text_lt t u ≡ true → text_lt s u ≡ true
unfolding text_lt
text_lt_trans [] [] u h k = cc
text_lt_trans [] (b ∷ t) [] h k = cc
text_lt_trans [] (b ∷ t) (c ∷ u) h k = refl
text_lt_trans (a ∷ s) [] u h k = cc
text_lt_trans (a ∷ s) (b ∷ t) [] h k = cc
text_lt_trans (a ∷ s) (b ∷ t) (c ∷ u) h k = ground (arith, text_lt_trans s t u)

-- The order is total.
pub text_lt_connex : (s t : Text) → text_lt s t ≡ false → text_eq s t ≡ false → text_lt t s ≡ true
unfolding text_lt text_eq
text_lt_connex [] [] h k = cc
text_lt_connex [] (b ∷ t) h k = cc
text_lt_connex (a ∷ s) [] h k = refl
text_lt_connex (a ∷ s) (b ∷ t) h k = ground (arith, text_lt_connex s t)

prints : to_string (pos 1_700_000_000_123) ≡ codes "1700000000123"
unfolding to_string
prints = refl

finds :
    (contains_text (codes "rs.") (codes "push.rs.x") ≡ true)
    × (contains_text (codes "rs.") (codes "push.ticker") ≡ false)
unfolding contains_text
finds = (refl, refl)
