-- ===== src/Base/StringMap.antt =====
-- `std::map<std::string, std::string>`: an association list in the order of its keys.
use mathlib.Core.Path.{◌≡◌, refl}
use mathlib.Core.Logic.{inl, inr}
use mathlib.Core.Bool.{true, false}
use mathlib.Core.List.{List, [], ◌∷◌}
use mathlib.Core.Option.{Option, none, some}
use native.Mathlib.Omega.{arith}
use mexc_cpp_api.Base.Tests.{if◌then◌else◌, Bool-cases}
use mexc_cpp_api.Base.Text.{
  Text, text_eq, text_lt, text_eq_iff, text_eq_refl, text_lt_irrefl, text_lt_trans, text_lt_connex,
}

abbrev pub StringMap {ℓ} : Type ℓ → Type ℓ
StringMap V = List (Text × V)

module _ {ℓ} {V : Type ℓ} where
  unfoldable pub lookup : Text → StringMap V → Option V
  lookup k [] = none
  lookup k ((j, v) ∷ m) = if text_eq j k then some v else lookup k m

  unfoldable pub insert_or_assign : Text → V → StringMap V → StringMap V
  insert_or_assign k v [] = (k, v) ∷ []
  insert_or_assign k v ((j, w) ∷ m) =
      if text_eq j k
      then (k, v) ∷ m
      else if text_lt k j
      then (k, v) ∷ (j, w) ∷ m
      else (j, w) ∷ insert_or_assign k v m

  -- The map less one key.
  unfoldable pub erase : Text → StringMap V → StringMap V
  erase k [] = []
  erase k ((j, v) ∷ m) = if text_eq j k then m else (j, v) ∷ erase k m

  -- The keys rise along the list, so no key occurs twice.
  abbrev Above : Text → StringMap V → Type 0
  Above k [] = Unit
  Above k ((j, w) ∷ m) = (text_lt k j ≡ true) × Above j m

  abbrev pub IsOrdered : StringMap V → Type 0
  IsOrdered [] = Unit
  IsOrdered ((k, v) ∷ m) = Above k m

  insert_or_assign-Above :
      (b k : Text) (v : V) (m : StringMap V)
      → text_lt b k ≡ true
      → Above b m
      → Above b (insert_or_assign k v m)
  unfolding insert_or_assign
  insert_or_assign-Above b k v [] h o = (h, tt)
  insert_or_assign-Above b k v ((j, w) ∷ m) h (bj, o) =
      ground (
        arith,
        text_eq_iff j k,
        text_lt_connex k j,
        text_eq_iff k j,
        insert_or_assign-Above j k v m,
      )

  pub insert_or_assign-IsOrdered :
      (k : Text) (v : V) (m : StringMap V) → IsOrdered m → IsOrdered (insert_or_assign k v m)
  unfolding insert_or_assign
  insert_or_assign-IsOrdered k v [] o = tt
  insert_or_assign-IsOrdered k v ((j, w) ∷ m) o =
      ground (
        arith,
        text_eq_iff j k,
        text_lt_connex k j,
        text_eq_iff k j,
        insert_or_assign-Above j k v m,
      )

  pub lookup-insert_or_assign :
      (k j : Text) (v : V) (m : StringMap V)
      → lookup j (insert_or_assign k v m) ≡ (if text_eq k j then some v else lookup j m)
  unfolding lookup insert_or_assign
  lookup-insert_or_assign k j v [] = refl
  lookup-insert_or_assign k j v ((i, w) ∷ m) =
      ground
        (arith, text_eq_iff k j, text_eq_iff i k, text_eq_iff i j, lookup-insert_or_assign k j v m)

  -- In any order of two assignments to different keys the map is the same.
  pub insert_or_assign_comm :
      (j k : Text) (v w : V) (m : StringMap V)
      → text_eq j k ≡ false
      → insert_or_assign j v (insert_or_assign k w m)
        ≡ insert_or_assign k w (insert_or_assign j v m)
  unfolding insert_or_assign
  insert_or_assign_comm j k v w [] h = ground (
    arith,
    text_eq_iff j k,
    text_eq_iff k j,
    text_lt_connex j k,
    text_lt_trans j k j,
    text_lt_irrefl j,
  )
  insert_or_assign_comm j k v w ((i, u) ∷ m) h = ground (
    arith,
    text_eq_iff j k,
    text_eq_iff k j,
    text_eq_iff i k,
    text_eq_iff i j,
    text_lt_connex j k,
    text_lt_trans j k j,
    text_lt_irrefl j,
    text_lt_trans j k i,
    text_lt_trans k j i,
    insert_or_assign_comm j k v w m h,
  )

  pub erase-insert_or_assign :
      (k : Text) (v : V) (m : StringMap V)
      → lookup k m ≡ none
      → erase k (insert_or_assign k v m) ≡ m
  unfolding lookup insert_or_assign erase
  erase-insert_or_assign k v [] h = rw (text_eq_refl k)
  erase-insert_or_assign k v ((i, w) ∷ m) h =
      ground (arith, text_eq_refl k, text_eq_iff i k, erase-insert_or_assign k v m)

  pub insert_or_assign-cons :
      (k : Text) (v : V) (m : StringMap V)
      → (p : Text × V) × (ps : StringMap V) × (insert_or_assign k v m ≡ p ∷ ps)
  unfolding insert_or_assign
  insert_or_assign-cons k v [] = ((k, v), [], refl)
  insert_or_assign-cons k v ((i, w) ∷ m) = elim (Bool-cases (text_eq i k)) [
    | inl e ↦ ((k, v), m, rw e)
    | inr e ↦ elim (Bool-cases (text_lt k i)) [
      | inl l ↦ ((k, v), (i, w) ∷ m, rw (e, l))
      | inr l ↦ ((i, w), insert_or_assign k v m, rw (e, l))
    ]
  ]
