-- ===== src/Base/Effects.antt =====
-- Results of code that may throw, and of code that changes an object before it throws.
use mathlib.Core.Path.{◌≡◌, refl, sym, ap, ◌∙◌}
use mathlib.Core.Bool.{Bool, true, false}
use mexc_cpp_api.Base.Tests.{if◌then◌else◌}
use mathlib.Core.List.{List, [], ◌∷◌}
use mexc_cpp_api.Base.Lists.{All}
use mexc_cpp_api.Base.Text.{Text}
use mexc_cpp_api.Base.Int.{ℤ}

-- The exceptions that the program throws or catches. `json_exception` is `nlohmann::json::exception`,
-- `system_error` is one of the network layer, and `foreign_exception` is any that is not derived from
-- `std::exception`: a user's callback may throw one, the program and the libraries it calls do not.
pub data Exception : Type 0 where
  json_exception : Exception
  bad_function_call : Exception
  invalid_argument : Exception
  system_error : Exception
  runtime_error : Text → Exception
  bad_response : ℤ → Text → Exception
  api_error : ℤ → Text → Exception
  unsupported_interval : Exception
  foreign_exception : Exception

-- Whether `catch (std::exception &)` catches it.
abbrev pub is_std : Exception → Bool
is_std foreign_exception = false
is_std _ = true

-- `fault` is undefined behaviour, which no handler catches.
pub data Outcome {ℓ} (A : Type ℓ) : Type ℓ where
  ok : A → Outcome A
  throw : Exception → Outcome A
  fault : Outcome A

-- The next call is made with the value that the first one returns.
infixl 5 ◌>>=◌
abbrev pub ◌>>=◌ {ℓ κ} : {V : Type ℓ} {W : Type κ} → Outcome V → (V → Outcome W) → Outcome W
fault >>= continue = fault
throw exception >>= continue = throw exception
ok value >>= continue = continue value

-- If both calls together return, then the first one has returned, and so has the second.
pub >>=-eq-ok {ℓ κ} :
    {V : Type ℓ} {W : Type κ} (first : Outcome V) (continue : V → Outcome W) {result : W}
    → (first >>= continue) ≡ ok result
    → (value : V) × (first ≡ ok value) × (continue value ≡ ok result)
>>=-eq-ok fault continue returns = cc
>>=-eq-ok (throw exception) continue returns = cc
>>=-eq-ok (ok value) continue returns = (value, refl, returns)

pub if-eq-ok {ℓ} :
    {A : Type ℓ} (b : Bool) (a : A) (e : Exception) {c : A}
    → (if b then ok a else throw e) ≡ ok c
    → (b ≡ true) × (ok a ≡ ok c)
if-eq-ok true a e h = (refl, h)
if-eq-ok false a e h = cc

pub ok-injective {ℓ} : {A : Type ℓ} {a b : A} → ok a ≡ ok b → a ≡ b
ok-injective h = cc

-- What a member function leaves behind: the object as changed so far, also when it throws.
pub data Step {ℓ} (S : Type ℓ) : Type ℓ where
  done : S → Step S
  threw : Exception → S → Step S
  faulted : Step S

abbrev pub Mutate {ℓ} : Type ℓ → Type ℓ
Mutate S = S → Step S

abbrev pub next {ℓ κ} : {S : Type ℓ} {T : Type κ} → Step S → (S → Step T) → (S → T) → Step T
next (done s) k up = k s
next (threw e s) k up = threw e (up s)
next faulted k up = faulted

-- One change after another.
infixl 5 ◌>>◌
abbrev pub ◌>>◌ {ℓ} : {S : Type ℓ} → Mutate S → Mutate S → Mutate S
◌>>◌ m k s = next (m s) k (λ t. t)

-- A computed value is stored; a failed computation leaves the object as it is.
abbrev pub assign {ℓ κ} : {S : Type ℓ} {T : Type κ} → Outcome T → (T → S → S) → Mutate S
assign (ok v) store s = done (store v s)
assign (throw e) store s = threw e s
assign fault store s = faulted

-- A change of a part of the object.
abbrev pub within {ℓ κ} : {S : Type ℓ} {T : Type κ} → (S → T) → (T → S → S) → Mutate T → Mutate S
within part store m s = next (m (part s)) (λ t. done (store t s)) (λ t. store t s)

-- A local object is filled and then used; if filling it throws, the object itself stays.
abbrev pub local {ℓ κ} : {S : Type ℓ} {T : Type κ} → T → Mutate T → (T → S → S) → Mutate S
local fresh m store s = next (m fresh) (λ t. done (store t s)) (λ t. s)

-- The body of a loop over a list.
unfoldable pub each {ℓ κ} : {S : Type ℓ} {A : Type κ} → (A → Mutate S) → List A → Mutate S
each body [] s = done s
each body (x ∷ xs) s = next (body x s) (each body xs) (λ t. t)

-- What a fresh object becomes, for callers that do not see a half-filled one.
abbrev pub finish {ℓ} : {S : Type ℓ} → Step S → Outcome S
finish (done s) = ok s
finish (threw e s) = throw e
finish faulted = fault

-- What a value becomes by one change for each element.
unfoldable pub after_all {ℓ κ} : {A : Type ℓ} {V : Type κ} → (A → V → V) → List A → V → V
after_all change [] v = v
after_all change (x ∷ xs) v = after_all change xs (change x v)

pub done-injective {ℓ} : {S : Type ℓ} {s t : S} → done s ≡ done t → s ≡ t
done-injective h = cc

-- A loop that ends without an exception changes a view of the object as each body changes it.
module _ {ℓ κ μ ν} {S : Type ℓ} {A : Type κ} {V : Type μ} (body : A → Mutate S) (view : S → V)
    (change : A → V → V) (Good : A → Type ν)
    (one : (a : A) (s t : S) → Good a → body a s ≡ done t → view t ≡ change a (view s)) where
  pub each-after_all :
      (items : List A) (s t : S)
      → All Good items
      → each body items s ≡ done t
      → view t ≡ after_all change items (view s)
  unfolding each after_all
  each-after_all [] s t good h = ap view (sym (done-injective h))
  each-after_all (a ∷ items) s t (good, rest) h =
      first (body a s) refl (λ u. each-after_all items u t rest) h
    where
      first :
          (x : Step S)
          → body a s ≡ x
          → ((u : S) → each body items u ≡ done t → view t ≡ after_all change items (view u))
          → next x (each body items) (λ u. u) ≡ done t
          → view t ≡ after_all change items (change a (view s))
      first (done u) k others g = others u g ∙ ap (after_all change items) (one a s u good k)
      first (threw e u) k others g = cc
      first faulted k others g = cc
