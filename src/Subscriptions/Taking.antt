-- ===== src/Subscriptions/Taking.antt =====
-- What `readSubscription` of src/mexc_futures_ws_session.cpp takes from the waiting requests.
use mexc_cpp_api.Base.{
  ◌≡◌, refl, sym, ap, Bool, true, false, not, List, [], ◌∷◌, ◌++◌, map, filter, subst, ok-injective,
  is_empty, Outcome, ok, throw, fault, Exception, if◌then◌else◌,
}
use mexc_cpp_api.Base.Effects.{bad_function_call}
use mexc_cpp_api.Base.Text.{Text}
use mexc_cpp_api.External.{Library}
use mexc_cpp_api.Subscriptions.{Subscriptions, read_subscription}

-- The texts that are not empty.
abbrev pub shown : List Text → List Text
shown = filter (λ t. not (is_empty t))

module _ (library : Library) where
  open library use {Json, dump}

  -- The text of a request, empty if it cannot be printed.
  abbrev pub printed : Json → Text
  printed request = elim (dump request) [ ok text ↦ text | throw e ↦ [] | fault ↦ [] ]

  -- What has been read: the requests taken, whose only text it is.
  abbrev pub Takes : Subscriptions library → Outcome Text × Subscriptions library → Type 0
  Takes s r =
      (text : Text)
      → r.0 ≡ ok text
      → (taken : List Json) × (s.requests ≡ taken ++ r.1.requests)
        × (shown (text ∷ []) ≡ shown (map printed taken))

  -- The front request `r` has been read, and `requests` wait behind it.
  abbrev front :
      Bool
      → Subscriptions library
      → Json
      → List Json
      → Outcome Text
      → Outcome Text × Subscriptions library
  front b s r requests (ok text) = (ok text, record s { requests = requests; subscribing = r })
  front b s r requests (throw e) =
      if b
      then (ok [], record s { requests = requests; subscribing = r })
      else (throw bad_function_call, record s { subscribing = r })
  front b s r requests fault = (fault, s)

  front-Takes :
      (b : Bool) (s : Subscriptions library) (r : Json) (requests : List Json)
      (answer : Outcome Text)
      → s.requests ≡ r ∷ requests
      → dump r ≡ answer
      → Takes s (front b s r requests answer)
  front-Takes b s r requests (ok v) e d text h =
      (r ∷ [], e, rw (d, printed) (ap (λ u. shown (u ∷ [])) (sym (ok-injective h))))
  front-Takes true s r requests (throw x) e d text h =
      (r ∷ [], e, rw (d, printed) (ap (λ u. shown (u ∷ [])) (sym (ok-injective h))))
  front-Takes false s r requests (throw x) e d text h = cc
  front-Takes b s r requests fault e d text h = cc

  front-fails :
      (b : Bool) (s : Subscriptions library) (r : Json) (requests : List Json)
      (answer : Outcome Text) (x : Exception)
      → (front b s r requests answer).0 ≡ throw x
      → (front b s r requests answer).1.requests ≡ s.requests
  front-fails b s r requests (ok v) x h = cc
  front-fails true s r requests (throw y) x h = cc
  front-fails false s r requests (throw y) x h = refl
  front-fails b s r requests fault x h = cc

  read_subscription-front :
      (b : Bool) (s : Subscriptions library) (r : Json) (requests : List Json)
      → let u : Subscriptions library = record s { requests = r ∷ requests } in
        front b u r requests (dump r) ≡ read_subscription library b u
  unfolding read_subscription
  read_subscription-front b s r requests = each_answer (dump r)
    where
      u : Subscriptions library
      u = record s { requests = r ∷ requests }

      each_answer :
          (answer : Outcome Text)
          → front b u r requests answer ≡ (elim answer [
            | ok text ↦ (ok text, record u { requests = requests; subscribing = r })
            | throw x ↦
                if b
                then (ok [], record u { requests = requests; subscribing = r })
                else (throw bad_function_call, record u { subscribing = r })
            | fault ↦ (fault, u)
          ])
      each_answer (ok text) = refl
      each_answer (throw x) = refl
      each_answer fault = refl

  pub read_subscription-Takes :
      (b : Bool) (s : Subscriptions library) → Takes s (read_subscription library b s)
  unfolding read_subscription
  read_subscription-Takes b s = each_list s.requests
    where
      each_list :
          (requests : List Json)
          → let u : Subscriptions library = record s { requests = requests } in
            Takes u (read_subscription library b u)
      each_list [] = λ text h. ([], refl, ap (λ u. shown (u ∷ [])) (sym (ok-injective h)))
      each_list (r ∷ requests) =
          subst (Takes (record s { requests = r ∷ requests }))
            (read_subscription-front b s r requests) (front-Takes b _ r requests (dump r) refl refl)

  pub read_subscription-fails :
      (b : Bool) (s : Subscriptions library) (x : Exception)
      → (read_subscription library b s).0 ≡ throw x
      → (read_subscription library b s).1.requests ≡ s.requests
  unfolding read_subscription
  read_subscription-fails b s x = each_list s.requests
    where
      each_list :
          (requests : List Json)
          → let u : Subscriptions library = record s { requests = requests } in
            (read_subscription library b u).0 ≡ throw x
            → (read_subscription library b u).1.requests ≡ requests
      each_list [] = λ h. refl
      each_list (r ∷ requests) =
          subst
            (λ (p : Outcome Text × Subscriptions library).
              p.0 ≡ throw x → p.1.requests ≡ r ∷ requests)
            (read_subscription-front b s r requests) (front-fails b _ r requests (dump r) x)

  front-throws :
      (s : Subscriptions library) (r : Json) (requests : List Json) (answer : Outcome Text)
      (x : Exception)
      → (front true s r requests answer).0 ≡ throw x
      → ⊥
  front-throws s r requests (ok v) x h = cc
  front-throws s r requests (throw y) x h = cc
  front-throws s r requests fault x h = cc

  -- With a logger no exception leaves `readSubscription`.
  pub read_subscription-throws :
      (s : Subscriptions library) (x : Exception)
      → (read_subscription library true s).0 ≡ throw x
      → ⊥
  unfolding read_subscription
  read_subscription-throws s x = each_list s.requests
    where
      each_list :
          (requests : List Json)
          → let u : Subscriptions library = record s { requests = requests } in
            (read_subscription library true u).0 ≡ throw x → ⊥
      each_list [] = λ h. cc
      each_list (r ∷ requests) =
          subst (λ (p : Outcome Text × Subscriptions library). p.0 ≡ throw x → ⊥)
            (read_subscription-front true s r requests) (front-throws _ r requests (dump r) x)
