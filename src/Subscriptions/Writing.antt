-- ===== src/Subscriptions/Writing.antt =====
-- What `writeSubscription` of src/mexc_futures_ws_session.cpp does with the subscriptions that
-- `WSSubscription::toJson` of src/mexc_event_models.cpp makes.
use mexc_cpp_api.Base.{
  ◌≡◌, refl, ap, ◌∙◌, Bool, true, false, Bool-cases, ◌⊎◌, inl, inr, List, [], ◌∷◌, ◌++◌, map,
  String, ok, fault, done, faulted, ◌>>=◌, if◌then◌else◌,
}
use mexc_cpp_api.Base.Text.{Text, codes, text_eq}
use mexc_cpp_api.External.{Library}
use mexc_cpp_api.Models.Events.{Subscription, subscription_to_json}
use mexc_cpp_api.Models.Events.Members.{subscription_members}
use mexc_cpp_api.Models.Orders.Members.{SetsKeys}
use mexc_cpp_api.Subscriptions.{
  Subscriptions, is_known, write_subscription, read_subscription, handle_api_control_msg,
}

-- The documented behaviour of the library: setting a key of null or of an object gives an object,
-- `operator[]` of a const object without the key is undefined, and strings are compared by their bytes.
pub record ReadsKeys (library : Library) : Type 0 where
  pub objects :
      (key : String) (value json : library.Json)
      → ((json ≡ library.null_json) ⊎ (library.is_object json ≡ true))
      → library.is_object (library.set_key key value json) ≡ true
  pub missing :
      (json : library.Json) (key : String)
      → library.is_object json ≡ true
      → library.contains json key ≡ false
      → library.at_key json key ≡ fault
  pub eq_strings :
      (a b : Text) → library.json_eq (library.of_string a) (library.of_string b) ≡ text_eq a b

-- Whether one of the subscriptions has the method.
pub has_method : Text → List Subscription → Bool
has_method method [] = false
has_method method (s ∷ ss) =
    let rest = has_method method ss in if text_eq s.method method then true else rest

module _ (library : Library) (sets : SetsKeys library) (reads : ReadsKeys library) where
  subscription-is_object :
      (s : Subscription) → library.is_object (subscription_to_json library s) ≡ true
  unfolding subscription_to_json
  subscription-is_object s = reads.objects _ _ _ (inr (reads.objects _ _ _ (inl refl)))

  is_known_lem :
      (request : Subscription) (subs : List Subscription)
      → is_known library
          (subscription_to_json library request)
          (map (subscription_to_json library) subs)
        ≡ (if has_method request.method subs then fault else ok false)
  unfolding is_known has_method
  is_known_lem request [] = refl
  is_known_lem request (s ∷ subs) =
      let found = subscription_members library sets s in
      let no_symbol = found.0 in
      let method = found.1 in
      let wanted = (subscription_members library sets request).1 in
      rw (method, wanted, reads.eq_strings)
        (elim (Bool-cases (text_eq s.method request.method)) [
          | inl same ↦ rw (same, reads.missing _ "symbol" (subscription-is_object s) no_symbol) refl
          | inr other ↦ rw other (is_known_lem request subs)
        ])

  -- Let the JSON library behave as documented, where a missing key of a const object is undefined
  -- behaviour, and let all confirmed subscriptions come from
  -- `WSSubscription`. A new subscription is put behind the waiting ones if no confirmed one has its
  -- method, and is undefined behaviour if one has, whatever the symbols are.
  pub write_subscription_cases :
      (request : Subscription) (subs : List Subscription) (s : Subscriptions library)
      → s.confirmed ≡ map (subscription_to_json library) subs
      → write_subscription library (subscription_to_json library request) s ≡ (
          if has_method request.method subs
          then faulted
          else done
              (record s { requests = s.requests ++ (subscription_to_json library request ∷ []) }))
  unfolding write_subscription
  write_subscription_cases request subs s e =
      let known =
        ap (is_known library (subscription_to_json library request)) e
        ∙ is_known_lem request subs in
      elim (Bool-cases (has_method request.method subs)) [
        | inl same ↦ rw (known, write_subscription) (rw same refl)
        | inr other ↦ rw (known, write_subscription) (rw other refl)
      ]

module _ (library : Library) where
  open library use {Json, contains, at_key, get_string, dump, null_json}

  -- With a logger: a waiting request that can be printed is sent, and if the next control message can be
  -- printed and says success, the request is confirmed, behind those that were, and no longer waits.
  subscription_confirmed :
      (request message : Json) (waiting confirmed : List Json) (old : Json) (sent shown : Text)
      → dump request ≡ ok sent
      → dump message ≡ ok shown
      → contains message "data" ≡ true
      → (at_key message "data" >>= get_string) ≡ ok (codes "success")
      → let s : Subscriptions library = record {
        confirmed = confirmed;
        requests = request ∷ waiting;
        subscribing = old;
      } in
        (read_subscription library true s).0 ≡ ok sent
        × handle_api_control_msg library true message (read_subscription library true s).1
          ≡ done (record {
            confirmed = confirmed ++ (request ∷ []);
            requests = waiting;
            subscribing = null_json;
          })
  unfolding read_subscription handle_api_control_msg text_eq
  subscription_confirmed request message waiting confirmed old sent shown printed message_printed
        has_data success =
      let read : read_subscription library true
            (record { confirmed = confirmed; requests = request ∷ waiting; subscribing = old })
          ≡ (ok sent, record { confirmed = confirmed; requests = waiting; subscribing = request }) =
        rw (printed, read_subscription) refl in
      (
        ap (λ p. p.0) read,
        ap (λ p. handle_api_control_msg library true message p.1) read
            ∙ rw (has_data, success, handle_api_control_msg) (rw message_printed refl),
      )
