-- ===== src/Subscriptions/Control.antt =====
-- What `writeSubscription` and `handleApiControlMsg` of src/mexc_futures_ws_session.cpp leave of the waiting
-- requests.
use mexc_cpp_api.Base.{
  ◌≡◌, refl, sym, ap, ◌∙◌, Bool, true, false, List, [], ◌∷◌, ◌++◌, append-nil, Outcome, ok, throw,
  fault, Step, done, threw, faulted, next, ◌>>=◌, if◌then◌else◌,
}
use mexc_cpp_api.Base.Text.{Text, text_eq, codes}
use mexc_cpp_api.External.{Library}
use mexc_cpp_api.Subscriptions.{
  Subscriptions, log, confirm, handle_api_control_msg, write_subscription, is_known,
}
use mexc_cpp_api.Session.Steps.{Lands}

module _ (library : Library) where
  open library use {Json, null_json, contains, at_key, get_string, dump}

  log-Lands :
      (b : Bool) (text : Outcome Text) (s t : Subscriptions library)
      → Lands (log library b text s) t
      → t ≡ s
  log-Lands true (ok text) s t h = sym h
  log-Lands false (ok text) s t h = sym h
  log-Lands b (throw e) s t h = sym h
  log-Lands b fault s t h = absurd h

  reset-requests :
      (x : Step (Subscriptions library)) (u t : Subscriptions library)
      → ((v : Subscriptions library) → Lands x v → v ≡ u)
      → Lands (next x (λ v. done (record v { subscribing = null_json })) (λ v. v)) t
      → t.requests ≡ u.requests
  reset-requests (done v) u t only h =
      ap (λ w. w.requests) (sym h) ∙ ap (λ w. w.requests) (only v refl)
  reset-requests (threw e v) u t only h = ap (λ w. w.requests) (sym h ∙ only v refl)
  reset-requests faulted u t only h = absurd h

  confirm-requests :
      (b : Bool) (json : Json) (success : Bool) (s t : Subscriptions library)
      → Lands (confirm library b json success s) t
      → t.requests ≡ s.requests
  confirm-requests b json true s t h = ap (λ u. u.requests) (log-Lands b (dump json) _ t h)
  confirm-requests b json false s t h =
      reset-requests _ _ t (λ v. log-Lands b (dump s.subscribing) _ v) h

  answer-requests :
      (b : Bool) (json : Json) (has_data : Bool) (answer : Outcome Text)
      (s t : Subscriptions library)
      → Lands
          (if has_data
            then elim answer [
              | ok v ↦ confirm library b json (text_eq v (codes "success")) s
              | throw e ↦ threw e s
              | fault ↦ faulted
            ]
            else log library b (dump json) s)
          t
      → t.requests ≡ s.requests
  answer-requests b json true (ok v) s t h = confirm-requests b json _ s t h
  answer-requests b json true (throw e) s t h = ap (λ u. u.requests) (sym h)
  answer-requests b json true fault s t h = absurd h
  answer-requests b json false answer s t h = ap (λ u. u.requests) (log-Lands b (dump json) s t h)

  pub handle_api_control_msg-requests :
      (b : Bool) (json : Json) (s t : Subscriptions library)
      → Lands (handle_api_control_msg library b json s) t
      → t.requests ≡ s.requests
  unfolding handle_api_control_msg
  handle_api_control_msg-requests b json s t h =
      answer-requests b json (contains json "data") (at_key json "data" >>= get_string) s t h

  -- The request, if the search of the confirmed ones ends without finding it.
  abbrev unless_known : Json → Outcome Bool → List Json
  unless_known request (ok true) = []
  unless_known request (ok false) = request ∷ []
  unless_known request (throw e) = []
  unless_known request fault = []

  -- What a call of `writeSubscription` has to queue.
  abbrev pub queued_by : Json → Subscriptions library → List Json
  queued_by request s = unless_known request (is_known library request s.confirmed)

  -- `writeSubscription` puts it behind the waiting requests, and changes nothing else.
  pub write_subscription-Lands :
      (request : Json) (s t : Subscriptions library)
      → Lands (write_subscription library request s) t
      → record s { requests = s.requests ++ queued_by request s } ≡ t
  unfolding write_subscription
  write_subscription-Lands request s t h = known (is_known library request s.confirmed) h
    where
      known :
          (answer : Outcome Bool)
          → Lands
              (elim answer [
                | ok true ↦ done s
                | ok false ↦ done (record s { requests = s.requests ++ (request ∷ []) })
                | throw e ↦ threw e s
                | fault ↦ faulted
              ])
              t
          → record s { requests = s.requests ++ unless_known request answer } ≡ t
      known (ok true) g = ap (λ r. record s { requests = r }) (append-nil s.requests) ∙ g
      known (ok false) g = g
      known (throw e) g = ap (λ r. record s { requests = r }) (append-nil s.requests) ∙ g
      known fault g = absurd g

  -- Where nothing is confirmed, each subscription is new.
  pub write_subscription-first :
      (request : Json) (requests : List Json) (subscribing : Json)
      → write_subscription library request
          (record { confirmed = []; requests = requests; subscribing = subscribing })
        ≡ done (record {
          confirmed = [];
          requests = requests ++ (request ∷ []);
          subscribing = subscribing;
        })
  unfolding write_subscription is_known
  write_subscription-first request requests subscribing = refl
