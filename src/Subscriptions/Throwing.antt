-- ===== src/Subscriptions/Throwing.antt =====
-- Which exceptions leave `handleApiControlMsg` and `readSubscription` of src/mexc_futures_ws_session.cpp, where
-- there is a logger.
use mexc_cpp_api.Base.{
  ◌≡◌, Bool, true, false, String, Outcome, ok, throw, fault, Step, done, threw, faulted, next,
  ◌>>=◌, if◌then◌else◌,
}
use mexc_cpp_api.Base.Effects.{json_exception}
use mexc_cpp_api.Base.Text.{Text, text_eq, codes, contains_text}
use mexc_cpp_api.External.{Library}
use mexc_cpp_api.Subscriptions.{
  Subscriptions, log, confirm, handle_api_control_msg, is_api_control_msg,
}

-- The exceptions of an outcome are those of the JSON library.
abbrev pub ThrowsJson {ℓ} : {A : Type ℓ} → Outcome A → Type 0
ThrowsJson (ok a) = Unit
ThrowsJson (throw e) = e ≡ json_exception
ThrowsJson fault = Unit

-- The documented exceptions of nlohmann::json.
pub record JsonExceptions (library : Library) : Type 0 where
  pub of_parse : (text : Text) → ThrowsJson (library.parse text)
  pub of_at_key : (json : library.Json) (key : String) → ThrowsJson (library.at_key json key)
  pub of_get_string : (json : library.Json) → ThrowsJson (library.get_string json)
  pub of_dump : (json : library.Json) → ThrowsJson (library.dump json)

>>=-ThrowsJson {ℓ κ} :
    {A : Type ℓ} {B : Type κ} (x : Outcome A) (f : A → Outcome B)
    → ThrowsJson x
    → ((a : A) → ThrowsJson (f a))
    → ThrowsJson (x >>= f)
>>=-ThrowsJson (ok a) f e of_f = of_f a
>>=-ThrowsJson (throw x) f e of_f = e
>>=-ThrowsJson fault f e of_f = tt

module _ (library : Library) (laws : JsonExceptions library) where
  open library use {Json, contains, at_key, get_string, dump, null_json}

  abbrev pub StepThrowsJson : Step (Subscriptions library) → Type 0
  StepThrowsJson (done s) = Unit
  StepThrowsJson (threw e s) = e ≡ json_exception
  StepThrowsJson faulted = Unit

  log-StepThrowsJson :
      (text : Outcome Text) (s : Subscriptions library)
      → ThrowsJson text
      → StepThrowsJson (log library true text s)
  log-StepThrowsJson (ok v) s e = tt
  log-StepThrowsJson (throw x) s e = e
  log-StepThrowsJson fault s e = tt

  next-StepThrowsJson :
      (x : Step (Subscriptions library)) (f : Subscriptions library → Subscriptions library)
      → StepThrowsJson x
      → StepThrowsJson (next x (λ v. done (f v)) (λ v. v))
  next-StepThrowsJson (done s) f e = tt
  next-StepThrowsJson (threw x s) f e = e
  next-StepThrowsJson faulted f e = tt

  confirm-StepThrowsJson :
      (json : Json) (success : Bool) (s : Subscriptions library)
      → StepThrowsJson (confirm library true json success s)
  confirm-StepThrowsJson json true s = log-StepThrowsJson (dump json) _ (laws.of_dump json)
  confirm-StepThrowsJson json false s =
      next-StepThrowsJson _ (λ v. record v { subscribing = null_json })
        (log-StepThrowsJson (dump s.subscribing) _ (laws.of_dump s.subscribing))

  pub handle_api_control_msg-StepThrowsJson :
      (json : Json) (s : Subscriptions library)
      → StepThrowsJson (handle_api_control_msg library true json s)
  unfolding handle_api_control_msg
  handle_api_control_msg-StepThrowsJson json s =
      replied (contains json "data") (at_key json "data" >>= get_string) (
        >>=-ThrowsJson (at_key json "data") get_string (laws.of_at_key json "data")
          laws.of_get_string)
    where
      replied :
          (has_data : Bool) (answer : Outcome Text)
          → ThrowsJson answer
          → StepThrowsJson (
              if has_data
              then elim answer [
                | ok v ↦ confirm library true json (text_eq v (codes "success")) s
                | throw e ↦ threw e s
                | fault ↦ faulted
              ]
              else log library true (dump json) s)
      replied true (ok v) e = confirm-StepThrowsJson json _ s
      replied true (throw x) e = e
      replied true fault e = tt
      replied false answer e = log-StepThrowsJson (dump json) s (laws.of_dump json)

  pub is_api_control_msg-ThrowsJson : (json : Json) → ThrowsJson (is_api_control_msg library json)
  unfolding is_api_control_msg
  is_api_control_msg-ThrowsJson json = known (contains json "channel")
    where
      known :
          (b : Bool)
          → ThrowsJson (
              if b
              then (at_key json "channel" >>= λ v.
                  get_string v >>= λ t. ok (contains_text (codes "rs.") t))
              else ok false)
      known true =
          >>=-ThrowsJson (at_key json "channel") _ (laws.of_at_key json "channel")
            (λ v. >>=-ThrowsJson (get_string v) _ (laws.of_get_string v) (λ t. tt))
      known false = tt
