-- ===== src/Session/Messages.antt =====
-- What the code for a received message of src/mexc_futures_ws_session.cpp leaves behind, for any graded
-- relation between two states of a session that the elementary changes respect.
use mexc_cpp_api.Base.{
  ◌≡◌, refl, subst, Bool, true, false, Option, none, some, Outcome, ok, throw, fault, Step, done,
  threw, faulted, Mutate, next, finish, Exception, if◌then◌else◌,
}
use mexc_cpp_api.Base.Effects.{is_std}
use mexc_cpp_api.Base.Text.{Text}
use mexc_cpp_api.External.{Library}
use mexc_cpp_api.Models.Events.{Event, event_from_json, fresh_event}
use mexc_cpp_api.Subscriptions.{Subscriptions, handle_api_control_msg, is_api_control_msg}
use mexc_cpp_api.Subscriptions.Control.{handle_api_control_msg-requests}
use mexc_cpp_api.Session.{Session, catch_std, deliver, dispatch, accept}
use mexc_cpp_api.Session.Steps.{Lands}
use mexc_cpp_api.Session.Frame.{
  Flow, Relation, Elementary, Adds, done-Adds, threw-Adds, if-Adds, log_message-Adds,
}

module _ {library : Library} {Owner : Type 0} {flow : Flow} {R : Relation library Owner}
    (elementary : Elementary library Owner flow R) where
  open elementary use {weaken, compose, same}

  catch_std-Adds : (e : Exception) → Adds library Owner R 0 (catch_std library Owner e)
  unfolding catch_std
  catch_std-Adds e =
      if-Adds elementary 0 (is_std e) _ _ (log_message-Adds elementary) (threw-Adds elementary e)

  told :
      (x : Step Owner) (s t : Session library Owner)
      → Lands
          (elim x [
            | done o ↦ done (record s { owner = o })
            | threw e o ↦ catch_std library Owner e (record s { owner = o })
            | faulted ↦ faulted
          ])
          t
      → R 0 s t
  told (done o) s t h = subst (R 0 s) h (same s (record s { owner = o }) refl refl refl)
  told (threw e o) s t h =
      compose (same s (record s { owner = o }) refl refl refl)
        (catch_std-Adds e (record s { owner = o }) t h)
  told faulted s t h = absurd h

  deliver-Adds : (json : library.Json) → Adds library Owner R 0 (deliver library Owner json)
  unfolding deliver
  deliver-Adds json s t h =
      delivered (finish (event_from_json library json (fresh_event library))) s.callback h
    where
      delivered :
          (event : Outcome (Event library)) (callback : Option (Event library → Mutate Owner))
          → Lands
              (elim event [
                | ok v ↦ (elim callback [
                  | none ↦ done s
                  | some tell ↦ (elim (tell v s.owner) [
                    | done o ↦ done (record s { owner = o })
                    | threw e o ↦ catch_std library Owner e (record s { owner = o })
                    | faulted ↦ faulted
                  ])
                ])
                | throw e ↦ catch_std library Owner e s
                | fault ↦ faulted
              ])
              t
          → R 0 s t
      delivered (ok v) none g = done-Adds elementary s t g
      delivered (ok v) (some tell) g = told (tell v s.owner) s t g
      delivered (throw e) callback g = catch_std-Adds e s t g
      delivered fault callback g = absurd g

  controlled :
      (x : Step (Subscriptions library)) (s t : Session library Owner)
      → ((v : Subscriptions library) → Lands x v → v.requests ≡ s.subscriptions.requests)
      → Lands
          (next x
            (λ v. done (record s { subscriptions = v }))
            (λ v. record s { subscriptions = v }))
          t
      → R 0 s t
  controlled (done v) s t kept h =
      subst (R 0 s) h (same s (record s { subscriptions = v }) refl refl (kept v refl))
  controlled (threw e v) s t kept h =
      subst (R 0 s) h (same s (record s { subscriptions = v }) refl refl (kept v refl))
  controlled faulted s t kept h = absurd h

  dispatch-Adds : (json : library.Json) → Adds library Owner R 0 (dispatch library Owner json)
  unfolding dispatch
  dispatch-Adds json s t h = dispatched (is_api_control_msg library json) h
    where
      dispatched :
          (answer : Outcome Bool)
          → Lands
              (elim answer [
                | ok b ↦
                    if b
                    then next
                        (handle_api_control_msg library s.has_logger json s.subscriptions)
                        (λ v. done (record s { subscriptions = v }))
                        (λ v. record s { subscriptions = v })
                    else deliver library Owner json s
                | throw e ↦ threw e s
                | fault ↦ faulted
              ])
              t
          → R 0 s t
      dispatched (ok true) g =
          controlled (handle_api_control_msg library s.has_logger json s.subscriptions) s t
            (handle_api_control_msg-requests library s.has_logger json s.subscriptions) g
      dispatched (ok false) g = deliver-Adds json s t g
      dispatched (throw e) g = threw-Adds elementary e s t g
      dispatched fault g = absurd g

  pub accept-Adds : (received : Text) → Adds library Owner R 0 (accept library Owner received)
  unfolding accept
  accept-Adds received s t h = accepted (library.parse received) h
    where
      judged :
          (json : library.Json) (b : Bool)
          → Lands (if b then dispatch library Owner json s else done s) t
          → R 0 s t
      judged json true g = dispatch-Adds json s t g
      judged json false g = done-Adds elementary s t g

      accepted :
          (answer : Outcome library.Json)
          → Lands
              (elim answer [
                | ok json ↦ if library.is_object json then dispatch library Owner json s else done s
                | throw e ↦ threw e s
                | fault ↦ faulted
              ])
              t
          → R 0 s t
      accepted (ok json) g = judged json (library.is_object json) g
      accepted (throw e) g = threw-Adds elementary e s t g
      accepted fault g = absurd g
