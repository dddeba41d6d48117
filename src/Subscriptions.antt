-- ===== src/Subscriptions.antt =====
-- The subscriptions of `WebSocketSession::P` of src/mexc_futures_ws_session.cpp: those that wait to be
-- sent, the one that was sent last, and those that the exchange has confirmed.
pub mod Writing
pub mod Control
pub mod Taking
pub mod Throwing
mod Tests
use mexc_cpp_api.Base.{
  Bool, true, false, List, [], ◌∷◌, ◌++◌, Outcome, ok, throw, fault, Step, done, threw, faulted,
  Exception, ◌>>=◌, next, not, if◌then◌else◌,
}
use mexc_cpp_api.Base.Effects.{bad_function_call}
use mexc_cpp_api.Base.Text.{Text, codes, text_eq, contains_text}
use mexc_cpp_api.External.{Library}

module _ (library : Library) where
  open library use {Json, null_json, contains, at_key, get_string, json_eq, dump}

  pub record Subscriptions : Type 0 where
    pub confirmed : List Json
    pub requests : List Json
    pub subscribing : Json

  -- The loop of `writeSubscription`: whether a confirmed subscription is the same.
  unfoldable pub is_known : Json → List Json → Outcome Bool
  is_known request [] = ok false
  is_known request (sub ∷ subs) =
      let rest = is_known request subs in
      at_key sub "method" >>= λ m. at_key request "method" >>= λ n.
      if json_eq m n
      then (at_key sub "symbol" >>= λ a.
          at_key request "symbol" >>= λ b. if json_eq a b then ok true else rest)
      else rest

  -- `writeSubscription`.
  unfoldable pub write_subscription : Json → Subscriptions → Step Subscriptions
  write_subscription request s = elim (is_known request s.confirmed) [
    | ok true ↦ done s
    | ok false ↦ done (record s { requests = s.requests ++ (request ∷ []) })
    | throw e ↦ threw e s
    | fault ↦ faulted
  ]

  -- `logMessageCB(...)` of a text, with or without a logger. The text is made first.
  abbrev log : Bool → Outcome Text → Subscriptions → Step Subscriptions
  log has_logger (throw e) s = threw e s
  log has_logger fault s = faulted
  log true (ok text) s = done s
  log false (ok text) s = threw bad_function_call s

  -- `readSubscription`: the text to send, empty for none. A request that cannot be printed is logged and
  -- dropped, what `dump` throws being derived from `std::exception`; if there is no logger the exception
  -- leaves the request in the list.
  unfoldable pub read_subscription : Bool → Subscriptions → Outcome Text × Subscriptions
  read_subscription has_logger s = elim s.requests [
    | [] ↦ (ok [], s)
    | request ∷ requests ↦ (elim (dump request) [
      | ok text ↦ (ok text, record s { requests = requests; subscribing = request })
      | throw e ↦
          if has_logger
          then (ok [], record s { requests = requests; subscribing = request })
          else (throw bad_function_call, record s { subscribing = request })
      | fault ↦ (fault, s)
    ])
  ]

  -- `isApiControlMsg`.
  unfoldable pub is_api_control_msg : Json → Outcome Bool
  is_api_control_msg json =
      if contains json "channel"
      then (at_key json "channel" >>= λ v. get_string v >>= λ t. ok (contains_text (codes "rs.") t))
      else ok false

  -- `std::ranges::find` and `erase` of what it finds.
  pub erase_first : Json → List Json → List Json
  erase_first json [] = []
  erase_first json (sub ∷ subs) =
      let rest = erase_first json subs in if json_eq sub json then subs else sub ∷ rest

  -- What the answer to a subscription does: `true` is a success.
  abbrev confirm : Bool → Json → Bool → Subscriptions → Step Subscriptions
  confirm has_logger json true s =
      log has_logger (dump json)
        (record s { confirmed = s.confirmed ++ (s.subscribing ∷ []); subscribing = null_json })
  confirm has_logger json false s =
      next
        (log has_logger (dump s.subscribing)
          (record s { confirmed = erase_first s.subscribing s.confirmed }))
        (λ t. done (record t { subscribing = null_json })) (λ t. t)

  -- `handleApiControlMsg`.
  unfoldable pub handle_api_control_msg : Bool → Json → Subscriptions → Step Subscriptions
  handle_api_control_msg has_logger json s =
      if contains json "data"
      then elim (at_key json "data" >>= get_string) [
        | ok t ↦ confirm has_logger json (text_eq t (codes "success")) s
        | throw e ↦ threw e s
        | fault ↦ faulted
      ]
      else log has_logger (dump json) s

  -- `isSubscribed`.
  pub is_subscribed : Json → List Json → Bool
  is_subscribed request [] = false
  is_subscribed request (sub ∷ subs) =
      let rest = is_subscribed request subs in if json_eq sub request then true else rest
