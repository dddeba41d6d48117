-- ===== src/Connector/Placing.antt =====
-- When `placeOrder` of src/mexc_futures_exchange_connector.cpp gives a trade, and which.
use mexc_cpp_api.Base.{
  ◌≡◌, refl, sym, ap, ◌∙◌, ◌⊎◌, inl, inr, Bool, true, false, Outcome, ok, throw, fault, Step, done,
  threw, faulted, finish, next, assign, ◌>>=◌, >>=-eq-ok, ok-injective, subst, if◌then◌else◌,
}
use mexc_cpp_api.Base.Int.{ℤ, pos}
use mexc_cpp_api.Base.Text.{Text, codes}
use mexc_cpp_api.External.{Library}
use mexc_cpp_api.Http.{Response, Crypto, Environment}
use mexc_cpp_api.Http.Futures.{method_post}
use mexc_cpp_api.Models
use mexc_cpp_api.FuturesClient.{Client, rate_limited, post_call, submit_order}
use mexc_cpp_api.FuturesClient.Answers.{post_call_returns}
use mexc_cpp_api.Connector.Orders.{new, request_of, Order, Trade, trade_of}
use mexc_cpp_api.Connector.{submit, place_order}

module _ (library : Library) (crypto : Crypto) (env : Environment) where
  open library use {dump, set_key, of_int, null_json, parse, is_number_integer, get_int}

  submit_lem :
      (o : Outcome (Models.Orders.OrderRequest library)) (c : Client library crypto env)
      (trade : Trade library)
      → (submit library crypto env o c).0 ≡ ok trade
      → (request : Models.Orders.OrderRequest library) × (o ≡ ok request)
        × (((submit_order library crypto env request c).0 >>= λ v. ok (trade_of library v))
            ≡ ok trade)
  unfolding submit
  submit_lem (ok request) c trade h = (request, refl, h)
  submit_lem (throw e) c trade h = cc
  submit_lem fault c trade h = cc

  post_lem :
      {V : Type 0} (path : Text) (o : Outcome Text) (read : Response → Outcome V)
      (c : Client library crypto env) (v : V)
      → (post_call library crypto env path o read c).0 ≡ ok v
      → (body : Text) × (o ≡ ok body)
        × ((post_call library crypto env path (ok body) read c).0 ≡ ok v)
  unfolding post_call
  post_lem path (ok body) read c v h = (body, refl, h)
  post_lem path (throw e) read c v h = cc
  post_lem path fault read c v h = cc

  trade_of_success :
      (v : Models.Orders.OrderResponse library)
      → v.response.success ≡ true
      → (trade_of library v).order_status ≡ new
        × (trade_of library v).custom_data ≡ set_key "orderId" (of_int v.order_id) null_json
  unfolding trade_of
  trade_of_success v s = (rw s, rw s)

  -- The number of an answer is the one in its `data`, and zero if `data` is no integer.
  abbrev pub NumberRule : Models.Orders.OrderResponse library → Type 0
  NumberRule v =
      ((is_number_integer v.response.payload ≡ true) × (get_int v.response.payload ≡ ok v.order_id))
      ⊎ ((is_number_integer v.response.payload ≡ false) × (v.order_id ≡ pos 0))

  number_lem :
      (r : Models.Futures.Response library) (v : Models.Orders.OrderResponse library) (b : Bool)
      (o : Outcome ℤ)
      → is_number_integer r.payload ≡ b
      → get_int r.payload ≡ o
      → finish (
          if b
          then assign o
              (λ n t. record t { order_id = n })
              (record { response = r; order_id = pos 0 })
          else done (record { response = r; order_id = pos 0 }))
        ≡ ok v
      → (r ≡ v.response) × NumberRule v
  number_lem r v true (ok n) is_integer number h =
      let same = ok-injective h in
      let of_response = ap (λ (u : Models.Orders.OrderResponse library). u.response) same in
      (
        of_response,
        inl (
          subst (λ (u : Models.Futures.Response library). is_number_integer u.payload ≡ true)
              of_response is_integer,
          subst
              (λ (u : Models.Orders.OrderResponse library).
                get_int u.response.payload ≡ ok u.order_id)
              same number,
        ),
      )
  number_lem r v true (throw e) is_integer number h = cc
  number_lem r v true fault is_integer number h = cc
  number_lem r v false o is_integer number h =
      let same = ok-injective h in
      let of_response = ap (λ (u : Models.Orders.OrderResponse library). u.response) same in
      (
        of_response,
        inr (
          subst (λ (u : Models.Futures.Response library). is_number_integer u.payload ≡ false)
              of_response is_integer,
          ap (λ (u : Models.Orders.OrderResponse library). u.order_id) (sym same),
        ),
      )

  -- What is read from the body of an answer: its `Response` part, and the number of the order.
  read_lem :
      (json : library.Json) (v : Models.Orders.OrderResponse library)
      → finish (
          Models.Orders.order_response_from_json library json
            (Models.Orders.fresh_order_response library))
        ≡ ok v
      → (finish
            (Models.Futures.response_from_json library json (Models.Futures.fresh_response library))
          ≡ ok v.response)
        × NumberRule v
  unfolding Models.Orders.order_response_from_json
  read_lem json v h =
      parts (Models.Futures.response_from_json library json (Models.Futures.fresh_response library))
        h
    where
      parts :
          (x : Step (Models.Futures.Response library))
          → finish (
              next
                (next x
                  (λ r. done (record { response = r; order_id = pos 0 }))
                  (λ r. record { response = r; order_id = pos 0 }))
                (λ s.
                  if is_number_integer s.response.payload
                  then assign (get_int s.response.payload) (λ n t. record t { order_id = n }) s
                  else done s)
                (λ s. s))
            ≡ ok v
          → (finish x ≡ ok v.response) × NumberRule v
      parts (done r) g =
          let (same, rule) =
            number_lem r v (is_number_integer r.payload) (get_int r.payload) refl refl g in
          (ap ok same, rule)
      parts (threw e r) g = cc
      parts faulted g = cc

  -- `placeOrder` gives a trade only if the order went out and MEXC accepted it: the answer has status
  -- 200, and its body is JSON that says success. The trade is then new, and its custom data holds the
  -- number of the order: the integer in the `data` of the answer, or zero if that is no integer. A
  -- refused order is an exception, so no trade is ever rejected.
  pub place_order_returns :
      (order : Order library) (c : Client library crypto env) (trade : Trade library)
      → (place_order library crypto env order c).0 ≡ ok trade
      → let c' = rate_limited library crypto env c in
        (request : Models.Orders.OrderRequest library) × (body : Text) × (r : Response)
        × (json : library.Json) × (v : Models.Orders.OrderResponse library) × (request_of library
              order
            ≡ ok request)
        × (dump (Models.Orders.order_request_to_json library request) ≡ ok body)
        × ((method_post crypto env c'.http_session
              (codes "/api/v1/private/order/submit")
              body
              c'.world).0
            ≡ ok r)
        × (r.status ≡ pos 200)
        × (parse r.body ≡ ok json)
        × (finish (
              Models.Futures.response_from_json library json
                (Models.Futures.fresh_response library))
            ≡ ok v.response)
        × NumberRule v
        × (v.response.success ≡ true)
        × (trade.order_status ≡ new)
        × (trade.custom_data ≡ set_key "orderId" (of_int v.order_id) null_json)
  unfolding place_order submit_order
  place_order_returns order c trade h =
      let (request, e, h1) = submit_lem (request_of library order) c trade h in
      let (v, e1, h2) = >>=-eq-ok (submit_order library crypto env request c).0 _ h1 in
      let (body, e2, h3) =
        post_lem _ (dump (Models.Orders.order_request_to_json library request)) _ c v e1 in
      let (r, sent, (good, json, parsed, read, success)) =
        (post_call_returns library crypto env _ body _ _ _ c v).0 h3 in
      let same = ok-injective h2 in
      let (status, custom_data) = trade_of_success v success in
      let (of_response, number) = read_lem json v read in
      (
        request,
        body,
        r,
        json,
        v,
        e,
        e2,
        sent,
        good,
        parsed,
        of_response,
        number,
        success,
        ap (λ t. t.order_status) (sym same) ∙ status,
        ap (λ t. t.custom_data) (sym same) ∙ custom_data,
      )
