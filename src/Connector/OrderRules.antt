-- ===== src/Connector/OrderRules.antt =====
-- What `placeOrder` of src/mexc_futures_exchange_connector.cpp makes of an order.
use mexc_cpp_api.Base.{
  ◌≡◌, ◌≢◌, refl, sym, ap, ◌∙◌, ◌⊎◌, inl, inr, Bool, true, false, Option, some, none, Outcome, ok,
  ◌>>=◌, >>=-eq-ok, ◌==◌, ok-injective, subst, if◌then◌else◌,
}
use mexc_cpp_api.Base.Int.{ℤ, pos, negsuc, to_int32}
use mexc_cpp_api.Enums.{
  open_long, open_short, close_long, close_short, side_number, margin_type_of, cross,
}
use mexc_cpp_api.Enums
use mexc_cpp_api.External.{Library}
use mexc_cpp_api.Models
use mexc_cpp_api.Connector.Orders.{
  Side, buy, sell, CommonOrderType, market, limit, other_type, TimeInForce, ioc, fok, other_time,
  request_side, request_type, request_price, custom, request_of, Order,
}

-- What the number of a side means to MEXC: buying or selling, and whether a position is closed.
abbrev pub meaning : ℤ → Option (Side × Bool)
meaning (pos n) =
    if n == 1
    then some (buy, false)
    else if n == 2
    then some (buy, true)
    else if n == 3
    then some (sell, false)
    else if n == 4
    then some (sell, true)
    else none
meaning (negsuc n) = none

-- The side number that goes out means to MEXC what the order says: its side, and whether it closes.
meaning-request_side :
    (side : Side) (close : Bool)
    → meaning (side_number (request_side side close)) ≡ some (side, close)
unfolding request_side side_number
meaning-request_side buy true = refl
meaning-request_side buy false = refl
meaning-request_side sell true = refl
meaning-request_side sell false = refl

module _ (library : Library) where
  open library use {
    zero_double, get_bool, get_int, at_key, contains, dump, set_key, of_int, null_json,
  }

  -- The price of the request is that of the order for a limit order, and zero for any other.
  abbrev pub PriceRule : Order library → Models.Orders.OrderRequest library → Type 0
  PriceRule order request =
      ((order.order_type ≡ limit) × (request.price ≡ order.price))
      ⊎ ((order.order_type ≢ limit) × (request.price ≡ zero_double))

  -- The type of the request comes from the time in force if that is IOC or FOK, and it is Limit or
  -- Market otherwise.
  abbrev pub TypeRule : Order library → Models.Orders.OrderRequest library → Type 0
  TypeRule order request =
      ((order.time_in_force ≡ ioc) × (request.order_type ≡ Enums.ioc))
      ⊎ (((order.time_in_force ≡ fok) × (request.order_type ≡ Enums.fok))
          ⊎ ((order.time_in_force ≡ other_time)
              × (((order.order_type ≡ limit) × (request.order_type ≡ Enums.limit))
                  ⊎ ((order.order_type ≢ limit) × (request.order_type ≡ Enums.market)))))

  price_lem :
      (kind : CommonOrderType) (p : library.Double)
      → ((kind ≡ limit) × (request_price library kind p ≡ p))
        ⊎ ((kind ≢ limit) × (request_price library kind p ≡ zero_double))
  price_lem market p = inr (λ e. cc, refl)
  price_lem limit p = inl (refl, refl)
  price_lem other_type p = inr (λ e. cc, refl)

  plain_lem :
      (kind : CommonOrderType)
      → ((kind ≡ limit) × (request_type kind other_time ≡ Enums.limit))
        ⊎ ((kind ≢ limit) × (request_type kind other_time ≡ Enums.market))
  unfolding request_type
  plain_lem market = inr (λ e. cc, refl)
  plain_lem limit = inl (refl, refl)
  plain_lem other_type = inr (λ e. cc, refl)

  type_lem :
      (kind : CommonOrderType) (time : TimeInForce)
      → ((time ≡ ioc) × (request_type kind time ≡ Enums.ioc))
        ⊎ (((time ≡ fok) × (request_type kind time ≡ Enums.fok))
            ⊎ ((time ≡ other_time)
                × (((kind ≡ limit) × (request_type kind time ≡ Enums.limit))
                    ⊎ ((kind ≢ limit) × (request_type kind time ≡ Enums.market)))))
  unfolding request_type
  type_lem kind ioc = inl (refl, refl)
  type_lem kind fok = inr (inl (refl, refl))
  type_lem kind other_time = inr (inr (refl, plain_lem kind))

  -- The flag that `placeOrder` reads from the custom data.
  abbrev pub Closes : Order library → Bool → Type 0
  Closes order close =
      ((contains order.custom_data "close" ≡ false) × (close ≡ false))
      ⊎ ((at_key order.custom_data "close" >>= get_bool) ≡ ok close)

  custom_lem :
      (b : Bool) (o : Outcome Bool) (close : Bool)
      → (if b then o else ok false) ≡ ok close
      → ((b ≡ false) × (close ≡ false)) ⊎ (o ≡ ok close)
  custom_lem true o close h = inr h
  custom_lem false o close h = inl (refl, sym (ok-injective h))

  -- If an order becomes a request, the request has the order's symbol and quantity, a price for limit
  -- orders only, and a type by the time in force first. The number of its side means to MEXC the side
  -- of the order and the close flag of its custom data, which is unset where the data has none.
  pub request_of-rules :
      (order : Order library) (request : Models.Orders.OrderRequest library)
      → request_of library order ≡ ok request
      → (request.symbol ≡ order.symbol)
        × (request.vol ≡ order.quantity)
        × PriceRule order request
        × TypeRule order request
        × (close : Bool) × Closes order close
        × (meaning (side_number request.side) ≡ some (order.side, close))
  unfolding request_of
  request_of-rules order request h =
      let (close, e, h1) =
        >>=-eq-ok (custom library order.custom_data "close" get_bool false) _ h in
      let (open_type, e1, h2) =
        >>=-eq-ok
          (custom library order.custom_data "openType"
            (λ v. get_int v >>= λ n. ok (margin_type_of (to_int32 n))) cross)
          _ h1 in
      let (leverage, e2, h3) =
        >>=-eq-ok
          (custom library order.custom_data "leverage" (λ v. get_int v >>= λ n. ok (to_int32 n))
            (pos 0))
          _ h2 in
      let (position_id, e3, h4) =
        >>=-eq-ok (custom library order.custom_data "positionId" get_int (pos 0)) _ h3 in
      let same = ok-injective h4 in
      (
        ap (λ r. r.symbol) (sym same),
        ap (λ r. r.vol) (sym same),
        subst (PriceRule order) same (price_lem order.order_type order.price),
        subst (TypeRule order) same (type_lem order.order_type order.time_in_force),
        close,
        custom_lem _ _ close e,
        ap (λ r. meaning (side_number r.side)) (sym same) ∙ meaning-request_side order.side close,
      )
