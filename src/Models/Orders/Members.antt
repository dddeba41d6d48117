-- ===== src/Models/Orders/Members.antt =====
-- The members of the JSON that `OrderRequest::toJson` of src/mexc_models.cpp sends.
use mexc_cpp_api.Base.{
  ◌≡◌, refl, Bool, true, false, not, String, Outcome, ok, is_empty, if◌then◌else◌,
}
use mexc_cpp_api.Base.Int.{pos, ltb_ℤ}
use mexc_cpp_api.Base.Text.{codes, text_eq}
use mexc_cpp_api.Enums.{side_number, type_number, margin_number}
use mexc_cpp_api.External.{Library}
use mexc_cpp_api.Models.Orders.{OrderRequest, set_key_if, order_members, order_request_to_json}

-- The documented behaviour of `j[key] = value` and `contains` of nlohmann::json.
pub record SetsKeys (library : Library) : Type 0 where
  pub in_null : (key : String) → library.contains library.null_json key ≡ false
  pub contains_set :
      (key other : String) (value json : library.Json)
      → library.contains (library.set_key key value json) other
        ≡ (if text_eq (codes key) (codes other) then true else library.contains json other)
  pub at_set :
      (key other : String) (value json : library.Json)
      → library.at_key (library.set_key key value json) other
        ≡ (if text_eq (codes key) (codes other) then ok value else library.at_key json other)

module _ (library : Library) (laws : SetsKeys library) where
  open library use {Json, contains, at_key, set_key, of_int, of_double, of_string, is_positive}

  pub contains_set_if :
      (present : Bool) (key other : String) (value json : Json)
      → contains (set_key_if library present key value json) other ≡ (
          if text_eq (codes key) (codes other)
          then (if present then true else contains json other)
          else contains json other)
  contains_set_if true key other value json = laws.contains_set key other value json
  contains_set_if false key other value json =
      same (text_eq (codes key) (codes other)) (contains json other)
    where
      same : (b c : Bool) → c ≡ (if b then c else c)
      same true c = refl
      same false c = refl

  pub at_set_if :
      (present : Bool) (key other : String) (value json : Json)
      → at_key (set_key_if library present key value json) other ≡ (
          if text_eq (codes key) (codes other)
          then (if present then ok value else at_key json other)
          else at_key json other)
  at_set_if true key other value json = laws.at_set key other value json
  at_set_if false key other value json =
      same (text_eq (codes key) (codes other)) (at_key json other)
    where
      same : (b : Bool) (c : Outcome Json) → c ≡ (if b then c else c)
      same true c = refl
      same false c = refl

  pub if_same : (b : Bool) → (if b then true else false) ≡ b
  if_same true = refl
  if_same false = refl

  -- If `contains`, `operator[]` and assignment to a key behave as documented, the JSON of an order holds
  -- a leverage, a position, an external number, a stop loss and a take profit exactly if the order has
  -- one; it holds the side, the type and the margin type by their numbers, and the price, the volume
  -- and the symbol of the order.
  pub order_members_rules :
      (r : OrderRequest library)
      → let json = order_request_to_json library r in
        (contains json "leverage" ≡ ltb_ℤ (pos 0) r.leverage)
        × (contains json "positionId" ≡ ltb_ℤ (pos 0) r.position_id)
        × (contains json "externalOid" ≡ not (is_empty r.external_oid))
        × (contains json "stopLossPrice" ≡ is_positive r.stop_loss_price)
        × (contains json "takeProfitPrice" ≡ is_positive r.take_profit_price)
        × (at_key json "side" ≡ ok (of_int (side_number r.side)))
        × (at_key json "type" ≡ ok (of_int (type_number r.order_type)))
        × (at_key json "openType" ≡ ok (of_int (margin_number r.open_type)))
        × (at_key json "price" ≡ ok (of_double r.price))
        × (at_key json "vol" ≡ ok (of_double r.vol))
        × (at_key json "symbol" ≡ ok (of_string r.symbol))
  unfolding order_request_to_json order_members text_eq
  order_members_rules r = (
    simp (contains_set_if, laws.contains_set, laws.in_null, if_same),
    simp (contains_set_if, laws.contains_set, laws.in_null, if_same),
    simp (contains_set_if, laws.contains_set, laws.in_null, if_same),
    simp (contains_set_if, laws.contains_set, laws.in_null, if_same),
    simp (contains_set_if, laws.contains_set, laws.in_null, if_same),
    simp (at_set_if, laws.at_set),
    simp (at_set_if, laws.at_set),
    simp (at_set_if, laws.at_set),
    simp (at_set_if, laws.at_set),
    simp (at_set_if, laws.at_set),
    simp (at_set_if, laws.at_set),
  )
