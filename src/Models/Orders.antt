-- ===== src/Models/Orders.antt =====
-- The orders of include/vk/mexc/mexc_models.h and src/mexc_models.cpp.
pub mod Members
use mexc_cpp_api.Base.{
  Bool, List, [], ◌∷◌, ◌++◌, String, done, Mutate, ◌>>◌, assign, within, local, each, is_empty, not,
  if◌then◌else◌,
}
use mexc_cpp_api.Base.Text.{Text}
use mexc_cpp_api.Base.Int.{ℤ, pos, ltb_ℤ}
use mexc_cpp_api.Enums.{
  OrderSide, no_side, OrderType, no_type, MarginType, other_margin, side_number, type_number,
  margin_number,
}
use mexc_cpp_api.External.{Library}
use mexc_cpp_api.External.Reading.{int32_member, text_member, int_member}
use mexc_cpp_api.Models.Futures.{Response, fresh_response, response_from_json}

module _ (library : Library) where
  open library use {
    Json, Double, null_json, set_key, of_string, of_int, of_double, is_positive, zero_double,
    is_number_integer, get_int, is_array, elements,
  }

  pub record OrderRequest : Type 0 where
    pub symbol : Text
    pub price : Double
    pub vol : Double
    pub leverage : ℤ
    pub side : OrderSide
    pub order_type : OrderType
    pub open_type : MarginType
    pub position_id : ℤ
    pub external_oid : Text
    pub stop_loss_price : Double
    pub take_profit_price : Double

  abbrev pub fresh_order_request : OrderRequest
  fresh_order_request = record {
    symbol = [];
    price = zero_double;
    vol = zero_double;
    leverage = pos 0;
    side = no_side;
    order_type = no_type;
    open_type = other_margin (pos 0);
    position_id = pos 0;
    external_oid = [];
    stop_loss_price = zero_double;
    take_profit_price = zero_double;
  }

  -- `if (present) j[key] = value;`
  abbrev pub set_key_if : Bool → String → Json → Json → Json
  set_key_if present key value json = if present then set_key key value json else json

  -- The members that every order has.
  unfoldable pub order_members : OrderRequest → Json
  order_members r = set_key "openType" (of_int (margin_number r.open_type)) (
      set_key "type" (of_int (type_number r.order_type)) (
        set_key "side" (of_int (side_number r.side)) (
          set_key "vol" (of_double r.vol) (
            set_key "price" (of_double r.price)
              (set_key "symbol" (of_string r.symbol) null_json)))))

  -- `OrderRequest::toJson`.
  unfoldable pub order_request_to_json : OrderRequest → Json
  unfolding order_members
  order_request_to_json r =
      set_key_if (is_positive r.take_profit_price) "takeProfitPrice" (of_double r.take_profit_price)
        (set_key_if (is_positive r.stop_loss_price) "stopLossPrice" (of_double r.stop_loss_price) (
          set_key_if (not (is_empty r.external_oid)) "externalOid" (of_string r.external_oid) (
            set_key_if (ltb_ℤ (pos 0) r.position_id) "positionId" (of_int r.position_id) (
              set_key_if (ltb_ℤ (pos 0) r.leverage) "leverage" (of_int r.leverage)
                (order_members r)))))

  pub record OrderResponse : Type 0 where
    pub response : Response library
    pub order_id : ℤ

  abbrev pub fresh_order_response : OrderResponse
  fresh_order_response = record { response = fresh_response library; order_id = pos 0 }

  unfoldable pub order_response_from_json : Json → Mutate OrderResponse
  order_response_from_json json = do
    within (λ s. s.response) (λ r s. record s { response = r }) (response_from_json library json)
    λ s.
        if is_number_integer s.response.payload
        then assign (get_int s.response.payload) (λ v t. record t { order_id = v }) s
        else done s

  -- `CancelOrderResponse::Result`.
  pub record CancelResult : Type 0 where
    pub order_id : ℤ
    pub error_code : ℤ
    pub error_msg : Text

  abbrev pub fresh_cancel_result : CancelResult
  fresh_cancel_result = record { order_id = pos 0; error_code = pos 0; error_msg = [] }

  cancel_result_from_json : Json → Mutate CancelResult
  cancel_result_from_json json = do
    int_member library json "orderId" (λ s. s.order_id) (λ v s. record s { order_id = v })
    int32_member library json "errorCode" (λ s. s.error_code) (λ v s. record s { error_code = v })
    text_member library json "errorMsg" (λ s. s.error_msg) (λ v s. record s { error_msg = v })

  pub record CancelOrderResponse : Type 0 where
    pub response : Response library
    pub results : List CancelResult

  abbrev pub fresh_cancel_order_response : CancelOrderResponse
  fresh_cancel_order_response = record { response = fresh_response library; results = [] }

  cancel_result_item : Json → Mutate CancelOrderResponse
  unfolding cancel_result_from_json
  cancel_result_item item =
      local fresh_cancel_result (cancel_result_from_json item)
        (λ v s. record s { results = s.results ++ (v ∷ []) })

  unfoldable pub cancel_order_response_from_json : Json → Mutate CancelOrderResponse
  unfolding cancel_result_item
  cancel_order_response_from_json json = do
    within (λ s. s.response) (λ r s. record s { response = r }) (response_from_json library json)
    λ s.
        if is_array s.response.payload
        then each cancel_result_item (elements s.response.payload) s
        else done s
