-- ===== src/Connector/Orders.antt =====
-- The orders of `placeOrder` of src/mexc_futures_exchange_connector.cpp: the request that an order
-- becomes, and the trade that an answer becomes.
use mexc_cpp_api.Base.{Bool, true, false, [], String, Outcome, ok, ◌>>=◌, if◌then◌else◌}
use mexc_cpp_api.Base.Int.{pos, to_int32}
use mexc_cpp_api.Base.Text.{Text}
use mexc_cpp_api.Enums.{
  min1, min5, min15, min30, min60, hour4, hour8, day1, week1, month1, open_long, close_short,
  open_short, close_long, cross, margin_type_of,
}
use mexc_cpp_api.Enums
use mexc_cpp_api.External.{Library}
use mexc_cpp_api.Models

-- `vk::Side`, `vk::OrderType`, `vk::TimeInForce` and `vk::OrderStatus`.
pub data Side : Type 0 where
  buy sell : Side

pub data CommonOrderType : Type 0 where
  market limit other_type : CommonOrderType

pub data TimeInForce : Type 0 where
  ioc fok other_time : TimeInForce

pub data OrderStatus : Type 0 where
  new rejected : OrderStatus

-- The test `order.side == Side::Buy`.
abbrev pub is_buy : Side → Bool
is_buy buy = true
is_buy sell = false

-- The side of the request; `close` is the flag of the custom data.
unfoldable pub request_side : Side → Bool → Enums.OrderSide
request_side side close =
    if close
    then if is_buy side then close_short else close_long
    else if is_buy side
    then open_long
    else open_short

-- The type of the request: by the type of the order first, then by its time in force.
abbrev of_type : CommonOrderType → Enums.OrderType
of_type market = Enums.market
of_type limit = Enums.limit
of_type other_type = Enums.market

unfoldable pub request_type : CommonOrderType → TimeInForce → Enums.OrderType
request_type kind ioc = Enums.ioc
request_type kind fok = Enums.fok
request_type kind other_time = of_type kind

module _ (library : Library) where
  open library use {
    Json, Double, contains, at_key, get_bool, get_int, zero_double, null_json, set_key, of_int,
    of_double, convert_to_double, times, double_of_int,
  }

  pub record Order : Type 0 where
    pub symbol : Text
    pub quantity : Double
    pub price : Double
    pub side : Side
    pub order_type : CommonOrderType
    pub time_in_force : TimeInForce
    pub custom_data : Json

  pub record Trade : Type 0 where
    pub order_status : OrderStatus
    pub custom_data : Json

  -- `contains(key) ? convert(data[key]) : otherwise`.
  abbrev pub custom : {A : Type 0} → Json → String → (Json → Outcome A) → A → Outcome A
  custom json key read otherwise =
      if contains json key then (at_key json key >>= read) else ok otherwise

  -- The price is set for a limit order only.
  abbrev pub request_price : CommonOrderType → Double → Double
  request_price limit price = price
  request_price market price = zero_double
  request_price other_type price = zero_double

  -- The request of `placeOrder`, up to `submitOrder`. Margin type and leverage are read as `int`, the
  -- position as `int64_t`.
  unfoldable pub request_of : Order → Outcome (Models.Orders.OrderRequest library)
  request_of order = do
    close ← custom order.custom_data "close" get_bool false
    open_type ←
        custom order.custom_data "openType"
          (λ v. get_int v >>= λ n. ok (margin_type_of (to_int32 n))) cross
    leverage ← custom order.custom_data "leverage" (λ v. get_int v >>= λ n. ok (to_int32 n)) (pos 0)
    position_id ← custom order.custom_data "positionId" get_int (pos 0)
    ok (record {
      symbol = order.symbol;
      price = request_price order.order_type order.price;
      vol = order.quantity;
      leverage = leverage;
      side = request_side order.side close;
      order_type = request_type order.order_type order.time_in_force;
      open_type = open_type;
      position_id = position_id;
      external_oid = [];
      stop_loss_price = zero_double;
      take_profit_price = zero_double;
    })

  -- The trade that tells of the answer.
  unfoldable pub trade_of : Models.Orders.OrderResponse library → Trade
  trade_of response =
      if response.response.success
      then record {
        order_status = new;
        custom_data = set_key "orderId" (of_int response.order_id) null_json;
      }
      else record {
        order_status = rejected;
        custom_data = set_key "errorCode" (of_int response.response.code) null_json;
      }
