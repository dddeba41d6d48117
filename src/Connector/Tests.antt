-- ===== src/Connector/Tests.antt =====
-- The connector at concrete inputs.
use mexc_cpp_api.Base.{finish, ◌≡◌, refl, [], Bool, true, some, ok, throw}
use mexc_cpp_api.Base.Effects.{api_error}
use mexc_cpp_api.Base.Int.{pos}
use mexc_cpp_api.Base.Text.{Text, codes, text_eq}
use mexc_cpp_api.Enums.{close_short, cross, side_number, margin_type_of}
use mexc_cpp_api.Enums
use mexc_cpp_api.External.Sample.{sample, has_key, value_at}
use mexc_cpp_api.Http.{Response, Environment}
use mexc_cpp_api.Http.Futures.{web, method_post}
use mexc_cpp_api.Http.Sample.{sample_crypto, answering}
use mexc_cpp_api.Models
use mexc_cpp_api.FuturesClient.{
  Client, token_client, rate_limited, check_response, handle_mexc_response, post_call, submit_order,
}
use mexc_cpp_api.Connector.Orders.{
  buy, limit, ioc, new, request_side, request_type, request_of, Order, Trade, trade_of,
}
use mexc_cpp_api.Connector.{submit, place_order}
use mexc_cpp_api.Connector.OrderRules.{meaning, PriceRule, TypeRule, Closes, request_of-rules}
use mexc_cpp_api.Connector.Placing.{NumberRule, place_order_returns}

abbrev order : Order sample
order = record {
  symbol = codes "BTC_USDT";
  quantity = pos 3;
  price = pos 60_000;
  side = buy;
  order_type = limit;
  time_in_force = ioc;
  custom_data = sample.set_key "close" (sample.of_bool true) sample.null_json;
}

abbrev request : Models.Orders.OrderRequest sample
request = record {
  symbol = codes "BTC_USDT";
  price = pos 60_000;
  vol = pos 3;
  leverage = pos 0;
  side = close_short;
  order_type = Enums.ioc;
  open_type = cross;
  position_id = pos 0;
  external_oid = [];
  stop_loss_price = pos 0;
  take_profit_price = pos 0;
}

becomes_request : request_of sample order ≡ ok request
unfolding request_of request_side request_type has_key value_at text_eq
becomes_request = refl

request_of-rules_example :
    (request.symbol ≡ order.symbol)
    × (request.vol ≡ order.quantity)
    × PriceRule sample order request
    × TypeRule sample order request
    × (close : Bool) × Closes sample order close
    × (meaning (side_number request.side) ≡ some (buy, close))
unfolding request_of request_side request_type has_key value_at text_eq
request_of-rules_example = request_of-rules sample order request refl

abbrev yes : Environment
yes = answering (codes "accepted")

abbrev no : Environment
no = answering (codes "refused")

abbrev carol : Client sample sample_crypto yes
carol = token_client sample sample_crypto yes (codes "carol") web 5000

abbrev dave : Client sample sample_crypto no
dave = token_client sample sample_crypto no (codes "dave") web 5000

abbrev trade : Trade sample
trade = record {
  order_status = new;
  custom_data = sample.set_key "orderId" (sample.of_int (pos 77)) sample.null_json;
}

accepted_trade : (place_order sample sample_crypto yes order carol).0 ≡ ok trade
unfolding place_order submit request_of request_side request_type has_key value_at text_eq
    submit_order post_call rate_limited check_response handle_mexc_response method_post
    Models.Orders.order_response_from_json Models.Futures.response_from_json trade_of
accepted_trade = refl

is_refused : (place_order sample sample_crypto no order dave).0 ≡ throw (api_error (pos 602) [])
unfolding place_order submit request_of request_side request_type has_key value_at text_eq
    submit_order post_call rate_limited check_response handle_mexc_response method_post
    Models.Orders.order_response_from_json Models.Futures.response_from_json trade_of
is_refused = refl

place_order_returns_example :
    let c' = rate_limited sample sample_crypto yes carol in
    (request : Models.Orders.OrderRequest sample) × (body : Text) × (r : Response)
    × (json : sample.Json) × (v : Models.Orders.OrderResponse sample) × (request_of sample order
        ≡ ok request)
    × (sample.dump (Models.Orders.order_request_to_json sample request) ≡ ok body)
    × ((method_post sample_crypto yes c'.http_session
          (codes "/api/v1/private/order/submit")
          body
          c'.world).0
        ≡ ok r)
    × (r.status ≡ pos 200)
    × (sample.parse r.body ≡ ok json)
    × (finish (Models.Futures.response_from_json sample json (Models.Futures.fresh_response sample))
        ≡ ok v.response)
    × NumberRule sample sample_crypto yes v
    × (v.response.success ≡ true)
    × (trade.order_status ≡ new)
    × (trade.custom_data ≡ sample.set_key "orderId" (sample.of_int v.order_id) sample.null_json)
place_order_returns_example =
    place_order_returns sample sample_crypto yes order carol trade accepted_trade
