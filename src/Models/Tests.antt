-- ===== src/Models/Tests.antt =====
-- The models at concrete inputs.
use mexc_cpp_api.Base.{◌≡◌, refl, ◌⊎◌, ◌<◌, [], ◌∷◌, true, false, ok, done, each}
use mexc_cpp_api.Base.Int.{pos, scale}
use mexc_cpp_api.Base.Text.{codes, text_eq}
use mexc_cpp_api.Enums.{open_long, limit, isolated, side_number, type_number, margin_number}
use mexc_cpp_api.External.Sample.{
  sample, Json, null, number, member, item, nothing, has_key, value_at, index, count,
}
use mexc_cpp_api.Models.Orders.{OrderRequest, order_request_to_json}
use mexc_cpp_api.Models.Orders.Members.{SetsKeys, order_members_rules}
use mexc_cpp_api.Models.Events.{Subscription, parameters_to_json, subscription_to_json}
use mexc_cpp_api.Models.Events.Members.{subscription_members}
use mexc_cpp_api.Models.Candles.{
  Candles, fresh_candles, columns_of, candles_from_payload, candle_at, ms_at, decimal_at,
  candle_item, fill,
}
use mexc_cpp_api.Models.Candles.Rows.{HasNone, Filled, candles_from_payload-Rows}

sets_keys : SetsKeys sample
unfolding has_key value_at
sets_keys = record {
  in_null = λ key. refl;
  contains_set = λ key other value json. refl;
  at_set = λ key other value json. refl;
}

abbrev request : OrderRequest sample
request = record {
  symbol = codes "BTC_USDT";
  price = pos 60_000;
  vol = pos 3;
  leverage = pos 20;
  side = open_long;
  order_type = limit;
  open_type = isolated;
  position_id = pos 0;
  external_oid = [];
  stop_loss_price = pos 0;
  take_profit_price = pos 70_000;
}

order_members_rules_example :
    let json = order_request_to_json sample request in
    (has_key json "leverage" ≡ true)
    × (has_key json "positionId" ≡ false)
    × (has_key json "externalOid" ≡ false)
    × (has_key json "stopLossPrice" ≡ false)
    × (has_key json "takeProfitPrice" ≡ true)
    × (value_at json "side" ≡ ok (number (side_number open_long)))
    × (value_at json "type" ≡ ok (number (type_number limit)))
    × (value_at json "openType" ≡ ok (number (margin_number isolated)))
    × (value_at json "price" ≡ ok (number (pos 60_000)))
    × (value_at json "vol" ≡ ok (number (pos 3)))
    × (value_at json "symbol" ≡ ok (Json.text (codes "BTC_USDT")))
order_members_rules_example = order_members_rules sample sets_keys request

abbrev column : Json
column = item (number (pos 1)) (item (number (pos 61)) nothing)

abbrev two_candles : Json
two_candles = member "time" column (
    member "open" column (
      member "high" column (
        member "low" column
          (member "close" column (member "vol" column (member "amount" column null))))))

abbrev read : Candles sample
read = record {
  response = (fresh_candles sample).response;
  candles =
      record {
        open_time = pos 1000;
        open_price = pos 1;
        high = pos 1;
        low = pos 1;
        close_price = pos 1;
        volume = pos 1;
        amount = pos 1;
      }
      ∷ record {
        open_time = pos 61_000;
        open_price = pos 1;
        high = pos 1;
        low = pos 1;
        close_price = pos 1;
        volume = pos 1;
        amount = pos 1;
      }
      ∷ [];
}

reads : candles_from_payload sample two_candles (fresh_candles sample) ≡ done read
unfolding candles_from_payload columns_of fill candle_item candle_at each has_key value_at text_eq
    index count scale ms_at decimal_at
reads = refl

candles_from_payload-Rows_example :
    (HasNone sample two_candles × (read ≡ fresh_candles sample))
    ⊎ ((found : Json) × (value_at two_candles "time" ≡ ok found)
        × (0 < count found)
        × Filled sample two_candles (fresh_candles sample) read)
candles_from_payload-Rows_example =
    candles_from_payload-Rows sample two_candles (fresh_candles sample) read reads

abbrev minutes : Subscription
minutes = record {
  method = codes "sub.kline";
  parameters = record {
    symbol = codes "BTC_USDT";
    interval = codes "Min1";
    limit = pos 100;
    compress = false;
  };
}

subscription_members_example :
    let json = subscription_to_json sample minutes in
    let param = parameters_to_json sample minutes.parameters in
    (has_key json "symbol" ≡ false)
    × (value_at json "method" ≡ ok (Json.text (codes "sub.kline")))
    × (value_at json "param" ≡ ok param)
    × (value_at param "symbol" ≡ ok (Json.text (codes "BTC_USDT")))
    × (has_key param "limit" ≡ true)
    × (has_key param "interval" ≡ true)
    × (has_key param "compress" ≡ false)
subscription_members_example = subscription_members sample sets_keys minutes
