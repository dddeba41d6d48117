-- ===== src/Subscriptions/Tests.antt =====
-- The subscriptions of the WebSocket session at concrete inputs.
use mexc_cpp_api.Base.{
  ◌≡◌, refl, false, [], ◌∷◌, ◌++◌, String, fault, done, faulted, arith, if◌then◌else◌,
}
use mexc_cpp_api.Base.Int.{negsuc}
use mexc_cpp_api.Base.Text.{Text, codes}
use mexc_cpp_api.External.Sample.{sample, Json, null, member, has_key, value_at}
use mexc_cpp_api.Models.Events.{Subscription, subscription_to_json}
use mexc_cpp_api.Models.Orders.Members.{SetsKeys}
use mexc_cpp_api.Subscriptions.{Subscriptions, write_subscription}
use mexc_cpp_api.Subscriptions.Writing.{ReadsKeys, has_method, write_subscription_cases}

sets_keys : SetsKeys sample
unfolding has_key value_at
sets_keys = record {
  in_null = λ key. refl;
  contains_set = λ key other value json. refl;
  at_set = λ key other value json. refl;
}

value_at-missing :
    (json : Json) (key : String) → has_key json key ≡ false → value_at json key ≡ fault
unfolding has_key value_at
value_at-missing (member k v rest) key h = ground (arith, value_at-missing rest key)
value_at-missing null key h = refl
value_at-missing (Json.text t) key h = refl
value_at-missing (Json.number n) key h = refl
value_at-missing (Json.flag b) key h = refl
value_at-missing Json.nothing key h = refl
value_at-missing (Json.item v rest) key h = refl

reads_keys : ReadsKeys sample
reads_keys = record {
  objects = λ key value json object. refl;
  missing = λ json key object. value_at-missing json key;
  eq_strings = λ a b. refl;
}

abbrev on : Text → Text → Subscription
on method symbol = record {
  method = method;
  parameters = record { symbol = symbol; interval = []; limit = negsuc 0; compress = false };
}

abbrev tickers : Subscription
tickers = on (codes "sub.ticker") (codes "BTC_USDT")

abbrev candles : Subscription
candles = on (codes "sub.kline") (codes "BTC_USDT")

abbrev running : Subscriptions sample
running = record {
  confirmed = subscription_to_json sample tickers ∷ [];
  requests = [];
  subscribing = null;
}

-- A second ticker is undefined behaviour, candles are queued.
write_subscription_cases_example :
    write_subscription sample (subscription_to_json sample candles) running ≡ (
      if has_method (codes "sub.kline") (tickers ∷ [])
      then faulted
      else done (record running { requests = [] ++ (subscription_to_json sample candles ∷ []) }))
write_subscription_cases_example =
    write_subscription_cases sample sets_keys reads_keys candles (tickers ∷ []) running refl
