-- ===== src/FuturesClient/Tests.antt =====
-- The futures client at concrete inputs.
use mexc_cpp_api.Base.{◌≡◌, refl, List, [], ◌∷◌, true, Outcome, ok, throw, arith, ◌↔◌}
use mexc_cpp_api.Base.Effects.{api_error}
use mexc_cpp_api.Base.Int.{pos}
use mexc_cpp_api.Base.Text.{codes, text_eq}
use mexc_cpp_api.External.Sample.{sample, has_key, value_at}
use mexc_cpp_api.Http.{Response, Environment}
use mexc_cpp_api.Http.Futures.{web, method_get, method_post}
use mexc_cpp_api.Http.Sample.{sample_crypto, answering}
use mexc_cpp_api.Models
use mexc_cpp_api.RateLimiter.{wait}
use mexc_cpp_api.RateLimiter.Window.{IsValid}
use mexc_cpp_api.FuturesClient.{
  Client, check_response, token_client, rate_limited, get_call, post_call, handle_mexc_response,
  submit_order,
}
use mexc_cpp_api.FuturesClient.Answers.{Answers, get_call_returns, post_call_returns}
use mexc_cpp_api.FuturesClient.Pacing.{
  IsClock, IsPaced, Use, after, Records, moments, after-IsPaced,
}

abbrev yes : Environment
yes = answering (codes "accepted")

abbrev carol : Client sample sample_crypto yes
carol = token_client sample sample_crypto yes (codes "carol") web 5000

abbrev read_order : Response → Outcome (Models.Orders.OrderResponse sample)
read_order =
    handle_mexc_response sample (Models.Orders.fresh_order_response sample)
      (Models.Orders.order_response_from_json sample) (λ v. v.response)

abbrev order_77 : Models.Orders.OrderResponse sample
order_77 = record {
  response = record { code = pos 0; success = true; payload = sample.of_int (pos 77) };
  order_id = pos 77;
}

reads_order : read_order (record { status = pos 200; body = codes "accepted" }) ≡ ok order_77
unfolding handle_mexc_response Models.Orders.order_response_from_json
    Models.Futures.response_from_json text_eq has_key value_at
reads_order = refl

refuses :
    read_order (record { status = pos 200; body = codes "refused" })
    ≡ throw (api_error (pos 602) [])
unfolding handle_mexc_response Models.Orders.order_response_from_json
    Models.Futures.response_from_json text_eq has_key value_at
refuses = refl

abbrev read_time : Response → Outcome (Models.Futures.ServerTime sample)
read_time =
    handle_mexc_response sample
      (record { response = Models.Futures.fresh_response sample; server_time = pos 0 })
      (Models.Futures.server_time_from_json sample) (λ v. v.response)

abbrev time_77 : Models.Futures.ServerTime sample
time_77 = record {
  response = record { code = pos 0; success = true; payload = sample.of_int (pos 77) };
  server_time = pos 77;
}

get_call_returns_example :
    let c' = rate_limited sample sample_crypto yes carol in
    ((get_call sample sample_crypto yes (codes "/time") [] true read_time carol).0 ≡ ok time_77) ↔ (
      (r : Response) × ((method_get sample_crypto yes c'.http_session
          (codes "/time")
          []
          true
          c'.world).0
        ≡ ok r)
      × Answers sample
          (record { response = Models.Futures.fresh_response sample; server_time = pos 0 })
          (Models.Futures.server_time_from_json sample)
          (λ v. v.response)
          r
          time_77)
get_call_returns_example =
    get_call_returns sample sample_crypto yes (codes "/time") [] true
      (record { response = Models.Futures.fresh_response sample; server_time = pos 0 })
      (Models.Futures.server_time_from_json sample) (λ v. v.response) carol time_77

post_call_returns_example :
    let c' = rate_limited sample sample_crypto yes carol in
    ((post_call sample sample_crypto yes (codes "/order") (ok (codes "{}")) read_order carol).0
      ≡ ok order_77)
    ↔ ((r : Response) × ((method_post sample_crypto yes c'.http_session
            (codes "/order")
            (codes "{}")
            c'.world).0
          ≡ ok r)
        × Answers sample
            (Models.Orders.fresh_order_response sample)
            (Models.Orders.order_response_from_json sample)
            (λ v. v.response)
            r
            order_77)
post_call_returns_example =
    post_call_returns sample sample_crypto yes (codes "/order") (codes "{}")
      (Models.Orders.fresh_order_response sample) (Models.Orders.order_response_from_json sample)
      (λ v. v.response) carol order_77

submits :
    submit_order sample sample_crypto yes (Models.Orders.fresh_order_request sample) carol
    ≡ (ok order_77, record carol { rate_limiter = (wait 5000 carol.rate_limiter).0; world = 5020 })
unfolding submit_order post_call handle_mexc_response Models.Orders.order_response_from_json
    Models.Futures.response_from_json text_eq has_key value_at rate_limited check_response
    method_post wait
submits = refl

abbrev true_clock : IsClock yes (λ w. w)
true_clock = record {
  reads = λ w. omega arith;
  after_read = λ w. omega arith;
  after_sleep = λ ms w. omega arith;
  after_exchange = λ uri req w. omega arith;
}

abbrev three_uses : List (Use sample sample_crypto yes (λ w. w))
three_uses =
    Use.get (codes "/time") [] true
    ∷ Use.post (codes "/order") (ok (codes "{}"))
    ∷ Use.token (codes "t")
    ∷ []

abbrev fresh-IsValid : IsValid 5000 carol.rate_limiter
fresh-IsValid = record { sorted = tt; past = tt; bounded = omega arith; expired = tt }

after-IsPaced_example :
    Records sample sample_crypto yes
      (λ w. w)
      (moments sample sample_crypto yes (λ w. w) read_order three_uses carol)
      carol
      (after sample sample_crypto yes (λ w. w) read_order three_uses carol)
    × IsPaced sample sample_crypto yes
        (λ w. w)
        (after sample sample_crypto yes (λ w. w) read_order three_uses carol)
after-IsPaced_example =
    after-IsPaced sample sample_crypto yes (λ w. w) true_clock read_order three_uses carol
      fresh-IsValid
