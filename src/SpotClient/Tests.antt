-- ===== src/SpotClient/Tests.antt =====
-- The spot client at concrete inputs.
use mexc_cpp_api.Base.{◌≡◌, [], false, ok, ◌↔◌}
use mexc_cpp_api.Base.Text.{codes}
use mexc_cpp_api.External.Sample.{sample}
use mexc_cpp_api.Http.{post, Response, Environment}
use mexc_cpp_api.Http.Spot.{method}
use mexc_cpp_api.Http.Sample.{sample_crypto, answering}
use mexc_cpp_api.Models
use mexc_cpp_api.SpotClient.{Client, new_client, rate_limited, call, handle_mexc_response}
use mexc_cpp_api.SpotClient.Answers.{Answers, spot_call_returns}

abbrev yes : Environment
yes = answering (codes "accepted")

abbrev alice : Client sample sample_crypto yes
alice = new_client sample sample_crypto yes (codes "alice") (codes "secret") 5000

abbrev no_key : Models.Spot.ListenKey sample
no_key = record { response = Models.Spot.fresh_response sample; listen_key = [] }

spot_call_returns_example :
    let c' = rate_limited sample sample_crypto yes alice in
    ((call sample sample_crypto yes post
        (codes "/key")
        []
        false
        (handle_mexc_response sample no_key
          (Models.Spot.listen_key_from_json sample)
          (λ v. v.response))
        alice).0
      ≡ ok no_key)
    ↔ ((r : Response) × ((method sample_crypto yes c'.http_session post
            (codes "/key")
            []
            false
            c'.world).0
          ≡ ok r)
        × Answers sample no_key
            (Models.Spot.listen_key_from_json sample)
            (λ v. v.response)
            r
            no_key)
spot_call_returns_example =
    spot_call_returns sample no_key (Models.Spot.listen_key_from_json sample) (λ v. v.response)
      sample_crypto yes post (codes "/key") [] false alice no_key
