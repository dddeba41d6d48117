-- ===== src/Http/Tests.antt =====
-- The HTTP sessions at concrete inputs, with digests and a network that are easy to follow.
use mexc_cpp_api.Base.{
  ℕ, ◌+◌, ◌≡◌, refl, ◌⊎◌, [], ◌∷◌, ◌++◌, true, false, some, arith, ok, throw, Exception,
}
use mexc_cpp_api.Base.Int.{pos}
use mexc_cpp_api.Base.Text.{Text, codes, to_string, text_eq, text_lt}
use mexc_cpp_api.Base.StringMap.{StringMap, lookup, erase, insert_or_assign}
use mexc_cpp_api.Http.{get, Request, Crypto, Environment, header}
use mexc_cpp_api.Http.Query.{create_query_str}
use mexc_cpp_api.Http.Query.Laws.{read_key, read_key-create_query_str}
use mexc_cpp_api.Http.Spot.{SpotSession, spot_session, create_request}
use mexc_cpp_api.Http.Futures.{
  FuturesSession, key_session, token_session, web, open_api, method_get, method_post, dressed,
  authenticate_get,
}
use mexc_cpp_api.Http.Signing.{
  spot_request_signed, accepts_key, accepts_token, method_get_accepted, method_post_cases,
}

abbrev crypto : Crypto
crypto = record {
  hmac_sha256 = λ key message. key ++ (codes ":" ++ message);
  md5 = λ message. codes "digest:" ++ message;
  string_to_hex = λ digest. codes "hex:" ++ digest;
}

-- The world counts what has happened; the server answers with the target.
abbrev env : Environment
env = record {
  World = ℕ;
  current_time_ms = λ w. (1_700_000_000_000 + w, w + 1);
  sleep_for_ms = λ ms w. w + ms;
  version_string = codes "Beast";
  exchange = λ host req w. (ok (record { status = pos 200; body = req.target }), w + 1);
}

abbrev symbol_and_limit : StringMap Text
symbol_and_limit = (codes "limit", codes "5") ∷ (codes "symbol", codes "BTC_USDT") ∷ []

query : create_query_str symbol_and_limit ≡ codes "limit=5&symbol=BTC_USDT"
unfolding create_query_str
query = refl

abbrev alice : SpotSession
alice = spot_session (codes "alice") (codes "secret")

signed_target :
    (create_request crypto alice 17 get (codes "/api") symbol_and_limit false).0.target
    ≡ codes
        "/api?limit=5&signature=hex:secret:limit=5&symbol=BTC_USDT&timestamp=17&symbol=BTC_USDT&timestamp=17"
unfolding create_request create_query_str insert_or_assign text_eq text_lt to_string
signed_target = refl

sent_private :
    method_get crypto env
      (key_session (codes "k") (codes "s"))
      (codes "/a")
      symbol_and_limit
      false
      3
    ≡ (ok (record { status = pos 200; body = codes "/a?limit=5&symbol=BTC_USDT" }), 5)
unfolding method_get create_query_str dressed authenticate_get
sent_private = refl

read_key-create_query_str_example :
    read_key [] (create_query_str symbol_and_limit) ≡ symbol_and_limit
read_key-create_query_str_example =
    read_key-create_query_str (codes "limit", codes "5") ((codes "symbol", codes "BTC_USDT") ∷ [])
      (ground arith)

spot_request_signed_example :
    let (req, signed) = create_request crypto alice 17 get (codes "/api") symbol_and_limit false in
    (req.target ≡ codes "/api" ++ (codes "?" ++ create_query_str signed))
    × (lookup (codes "signature") signed
        ≡ some (
            codes "hex:"
            ++ (codes "secret"
                ++ (codes ":" ++ create_query_str (erase (codes "signature") signed)))))
    × (lookup (codes "timestamp") signed ≡ some (to_string (pos 17)))
    × (lookup (codes "limit") signed ≡ some (codes "5"))
    × (header "X-MEXC-APIKEY" req ≡ some (codes "alice"))
unfolding lookup text_eq
spot_request_signed_example =
    spot_request_signed crypto alice 17 get (codes "/api") symbol_and_limit (codes "limit") refl
      refl refl

abbrev bob : FuturesSession
bob = key_session (codes "bob") (codes "secret")

method_get_accepted_example :
    (req : Request) × (method_get crypto env bob (codes "/a") symbol_and_limit false 3
      ≡ env.exchange bob.uri req (env.current_time_ms 3).1)
    × (accepts_key crypto (codes "secret") req ≡ true)
method_get_accepted_example =
    method_get_accepted crypto env bob (codes "/a") 3 symbol_and_limit refl (ground arith)

method_post_cases_example :
    let carol = token_session (codes "carol") web in
    ((web ≡ web)
      × (req : Request) × (method_post crypto env carol (codes "/a") (codes "{}") 3
          ≡ env.exchange carol.uri req (env.current_time_ms 3).1)
      × (req.body ≡ codes "{}")
      × (header "Authorization" req ≡ some (codes "carol"))
      × (accepts_token crypto req ≡ true))
    ⊎ ((web ≡ open_api)
        × (e : Exception) × (method_post crypto env carol (codes "/a") (codes "{}") 3
            ≡ (throw e, 3)))
method_post_cases_example =
    method_post_cases crypto env (token_session (codes "carol") web) (codes "/a") 3 (codes "{}")
