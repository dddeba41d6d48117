-- ===== src/SpotClient/Answers.antt =====
-- What a result of `RESTClient` of src/mexc_spot_rest_client.cpp says of the answer it was read from.
use mexc_cpp_api.Base.{
  ◌≡◌, refl, sym, ◌∙◌, ◌↔◌, Bool, ok, Mutate, ◌>>=◌, >>=-eq-ok, if-eq-ok, ok-injective, subst,
  finish,
}
use mexc_cpp_api.Base.Int.{pos, eqb_ℤ, eqb_ℤ→eq}
use mexc_cpp_api.Base.Text.{Text}
use mexc_cpp_api.Base.StringMap.{StringMap}
use mexc_cpp_api.External.{Library}
use mexc_cpp_api.Http.{Verb, Response, Crypto, Environment}
use mexc_cpp_api.Http.Spot.{method}
use mexc_cpp_api.Models
use mexc_cpp_api.FuturesClient.{check_response}
use mexc_cpp_api.FuturesClient.Answers.{check_response-eq-ok}
use mexc_cpp_api.SpotClient.{handle_mexc_response, Client, rate_limited, call}

module _ (library : Library) {V : Type 0} where
  open library use {Json, parse}

  -- The answer `r` is one from which the value `v` is read, with the code of no error.
  abbrev pub Answers :
      V → (Json → Mutate V) → (V → Models.Spot.Response library) → Response → V → Type 0
  Answers fresh from_json base r v =
      (r.status ≡ pos 200)
      × (json : Json) × (parse r.body ≡ ok json)
      × (finish (from_json json fresh) ≡ ok v)
      × ((base v).code ≡ pos 0)

  module _ (fresh : V) (from_json : Json → Mutate V) (base : V → Models.Spot.Response library) where
    read-ok :
        (r : Response) (v : V)
        → (check_response r >>= handle_mexc_response library fresh from_json base) ≡ ok v
        → Answers fresh from_json base r v
    unfolding handle_mexc_response
    read-ok r v h =
        let (s, checked, handled) = >>=-eq-ok (check_response r) _ h in
        let (same, good) = check_response-eq-ok r s checked in
        let (json, parsed, filled) = >>=-eq-ok (parse s.body) _ handled in
        let (u, finished, tested) = >>=-eq-ok (finish (from_json json fresh)) _ filled in
        let (zero_code, last) = if-eq-ok (eqb_ℤ (base u).code (pos 0)) u _ tested in
        let is_v = ok-injective last in
        (
          good,
          json,
          subst (λ t. parse t.body ≡ ok json) (sym same) parsed,
          finished ∙ last,
          subst (λ t. (base t).code ≡ pos 0) is_v (eqb_ℤ→eq (base u).code (pos 0) zero_code),
        )

    ok-read :
        (r : Response) (v : V)
        → Answers fresh from_json base r v
        → (check_response r >>= handle_mexc_response library fresh from_json base) ≡ ok v
    unfolding check_response handle_mexc_response
    ok-read r v (good, json, parsed, finished, zero_code) =
        rw good (rw parsed (rw finished (rw zero_code refl)))

    module _ (crypto : Crypto) (env : Environment) where
      -- An operation of the spot client that reads its answer with `handleMEXCResponse` gives the value
      -- `v` exactly if, after the wait for the rate limiter, the session gives an answer with status 200
      -- whose body is JSON from which `v` is read with the code 0.
      pub spot_call_returns :
          (verb : Verb) (path : Text) (ps : StringMap Text) (is_public : Bool)
          (c : Client library crypto env) (v : V)
          → let c' = rate_limited library crypto env c in
            ((call library crypto env verb path ps is_public
                (handle_mexc_response library fresh from_json base)
                c).0
              ≡ ok v)
            ↔ ((r : Response) × ((method crypto env c'.http_session verb path ps is_public
                    c'.world).0
                  ≡ ok r)
                × Answers fresh from_json base r v)
      unfolding call
      spot_call_returns verb path ps is_public c v = (
        λ h. let (r, sent, read) = >>=-eq-ok _ _ h in (r, sent, read-ok r v read),
        λ (r, sent, a). rw sent (ok-read r v a),
      )
