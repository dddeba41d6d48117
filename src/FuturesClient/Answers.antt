-- ===== src/FuturesClient/Answers.antt =====
-- What a result of `RESTClient` of src/mexc_futures_rest_client.cpp says of the answer it was read from.
use mexc_cpp_api.Base.{
  ◌≡◌, sym, ◌∙◌, ◌↔◌, Bool, true, Outcome, ok, Mutate, ◌>>=◌, >>=-eq-ok, if-eq-ok, ok-injective,
  subst, finish,
}
use mexc_cpp_api.Base.Int.{pos, eqb_ℤ, eqb_ℤ→eq}
use mexc_cpp_api.Base.Text.{Text}
use mexc_cpp_api.Base.StringMap.{StringMap}
use mexc_cpp_api.External.{Library}
use mexc_cpp_api.Http.{Response, Crypto, Environment}
use mexc_cpp_api.Http.Futures.{method_get, method_post}
use mexc_cpp_api.Models
use mexc_cpp_api.FuturesClient.{
  check_response, handle_mexc_response, Client, rate_limited, get_call, post_call,
}

pub check_response-eq-ok :
    (r s : Response) → check_response r ≡ ok s → (r ≡ s) × (r.status ≡ pos 200)
unfolding check_response
check_response-eq-ok r s h =
    let (e, same) = if-eq-ok (eqb_ℤ r.status (pos 200)) r _ h in
    (ok-injective same, eqb_ℤ→eq r.status (pos 200) e)

module _ (library : Library) {V : Type 0} where
  open library use {Json, parse}

  -- The answer `r` is one from which the value `v` is read, and MEXC calls it a success.
  abbrev pub Answers :
      V → (Json → Mutate V) → (V → Models.Futures.Response library) → Response → V → Type 0
  Answers fresh from_json base r v =
      (r.status ≡ pos 200)
      × (json : Json) × (parse r.body ≡ ok json)
      × (finish (from_json json fresh) ≡ ok v)
      × ((base v).success ≡ true)

  handle-eq-ok :
      (fresh : V) (from_json : Json → Mutate V) (base : V → Models.Futures.Response library)
      (r : Response) (v : V)
      → handle_mexc_response library fresh from_json base r ≡ ok v
      → (json : Json) × (parse r.body ≡ ok json)
        × (finish (from_json json fresh) ≡ ok v)
        × ((base v).success ≡ true)
  unfolding handle_mexc_response
  handle-eq-ok fresh from_json base r v h =
      let (json, e, h') = >>=-eq-ok (parse r.body) _ h in
      let (v', e', h'') = >>=-eq-ok (finish (from_json json fresh)) _ h' in
      let (s, same) = if-eq-ok (base v').success v' _ h'' in
      (json, e, e' ∙ same, subst (λ u. (base u).success ≡ true) (ok-injective same) s)

  read-eq-ok :
      (fresh : V) (from_json : Json → Mutate V) (base : V → Models.Futures.Response library)
      (o : Outcome Response) (v : V)
      → (o >>= λ r. check_response r >>= handle_mexc_response library fresh from_json base) ≡ ok v
      → (r : Response) × (o ≡ ok r) × Answers fresh from_json base r v
  read-eq-ok fresh from_json base o v h =
      let (r, e, h') = >>=-eq-ok o _ h in
      let (s, e', h'') = >>=-eq-ok (check_response r) _ h' in
      let (same, good) = check_response-eq-ok r s e' in
      let (json, parsed, read, success) =
        handle-eq-ok fresh from_json base r v (
          subst (λ u. handle_mexc_response library fresh from_json base u ≡ ok v) (sym same) h'') in
      (r, e, (good, json, parsed, read, success))

  ok-read :
      (fresh : V) (from_json : Json → Mutate V) (base : V → Models.Futures.Response library)
      (r : Response) (v : V)
      → Answers fresh from_json base r v
      → (check_response r >>= handle_mexc_response library fresh from_json base) ≡ ok v
  unfolding check_response handle_mexc_response
  ok-read fresh from_json base r v (good, json, e, e', s) = rw good (rw e (rw e' (rw s)))

  module _ (crypto : Crypto) (env : Environment) where
    -- A GET operation that reads its answer with `handleMEXCResponse` gives the value `v` exactly if,
    -- after the wait for the rate limiter, the session gives an answer with status 200 whose body is
    -- JSON from which `v` is read with `success` set.
    pub get_call_returns :
        (path : Text) (ps : StringMap Text) (is_public : Bool) (fresh : V)
        (from_json : Json → Mutate V) (base : V → Models.Futures.Response library)
        (c : Client library crypto env) (v : V)
        → let c' = rate_limited library crypto env c in
          ((get_call library crypto env path ps is_public
              (handle_mexc_response library fresh from_json base)
              c).0
            ≡ ok v)
          ↔ ((r : Response) × ((method_get crypto env c'.http_session path ps is_public c'.world).0
                ≡ ok r)
              × Answers fresh from_json base r v)
    unfolding get_call
    get_call_returns path ps is_public fresh from_json base c v = (
      read-eq-ok fresh from_json base _ v,
      λ (r, e, a). rw e (ok-read fresh from_json base r v a),
    )

    -- A POST operation whose body can be printed, and that reads its answer with `handleMEXCResponse`,
    -- gives the value `v` exactly if, after the wait for the rate limiter, the session gives an answer
    -- with status 200 whose body is JSON from which `v` is read with `success` set.
    pub post_call_returns :
        (path body : Text) (fresh : V) (from_json : Json → Mutate V)
        (base : V → Models.Futures.Response library) (c : Client library crypto env) (v : V)
        → let c' = rate_limited library crypto env c in
          ((post_call library crypto env path
              (ok body)
              (handle_mexc_response library fresh from_json base)
              c).0
            ≡ ok v)
          ↔ ((r : Response) × ((method_post crypto env c'.http_session path body c'.world).0 ≡ ok r)
              × Answers fresh from_json base r v)
    unfolding post_call
    post_call_returns path body fresh from_json base c v = (
      read-eq-ok fresh from_json base _ v,
      λ (r, e, a). rw e (ok-read fresh from_json base r v a),
    )
