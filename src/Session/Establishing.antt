-- ===== src/Session/Establishing.antt =====
-- From `run` of src/mexc_futures_ws_session.cpp to the first read, and on to the confirmations, where nothing
-- fails.
use mexc_cpp_api.Base.{
  ◌≡◌, refl, sym, subst, ℕ, true, false, List, [], ◌∷◌, ◌++◌, map, All, ok, done,
}
use mexc_cpp_api.Base.Text.{Text, codes, to_string}
use mexc_cpp_api.Base.Int.{pos}
use mexc_cpp_api.External.{Library}
use mexc_cpp_api.Subscriptions.{read_subscription}
use mexc_cpp_api.Subscriptions.Taking.{printed}
use mexc_cpp_api.Session.{
  Session, resolving, connecting, ssl_handshaking, handshaking, reading, writing, timing,
  Completion, complete, invoke, on_resolve, on_connect, on_ssl_handshake, on_handshake,
  use_subscription, async_write, start,
}
use mexc_cpp_api.Session.Steps.{Lands, invokes, Reach, stays, then_}
use mexc_cpp_api.Session.Progress.{
  IsConfirmation, IsPrintable, at, writes, Reach-append, requests_confirmed,
}

-- A call without an error, at an endpoint with the port.
abbrev success_at : ℕ → Completion
success_at port = record {
  failed = false;
  is_named = true;
  port = port;
  received = [];
  now = pos 0;
  is_open = true;
}

module _ (library : Library) (Owner : Type 0) where
  open library use {Json, dump, null_json}

  -- The session with the host that `onConnect` makes.
  abbrev pub with_port : ℕ → Session library Owner → Session library Owner
  with_port port s = record s { host = s.host ++ (codes ":" ++ to_string (pos port)) }

  handshakes :
      (s : Session library Owner) (confirmed requests : List Json) (r subscribing : Json)
      (sent : List Text) (b : ℕ) (text : Text)
      → dump r ≡ ok (b ∷ text)
      → on_handshake library Owner false
          (at library Owner s [] confirmed (r ∷ requests) subscribing sent)
        ≡ done (
            at library Owner s
              (timing false ∷ writing ∷ [])
              confirmed
              requests
              r
              (sent ++ ((b ∷ text) ∷ [])))
  unfolding on_handshake start use_subscription read_subscription async_write
  handshakes s confirmed requests r subscribing sent b text e =
      rw (e, read_subscription) (rw (e, read_subscription) refl)

  establishes :
      (s : Session library Owner) (port : ℕ) (confirmed requests : List Json) (r subscribing : Json)
      (sent : List Text) (b : ℕ) (text : Text)
      → dump r ≡ ok (b ∷ text)
      → Reach library Owner
          (at library Owner s (resolving ∷ []) confirmed (r ∷ requests) subscribing sent)
          (at library Owner
            (with_port port s)
            (timing false ∷ reading ∷ [])
            confirmed
            requests
            r
            (sent ++ ((b ∷ text) ∷ [])))
  unfolding invoke complete on_resolve on_connect on_ssl_handshake start
  establishes s port confirmed requests r subscribing sent b text e =
      let out = sent ++ ((b ∷ text) ∷ []) in
      let written =
        at library Owner (with_port port s) (timing false ∷ writing ∷ []) confirmed requests r
          out in
      then_
        (then_
          (then_
            (then_ (then_ stays (invokes [] [] resolving (success_at port) refl tt refl))
              (invokes [] [] connecting (success_at port) refl tt refl))
            (invokes [] [] ssl_handshaking (success_at port) refl tt refl))
          (invokes [] [] handshaking (success_at port) refl tt (
            subst (λ x. Lands x written)
              (sym (handshakes (with_port port s) confirmed requests r subscribing sent b text e))
              refl)))
        (writes library Owner (with_port port s) (timing false ∷ []) confirmed requests r out)

  -- A session with a logger has been run, and the host is being resolved; requests wait, each with a text
  -- that is not empty, and confirmations can be received. Then the session can connect, with its timer
  -- started, and reach the state in which all requests, in their order, have been sent and confirmed, and
  -- none waits.
  pub run_confirms :
      (received : Text)
      → IsConfirmation library received
      → (s : Session library Owner) (port : ℕ) (r : Json) (requests : List Json)
        (subscribing : Json)
      → IsPrintable library r
      → All (IsPrintable library) requests
      → Reach library Owner (at library Owner s (resolving ∷ []) [] (r ∷ requests) subscribing []) (
          at library Owner
            (with_port port s)
            (timing false ∷ reading ∷ [])
            (r ∷ requests)
            []
            null_json
            (map (printed library) (r ∷ requests)))
  run_confirms received confirmation s port r requests subscribing (b, text, e) printable =
      let ready = establishes s port [] requests r subscribing [] b text e in
      let confirmed =
        requests_confirmed library Owner received confirmation (with_port port s)
          (timing false ∷ []) [] requests r ((b ∷ text) ∷ []) printable in
      subst
        (λ shown.
          Reach library Owner (at library Owner s (resolving ∷ []) [] (r ∷ requests) subscribing [])
            (at library Owner (with_port port s) (timing false ∷ reading ∷ []) (r ∷ requests) []
              null_json (shown ∷ map (printed library) requests)))
        (rw (e, printed) refl) (Reach-append library Owner _ _ _ ready confirmed)
