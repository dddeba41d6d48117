-- ===== src/Session/Handlers.antt =====
-- What the handlers of src/mexc_futures_ws_session.cpp leave behind, for any graded relation between two
-- states of a session that the elementary changes respect.
use mexc_cpp_api.Base.{
  ◌≡◌, refl, subst, Bool, true, false, [], ◌∷◌, ◌++◌, ℕ, ◌||◌, arith, Outcome, ok, throw, fault,
  Step, done, threw, faulted, Mutate, is_empty,
}
use mexc_cpp_api.Base.Text.{Text, codes, to_string}
use mexc_cpp_api.Base.Int.{pos}
use mexc_cpp_api.External.{Library}
use mexc_cpp_api.Subscriptions.{read_subscription}
use mexc_cpp_api.Session.{
  Session, Work, Completion, resolving, connecting, ssl_handshaking, handshaking, writing, reading,
  closing, pinging, timing, start, async_write, on_resolve, on_connect, on_ssl_handshake,
  use_subscription, on_handshake, on_write, read_on, go_on, rescue, on_read, complete, invoke,
  is_json_exception, holds, holds_any,
}
use mexc_cpp_api.Session.Steps.{Lands}
use mexc_cpp_api.Session.Frame.{
  Flow, Relation, Respected, Adds, quits, logs, unless_failed, starts_within, on_ping-Adds,
  on_close-Adds, on_ping_timer-Adds, >>-Adds, if-Adds, threw-Adds, start-Adds, cancel_timer-Adds,
  weaken-Adds,
}
use mexc_cpp_api.Session.Messages.{accept-Adds}

module _ {library : Library} {Owner : Type 0} {flow : Flow} {R : Relation library Owner}
    (respected : Respected library Owner flow R) where
  open respected use {elementary, sends, skips, fails}
  open elementary use {weaken, compose, same, starts}

  -- The state in which the next request has been taken.
  abbrev taking : Session library Owner → Session library Owner
  taking s = record s { subscriptions = (read_subscription library s.has_logger s.subscriptions).1 }

  use_subscription-Adds :
      (k : ℕ) (act : Text → Mutate (Session library Owner))
      → ((text : Text) (s t : Session library Owner)
          → (read_subscription library s.has_logger s.subscriptions).0 ≡ ok text
          → Lands (act text (taking s)) t
          → R k s t)
      → Adds library Owner R k (use_subscription library Owner act)
  unfolding use_subscription
  use_subscription-Adds k act acts s t h =
      used (read_subscription library s.has_logger s.subscriptions).0 refl h
    where
      used :
          (text : Outcome Text)
          → (read_subscription library s.has_logger s.subscriptions).0 ≡ text
          → Lands
              (elim text [
                | ok v ↦ act v (taking s)
                | throw e ↦ threw e (taking s)
                | fault ↦ faulted
              ])
              t
          → R k s t
      used (ok v) e g = acts v s t e g
      used (throw v) e g = subst (R k s) g (weaken (omega arith) (fails v s e))
      used fault e g = absurd g

  async_write-Adds :
      (text : Text) (s t : Session library Owner)
      → (read_subscription library s.has_logger s.subscriptions).0 ≡ ok text
      → Lands (async_write library Owner text (taking s)) t
      → R (flow.weight writing) s t
  unfolding async_write
  async_write-Adds text s t e h = subst (R (flow.weight writing) s) h (sends text s e)

  reads : Adds library Owner R (flow.weight reading) (start library Owner reading)
  reads = start-Adds elementary reading

  read_on-Adds : Adds library Owner R (flow.weight reading) (read_on library Owner)
  unfolding read_on
  read_on-Adds s t h =
      let none_left =
        weaken-Adds elementary _ (flow.weight reading) _ (omega arith)
          (>>-Adds elementary 0 (flow.weight reading) _ _ (quits elementary) reads) in
      if-Adds elementary _ (is_empty s.subscriptions.confirmed) _ _ none_left reads s t h

  go_on-Adds :
      (text : Text) (s t : Session library Owner)
      → (read_subscription library s.has_logger s.subscriptions).0 ≡ ok text
      → Lands (go_on library Owner text (taking s)) t
      → R (flow.weight reading) s t
  unfolding go_on
  go_on-Adds [] s t e h = weaken (omega arith) (compose (skips s e) (read_on-Adds (taking s) t h))
  go_on-Adds (b ∷ text) s t e h = weaken flow.at_read (async_write-Adds (b ∷ text) s t e h)

  rescued :
      (x : Step (Session library Owner)) (s t : Session library Owner) (k : ℕ)
      → ((u : Session library Owner) → Lands x u → R k s u)
      → Lands (rescue library Owner x) t
      → R k s t
  unfolding rescue
  rescued (done u) s t k of_x h = subst (R k s) h (of_x u refl)
  rescued (threw e u) s t k of_x h =
      let end =
        if-Adds elementary 0 (is_json_exception e) _ _ (quits elementary) (threw-Adds elementary e)
          u t h in
      weaken (omega arith) (compose (of_x u refl) end)
  rescued faulted s t k of_x h = absurd h

  on_connect-Adds :
      (c : Completion) → Adds library Owner R (flow.weight connecting) (on_connect library Owner c)
  unfolding on_connect
  on_connect-Adds c = unless_failed elementary (flow.weight connecting) c.failed _ (
      if-Adds elementary (flow.weight connecting) c.is_named _ _
        (λ s t h.
          let u : Session library Owner = record s {
            host = s.host ++ (codes ":" ++ to_string (pos c.port));
          } in
          weaken (omega arith) (
            compose (same s u refl refl refl) (
              starts_within elementary (flow.weight connecting) ssl_handshaking flow.at_connect u t
                h)))
        (weaken-Adds elementary 0 _ _ (omega arith) (logs elementary)))

  on_handshake-Adds :
      (failed : Bool)
      → Adds library Owner R (flow.weight handshaking) (on_handshake library Owner failed)
  unfolding on_handshake
  on_handshake-Adds failed = unless_failed elementary _ failed _ (
      weaken-Adds elementary _ _ _ flow.at_handshake (
        >>-Adds elementary _ _ _ _ (start-Adds elementary (timing false))
          (use_subscription-Adds _ (async_write library Owner) async_write-Adds)))

  on_read-Adds :
      (failed : Bool) (received : Text)
      → Adds library Owner R (flow.weight reading) (on_read library Owner failed received)
  unfolding on_read
  on_read-Adds failed received =
      if-Adds elementary _ failed _ _
        (weaken-Adds elementary 0 _ _ (omega arith)
          (>>-Adds elementary 0 0 _ _ (cancel_timer-Adds elementary) (logs elementary)))
        (λ s t h.
          rescued _ s t _
            (λ u g. weaken (omega arith) (
              >>-Adds elementary 0 (flow.weight reading) _ _ (accept-Adds elementary received)
                (use_subscription-Adds _ (go_on library Owner) go_on-Adds) s u g))
            h)

  -- A handler starts no more than the weight of its own operation.
  complete-Adds :
      (w : Work) (c : Completion)
      → Adds library Owner R (flow.weight w) (complete library Owner w c)
  unfolding complete on_resolve on_ssl_handshake on_write
  complete-Adds resolving c =
      unless_failed elementary _ c.failed _ (starts_within elementary _ connecting flow.at_resolve)
  complete-Adds connecting c = on_connect-Adds c
  complete-Adds ssl_handshaking c =
      unless_failed elementary _ c.failed _
        (starts_within elementary _ handshaking flow.at_ssl_handshake)
  complete-Adds handshaking c = on_handshake-Adds c.failed
  complete-Adds writing c =
      unless_failed elementary _ c.failed _ (starts_within elementary _ reading flow.at_write)
  complete-Adds reading c = on_read-Adds c.failed c.received
  complete-Adds closing c =
      weaken-Adds elementary 0 _ _ (omega arith) (on_close-Adds elementary c.failed)
  complete-Adds pinging c =
      weaken-Adds elementary 0 _ _ (omega arith) (on_ping-Adds elementary c.failed c.now)
  complete-Adds (timing true) c =
      weaken-Adds elementary _ _ _ (omega (arith, flow.of_cancelled))
        (on_ping_timer-Adds elementary c.failed c.is_open)
  complete-Adds (timing false) c = on_ping_timer-Adds elementary c.failed c.is_open

  pub invoke-Adds :
      (w : Work) (c : Completion) → Adds library Owner R (flow.weight w) (invoke library Owner w c)
  unfolding invoke
  invoke-Adds w c s t h =
      if-Adds elementary _ (holds w || holds_any s.pending) _ _ (complete-Adds w c)
        (λ u v g. absurd g) s t h
