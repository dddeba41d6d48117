-- ===== src/Session/Exceptions.antt =====
-- Which exceptions leave the handlers of src/mexc_futures_ws_session.cpp, where there is a logger.
use mexc_cpp_api.Base.{
  ◌≡◌, ◌⊎◌, inl, inr, refl, sym, subst, Bool, true, false, ◌||◌, ◌++◌, Outcome, ok, throw, fault,
  Step, done, threw, faulted, Exception, next, if◌then◌else◌,
}
use mexc_cpp_api.Base.Effects.{
  json_exception, bad_function_call, invalid_argument, system_error, runtime_error, bad_response,
  api_error, unsupported_interval, foreign_exception, is_std,
}
use mexc_cpp_api.Base.Text.{Text, codes, to_string}
use mexc_cpp_api.Base.Int.{pos}
use mexc_cpp_api.External.{Library}
use mexc_cpp_api.Subscriptions.{Subscriptions, handle_api_control_msg, is_api_control_msg}
use mexc_cpp_api.Subscriptions.Throwing.{
  ThrowsJson, JsonExceptions, StepThrowsJson, handle_api_control_msg-StepThrowsJson,
  is_api_control_msg-ThrowsJson,
}
use mexc_cpp_api.Session.{
  Session, Work, Completion, resolving, connecting, ssl_handshaking, handshaking, writing, reading,
  closing, pinging, timing, log_message, async_write, on_resolve, on_connect, on_ssl_handshake,
  on_handshake, on_write, deliver, dispatch, accept, go_on, rescue, on_read, on_ping, on_close,
  on_ping_timer, complete, invoke, holds, holds_any,
}
use mexc_cpp_api.Session.Ends.{
  Ends, Tame, >>-Tame, if-Tame, log_message-Tame, start-Tame, cancel_timer-Tame, unless_failed-Tame,
  quits-Tame, deliver-Tame, use_subscription-Tame, async_write-Tame, go_on-Tame, ping-Tame,
}

is_std-foreign : (e : Exception) → is_std e ≡ false → e ≡ foreign_exception
is_std-foreign json_exception h = cc
is_std-foreign bad_function_call h = cc
is_std-foreign invalid_argument h = cc
is_std-foreign system_error h = cc
is_std-foreign (runtime_error text) h = cc
is_std-foreign (bad_response status body) h = cc
is_std-foreign (api_error code message) h = cc
is_std-foreign unsupported_interval h = cc
is_std-foreign foreign_exception h = refl

module _ (library : Library) (Owner : Type 0) where
  abbrev IsForeign : Exception → Type 0
  IsForeign e = is_std e ≡ false

  abbrev IsJson : Exception → Type 0
  IsJson e = (e ≡ json_exception) ⊎ (is_std e ≡ false)

  module _ (laws : JsonExceptions library) where
    controlled :
        (x : Step (Subscriptions library)) (s : Session library Owner)
        → s.has_logger ≡ true
        → StepThrowsJson library laws x
        → Ends library Owner IsJson (
            next x
              (λ v. done (record s { subscriptions = v }))
              (λ v. record s { subscriptions = v }))
    controlled (done v) s l e = l
    controlled (threw x v) s l e = (l, inl e)
    controlled faulted s l e = tt

    dispatch-Tame : (json : library.Json) → Tame library Owner IsJson (dispatch library Owner json)
    unfolding dispatch
    dispatch-Tame json s l =
        dispatched (is_api_control_msg library json)
          (is_api_control_msg-ThrowsJson library laws json)
      where
        handled :
            (b : Bool)
            → b ≡ true
            → StepThrowsJson library laws (handle_api_control_msg library b json s.subscriptions)
        handled true e = handle_api_control_msg-StepThrowsJson library laws json s.subscriptions
        handled false e = cc

        dispatched :
            (answer : Outcome Bool)
            → ThrowsJson answer
            → Ends library Owner IsJson (elim answer [
              | ok b ↦
                  if b
                  then next
                      (handle_api_control_msg library s.has_logger json s.subscriptions)
                      (λ v. done (record s { subscriptions = v }))
                      (λ v. record s { subscriptions = v })
                  else deliver library Owner json s
              | throw e ↦ threw e s
              | fault ↦ faulted
            ])
        dispatched (ok true) e =
            controlled (handle_api_control_msg library s.has_logger json s.subscriptions) s l
              (handled s.has_logger l)
        dispatched (ok false) e = deliver-Tame library Owner IsJson (λ e f. inr f) json s l
        dispatched (throw x) e = (l, inl e)
        dispatched fault e = tt

    accept-Tame : (received : Text) → Tame library Owner IsJson (accept library Owner received)
    unfolding accept
    accept-Tame received s l = accepted (library.parse received) (laws.of_parse received)
      where
        judged :
            (json : library.Json) (b : Bool)
            → Ends library Owner IsJson (if b then dispatch library Owner json s else done s)
        judged json true = dispatch-Tame json s l
        judged json false = l

        accepted :
            (answer : Outcome library.Json)
            → ThrowsJson answer
            → Ends library Owner IsJson (elim answer [
              | ok json ↦ if library.is_object json then dispatch library Owner json s else done s
              | throw e ↦ threw e s
              | fault ↦ faulted
            ])
        accepted (ok json) e = judged json (library.is_object json)
        accepted (throw x) e = (l, inl e)
        accepted fault e = tt

    rescued :
        (x : Step (Session library Owner))
        → Ends library Owner IsJson x
        → Ends library Owner IsForeign (rescue library Owner x)
    unfolding rescue
    rescued (done s) e = e
    rescued (threw x s) (l, inl e) =
        subst (λ y. Ends library Owner IsForeign (rescue library Owner (threw y s))) (sym e)
          (quits-Tame library Owner IsForeign s l)
    rescued (threw x s) (l, inr f) =
        subst (λ y. Ends library Owner IsForeign (rescue library Owner (threw y s)))
          (sym (is_std-foreign x f)) (l, refl)
    rescued faulted e = tt

    on_read-Tame :
        (failed : Bool) (received : Text)
        → Tame library Owner IsForeign (on_read library Owner failed received)
    unfolding on_read
    on_read-Tame failed received =
        if-Tame library Owner IsForeign failed _ _
          (>>-Tame library Owner IsForeign _ _ (cancel_timer-Tame library Owner IsForeign)
            (log_message-Tame library Owner IsForeign))
          (λ s l. rescued _ (
            >>-Tame library Owner IsJson _ _ (accept-Tame received)
              (use_subscription-Tame library Owner IsJson (go_on library Owner)
                (go_on-Tame library Owner IsJson))
              s l))

    complete-Tame :
        (w : Work) (c : Completion) → Tame library Owner IsForeign (complete library Owner w c)
    unfolding complete on_resolve on_connect on_ssl_handshake on_handshake on_write on_close on_ping
        on_ping_timer
    complete-Tame resolving c =
        unless_failed-Tame library Owner IsForeign c.failed _
          (start-Tame library Owner IsForeign connecting)
    complete-Tame connecting c = unless_failed-Tame library Owner IsForeign c.failed _ (
        if-Tame library Owner IsForeign c.is_named _ (log_message library Owner)
          (λ s l.
            start-Tame library Owner IsForeign ssl_handshaking
              (record s { host = s.host ++ (codes ":" ++ to_string (pos c.port)) }) l)
          (log_message-Tame library Owner IsForeign))
    complete-Tame ssl_handshaking c =
        unless_failed-Tame library Owner IsForeign c.failed _
          (start-Tame library Owner IsForeign handshaking)
    complete-Tame handshaking c = unless_failed-Tame library Owner IsForeign c.failed _ (
        >>-Tame library Owner IsForeign _ _ (start-Tame library Owner IsForeign (timing false)) (
          use_subscription-Tame library Owner IsForeign (async_write library Owner)
            (async_write-Tame library Owner IsForeign)))
    complete-Tame writing c =
        unless_failed-Tame library Owner IsForeign c.failed _
          (start-Tame library Owner IsForeign reading)
    complete-Tame reading c = on_read-Tame c.failed c.received
    complete-Tame closing c =
        >>-Tame library Owner IsForeign _ _ (cancel_timer-Tame library Owner IsForeign)
          (unless_failed-Tame library Owner IsForeign c.failed done (λ s l. l))
    complete-Tame pinging c = unless_failed-Tame library Owner IsForeign c.failed _ (λ s l. l)
    complete-Tame (timing b) c = unless_failed-Tame library Owner IsForeign c.failed _ (
        >>-Tame library Owner IsForeign _ _
          (>>-Tame library Owner IsForeign _ _ (ping-Tame library Owner IsForeign c.is_open)
            (cancel_timer-Tame library Owner IsForeign))
          (start-Tame library Owner IsForeign (timing false)))

    -- Let the JSON library throw its own exceptions only. If the session has a logger, then an exception
    -- that leaves a handler, whatever the handler is called with and whatever the messages hold, is one
    -- that is not derived from `std::exception`: the `catch` of the thread's loop sees none.
    pub invoke-throws :
        (w : Work) (c : Completion) (s t : Session library Owner) (x : Exception)
        → s.has_logger ≡ true
        → invoke library Owner w c s ≡ threw x t
        → is_std x ≡ false
    unfolding invoke
    invoke-throws w c s t x l h =
        leaves (invoke library Owner w c s)
          (if-Tame library Owner IsForeign (holds w || holds_any s.pending) _ _ (complete-Tame w c)
            (λ u k. tt) s l)
          h
      where
        leaves :
            (y : Step (Session library Owner))
            → Ends library Owner IsForeign y
            → y ≡ threw x t
            → is_std x ≡ false
        leaves (done u) e g = cc
        leaves (threw z u) e g = (subst (Ends library Owner IsForeign) g e).1
        leaves faulted e g = cc
