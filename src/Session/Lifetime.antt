-- ===== src/Session/Lifetime.antt =====
-- How long a session of src/mexc_futures_ws_session.cpp lives: the handlers of `async_ping` and `async_close`
-- hold `this` and no `shared_ptr`.
use mexc_cpp_api.Base.{◌≡◌, refl, Bool, true, false, [], ◌∷◌, done, threw, faulted, if◌then◌else◌}
use mexc_cpp_api.Base.Effects.{bad_function_call}
use mexc_cpp_api.Base.Int.{pos}
use mexc_cpp_api.External.{Library}
use mexc_cpp_api.Session.{
  Session, Work, resolving, connecting, ssl_handshaking, handshaking, reading, writing, closing,
  pinging, timing, Completion, invoke, complete, on_read, on_ping_timer, log_message, cancel_timer,
  holds,
}
use mexc_cpp_api.Session.Steps.{Lands, invokes, Reach, stays, then_}

-- A call with an error.
abbrev pub error : Completion
error = record {
  failed = true;
  is_named = true;
  port = 0;
  received = [];
  now = pos 0;
  is_open = false;
}

module _ (library : Library) (Owner : Type 0) where
  log_message-stays : (s : Session library Owner) → Lands (log_message library Owner s) s
  unfolding log_message
  log_message-stays s = logged s.has_logger
    where
      logged : (b : Bool) → Lands (if b then done s else threw bad_function_call s) s
      logged true = refl
      logged false = refl

  -- A read, the wait for the timer and, behind them, an operation whose handler holds no `shared_ptr` (a
  -- ping or a close) are outstanding. If the read fails, and the cancelled wait ends before that
  -- operation does, then the session is destroyed, and the operation's handler, whatever it is called with,
  -- runs on the destroyed session.
  pub runs_destroyed :
      (s : Session library Owner) (w : Work) (c : Completion)
      → s.pending ≡ reading ∷ timing false ∷ w ∷ []
      → holds w ≡ false
      → (t : Session library Owner) × Reach library Owner s t
        × (t.pending ≡ w ∷ [])
        × (invoke library Owner w c (record t { pending = [] }) ≡ faulted)
  unfolding invoke complete on_read on_ping_timer cancel_timer
  runs_destroyed s pinging c e loose = (
    record s { pending = pinging ∷ [] },
    then_
        (then_ stays (
          invokes [] (timing false ∷ pinging ∷ []) reading error e tt
            (log_message-stays (record s { pending = timing true ∷ pinging ∷ [] }))))
        (invokes [] (pinging ∷ []) (timing true) error refl tt
          (log_message-stays (record s { pending = pinging ∷ [] }))),
    refl,
    refl,
  )
  runs_destroyed s closing c e loose = (
    record s { pending = closing ∷ [] },
    then_
        (then_ stays (
          invokes [] (timing false ∷ closing ∷ []) reading error e tt
            (log_message-stays (record s { pending = timing true ∷ closing ∷ [] }))))
        (invokes [] (closing ∷ []) (timing true) error refl tt
          (log_message-stays (record s { pending = closing ∷ [] }))),
    refl,
    refl,
  )
  runs_destroyed s reading c e loose = cc
  runs_destroyed s writing c e loose = cc
  runs_destroyed s resolving c e loose = cc
  runs_destroyed s connecting c e loose = cc
  runs_destroyed s ssl_handshaking c e loose = cc
  runs_destroyed s handshaking c e loose = cc
  runs_destroyed s (timing b) c e loose = cc
