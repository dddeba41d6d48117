-- ===== src/Session/Frame.antt =====
-- What every handler of src/mexc_futures_ws_session.cpp leaves behind, for any graded relation between two
-- states of a session that the elementary changes respect.
use mexc_cpp_api.Base.{
  ◌≡◌, refl, subst, inl, inr, Bool, true, false, [], ◌∷◌, ◌++◌, map, ℕ, ◌+◌, ◌≤◌, arith, ok, throw,
  done, threw, Mutate, ◌>>◌, Exception, if◌then◌else◌,
}
use mexc_cpp_api.Base.Effects.{bad_function_call}
use mexc_cpp_api.Base.Text.{Text}
use mexc_cpp_api.Base.Int.{ℤ, ltb_ℤ, ◌-ℤ◌}
use mexc_cpp_api.External.{Library}
use mexc_cpp_api.Subscriptions.{read_subscription}
use mexc_cpp_api.Session.{
  Session, Work, resolving, connecting, ssl_handshaking, handshaking, writing, reading, closing,
  pinging, timing, aborted, log_message, start, cancel_timer, close_ws, ping, on_ping, on_close,
  on_ping_timer, ping_interval,
}
use mexc_cpp_api.Session.Steps.{Lands, next-Lands}

-- A weight for each operation, which no handler adds to by what it starts.
pub record Flow : Type 0 where
  pub weight : Work → ℕ
  pub at_resolve : weight connecting ≤ weight resolving
  pub at_connect : weight ssl_handshaking ≤ weight connecting
  pub at_ssl_handshake : weight handshaking ≤ weight ssl_handshaking
  pub at_handshake : weight (timing false) + weight writing ≤ weight handshaking
  pub at_write : weight reading ≤ weight writing
  pub at_read : weight writing ≤ weight reading
  pub of_close : weight closing ≡ 0
  pub of_ping : weight pinging ≡ 0
  pub of_cancelled : weight (timing true) ≡ weight (timing false)

module _ (library : Library) (Owner : Type 0) where
  abbrev pub Relation : Type 1
  Relation = ℕ → Session library Owner → Session library Owner → Type 0

  -- The elementary changes that send nothing respect the relation.
  pub record Elementary (flow : Flow) (R : Relation) : Type 0 where
    pub weaken : {m n : ℕ} {s t : Session library Owner} → m ≤ n → R m s t → R n s t
    pub compose : {m n : ℕ} {s t u : Session library Owner} → R m s t → R n t u → R (m + n) s u
    pub same :
        (s t : Session library Owner)
        → t.pending ≡ s.pending
        → t.sent ≡ s.sent
        → t.subscriptions.requests ≡ s.subscriptions.requests
        → R 0 s t
    pub starts :
        (w : Work) (s : Session library Owner)
        → R (flow.weight w) s (record s { pending = s.pending ++ (w ∷ []) })
    pub cancels : (s : Session library Owner) → R 0 s (record s { pending = map aborted s.pending })

  -- The elementary changes respect the relation.
  pub record Respected (flow : Flow) (R : Relation) : Type 0 where
    pub elementary : Elementary flow R
    pub sends :
        (text : Text) (s : Session library Owner)
        → (read_subscription library s.has_logger s.subscriptions).0 ≡ ok text
        → R (flow.weight writing) s (record s {
          subscriptions = (read_subscription library s.has_logger s.subscriptions).1;
          pending = s.pending ++ (writing ∷ []);
          sent = s.sent ++ (text ∷ []);
        })
    pub skips :
        (s : Session library Owner)
        → (read_subscription library s.has_logger s.subscriptions).0 ≡ ok []
        → R 0 s (record s {
          subscriptions = (read_subscription library s.has_logger s.subscriptions).1;
        })
    pub fails :
        (e : Exception) (s : Session library Owner)
        → (read_subscription library s.has_logger s.subscriptions).0 ≡ throw e
        → R 0 s (record s {
          subscriptions = (read_subscription library s.has_logger s.subscriptions).1;
        })

  -- Every state that the change leaves is related to the one it started from.
  abbrev pub Adds : Relation → ℕ → Mutate (Session library Owner) → Type 0
  Adds R n m = (s t : Session library Owner) → Lands (m s) t → R n s t

module _ {library : Library} {Owner : Type 0} {flow : Flow} {R : Relation library Owner}
    (elementary : Elementary library Owner flow R) where
  open elementary use {weaken, compose, same, starts, cancels}

  pub >>-Adds :
      (a b : ℕ) (m n : Mutate (Session library Owner))
      → Adds library Owner R a m
      → Adds library Owner R b n
      → Adds library Owner R (a + b) (m >> n)
  >>-Adds a b m n of_m of_n s t h =
      let (u, first, rest) = next-Lands (m s) n t h in
      elim rest [
        | inl e ↦ weaken (omega arith) (subst (R a s) e (of_m s u first))
        | inr second ↦ compose (of_m s u first) (of_n u t second)
      ]

  pub if-Adds :
      (k : ℕ) (b : Bool) (m n : Mutate (Session library Owner))
      → Adds library Owner R k m
      → Adds library Owner R k n
      → Adds library Owner R k (if b then m else n)
  if-Adds k true m n of_m of_n = of_m
  if-Adds k false m n of_m of_n = of_n

  pub weaken-Adds :
      (k l : ℕ) (m : Mutate (Session library Owner))
      → k ≤ l
      → Adds library Owner R k m
      → Adds library Owner R l m
  weaken-Adds k l m le of_m s t h = weaken le (of_m s t h)

  self : (s : Session library Owner) → R 0 s s
  self s = same s s refl refl refl

  pub done-Adds : Adds library Owner R 0 done
  done-Adds s t h = subst (R 0 s) h (self s)

  pub threw-Adds : (e : Exception) → Adds library Owner R 0 (threw e)
  threw-Adds e s t h = subst (R 0 s) h (self s)

  pub log_message-Adds : Adds library Owner R 0 (log_message library Owner)
  unfolding log_message
  log_message-Adds s t h = logged s.has_logger s t h
    where
      logged :
          (b : Bool) (s t : Session library Owner)
          → Lands (if b then done s else threw bad_function_call s) t
          → R 0 s t
      logged true s t h = done-Adds s t h
      logged false s t h = threw-Adds bad_function_call s t h

  pub start-Adds : (w : Work) → Adds library Owner R (flow.weight w) (start library Owner w)
  unfolding start
  start-Adds w s t h = subst (R (flow.weight w) s) h (starts w s)

  pub cancel_timer-Adds : Adds library Owner R 0 (cancel_timer library Owner)
  unfolding cancel_timer
  cancel_timer-Adds s t h = subst (R 0 s) h (cancels s)

  close_ws-Adds : Adds library Owner R 0 (close_ws library Owner)
  unfolding close_ws
  close_ws-Adds = weaken-Adds _ 0 _ (omega (arith, flow.of_close)) (start-Adds closing)

  -- A logged message after a change.
  pub log_after :
      (s u t : Session library Owner) → R 0 s u → Lands (log_message library Owner u) t → R 0 s t
  log_after s u t to_u h = compose to_u (log_message-Adds u t h)

  pub quits : Adds library Owner R 0 (log_message library Owner >> close_ws library Owner)
  quits = >>-Adds 0 0 _ _ (log_message-Adds) (close_ws-Adds)

  pub logs : Adds library Owner R 0 (log_message library Owner)
  logs = log_message-Adds

  -- A handler that logs the error, or else goes on.
  pub unless_failed :
      (k : ℕ) (failed : Bool) (m : Mutate (Session library Owner))
      → Adds library Owner R k m
      → Adds library Owner R k (if failed then log_message library Owner else m)
  unless_failed k failed m of_m = if-Adds k failed _ _ (weaken-Adds 0 k _ (omega arith) logs) of_m

  pub starts_within :
      (k : ℕ) (w : Work) → flow.weight w ≤ k → Adds library Owner R k (start library Owner w)
  starts_within k w le = weaken-Adds _ k _ le (start-Adds w)

  ping-Adds : (is_open : Bool) → Adds library Owner R 0 (ping library Owner is_open)
  unfolding ping
  ping-Adds is_open s t h =
      let expired = ltb_ℤ ping_interval (s.last_ping -ℤ s.last_pong) in
      let warns : Adds library Owner R 0 (if expired then log_message library Owner else done) =
        if-Adds 0 expired _ done logs (done-Adds) in
      let pings : Adds library Owner R 0 (if is_open then start library Owner pinging else done) =
        if-Adds 0 is_open _ done (starts_within 0 pinging (omega (arith, flow.of_ping)))
          (done-Adds) in
      >>-Adds 0 0 _ _ warns pings s t h

  pub on_ping-Adds :
      (failed : Bool) (now : ℤ) → Adds library Owner R 0 (on_ping library Owner failed now)
  unfolding on_ping
  on_ping-Adds failed now =
      unless_failed 0 failed _
        (λ s t h. subst (R 0 s) h (same s (record s { last_ping = now }) refl refl refl))

  pub on_close-Adds : (failed : Bool) → Adds library Owner R 0 (on_close library Owner failed)
  unfolding on_close
  on_close-Adds failed = >>-Adds 0 0 _ _ (cancel_timer-Adds) (if-Adds 0 failed _ _ logs (done-Adds))

  pub on_ping_timer-Adds :
      (failed is_open : Bool)
      → Adds library Owner R
          (flow.weight (timing false))
          (on_ping_timer library Owner failed is_open)
  unfolding on_ping_timer
  on_ping_timer-Adds failed is_open = unless_failed _ failed _ (
      weaken-Adds _ _ _ (omega arith) (
        >>-Adds 0 _ _ _ (>>-Adds 0 0 _ _ (ping-Adds is_open) (cancel_timer-Adds))
          (start-Adds (timing false))))
