-- ===== src/Session/Silence.antt =====
-- What errors do to a session of src/mexc_futures_ws_session.cpp: when a handler of the set-up, of a read or
-- of a write is called with an error, no further such operation is started.
use mexc_cpp_api.Base.{
  ◌≡◌, refl, sym, ap, ◌∙◌, subst, ◌+◌, ◌≤◌, arith, Bool, true, false, ◌||◌, List, [], ◌∷◌, ◌++◌,
  map, append-nil, append_assoc, done, threw, faulted, if◌then◌else◌,
}
use mexc_cpp_api.Base.Effects.{bad_function_call}
use mexc_cpp_api.External.{Library}
use mexc_cpp_api.Subscriptions.{Subscriptions}
use mexc_cpp_api.Subscriptions.Control.{queued_by, write_subscription-Lands}
use mexc_cpp_api.Session.{
  Session, Work, resolving, connecting, ssl_handshaking, handshaking, writing, reading, closing,
  pinging, timing, aborted, start, close_ws, pong, invoke, complete, Completion, holds, holds_any,
  log_message, on_resolve, on_connect, on_ssl_handshake, on_handshake, on_write, on_read,
  cancel_timer,
}
use mexc_cpp_api.Session.Steps.{
  Lands, Stepping, invokes, pongs, subscribes, closes, Reach, stays, then_, subscribe-Lands,
}
use mexc_cpp_api.Session.Frame.{
  Elementary, Adds, if-Adds, on_ping-Adds, on_close-Adds, on_ping_timer-Adds,
}
use mexc_cpp_api.Session.Bounds.{
  weigh, weigh-append, weigh-aborted, in_chain, chain_flow, Stepping-weigh,
}

-- What an error leaves of the other operations: one of a read cancels the waits for the timer.
abbrev pub left_by : Work → List Work → List Work
left_by reading ws = map aborted ws
left_by _ ws = ws

module _ (library : Library) (Owner : Type 0) where
  open library use {Json}

  -- Nothing is sent, and nothing is taken from the waiting requests.
  pub record IsSilent (s t : Session library Owner) : Type 0 where
    pub sent : t.sent ≡ s.sent
    pub added : List Json
    pub requests : t.subscriptions.requests ≡ s.subscriptions.requests ++ added

  IsSilent-trans : (s t u : Session library Owner) → IsSilent s t → IsSilent t u → IsSilent s u
  IsSilent-trans s t u f g = record {
    sent = g.sent ∙ f.sent;
    added = f.added ++ g.added;
    requests = g.requests ∙ ap (λ r. r ++ g.added) f.requests ∙ append_assoc _ f.added g.added;
  }

  IsSilent-same :
      (s t : Session library Owner)
      → t.sent ≡ s.sent
      → t.subscriptions.requests ≡ s.subscriptions.requests
      → IsSilent s t
  IsSilent-same s t e r = record { sent = e; added = []; requests = r ∙ sym (append-nil _) }

  IsSilent-Elementary : Elementary library Owner chain_flow (λ n s t. IsSilent s t)
  IsSilent-Elementary = record {
    weaken = λ le h. h;
    compose = λ {m} {n} {s} {t} {u} f g. IsSilent-trans s t u f g;
    same = λ s t _ e r. IsSilent-same s t e r;
    starts = λ w s. IsSilent-same s (record s { pending = s.pending ++ (w ∷ []) }) refl refl;
    cancels = λ s. IsSilent-same s (record s { pending = map aborted s.pending }) refl refl;
  }

  complete-IsSilent :
      (w : Work) (c : Completion)
      → in_chain w ≡ 0
      → Adds library Owner (λ n s t. IsSilent s t) 0 (complete library Owner w c)
  unfolding complete
  complete-IsSilent closing c e = on_close-Adds IsSilent-Elementary c.failed
  complete-IsSilent pinging c e = on_ping-Adds IsSilent-Elementary c.failed c.now
  complete-IsSilent (timing b) c e = on_ping_timer-Adds IsSilent-Elementary c.failed c.is_open
  complete-IsSilent resolving c e = cc
  complete-IsSilent connecting c e = cc
  complete-IsSilent ssl_handshaking c e = cc
  complete-IsSilent handshaking c e = cc
  complete-IsSilent writing c e = cc
  complete-IsSilent reading c e = cc

  -- The operation that is invoked weighs no more than all.
  weight_of :
      (before after : List Work) (w : Work)
      → weigh in_chain (before ++ (w ∷ after)) ≡ in_chain w + weigh in_chain (before ++ after)
  weight_of before after w =
      omega (arith, weigh-append in_chain before (w ∷ after), weigh-append in_chain before after)

  Stepping-IsSilent :
      (s t : Session library Owner)
      → weigh in_chain s.pending ≡ 0
      → Stepping library Owner s t
      → IsSilent s t
  unfolding invoke close_ws start pong
  Stepping-IsSilent s t z (invokes before after w c e _ h) =
      let u : Session library Owner = record s { pending = before ++ after } in
      let none : in_chain w ≡ 0 =
        omega (arith, z, ap (weigh in_chain) e, weight_of before after w) in
      IsSilent-trans s u t (IsSilent-same s u refl refl) (
        if-Adds IsSilent-Elementary 0 (holds w || holds_any u.pending) _ _
          (complete-IsSilent w c none) (λ x y g. absurd g) u t h)
  Stepping-IsSilent s t z (pongs before after now e h) =
      subst (IsSilent s) h (IsSilent-same s (record s { last_pong = now }) refl refl)
  Stepping-IsSilent s t z (subscribes request h) =
      let (v, kept, e) = subscribe-Lands library Owner request s t h in
      let more = write_subscription-Lands library request s.subscriptions v kept in
      subst (IsSilent s) e (record {
        sent = refl;
        added = queued_by library request s.subscriptions;
        requests = sym (ap (λ (x : Subscriptions library). x.requests) more);
      })
  Stepping-IsSilent s t z (closes h) =
      subst (IsSilent s) h
        (IsSilent-same s (record s { pending = s.pending ++ (closing ∷ []) }) refl refl)

  Reach-IsSilent :
      (s t : Session library Owner)
      → weigh in_chain s.pending ≡ 0
      → Reach library Owner s t
      → IsSilent s t × (weigh in_chain t.pending ≡ 0)
  Reach-IsSilent s _ z stays = (IsSilent-same s s refl refl, z)
  Reach-IsSilent s u z (then_ {t} path step) =
      let (silent, none) = Reach-IsSilent s t z path in
      (
        IsSilent-trans s t u silent (Stepping-IsSilent t u none step),
        omega (arith, none, Stepping-weigh library Owner chain_flow t u step),
      )

  log_message-Lands : (s t : Session library Owner) → Lands (log_message library Owner s) t → s ≡ t
  unfolding log_message
  log_message-Lands s t h = logged s.has_logger s t h
    where
      logged :
          (b : Bool) (s t : Session library Owner)
          → Lands (if b then done s else threw bad_function_call s) t
          → s ≡ t
      logged true s t h = h
      logged false s t h = h

  failed-Lands :
      (w : Work) (c : Completion) (s t : Session library Owner)
      → in_chain w ≡ 1
      → Lands (complete library Owner w (record c { failed = true }) s) t
      → record s { pending = left_by w s.pending } ≡ t
  unfolding complete on_resolve on_connect on_ssl_handshake on_handshake on_write on_read
      cancel_timer
  failed-Lands resolving c s t e h = log_message-Lands s t h
  failed-Lands connecting c s t e h = log_message-Lands s t h
  failed-Lands ssl_handshaking c s t e h = log_message-Lands s t h
  failed-Lands handshaking c s t e h = log_message-Lands s t h
  failed-Lands writing c s t e h = log_message-Lands s t h
  failed-Lands reading c s t e h =
      log_message-Lands (record s { pending = map aborted s.pending }) t h
  failed-Lands closing c s t e h = cc
  failed-Lands pinging c s t e h = cc
  failed-Lands (timing b) c s t e h = cc

  weigh-left_by : (w : Work) (ws : List Work) → weigh in_chain (left_by w ws) ≡ weigh in_chain ws
  weigh-left_by reading ws = weigh-aborted in_chain ws refl
  weigh-left_by resolving ws = refl
  weigh-left_by connecting ws = refl
  weigh-left_by ssl_handshaking ws = refl
  weigh-left_by handshaking ws = refl
  weigh-left_by writing ws = refl
  weigh-left_by closing ws = refl
  weigh-left_by pinging ws = refl
  weigh-left_by (timing b) ws = refl

  invoke-Lands :
      (w : Work) (c : Completion) (s t : Session library Owner)
      → Lands (invoke library Owner w c s) t
      → Lands (complete library Owner w c s) t
  unfolding invoke
  invoke-Lands w c s t h = lives (holds w || holds_any s.pending) h
    where
      lives :
          (b : Bool)
          → Lands ((if b then complete library Owner w c else (λ x. faulted)) s) t
          → Lands (complete library Owner w c s) t
      lives true g = g
      lives false g = absurd g

  -- At most one operation of the set-up, reads and writes is outstanding, and its handler is called with an
  -- error. The other operations stay, where an error of a read, and of no other operation, cancels the
  -- waits for the timer. Whatever happens then, no text is sent and no waiting request is taken: later
  -- subscriptions wait for ever.
  pub error-IsSilent :
      (before after : List Work) (w : Work) (c : Completion) (s t u : Session library Owner)
      → s.pending ≡ before ++ (w ∷ after)
      → weigh in_chain s.pending ≤ 1
      → in_chain w ≡ 1
      → Lands
          (invoke library Owner w
            (record c { failed = true })
            (record s { pending = before ++ after }))
          t
      → Reach library Owner t u
      → (t.pending ≡ left_by w (before ++ after)) × IsSilent s u
  error-IsSilent before after w c s t u e one of_chain h path =
      let v : Session library Owner = record s { pending = before ++ after } in
      let lands =
        failed-Lands w c v t of_chain (invoke-Lands w (record c { failed = true }) v t h) in
      let rest = ap (λ (x : Session library Owner). x.pending) lands in
      let none : weigh in_chain t.pending ≡ 0 = omega (
        arith,
        one,
        of_chain,
        ap (weigh in_chain) e,
        weight_of before after w,
        ap (weigh in_chain) rest,
        weigh-left_by w (before ++ after),
      ) in
      let first : IsSilent s t =
        subst (IsSilent s) lands
          (IsSilent-same s (record v { pending = left_by w (before ++ after) }) refl refl) in
      (sym rest, IsSilent-trans s t u first (Reach-IsSilent t u none path).0)
