-- ===== src/Session/Bounds.antt =====
-- How many operations of a session of src/mexc_futures_ws_session.cpp are outstanding at once.
use mexc_cpp_api.Base.{
  ◌≡◌, refl, sym, ap, subst, ℕ, ◌+◌, ◌≤◌, arith, true, false, List, [], ◌∷◌, ◌++◌, map, Option,
  Mutate, inl, inr,
}
use mexc_cpp_api.Base.Text.{Text}
use mexc_cpp_api.External.{Library}
use mexc_cpp_api.Models.Events.{Event}
use mexc_cpp_api.Session.{
  Session, Work, resolving, connecting, ssl_handshaking, handshaking, writing, reading, closing,
  pinging, timing, aborted, start, subscribe, close_ws, pong, run,
}
use mexc_cpp_api.Session.Steps.{
  Lands, Stepping, invokes, pongs, subscribes, closes, Reach, stays, then_, subscribe-Lands,
  next-Lands,
}
use mexc_cpp_api.Session.Frame.{Flow, Respected}
use mexc_cpp_api.Session.Handlers.{invoke-Adds}

abbrev pub weigh : (Work → ℕ) → List Work → ℕ
weigh weight [] = 0
weigh weight (w ∷ ws) = weight w + weigh weight ws

pub weigh-append :
    (weight : Work → ℕ) (ws vs : List Work)
    → weigh weight (ws ++ vs) ≡ weigh weight ws + weigh weight vs
weigh-append weight [] vs = omega arith
weigh-append weight (w ∷ ws) vs = omega (arith, weigh-append weight ws vs)

pub weigh-aborted :
    (weight : Work → ℕ) (ws : List Work)
    → weight (timing true) ≡ weight (timing false)
    → weigh weight (map aborted ws) ≡ weigh weight ws
weigh-aborted weight [] e = refl
weigh-aborted weight (timing true ∷ ws) e = omega (arith, weigh-aborted weight ws e)
weigh-aborted weight (timing false ∷ ws) e = omega (arith, weigh-aborted weight ws e)
weigh-aborted weight (resolving ∷ ws) e = omega (arith, weigh-aborted weight ws e)
weigh-aborted weight (connecting ∷ ws) e = omega (arith, weigh-aborted weight ws e)
weigh-aborted weight (ssl_handshaking ∷ ws) e = omega (arith, weigh-aborted weight ws e)
weigh-aborted weight (handshaking ∷ ws) e = omega (arith, weigh-aborted weight ws e)
weigh-aborted weight (writing ∷ ws) e = omega (arith, weigh-aborted weight ws e)
weigh-aborted weight (reading ∷ ws) e = omega (arith, weigh-aborted weight ws e)
weigh-aborted weight (closing ∷ ws) e = omega (arith, weigh-aborted weight ws e)
weigh-aborted weight (pinging ∷ ws) e = omega (arith, weigh-aborted weight ws e)

-- The operations that follow one another: the set-up, the reads and the writes.
abbrev pub in_chain : Work → ℕ
in_chain closing = 0
in_chain pinging = 0
in_chain (timing cancelled) = 0
in_chain _ = 1

-- The waits for the timer, and the set-up, which starts the first one.
abbrev pub in_timer : Work → ℕ
in_timer reading = 0
in_timer writing = 0
in_timer closing = 0
in_timer pinging = 0
in_timer _ = 1

abbrev pub chain_flow : Flow
chain_flow = record {
  weight = in_chain;
  at_resolve = omega arith;
  at_connect = omega arith;
  at_ssl_handshake = omega arith;
  at_handshake = omega arith;
  at_write = omega arith;
  at_read = omega arith;
  of_close = refl;
  of_ping = refl;
  of_cancelled = refl;
}

abbrev timer_flow : Flow
timer_flow = record {
  weight = in_timer;
  at_resolve = omega arith;
  at_connect = omega arith;
  at_ssl_handshake = omega arith;
  at_handshake = omega arith;
  at_write = omega arith;
  at_read = omega arith;
  of_close = refl;
  of_ping = refl;
  of_cancelled = refl;
}

module _ (library : Library) (Owner : Type 0) (flow : Flow) where
  abbrev Heavier : ℕ → Session library Owner → Session library Owner → Type 0
  Heavier n s t = weigh flow.weight t.pending ≤ weigh flow.weight s.pending + n

  weight_after :
      (w : Work) (ws : List Work)
      → weigh flow.weight (ws ++ (w ∷ [])) ≤ weigh flow.weight ws + flow.weight w
  weight_after w ws = omega (arith, weigh-append flow.weight ws (w ∷ []))

  Heavier-Respected : Respected library Owner flow Heavier
  Heavier-Respected = record {
    elementary = record {
      weaken = λ le h. omega arith;
      compose = λ h k. omega arith;
      same = λ s t e _ _. omega (arith, ap (weigh flow.weight) e);
      starts = λ w s. weight_after w s.pending;
      cancels = λ s. omega (arith, weigh-aborted flow.weight s.pending flow.of_cancelled);
    };
    sends = λ text s e. weight_after writing s.pending;
    skips = λ s e. omega arith;
    fails = λ e s h. omega arith;
  }

  -- What a handler starts is no heavier than its operation was.
  invoke-weigh :
      (before after : List Work) (w : Work) (x : Session library Owner)
      → weigh flow.weight x.pending ≤ weigh flow.weight (before ++ after) + flow.weight w
      → weigh flow.weight x.pending ≤ weigh flow.weight (before ++ (w ∷ after))
  invoke-weigh before after w x h =
      omega
        (arith, weigh-append flow.weight before after, weigh-append flow.weight before (w ∷ after))

  -- No step makes the operations heavier.
  pub Stepping-weigh :
      (s t : Session library Owner)
      → Stepping library Owner s t
      → weigh flow.weight t.pending ≤ weigh flow.weight s.pending
  unfolding close_ws start pong
  Stepping-weigh s t (invokes before after w c e _ h) =
      subst (λ ws. weigh flow.weight t.pending ≤ weigh flow.weight ws) (sym e)
        (invoke-weigh before after w t (invoke-Adds Heavier-Respected w c _ t h))
  Stepping-weigh s t (pongs before after now e h) =
      subst (λ u. weigh flow.weight u.pending ≤ weigh flow.weight s.pending) h (omega arith)
  Stepping-weigh s t (subscribes request h) =
      subst (λ u. weigh flow.weight u.pending ≤ weigh flow.weight s.pending)
        (subscribe-Lands library Owner request s t h).2 (omega arith)
  Stepping-weigh s t (closes h) =
      subst (λ u. weigh flow.weight u.pending ≤ weigh flow.weight s.pending) h
        (omega (arith, weight_after closing s.pending, flow.of_close))

  Reach-weigh :
      (s t : Session library Owner)
      → Reach library Owner s t
      → weigh flow.weight t.pending ≤ weigh flow.weight s.pending
  Reach-weigh s _ stays = omega arith
  Reach-weigh s u (then_ {t} path step) =
      omega (arith, Reach-weigh s t path, Stepping-weigh t u step)

  run-weigh :
      (host : Text) (request : library.Json) (callback : Option (Event library → Mutate Owner))
      (s t : Session library Owner)
      → Lands (run library Owner host request callback s) t
      → weigh flow.weight t.pending ≤ weigh flow.weight s.pending + flow.weight resolving
  unfolding run start
  run-weigh host request callback s t h =
      let (u, first, rest) =
        next-Lands (subscribe library Owner request (record s { host = host }))
          (λ v. start library Owner resolving (record v { callback = callback })) t h in
      let kept =
        ap (λ (v : Session library Owner). weigh flow.weight v.pending)
          (subscribe-Lands library Owner request (record s { host = host }) u first).2 in
      elim rest [
        | inl e ↦
            omega (arith, kept, ap (λ (v : Session library Owner). weigh flow.weight v.pending) e)
        | inr e ↦ omega (
          arith,
          kept,
          ap (λ (v : Session library Owner). weigh flow.weight v.pending) e,
          weight_after resolving u.pending,
        )
      ]

module _ (library : Library) (Owner : Type 0) where
  -- Run on a session with nothing outstanding, whether `run` returns or throws: in every state that is
  -- then reached, at most one of the resolve, connect, handshake, read and write operations is
  -- outstanding, and at most one of the set-up operations and the waits for the timer.
  pub outstanding_bound :
      (host : Text) (request : library.Json) (callback : Option (Event library → Mutate Owner))
      (s t u : Session library Owner)
      → s.pending ≡ []
      → Lands (run library Owner host request callback s) t
      → Reach library Owner t u
      → (weigh in_chain u.pending ≤ 1) × (weigh in_timer u.pending ≤ 1)
  outstanding_bound host request callback s t u e h path =
      (within_one chain_flow refl, within_one timer_flow refl)
    where
      within_one : (flow : Flow) → flow.weight resolving ≡ 1 → weigh flow.weight u.pending ≤ 1
      within_one flow one = omega (
        arith,
        one,
        run-weigh library Owner flow host request callback s t h,
        ap (weigh flow.weight) e,
        Reach-weigh library Owner flow t u path,
      )
