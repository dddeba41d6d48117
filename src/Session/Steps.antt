-- ===== src/Session/Steps.antt =====
-- The steps of a `WebSocketSession` of src/mexc_futures_ws_session.cpp: the handler of a started operation is
-- called, a pong arrives, or another part of the program calls `subscribe` or `close`.
use mexc_cpp_api.Base.{
  ◌≡◌, refl, ◌⊎◌, inl, inr, false, List, ◌∷◌, ◌++◌, Step, done, threw, faulted, Mutate, next,
}
use mexc_cpp_api.Base.Int.{ℤ}
use mexc_cpp_api.External.{Library}
use mexc_cpp_api.Subscriptions.{Subscriptions, write_subscription}
use mexc_cpp_api.Session.{
  Session, Work, timing, reading, Completion, invoke, subscribe, close_ws, pong,
}

-- The object after the call, whether the call returned or threw.
abbrev pub Lands : {S : Type 0} → Step S → S → Type 0
Lands (done s) t = s ≡ t
Lands (threw e s) t = s ≡ t
Lands faulted t = ⊥

pub next-Lands :
    {S : Type 0} (x : Step S) (n : Mutate S) (t : S)
    → Lands (next x n (λ u. u)) t
    → (u : S) × Lands x u × ((u ≡ t) ⊎ Lands (n u) t)
next-Lands (done u) n t h = (u, refl, inr h)
next-Lands (threw e u) n t h = (u, refl, inl h)
next-Lands faulted n t h = absurd h

-- A wait that has not been cancelled ends without an error.
abbrev pub IsPossible : Work → Completion → Type 0
IsPossible (timing false) c = c.failed ≡ false
IsPossible w c = Unit

module _ (library : Library) (Owner : Type 0) where
  open library use {Json}

  pub data Stepping : Session library Owner → Session library Owner → Type 0 where
    invokes :
        (before after : List Work) (w : Work) (c : Completion) {s t : Session library Owner}
        → s.pending ≡ before ++ (w ∷ after)
        → IsPossible w c
        → Lands (invoke library Owner w c (record s { pending = before ++ after })) t
        → Stepping s t
    pongs :
        (before after : List Work) (now : ℤ) {s t : Session library Owner}
        → s.pending ≡ before ++ (reading ∷ after)
        → Lands (pong library Owner now s) t
        → Stepping s t
    subscribes :
        (request : Json) {s t : Session library Owner}
        → Lands (subscribe library Owner request s) t
        → Stepping s t
    closes : {s t : Session library Owner} → Lands (close_ws library Owner s) t → Stepping s t

  pub data Reach (s : Session library Owner) : Session library Owner → Type 0 where
    stays : Reach s s
    then_ : {t u : Session library Owner} → Reach s t → Stepping t u → Reach s u

  -- `subscribe` changes the waiting requests only.
  pub subscribe-Lands :
      (request : Json) (s t : Session library Owner)
      → Lands (subscribe library Owner request s) t
      → (v : Subscriptions library) × Lands (write_subscription library request s.subscriptions) v
        × (record s { subscriptions = v } ≡ t)
  unfolding subscribe
  subscribe-Lands request s t h = stored (write_subscription library request s.subscriptions) h
    where
      stored :
          (x : Step (Subscriptions library))
          → Lands
              (next x
                (λ v. done (record s { subscriptions = v }))
                (λ v. record s { subscriptions = v }))
              t
          → (v : Subscriptions library) × Lands x v × (record s { subscriptions = v } ≡ t)
      stored (done v) g = (v, refl, g)
      stored (threw e v) g = (v, refl, g)
      stored faulted g = absurd g
