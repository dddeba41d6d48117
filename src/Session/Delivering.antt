-- ===== src/Session/Delivering.antt =====
-- The events that a session of src/mexc_futures_ws_session.cpp tells its callback, over many reads.
use mexc_cpp_api.Base.{
  ◌≡◌, refl, sym, ap, ◌∙◌, subst, true, false, List, [], ◌∷◌, ◌++◌, append-nil, Option, none, some,
  Outcome, ok, throw, fault, Step, done, threw, faulted, Mutate, finish, is_empty, if◌then◌else◌,
}
use mexc_cpp_api.Base.Effects.{is_std, bad_function_call}
use mexc_cpp_api.Base.Text.{Text}
use mexc_cpp_api.External.{Library}
use mexc_cpp_api.Models.Events.{Event, event_from_json, fresh_event}
use mexc_cpp_api.Subscriptions.{is_api_control_msg, read_subscription}
use mexc_cpp_api.Session.{
  Session, Work, Completion, reading, log_message, catch_std, deliver, dispatch, accept,
  use_subscription, go_on, read_on, start, invoke, complete, on_read, rescue,
}
use mexc_cpp_api.Session.Progress.{Reach-append}
use mexc_cpp_api.Session.Steps.{Lands, Stepping, invokes, Reach, stays, then_}

module _ (library : Library) where
  open library use {Json, parse, is_object}

  -- An object that is no control message, and from which the event is read.
  pub record Holds (received : Text) (event : Event library) : Type 0 where
    pub json : Json
    pub parses : parse received ≡ ok json
    pub object : is_object json ≡ true
    pub control : is_api_control_msg library json ≡ ok false
    pub reads : finish (event_from_json library json (fresh_event library)) ≡ ok event

  -- Each read brings an event.
  abbrev pub Bring : List Completion → List (Event library) → Type 0
  Bring [] [] = Unit
  Bring [] (e ∷ es) = ⊥
  Bring (c ∷ cs) [] = ⊥
  Bring (c ∷ cs) (e ∷ es) = (c.failed ≡ false) × Holds c.received e × Bring cs es

module _ {Owner : Type 0} where
  -- What the callback leaves, whether it returns or throws what `catch (std::exception &)` catches.
  abbrev pub Leaves : Step Owner → Owner → Type 0
  Leaves (done o) u = o ≡ u
  Leaves (threw e o) u = (is_std e ≡ true) × (o ≡ u)
  Leaves faulted u = ⊥

  -- The callback is told one event after the other.
  abbrev pub Told : {E : Type 0} → (E → Mutate Owner) → List E → Owner → Owner → Type 0
  Told tell [] o u = o ≡ u
  Told tell (e ∷ es) o u = (v : Owner) × Leaves (tell e o) v × Told tell es v u

module _ (library : Library) (Owner : Type 0) (tell : Event library → Mutate Owner) where
  -- A session that has a logger and the callback, with nothing to send and something confirmed.
  pub record IsIdle (s : Session library Owner) : Type 0 where
    pub logger : s.has_logger ≡ true
    pub callback : s.callback ≡ some tell
    pub requests : s.subscriptions.requests ≡ []
    pub confirmed : is_empty s.subscriptions.confirmed ≡ false

  abbrev with_owner : Session library Owner → Owner → Session library Owner
  with_owner s o = record s { owner = o }

  told_by :
      (s : Session library Owner) (x : Step Owner) (u : Owner)
      → s.has_logger ≡ true
      → Leaves x u
      → (elim x [
        | done o ↦ done (record s { owner = o })
        | threw e o ↦ catch_std library Owner e (record s { owner = o })
        | faulted ↦ faulted
      ])
        ≡ done (with_owner s u)
  unfolding catch_std log_message
  told_by s (done o) u l e = ap (λ v. done (with_owner s v)) e
  told_by s (threw x o) u l (std, e) =
      ap (λ b. (if b then log_message library Owner else threw x) (with_owner s o)) std
      ∙ (ap (λ b. if b then done (with_owner s o) else threw bad_function_call (with_owner s o)) l
          ∙ ap (λ v. done (with_owner s v)) e)
  told_by s faulted u l e = absurd e

  deliver-Leaves :
      (s : Session library Owner) (json : library.Json) (event : Event library) (u : Owner)
      → IsIdle s
      → finish (event_from_json library json (fresh_event library)) ≡ ok event
      → Leaves (tell event s.owner) u
      → deliver library Owner json s ≡ done (with_owner s u)
  unfolding deliver
  deliver-Leaves s json event u idle reads told =
      ap (λ o. outcome o s.callback) reads
      ∙ (ap (outcome (ok event)) idle.callback ∙ told_by s (tell event s.owner) u idle.logger told)
    where
      outcome :
          Outcome (Event library)
          → Option (Event library → Mutate Owner)
          → Step (Session library Owner)
      outcome o k = elim o [
        | ok v ↦ (elim k [
          | none ↦ done s
          | some f ↦ (elim (f v s.owner) [
            | done o ↦ done (record s { owner = o })
            | threw e o ↦ catch_std library Owner e (record s { owner = o })
            | faulted ↦ faulted
          ])
        ])
        | throw e ↦ catch_std library Owner e s
        | fault ↦ faulted
      ]

  accept-Leaves :
      (s : Session library Owner) (received : Text) (event : Event library) (u : Owner)
      → IsIdle s
      → Holds library received event
      → Leaves (tell event s.owner) u
      → accept library Owner received s ≡ done (with_owner s u)
  unfolding accept dispatch
  accept-Leaves s received event u idle brings told =
      rw (brings.parses, accept)
        (rw brings.object (
          rw (brings.control, dispatch)
            (deliver-Leaves s brings.json event u idle brings.reads told)))

  -- With nothing to send and something confirmed, the next read is started.
  pub goes_on :
      (s : Session library Owner)
      → s.subscriptions.requests ≡ []
      → is_empty s.subscriptions.confirmed ≡ false
      → use_subscription library Owner (go_on library Owner) s
        ≡ done (record s { pending = s.pending ++ (reading ∷ []) })
  unfolding use_subscription read_subscription go_on read_on start
  goes_on s requests confirmed = rw requests (rw confirmed refl)

  -- A read that brings an event: the callback is told it, and the next read is started.
  reads_on :
      (s : Session library Owner) (c : Completion) (event : Event library) (u : Owner)
      → c.failed ≡ false
      → Holds library c.received event
      → IsIdle s
      → Leaves (tell event s.owner) u
      → invoke library Owner reading c s
        ≡ done (record s { owner = u; pending = s.pending ++ (reading ∷ []) })
  unfolding invoke complete on_read rescue
  reads_on s c event u good brings idle told = rw good (
      rw (accept-Leaves s c.received event u idle brings told)
        (rw (goes_on (with_owner s u) idle.requests idle.confirmed) refl))

  -- The session between two reads.
  abbrev pub between : Session library Owner → List Work → Owner → Session library Owner
  between s before o = record s { owner = o; pending = before ++ (reading ∷ []) }

  one_read :
      (s : Session library Owner) (before : List Work) (o u : Owner) (c : Completion)
      (event : Event library)
      → c.failed ≡ false
      → Holds library c.received event
      → IsIdle s
      → Leaves (tell event o) u
      → Stepping library Owner (between s before o) (between s before u)
  one_read s before o u c event good brings idle told =
      let at = λ (ws : List Work). record s { owner = o; pending = ws } in
      let calm : IsIdle (at before) = record {
        logger = idle.logger;
        callback = idle.callback;
        requests = idle.requests;
        confirmed = idle.confirmed;
      } in
      let ends =
        ap (λ ws. invoke library Owner reading c (at ws)) (append-nil before)
        ∙ reads_on (at before) c event u good brings calm told in
      invokes before [] reading c refl tt
        (subst (λ x. Lands x (between s before u)) (sym ends) refl)

  -- A session that has a logger and a callback, where nothing waits to be sent and something is confirmed,
  -- and that is reading. Let the next reads bring events. Then the session can reach the state in which
  -- the callback was told all of them, in their order and each once, even if it throws exceptions derived
  -- from `std::exception`, and the session is reading again: nothing else of it has changed.
  pub events_delivered :
      (s : Session library Owner) (before : List Work) (reads : List Completion)
      (events : List (Event library)) (o u : Owner)
      → IsIdle s
      → Bring library reads events
      → Told tell events o u
      → Reach library Owner (between s before o) (between s before u)
  events_delivered s before [] [] o u idle bring told =
      subst (λ v. Reach library Owner (between s before o) (between s before v)) told stays
  events_delivered s before [] (e ∷ es) o u idle bring told = absurd bring
  events_delivered s before (c ∷ cs) [] o u idle bring told = absurd bring
  events_delivered s before (c ∷ cs) (e ∷ es) o u idle (good, brings, more) (v, first, rest) =
      Reach-append library Owner _ _ _
        (then_ stays (one_read s before o v c e good brings idle first))
        (events_delivered s before cs es v u idle more rest)
