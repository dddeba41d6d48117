-- ===== src/Session/Ends.antt =====
-- How the code of the handlers of src/mexc_futures_ws_session.cpp ends, where there is a logger: with such
-- exceptions only, for any choice of them.
use mexc_cpp_api.Base.{
  ◌≡◌, refl, sym, ap, ◌∙◌, Bool, true, false, Option, none, some, Outcome, ok, throw, fault, Step,
  done, threw, faulted, Mutate, Exception, next, ◌>>◌, finish, is_empty, if◌then◌else◌,
}
use mexc_cpp_api.Base.Effects.{bad_function_call, is_std}
use mexc_cpp_api.Base.Text.{Text}
use mexc_cpp_api.Base.Int.{ltb_ℤ, ◌-ℤ◌}
use mexc_cpp_api.External.{Library}
use mexc_cpp_api.Models.Events.{Event, event_from_json, fresh_event}
use mexc_cpp_api.Subscriptions.{read_subscription}
use mexc_cpp_api.Subscriptions.Taking.{read_subscription-throws}
use mexc_cpp_api.Session.{
  Session, Work, reading, closing, pinging, catch_std, log_message, start, async_write,
  cancel_timer, use_subscription, close_ws, deliver, read_on, go_on, ping, ping_interval,
}

module _ (library : Library) (Owner : Type 0) where
  -- The session keeps its logger, and only such exceptions are thrown.
  abbrev pub Ends : (Exception → Type 0) → Step (Session library Owner) → Type 0
  Ends P (done s) = s.has_logger ≡ true
  Ends P (threw e s) = (s.has_logger ≡ true) × P e
  Ends P faulted = Unit

  abbrev pub Tame : (Exception → Type 0) → Mutate (Session library Owner) → Type 0
  Tame P m = (s : Session library Owner) → s.has_logger ≡ true → Ends P (m s)

  module _ (P : Exception → Type 0) where
    pub next-Ends :
        (x : Step (Session library Owner)) (n : Mutate (Session library Owner))
        → Ends P x
        → Tame P n
        → Ends P (next x n (λ u. u))
    next-Ends (done s) n e tame = tame s e
    next-Ends (threw x s) n e tame = e
    next-Ends faulted n e tame = tt

    pub >>-Tame : (m n : Mutate (Session library Owner)) → Tame P m → Tame P n → Tame P (m >> n)
    >>-Tame m n of_m of_n s l = next-Ends (m s) n (of_m s l) of_n

    pub if-Tame :
        (b : Bool) (m n : Mutate (Session library Owner))
        → Tame P m
        → Tame P n
        → Tame P (if b then m else n)
    if-Tame true m n of_m of_n = of_m
    if-Tame false m n of_m of_n = of_n

    pub log_message-Tame : Tame P (log_message library Owner)
    unfolding log_message
    log_message-Tame s l = logs s.has_logger s l l
      where
        logs :
            (b : Bool) (s : Session library Owner)
            → s.has_logger ≡ true
            → b ≡ true
            → Ends P (if b then done s else threw bad_function_call s)
        logs true s l e = l
        logs false s l e = cc

    pub start-Tame : (w : Work) → Tame P (start library Owner w)
    unfolding start
    start-Tame w s l = l

    pub cancel_timer-Tame : Tame P (cancel_timer library Owner)
    unfolding cancel_timer
    cancel_timer-Tame s l = l

    pub unless_failed-Tame :
        (b : Bool) (m : Mutate (Session library Owner))
        → Tame P m
        → Tame P (if b then log_message library Owner else m)
    unless_failed-Tame b m tame = if-Tame b (log_message library Owner) m log_message-Tame tame

    pub quits-Tame : Tame P (log_message library Owner >> close_ws library Owner)
    unfolding close_ws
    quits-Tame =
        >>-Tame (log_message library Owner) (start library Owner closing) log_message-Tame
          (start-Tame closing)

    module _ (foreign : (e : Exception) → is_std e ≡ false → P e) where
      catch_std-Tame : (e : Exception) → Tame P (catch_std library Owner e)
      unfolding catch_std
      catch_std-Tame e s l = caught (is_std e) refl
        where
          caught :
              (b : Bool)
              → is_std e ≡ b
              → Ends P ((if b then log_message library Owner else threw e) s)
          caught true f = log_message-Tame s l
          caught false f = (l, foreign e f)

      told :
          (x : Step Owner) (s : Session library Owner)
          → s.has_logger ≡ true
          → Ends P (elim x [
            | done o ↦ done (record s { owner = o })
            | threw e o ↦ catch_std library Owner e (record s { owner = o })
            | faulted ↦ faulted
          ])
      told (done o) s l = l
      told (threw e o) s l = catch_std-Tame e (record s { owner = o }) l
      told faulted s l = tt

      pub deliver-Tame : (json : library.Json) → Tame P (deliver library Owner json)
      unfolding deliver
      deliver-Tame json s l =
          delivered (finish (event_from_json library json (fresh_event library))) s.callback
        where
          delivered :
              (event : Outcome (Event library)) (callback : Option (Event library → Mutate Owner))
              → Ends P (elim event [
                | ok v ↦ (elim callback [
                  | none ↦ done s
                  | some tell ↦ (elim (tell v s.owner) [
                    | done o ↦ done (record s { owner = o })
                    | threw e o ↦ catch_std library Owner e (record s { owner = o })
                    | faulted ↦ faulted
                  ])
                ])
                | throw e ↦ catch_std library Owner e s
                | fault ↦ faulted
              ])
          delivered (ok v) none = l
          delivered (ok v) (some tell) = told (tell v s.owner) s l
          delivered (throw e) callback = catch_std-Tame e s l
          delivered fault callback = tt

    pub use_subscription-Tame :
        (act : Text → Mutate (Session library Owner))
        → ((text : Text) → Tame P (act text))
        → Tame P (use_subscription library Owner act)
    unfolding use_subscription
    use_subscription-Tame act acts s l =
        used (read_subscription library s.has_logger s.subscriptions).0 (λ x h.
          read_subscription-throws library s.subscriptions x
            (ap (λ b. (read_subscription library b s.subscriptions).0) (sym l) ∙ h))
      where
        taking : Session library Owner
        taking = record s {
          subscriptions = (read_subscription library s.has_logger s.subscriptions).1;
        }

        used :
            (text : Outcome Text)
            → ((x : Exception) → text ≡ throw x → ⊥)
            → Ends P
                (elim text [ ok v ↦ act v taking | throw e ↦ threw e taking | fault ↦ faulted ])
        used (ok v) nothing = acts v taking l
        used (throw e) nothing = absurd (nothing e refl)
        used fault nothing = tt

    pub async_write-Tame : (text : Text) → Tame P (async_write library Owner text)
    unfolding async_write
    async_write-Tame text s l = l

    pub go_on-Tame : (text : Text) → Tame P (go_on library Owner text)
    unfolding go_on read_on
    go_on-Tame text =
        if-Tame (is_empty text) (read_on library Owner) (async_write library Owner text)
          (λ s l.
            if-Tame (is_empty s.subscriptions.confirmed) _ _
              (>>-Tame _ (start library Owner reading) quits-Tame (start-Tame reading))
              (start-Tame reading) s l)
          (async_write-Tame text)

    pub ping-Tame : (is_open : Bool) → Tame P (ping library Owner is_open)
    unfolding ping
    ping-Tame is_open s l =
        let expired = ltb_ℤ ping_interval (s.last_ping -ℤ s.last_pong) in
        let warns : Tame P (if expired then log_message library Owner else done) =
          unless_failed-Tame expired done (λ t k. k) in
        let pings : Tame P (if is_open then start library Owner pinging else done) =
          if-Tame is_open (start library Owner pinging) done (start-Tame pinging) (λ t k. k) in
        >>-Tame _ _ warns pings s l
