-- ===== src/Session/Progress.antt =====
-- The exchange of a session of src/mexc_futures_ws_session.cpp with an exchange that confirms each
-- subscription: requests are sent one at a time, each after the answer to the one before.
use mexc_cpp_api.Base.{
  ◌≡◌, refl, sym, ap, ◌∙◌, subst, ℕ, true, false, List, [], ◌∷◌, ◌++◌, map, All, ok, done, next,
  ◌>>=◌, append_assoc, append-nil, is_empty,
}
use mexc_cpp_api.Base.Text.{Text, codes, text_eq}
use mexc_cpp_api.Base.Int.{pos}
use mexc_cpp_api.External.{Library}
use mexc_cpp_api.Subscriptions.{handle_api_control_msg, is_api_control_msg, read_subscription}
use mexc_cpp_api.Subscriptions.Taking.{printed}
use mexc_cpp_api.Session.{
  Session, Work, reading, writing, Completion, complete, invoke, on_read, on_write, accept,
  dispatch, use_subscription, go_on, async_write, read_on, start, rescue,
}
use mexc_cpp_api.Session.Steps.{Lands, Stepping, invokes, Reach, stays, then_}

module _ (library : Library) where
  open library use {Json, parse, is_object, contains, at_key, get_string, dump, null_json}

  -- The bytes of a control message that says success.
  pub record IsConfirmation (received : Text) : Type 0 where
    pub json : Json
    pub shown : Text
    pub parses : parse received ≡ ok json
    pub object : is_object json ≡ true
    pub control : is_api_control_msg library json ≡ ok true
    pub has_data : contains json "data" ≡ true
    pub success : (at_key json "data" >>= get_string) ≡ ok (codes "success")
    pub shows : dump json ≡ ok shown

  -- A request with a text that is not empty.
  abbrev pub IsPrintable : Json → Type 0
  IsPrintable request = (b : ℕ) × (text : Text) × (dump request ≡ ok (b ∷ text))

module _ (library : Library) (Owner : Type 0) where
  open library use {Json, parse, is_object, contains, at_key, get_string, dump, null_json}

  -- A session with a logger.
  abbrev pub at :
      Session library Owner
      → List Work
      → List Json
      → List Json
      → Json
      → List Text
      → Session library Owner
  at s pending confirmed requests subscribing sent = record s {
    has_logger = true;
    pending = pending;
    subscriptions = record {
      confirmed = confirmed;
      requests = requests;
      subscribing = subscribing;
    };
    sent = sent;
  }

  abbrev read_of : Text → Completion
  read_of received = record {
    failed = false;
    is_named = true;
    port = 0;
    received = received;
    now = pos 0;
    is_open = true;
  }

  module _ (s : Session library Owner) (before : List Work) (received : Text)
      (confirmation : IsConfirmation library received) where
    open confirmation use {json, shown, parses, object, control, has_data, success, shows}

    accept-confirms :
        (confirmed requests : List Json) (subscribing : Json) (sent : List Text)
        → accept library Owner received (at s before confirmed requests subscribing sent)
          ≡ done (at s before (confirmed ++ (subscribing ∷ [])) requests null_json sent)
    unfolding accept dispatch handle_api_control_msg text_eq
    accept-confirms confirmed requests subscribing sent =
        rw (parses, accept)
          (rw (object) (
            rw (control, dispatch)
              (rw (has_data, success, handle_api_control_msg) (rw shows refl))))

    sends_next :
        (confirmed requests : List Json) (r subscribing : Json) (sent : List Text) (b : ℕ)
        (text : Text)
        → dump r ≡ ok (b ∷ text)
        → use_subscription library Owner
            (go_on library Owner)
            (at s before confirmed (r ∷ requests) subscribing sent)
          ≡ done (at s (before ++ (writing ∷ [])) confirmed requests r (sent ++ ((b ∷ text) ∷ [])))
    unfolding use_subscription read_subscription go_on async_write
    sends_next confirmed requests r subscribing sent b text e =
        rw (e, read_subscription) (rw (e, read_subscription) refl)

    reads_next :
        (confirmed : List Json) (x subscribing : Json) (sent : List Text)
        → use_subscription library Owner
            (go_on library Owner)
            (at s before (confirmed ++ (x ∷ [])) [] subscribing sent)
          ≡ done (at s (before ++ (reading ∷ [])) (confirmed ++ (x ∷ [])) [] subscribing sent)
    unfolding use_subscription read_subscription go_on read_on start
    reads_next confirmed x subscribing sent = rw (not_empty confirmed) refl
      where
        not_empty : (xs : List Json) → is_empty (xs ++ (x ∷ [])) ≡ false
        not_empty [] = refl
        not_empty (y ∷ xs) = refl

    -- A confirmation is read; the handler ends in the given state.
    reads :
        (confirmed requests : List Json) (subscribing : Json) (sent : List Text)
        (t : Session library Owner)
        → use_subscription library Owner
            (go_on library Owner)
            (at s before (confirmed ++ (subscribing ∷ [])) requests null_json sent)
          ≡ done t
        → Stepping library Owner
            (at s (before ++ (reading ∷ [])) confirmed requests subscribing sent)
            t
    unfolding invoke complete on_read rescue
    reads confirmed requests subscribing sent t e =
        let call = λ (ws : List Work).
          invoke library Owner reading (read_of received)
            (at s ws confirmed requests subscribing sent) in
        let ends : call (before ++ []) ≡ done t =
          ap call (append-nil before)
          ∙ ap
              (λ x.
                rescue library Owner
                  (next x (use_subscription library Owner (go_on library Owner)) (λ u. u)))
              (accept-confirms confirmed requests subscribing sent)
          ∙ ap (rescue library Owner) e in
        invokes before [] reading (read_of received) refl tt
          (subst (λ x. Lands x t) (sym ends) refl)

  pub writes :
      (s : Session library Owner) (before : List Work) (confirmed requests : List Json)
      (subscribing : Json) (sent : List Text)
      → Stepping library Owner
          (at s (before ++ (writing ∷ [])) confirmed requests subscribing sent)
          (at s (before ++ (reading ∷ [])) confirmed requests subscribing sent)
  unfolding invoke complete on_write start
  writes s before confirmed requests subscribing sent =
      invokes before [] writing (read_of []) refl tt (
        ap (λ ws. at s (ws ++ (reading ∷ [])) confirmed requests subscribing sent)
          (append-nil before))

  pub Reach-append :
      (s t u : Session library Owner)
      → Reach library Owner s t
      → Reach library Owner t u
      → Reach library Owner s u
  Reach-append s t _ path stays = path
  Reach-append s t u path (then_ {t = v} more step) = then_ (Reach-append s t v path more) step

  -- A session with a logger waits for the answer to a request, and others wait to be sent. If each of them
  -- has a text that is not empty, and confirmations can be received, then the session can reach the state
  -- in which all of them, in their order, have been sent and confirmed, and none waits.
  pub requests_confirmed :
      (received : Text)
      → IsConfirmation library received
      → (s : Session library Owner) (before : List Work) (confirmed requests : List Json)
        (subscribing : Json) (sent : List Text)
      → All (IsPrintable library) requests
      → Reach library Owner (at s (before ++ (reading ∷ [])) confirmed requests subscribing sent) (
          at s
            (before ++ (reading ∷ []))
            (confirmed ++ (subscribing ∷ requests))
            []
            null_json
            (sent ++ map (printed library) requests))
  requests_confirmed received confirmation s before confirmed [] subscribing sent printable =
      let read =
        reads s before received confirmation confirmed [] subscribing sent _
          (reads_next s before received confirmation confirmed subscribing null_json sent) in
      subst
        (λ out.
          Reach library Owner (at s (before ++ (reading ∷ [])) confirmed [] subscribing sent)
            (at s (before ++ (reading ∷ [])) (confirmed ++ (subscribing ∷ [])) [] null_json out))
        (sym (append-nil sent)) (then_ stays read)
  requests_confirmed received confirmation s before confirmed (r ∷ requests) subscribing sent
        ((b, text, e), printable) =
      let earlier = confirmed ++ (subscribing ∷ []) in
      let out = sent ++ ((b ∷ text) ∷ []) in
      let read =
        reads s before received confirmation confirmed (r ∷ requests) subscribing sent _
          (sends_next s before received confirmation earlier requests r null_json sent b text e) in
      let first = then_ (then_ stays read) (writes s before earlier requests r out) in
      let rest =
        Reach-append _ _ _ first
          (requests_confirmed received confirmation s before earlier requests r out printable) in
      let texts : out ++ map (printed library) requests
          ≡ sent ++ map (printed library) (r ∷ requests) =
        rw (append_assoc sent, e, printed) refl in
      subst
        (λ x.
          Reach library Owner
            (at s (before ++ (reading ∷ [])) confirmed (r ∷ requests) subscribing sent)
            (at s (before ++ (reading ∷ [])) (confirmed ++ (subscribing ∷ r ∷ requests)) []
              null_json x))
        texts
        (subst
          (λ xs.
            Reach library Owner
              (at s (before ++ (reading ∷ [])) confirmed (r ∷ requests) subscribing sent)
              (at s (before ++ (reading ∷ [])) xs [] null_json
                (out ++ map (printed library) requests)))
          (append_assoc confirmed (subscribing ∷ []) (r ∷ requests)) rest)
