-- ===== src/Session/Order.antt =====
-- The order in which a session of src/mexc_futures_ws_session.cpp sends what it was asked to send.
use mexc_cpp_api.Base.{
  arith, ◌≡◌, refl, sym, ap, ◌∙◌, subst, List, [], ◌∷◌, ◌++◌, map, append-nil, append_assoc,
  queue_trans, filter-append,
}
use mexc_cpp_api.Base.Text.{Text}
use mexc_cpp_api.External.{Library}
use mexc_cpp_api.Subscriptions.{Subscriptions}
use mexc_cpp_api.Subscriptions.Control.{queued_by, write_subscription-Lands}
use mexc_cpp_api.Subscriptions.Taking.{
  shown, printed, read_subscription-Takes, read_subscription-fails,
}
use mexc_cpp_api.Session.{Session, start, close_ws, pong, aborted, closing}
use mexc_cpp_api.Session.Steps.{
  Stepping, invokes, pongs, subscribes, closes, Reach, stays, then_, subscribe-Lands,
}
use mexc_cpp_api.Session.Frame.{Respected}
use mexc_cpp_api.Session.Handlers.{invoke-Adds}
use mexc_cpp_api.Session.Bounds.{chain_flow}

module _ {ℓ} {A : Type ℓ} (text_of : A → Text) where
  shown-map-append :
      (k l : List A) → shown (map text_of (k ++ l)) ≡ shown (map text_of k) ++ shown (map text_of l)
  shown-map-append [] l = refl
  shown-map-append (x ∷ k) l = ground (arith, shown-map-append k l)

  texts_trans :
      (x y z : List Text) (k l : List A)
      → y ≡ x ++ shown (map text_of k)
      → z ≡ y ++ shown (map text_of l)
      → z ≡ x ++ shown (map text_of (k ++ l))
  texts_trans x y z k l first second = rw (second, first, append_assoc x, shown-map-append k l) refl

module _ (library : Library) (Owner : Type 0) where
  open library use {Json}

  -- A queue: the requests `added` were put behind the waiting ones, some were taken from the front, and
  -- what was sent, but for empty texts, is what the taken ones print to, in their order.
  pub record Follows (added : List Json) (s t : Session library Owner) : Type 0 where
    pub taken : List Json
    pub in_order : s.subscriptions.requests ++ added ≡ taken ++ t.subscriptions.requests
    pub texts : shown t.sent ≡ shown s.sent ++ shown (map (printed library) taken)

  Follows-refl : (s : Session library Owner) → Follows [] s s
  Follows-refl s = record { taken = []; in_order = append-nil _; texts = sym (append-nil _) }

  Follows-trans :
      (a b : List Json) (s t u : Session library Owner)
      → Follows a s t
      → Follows b t u
      → Follows (a ++ b) s u
  Follows-trans a b s t u f g = record {
    taken = f.taken ++ g.taken;
    in_order = queue_trans _ a b f.taken _ g.taken _ f.in_order g.in_order;
    texts = texts_trans (printed library) _ _ _ f.taken g.taken f.texts g.texts;
  }

  -- A change that leaves the waiting requests and what was sent.
  Follows-same :
      (s t : Session library Owner)
      → t.sent ≡ s.sent
      → t.subscriptions.requests ≡ s.subscriptions.requests
      → Follows [] s t
  Follows-same s t e r = record {
    taken = [];
    in_order = append-nil _ ∙ sym r;
    texts = ap shown e ∙ sym (append-nil _);
  }

  Follows-Respected : Respected library Owner chain_flow (λ n s t. Follows [] s t)
  Follows-Respected = record {
    elementary = record {
      weaken = λ le h. h;
      compose = λ {m} {n} {s} {t} {u} f g. Follows-trans [] [] s t u f g;
      same = λ s t _ e r. Follows-same s t e r;
      starts = λ w s. Follows-same s (record s { pending = s.pending ++ (w ∷ []) }) refl refl;
      cancels = λ s. Follows-same s (record s { pending = map aborted s.pending }) refl refl;
    };
    sends = λ text s e.
        let (taken, order, out) =
          read_subscription-Takes library s.has_logger s.subscriptions text e in
        record {
          taken = taken;
          in_order = append-nil _ ∙ order;
          texts = filter-append _ s.sent (text ∷ []) ∙ ap (λ u. shown s.sent ++ u) out;
        };
    skips = λ s e.
        let (taken, order, out) =
          read_subscription-Takes library s.has_logger s.subscriptions [] e in
        record {
          taken = taken;
          in_order = append-nil _ ∙ order;
          texts = sym (append-nil _) ∙ ap (λ u. shown s.sent ++ u) out;
        };
    fails = λ e s h.
        Follows-same s _ refl (read_subscription-fails library s.has_logger s.subscriptions e h);
  }

  -- What a step has to queue: the request of a call of `subscribe` that is not confirmed yet.
  abbrev added_by : (s t : Session library Owner) → Stepping library Owner s t → List Json
  added_by s t (subscribes request h) = queued_by library request s.subscriptions
  added_by s t (invokes before after w c e p h) = []
  added_by s t (pongs before after now e h) = []
  added_by s t (closes h) = []

  -- What the calls of `subscribe` on a path have to queue, in the order of the calls.
  abbrev pub queued_on : (s t : Session library Owner) → Reach library Owner s t → List Json
  queued_on s _ stays = []
  queued_on s u (then_ {t} path step) = queued_on s t path ++ added_by t u step

  Stepping-Follows :
      (s t : Session library Owner) (step : Stepping library Owner s t)
      → Follows (added_by s t step) s t
  unfolding close_ws start pong
  Stepping-Follows s t (invokes before after w c e _ h) =
      let u : Session library Owner = record s { pending = before ++ after } in
      Follows-trans [] [] s u t (Follows-same s u refl refl)
        (invoke-Adds Follows-Respected w c u t h)
  Stepping-Follows s t (pongs before after now e h) =
      subst (Follows [] s) h (Follows-same s (record s { last_pong = now }) refl refl)
  Stepping-Follows s t (subscribes request h) =
      let (v, kept, e) = subscribe-Lands library Owner request s t h in
      let more = write_subscription-Lands library request s.subscriptions v kept in
      subst (Follows (queued_by library request s.subscriptions) s) e (record {
        taken = [];
        in_order = ap (λ (x : Subscriptions library). x.requests) more;
        texts = sym (append-nil _);
      })
  Stepping-Follows s t (closes h) =
      subst (Follows [] s) h
        (Follows-same s (record s { pending = s.pending ++ (closing ∷ []) }) refl refl)

  -- In every interleaving of handlers, pongs and calls, a session behaves as a queue. Behind the requests
  -- that waited stand those that `subscribe` was called with, in the order of the calls, but for the ones
  -- that `writeSubscription` finds among the confirmed ones; those that are gone were taken from the
  -- front, and the texts handed to `async_write`, but for empty ones, are the prints of the requests
  -- taken, each once and in their order, where a request that cannot be printed has none.
  pub session_refines_queue :
      (s t : Session library Owner) (path : Reach library Owner s t)
      → Follows (queued_on s t path) s t
  session_refines_queue s _ stays = Follows-refl s
  session_refines_queue s u (then_ {t} path step) =
      Follows-trans (queued_on s t path) (added_by t u step) s t u (session_refines_queue s t path)
        (Stepping-Follows t u step)
