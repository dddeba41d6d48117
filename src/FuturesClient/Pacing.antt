-- ===== src/FuturesClient/Pacing.antt =====
-- The rate limiter of `RESTClient` of src/mexc_futures_rest_client.cpp over a sequence of calls by one
-- thread, with a clock that never goes back.
use mexc_cpp_api.Base.{
  ℕ, zero, suc, ◌+◌, ◌≤◌, inl, inr, Bool, true, false, List, [], ◌∷◌, ◌++◌, ◌≡◌, append-nil,
  queue_trans, All-imp, arith, ltb, lt→ltb, Outcome, ok, throw, fault, if◌then◌else◌,
}
use mexc_cpp_api.Base.Text.{Text}
use mexc_cpp_api.Base.StringMap.{StringMap}
use mexc_cpp_api.External.{Library}
use mexc_cpp_api.Http.{Request, Response, Crypto, Environment}
use mexc_cpp_api.Http.Futures.{method_get, method_post}
use mexc_cpp_api.Http.Signing.{AuthSource-cases}
use mexc_cpp_api.RateLimiter.{RateLimiter, wait}
use mexc_cpp_api.RateLimiter.Window.{OldestExpired, IsValid, wait-IsValid, wait-append}
use mexc_cpp_api.FuturesClient.{
  Client, rate_limited, get_call, post_call, set_credentials, set_web_token,
}

-- `clock` is the time in the world: reading it, sleeping and sending a request do not set it back,
-- a reading is the time at that moment, and a sleep lasts as long as asked.
pub record IsClock (env : Environment) (clock : env.World → ℕ) : Type 0 where
  pub reads : (w : env.World) → clock w ≤ (env.current_time_ms w).0
  pub after_read : (w : env.World) → (env.current_time_ms w).0 ≤ clock (env.current_time_ms w).1
  pub after_sleep : (ms : ℕ) (w : env.World) → clock w + ms ≤ clock (env.sleep_for_ms ms w)
  pub after_exchange :
      (uri : Text) (req : Request) (w : env.World) → clock w ≤ clock (env.exchange uri req w).1

plus_le : (a b c p : ℕ) → a ≤ b → b + p ≤ c → a + p ≤ c
plus_le a b c p h k = omega arith

le_trans : (a b c : ℕ) → a ≤ b → b ≤ c → a ≤ c
le_trans a b c h k = omega arith

plus_zero : (a b : ℕ) → a ≤ b → a + 0 ≤ b
plus_zero a b h = omega arith

OldestExpired-mono : (a b : ℕ) (ts : List ℕ) → a ≤ b → OldestExpired a ts → OldestExpired b ts
OldestExpired-mono a b [] h e = tt
OldestExpired-mono a b (t ∷ ts) h e = λ full. let before = e full in omega arith

IsValid-mono : (a b : ℕ) (l : RateLimiter) → a ≤ b → IsValid a l → IsValid b l
IsValid-mono a b l h v = record {
  sorted = v.sorted;
  past = All-imp (λ t. t ≤ a) (λ t. t ≤ b) l.request_times (λ t k. omega arith) v.past;
  bounded = v.bounded;
  expired = OldestExpired-mono a b l.request_times h v.expired;
}

module _ (library : Library) (crypto : Crypto) (env : Environment) (clock : env.World → ℕ) where
  -- The limiter is valid at the time of the client's world.
  abbrev pub IsPaced : Client library crypto env → Type 0
  IsPaced c = IsValid (clock c.world) c.rate_limiter

  -- What a thread does with a client.
  pub data Use : Type 0 where
    get : Text → StringMap Text → Bool → Use
    post : Text → Outcome Text → Use
    credentials : Text → Text → Use
    token : Text → Use

  -- A use of the client, whatever the operation reads from the answer.
  abbrev pub used :
      {V : Type 0}
      → (Response → Outcome V)
      → Use
      → Client library crypto env
      → Client library crypto env
  used read (get path ps is_public) c = (get_call library crypto env path ps is_public read c).1
  used read (post path body) c = (post_call library crypto env path body read c).1
  used read (credentials key secret) c = set_credentials library crypto env key secret c
  used read (token t) c = set_web_token library crypto env t c

  pub after :
      {V : Type 0}
      → (Response → Outcome V)
      → List Use
      → Client library crypto env
      → Client library crypto env
  after read [] c = c
  after read (u ∷ us) c = after read us (used read u c)

  -- When a use asks the rate limiter, if it does: at the time of the call, unless it has nothing to send.
  abbrev asked_at : Use → Client library crypto env → List ℕ
  asked_at (get path ps is_public) c = (env.current_time_ms c.world).0 ∷ []
  asked_at (post path (ok body)) c = (env.current_time_ms c.world).0 ∷ []
  asked_at (post path (throw e)) c = []
  asked_at (post path fault) c = []
  asked_at (credentials key secret) c = []
  asked_at (token t) c = []

  -- The times of all calls that have a request to send.
  abbrev pub moments :
      {V : Type 0} → (Response → Outcome V) → List Use → Client library crypto env → List ℕ
  moments read [] c = []
  moments read (u ∷ us) c = asked_at u c ++ moments read us (used read u c)

  -- The limiter records the given times behind those that it had, and drops the oldest.
  abbrev pub Records : List ℕ → Client library crypto env → Client library crypto env → Type 0
  Records times c d =
      (dropped : List ℕ) × (c.rate_limiter.request_times ++ times
        ≡ dropped ++ d.rate_limiter.request_times)

  used-Records :
      {V : Type 0} (read : Response → Outcome V) (u : Use) (c : Client library crypto env)
      → Records (asked_at u c) c (used read u c)
  unfolding get_call post_call rate_limited set_credentials set_web_token
  used-Records read (get path ps is_public) c =
      wait-append (env.current_time_ms c.world).0 c.rate_limiter
  used-Records read (post path (ok body)) c =
      wait-append (env.current_time_ms c.world).0 c.rate_limiter
  used-Records read (post path (throw e)) c = ([], append-nil _)
  used-Records read (post path fault) c = ([], append-nil _)
  used-Records read (credentials key secret) c = ([], append-nil _)
  used-Records read (token t) c = ([], append-nil _)

  after-Records :
      {V : Type 0} (read : Response → Outcome V) (us : List Use) (c : Client library crypto env)
      → Records (moments read us c) c (after read us c)
  unfolding after
  after-Records read [] c = ([], append-nil _)
  after-Records read (u ∷ us) c =
      let (first, e) = used-Records read u c in
      let (later, e') = after-Records read us (used read u c) in
      (first ++ later, queue_trans _ _ _ first _ later _ e e')

  module _ (laws : IsClock env clock) where
    reading : (w : env.World) → clock w ≤ clock (env.current_time_ms w).1
    reading w = le_trans _ _ _ (laws.reads w) (laws.after_read w)

    rate_limited-IsPaced :
        (c : Client library crypto env) → IsPaced c → IsPaced (rate_limited library crypto env c)
    unfolding rate_limited
    rate_limited-IsPaced c v =
        let now = (env.current_time_ms c.world).0 in
        let w = (env.current_time_ms c.world).1 in
        let pause = (wait now c.rate_limiter).1 in
        IsValid-mono (now + pause) _ _ (slept now pause w (laws.after_read c.world))
          (wait-IsValid (clock c.world) now c.rate_limiter (laws.reads c.world) v)
      where
        slept :
            (now pause : ℕ) (w : env.World)
            → now ≤ clock w
            → now + pause ≤ clock (if ltb 0 pause then env.sleep_for_ms pause w else w)
        slept now zero w h = plus_zero now (clock w) h
        slept now (suc pause) w h =
            rw (lt→ltb 0 (suc pause) (omega arith))
              (plus_le now (clock w) _ (suc pause) h (laws.after_sleep (suc pause) w))

    method_get_clock :
        (session : _) (path : Text) (ps : StringMap Text) (is_public : Bool) (w : env.World)
        → clock w ≤ clock (method_get crypto env session path ps is_public w).1
    unfolding method_get
    method_get_clock session path ps true w = laws.after_exchange _ _ w
    method_get_clock session path ps false w = elim (AuthSource-cases session.auth_source) [
      | inl e ↦ rw e (laws.after_exchange _ _ w)
      | inr e ↦ rw e (le_trans _ _ _ (reading w) (laws.after_exchange _ _ _))
    ]

    method_post_clock :
        (session : _) (path body : Text) (w : env.World)
        → clock w ≤ clock (method_post crypto env session path body w).1
    unfolding method_post
    method_post_clock session path body w = elim (AuthSource-cases session.auth_source) [
      | inl e ↦ rw e (le_trans _ _ _ (reading w) (laws.after_exchange _ _ _))
      | inr e ↦ rw e (omega arith)
    ]

    used-IsPaced :
        {V : Type 0} (read : Response → Outcome V) (u : Use) (c : Client library crypto env)
        → IsPaced c
        → IsPaced (used read u c)
    unfolding get_call post_call set_credentials set_web_token
    used-IsPaced read (get path ps is_public) c v =
        IsValid-mono _ _ _ (method_get_clock _ path ps is_public _) (rate_limited-IsPaced c v)
    used-IsPaced read (post path (ok body)) c v =
        IsValid-mono _ _ _ (method_post_clock _ path body _) (rate_limited-IsPaced c v)
    used-IsPaced read (post path (throw e)) c v = v
    used-IsPaced read (post path fault) c v = v
    used-IsPaced read (credentials key secret) c v = v
    used-IsPaced read (token t) c v = v

    stays-IsPaced :
        {V : Type 0} (read : Response → Outcome V) (us : List Use) (c : Client library crypto env)
        → IsPaced c
        → IsPaced (after read us c)
    unfolding after
    stays-IsPaced read [] c v = v
    stays-IsPaced read (u ∷ us) c v =
        stays-IsPaced read us (used read u c) (used-IsPaced read u c v)

    -- If the clock never goes back, a thread may use a client in any way, with any answers. Each call that
    -- has a request to send passes the rate limiter exactly once: the times of these calls are recorded in
    -- their order, behind the earlier ones, of which the oldest are dropped. The limiter stays valid at the
    -- time of the world, so the thread has slept whenever the deque was over the limit.
    pub after-IsPaced :
        {V : Type 0} (read : Response → Outcome V) (us : List Use) (c : Client library crypto env)
        → IsPaced c
        → Records (moments read us c) c (after read us c) × IsPaced (after read us c)
    after-IsPaced read us c v = (after-Records read us c, stays-IsPaced read us c v)
