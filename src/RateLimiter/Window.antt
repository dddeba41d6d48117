-- ===== src/RateLimiter/Window.antt =====
-- What `RateLimiter` of the REST clients keeps, for callers that come one after another.
use mexc_cpp_api.Base.{
  ℕ, ◌+◌, ◌≤◌, ◌<◌, ◌≡◌, refl, Bool, true, false, if◌then◌else◌, ◌↔◌, ap, ◌∙◌, subst, append_assoc,
  List, [], ◌∷◌, ◌++◌, arith, length, length-append, leb, ltb, filter, All, All-append, All-imp,
}
use mexc_cpp_api.RateLimiter.{RateLimiter, local_limit, window_size_ms, prune, sleep_time, wait}

-- Times that do not fall along the list.
abbrev pub IsSorted : ℕ → List ℕ → Type 0
IsSorted b [] = Unit
IsSorted b (t ∷ ts) = (b ≤ t) × IsSorted t ts

IsSorted-mono : (a b : ℕ) (ts : List ℕ) → a ≤ b → IsSorted b ts → IsSorted a ts
IsSorted-mono a b [] h s = tt
IsSorted-mono a b (t ∷ ts) h s = (omega arith, s.1)

filter_all :
    (b now : ℕ) (ts : List ℕ)
    → IsSorted b ts
    → now ≤ b + window_size_ms
    → filter (λ t. leb now (t + window_size_ms)) ts ≡ ts
filter_all b now [] s h = refl
filter_all b now (t ∷ ts) s h = ground (arith, filter_all t now ts s.1)

-- On sorted times the loop removes exactly the requests that have left the window.
prune-eq-filter :
    (b now : ℕ) (ts : List ℕ)
    → IsSorted b ts
    → prune now ts ≡ filter (λ t. leb now (t + window_size_ms)) ts
unfolding prune
prune-eq-filter b now [] s = refl
prune-eq-filter b now (t ∷ ts) s =
    ground (arith, prune-eq-filter t now ts s.1, filter_all t now ts s.1)

prune-IsSorted : (b now : ℕ) (ts : List ℕ) → IsSorted b ts → IsSorted b (prune now ts)
unfolding prune
prune-IsSorted b now [] s = tt
prune-IsSorted b now (t ∷ ts) s =
    ground (arith, prune-IsSorted t now ts s.1, IsSorted-mono b t (prune now ts) s.0)

prune-All : (P : ℕ → Type 0) (now : ℕ) (ts : List ℕ) → All P ts → All P (prune now ts)
unfolding prune
prune-All P now [] a = tt
prune-All P now (t ∷ ts) a = ground (arith, prune-All P now ts a.1)

IsSorted-snoc :
    (b now : ℕ) (ts : List ℕ)
    → b ≤ now
    → IsSorted b ts
    → All (λ t. t ≤ now) ts
    → IsSorted b (ts ++ (now ∷ []))
IsSorted-snoc b now [] h s a = (h, tt)
IsSorted-snoc b now (t ∷ ts) h s a = (s.0, IsSorted-snoc t now ts a.0 s.1 a.1)

-- With more than `local_limit` times in the deque, the oldest is out of the window.
abbrev pub OldestExpired : ℕ → List ℕ → Type 0
OldestExpired free [] = Unit
OldestExpired free (t ∷ ts) = local_limit ≤ length ts → t + window_size_ms < free

-- The limiter when the last call has returned at `free`.
pub record IsValid (free : ℕ) (l : RateLimiter) : Type 0 where
  pub sorted : IsSorted 0 l.request_times
  pub past : All (λ t. t ≤ free) l.request_times
  pub bounded : length l.request_times ≤ local_limit + 1
  pub expired : OldestExpired free l.request_times

length-prune-le : (now : ℕ) (ts : List ℕ) → length (prune now ts) ≤ length ts
unfolding prune
length-prune-le now [] = omega arith
length-prune-le now (t ∷ ts) = ground (arith, length-prune-le now ts)

length-prune :
    (free now : ℕ) (ts : List ℕ)
    → free ≤ now
    → length ts ≤ local_limit + 1
    → OldestExpired free ts
    → length (prune now ts) ≤ local_limit
unfolding prune
length-prune free now [] h b e = omega arith
length-prune free now (t ∷ ts) h b e = ground (arith, length-prune-le now ts, e)

record-IsValid :
    (now : ℕ) (kept : List ℕ)
    → IsSorted 0 kept
    → All (λ t. t ≤ now) kept
    → length kept ≤ local_limit
    → IsValid (now + sleep_time now kept) (record { request_times = kept ++ (now ∷ []) })
unfolding sleep_time
record-IsValid now kept s a b = record {
  sorted = IsSorted-snoc 0 now kept (omega arith) s a;
  past =
      All-append (λ t. t ≤ now + sleep_time now kept) kept (now ∷ [])
        (All-imp (λ t. t ≤ now) (λ t. t ≤ now + sleep_time now kept) kept (λ t h. omega arith) a)
        (omega arith, tt);
  bounded = omega (arith, length-append kept (now ∷ []));
  expired = expired kept b;
}
  where
    expired :
        (ts : List ℕ)
        → length ts ≤ local_limit
        → OldestExpired (now + sleep_time now ts) (ts ++ (now ∷ []))
    expired [] h = λ full. omega arith
    expired (t ∷ ts) h = λ full. ground (arith, length-append ts (now ∷ []))

-- Callers that come one after another keep the deque sorted and at most one longer than the limit,
-- and after each call the deque is over the limit only if its oldest time has left the window.
pub wait-IsValid :
    (free now : ℕ) (l : RateLimiter)
    → free ≤ now
    → IsValid free l
    → IsValid (now + (wait now l).1) (wait now l).0
unfolding wait
wait-IsValid free now l h v =
    let ts = l.request_times in
    record-IsValid now (prune now ts) (prune-IsSorted 0 now ts v.sorted)
      (prune-All (λ t. t ≤ now) now ts
        (All-imp (λ t. t ≤ free) (λ t. t ≤ now) ts (λ t k. omega arith) v.past))
      (length-prune free now ts h v.bounded v.expired)

sleep_time-le :
    (now : ℕ) (ts : List ℕ) → All (λ t. t ≤ now) ts → sleep_time now ts ≤ window_size_ms + 10
unfolding sleep_time
sleep_time-le now [] a = omega arith
sleep_time-le now (t ∷ ts) a = ground arith

-- The oldest times are dropped, and the others stay in their order.
prune-append : (now : ℕ) (ts : List ℕ) → (dropped : List ℕ) × (ts ≡ dropped ++ prune now ts)
unfolding prune
prune-append now [] = ([], refl)
prune-append now (t ∷ ts) = either (ltb (t + window_size_ms) now) (prune-append now ts)
  where
    either :
        (b : Bool)
        → ((dropped : List ℕ) × (ts ≡ dropped ++ prune now ts))
        → (dropped : List ℕ) × (t ∷ ts ≡ dropped ++ (if b then prune now ts else t ∷ ts))
    either true (dropped, e) = (t ∷ dropped, ap (λ us. t ∷ us) e)
    either false rest = ([], refl)

-- A call of `wait` records its time behind those of earlier calls, of which it drops the oldest.
pub wait-append :
    (now : ℕ) (l : RateLimiter)
    → (dropped : List ℕ) × (l.request_times ++ (now ∷ []) ≡ dropped ++ (wait now l).0.request_times)
unfolding wait
wait-append now l =
    let (dropped, e) = prune-append now l.request_times in
    (dropped, ap (λ ts. ts ++ (now ∷ [])) e ∙ append_assoc dropped _ _)

full_sleeps :
    (now : ℕ) (ts : List ℕ)
    → local_limit ≤ length (prune now ts)
    → 0 < sleep_time now (prune now ts)
unfolding prune sleep_time
full_sleeps now [] h = omega arith
full_sleeps now (t ∷ ts) h = ground (arith, full_sleeps now ts)

sleeps_full : (now : ℕ) (ts : List ℕ) → 0 < sleep_time now ts → local_limit ≤ length ts
unfolding sleep_time
sleeps_full now [] h = omega arith
sleeps_full now (t ∷ ts) h = ground arith

-- If the recorded times are sorted and none lies in the future, a call sleeps for at most 1010 ms, and it
-- sleeps exactly where at least ten of the recorded times are at most 1000 ms old.
pub wait_pause :
    (now : ℕ) (l : RateLimiter)
    → IsSorted 0 l.request_times
    → All (λ t. t ≤ now) l.request_times
    → ((wait now l).1 ≤ 1010)
      × ((0 < (wait now l).1) ↔ (10 ≤ length (filter (λ t. leb now (t + 1000)) l.request_times)))
unfolding wait
wait_pause now l s a =
    let ts = l.request_times in
    (
      omega (arith, sleep_time-le now _ (prune-All (λ t. t ≤ now) now ts a)),
      subst (λ us. (0 < sleep_time now (prune now ts)) ↔ (10 ≤ length us))
          (prune-eq-filter 0 now ts s) (sleeps_full now (prune now ts), full_sleeps now ts),
    )
