-- ===== src/RateLimiter.antt =====
-- `RateLimiter` of src/mexc_futures_rest_client.cpp and of src/mexc_spot_rest_client.cpp, which are
-- the same text. Times are milliseconds since the epoch, read from the system clock as an argument,
-- and not negative; a difference that may be negative stands as a sum on the other side of its test.
pub mod Window
pub mod Burst
mod Tests
use mexc_cpp_api.Base.{
  ℕ, ◌+◌, ◌-◌, Bool, List, [], ◌∷◌, ◌++◌, length, ltb, leb, if◌then◌else◌, ◌≤◌, ◌<◌, ◌≡◌,
}

-- `localLimit`: requests per window.
abbrev pub local_limit : ℕ
local_limit = 10

-- `windowSizeMs`.
abbrev pub window_size_ms : ℕ
window_size_ms = 1000

-- The request times, the front of the deque first.
pub record RateLimiter : Type 0 where
  pub request_times : List ℕ

-- The loop that removes old requests from the front.
pub prune : ℕ → List ℕ → List ℕ
prune now [] = []
prune now (t ∷ ts) = if ltb (t + window_size_ms) now then prune now ts else t ∷ ts

-- How long a call sleeps once the old requests are gone; no sleep is a sleep of 0 ms.
pub sleep_time : ℕ → List ℕ → ℕ
sleep_time now [] = 0
sleep_time now (oldest ∷ ts) =
    if leb local_limit (length (oldest ∷ ts)) then (oldest + window_size_ms + 10) - now else 0

-- A call that nobody interrupts: the new state, and the sleep. What is recorded is the time of entry.
unfoldable pub wait : ℕ → RateLimiter → RateLimiter × ℕ
unfolding prune sleep_time
wait now l =
    let kept = prune now l.request_times in
    (record { request_times = kept ++ (now ∷ []) }, sleep_time now kept)

-- Threads share the limiter. The mutex is released while a thread sleeps, so a call has two steps
-- then: the first prunes and computes the sleep, the second records.
pub record Shared : Type 0 where
  pub limiter : RateLimiter
  -- For each sleeping thread the time of its entry and the end of its sleep.
  pub asleep : List (ℕ × ℕ)
  -- The times at which requests went out, the latest first.
  pub sent : List ℕ

-- `wait` from its start up to its return, or to the release of the mutex.
pub enter : ℕ → Shared → Shared
unfolding prune sleep_time
enter now s =
    let kept = prune now s.limiter.request_times in
    let pause = sleep_time now kept in
    if ltb 0 pause
    then record s {
      limiter = record { request_times = kept };
      asleep = s.asleep ++ ((now, now + pause) ∷ []);
    }
    else record s { limiter = record { request_times = kept ++ (now ∷ []) }; sent = now ∷ s.sent }

-- The longest sleeper wakes, records its entry time and sends.
pub wake : Shared → Shared
wake s = elim s.asleep [
  | [] ↦ s
  | (entered, woken) ∷ rest ↦ record {
    limiter = record { request_times = s.limiter.request_times ++ (entered ∷ []) };
    asleep = rest;
    sent = woken ∷ s.sent;
  }
]
