-- ===== src/RateLimiter/Burst.antt =====
-- What `RateLimiter` of the REST clients does not prevent: it records when a call came in, not when
-- its request went out, and it decides on the length of the sleep before the sleep.
use mexc_cpp_api.Base.{
  ℕ, zero, suc, ◌+◌, ◌≤◌, ◌<◌, ◌≡◌, refl, ap, ◌∙◌, List, [], ◌∷◌, ◌++◌, arith, length, replicate,
  length-replicate, append_assoc, append-nil,
}
use mathlib.Core.Path.{ap₂}
use mexc_cpp_api.RateLimiter.{
  RateLimiter, Shared, local_limit, window_size_ms, prune, sleep_time, wait, enter, wake,
}

-- `k` threads call `wait` at the same time.
pub enter_all : ℕ → ℕ → Shared → Shared
enter_all zero now s = s
enter_all (suc k) now s = enter_all k now (enter now s)

-- `k` threads wake, the longest sleeper first.
pub wake_all : ℕ → Shared → Shared
wake_all zero s = s
wake_all (suc k) s = wake_all k (wake s)

-- Callers in a row, each with its time of entry: the times at which their requests go out.
pub serve : List ℕ → RateLimiter → List ℕ
serve [] l = []
serve (now ∷ ns) l = let (l', pause) = wait now l in (now + pause) ∷ serve ns l'

prune-keep :
    (now oldest : ℕ) (ts : List ℕ)
    → now ≤ oldest + window_size_ms
    → prune now (oldest ∷ ts) ≡ oldest ∷ ts
unfolding prune
prune-keep now oldest ts h = ground arith

-- The shared state by its parts.
abbrev pub shared : List ℕ → List (ℕ × ℕ) → List ℕ → Shared
shared times asleep sent = record {
  limiter = record { request_times = times };
  asleep = asleep;
  sent = sent;
}

enter_full :
    (now oldest : ℕ) (ts : List ℕ) (asleep : List (ℕ × ℕ)) (sent : List ℕ)
    → now ≤ oldest + window_size_ms
    → local_limit ≤ length (oldest ∷ ts)
    → enter now (shared (oldest ∷ ts) asleep sent)
      ≡ shared (oldest ∷ ts) (asleep ++ ((now, oldest + 1010) ∷ [])) sent
unfolding enter
enter_full now oldest ts asleep sent h full = ground (arith, prune-keep now oldest ts h)

enter_all_full :
    (k now oldest : ℕ) (ts : List ℕ) (asleep : List (ℕ × ℕ)) (sent : List ℕ)
    → now ≤ oldest + window_size_ms
    → local_limit ≤ length (oldest ∷ ts)
    → enter_all k now (shared (oldest ∷ ts) asleep sent)
      ≡ shared (oldest ∷ ts) (asleep ++ replicate k (now, oldest + 1010)) sent
unfolding enter_all
enter_all_full zero now oldest ts asleep sent h full = rw append-nil
enter_all_full (suc k) now oldest ts asleep sent h full =
    rw (enter_full now oldest ts asleep sent h full) (
      enter_all_full k now oldest ts _ sent h full
      ∙ ap (λ a. shared (oldest ∷ ts) a sent)
          (append_assoc asleep ((now, oldest + 1010) ∷ []) (replicate k (now, oldest + 1010))))

replicate_shift {ℓ} :
    {A : Type ℓ} (k : ℕ) (a : A) (xs : List A)
    → replicate k a ++ (a ∷ xs) ≡ a ∷ (replicate k a ++ xs)
replicate_shift zero a xs = refl
replicate_shift (suc k) a xs = ap (◌∷◌ a) (replicate_shift k a xs)

wake_all_sent :
    (k entered woken : ℕ) (times sent : List ℕ)
    → (wake_all k (shared times (replicate k (entered, woken)) sent)).sent
      ≡ replicate k woken ++ sent
unfolding wake_all wake
wake_all_sent zero entered woken times sent = refl
wake_all_sent (suc k) entered woken times sent =
    wake_all_sent k entered woken (times ++ (entered ∷ [])) (woken ∷ sent)
    ∙ replicate_shift k woken sent

-- If the last second has ten requests or more on record and `k` threads call at once, then however
-- large `k` is, all `k` requests go out at the same moment, 1010 ms after the oldest one on record.
pub threads_burst :
    (k now oldest : ℕ) (ts sent : List ℕ)
    → now ≤ oldest + window_size_ms
    → local_limit ≤ length (oldest ∷ ts)
    → (wake_all k (enter_all k now (shared (oldest ∷ ts) [] sent))).sent
      ≡ replicate k (oldest + 1010) ++ sent
threads_burst k now oldest ts sent h full =
    rw (enter_all_full k now oldest ts [] sent h full)
      (wake_all_sent k now (oldest + 1010) (oldest ∷ ts) sent)

abbrev pub limiter : List ℕ → RateLimiter
limiter times = record { request_times = times }

prune_same : (j t : ℕ) → prune t (replicate j t) ≡ replicate j t
unfolding prune
prune_same zero t = refl
prune_same (suc j) t = ground arith

sleep_time_free : (j t now : ℕ) → j < local_limit → sleep_time now (replicate j t) ≡ 0
unfolding sleep_time
sleep_time_free zero t now h = refl
sleep_time_free (suc j) t now h = ground (arith, length-replicate j t)

wait_free :
    (j t : ℕ)
    → j < local_limit
    → wait t (limiter (replicate j t)) ≡ (limiter (replicate (suc j) t), 0)
unfolding wait
wait_free j t h =
    rw (prune_same j t, sleep_time_free j t t h) (rw (replicate_shift j t [], append-nil))

wait_full : (t : ℕ) → wait t (limiter (replicate 10 t)) ≡ (limiter (replicate 11 t), 1010)
unfolding wait sleep_time
wait_full t = rw (prune_same 10 t) (ground arith)

prune_expired : (j t : ℕ) → prune (t + 1010) (replicate j t) ≡ []
unfolding prune
prune_expired zero t = refl
prune_expired (suc j) t = ground (arith, prune_expired j t)

serve_expired :
    (j t : ℕ) (rest : List ℕ)
    → serve ((t + 1010) ∷ rest) (limiter (replicate j t)) ≡ serve ((t + 1010) ∷ rest) (limiter [])
unfolding serve wait prune
serve_expired j t rest = rw (prune_expired j t)

serve_free :
    (k j t : ℕ) (rest : List ℕ)
    → j + k ≤ local_limit
    → serve (replicate k t ++ rest) (limiter (replicate j t))
      ≡ replicate k t ++ serve rest (limiter (replicate (j + k) t))
unfolding serve
serve_free zero j t rest h = ap (λ n. serve rest (limiter (replicate n t))) (omega arith)
serve_free (suc k) j t rest h =
    rw (wait_free j t (omega arith), serve_free k (suc j) t rest (omega arith))
      (ap₂ (λ a n. a ∷ (replicate k t ++ serve rest (limiter (replicate n t)))) (omega arith)
        (omega arith))

serve_full :
    (t : ℕ) (rest : List ℕ)
    → serve (t ∷ rest) (limiter (replicate 10 t))
      ≡ (t + 1010) ∷ serve rest (limiter (replicate 11 t))
unfolding serve
serve_full t rest = rw (wait_full t)

serve_ten : (t : ℕ) → serve (replicate 10 t) (limiter []) ≡ replicate 10 t
unfolding serve
serve_ten t = serve_free 10 0 t [] (omega arith)

-- One caller after another: if eleven requests are made at time `t` and ten more at the moment at
-- which the eleventh goes out, then eleven requests go out at that moment.
pub serial_burst :
    (t : ℕ)
    → serve (replicate 10 t ++ (t ∷ replicate 10 (t + 1010))) (limiter [])
      ≡ replicate 10 t ++ replicate 11 (t + 1010)
serial_burst t =
    serve_free 10 0 t (t ∷ replicate 10 (t + 1010)) (omega arith)
    ∙ ap (◌++◌ (replicate 10 t)) (
        serve_full t (replicate 10 (t + 1010))
        ∙ ap (◌∷◌ (t + 1010)) (serve_expired 11 t (replicate 9 (t + 1010)) ∙ serve_ten (t + 1010)))
