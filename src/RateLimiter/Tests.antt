-- ===== src/RateLimiter/Tests.antt =====
-- The rate limiter of the REST clients at concrete inputs.
use mexc_cpp_api.Base.{
  ◌+◌, ◌≤◌, ◌<◌, ◌≡◌, refl, [], ◌∷◌, ◌++◌, arith, ◌↔◌, filter, leb, length, replicate,
}
use mexc_cpp_api.RateLimiter.{RateLimiter, wait}
use mexc_cpp_api.RateLimiter.Window.{IsValid, wait-IsValid, wait_pause}
use mexc_cpp_api.RateLimiter.Burst.{
  serve, shared, limiter, enter_all, wake_all, threads_burst, serial_burst,
}

abbrev busy : RateLimiter
busy = limiter (100 ∷ 900 ∷ 1100 ∷ [])

three_recorded : wait 1150 busy ≡ (limiter (900 ∷ 1100 ∷ 1150 ∷ []), 0)
unfolding wait
three_recorded = refl

wait_sleeps : (wait 1150 (limiter (replicate 10 400))).1 ≡ 260
unfolding wait
wait_sleeps = refl

wait-IsValid_example : IsValid (1150 + (wait 1150 busy).1) (wait 1150 busy).0
wait-IsValid_example = wait-IsValid 1100 1150 busy (omega arith) (omega arith)

wait_pause_example :
    ((wait 1150 (limiter (replicate 10 400))).1 ≤ 1010)
    × ((0 < (wait 1150 (limiter (replicate 10 400))).1)
        ↔ (10 ≤ length (filter (λ t. leb 1150 (t + 1000)) (replicate 10 400))))
wait_pause_example = wait_pause 1150 (limiter (replicate 10 400)) (omega arith) (omega arith)

threads_burst_example :
    (wake_all 40 (enter_all 40 500 (shared (replicate 10 400) [] []))).sent
    ≡ replicate 40 1410 ++ []
threads_burst_example = threads_burst 40 500 400 (replicate 9 400) [] (omega arith) (omega arith)

serial_burst_example :
    serve (replicate 10 7 ++ (7 ∷ replicate 10 1017)) (limiter [])
    ≡ replicate 10 7 ++ replicate 11 1017
serial_burst_example = serial_burst 7
