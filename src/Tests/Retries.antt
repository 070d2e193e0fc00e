-- ===== src/Tests/Retries.antt =====
-- The retries of core/handler/loadbalance_handler.go on small data.
use go_chassis.Prelude.{ℕ, ◌+◌, ◌≡◌, ◌<◌, refl, arith, String, Option, none, some, zero, suc}
use go_chassis.Retry.{Response, Endpoint, endpoint, handle_with_retry}
use go_chassis.Retry.Attempts.{Fails, handle_with_retry-reaches}

abbrev one_server : ℕ → Endpoint
one_server j = endpoint "10.0.0.1:80"

abbrev busy : Response
busy = record { status = 503; err = some "busy" }

abbrev good : Response
good = record { status = 200; err = none }

-- The third call succeeds.
abbrev third_time : ℕ → String → Option Response
third_time zero ep = some busy
third_time (suc zero) ep = some busy
third_time (suc (suc n)) ep = some good

first_two : (m : ℕ) → m < 2 → Fails one_server third_time m
first_two zero h ep = (503, "busy", refl)
first_two (suc zero) h ep = (503, "busy", refl)
first_two (suc (suc m)) h ep = absurd (omega arith)

handle_with_retry-reaches_example :
    handle_with_retry one_server third_time 1 1
    ≡ (good, record { calls = 2 + 1; inv_resp = some good })
handle_with_retry-reaches_example =
    handle_with_retry-reaches one_server third_time 2 good refl (λ ep. refl) 1 1 (omega arith)
      first_two (λ i. ("10.0.0.1:80", refl))
