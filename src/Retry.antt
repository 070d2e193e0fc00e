-- ===== src/Retry.antt =====
-- The retries of the load balancing handler: `handleWithRetry` and `handleWithNoRetry` of
-- core/handler/loadbalance_handler.go. What `getEndpoint` gives in each round and what the rest of
-- the chain answers to each call are parameters. `backoff.Retry` calls its operation until it has
-- no error or a permanent one; the policies that `GetBackOff` makes never stop by themselves. The
-- numbers of retries are not negative.
pub mod Attempts
use go_chassis.Prelude.{
  ℕ, zero, suc, ◌+◌, String, Option, none, some, Bool, true, false, if◌then◌else◌,
}

pub record Response : Type 0 where
  pub status : ℕ
  pub err : Option String

-- `getEndpoint`
pub data Endpoint : Type 0 where
  endpoint : String → Endpoint
  no_endpoint : String → Endpoint

-- The calls of the rest of the chain so far, and `invResp`.
pub record Run : Type 0 where
  pub calls : ℕ
  pub inv_resp : Option Response

abbrev pub start : Run
start = record { calls = 0; inv_resp = none }

-- The response handed on: an empty one where no call answered.
abbrev pub final_response : Option Response → Response
final_response none = record { status = 0; err = none }
final_response (some r) = r

-- `writeErr`
abbrev pub write_err : String → Response
write_err e = record { status = 0; err = some e }

-- The callback of a call, which ignores a nil response: the error, and the run.
abbrev pub on_response : Option Response → Run → Option String × Run
on_response none run = (none, record run { calls = run.calls + 1 })
on_response (some r) run = (r.err, record { calls = run.calls + 1; inv_resp = some r })

-- A call without an error ends the retries on the same server; otherwise they go on.
abbrev pub on_error : Option String → Run → Bool × Run → Bool × Run
on_error none run rest = (true, run)
on_error (some e) run rest = rest

-- A round without an error ends the loop; otherwise the next round follows.
abbrev pub after_round : Bool → Run → Response × Run → Response × Run
after_round true run rest = (final_response run.inv_resp, run)
after_round false run rest = rest

-- Without an endpoint the error is written.
abbrev pub with_endpoint : Endpoint → (String → Response × Run) → Run → Response × Run
with_endpoint (no_endpoint e) round run = (write_err e, run)
with_endpoint (endpoint ep) round run = round ep

module _ (get_endpoint : ℕ → Endpoint) (answer : ℕ → String → Option Response) where
  -- One call of the rest of the chain.
  unfoldable pub attempt : String → Run → Option String × Run
  attempt ep run = on_response (answer run.calls ep) run

  -- `backoff.Retry(operation, lbBackoff)`, with the number of calls that are left before the
  -- operation ends in a permanent error: whether a call had no error.
  unfoldable pub retry_on_same : ℕ → String → Run → Bool × Run
  unfolding attempt
  retry_on_same zero ep run = (false, run)
  retry_on_same (suc left) ep run =
      let (e, run') = attempt ep run in on_error e run' (retry_on_same left ep run')

  -- The loop over `j`, with the number of rounds that are left.
  unfoldable pub retry_on_next : ℕ → ℕ → ℕ → Run → Response × Run
  unfolding retry_on_same
  retry_on_next zero j same run = (final_response run.inv_resp, run)
  retry_on_next (suc left) j same run =
      with_endpoint (get_endpoint j)
        (λ ep.
          let (ok, run') = retry_on_same (same + 1) ep run in
          after_round ok run' (retry_on_next left (suc j) same run'))
        run

  -- `handleWithRetry`: the response that the callback gets, and the run.
  unfoldable pub handle_with_retry : ℕ → ℕ → Response × Run
  unfolding retry_on_next
  handle_with_retry same next = retry_on_next (suc next) 0 same start
