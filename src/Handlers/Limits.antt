-- ===== src/Handlers/Limits.antt =====
-- What a rate limiter at the head of a chain of core/handler does to a call.
use go_chassis.Prelude.{
  suc, ◌≡◌, refl, ◌∙◌, ap, arith, List, ◌∷◌, true, false, pos, leb_ℤ, ◌≤ℤ◌, ◌<ℤ◌, length,
}
use go_chassis.Chain.{Chain, Handler, next}
use go_chassis.Chain.Order.{nested, handed, next-refines}
use go_chassis.QpsLimiter.{QpsLimiterMap, process_qps_token_req}
use go_chassis.Retry.{Response}
use go_chassis.Handlers.{Invocation, RateLimitingConfig, consumer_limiter, too_many_requests}

module _ (config : Invocation → RateLimitingConfig) (empty : Response)
    (c : Chain QpsLimiterMap Invocation Response)
    (rest : List (Handler QpsLimiterMap Invocation Response)) (i : Invocation)
    (q : QpsLimiterMap) where
  -- When the limiter is the first handler of a chain at its start and limits the call, a rate
  -- below 1 refuses the call with the status 429, no token is taken and no other handler is
  -- entered; a rate of at least 1 takes a token of the key and the other handlers run on the same
  -- invocation.
  pub consumer_limiter-guards :
      c.handlers ≡ consumer_limiter config ∷ rest
      → c.handler_index ≡ 0
      → (config i).enabled ≡ true
      → ((config i).rate <ℤ pos 1
          → next (suc (length c.handlers)) empty c i q ≡ handed empty c (too_many_requests, (q, 1)))
        × (pos 1 ≤ℤ (config i).rate
            → let (r, (q', n)) =
                nested empty rest i (process_qps_token_req (config i).key (config i).rate q) in
              next (suc (length c.handlers)) empty c i q ≡ handed empty c (r, (q', suc n)))
  unfolding consumer_limiter nested
  consumer_limiter-guards e h on =
      let go =
        next-refines empty c i q h
        ∙ ap
            (λ (l : List (Handler QpsLimiterMap Invocation Response)).
              handed empty c (nested empty l i q))
            e in
      (
        (λ low.
            let t : leb_ℤ (config i).rate (pos 0) ≡ true = ground arith in
            go ∙ (rw on (rw t refl))),
        (λ enough.
            let t : leb_ℤ (config i).rate (pos 0) ≡ false = ground arith in
            go ∙ (rw on (rw t refl))),
      )
