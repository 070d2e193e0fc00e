-- ===== src/Handlers.antt =====
-- The handlers of core/handler as handlers of a chain: the rate limiters of
-- qps_consumer_flow_control_handler.go and qps_provider_flow_control_handler.go, the fault injection
-- of fault_inject_handler.go, and the load balancing of loadbalance_handler.go without retries. The
-- configuration is an argument, and the texts of the errors of the limiters are shortened. The status that is also written to an HTTP reply is not modelled.
pub mod Limits
use go_chassis.Prelude.{
  ℕ, String, ◌<>◌, List, [], ◌∷◌, Option, none, some, Bool, true, false, ◌==◌, ℤ, pos, pos_part,
  leb_ℤ, Dict, lookup, cut, ◌>>=◌, if◌then◌else◌,
}
use go_chassis.Chain.{Step, answers, forwards, Handler}
use go_chassis.Retry.{Response, Endpoint, endpoint, no_endpoint, write_err}
use go_chassis.QpsLimiter.{QpsLimiterMap, process_qps_token_req, get_qps_rate, default_rate}
use go_chassis.Fault
use go_chassis.Fault.{Fault, validate_and_apply_fault}

-- The invocation, as far as these handlers read and write it.
pub record Invocation : Type 0 where
  pub source_micro_service : String
  pub protocol : String
  pub fault_key : String
  pub endpoint : String

-- `control.RateLimitingConfig`
pub record RateLimitingConfig : Type 0 where
  pub enabled : Bool
  pub rate : ℤ
  pub key : String

abbrev pub too_many_requests : Response
too_many_requests = record { status = 429; err = some "rate limit" }

abbrev pub same : Response → Response
same r = r

-- The step of a limiter with a rate: a call over a rate that is not positive is refused.
abbrev pub limited :
    String → ℤ → Invocation → QpsLimiterMap → Step QpsLimiterMap Invocation Response
limited key rate i q =
    if leb_ℤ rate (pos 0)
    then answers too_many_requests q
    else forwards i (process_qps_token_req key rate q) same

-- `(*ConsumerRateLimiterHandler).Handle`
unfoldable pub consumer_limiter :
    (Invocation → RateLimitingConfig) → Handler QpsLimiterMap Invocation Response
consumer_limiter config q i =
    let rlc = config i in if rlc.enabled then limited rlc.key rlc.rate i q else forwards i q same

abbrev pub provider_qps_limit : String
provider_qps_limit = "cse.flowcontrol.Provider.qps.limit"

abbrev pub provider_limit_key_global : String
provider_limit_key_global = "cse.flowcontrol.Provider.qps.global.limit"

-- The key and the rate of `(*ProviderRateLimiterHandler).Handle`.
unfoldable pub provider_rate : (String → ℤ) → String → String × ℤ
provider_rate config source =
    let key = provider_qps_limit <> "." <> source in
    let (rate, ok) = get_qps_rate config key in
    let global : String × ℤ =
      (provider_limit_key_global, (get_qps_rate config provider_limit_key_global).0) in
    if source == "" then global else if ok then (key, rate) else global

-- `(*ProviderRateLimiterHandler).Handle`
unfoldable pub provider_limiter : Bool → (String → ℤ) → Handler QpsLimiterMap Invocation Response
unfolding provider_rate
provider_limiter enabled config q i =
    let (key, rate) = provider_rate config i.source_micro_service in
    if enabled then limited key rate i q else forwards i q same

-- `strings.Contains(err.Error(), "injecting abort")`
abbrev pub is_cut : Option (String × String) → Bool
is_cut none = false
is_cut (some parts) = true

-- The response to an error of the fault injection.
unfoldable pub fault_response : Fault → String → Response
fault_response f e = record {
  status = if is_cut (cut "injecting abort" e) then pos_part f.abort.http_status else 400;
  err = some e;
}

abbrev pub fault_step :
    Fault → Invocation → Fault.Answer → Fault.State → Step Fault.State Invocation Response
fault_step f i a s = elim a.error [
  | none ↦ forwards i s same
  | some e ↦ answers (fault_response f e) s
]

-- `(*FaultHandler).Handle`, over the fault that is configured and the protocols with an injector;
-- `none` where the injection panics. The response to another protocol is empty, and ends the call.
unfoldable pub fault_handler :
    (Invocation → Fault)
    → (String → Bool)
    → Fault.State
    → Invocation
    → Option (Step Fault.State Invocation Response)
unfolding fault_response
fault_handler config has_injector s i =
    let f = config i in
    if has_injector i.protocol
    then (validate_and_apply_fault f i.fault_key s >>= λ (a, s'). some (fault_step f i a s'))
    else some (answers (record { status = 0; err = none }) s)

-- `handleWithNoRetry`, over what `getEndpoint` gives.
unfoldable pub handle_with_no_retry :
    {S : Type 0} → (S → Invocation → Endpoint × S) → Handler S Invocation Response
handle_with_no_retry get_endpoint s i =
    let (ep, s') = get_endpoint s i in
    elim ep [
      | endpoint e ↦ forwards (record i { endpoint = e }) s' same
      | no_endpoint e ↦ answers (write_err e) s'
    ]
