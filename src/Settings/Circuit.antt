-- ===== src/Settings/Circuit.antt =====
-- The settings of the circuit breaker: core/config/cb_config.go with its keys in
-- core/config/key_generator.go and the records of core/config/model/circuit_breaker.go, the cache of which is in Breakers. The configuration library is a parameter: the value of a key, or a
-- default. Of an `AnyService` that only its names are read the names are listed.
use go_chassis.Prelude.{
  String, List, [], ◌∷◌, Option, none, some, Bool, true, false, ◌==◌, ℤ, pos, eqb_ℤ, Dict, lookup,
  value_or, join, if◌then◌else◌,
}

pub record IsolationSpec : Type 0 where
  pub timeout_in_milliseconds : ℤ
  pub max_concurrent_requests : ℤ
  pub any_service : List String

pub record CircuitBreakPropertyStruct : Type 0 where
  pub force_open : Bool
  pub force_close : Bool

pub record CircuitBreakerSpec : Type 0 where
  pub force_open : Bool
  pub force_close : Bool
  pub sleep_window_in_milliseconds : ℤ
  pub request_volume_threshold : ℤ
  pub error_threshold_percentage : ℤ
  pub any_service : Dict CircuitBreakPropertyStruct

pub record FallbackSpec : Type 0 where
  pub force : Bool
  pub any_service : Dict Bool

pub record FallbackPolicySpec : Type 0 where
  pub policy : String
  pub any_service : Dict String

-- The settings of one type of service, and `HystrixConfig`.
pub record Side : Type 0 where
  pub isolation : IsolationSpec
  pub circuit_breaker : CircuitBreakerSpec
  pub fallback : FallbackSpec
  pub fallback_policy : FallbackPolicySpec

pub record HystrixConfig : Type 0 where
  pub consumer : Side
  pub provider : Side

-- `getIsolationSpec` and the like.
unfoldable pub side : HystrixConfig → String → Side
side config command = if command == "Consumer" then config.consumer else config.provider

-- `GetHystrixSpecificKey` and the keys of the properties.
unfoldable pub get_hystrix_specific_key : String → String → String → String
unfolding join
get_hystrix_specific_key namespace cmd property = join "." ("cse" ∷ namespace ∷ cmd ∷ property ∷ [])

abbrev pub or_default : ℤ → ℤ → ℤ
or_default v d = if eqb_ℤ v (pos 0) then d else v

-- `hystrix.CommandConfig`, with the fields that are set.
pub record CommandConfig : Type 0 where
  pub force_fallback : Bool
  pub max_concurrent_requests : ℤ
  pub error_percent_threshold : ℤ
  pub request_volume_threshold : ℤ
  pub sleep_window : ℤ
  pub force_close : Bool
  pub force_open : Bool
  pub circuit_breaker_enabled : Bool

module _ (get_int : String → ℤ → ℤ) (get_bool : String → Bool → Bool) (config : HystrixConfig) where
  unfoldable pub get_fallback_enabled : String → String → Bool
  unfolding get_hystrix_specific_key
  get_fallback_enabled command t =
      get_bool (get_hystrix_specific_key "fallback" command "enabled")
        (get_bool (get_hystrix_specific_key "fallback" t "enabled") true)

  unfoldable pub get_circuit_breaker_enabled : String → String → Bool
  unfolding get_hystrix_specific_key
  get_circuit_breaker_enabled command t =
      get_bool (get_hystrix_specific_key "circuitBreaker" command "enabled")
        (get_bool (get_hystrix_specific_key "circuitBreaker" t "enabled") false)

  abbrev pub own_force_close : Option CircuitBreakPropertyStruct → Bool → Bool
  own_force_close none global = global
  own_force_close (some cb) global = cb.force_close

  unfoldable pub get_force_close : String → String → Bool
  unfolding side
  get_force_close service t =
      let spec = (side config t).circuit_breaker in
      own_force_close (lookup service spec.any_service) spec.force_close

  abbrev pub own_force_open : Option CircuitBreakPropertyStruct → Bool → Bool
  own_force_open none global = global
  own_force_open (some cb) global = cb.force_open

  unfoldable pub get_force_open : String → String → Bool
  unfolding side
  get_force_open service t =
      let spec = (side config t).circuit_breaker in
      own_force_open (lookup service spec.any_service) spec.force_open

  unfoldable pub get_timeout : String → String → ℤ
  unfolding side get_hystrix_specific_key
  get_timeout service t =
      get_int (get_hystrix_specific_key "isolation" service "timeoutInMilliseconds")
        (or_default (side config t).isolation.timeout_in_milliseconds (pos 30000))

  unfoldable pub get_max_concurrent_requests : String → String → ℤ
  unfolding side get_hystrix_specific_key
  get_max_concurrent_requests command t =
      get_int (get_hystrix_specific_key "isolation" command "maxConcurrentRequests")
        (or_default (side config t).isolation.max_concurrent_requests (pos 1000))

  unfoldable pub get_error_percent_threshold : String → String → ℤ
  unfolding side get_hystrix_specific_key
  get_error_percent_threshold command t =
      get_int (get_hystrix_specific_key "circuitBreaker" command "errorThresholdPercentage")
        (or_default (side config t).circuit_breaker.error_threshold_percentage (pos 50))

  unfoldable pub get_request_volume_threshold : String → String → ℤ
  unfolding side get_hystrix_specific_key
  get_request_volume_threshold command t =
      get_int (get_hystrix_specific_key "circuitBreaker" command "requestVolumeThreshold")
        (or_default (side config t).circuit_breaker.request_volume_threshold (pos 20))

  unfoldable pub get_sleep_window : String → String → ℤ
  unfolding side get_hystrix_specific_key
  get_sleep_window command t =
      get_int (get_hystrix_specific_key "circuitBreaker" command "sleepWindowInMilliseconds")
        (or_default (side config t).circuit_breaker.sleep_window_in_milliseconds (pos 15000))

  unfoldable pub get_policy : String → String → String
  unfolding side
  get_policy service t =
      let spec = (side config t).fallback_policy in
      let own = value_or (lookup service spec.any_service) "" in
      let global = if spec.policy == "" then "throwexception" else spec.policy in
      if own == "" then global else own

  unfoldable pub get_force_fallback : String → String → Bool
  unfolding side
  get_force_fallback service t =
      let spec = (side config t).fallback in value_or (lookup service spec.any_service) spec.force
