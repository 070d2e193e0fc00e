-- ===== src/Settings/Levels.antt =====
-- The settings of fault injection: core/config/fault_injection_config.go with its keys in
-- core/config/key_generator.go. A value is looked up for the operation, the schema, the service and
-- for all services. The configuration library is a parameter: the integer or 0, and any value or
-- nothing. A delay is counted in milliseconds.
pub mod Specific
use go_chassis.Prelude.{
  String, ◌<>◌, List, [], ◌∷◌, Option, none, some, Bool, true, false, not, ◌&&◌, ◌==◌, ℤ, pos,
  eqb_ℤ, atoi, join, if◌then◌else◌,
}
use go_chassis.QpsLimiter.{Value, int_value, string_value, other_value}

-- `GetFaultInjectionOperationKey` and the keys of the other levels.
unfoldable pub get_fault_injection_operation_key : String → String → String → String
unfolding join
get_fault_injection_operation_key micro_service_name schema operation = join "." (
    "cse" ∷ "governance" ∷ "Consumer" ∷ micro_service_name ∷ "schemas" ∷ schema ∷ "operations"
    ∷ operation ∷ "policy" ∷ "fault" ∷ [])

unfoldable pub get_fault_injection_schema_key : String → String → String
unfolding join
get_fault_injection_schema_key micro_service_name schema = join "." (
    "cse" ∷ "governance" ∷ "Consumer" ∷ micro_service_name ∷ "schemas" ∷ schema ∷ "policy" ∷ "fault"
    ∷ [])

unfoldable pub get_fault_injection_service_key : String → String
unfolding join
get_fault_injection_service_key micro_service_name =
    join "." ("cse" ∷ "governance" ∷ "Consumer" ∷ micro_service_name ∷ "policy" ∷ "fault" ∷ [])

abbrev pub get_fault_injection_global_key : String
get_fault_injection_global_key = "cse.governance.Consumer._global.policy.fault"

-- `GetFaultAbortPercentKey` and the keys of the other properties.
unfoldable pub get_fault_abort_percent_key : String → String → String
unfolding join
get_fault_abort_percent_key protocol key =
    join "." (key ∷ "protocols" ∷ protocol ∷ "abort" ∷ "percent" ∷ [])

unfoldable pub get_fault_abort_http_status_key : String → String → String
unfolding join
get_fault_abort_http_status_key protocol key =
    join "." (key ∷ "protocols" ∷ protocol ∷ "abort" ∷ "httpStatus" ∷ [])

unfoldable pub get_fault_delay_percent_key : String → String → String
unfolding join
get_fault_delay_percent_key protocol key =
    join "." (key ∷ "protocols" ∷ protocol ∷ "delay" ∷ "percent" ∷ [])

unfoldable pub get_fault_fixed_delay_key : String → String → String
unfolding join
get_fault_fixed_delay_key protocol key =
    join "." (key ∷ "protocols" ∷ protocol ∷ "delay" ∷ "fixedDelay" ∷ [])

-- The value of the first level that has one; `is_unset` tells a value that counts as missing.
module _ {A : Type 0} (is_unset : A → Bool) (unset : A) (value : String → A) where
  abbrev pub at_level : Bool → String → A → A
  at_level named key before = if is_unset before && named then value key else before

  unfoldable pub by_level : String → String → String → A
  unfolding get_fault_injection_operation_key get_fault_injection_schema_key
      get_fault_injection_service_key
  by_level micro_service_name schema operation =
      let service = not (micro_service_name == "") in
      let schemas = not (schema == "") in
      let operations = not (operation == "") in
      let a =
        if service && schemas && operations
        then value (get_fault_injection_operation_key micro_service_name schema operation)
        else unset in
      let b =
        at_level (service && schemas) (get_fault_injection_schema_key micro_service_name schema)
          a in
      let c = at_level service (get_fault_injection_service_key micro_service_name) b in
      at_level true get_fault_injection_global_key c

abbrev pub is_zero : ℤ → Bool
is_zero v = eqb_ℤ v (pos 0)

-- `GetAbortPercent`, `GetAbortStatus`, `GetDelayPercent`
unfoldable pub get_abort_percent : (String → ℤ) → String → String → String → String → ℤ
unfolding by_level get_fault_abort_percent_key
get_abort_percent get_int protocol =
    by_level is_zero (pos 0) (λ key. get_int (get_fault_abort_percent_key protocol key))

unfoldable pub get_abort_status : (String → ℤ) → String → String → String → String → ℤ
unfolding by_level get_fault_abort_http_status_key
get_abort_status get_int protocol =
    by_level is_zero (pos 0) (λ key. get_int (get_fault_abort_http_status_key protocol key))

unfoldable pub get_delay_percent : (String → ℤ) → String → String → String → String → ℤ
unfolding by_level get_fault_delay_percent_key
get_delay_percent get_int protocol =
    by_level is_zero (pos 0) (λ key. get_int (get_fault_delay_percent_key protocol key))

-- `GetFixedDelay`, over what the library has under a key.
abbrev pub is_nil : Option Value → Bool
is_nil none = true
is_nil (some v) = false

abbrev pub delay_of : Option Value → ℤ
delay_of none = pos 0
delay_of (some (int_value v)) = v
delay_of (some (string_value text)) = (atoi text).0
delay_of (some other_value) = pos 0

unfoldable pub get_fixed_delay : (String → Option Value) → String → String → String → String → ℤ
unfolding by_level get_fault_fixed_delay_key
get_fixed_delay get protocol micro_service_name schema operation = delay_of (
    by_level is_nil none (λ key. get (get_fault_fixed_delay_key protocol key)) micro_service_name
      schema operation)
