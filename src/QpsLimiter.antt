-- ===== src/QpsLimiter.antt =====
-- The rate limiter: core/qpslimiter/qps_limiter.go and consumer_qps_operation_meta.go. A limiter of
-- the `ratelimit` package stands for the rate it was made with, and taking from it is a record of
-- the limiter that was asked; the configuration is a function from a key to an integer, which
-- returns the default for a key that is not set.
pub mod Rates
use go_chassis.Prelude.{
  ℕ, String, List, [], ◌∷◌, ◌<>◌, Option, none, some, Bool, true, false, ◌==◌, ℤ, pos, leb_ℤ, eqb_ℤ,
  atoi, Dict, lookup, insert, remove, if◌then◌else◌,
}

abbrev pub default_rate : ℤ
default_rate = pos 2147483647

-- `KeyMap`, and the rates of the limiters that tokens were taken from, the latest first.
pub record QpsLimiterMap : Type 0 where
  pub key_map : Dict ℤ
  pub taken : List ℤ

pub record OperationMeta : Type 0 where
  pub micro_service_name : String
  pub schema_qualified_name : String
  pub operation_qualified_name : String

-- `limiter.Take()`
abbrev pub take_token : ℤ → QpsLimiterMap → QpsLimiterMap
take_token r q = record q { taken = r ∷ q.taken }

-- `ProcessDefaultRateRpsTokenReq`
unfoldable pub process_default_rate : String → ℤ → QpsLimiterMap → QpsLimiterMap
process_default_rate key qps_rate q =
    let bucket_size = if leb_ℤ (pos 1) qps_rate then qps_rate else default_rate in
    take_token bucket_size (record q { key_map = insert key bucket_size q.key_map })

-- `ProcessQPSTokenReq`, over the limiter of the key.
abbrev pub process_found : Option ℤ → String → ℤ → QpsLimiterMap → QpsLimiterMap
process_found none key qps_rate q = process_default_rate key qps_rate q
process_found (some limiter) key qps_rate q = take_token limiter q

unfoldable pub process_qps_token_req : String → ℤ → QpsLimiterMap → QpsLimiterMap
process_qps_token_req key qps_rate q = process_found (lookup key q.key_map) key qps_rate q

-- `GetQPSRate`: the rate, and whether it is configured.
unfoldable pub get_qps_rate : (String → ℤ) → String → ℤ × Bool
get_qps_rate config rate_config =
    if eqb_ℤ (config rate_config) default_rate
    then (config rate_config, false)
    else (config rate_config, true)

-- `GetQPSRateWithPriority`: the rate, and the key that it is counted under.
unfoldable pub get_qps_rate_with_priority : (String → ℤ) → OperationMeta → ℤ × String
unfolding get_qps_rate
get_qps_rate_with_priority config op =
    let (r1, exist1) = get_qps_rate config op.operation_qualified_name in
    let (r2, exist2) = get_qps_rate config op.schema_qualified_name in
    let (r3, exist3) = get_qps_rate config op.micro_service_name in
    if exist1
    then (r1, op.operation_qualified_name)
    else if exist2
    then (r2, op.schema_qualified_name)
    else if exist3
    then (r3, op.micro_service_name)
    else (default_rate, op.micro_service_name)

-- The values that a configuration event carries.
pub data Value : Type 0 where
  int_value : ℤ → Value
  string_value : String → Value
  other_value : Value

-- `UpdateRateLimit`
unfoldable pub update_rate_limit : String → Value → QpsLimiterMap → QpsLimiterMap
update_rate_limit key (int_value v) q = process_default_rate key v q
update_rate_limit key (string_value text) q =
    let (v, ok) = atoi text in if ok then process_default_rate key v q else q
update_rate_limit key other_value q = q

-- `DeleteRateLimiter`
unfoldable pub delete_rate_limiter : String → QpsLimiterMap → QpsLimiterMap
delete_rate_limiter key q = record q { key_map = remove key q.key_map }

-- `strings.Join([]string{cmd, part}, ".")`, where the part is not empty.
abbrev pub joined : String → String → String
joined cmd part = if part == "" then cmd else cmd <> "." <> part

-- `GetSpecificKey`
unfoldable pub get_specific_key : String → String → String → String → String → String
get_specific_key source_name service_type service_name schema_id operation_id =
    joined
      (joined
        (joined (joined "cse.flowcontrol" source_name <> "." <> service_type <> "." <> "qps.limit")
          service_name)
        schema_id)
      operation_id

-- `InitSchemaOperations`, over the fields of the invocation that it reads.
unfoldable pub init_schema_operations : String → String → String → String → OperationMeta
unfolding get_specific_key
init_schema_operations source service schema operation = record {
  micro_service_name = get_specific_key source "Consumer" service "" "";
  schema_qualified_name = get_specific_key source "Consumer" service schema "";
  operation_qualified_name = get_specific_key source "Consumer" service schema operation;
}
