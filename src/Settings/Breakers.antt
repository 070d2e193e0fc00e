-- ===== src/Settings/Breakers.antt =====
-- The cache of the settings of the circuit breaker: control/archaius/transfer.go, and
-- `GetCircuitBreaker` of control/archaius/panel.go. A configuration that is in the cache already is written again, which changes
-- nothing. The names of the services are read field by field, not by reflection.
pub mod Known
use go_chassis.Prelude.{
  String, ◌<>◌, List, [], ◌∷◌, ◌++◌, Option, none, some, Bool, true, false, ◌==◌, ℤ, Dict, lookup,
  insert, map, if◌then◌else◌,
}
use go_chassis.Chain.{in_slice}
use go_chassis.Caches.{delete_outdated}
use go_chassis.Settings.Circuit.{
  HystrixConfig, side, CommandConfig, CircuitBreakPropertyStruct, get_force_fallback,
  get_max_concurrent_requests, get_error_percent_threshold, get_request_volume_threshold,
  get_sleep_window, get_force_close, get_force_open, get_circuit_breaker_enabled,
}

abbrev pub Cache : Type 0
Cache = Dict CommandConfig

-- `GetCBCacheKey`
unfoldable pub get_cb_cache_key : String → String → String
get_cb_cache_key service_name service_type =
    if service_name == "" then service_type else service_type <> ":" <> service_name

-- The names of the services with settings of one type, each once.
abbrev pub keys_of {ℓ} : {V : Type ℓ} → Dict V → List String
keys_of {V} m = map (λ (e : String × V). e.0) m

unfoldable pub once : List String → List String → List String
unfolding in_slice
once [] seen = seen
once (name ∷ rest) seen =
    let next = if in_slice name seen then seen else name ∷ seen in once rest next

unfoldable pub service_names : HystrixConfig → HystrixConfig → String → List String
unfolding side once
service_names src config t =
    let s = side src t in
    once
      (s.isolation.any_service
        ++ keys_of s.circuit_breaker.any_service
        ++ keys_of s.fallback.any_service
        ++ keys_of (side config t).fallback_policy.any_service)
      []

module _ (get_int : String → ℤ → ℤ) (get_bool : String → Bool → Bool) (config : HystrixConfig) where
  -- `saveEachCB`
  unfoldable pub command_config : String → String → CommandConfig
  command_config service_name service_type =
      let command =
        if service_name == "" then service_type else service_type <> "." <> service_name in
      record {
        force_fallback = get_force_fallback get_int get_bool config service_name service_type;
        max_concurrent_requests =
            get_max_concurrent_requests get_int get_bool config command service_type;
        error_percent_threshold =
            get_error_percent_threshold get_int get_bool config command service_type;
        request_volume_threshold =
            get_request_volume_threshold get_int get_bool config command service_type;
        sleep_window = get_sleep_window get_int get_bool config command service_type;
        force_close = get_force_close get_int get_bool config service_name service_type;
        force_open = get_force_open get_int get_bool config service_name service_type;
        circuit_breaker_enabled =
            get_circuit_breaker_enabled get_int get_bool config command service_type;
      }

  unfoldable pub save_each_cb : String → String → List String × Cache → List String × Cache
  unfolding command_config get_cb_cache_key
  save_each_cb service_name service_type (keys, m) =
      let key = get_cb_cache_key service_name service_type in
      (key ∷ keys, insert key (command_config service_name service_type) m)

  unfoldable pub save_services : List String → String → List String × Cache → List String × Cache
  unfolding save_each_cb
  save_services [] service_type saved = saved
  save_services (name ∷ rest) service_type saved =
      save_services rest service_type (save_each_cb name service_type saved)

  -- `reloadCBCache`, `SaveToCBCache`
  unfoldable pub reload_cb_cache : HystrixConfig → Cache → List String × Cache
  unfolding save_services service_names
  reload_cb_cache src m =
      let global = save_each_cb "" "Provider" (save_each_cb "" "Consumer" ([], m)) in
      save_services (service_names src config "Provider") "Provider"
        (save_services (service_names src config "Consumer") "Consumer" global)

  abbrev pub new_keys : Option HystrixConfig → Cache → List String × Cache
  new_keys none m = ([], m)
  new_keys (some raw) m = reload_cb_cache raw m

  unfoldable pub save_to_cb_cache : Option HystrixConfig → Cache → Cache
  unfolding reload_cb_cache
  save_to_cb_cache raw m = let (keys, m') = new_keys raw m in delete_outdated keys m m'

-- `GetCircuitBreaker`, without the name of the command; `none` where the code panics.
abbrev pub or_global : Option CommandConfig → String → Cache → Option CommandConfig
or_global (some c) service_type m = some c
or_global none service_type m = lookup service_type m

unfoldable pub get_circuit_breaker : String → String → Cache → Option CommandConfig
unfolding get_cb_cache_key
get_circuit_breaker micro_service_name service_type m =
    or_global (lookup (get_cb_cache_key micro_service_name service_type) m) service_type m
