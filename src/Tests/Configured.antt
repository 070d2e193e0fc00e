-- ===== src/Tests/Configured.antt =====
-- The settings of core/config and control on small data.
use go_chassis.Prelude.{
  ◌≡◌, refl, String, [], ◌∷◌, Option, none, some, true, false, ◌==◌, ℤ, pos, lookup, insert, remove,
  if◌then◌else◌,
}
use go_chassis.Caches.{delete_outdated}
use go_chassis.QpsLimiter.{Value, int_value}
use go_chassis.Settings.Balancing.{
  SessionStickinessRule, BackoffStrategy, LoadBalancingSpec, LoadBalancing, Cache, fallback_lb,
  save_to_lb_cache, get_load_balancing,
}
use go_chassis.Settings.Balancing.Saved.{Says, get_load_balancing-saved}
use go_chassis.Settings.Levels.{
  is_zero, is_nil, delay_of, get_abort_percent, get_abort_status, get_delay_percent,
  get_fixed_delay, get_fault_abort_percent_key, get_fault_abort_http_status_key,
  get_fault_delay_percent_key, get_fault_fixed_delay_key,
}
use go_chassis.Settings.Levels.Specific.{level_keys, first_set, fault_settings-specific}
use go_chassis.Settings.Circuit.{Side, HystrixConfig}

abbrev rule : SessionStickinessRule
rule = record { session_timeout_in_seconds = pos 30; successive_failed_times = pos 5 }

abbrev backoff : BackoffStrategy
backoff = record { kind = ""; min_ms = pos 200; max_ms = pos 400 }

abbrev cart : LoadBalancingSpec
cart = record {
  strategy = ("name", "Random") ∷ [];
  session_stickiness_rule = rule;
  retry_enabled = true;
  retry_on_next = pos 2;
  retry_on_same = pos 3;
  backoff = backoff;
}

abbrev balancing : LoadBalancing
balancing = record {
  strategy = [];
  retry_enabled = false;
  retry_on_next = pos 0;
  retry_on_same = pos 0;
  filters = "zoneaware";
  backoff = backoff;
  session_stickiness_rule = rule;
  any_service = ("cart", cart) ∷ [];
}

abbrev before : Cache
before = ("user", fallback_lb) ∷ []

get_load_balancing-saved_example :
    Says
      (record cart { strategy = ("name", "Random") ∷ [] })
      (get_load_balancing "cart" (save_to_lb_cache (some balancing) before))
get_load_balancing-saved_example = get_load_balancing-saved balancing before "cart"

-- The old settings of a service that is configured no more are gone, and the strategy is the default.
gone : (get_load_balancing "user" (save_to_lb_cache (some balancing) before)).back_off_max ≡ pos 400
unfolding get_load_balancing lookup save_to_lb_cache delete_outdated remove insert
gone = refl

-- Of the operation the percentage is 0, of the schema 40.
abbrev get_int : String → ℤ
get_int key =
    if key == "cse.governance.Consumer.cart.schemas.items.policy.fault.protocols.rest.abort.percent"
    then pos 40
    else if key == "cse.governance.Consumer._global.policy.fault.protocols.rest.abort.percent"
    then pos 90
    else pos 0

abbrev get : String → Option Value
get key =
    if key == "cse.governance.Consumer.cart.policy.fault.protocols.rest.delay.fixedDelay"
    then some (int_value (pos 0))
    else none

percent : get_abort_percent get_int "rest" "cart" "items" "add" ≡ pos 40
unfolding get_abort_percent
percent = refl

fault_settings-specific_example :
    (get_abort_percent get_int "rest" "cart" "items" "add"
      ≡ first_set is_zero
          (pos 0)
          (λ key. get_int (get_fault_abort_percent_key "rest" key))
          (level_keys "cart" "items" "add"))
    × (get_abort_status get_int "rest" "cart" "items" "add"
        ≡ first_set is_zero
            (pos 0)
            (λ key. get_int (get_fault_abort_http_status_key "rest" key))
            (level_keys "cart" "items" "add"))
    × (get_delay_percent get_int "rest" "cart" "items" "add"
        ≡ first_set is_zero
            (pos 0)
            (λ key. get_int (get_fault_delay_percent_key "rest" key))
            (level_keys "cart" "items" "add"))
    × (get_fixed_delay get "rest" "cart" "items" "add"
        ≡ delay_of (
            first_set is_nil none
              (λ key. get (get_fault_fixed_delay_key "rest" key))
              (level_keys "cart" "items" "add")))
fault_settings-specific_example = fault_settings-specific get_int get "rest" "cart" "items" "add"

abbrev one_side : Side
one_side = record {
  isolation = record {
    timeout_in_milliseconds = pos 0;
    max_concurrent_requests = pos 0;
    any_service = "cart" ∷ [];
  };
  circuit_breaker = record {
    force_open = false;
    force_close = false;
    sleep_window_in_milliseconds = pos 0;
    request_volume_threshold = pos 7;
    error_threshold_percentage = pos 0;
    any_service = [];
  };
  fallback = record { force = false; any_service = [] };
  fallback_policy = record { policy = ""; any_service = [] };
}

abbrev hystrix : HystrixConfig
hystrix = record { consumer = one_side; provider = one_side }
