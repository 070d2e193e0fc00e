-- ===== src/Settings/Balancing.antt =====
-- The cache of load balancing settings: control/archaius/transfer.go, with the records of
-- core/config/model/loadbalancing.go and control/strcut.go, and `GetLoadBalancing` of the panel. The types of the
-- values in the cache are not modelled.
pub mod Saved
use go_chassis.Prelude.{
  String, List, [], ◌∷◌, Option, none, some, Bool, true, false, ◌==◌, ℤ, pos, Dict, lookup, insert,
  value_or, if◌then◌else◌,
}
use go_chassis.Caches.{delete_outdated}

pub record SessionStickinessRule : Type 0 where
  pub session_timeout_in_seconds : ℤ
  pub successive_failed_times : ℤ

pub record BackoffStrategy : Type 0 where
  pub kind : String
  pub min_ms : ℤ
  pub max_ms : ℤ

pub record LoadBalancingSpec : Type 0 where
  pub strategy : Dict String
  pub session_stickiness_rule : SessionStickinessRule
  pub retry_enabled : Bool
  pub retry_on_next : ℤ
  pub retry_on_same : ℤ
  pub backoff : BackoffStrategy

pub record LoadBalancing : Type 0 where
  pub strategy : Dict String
  pub retry_enabled : Bool
  pub retry_on_next : ℤ
  pub retry_on_same : ℤ
  pub filters : String
  pub backoff : BackoffStrategy
  pub session_stickiness_rule : SessionStickinessRule
  pub any_service : Dict LoadBalancingSpec

-- `control.LoadBalancingConfig`
pub record LoadBalancingConfig : Type 0 where
  pub strategy : String
  pub filters : List String
  pub retry_enabled : Bool
  pub retry_on_same : ℤ
  pub retry_on_next : ℤ
  pub back_off_kind : String
  pub back_off_min : ℤ
  pub back_off_max : ℤ
  pub session_timeout_in_seconds : ℤ
  pub successive_failed_times : ℤ

abbrev pub strategy_round_robin : String
strategy_round_robin = "RoundRobin"

abbrev pub default_back_off_kind : String
default_back_off_kind = "zero"

-- `setDefaultLBValue`
unfoldable pub set_default_lb_value : LoadBalancingConfig → LoadBalancingConfig
set_default_lb_value c = record c {
  strategy = if c.strategy == "" then strategy_round_robin else c.strategy;
  back_off_kind = if c.back_off_kind == "" then default_back_off_kind else c.back_off_kind;
}

-- The record that `saveDefaultLB` puts under the empty name.
unfoldable pub default_lb : LoadBalancing → LoadBalancingConfig
unfolding set_default_lb_value
default_lb raw = set_default_lb_value (record {
  strategy = value_or (lookup "name" raw.strategy) "";
  filters = [];
  retry_enabled = raw.retry_enabled;
  retry_on_same = raw.retry_on_same;
  retry_on_next = raw.retry_on_next;
  back_off_kind = raw.backoff.kind;
  back_off_min = raw.backoff.min_ms;
  back_off_max = raw.backoff.max_ms;
  session_timeout_in_seconds = raw.session_stickiness_rule.session_timeout_in_seconds;
  successive_failed_times = raw.session_stickiness_rule.successive_failed_times;
})

-- The record that `saveEachLB` puts under the name of a service.
unfoldable pub each_lb : LoadBalancingSpec → LoadBalancingConfig
unfolding set_default_lb_value
each_lb raw = set_default_lb_value (record {
  strategy = value_or (lookup "name" raw.strategy) "";
  filters = [];
  retry_enabled = raw.retry_enabled;
  retry_on_same = raw.retry_on_same;
  retry_on_next = raw.retry_on_next;
  back_off_kind = raw.backoff.kind;
  back_off_min = raw.backoff.min_ms;
  back_off_max = raw.backoff.max_ms;
  session_timeout_in_seconds = raw.session_stickiness_rule.session_timeout_in_seconds;
  successive_failed_times = raw.session_stickiness_rule.successive_failed_times;
})

abbrev pub Cache : Type 0
Cache = Dict LoadBalancingConfig

-- `reloadLBCache`: the names that were written, and the cache.
unfoldable pub save_all : Dict LoadBalancingSpec → Cache → List String × Cache
unfolding each_lb
save_all [] m = ([], m)
save_all ((name, conf) ∷ rest) m =
    let (names, m') = save_all rest (insert name (each_lb conf) m) in (name ∷ names, m')

unfoldable pub reload_lb_cache : LoadBalancing → Cache → List String × Cache
unfolding save_all default_lb
reload_lb_cache src m =
    let (names, m') = save_all src.any_service (insert "" (default_lb src) m) in ("" ∷ names, m')

-- `SaveToLBCache`, where a nil configuration is `none`.
abbrev pub new_keys : Option LoadBalancing → Cache → List String × Cache
new_keys none m = ([], m)
new_keys (some raw) m = reload_lb_cache raw m

unfoldable pub save_to_lb_cache : Option LoadBalancing → Cache → Cache
unfolding reload_lb_cache
save_to_lb_cache raw m = let (keys, m') = new_keys raw m in delete_outdated keys m m'

-- `DefaultLB`, and `GetLoadBalancing` of the panel.
abbrev pub fallback_lb : LoadBalancingConfig
fallback_lb = record {
  strategy = strategy_round_robin;
  filters = [];
  retry_enabled = false;
  retry_on_same = pos 0;
  retry_on_next = pos 0;
  back_off_kind = default_back_off_kind;
  back_off_min = pos 0;
  back_off_max = pos 0;
  session_timeout_in_seconds = pos 0;
  successive_failed_times = pos 0;
}

unfoldable pub get_load_balancing : String → Cache → LoadBalancingConfig
get_load_balancing micro_service_name m =
    value_or (lookup micro_service_name m) (value_or (lookup "" m) fallback_lb)
