-- ===== src/Tests/Discovery.antt =====
-- The service center and the heartbeats on small data.
use go_chassis.Prelude.{
  ◌≡◌, refl, String, [], ◌∷◌, Option, none, some, true, false, ◌==◌, Any, Dict, lookup, insert,
  remove, keep, if◌then◌else◌,
}
use go_chassis.Instance.{MicroServiceInstance, with_app_id}
use go_chassis.Refresh.{is_known, refresh_cache}
use go_chassis.Chain.{in_slice}
use go_chassis.ServiceCenter.{ScInstance, to_micro_service_instance}
use go_chassis.ServiceCenter.Events.{event_update, ChangedEvent, Cached, watch}
use go_chassis.ServiceCenter.Held.{view}
use go_chassis.ServiceCenter.Views.{watch-refines}
use go_chassis.ServiceCenter.Pull.{
  Provider, not_modified, get_service_set, compare_and_delete_outdated_providers,
  get_providers_from_cache, pull_micro_service_instance,
}
use go_chassis.ServiceCenter.Pull.Wanted.{pull_micro_service_instance-wanted}
use go_chassis.Heartbeat.{HeartbeatTask, Registry, Round, task_key, attempt, do_heart_beat}
use go_chassis.Heartbeat.Recovery.{own, do_heart_beat-recovers}

abbrev parse : String → Option (String × String)
parse uri = if uri == "rest://10.0.0.1:80" then some ("rest", "10.0.0.1:80") else none

abbrev sent : ScInstance
sent = record {
  instance_id = "1";
  service_id = "cart";
  host_name = "a";
  endpoints = "rest://10.0.0.1:80" ∷ "%" ∷ [];
  version = "0.1";
  status = "UP";
  properties = [];
  data_center_info = none;
}

abbrev event : ChangedEvent
event = record { action = event_update; service_name = "cart"; app_id = "shop"; instance = sent }

abbrev old : MicroServiceInstance
old = record (to_micro_service_instance parse sent) { host_name = "old" }

abbrev cached : Cached
cached = ("cart", old ∷ old ∷ []) ∷ ("user", []) ∷ []

watch-refines_example :
    view (watch parse (λ s x. false) event cached) "cart" "1"
    ≡ some (with_app_id "shop" (to_micro_service_instance parse sent))
unfolding lookup
watch-refines_example = watch-refines parse (λ s x. false) event cached "cart" "1"

-- The converted instance.
converted : (to_micro_service_instance parse sent).default_endpoint ≡ "10.0.0.1:80"
unfolding to_micro_service_instance lookup insert
converted = refl

abbrev providers : Dict Provider
providers = ("cart|shop", record { service_name = "cart"; app_id = "shop" }) ∷ []

-- The service of no provider is deleted, and the health check keeps the cached instance.
pulled :
    lookup "cart"
      (pull_micro_service_instance parse
        (λ s x. true)
        (λ s. false)
        (λ app s. not_modified)
        cached
        providers).0
    ≡ some (old ∷ [])
unfolding pull_micro_service_instance lookup get_service_set get_providers_from_cache insert
    refresh_cache compare_and_delete_outdated_providers remove keep to_micro_service_instance
pulled = refl

pull_micro_service_instance-wanted_example :
    Any (λ (p : Provider). p.service_name ≡ "cart") (get_providers_from_cache providers)
pull_micro_service_instance-wanted_example =
    pull_micro_service_instance-wanted parse (λ s x. true) (λ s. false) (λ app s. not_modified)
      cached providers "cart" (old ∷ []) pulled

abbrev down : Round
down = record {
  listed = false;
  found = false;
  re_register_all = λ reg. (false, reg);
  endpoint_map = some [];
  instance_endpoints = none;
  host_name = "a";
  now = 40;
  register = λ x. none;
}

abbrev up : Round
up = record down { listed = true; found = true; now = 50; register = λ x. some "2" }

abbrev registry : Registry
registry = record {
  tasks =
      ("cart/1", record { service_id = "cart"; instance_id = "1"; time = 0; running = false }) ∷ [];
  self_instances = ("cart", "1" ∷ []) ∷ [];
}

do_heart_beat-recovers_example :
    (reg' : Registry) × (do_heart_beat false (down ∷ up ∷ []) 51 "cart" "1" registry ≡ some reg')
    × (is_known (lookup (task_key "cart" "2") reg'.tasks) ≡ true)
    × ((t : HeartbeatTask) → lookup (task_key "cart" "1") reg'.tasks ≡ some t → t.running ≡ false)
    × (in_slice "2" (own "cart" reg') ≡ true)
unfolding attempt
do_heart_beat-recovers_example =
    do_heart_beat-recovers (down ∷ []) up [] 51 "cart" "1" "2" [] registry ((λ r. refl), tt) refl
      refl refl refl
