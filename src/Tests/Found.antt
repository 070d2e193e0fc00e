-- ===== src/Tests/Found.antt =====
-- Finding instances at a concrete answer of the service center: one instance is up, one is down, and one
-- has another version. The schemas of a service at a small center.
use go_chassis.Prelude.{
  Any, ◌↔◌, String, ◌==◌, ◌≡◌, refl, eq_iff, List, [], ◌∷◌, Option, none, some, Bool, true, false,
  Dict, lookup, keep, if◌then◌else◌,
}
use go_chassis.IndexCache.{IndexCache, new_index_cache}
use go_chassis.ServiceCenter.{ScInstance, to_micro_service_instance}
use go_chassis.Instance.{MicroServiceInstance}
use go_chassis.ServiceCenter.Contracts.{Service, SchemaContent, Center, Schemas}
use go_chassis.HealthChecks.{WrapInstance, Removes, check_pack, check_pack-survives}
use go_chassis.ServiceCenter.Finding.{Known, find_micro_service_instances}
use go_chassis.ServiceCenter.Finding.Reported.{
  IsNamed, Finds, find_micro_service_instances_reported,
}

abbrev answered_one : String → String → String → ScInstance
answered_one id v status = record {
  instance_id = id;
  service_id = "s";
  host_name = "h";
  endpoints = [];
  version = v;
  status = status;
  properties = [];
  data_center_info = none;
}

abbrev center : String → String → String → Option (List ScInstance)
center app name v =
    some (answered_one "a" "1" "UP" ∷ answered_one "b" "1" "DOWN" ∷ answered_one "c" "2" "UP" ∷ [])

abbrev no_parts : String → Option (String × String)
no_parts url = none

abbrev nothing_known : Known
nothing_known = record { index = new_index_cache; providers = [] }

abbrev version_one : Dict String
version_one = ("version", "1") ∷ ("app", "shop") ∷ []

version_one-IsNamed : IsNamed "shop" "1" version_one
unfolding lookup
version_one-IsNamed = record {
  app_named = refl;
  app_given = λ e. (let t = (eq_iff "shop" "").1 e in cc);
  version_named = refl;
  version_given = λ e. (let t = (eq_iff "1" "").1 e in cc);
  not_latest = λ e. (let t = (eq_iff "1" "latest").1 e in cc);
}

-- Of the three instances the first is up and has the version.
find_micro_service_instances_reported_example :
    Finds
      (λ v. some v)
      (λ a b. false)
      "0"
      no_parts
      (λ service ins. true)
      (λ service. false)
      "mall"
      "shop"
      version_one
      (center "shop" "calc" "1")
      (find_micro_service_instances
        (λ v. some v)
        (λ a b. false)
        "0"
        no_parts
        (λ service ins. true)
        (λ service. false)
        "mall"
        center
        "calc"
        (record { kv = some version_one; label = "version:1" })
        nothing_known).0
unfolding lookup
find_micro_service_instances_reported_example =
    find_micro_service_instances_reported (λ v. some v) (λ a b. false) "0" no_parts
      (λ service ins. true) (λ service. false) "mall" center "calc" "shop" "1" "version:1"
      version_one nothing_known refl refl version_one-IsNamed

abbrev calc_service : Service
calc_service = record {
  service_id = "7";
  service_name = "calc";
  app_id = "shop";
  version = "1";
  environment = "";
  schemas = "add" ∷ "sub" ∷ [];
}

-- The center has one service, of whose two schemas one can be fetched.
abbrev small_center : Center
small_center = record {
  get_all_micro_services = some (calc_service ∷ []);
  get_micro_service_id = λ app name v env. some "7";
  get_schema = λ id name. if name == "add" then some "text" else none;
  unmarshal_schema_content = λ content. some (record { info = []; text = content });
  parse_schema_content = λ content. (record { info = []; text = content }, true);
}

abbrev kept_one : MicroServiceInstance
kept_one = to_micro_service_instance no_parts (answered_one "a" "1" "UP")

abbrev lost_one : MicroServiceInstance
lost_one = record (to_micro_service_instance no_parts (answered_one "b" "1" "UP")) {
  endpoints_map = ("rest", "h:1") ∷ [];
}

abbrev waiting_pack : Dict WrapInstance
waiting_pack =
    (
      "calc:1:shop:a",
      record { app_id = "shop"; service_name = "calc"; version = "1"; instance = kept_one },
    )
    ∷ (
      "calc:1:shop:b",
      record { app_id = "shop"; service_name = "calc"; version = "1"; instance = lost_one },
    )
    ∷ []

abbrev two_cached : IndexCache
two_cached = record new_index_cache { simple_cache = ("calc", kept_one ∷ lost_one ∷ []) ∷ [] }

check_pack-survives_example :
    (p : MicroServiceInstance → Bool) × (lookup "calc"
        (check_pack
          (λ v. some v)
          (λ a b. false)
          "0"
          (λ protocol ep. false)
          waiting_pack
          two_cached).simple_cache
      ≡ some (keep p (kept_one ∷ lost_one ∷ [])))
    × ((x : MicroServiceInstance)
        → (p x ≡ false)
          ↔ Any
              (λ (entry : String × WrapInstance). Removes (λ protocol ep. false) "calc" x entry.1)
              waiting_pack)
unfolding lookup
check_pack-survives_example =
    check_pack-survives (λ v. some v) (λ a b. false) "0" (λ protocol ep. false) waiting_pack "calc"
      (kept_one ∷ lost_one ∷ []) two_cached refl

abbrev adder : SchemaContent
adder = record { info = ("x-java-interface", "shop.Adder") ∷ []; text = "text" }

abbrev indexed_center : Center
indexed_center = record small_center { parse_schema_content = λ content. (adder, true) }

abbrev no_index : Schemas
no_index = record { by_interface = []; by_service = [] }
