-- ===== src/ServiceCenter/Pull.antt =====
-- The regular refresh of the cached instances: the cache of providers of core/registry/cache.go,
-- and `pullMicroserviceInstance` with its helpers in core/registry/servicecenter/cache.go. What the
-- service center answers and whether the health check takes an instance are parameters, and a set of names is a list without repetition in
-- the order of the names. The error that is returned is always nil.
pub mod Wanted
use go_chassis.Prelude.{
  String, ◌<>◌, List, [], ◌∷◌, ◌++◌, Option, none, some, Bool, true, false, ◌==◌, Dict, lookup,
  insert, remove, map, value_or, insert_name, if◌then◌else◌,
}
use go_chassis.Instance.{MicroServiceInstance}
use go_chassis.Refresh.{refresh_cache}
use go_chassis.Chain.{in_slice}
use go_chassis.Caches.{delete_outdated}
use go_chassis.ServiceCenter.{ScInstance, filter}
use go_chassis.ServiceCenter.Events.{Cached}

-- A service that this process has called, `MicroService` as far as the cache of providers goes.
pub record Provider : Type 0 where
  pub service_name : String
  pub app_id : String

-- `GetProvidersFromCache`
unfoldable pub get_providers_from_cache : Dict Provider → List Provider
get_providers_from_cache providers = map (λ (e : String × Provider). e.1) providers

-- `AddProviderToCache`, where `app` is the application of this process.
abbrev pub or_app : String → String → String
or_app a b = if a == "" then b else a

unfoldable pub add_provider_to_cache : String → String → String → Dict Provider → Dict Provider
add_provider_to_cache app server_name app_id providers =
    let id = or_app app_id (or_app app "default") in
    let key = server_name <> "|" <> id in
    elim (lookup key providers) [
      | none ↦ insert key (record { service_name = server_name; app_id = id }) providers
      | some p ↦ providers
    ]

-- `Insert` of a set.
unfoldable pub set_insert : String → List String → List String
unfolding in_slice insert_name
set_insert a names = if in_slice a names then names else insert_name a names

-- `getServiceSet`: the names, and the applications of each, from those of the services before.
abbrev pub of_service :
    Provider → List String × Dict (List String) → List String × Dict (List String)
of_service s (names, apps) = (
  set_insert s.service_name names,
  insert s.service_name (set_insert s.app_id (value_or (lookup s.service_name apps) [])) apps,
)

unfoldable pub service_set :
    List Provider → List String × Dict (List String) → List String × Dict (List String)
unfolding set_insert
service_set [] sets = sets
service_set (s ∷ rest) sets = service_set rest (of_service s sets)

unfoldable pub get_service_set : List Provider → List String × Dict (List String)
unfolding service_set
get_service_set exist = service_set exist ([], [])

-- `compareAndDeleteOutdatedProviders`
unfoldable pub compare_and_delete_outdated_providers : List String → Cached → Cached
unfolding delete_outdated
compare_and_delete_outdated_providers names m = delete_outdated names m m

-- The answers of `FindMicroServiceInstances` of the client.
pub data Answer : Type 0 where
  not_modified : Answer
  not_exists : Answer
  failed : Answer
  instances : List ScInstance → Answer

-- The instances that are up, those that are down, and the providers.
abbrev pub Pulled : Type 0
Pulled = List MicroServiceInstance × (Dict {0} Unit × Dict Provider)

module _ (parse : String → Option (String × String))
    (health_check : String → MicroServiceInstance → Bool) (is_nil : String → Bool)
    (find : String → String → Answer) where
  -- `pullMicroserviceInstance`
  abbrev pub on_answer : String → String → Answer → Pulled → Pulled
  on_answer service app not_modified pulled = pulled
  on_answer service app not_exists (ups, (downs, providers)) =
      (ups, (downs, remove (service <> "|" <> app) providers))
  on_answer service app failed pulled = pulled
  on_answer service app (instances l) (ups, (downs, providers)) =
      let (u, downs') = filter parse app l downs in (ups ++ u, (downs', providers))

  unfoldable pub pull_apps : String → List String → Pulled → Pulled
  pull_apps service [] pulled = pulled
  pull_apps service (app ∷ apps) pulled =
      pull_apps service apps (on_answer service app (find app service) pulled)

  unfoldable pub pull_services :
      Dict (List String) → Cached → Dict Provider → Cached × Dict Provider
  unfolding pull_apps
  pull_services [] m providers = (m, providers)
  pull_services ((service, apps) ∷ rest) m providers =
      let (ups, (downs, providers')) = pull_apps service apps ([], ([], providers)) in
      pull_services rest (refresh_cache (health_check service) downs (is_nil service) service ups m)
        providers'

  unfoldable pub pull_micro_service_instance : Cached → Dict Provider → Cached × Dict Provider
  unfolding pull_services
  pull_micro_service_instance m providers =
      let (names, apps) = get_service_set (get_providers_from_cache providers) in
      pull_services apps (compare_and_delete_outdated_providers names m) providers
