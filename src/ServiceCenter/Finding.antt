-- ===== src/ServiceCenter/Finding.antt =====
-- How a consumer finds instances: `FindMicroServiceInstances` of core/registry/servicecenter/servicecenter.go, with
-- `wrapTagsForServiceCenter` of util.go, over the cache of instances and its refresh. `app` is the
-- application of this process. What the service center answers is a parameter; `none` is its error.
pub mod Answered
pub mod Reported
use go_chassis.Prelude.{
  String, ◌<>◌, List, [], ◌∷◌, Option, none, some, Bool, true, false, ◌==◌, ◌≡◌, ◌≢◌, refl, sym, ap,
  ◌∙◌, inl, inr, arith, subst, eq_iff, keep, Dict, lookup, insert, remove, lookup-insert_self,
  value_or, Bool-cases, Option-cases, if◌then◌else◌,
}
use go_chassis.Config.{buildin_tag_app, buildin_tag_version, latest_version, buildin_label_version}
use go_chassis.Instance.{MicroServiceInstance, has}
use go_chassis.Router.{Tags}
use go_chassis.IndexCache.{
  IndexCache, set, delete, get, get_cached, query, found, set_tags_before_query,
  get_indexed_cache_key,
}
use go_chassis.Refresh.{refresh_cache}
use go_chassis.ServiceCenter.{ScInstance, filter}
use go_chassis.ServiceCenter.Pull.{Provider, add_provider_to_cache, or_app}

-- `wrapTagsForServiceCenter`
abbrev pub is_unset : Option String → Bool
is_unset none = true
is_unset (some v) = v == ""

unfoldable pub with_version : Dict String → String → Dict String × String
unfolding lookup insert
with_version kv label =
    if is_unset (lookup buildin_tag_version kv)
    then (insert buildin_tag_version latest_version kv, label <> "|" <> buildin_label_version)
    else (kv, label)

unfoldable pub with_app : String → Dict String × String → Dict String × String
unfolding lookup insert
with_app app (kv, label) =
    if is_unset (lookup buildin_tag_app kv)
    then (insert buildin_tag_app app kv, label <> "|" <> buildin_tag_app <> ":" <> app)
    else (kv, label)

abbrev pub default_kv : String → String → Dict String
default_kv v app = (buildin_tag_version, v) ∷ (buildin_tag_app, app) ∷ []

unfoldable pub wrap_kv : String → Option (Dict String) → String → Dict String × String
unfolding with_version with_app
wrap_kv app none label = (
  default_kv latest_version app,
  buildin_tag_app <> ":" <> app <> "|" <> buildin_tag_version <> ":" <> latest_version,
)
wrap_kv app (some kv) label = with_app app (with_version kv label)

unfoldable pub wrap_tags_for_service_center : String → Tags → Dict String × String
unfolding wrap_kv
wrap_tags_for_service_center app t = wrap_kv app t.kv t.label

-- The caches, and what is found; `nothing` has no error.
pub record Known : Type 0 where
  pub index : IndexCache
  pub providers : Dict Provider

pub data Found : Type 0 where
  found_ones : List MicroServiceInstance → Found
  nothing : Found
  find_error : Found

module _ {V : Type 0} (new_version : String → Option V) (less_than : V → V → Bool)
    (zero_version : V) (parse : String → Option (String × String))
    (health_check : String → MicroServiceInstance → Bool) (is_nil : String → Bool)
    (app : String) where
  -- `RefreshCache` on the cache of instances.
  unfoldable pub replaced : String → Option (List MicroServiceInstance) → IndexCache → IndexCache
  unfolding set delete
  replaced service none ic = delete service ic
  replaced service (some l) ic = set new_version less_than zero_version service l ic

  unfoldable pub refresh_index :
      String → List MicroServiceInstance → Dict {0} Unit → IndexCache → IndexCache
  unfolding replaced refresh_cache lookup
  refresh_index service ups downs ic =
      replaced service
        (lookup service
          (refresh_cache (health_check service) downs (is_nil service) service ups ic.simple_cache))
        ic

  -- After the answer of the service center.
  unfoldable pub looked_up :
      String → String → Option (List MicroServiceInstance) → Known → Found × Known
  unfolding add_provider_to_cache
  looked_up name app_id none st = (nothing, st)
  looked_up name app_id (some l) st =
      (found_ones l, record st { providers = add_provider_to_cache app name app_id st.providers })

  unfoldable pub after_answer :
      String → String → Dict String → Option (List ScInstance) → Known → Found × Known
  unfolding looked_up refresh_index filter get
  after_answer name app_id kv none st = (find_error, st)
  after_answer name app_id kv (some answer) st =
      let (ups, downs) = filter parse app_id answer [] in
      let index' = refresh_index name ups downs st.index in
      looked_up name app_id (get name kv index').0 (record st { index = index' })

  unfoldable pub on_cached :
      (String → String → String → Option (List ScInstance))
      → String
      → Option (List MicroServiceInstance) × Dict String
      → Known
      → Found × Known
  unfolding after_answer lookup
  on_cached find name (some l, kv) st = (found_ones l, st)
  on_cached find name (none, kv) st =
      let app_id = or_app (value_or (lookup buildin_tag_app kv) "") app in
      after_answer name app_id kv (find app_id name (value_or (lookup buildin_tag_version kv) ""))
        st

  -- `FindMicroServiceInstances`
  unfoldable pub find_micro_service_instances :
      (String → String → String → Option (List ScInstance)) → String → Tags → Known → Found × Known
  unfolding on_cached get wrap_tags_for_service_center
  find_micro_service_instances find name tags st =
      on_cached find name (get name (wrap_tags_for_service_center app tags).0 st.index) st
