-- ===== src/ServiceCenter/Events.antt =====
-- The events of instances that the service center sends: `watch` and its actions in
-- core/registry/servicecenter/cache.go, on the cached lists of instances. Whether the health check
-- takes an instance is a parameter, since it hands it to another goroutine. The deletion has one
-- name in this repository and in the client.
use go_chassis.Prelude.{
  String, List, [], ◌∷◌, ◌++◌, Option, none, some, Bool, not, ◌==◌, keep, Dict, lookup, insert,
  if◌then◌else◌,
}
use go_chassis.Instance.{MicroServiceInstance, with_app_id}
use go_chassis.ServiceCenter.{ScInstance, default_status, to_micro_service_instance}

pub data Action : Type 0 where
  event_create : Action
  event_delete : Action
  event_update : Action
  event_error : Action
  event_other : String → Action

-- `MicroServiceInstanceChangedEvent`, with the fields of its key and its instance.
pub record ChangedEvent : Type 0 where
  pub action : Action
  pub service_name : String
  pub app_id : String
  pub instance : ScInstance

abbrev pub Cached : Type 0
Cached = Dict (List MicroServiceInstance)

-- The loop of `updateAction` that finds the last instance with the identifier, and the write.
abbrev pub has_id : String → MicroServiceInstance → Bool
has_id id v = v.instance_id == id

unfoldable pub replace_last :
    String → MicroServiceInstance → List MicroServiceInstance → Option (List MicroServiceInstance)
replace_last id msi [] = none
replace_last id msi (v ∷ vs) = elim (replace_last id msi vs) [
  | some replaced ↦ some (v ∷ replaced)
  | none ↦ if has_id id v then some (msi ∷ vs) else none
]

abbrev pub updated :
    Option (List MicroServiceInstance)
    → MicroServiceInstance
    → List MicroServiceInstance
    → List MicroServiceInstance
updated none msi l = l ++ msi ∷ []
updated (some replaced) msi l = replaced

module _ (parse : String → Option (String × String))
    (health_check : String → MicroServiceInstance → Bool) where
  -- The instance of an event, with its application.
  abbrev pub instance_of : ChangedEvent → MicroServiceInstance
  instance_of e = with_app_id e.app_id (to_micro_service_instance parse e.instance)

  -- `createAction`
  abbrev pub create_found : Option (List MicroServiceInstance) → ChangedEvent → Cached → Cached
  create_found none e m = m
  create_found (some l) e m =
      if not (e.instance.status == default_status)
      then m
      else insert e.service_name (l ++ instance_of e ∷ []) m

  unfoldable pub create_action : ChangedEvent → Cached → Cached
  create_action e m = create_found (lookup e.service_name m) e m

  -- `deleteAction`
  abbrev pub delete_found : Option (List MicroServiceInstance) → ChangedEvent → Cached → Cached
  delete_found none e m = m
  delete_found (some l) e m =
      insert e.service_name (keep (λ v. not (has_id e.instance.instance_id v)) l) m

  unfoldable pub delete_action : ChangedEvent → Cached → Cached
  delete_action e m =
      if health_check e.service_name (to_micro_service_instance parse e.instance)
      then m
      else delete_found (lookup e.service_name m) e m

  -- `updateAction`
  abbrev pub update_found : Option (List MicroServiceInstance) → ChangedEvent → Cached → Cached
  update_found none e m = m
  update_found (some l) e m =
      if not (e.instance.status == default_status)
      then m
      else insert e.service_name
          (updated (replace_last e.instance.instance_id (instance_of e) l) (instance_of e) l) m

  unfoldable pub update_action : ChangedEvent → Cached → Cached
  update_action e m = update_found (lookup e.service_name m) e m

  -- `watch`
  abbrev pub on_action : Action → ChangedEvent → Cached → Cached
  on_action event_create e m = create_action e m
  on_action event_delete e m = delete_action e m
  on_action event_update e m = update_action e m
  on_action event_error e m = m
  on_action (event_other name) e m = m

  unfoldable pub watch : ChangedEvent → Cached → Cached
  watch e m = on_action (if e.instance.status == default_status then e.action else event_delete) e m
