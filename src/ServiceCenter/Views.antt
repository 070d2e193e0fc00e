-- ===== src/ServiceCenter/Views.antt =====
-- The cached instances by service and identifier, and what the events of
-- core/registry/servicecenter/cache.go do to them.
use go_chassis.Prelude.{
  ◌≡◌, refl, ◌∙◌, ap, inl, inr, String, List, [], ◌∷◌, ◌++◌, Option, none, some, Bool, true, false,
  not, ◌&&◌, ◌==◌, keep, lookup, insert, Bool-cases, Option-cases, if◌then◌else◌,
}
use go_chassis.Instance.{MicroServiceInstance, with_app_id}
use go_chassis.Refresh.{is_known}
use go_chassis.ServiceCenter.{default_status, to_micro_service_instance}
use go_chassis.ServiceCenter.Events.{
  Action, event_create, event_delete, event_update, event_error, event_other, ChangedEvent, Cached,
  has_id, replace_last, instance_of, create_found, create_action, delete_found, delete_action,
  updated, update_found, update_action, on_action, watch,
}
use go_chassis.ServiceCenter.Held.{held, view, held-append, held-keep, held-updated, view-insert}

same_either : (b : Bool) (x : Option MicroServiceInstance) → x ≡ (if b then x else x)
same_either true x = refl
same_either false x = refl

module _ (parse : String → Option (String × String))
    (health_check : String → MicroServiceInstance → Bool) where
  -- What an event leaves of an instance with its service and identifier.
  abbrev pub gone : ChangedEvent → Option MicroServiceInstance → Option MicroServiceInstance
  gone e old =
      if health_check e.service_name (to_micro_service_instance parse e.instance) then old else none

  abbrev pub by_action :
      Action → ChangedEvent → Option MicroServiceInstance → Option MicroServiceInstance
  by_action event_create e old = some (instance_of parse health_check e)
  by_action event_update e old = some (instance_of parse health_check e)
  by_action event_delete e old = gone e old
  by_action event_error e old = old
  by_action (event_other name) e old = old

  abbrev pub outcome : ChangedEvent → Option MicroServiceInstance → Option MicroServiceInstance
  outcome e old =
      if e.instance.status == default_status then by_action e.action e old else gone e old

  abbrev pub changed :
      ChangedEvent
      → Cached
      → String
      → String
      → Option MicroServiceInstance
      → Option MicroServiceInstance
  changed e m service id old =
      if is_known (lookup e.service_name m)
        && e.service_name == service
        && e.instance.instance_id == id
      then outcome e old
      else old

  id_kept :
      (e : ChangedEvent) → (instance_of parse health_check e).instance_id ≡ e.instance.instance_id
  unfolding with_app_id to_micro_service_instance
  id_kept e = refl

  -- The lists after a step leave what `f` makes of each instance.
  abbrev Leaves :
      ChangedEvent
      → Cached
      → (Option MicroServiceInstance → Option MicroServiceInstance)
      → Cached
      → Type 0
  Leaves e m f m' =
      (k id : String)
      → view m' k id ≡ (
          if is_known (lookup e.service_name m)
            && e.service_name == k
            && e.instance.instance_id == id
          then f (view m k id)
          else view m k id)

  write-Leaves :
      (e : ChangedEvent) (m : Cached) (put : Option (List MicroServiceInstance) → Cached)
      (r : Option MicroServiceInstance)
      → put none ≡ m
      → ((l : List MicroServiceInstance)
          → (l' : List MicroServiceInstance) × (put (some l) ≡ insert e.service_name l' m)
            × ((id : String)
                → held id l' ≡ (if e.instance.instance_id == id then r else held id l)))
      → Leaves e m (λ old. r) (put (lookup e.service_name m))
  write-Leaves e m put r h g k id = elim (Option-cases (lookup e.service_name m)) [
    | inl missed ↦ rw missed (ap (λ (c : Cached). view c k id) h)
    | inr (l, cached) ↦
        let (l', w, held') = g l in
        rw cached
          (rw w (view-insert m e.service_name e.instance.instance_id l l' r cached held' k id))
  ]

  create-Leaves :
      (e : ChangedEvent) (m : Cached)
      → (e.instance.status == default_status) ≡ true
      → Leaves e m
          (λ old. some (instance_of parse health_check e))
          (create_action parse health_check e m)
  unfolding create_action
  create-Leaves e m up =
      let msi = instance_of parse health_check e in
      write-Leaves e m (λ o. create_found parse health_check o e m) (some msi) refl
        (λ l. (
          l ++ msi ∷ [],
          rw up refl,
          λ id.
              held-append id l msi
              ∙ ap (λ (z : String). if z == id then some msi else held id l) (id_kept e),
        ))

  update-Leaves :
      (e : ChangedEvent) (m : Cached)
      → (e.instance.status == default_status) ≡ true
      → Leaves e m
          (λ old. some (instance_of parse health_check e))
          (update_action parse health_check e m)
  unfolding update_action
  update-Leaves e m up =
      let msi = instance_of parse health_check e in
      let j = e.instance.instance_id in
      write-Leaves e m (λ o. update_found parse health_check o e m) (some msi) refl
        (λ l. (
          updated (replace_last j msi l) msi l,
          rw up refl,
          λ id. held-updated id j msi l (id_kept e),
        ))

  delete-Leaves :
      (e : ChangedEvent) (m : Cached) → Leaves e m (gone e) (delete_action parse health_check e m)
  unfolding delete_action
  delete-Leaves e m k id =
      elim (Bool-cases (health_check e.service_name (to_micro_service_instance parse e.instance))) [
        | inl taken ↦ rw taken (
            same_either
              (is_known (lookup e.service_name m)
                && e.service_name == k
                && e.instance.instance_id == id)
              (view m k id))
        | inr fails ↦ rw fails (
            write-Leaves e m (λ o. delete_found parse health_check o e m) none refl
              (λ l. (
                keep (λ v. not (has_id e.instance.instance_id v)) l,
                refl,
                λ id'. held-keep id' e.instance.instance_id l,
              ))
              k id)
      ]

  -- An event of the service center leaves every instance as it is, but for the instances of its
  -- service, when that service is cached, with the identifier of its instance. Of these the view
  -- holds after a creation or an update the instance of the event, and after a deletion, or an event
  -- of an instance that is not up, none, unless the health check takes the instance; other events
  -- change nothing. The view by service and identifier is of the last instance of the list.
  pub watch-refines :
      (e : ChangedEvent) (m : Cached) (k id : String)
      → view (watch parse health_check e m) k id ≡ changed e m k id (view m k id)
  unfolding watch
  watch-refines e m k id = elim (Bool-cases (e.instance.status == default_status)) [
    | inl up ↦ rw up (by_cases e.action up)
    | inr down ↦ rw down (delete-Leaves e m k id)
  ]
    where
      by_cases :
          (a : Action)
          → (e.instance.status == default_status) ≡ true
          → view (on_action parse health_check a e m) k id ≡ (
              if is_known (lookup e.service_name m)
                && e.service_name == k
                && e.instance.instance_id == id
              then by_action a e (view m k id)
              else view m k id)
      by_cases event_create up = create-Leaves e m up k id
      by_cases event_update up = update-Leaves e m up k id
      by_cases event_delete up = delete-Leaves e m k id
      by_cases event_error up =
          same_either
            (is_known (lookup e.service_name m)
              && e.service_name == k
              && e.instance.instance_id == id)
            (view m k id)
      by_cases (event_other name) up =
          same_either
            (is_known (lookup e.service_name m)
              && e.service_name == k
              && e.instance.instance_id == id)
            (view m k id)
