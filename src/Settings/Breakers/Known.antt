-- ===== src/Settings/Breakers/Known.antt =====
-- That control/archaius/panel.go finds the settings of the circuit breaker.
use go_chassis.Prelude.{
  ◌≡◌, refl, sym, subst, ◌∙◌, ap, inl, inr, ◌⊎◌, ℤ, String, List, [], ◌∷◌, Option, some, Bool, true,
  false, ◌==◌, eq_refl, lookup, lookup-insert_self, Option-cases, if◌then◌else◌,
}
use go_chassis.Chain.{in_slice}
use go_chassis.Refresh.{is_known}
use go_chassis.Caches.{delete_outdated, lookup-delete_outdated, insert-known}
use go_chassis.Settings.Circuit.{HystrixConfig, CommandConfig}
use go_chassis.Settings.Breakers.{
  Cache, get_cb_cache_key, service_names, command_config, save_each_cb, save_services,
  reload_cb_cache, save_to_cb_cache, get_circuit_breaker,
}

module _ (get_int : String → ℤ → ℤ) (get_bool : String → Bool → Bool) (config : HystrixConfig) where
  -- A key that is among the written ones and in the cache.
  abbrev Written : String → List String × Cache → Type 0
  Written t saved = (in_slice t saved.0 ≡ true) × (is_known (lookup t saved.1) ≡ true)

  save_each_cb-keeps :
      (t name type : String) (saved : List String × Cache)
      → Written t saved
      → Written t (save_each_cb get_int get_bool config name type saved)
  unfolding save_each_cb in_slice
  save_each_cb-keeps t name type (keys, m) h =
      let key = get_cb_cache_key name type in
      (
        rw h.0 (elim (key == t) as (λ (b : Bool). (if b then true else true) ≡ true) [
          | true ↦ refl
          | false ↦ refl
        ]),
        insert-known t key (command_config get_int get_bool config name type) m h.1,
      )

  save_each_cb-global :
      (t : String) (saved : List String × Cache)
      → Written t (save_each_cb get_int get_bool config "" t saved)
  unfolding save_each_cb in_slice get_cb_cache_key
  save_each_cb-global t (keys, m) = (
    rw (eq_refl t) refl,
    rw (lookup-insert_self t (command_config get_int get_bool config "" t) m) refl,
  )

  save_services-keeps :
      (t : String) (names : List String) (type : String) (saved : List String × Cache)
      → Written t saved
      → Written t (save_services get_int get_bool config names type saved)
  unfolding save_services
  save_services-keeps t [] type saved h = h
  save_services-keeps t (name ∷ rest) type saved h =
      save_services-keeps t rest type (save_each_cb get_int get_bool config name type saved)
        (save_each_cb-keeps t name type saved h)

  reload-Written :
      (src : HystrixConfig) (m : Cache) (t : String)
      → (t ≡ "Consumer") ⊎ (t ≡ "Provider")
      → Written t (reload_cb_cache get_int get_bool config src m)
  unfolding reload_cb_cache
  reload-Written src m t side =
      let consumers = save_each_cb get_int get_bool config "" "Consumer" ([], m) in
      let global = save_each_cb get_int get_bool config "" "Provider" consumers in
      let start : Written t global = elim side [
        | inl e ↦
            subst (λ (z : String). Written z global) (sym e)
              (save_each_cb-keeps "Consumer" "" "Provider" consumers
                (save_each_cb-global "Consumer" ([], m)))
        | inr e ↦
            subst (λ (z : String). Written z global) (sym e)
              (save_each_cb-global "Provider" consumers)
      ] in
      save_services-keeps t (service_names src config "Provider") "Provider" _
        (save_services-keeps t (service_names src config "Consumer") "Consumer" global start)

  -- After a configuration was saved, `GetCircuitBreaker` does not panic for any service, as a consumer
  -- or a provider: there are settings of the service or the global ones.
  pub get_circuit_breaker-known :
      (src : HystrixConfig) (m : Cache) (name t : String)
      → (t ≡ "Consumer") ⊎ (t ≡ "Provider")
      → (c : CommandConfig) × (get_circuit_breaker name t
            (save_to_cb_cache get_int get_bool config (some src) m)
          ≡ some c)
  unfolding get_circuit_breaker save_to_cb_cache
  get_circuit_breaker-known src m name t side =
      let saved = reload_cb_cache get_int get_bool config src m in
      let w = reload-Written src m t side in
      let after = delete_outdated saved.0 m saved.1 in
      let kept : lookup t after ≡ lookup t saved.1 =
        lookup-delete_outdated saved.0 m saved.1 t w.0 in
      elim (Option-cases (lookup (get_cb_cache_key name t) after)) [
        | inr (c, e) ↦ (c, rw e refl)
        | inl missed ↦ elim (Option-cases (lookup t saved.1)) [
          | inr (c, e) ↦ (c, rw missed (kept ∙ e))
          | inl gone ↦ absurd (
              let q : false ≡ true =
                sym (ap (λ (o : Option CommandConfig). is_known o) gone) ∙ w.1 in
              cc)
        ]
      ]
