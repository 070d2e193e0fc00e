-- ===== src/Settings/Balancing/Saved.antt =====
-- Which settings control/archaius/transfer.go leaves in the cache.
use go_chassis.Prelude.{
  ◌≡◌, refl, sym, ◌∙◌, ap, subst, inl, inr, arith, String, [], ◌∷◌, Option, none, some, Bool, true,
  false, ◌==◌, eq_iff, Dict, lookup, insert, value_or, lookup-insert, Bool-cases, Option-cases,
  if◌then◌else◌,
}
use go_chassis.Chain.{in_slice}
use go_chassis.Refresh.{is_known}
use go_chassis.Caches.{delete_outdated, outdated_cases, lookup-delete_outdated}
use go_chassis.Settings.Balancing.{
  LoadBalancing, LoadBalancingSpec, LoadBalancingConfig, Cache, default_lb, each_lb, fallback_lb,
  set_default_lb_value, save_all, reload_lb_cache, save_to_lb_cache, get_load_balancing,
}

-- The entry of a service in a configuration; of several the last.
abbrev or_this : Option LoadBalancingSpec → Bool → LoadBalancingSpec → Option LoadBalancingSpec
or_this (some c) same conf = some c
or_this none same conf = if same then some conf else none

abbrev pub entry_of : String → Dict LoadBalancingSpec → Option LoadBalancingSpec
entry_of k [] = none
entry_of k ((name, conf) ∷ rest) = or_this (entry_of k rest) (name == k) conf

-- What a configuration says of a name.
abbrev pub own_or :
    Option LoadBalancingSpec → Option LoadBalancingConfig → Option LoadBalancingConfig
own_or (some conf) other = some (each_lb conf)
own_or none other = other

lookup-save_all :
    (k : String) (any : Dict LoadBalancingSpec) (m : Cache)
    → lookup k (save_all any m).1 ≡ own_or (entry_of k any) (lookup k m)
unfolding save_all
lookup-save_all k [] m = refl
lookup-save_all k ((name, conf) ∷ rest) m =
    lookup-save_all k rest (insert name (each_lb conf) m)
    ∙ rw (lookup-insert name k (each_lb conf) m) (by_cases (entry_of k rest) (name == k))
  where
    by_cases :
        (o : Option LoadBalancingSpec) (b : Bool)
        → own_or o (if b then some (each_lb conf) else lookup k m)
          ≡ own_or (or_this o b conf) (lookup k m)
    by_cases (some c) b = refl
    by_cases none true = refl
    by_cases none false = refl

-- The names that are written are those with an entry.
written :
    (k : String) (any : Dict LoadBalancingSpec) (m : Cache)
    → in_slice k (save_all any m).0 ≡ is_known (entry_of k any)
unfolding save_all in_slice
written k [] m = refl
written k ((name, conf) ∷ rest) m =
    rw (written k rest (insert name (each_lb conf) m)) (by_cases (entry_of k rest) (name == k))
  where
    by_cases :
        (o : Option LoadBalancingSpec) (b : Bool)
        → (if b then true else is_known o) ≡ is_known (or_this o b conf)
    by_cases (some c) true = refl
    by_cases (some c) false = refl
    by_cases none true = refl
    by_cases none false = refl

-- What the cache holds after a configuration was saved, under any name.
lookup-save_to_lb_cache :
    (raw : LoadBalancing) (m : Cache) (k : String)
    → lookup k (save_to_lb_cache (some raw) m)
      ≡ own_or (entry_of k raw.any_service) (if "" == k then some (default_lb raw) else none)
unfolding save_to_lb_cache reload_lb_cache in_slice
lookup-save_to_lb_cache raw m k =
    let (names, m') = save_all raw.any_service (insert "" (default_lb raw) m) in
    let known = written k raw.any_service (insert "" (default_lb raw) m) in
    let new =
      lookup-save_all k raw.any_service (insert "" (default_lb raw) m)
      ∙ ap (λ (o : Option LoadBalancingConfig). own_or (entry_of k raw.any_service) o)
          (lookup-insert "" k (default_lb raw) m) in
    elim (Bool-cases ("" == k)) [
      | inl same ↦ lookup-delete_outdated ("" ∷ names) m m' k (rw same refl) ∙ new ∙ rw same refl
      | inr other ↦ elim (Option-cases (entry_of k raw.any_service)) [
        | inr (conf, e) ↦
            lookup-delete_outdated ("" ∷ names) m m' k
              (rw other (known ∙ ap (λ (o : Option LoadBalancingSpec). is_known o) e))
            ∙ new
            ∙ rw e refl
        | inl missed ↦ elim (Option-cases (lookup k (delete_outdated ("" ∷ names) m m'))) [
          | inl gone ↦ gone ∙ rw missed (rw other refl)
          | inr (c, e) ↦ elim (outdated_cases ("" ∷ names) m m' k c e) [
            | inl kept ↦ absurd (
                let f : (if "" == k then true else in_slice k names) ≡ true = kept in
                let g : in_slice k names ≡ false =
                  known ∙ ap (λ (o : Option LoadBalancingSpec). is_known o) missed in
                ground arith)
            | inr (no_entry, f) ↦ absurd (
                let g : own_or (entry_of k raw.any_service)
                      (if "" == k then some (default_lb raw) else lookup k m)
                    ≡ some c =
                  sym new ∙ f in
                let h : lookup k m ≡ some c = sym (rw missed (rw other refl)) ∙ g in
                let q : none ≡ some c = sym no_entry ∙ h in cc)
          ]
        ]
      ]
    ]

-- The record of a service: that of its own entry, else that of the entry of the empty name, else the
-- global one.
abbrev configured : String → LoadBalancing → LoadBalancingConfig
configured k raw =
    value_or (own_or (entry_of k raw.any_service) none)
      (value_or (own_or (entry_of "" raw.any_service) none) (default_lb raw))

get_load_balancing-configured :
    (raw : LoadBalancing) (m : Cache) (k : String)
    → get_load_balancing k (save_to_lb_cache (some raw) m) ≡ configured k raw
unfolding get_load_balancing
get_load_balancing-configured raw m k =
    rw (lookup-save_to_lb_cache raw m k, lookup-save_to_lb_cache raw m "")
      (by_cases (entry_of k raw.any_service) refl)
  where
    by_cases :
        (o : Option LoadBalancingSpec)
        → entry_of k raw.any_service ≡ o
        → value_or
            (own_or o (if "" == k then some (default_lb raw) else none))
            (value_or (own_or (entry_of "" raw.any_service) (some (default_lb raw))) fallback_lb)
          ≡ value_or
              (own_or o none)
              (value_or (own_or (entry_of "" raw.any_service) none) (default_lb raw))
    by_cases (some conf) e = refl
    by_cases none e = elim (Bool-cases ("" == k)) [
      | inl same ↦
          let empty : entry_of "" raw.any_service ≡ none =
            subst (λ (z : String). entry_of z raw.any_service ≡ none) (sym ((eq_iff "" k).0 same))
              e in
          rw same (rw empty refl)
      | inr other ↦
          rw other
            (elim (entry_of "" raw.any_service)
              as (λ (o : Option LoadBalancingSpec).
                value_or (own_or o (some (default_lb raw))) fallback_lb
                ≡ value_or (own_or o none) (default_lb raw)) [ some conf ↦ refl | none ↦ refl ])
    ]

-- The global values of a configuration, as those of a service.
abbrev pub global_values : LoadBalancing → LoadBalancingSpec
global_values raw = record {
  strategy = raw.strategy;
  session_stickiness_rule = raw.session_stickiness_rule;
  retry_enabled = raw.retry_enabled;
  retry_on_next = raw.retry_on_next;
  retry_on_same = raw.retry_on_same;
  backoff = raw.backoff;
}

-- The values that a configuration has for a service.
abbrev pub values_for : String → LoadBalancing → LoadBalancingSpec
values_for k raw =
    value_or (entry_of k raw.any_service)
      (value_or (entry_of "" raw.any_service) (global_values raw))

abbrev pub text_or : String → String → String
text_or d text = if text == "" then d else text

-- The settings have every value of the configuration, and the defaults for two texts.
abbrev pub Says : LoadBalancingSpec → LoadBalancingConfig → Type 0
unfolding lookup
Says conf c =
    (c.strategy ≡ text_or "RoundRobin" (value_or (lookup "name" conf.strategy) ""))
    × (c.filters ≡ [])
    × (c.retry_enabled ≡ conf.retry_enabled)
    × (c.retry_on_same ≡ conf.retry_on_same)
    × (c.retry_on_next ≡ conf.retry_on_next)
    × (c.back_off_kind ≡ text_or "zero" conf.backoff.kind)
    × (c.back_off_min ≡ conf.backoff.min_ms)
    × (c.back_off_max ≡ conf.backoff.max_ms)
    × (c.session_timeout_in_seconds ≡ conf.session_stickiness_rule.session_timeout_in_seconds)
    × (c.successive_failed_times ≡ conf.session_stickiness_rule.successive_failed_times)

each_lb-Says : (conf : LoadBalancingSpec) → Says conf (each_lb conf)
unfolding each_lb set_default_lb_value Says
each_lb-Says conf = (refl, refl, refl, refl, refl, refl, refl, refl, refl, refl)

default_lb-Says : (raw : LoadBalancing) → Says (global_values raw) (default_lb raw)
unfolding default_lb set_default_lb_value Says
default_lb-Says raw = (refl, refl, refl, refl, refl, refl, refl, refl, refl, refl)

-- After a configuration was saved, `GetLoadBalancing` gives a service the values of its own entry in that
-- configuration, or without one those of the entry of the empty name, or the global values, field by field,
-- with the strategy RoundRobin and the kind of back off zero where they are empty, no filters, and whatever was
-- in the cache before.
pub get_load_balancing-saved :
    (raw : LoadBalancing) (m : Cache) (k : String)
    → Says (values_for k raw) (get_load_balancing k (save_to_lb_cache (some raw) m))
get_load_balancing-saved raw m k =
    subst (Says (values_for k raw)) (sym (get_load_balancing-configured raw m k))
      (by_entry (entry_of k raw.any_service) (entry_of "" raw.any_service))
  where
    by_entry :
        (own empty : Option LoadBalancingSpec)
        → Says
            (value_or own (value_or empty (global_values raw)))
            (value_or (own_or own none) (value_or (own_or empty none) (default_lb raw)))
    by_entry (some conf) empty = each_lb-Says conf
    by_entry none (some conf) = each_lb-Says conf
    by_entry none none = default_lb-Says raw
