-- ===== src/ServiceCenter/Pull/Wanted.antt =====
-- Which services core/registry/servicecenter/cache.go keeps in the cache.
use go_chassis.Prelude.{
  ◌≡◌, refl, sym, ◌∙◌, ap, subst, inl, inr, ◌⊎◌, arith, String, List, [], ◌∷◌, Option, none, some,
  Bool, true, false, ◌&&◌, ◌==◌, eq_iff, Any, Dict, lookup, insert, insert_cases, remove_cases,
  insert_name, before, All, Bool-cases, if◌then◌else◌,
}
use go_chassis.Instance.{MicroServiceInstance}
use go_chassis.Refresh.{refresh_cache, refresh_found, is_empty, refreshed, stored}
use go_chassis.Chain.{in_slice}
use go_chassis.Caches.{outdated_cases}
use go_chassis.ServiceCenter.Events.{Cached}
use go_chassis.ServiceCenter.Pull.{
  Provider, get_providers_from_cache, set_insert, of_service, service_set, get_service_set,
  compare_and_delete_outdated_providers, Answer, pull_apps, pull_services,
  pull_micro_service_instance,
}

in_slice-insert_name :
    (a b : String) (l : List String)
    → in_slice a (insert_name b l) ≡ true
    → (b ≡ a) ⊎ (in_slice a l ≡ true)
unfolding in_slice insert_name
in_slice-insert_name a b [] = λ h. inl ((eq_iff b a).0 (ground arith))
in_slice-insert_name a b (c ∷ l) =
    elim (before b c)
      as (λ (t : Bool).
        in_slice a (if t then b ∷ c ∷ l else c ∷ insert_name b l) ≡ true
        → (b ≡ a) ⊎ (in_slice a (c ∷ l) ≡ true)) [
          | true ↦ λ h. elim (Bool-cases (b == a)) [
            | inl e ↦ inl ((eq_iff b a).0 e)
            | inr ne ↦ inr (sym (ap (λ (t : Bool). if t then true else in_slice a (c ∷ l)) ne) ∙ h)
          ]
          | false ↦ λ h. elim (Bool-cases (c == a)) [
            | inl e ↦ inr (rw e refl)
            | inr ne ↦
                elim (in_slice-insert_name a b l (
                  sym (ap (λ (t : Bool). if t then true else in_slice a (insert_name b l)) ne)
                  ∙ h)) [ inl e ↦ inl e | inr k ↦ inr (rw ne k) ]
          ]
        ]

set_insert_cases :
    (a b : String) (l : List String)
    → in_slice a (set_insert b l) ≡ true
    → (b ≡ a) ⊎ (in_slice a l ≡ true)
unfolding set_insert
set_insert_cases a b l =
    elim (in_slice b l)
      as (λ (t : Bool).
        in_slice a (if t then l else insert_name b l) ≡ true → (b ≡ a) ⊎ (in_slice a l ≡ true)) [
          | true ↦ λ h. inr h
          | false ↦ λ h. in_slice-insert_name a b l h
        ]

-- A refresh writes under its service alone.
refresh_cases :
    (health_check : MicroServiceInstance → Bool) (downs : Dict {0} Unit) (nil : Bool)
    (service k : String) (ups l : List MicroServiceInstance) (m : Cached)
    → lookup k (refresh_cache health_check downs nil service ups m) ≡ some l
    → (service ≡ k) ⊎ ((v : List MicroServiceInstance) × (lookup k m ≡ some v))
unfolding refresh_cache
refresh_cases health_check downs nil service k ups l m = found (lookup service m)
  where
    written :
        (x : List MicroServiceInstance)
        → lookup k (insert service x m) ≡ some l
        → (service ≡ k) ⊎ ((v : List MicroServiceInstance) × (lookup k m ≡ some v))
    written x h = elim (insert_cases service k x l m h) [ inl (e, _) ↦ inl e | inr f ↦ inr (l, f) ]

    saved :
        (r : List MicroServiceInstance)
        → lookup k (stored health_check downs service r m) ≡ some l
        → (service ≡ k) ⊎ ((v : List MicroServiceInstance) × (lookup k m ≡ some v))
    saved [] h = inr (l, remove_cases service k l m h)
    saved (x ∷ xs) h = written (x ∷ xs) h

    either : List MicroServiceInstance → Bool → Cached
    either exps t =
        if t
        then insert service ups m
        else stored health_check downs service (refreshed health_check downs exps ups) m

    found :
        (o : Option (List MicroServiceInstance))
        → lookup k (refresh_found health_check downs nil o service ups m) ≡ some l
        → (service ≡ k) ⊎ ((v : List MicroServiceInstance) × (lookup k m ≡ some v))
    found none h = written ups h
    found (some exps) h = elim (Bool-cases (nil && is_empty health_check downs exps)) [
      | inl b ↦ written ups (subst (λ (t : Bool). lookup k (either exps t) ≡ some l) b h)
      | inr b ↦
          saved (refreshed health_check downs exps ups)
            (subst (λ (t : Bool). lookup k (either exps t) ≡ some l) b h)
    ]

module _ (W : String → Type 0) where
  -- Every name is wanted.
  abbrev Names : List String × Dict (List String) → Type 0
  Names sets =
      ((k : String) → in_slice k sets.0 ≡ true → W k)
      × All (λ (e : String × List String). W e.0) sets.1

  All-insert :
      (k : String) (v : List String) (m : Dict (List String))
      → W k
      → All (λ (e : String × List String). W e.0) m
      → All (λ (e : String × List String). W e.0) (insert k v m)
  unfolding insert
  All-insert k v [] w h = (w, tt)
  All-insert k v (e ∷ rest) w h =
      elim (k == e.0)
        as (λ (b : Bool).
          All (λ (e : String × List String). W e.0)
            (if b then (e.0, v) ∷ rest else e ∷ insert k v rest)) [
              | true ↦ h
              | false ↦ (h.0, All-insert k v rest w h.1)
            ]

  service_set-Names :
      (l : List Provider) (sets : List String × Dict (List String))
      → All (λ (s : Provider). W s.service_name) l
      → Names sets
      → Names (service_set l sets)
  unfolding service_set
  service_set-Names [] sets a h = h
  service_set-Names (s ∷ rest) (names, apps) a h =
      service_set-Names rest (of_service s (names, apps)) a.1 (
        (λ k found. elim (set_insert_cases k s.service_name names found) [
          | inl e ↦ subst W e a.0
          | inr f ↦ h.0 k f
        ]),
        All-insert s.service_name _ apps a.0 h.1,
      )

  named :
      (l : List Provider)
      → ((k : String) → Any (λ (p : Provider). p.service_name ≡ k) l → W k)
      → All (λ (s : Provider). W s.service_name) l
  named [] h = tt
  named (s ∷ l) h = (h s.service_name (inl refl), named l (λ k a. h k (inr a)))

  module _ (parse : String → Option (String × String))
      (health_check : String → MicroServiceInstance → Bool) (is_nil : String → Bool)
      (find : String → String → Answer) where
    pull_services-wanted :
        (apps : Dict (List String)) (m : Cached) (providers : Dict Provider)
        → All (λ (e : String × List String). W e.0) apps
        → ((k : String) (l : List MicroServiceInstance) → lookup k m ≡ some l → W k)
        → (k : String) (l : List MicroServiceInstance)
        → lookup k (pull_services parse health_check is_nil find apps m providers).0 ≡ some l
        → W k
    unfolding pull_services
    pull_services-wanted [] m providers a h = h
    pull_services-wanted ((service, names) ∷ rest) m providers a h =
        let (ups, (downs, providers')) =
          pull_apps parse health_check is_nil find service names ([], ([], providers)) in
        pull_services-wanted rest
          (refresh_cache (health_check service) downs (is_nil service) service ups m) providers' a.1
          (λ k l f.
            elim (refresh_cases (health_check service) downs (is_nil service) service k ups l m f) [
              | inl e ↦ subst W e a.0
              | inr (v, g) ↦ h k v g
            ])

-- After a refresh every service in the cache is one that this process has called: a provider in
-- the cache of providers bears its name, whatever the service center answers.
pub pull_micro_service_instance-wanted :
    (parse : String → Option (String × String))
    (health_check : String → MicroServiceInstance → Bool) (is_nil : String → Bool)
    (find : String → String → Answer) (m : Cached) (providers : Dict Provider) (k : String)
    (l : List MicroServiceInstance)
    → lookup k (pull_micro_service_instance parse health_check is_nil find m providers).0 ≡ some l
    → Any (λ (p : Provider). p.service_name ≡ k) (get_providers_from_cache providers)
unfolding pull_micro_service_instance get_service_set compare_and_delete_outdated_providers
pull_micro_service_instance-wanted parse health_check is_nil find m providers =
    let services = get_providers_from_cache providers in
    let W : String → Type 0 = (λ k. Any (λ (p : Provider). p.service_name ≡ k) services) in
    let ok =
      service_set-Names W services ([], []) (named W services (λ k h. h))
        ((λ k h. absurd (let e = h in cc)), tt) in
    let (names, apps) = get_service_set services in
    pull_services-wanted W parse health_check is_nil find apps
      (compare_and_delete_outdated_providers names m) providers ok.1
      (λ k l f. elim (outdated_cases names m m k l f) [
        | inl found ↦ ok.0 k found
        | inr (missed, some') ↦ absurd (let q : none ≡ some l = sym missed ∙ some' in cc)
      ])
