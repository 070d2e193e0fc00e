-- ===== src/LoadBalancer/Available.antt =====
-- What the zone aware filter and `BuildStrategy` leave of the instances that discovery found
-- (core/loadbalancer/filter.go and load_balancer.go).
use go_chassis.Prelude.{
  ◌≡◌, ◌≢◌, refl, sym, subst, inl, inr, arith, String, List, [], ◌∷◌, Option, none, some, Bool,
  true, false, ◌==◌, eq_iff, Dict, lookup, keep-All, keep-Any, keep-some, All, Any, Bool-cases,
  if◌then◌else◌,
}
use go_chassis.Instance.{MicroServiceInstance, DataCenterInfo}
use go_chassis.LoadBalancer.Filters.{
  instances_zone_wise, instances_in_same_region, or_else, zone_affinity, in_zone, in_region,
}
use go_chassis.LoadBalancer.Build.{
  Filter, is_filter_exist, apply_filters, build_strategy, available,
}
use go_chassis.LoadBalancer.Chosen.{Among}

abbrev Instances : Type 0
Instances = List MicroServiceInstance

-- What the filter leaves of `old` in the zone `here`: an instance of `old` each, in the zone if an
-- instance is there, else in the region if an instance is there.
pub record Near (here : DataCenterInfo) (old result : Instances) : Type 0 where
  pub from_old : (x : MicroServiceInstance) → Among x result → Among x old
  pub some_left : old ≢ [] → result ≢ []
  pub same_zone :
      Any (λ x. in_zone here.name here.available_zone x.data_center_info ≡ true) old
      → All (λ x. in_zone here.name here.available_zone x.data_center_info ≡ true) result
  pub same_region :
      Any (λ x. in_region here.name x.data_center_info ≡ true) old
      → All (λ x. in_region here.name x.data_center_info ≡ true) result

zone→region :
    (region zone : String) (l : Instances)
    → All (λ x. in_zone region zone x.data_center_info ≡ true) l
    → All (λ x. in_region region x.data_center_info ≡ true) l
zone→region region zone [] h = tt
zone→region region zone (x ∷ xs) h = (one x.data_center_info h.0, zone→region region zone xs h.1)
  where
    one : (d : Option DataCenterInfo) → in_zone region zone d ≡ true → in_region region d ≡ true
    one none e = e
    one (some d) e = ground arith

or_else-Near :
    (here : DataCenterInfo) (old zoned regional : Instances)
    → zoned ≡ instances_zone_wise old here.name here.available_zone
    → regional ≡ instances_in_same_region old here.name
    → Near here old (or_else zoned (or_else regional old))
unfolding or_else instances_zone_wise instances_in_same_region
or_else-Near here old (z ∷ zs) regional ez er =
    let zone =
      subst
        (λ (l : Instances).
          All (λ x. in_zone here.name here.available_zone x.data_center_info ≡ true) l)
        (sym ez) (keep-All (λ x. in_zone here.name here.available_zone x.data_center_info) old) in
    record {
      from_old = λ x h.
          keep-Any (λ x. in_zone here.name here.available_zone x.data_center_info) _ old
            (subst (λ (l : Instances). Among x l) ez h);
      some_left = λ _ q. cc;
      same_zone = λ _. zone;
      same_region = λ _. zone→region here.name here.available_zone (z ∷ zs) zone;
    }
or_else-Near here old [] (r ∷ rs) ez er =
    let region =
      subst (λ (l : Instances). All (λ x. in_region here.name x.data_center_info ≡ true) l) (sym er)
        (keep-All (λ x. in_region here.name x.data_center_info) old) in
    record {
      from_old = λ x h.
          keep-Any (λ x. in_region here.name x.data_center_info) _ old
            (subst (λ (l : Instances). Among x l) er h);
      some_left = λ _ q. cc;
      same_zone = λ h. absurd (keep-some _ old h (sym ez));
      same_region = λ _. region;
    }
or_else-Near here old [] [] ez er = record {
  from_old = λ x h. h;
  some_left = λ h. h;
  same_zone = λ h. absurd (keep-some _ old h (sym ez));
  same_region = λ h. absurd (keep-some _ old h (sym er));
}

pub zone_affinity-Near :
    (here : DataCenterInfo) (old : Instances)
    → here.name ≢ ""
    → here.available_zone ≢ ""
    → Near here old (zone_affinity (some here) old)
unfolding zone_affinity
zone_affinity-Near here old hn hz =
    let a : (here.name == "") ≡ false = ground (arith, eq_iff here.name "") in
    let b : (here.available_zone == "") ≡ false = ground (arith, eq_iff here.available_zone "") in
    rw a (
      rw b (
        or_else-Near here old (instances_zone_wise old here.name here.available_zone)
          (instances_in_same_region old here.name) refl refl))

module _ (here : DataCenterInfo) (found : MicroServiceInstance) (others : Instances) where
  -- Filtering a list that is not empty by zone, any number of times, leaves some of it.
  abbrev Left : Instances → Type 0
  Left l = (l ≢ []) × ((x : MicroServiceInstance) → Among x l → Among x (found ∷ others))

  abbrev zone_aware : Dict Filter
  zone_aware = ("zoneaware", zone_affinity (some here)) ∷ []

  apply_filters-Left :
      (names : List String) (l : Instances)
      → here.name ≢ ""
      → here.available_zone ≢ ""
      → Left l
      → Left (apply_filters zone_aware names l)
  unfolding apply_filters lookup
  apply_filters-Left [] l hn hz left = left
  apply_filters-Left (name ∷ names) l hn hz left = elim (Bool-cases (name == "zoneaware")) [
    | inl e ↦
        let near = zone_affinity-Near here l hn hz in
        rw e (
          apply_filters-Left names (zone_affinity (some here) l) hn hz
            (near.some_left left.0, λ x h. left.1 x (near.from_old x h)))
    | inr ne ↦ rw ne (apply_filters-Left names l hn hz left)
  ]

  abbrev Handed : Instances → Type 0
  Handed l =
      (l' : Instances) × (available l ≡ some l')
      × (l' ≢ [])
      × ((x : MicroServiceInstance) → Among x l' → Among x (found ∷ others))

  handed : (l : Instances) → Left l → Handed l
  handed [] left = absurd (left.0 refl)
  handed (x ∷ xs) left = (x ∷ xs, refl, left.0, left.1)

  found-Left : Left (found ∷ others)
  found-Left = ((λ q. cc), λ x h. h)

  -- With the zone aware filter as the only one installed, in a data center with a name and a
  -- zone, `BuildStrategy` has no error for any list of filter names once discovery found an
  -- instance: it hands the strategy a list that is not empty, of instances that were found.
  pub build_strategy-available :
      (fs : List String)
      → here.name ≢ ""
      → here.available_zone ≢ ""
      → (l : Instances) × (build_strategy zone_aware fs (some (found ∷ others)) ≡ some l)
        × (l ≢ [])
        × ((x : MicroServiceInstance) → Among x l → Among x (found ∷ others))
  unfolding build_strategy
  build_strategy-available fs hn hz =
      elim (is_filter_exist fs)
        as (λ (b : Bool).
          Handed (if b then apply_filters zone_aware fs (found ∷ others) else found ∷ others)) [
            | true ↦ handed _ (apply_filters-Left fs (found ∷ others) hn hz found-Left)
            | false ↦ handed _ found-Left
          ]
