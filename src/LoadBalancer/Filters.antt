-- ===== src/LoadBalancer/Filters.antt =====
-- The zone aware filter of core/loadbalancer/filter.go.
use go_chassis.Prelude.{
  String, List, [], ◌∷◌, Option, none, some, Bool, false, ◌&&◌, ◌||◌, ◌==◌, keep, if◌then◌else◌,
}
use go_chassis.Instance.{MicroServiceInstance, DataCenterInfo}

abbrev pub in_zone : String → String → Option DataCenterInfo → Bool
in_zone region zone none = false
in_zone region zone (some d) = d.region == region && d.available_zone == zone

abbrev pub in_region : String → Option DataCenterInfo → Bool
in_region region none = false
in_region region (some d) = d.region == region

-- `getInstancesZoneWise`, `getAvailableInstancesInSameRegion`
unfoldable pub instances_zone_wise :
    List MicroServiceInstance → String → String → List MicroServiceInstance
instances_zone_wise l region zone = keep (λ ins. in_zone region zone ins.data_center_info) l

unfoldable pub instances_in_same_region :
    List MicroServiceInstance → String → List MicroServiceInstance
instances_in_same_region l region = keep (λ ins. in_region region ins.data_center_info) l

-- The first list, or the second where the first is empty.
unfoldable pub or_else :
    List MicroServiceInstance → List MicroServiceInstance → List MicroServiceInstance
or_else [] other = other
or_else (x ∷ xs) other = x ∷ xs

-- `FilterAvailableZoneAffinity`, over the data center of the configuration, whose `name` is the
-- region.
unfoldable pub zone_affinity :
    Option DataCenterInfo → List MicroServiceInstance → List MicroServiceInstance
unfolding instances_zone_wise instances_in_same_region or_else
zone_affinity none old = old
zone_affinity (some here) old =
    if here.name == "" || here.available_zone == ""
    then old
    else or_else (instances_zone_wise old here.name here.available_zone)
        (or_else (instances_in_same_region old here.name) old)
