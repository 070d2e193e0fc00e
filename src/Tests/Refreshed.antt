-- ===== src/Tests/Refreshed.antt =====
-- The refresh of core/registry/healthz.go on small data.
use go_chassis.Prelude.{
  false, String, List, [], ◌∷◌, none, true, All, ◌≡◌, refl, ap, Dict, lookup, keep, insert,
}
use go_chassis.Instance.{MicroServiceInstance}
use go_chassis.Refresh.{Alive, by_id, refreshed, refresh_cache, refresh_cache-Alive}

abbrev named : String → MicroServiceInstance
named id = record {
  instance_id = id;
  service_id = "cart";
  default_protocol = "rest";
  endpoints_map = [];
  host_name = "";
  default_endpoint = "";
  status = "UP";
  metadata = [];
  data_center_info = none;
}

abbrev cached : List MicroServiceInstance
cached = named "1" ∷ named "2" ∷ named "3" ∷ []

abbrev ups : List MicroServiceInstance
ups = named "4" ∷ named "1" ∷ []

abbrev downs : Dict {0} Unit
downs = ("2", tt) ∷ []

-- The second is down, the third is still to be tested, and the fourth is new.
after :
    refresh_cache (λ x. true) downs false "cart" ups (("cart", cached) ∷ [])
    ≡ ("cart", named "1" ∷ named "3" ∷ named "4" ∷ []) ∷ []
unfolding refresh_cache refreshed by_id lookup insert keep
after = refl

refresh_cache-Alive_example :
    All (Alive (λ x. true) downs ups) (named "1" ∷ named "3" ∷ named "4" ∷ [])
unfolding lookup insert
refresh_cache-Alive_example =
    refresh_cache-Alive (λ x. true) downs false "cart" cached ups
      (named "1" ∷ named "3" ∷ named "4" ∷ []) (("cart", cached) ∷ []) refl
      (ap (λ (m : Dict (List MicroServiceInstance)). lookup "cart" m) after)
