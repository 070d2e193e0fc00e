-- ===== src/Tests/Cache.antt =====
-- The cache of instances of core/registry on small data. The versions are "1.0.0" and "2.0.0".
use go_chassis.Prelude.{
  ℕ, arith, String, ◌==◌, List, [], ◌∷◌, Option, none, some, ltb, if◌then◌else◌,
}
use go_chassis.Instance.{MicroServiceInstance}
use go_chassis.IndexCache.{new_index_cache, set}
use go_chassis.IndexCache.Latest.{Held, set-Held}

abbrev number : String → Option ℕ
number s = if s == "1.0.0" then some 1 else if s == "2.0.0" then some 2 else none

abbrev of_version : String → MicroServiceInstance
of_version v = record {
  instance_id = v;
  service_id = "cart";
  default_protocol = "rest";
  endpoints_map = [];
  host_name = "";
  default_endpoint = "";
  status = "UP";
  metadata = ("version", v) ∷ [];
  data_center_info = none;
}

abbrev cart : List MicroServiceInstance
cart = of_version "1.0.0" ∷ of_version "2.0.0" ∷ of_version "beta" ∷ []

set-Held_example :
    Held number ltb
      (λ v. ground arith)
      (λ u v w a b. ground arith)
      "cart"
      0
      cart
      []
      (set number ltb 0 "cart" cart new_index_cache).latest_v
set-Held_example =
    set-Held number ltb (λ v. ground arith) (λ u v w a b. ground arith) "cart" 0 cart
      new_index_cache
