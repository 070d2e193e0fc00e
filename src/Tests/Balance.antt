-- ===== src/Tests/Balance.antt =====
-- The load balancer of core/loadbalancer on small data.
use go_chassis.Prelude.{
  ◌+◌, ℕ, ◌<◌, ◌≡◌, ◌≢◌, refl, inl, inr, arith, String, List, [], ◌∷◌, some, pos, max_int, lookup,
  Any, keep,
}
use go_chassis.Instance.{MicroServiceInstance, DataCenterInfo}
use go_chassis.LoadBalancer.{State, default_endpoint}
use go_chassis.LoadBalancer.Turns.{turn, turns_fair}
use go_chassis.LoadBalancer.Chosen.{Among}
use go_chassis.LoadBalancer.Filters.{zone_affinity}
use go_chassis.LoadBalancer.Build.{build_strategy}
use go_chassis.LoadBalancer.Available.{build_strategy-available}
use go_chassis.LoadBalancer.Latency.{ProtocolStats, TenAtMost, set_latency}
use go_chassis.LoadBalancer.Records.{Recorded, set_latency-Recorded}

abbrev rest_at : String → String → String → MicroServiceInstance
rest_at id addr zone = record {
  instance_id = id;
  service_id = "cart";
  default_protocol = "rest";
  endpoints_map = ("rest", addr) ∷ [];
  host_name = "";
  default_endpoint = "";
  status = "UP";
  metadata = [];
  data_center_info = some (record { name = "dc"; region = "north"; available_zone = zone });
}

abbrev first : MicroServiceInstance
first = rest_at "1" "10.0.0.1:80" "a"

abbrev second : MicroServiceInstance
second = rest_at "2" "10.0.0.2:80" "b"

abbrev third : MicroServiceInstance
third = rest_at "3" "10.0.0.3:80" "b"

abbrev cart : List MicroServiceInstance
cart = first ∷ second ∷ third ∷ []

abbrev state : State
state = record { rr_idx_map = ("cart|", pos 4) ∷ []; i = pos 5; successive_failure_count = [] }

abbrev late_state : State
late_state = record state { rr_idx_map = ("cart|", pos max_int) ∷ [] }

-- A key that was never counted, and numbers of which only the first is used.
turns_fair_example :
    (k : ℕ) × (k < 3)
    × (s' : State) × (turn first (second ∷ third ∷ []) "new|" (λ i. 7 + i) state k
        ≡ some (some first, s'))
unfolding lookup
turns_fair_example =
    turns_fair first (second ∷ third ∷ []) "new|" (λ i. 7 + i) state 7 refl (omega arith) 0
      (omega arith)

-- No instance has the address of the session.
absent : ¬ Any (λ (y : MicroServiceInstance). default_endpoint y ≡ "gone") cart
unfolding lookup
absent h = elim h [ inl e ↦ cc | inr (inl e) ↦ cc | inr (inr (inl e)) ↦ cc | inr (inr (inr e)) ↦ e ]

abbrev here : DataCenterInfo
here = record { name = "north"; region = ""; available_zone = "b" }

near_ones : zone_affinity (some here) cart ≡ second ∷ third ∷ []
unfolding zone_affinity keep
near_ones = refl

build_strategy-available_example :
    (l : List MicroServiceInstance) × (build_strategy
        (("zoneaware", zone_affinity (some here)) ∷ [])
        ("zoneaware" ∷ [])
        (some cart)
      ≡ some l)
    × (l ≢ [])
    × ((x : MicroServiceInstance) → Among x l → Among x cart)
build_strategy-available_example =
    build_strategy-available here first (second ∷ third ∷ []) ("zoneaware" ∷ []) (λ e. cc) (λ e. cc)

abbrev slow : ProtocolStats
slow = record {
  latency = 1 ∷ 2 ∷ 3 ∷ 4 ∷ 5 ∷ 6 ∷ 7 ∷ 8 ∷ 9 ∷ 10 ∷ [];
  addr = "10.0.0.1:80";
  avg_latency = 5;
}

set_latency-Recorded_example :
    (vs : List ProtocolStats) × (lookup "cart//rest"
        (set_latency 11 "10.0.0.1:80" "cart//rest" (("cart//rest", slow ∷ []) ∷ []))
      ≡ some vs)
    × TenAtMost vs
    × Any (Recorded 11 "10.0.0.1:80") vs
unfolding lookup
set_latency-Recorded_example =
    set_latency-Recorded 11 "10.0.0.1:80" "cart//rest" (("cart//rest", slow ∷ []) ∷ [])
      (omega arith, tt)
