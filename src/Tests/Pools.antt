-- ===== src/Tests/Pools.antt =====
-- The weighted pools of core/router/weightpool/weightpool.go on small data.
use go_chassis.Prelude.{ℕ, ◌≡◌, refl, String, List, [], ◌∷◌, some, arith, pos}
use go_chassis.Config.{RouteTag}
use go_chassis.WeightPool.{Pool, gcd, new_pool, pick_one}
use go_chassis.WeightPool.Invariant.{IsValid}
use go_chassis.WeightPool.Rounds.{calls}

abbrev tag : String → ℕ → RouteTag
tag version w = record { tags = ("version", version) ∷ []; weight = pos w; label = version }

-- Two versions, one of which takes no calls by its weight, and a rest for the latest one.
abbrev canary : List RouteTag
canary = tag "1.0" 60 ∷ tag "1.1" 0 ∷ []

abbrev canary_pool : Pool
canary_pool = record {
  tags =
      tag "1.0" 60
      ∷ tag "1.1" 0
      ∷ record { tags = ("version", "latest") ∷ []; weight = pos 40; label = "version:latest" }
      ∷ [];
  gcd = 20;
  max = 60;
  i = 0;
  cw = 0;
  num = 3;
}

new_pool-canary : new_pool canary ≡ canary_pool
unfolding new_pool gcd
new_pool-canary = refl

-- The version of weight 0 is the first that a new pool returns.
first_calls : calls 7 canary_pool ≡ some (1 ∷ 2 ∷ 0 ∷ 0 ∷ 2 ∷ 0 ∷ 2 ∷ [])
unfolding calls pick_one
first_calls = refl

abbrev cycle_pool : Pool
cycle_pool = record canary_pool { i = 2; cw = 20 }

cycle_pool-IsValid : IsValid cycle_pool
cycle_pool-IsValid = record {
  counted = refl;
  in_range = omega arith;
  below_max = omega arith;
  has_max = omega arith;
  has_unit = omega arith;
  unit_of_max = (3, refl);
  heaviest = (0, omega arith, refl);
  fit = ((omega arith, (3, refl)), ((omega arith, (0, refl)), ((omega arith, (2, refl)), tt)));
}
