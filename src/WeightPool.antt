-- ===== src/WeightPool.antt =====
-- The weighted round robin of core/router/weightpool/weightpool.go. Weights are Go `int`s; the
-- sum of the positive ones, `gcd`, `max`, `i`, `num` and `cw` are never negative between two
-- calls, and stay far below 2^63 for weights that are percentages, so they are plain numbers.
-- The locks make each operation one step.
pub mod Gcd
pub mod Invariant
pub mod Valid
pub mod Pick
pub mod Rounds
pub mod Share
pub mod Cycle
use go_chassis.Prelude.{
  ℕ, zero, suc, String, List, [], ◌∷◌, ◌++◌, Option, none, some, Bool, true, false, ◌+◌, ◌-◌, ◌%◌,
  ltb, leb, eqb, ℤ, pos, negsuc, Dict, lookup, insert, remove, if◌then◌else◌, length, get_elem?,
  ◌>>=◌, ◌||◌,
}
use go_chassis.Config.{
  RouteTag, zero_tag, buildin_tag_version, latest_version, buildin_label_version,
}

pub record Pool : Type 0 where
  pub tags : List RouteTag
  pub gcd : ℕ
  pub max : ℕ
  pub i : ℕ
  pub cw : ℕ
  pub num : ℕ

-- `gcd(a, b)`: each call has a smaller second argument, so `b + 1` rounds are enough.
gcd_fuel : ℕ → ℕ → ℕ → ℕ
gcd_fuel zero a b = a
gcd_fuel (suc fuel) a b = let rest = gcd_fuel fuel b (a % b) in if eqb b 0 then a else rest

unfoldable pub gcd : ℕ → ℕ → ℕ
unfolding gcd_fuel
gcd a b = gcd_fuel (suc b) a b

-- `refreshGCD`, of a weight that is positive.
unfoldable pub refresh_gcd : ℕ → Pool → Pool
refresh_gcd w p =
    let q = record p { gcd = gcd p.gcd w } in if ltb p.max w then record q { max = w } else q

-- One round of the loop of `NewPool`, over the running total and the pool, by the tag's weight.
unfoldable pub add_tag : ℤ → RouteTag → ℕ × Pool → ℕ × Pool
unfolding refresh_gcd
add_tag (pos zero) t (total, p) = (total, record p { tags = p.tags ++ t ∷ [] })
add_tag (pos (suc n)) t (total, p) =
    let q = refresh_gcd (suc n) p in (total + suc n, record q { tags = q.tags ++ t ∷ [] })
add_tag (negsuc n) t (total, p) = (total, record p { tags = p.tags ++ t ∷ [] })

unfoldable pub add_tags : List RouteTag → ℕ × Pool → ℕ × Pool
unfolding add_tag
add_tags [] acc = acc
add_tags (t ∷ ts) acc = add_tags ts (add_tag t.weight t acc)

-- The tag that takes the calls which the configured weights leave over.
abbrev pub latest_tag : ℕ → RouteTag
latest_tag total = record {
  tags = (buildin_tag_version, latest_version) ∷ [];
  weight = pos (100 - total);
  label = buildin_label_version;
}

abbrev pub empty_pool : Pool
empty_pool = record { tags = []; gcd = 0; max = 0; i = 0; cw = 0; num = 0 }

-- `total < 100`: the rest goes to the latest version.
unfoldable pub fill_up : ℕ × Pool → Pool
unfolding refresh_gcd
fill_up (total, p) =
    if ltb total 100
    then (let q = refresh_gcd (100 - total) p in
        record q { tags = q.tags ++ latest_tag total ∷ [] })
    else p

-- `NewPool`.
unfoldable pub new_pool : List RouteTag → Pool
unfolding add_tags fill_up
new_pool route_tags =
    let p = fill_up (add_tags route_tags (0, empty_pool)) in record p { num = length p.tags }

-- `weight >= cw`
abbrev pub reaches : ℕ → ℤ → Bool
reaches cw (pos w) = leb cw w
reaches cw (negsuc n) = false

-- The head of the loop of `PickOne`: the next index, and a lower `cw` at index 0. The source's
-- `cw - gcd <= 0` is `cw <= gcd`.
unfoldable pub advance : Pool → Pool
advance p =
    let i = (p.i + 1) % p.num in
    record p {
      i = i;
      cw = if eqb i 0 then (if leb p.cw p.gcd then p.max else p.cw - p.gcd) else p.cw;
    }

-- The loop of `PickOne`; `none` is an index out of range, or the end of the fuel.
unfoldable pub scan : ℕ → Pool → Option (Pool × Option RouteTag)
unfolding advance
scan zero p = none
scan (suc fuel) p =
    let q = advance p in
    let rest = scan fuel q in
    get_elem? q.tags q.i >>= λ t. if reaches q.cw t.weight then some (q, some t) else rest

-- `PickOne`. The index passes every tag in `num` rounds, and the heaviest reaches any `cw`.
unfoldable pub pick_one : Pool → Option (Pool × Option RouteTag)
unfolding scan
pick_one p =
    if eqb p.num 0 || eqb p.max 0
    then some (p, none)
    else if eqb p.num 1
    then get_elem? p.tags 0 >>= (λ t. some (p, some t))
    else scan p.num p

-- `SafePool`: the pools by destination.
abbrev pub SafePool : Type 0
SafePool = Dict Pool

unfoldable pub get : String → SafePool → Option Pool
get key s = lookup key s

unfoldable pub set : String → Pool → SafePool → SafePool
set key value s = insert key value s

unfoldable pub reset : String → SafePool → SafePool
reset key s = remove key s
