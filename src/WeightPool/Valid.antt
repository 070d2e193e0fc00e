-- ===== src/WeightPool/Valid.antt =====
-- The invariant of a pool (weightpool.go): what `NewPool` sets up and every pick relies on.
use native.Mathlib.Nat.{mod-lt}
use go_chassis.Prelude.{
  ℕ, zero, suc, ◌+◌, ◌-◌, ◌≤◌, ◌<◌, ◌≡◌, refl, sym, inl, inr, arith, subst, ltb, Bool-cases, List,
  [], ◌∷◌, ◌++◌, ℤ, pos, negsuc, length, ◌⊎◌,
}
use go_chassis.Config.{RouteTag}
use go_chassis.WeightPool.{
  Pool, gcd, refresh_gcd, add_tag, add_tags, latest_tag, empty_pool, fill_up, new_pool, advance,
}
use go_chassis.WeightPool.Gcd.{Divides-trans, gcd-Divides}
use go_chassis.WeightPool.Invariant.{
  Fits, Attained, IsBuilding, IsValid, Attained-append, Attained-last, IsBuilding-append,
  IsBuilding-refresh,
}

abbrev refreshed : ℕ → RouteTag → Pool → Pool
refreshed n t p = let q = refresh_gcd n p in record q { tags = q.tags ++ t ∷ [] }

Attained-kept :
    (w : ℕ) (p : Pool) (t : RouteTag)
    → 0 < w
    → w ≤ p.max
    → (p.max ≡ 0) ⊎ Attained p.max p.tags
    → Attained p.max (p.tags ++ t ∷ [])
Attained-kept w p t wp le (inl z) = absurd (omega arith)
Attained-kept w p t wp le (inr a) = Attained-append p.max p.tags t a

refreshed-IsBuilding :
    (total w : ℕ) (p : Pool) (t : RouteTag)
    → t.weight ≡ pos w
    → 0 < w
    → IsBuilding total p
    → IsBuilding (total + w) (refreshed w t p)
unfolding refresh_gcd
refreshed-IsBuilding total w p t e wp b = elim (Bool-cases (ltb p.max w)) [
  | inl lt ↦ rw lt (
      IsBuilding-refresh total w w p t e wp (ground arith) (omega arith) (gcd-Divides p.gcd w).1
        (Attained-last w p.tags t e) b)
  | inr ge ↦ rw ge (
      IsBuilding-refresh total w p.max p t e wp (omega arith) (ground arith)
        (Divides-trans (gcd p.gcd w) p.gcd p.max (gcd-Divides p.gcd w).0 b.unit_of_max)
        (Attained-kept w p t wp (ground arith) b.heaviest) b)
]

add_tag-IsBuilding :
    (w : ℤ) (t : RouteTag) (total : ℕ) (p : Pool)
    → t.weight ≡ w
    → IsBuilding total p
    → let r = add_tag w t (total, p) in IsBuilding r.0 r.1
unfolding add_tag
add_tag-IsBuilding (pos zero) t total p e b =
    IsBuilding-append total p t (subst (Fits p.gcd p.max) (sym e) (omega arith, (0, omega arith))) b
add_tag-IsBuilding (pos (suc n)) t total p e b =
    refreshed-IsBuilding total (suc n) p t e (omega arith) b
add_tag-IsBuilding (negsuc n) t total p e b =
    IsBuilding-append total p t (subst (Fits p.gcd p.max) (sym e) tt) b

add_tags-IsBuilding :
    (ts : List RouteTag) (total : ℕ) (p : Pool)
    → IsBuilding total p
    → let r = add_tags ts (total, p) in IsBuilding r.0 r.1
unfolding add_tags
add_tags-IsBuilding [] total p b = b
add_tags-IsBuilding (t ∷ ts) total p b =
    let r = add_tag t.weight t (total, p) in
    add_tags-IsBuilding ts r.0 r.1 (add_tag-IsBuilding t.weight t total p refl b)

empty_pool-IsBuilding : IsBuilding 0 empty_pool
empty_pool-IsBuilding = record {
  fit = tt;
  heaviest = inl refl;
  unit_pos = λ h. h;
  max_pos = λ h. h;
  unit_of_max = (0, refl);
  index = refl;
  current = refl;
}

fill_up-IsBuilding :
    (total : ℕ) (p : Pool)
    → IsBuilding total p
    → (s : ℕ) × (0 < s) × IsBuilding s (fill_up (total, p))
unfolding fill_up
fill_up-IsBuilding total p b = elim (Bool-cases (ltb total 100)) [
  | inl lt ↦ rw lt (
    total + (100 - total),
    ground arith,
    refreshed-IsBuilding total (100 - total) p (latest_tag total) refl (ground arith) b,
  )
  | inr ge ↦ rw ge (total, ground arith, b)
]

IsValid-of_built :
    (s : ℕ) (p : Pool) → 0 < s → IsBuilding s p → IsValid (record p { num = length p.tags })
IsValid-of_built s p h b = record {
  counted = refl;
  in_range = omega (arith, b.index, top.1);
  below_max = rw b.current (omega arith);
  has_max = b.max_pos h;
  has_unit = b.unit_pos (b.max_pos h);
  unit_of_max = b.unit_of_max;
  heaviest = top;
  fit = b.fit;
}
  where
    attained : (p.max ≡ 0) ⊎ Attained p.max p.tags → Attained p.max p.tags
    attained (inl z) = absurd (omega (arith, b.max_pos h))
    attained (inr a) = a

    top : Attained p.max p.tags
    top = attained b.heaviest

-- `NewPool` sets up a valid pool, whatever tags it is given: also for none, and for weights that
-- are zero, negative or over 100 in sum.
pub new_pool-IsValid : (ts : List RouteTag) → IsValid (new_pool ts)
unfolding new_pool
new_pool-IsValid ts =
    let built = add_tags-IsBuilding ts 0 empty_pool empty_pool-IsBuilding in
    let r = add_tags ts (0, empty_pool) in
    let (s, h, b) = fill_up-IsBuilding r.0 r.1 built in IsValid-of_built s (fill_up r) h b

-- A new pool begins at index 0 and level 0.
pub new_pool-fresh : (ts : List RouteTag) → ((new_pool ts).i ≡ 0) × ((new_pool ts).cw ≡ 0)
unfolding new_pool
new_pool-fresh ts =
    let r = add_tags ts (0, empty_pool) in
    let (s, h, b) =
      fill_up-IsBuilding r.0 r.1 (add_tags-IsBuilding ts 0 empty_pool empty_pool-IsBuilding) in
    (b.index, b.current)

-- The head of the loop keeps a pool valid.
pub advance-IsValid : (p : Pool) → IsValid p → IsValid (advance p)
unfolding advance
advance-IsValid p v = record {
  counted = v.counted;
  in_range = mod-lt (p.i + 1) (omega arith);
  below_max = ground arith;
  has_max = v.has_max;
  has_unit = v.has_unit;
  unit_of_max = v.unit_of_max;
  heaviest = v.heaviest;
  fit = v.fit;
}
