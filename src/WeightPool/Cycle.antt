-- ===== src/WeightPool/Cycle.antt =====
-- Whole cycles of the weighted round robin of weightpool.go.
use native.Mathlib.Nat.{mul-div_cancel, suc-mul, mul-le-mul_right, add_comm}
use Prim.Native.Nat.{min}
use go_chassis.Prelude.{
  ℕ, zero, suc, ◌+◌, ◌*◌, ◌/◌, ◌≤◌, ◌<◌, ◌≡◌, refl, ap, sym, ◌∙◌, true, inl, inr, arith, leb,
  leb→le, Bool-cases, List, [], ◌∷◌, some, length, get_or, ℤ, pos, negsuc, if◌then◌else◌,
}
use go_chassis.Config.{RouteTag, zero_tag}
use go_chassis.WeightPool.{Pool, reaches}
use go_chassis.WeightPool.Gcd.{Divides}
use go_chassis.WeightPool.Invariant.{IsValid, Fits, AllFit}
use go_chassis.WeightPool.Rounds.{rounds, trace, calls, calls-trace}
use go_chassis.WeightPool.Share.{
  count, count-append, weight_at, share, one_if, at, next_level, trace-add, sweep, sweeps,
  sweeps_neg, level_counts,
}

-- The next round begins a cycle: the index wraps and the level goes back to `max`.
pub record IsCycleStart (p : Pool) : Type 0 where
  pub wraps : p.i + 1 ≡ p.num
  pub lowest : p.cw ≤ p.gcd

fit_at :
    (g m : ℕ) (ts : List RouteTag) (j : ℕ)
    → AllFit g m ts
    → j < length ts
    → Fits g m (get_or ts j zero_tag).weight
fit_at g m [] j f h = elim h [ ]
fit_at g m (t ∷ ts) zero f h = f.0
fit_at g m (t ∷ ts) (suc j) f h = fit_at g m ts j f.1 (omega arith)

-- The first sweep of a cycle is at the level `max`.
first_level : (p : Pool) → IsCycleStart p → next_level p ≡ p.max
first_level p s = let low : leb p.cw p.gcd ≡ true = ground (arith, s.lowest) in rw low refl

-- A weight of `k` units counts at the first level, the `suc l`-th, and at the `l` below it.
units :
    (m w l k g : ℕ) → 0 < g → m ≡ suc l * g → w ≡ k * g → w ≤ m → one_if (leb m w) + min l k ≡ w / g
units m w l k g h e f le = rw (e, f) (level_counts l k g h ∙ short ∙ sym (mul-div_cancel k h))
  where
    few : k ≤ suc l
    few = elim (Bool-cases (leb k (suc l))) [
      | inl b ↦ leb→le k (suc l) b
      | inr b ↦
          let up : suc (suc l) * g ≤ k * g = mul-le-mul_right g (ground arith) in
          absurd (omega (arith, up, suc-mul (suc l) g))
    ]

    short : min (suc l) k ≡ k
    short = omega (arith, few)

module _ (p : Pool) (v : IsValid p) (s : IsCycleStart p) (l : ℕ) (top : p.max ≡ suc l * p.gcd)
    (j : ℕ) (lt : j < p.num) where
  after_first : rounds p.num p ≡ at p p.i p.max
  after_first = (sweep j p s.wraps lt).1 ∙ ap (at p p.i) (first_level p s)

  in_first : count j (trace p.num p) ≡ one_if (reaches p.max (weight_at p j))
  in_first = (sweep j p s.wraps lt).0 ∙ rw (first_level p s) refl

  split_first :
      count j (trace (suc l * p.num) p)
      ≡ count j (trace p.num p) + count j (trace (l * p.num) (at p p.i p.max))
  split_first =
      rw (suc-mul, add_comm, trace-add)
        (count-append j (trace p.num p) (trace (l * p.num) (rounds p.num p)) ∙ rw after_first refl)

  cycle_count :
      (w : ℤ)
      → weight_at p j ≡ w
      → Fits p.gcd p.max w
      → count j (trace (suc l * p.num) p) ≡ share p.gcd w
  cycle_count (pos w) e (le, (k, m)) =
      split_first
      ∙ rw (in_first, sweeps j l k (at p p.i p.max) s.wraps lt v.has_unit top (e ∙ ap pos m), e)
          (units p.max w l k p.gcd v.has_unit top m le)
  cycle_count (negsuc n) e f =
      split_first ∙ rw (in_first, sweeps_neg j l n (at p p.i p.max) s.wraps lt e, e) refl

-- The rounds of one cycle, and how often it returns each tag.
cycle_rounds :
    (p : Pool)
    → IsValid p
    → IsCycleStart p
    → (n : ℕ) × ((j : ℕ) → j < p.num → count j (trace n p) ≡ share p.gcd (weight_at p j))
cycle_rounds p v s = levels v.unit_of_max
  where
    levels :
        Divides p.gcd p.max
        → (n : ℕ) × ((j : ℕ) → j < p.num → count j (trace n p) ≡ share p.gcd (weight_at p j))
    levels (zero, e) = absurd (omega (arith, v.has_max))
    levels (suc l, e) = (
      suc l * p.num,
      λ j lt.
          cycle_count p v s l e j lt (weight_at p j) refl
            (fit_at p.gcd p.max p.tags j v.fit (omega (arith, v.counted))),
    )

-- From the start of a cycle, with two tags at least, there is a number of calls of `PickOne` that
-- all return, and that return each tag as often as its weight holds the common divisor: tags of
-- weight zero or less not at all.
pub cycle_shares :
    (p : Pool)
    → IsValid p
    → 1 < p.num
    → IsCycleStart p
    → (ks : List ℕ) × (calls (length ks) p ≡ some ks)
      × ((j : ℕ) → j < p.num → count j ks ≡ share p.gcd (weight_at p j))
cycle_shares p v many s =
    let (n, shares) = cycle_rounds p v s in (trace n p, calls-trace n p v many, shares)

-- The calls of a tag before the first cycle: one for each tag after the first, unless its weight
-- is negative.
abbrev pub early : ℕ → ℤ → ℕ
early j w = if leb j 0 then 0 else one_if (reaches 0 w)
