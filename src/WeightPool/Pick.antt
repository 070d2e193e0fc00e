-- ===== src/WeightPool/Pick.antt =====
-- `PickOne` of weightpool.go on a valid pool: its loop ends, and what it returns.
use native.Mathlib.Nat.{mod-add-mod, mod-eq_of_lt, mod-eq-sub-mod}
use go_chassis.Prelude.{
  ℕ, zero, suc, ◌+◌, ◌-◌, ◌%◌, ◌<◌, ◌≡◌, refl, ap, sym, ◌∙◌, true, false, inl, inr, arith, subst,
  eqb, leb, Bool-cases, pos, Option, some, get_or, get_elem?, get_elem?-get_or, ◌||◌, ◌>>=◌,
  if◌then◌else◌,
}
use go_chassis.Config.{RouteTag, zero_tag}
use go_chassis.WeightPool.{Pool, reaches, advance, scan, pick_one}
use go_chassis.WeightPool.Invariant.{IsValid}
use go_chassis.WeightPool.Valid.{advance-IsValid}

-- `t`, at the index of the new state `q`, may be returned by a call that began in `p`.
pub record IsPick (p q : Pool) (t : RouteTag) : Type 0 where
  pub valid : IsValid q
  pub same_tags : q.tags ≡ p.tags
  pub at_index : get_elem? q.tags q.i ≡ some t
  pub heavy : reaches q.cw t.weight ≡ true

abbrev pub Picks : Option (Pool × Option RouteTag) → Pool → Type 0
Picks r p = (q : Pool) × (t : RouteTag) × (r ≡ some (q, some t)) × IsPick p q t

abbrev pub here : Pool → RouteTag
here p = get_or p.tags p.i zero_tag

at_here : (p : Pool) → IsValid p → get_elem? p.tags p.i ≡ some (here p)
at_here p v = get_elem?-get_or p.tags p.i zero_tag (omega (arith, v.counted, v.in_range))

tags-advance : (p : Pool) → (advance p).tags ≡ p.tags
unfolding advance
tags-advance p = refl

pub scan-suc :
    (fuel : ℕ) (p : Pool)
    → IsValid p
    → scan (suc fuel) p ≡ (
        if reaches (advance p).cw (here (advance p)).weight
        then some (advance p, some (here (advance p)))
        else scan fuel (advance p))
unfolding scan
scan-suc fuel p v = rw (at_here (advance p) (advance-IsValid p v)) refl

i-advance : (p : Pool) → (advance p).i ≡ (p.i + 1) % p.num
unfolding advance
i-advance p = refl

num-advance : (p : Pool) → (advance p).num ≡ p.num
unfolding advance
num-advance p = refl

IsPick-advance :
    (p : Pool)
    → IsValid p
    → reaches (advance p).cw (here (advance p)).weight ≡ true
    → IsPick p (advance p) (here (advance p))
IsPick-advance p v hit = record {
  valid = advance-IsValid p v;
  same_tags = tags-advance p;
  at_index = at_here (advance p) (advance-IsValid p v);
  heavy = hit;
}

-- The heaviest tag reaches every `cw` of a valid pool.
max-reaches :
    (p : Pool) → IsValid p → (here p).weight ≡ pos p.max → reaches p.cw (here p).weight ≡ true
max-reaches p v e = rw e (ground (arith, v.below_max))

advance-Picks : (p : Pool) (r : Option (Pool × Option RouteTag)) → Picks r (advance p) → Picks r p
advance-Picks p r (q, t, e, k) = (
  q,
  t,
  e,
  record {
    valid = k.valid;
    same_tags = k.same_tags ∙ tags-advance p;
    at_index = k.at_index;
    heavy = k.heavy;
  },
)

-- One more place to go: the index moves on, modulo `num`.
next_at : (i k n m : ℕ) → (i + suc (suc k)) % n ≡ m → ((i + 1) % n + suc k) % n ≡ m
next_at i k n m e =
    mod-add-mod (i + 1) n (suc k)
    ∙ ap (λ (x : ℕ). x % n) (let s : i + 1 + suc k ≡ i + suc (suc k) = omega arith in s)
    ∙ e

-- Within `k + 1` rounds the loop returns, if the heaviest tag, `m`, is `k + 1` places on.
scan_within :
    (k fuel m : ℕ) (p : Pool)
    → IsValid p
    → (get_or p.tags m zero_tag).weight ≡ pos p.max
    → (p.i + suc k) % p.num ≡ m
    → k < fuel
    → Picks (scan fuel p) p
scan_within k zero m p v top at lt = elim lt [ ]
scan_within zero (suc fuel) m p v top at lt =
    let w = advance-IsValid p v in
    let hit =
      max-reaches (advance p) w (
        unfold advance in
        subst (λ j. (get_or p.tags j zero_tag).weight ≡ pos p.max) (sym at) top) in
    (advance p, here (advance p), scan-suc fuel p v ∙ rw hit refl, IsPick-advance p v hit)
scan_within (suc k) (suc fuel) m p v top at lt =
    let w = advance-IsValid p v in
    elim (Bool-cases (reaches (advance p).cw (here (advance p)).weight)) [
      | inl hit ↦
          (advance p, here (advance p), scan-suc fuel p v ∙ rw hit refl, IsPick-advance p v hit)
      | inr miss ↦
          rw (scan-suc fuel p v, miss)
            (advance-Picks p (scan fuel (advance p)) (
              scan_within k fuel m (advance p) w (unfold advance in top)
                (unfold advance in next_at p.i k p.num m at) (omega arith)))
    ]

-- How far the heaviest tag, `m`, is from index `i`.
ahead : (i n m : ℕ) → i < n → m < n → (k : ℕ) × ((i + suc k) % n ≡ m) × (k < n)
ahead i n m h l = elim (Bool-cases (leb m i)) [
  | inl le ↦
      let s : i + suc (m + n - suc i) ≡ m + n = ground arith in
      let d : (m + n) % n ≡ m =
        mod-eq-sub-mod (omega arith)
        ∙ ap (λ (x : ℕ). x % n) (let r : m + n - n ≡ m = omega arith in r)
        ∙ mod-eq_of_lt l in
      (m + n - suc i, ap (λ (x : ℕ). x % n) s ∙ d, ground arith)
  | inr gt ↦
      let s : i + suc (m - suc i) ≡ m = ground arith in
      (m - suc i, ap (λ (x : ℕ). x % n) s ∙ mod-eq_of_lt l, ground arith)
]

only_tag :
    (p : Pool) → IsValid p → p.num ≡ 1 → Picks (get_elem? p.tags 0 >>= (λ t. some (p, some t))) p
only_tag p v e = (
  p,
  here p,
  rw at_zero refl,
  record {
    valid = v;
    same_tags = refl;
    at_index = at_here p v;
    heavy =
        max-reaches p v
          (subst (λ j. (get_or p.tags j zero_tag).weight ≡ pos p.max) m_is_i v.heaviest.2);
  },
)
  where
    m_is_i : v.heaviest.0 ≡ p.i
    m_is_i = omega (arith, v.in_range, v.counted, v.heaviest.1)

    at_zero : get_elem? p.tags 0 ≡ some (here p)
    at_zero =
        subst (λ j. get_elem? p.tags j ≡ some (here p))
          (let z : p.i ≡ 0 = omega (arith, v.in_range) in z) (at_here p v)

-- `num` rounds of the loop are enough.
pub scan_total : (p : Pool) → IsValid p → Picks (scan p.num p) p
scan_total p v =
    let (k, at, lt) =
      ahead p.i p.num v.heaviest.0 v.in_range (omega (arith, v.counted, v.heaviest.1)) in
    scan_within k p.num v.heaviest.0 p v v.heaviest.2 at lt

-- `PickOne` on a valid pool returns: the loop ends and no index is out of range. The pool stays
-- valid with the same tags, and the tag returned is the one at the new index, whose weight is at
-- least the new `cw`.
pub pick_one-Picks : (p : Pool) → IsValid p → Picks (pick_one p) p
unfolding pick_one
pick_one-Picks p v = elim (Bool-cases (eqb p.num 1)) [
  | inl one ↦ rw (busy, one) (only_tag p v (ground arith))
  | inr many ↦ rw (busy, many) (scan_total p v)
]
  where
    busy : (eqb p.num 0 || eqb p.max 0) ≡ false
    busy = ground (arith, v.in_range, v.has_max)
