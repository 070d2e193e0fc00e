-- ===== src/Router/Sort/Sorted.antt =====
-- `QuickSort` of core/router/router.go sorts: it ends, keeps the rules, and orders them by falling
-- precedence.
use mathlib.Core.List.{Perm}
use go_chassis.Prelude.{
  ℕ, zero, suc, ◌+◌, ◌-◌, ◌≤◌, ◌<◌, ◌≡◌, inl, inr, refl, ◌∙◌, ap, subst, arith, List, some, true,
  false, Bool-cases, eqb, ltb, leb, length, ℤ, ◌≤ℤ◌,
}
use go_chassis.Config.{RouteRule}
use go_chassis.Router.Sort.{at, prec, swap, place, partition, quick_sort, sort_slice}
use go_chassis.Router.Sort.Moves.{
  Moved, Moved-refl, Moved-trans, Moved-widen, Moved-swap, at-swap_left, at-swap_right, at-swap_ne,
}
use go_chassis.Router.Sort.Partition.{Split, partition_total}

-- Between two indices the precedence never rises.
abbrev pub IsSorted : List RouteRule → ℕ → ℕ → Type 0
IsSorted s left right = (a c : ℕ) → left ≤ a → a ≤ c → c ≤ right → prec s c ≤ℤ prec s a

-- The base goes between the two parts.
record Placed (s : List RouteRule) (left right m : ℕ) (b : ℤ) : Type 0 where
  before : (a : ℕ) → left ≤ a → a < m → b ≤ℤ prec s a
  here : prec s m ≡ b
  after : (c : ℕ) → m < c → c ≤ right → prec s c ≤ℤ b

place-swap :
    (t : List RouteRule) (left m : ℕ) (base : RouteRule)
    → at t left ≡ base
    → place t left m base ≡ swap t left m
unfolding place swap
place-swap t left m base e = rw e refl

module _ (t : List RouteRule) (left right m : ℕ) (b : ℤ) (lm : left ≤ m) (mr : m ≤ right)
    (fits : right < length t) (sp : Split t left right m m b) (base : prec t left ≡ b) where
  swap-Placed : Placed (swap t left m) left right m b
  swap-Placed = record {
    before = λ a p q. elim (Bool-cases (eqb left a)) [
      | inl e ↦
          subst (λ x. b ≤ℤ prec (swap t left m) x) (let r : left ≡ a = ground arith in r)
            (rw
              (ap (λ (r : RouteRule). r.precedence)
                (at-swap_left t left m (omega arith) (omega arith)))
              (sp.upper m lm (omega arith)))
      | inr n ↦
          rw
            (ap (λ (r : RouteRule). r.precedence)
              (at-swap_ne t left m a (ground arith) (omega arith)))
            (sp.upper a p (omega arith))
    ];
    here = ap (λ (r : RouteRule). r.precedence) (at-swap_right t left m (omega arith)) ∙ base;
    after = λ c p q.
        rw
          (ap (λ (r : RouteRule). r.precedence) (at-swap_ne t left m c (omega arith) (omega arith)))
          (sp.lower c p q);
  }

-- Sorting the part before the base and the part behind it keeps the base between them.
before-Placed :
    (s t : List RouteRule) (left right m : ℕ) (b : ℤ)
    → left < m
    → Placed s left right m b
    → Moved left (m - 1) s t
    → Placed t left right m b
before-Placed s t left right m b h p mv = record {
  before = λ a c d.
      let (j, e, f, g) = mv.inside a c (omega arith) in
      rw (ap (λ (r : RouteRule). r.precedence) g) (p.before j e (omega arith));
  here = ap (λ (r : RouteRule). r.precedence) (mv.outside m (inr (omega arith))) ∙ p.here;
  after = λ c d e.
      rw (ap (λ (r : RouteRule). r.precedence) (mv.outside c (inr (omega arith)))) (p.after c d e);
}

after-Placed :
    (s t : List RouteRule) (left right m : ℕ) (b : ℤ)
    → Placed s left right m b
    → Moved (m + 1) right s t
    → Placed t left right m b
after-Placed s t left right m b p mv = record {
  before = λ a c d.
      rw (ap (λ (r : RouteRule). r.precedence) (mv.outside a (inl (omega arith)))) (p.before a c d);
  here = ap (λ (r : RouteRule). r.precedence) (mv.outside m (inl (omega arith))) ∙ p.here;
  after = λ c d e.
      let (j, f, g, h) = mv.inside c (omega arith) e in
      rw (ap (λ (r : RouteRule). r.precedence) h) (p.after j (omega arith) g);
}

-- Two sorted parts with the base between them are sorted.
join-IsSorted :
    (s : List RouteRule) (left right m : ℕ) (b : ℤ)
    → Placed s left right m b
    → ((a c : ℕ) → left ≤ a → a ≤ c → c < m → prec s c ≤ℤ prec s a)
    → IsSorted s (m + 1) right
    → IsSorted s left right
join-IsSorted s left right m b p lo hi a c x y z = elim (Bool-cases (ltb c m)) [
  | inl cm ↦ lo a c x y (ground arith)
  | inr mc ↦ elim (Bool-cases (leb a m)) [
    | inl am ↦ omega (arith, below c (ground arith) z, above a x (ground arith))
    | inr ma ↦ hi a c (ground arith) y z
  ]
]
  where
    below : (k : ℕ) → m ≤ k → k ≤ right → prec s k ≤ℤ b
    below k q r = elim (Bool-cases (eqb m k)) [
      | inl e ↦
          subst (λ i. prec s i ≤ℤ b) (let w : m ≡ k = ground arith in w) (rw p.here (omega arith))
      | inr n ↦ p.after k (ground arith) r
    ]

    above : (k : ℕ) → left ≤ k → k ≤ m → b ≤ℤ prec s k
    above k q r = elim (Bool-cases (eqb m k)) [
      | inl e ↦
          subst (λ i. b ≤ℤ prec s i) (let w : m ≡ k = ground arith in w) (rw p.here (omega arith))
      | inr n ↦ p.before k q (ground arith)
    ]

abbrev Sorts : ℕ → ℕ → ℕ → List RouteRule → Type 0
Sorts fuel left right s =
    (t : List RouteRule) × (quick_sort fuel left right s ≡ some t)
    × Moved left right s t
    × IsSorted t left right

quick_sort-small :
    (fuel left right : ℕ) (s : List RouteRule)
    → right ≤ left
    → quick_sort fuel left right s ≡ some s
unfolding quick_sort
quick_sort-small zero left right s h = let e : leb right left ≡ true = ground arith in rw e refl
quick_sort-small (suc fuel) left right s h =
    let e : leb right left ≡ true = ground arith in rw e refl

small-IsSorted : (s : List RouteRule) (left right : ℕ) → right ≤ left → IsSorted s left right
small-IsSorted s left right h a c x y z =
    subst (λ k. prec s k ≤ℤ prec s a) (let e : a ≡ c = omega arith in e) (omega arith)

-- What the first of the two calls leaves for the second.
LeftDone : ℕ → ℕ → ℕ → ℕ → ℤ → List RouteRule → Type 0
LeftDone fuel left right m b s =
    (t : List RouteRule) × (quick_sort fuel left (m - 1) s ≡ some t)
    × Placed t left right m b
    × Moved left right s t
    × ((a c : ℕ) → left ≤ a → a ≤ c → c < m → prec t c ≤ℤ prec t a)

left_part :
    (fuel left right m : ℕ) (b : ℤ) (s : List RouteRule)
    → left ≤ m
    → m ≤ right
    → Placed s left right m b
    → Sorts fuel left (m - 1) s
    → LeftDone fuel left right m b s
unfolding LeftDone
left_part fuel left right m b s lm mr p (t, e, mv, sorted) = elim (Bool-cases (ltb left m)) [
  | inl lt ↦ (
    t,
    e,
    before-Placed s t left right m b (ground arith) p mv,
    Moved-widen left (m - 1) left right s t (omega arith) (omega arith) mv,
    λ a c x y z. sorted a c x y (omega arith),
  )
  | inr ge ↦ (
    s,
    quick_sort-small fuel left (m - 1) s (ground arith),
    p,
    Moved-refl left right s,
    λ a c x y z. absurd (ground arith),
  )
]

right_part :
    (fuel left right m : ℕ) (b : ℤ) (s t : List RouteRule)
    → left ≤ m
    → Placed s left right m b
    → ((a c : ℕ) → left ≤ a → a ≤ c → c < m → prec s c ≤ℤ prec s a)
    → Moved (m + 1) right s t
    → IsSorted t (m + 1) right
    → Moved left right s t × IsSorted t left right
right_part fuel left right m b s t lm p lo mv hi = (
  Moved-widen (m + 1) right left right s t (omega arith) (omega arith) mv,
  join-IsSorted t left right m b (after-Placed s t left right m b p mv)
      (λ a c x y z.
        rw
          (
            ap (λ (r : RouteRule). r.precedence) (mv.outside c (inl (omega arith))),
            ap (λ (r : RouteRule). r.precedence) (mv.outside a (inl (omega arith))),
          )
          (lo a c x y z))
      hi,
)

first-Split :
    (s : List RouteRule) (left right : ℕ) → Split s left right left right (at s left).precedence
first-Split s left right = record {
  upper = λ a p q.
      subst (λ k. prec s left ≤ℤ prec s k) (let e : left ≡ a = omega arith in e) (omega arith);
  lower = λ c p q. absurd (omega arith);
}

-- One level of the recursion, from the results of its parts.
quick_sort-step :
    (fuel left right m : ℕ) (s t u v w : List RouteRule)
    → leb right left ≡ false
    → partition (right - left) s (at s left).precedence left right ≡ some (t, m)
    → place t left m (at s left) ≡ u
    → quick_sort fuel left (m - 1) u ≡ some v
    → quick_sort fuel (m + 1) right v ≡ some w
    → quick_sort (suc fuel) left right s ≡ some w
unfolding quick_sort
quick_sort-step fuel left right m s t u v w large e p f g = rw (large, e) (rw p (rw f g))

-- `QuickSort` of a range ends within `right - left` levels, moves elements of the range only, and
-- leaves it sorted.
pub quick_sort_total :
    (fuel left right : ℕ) (s : List RouteRule)
    → (left < right → right < length s)
    → right - left ≤ fuel
    → Sorts fuel left right s
unfolding LeftDone
quick_sort_total zero left right s fits enough = (
  s,
  quick_sort-small zero left right s (omega arith),
  Moved-refl left right s,
  small-IsSorted s left right (omega arith),
)
quick_sort_total (suc fuel) left right s fits enough = elim (Bool-cases (leb right left)) [
  | inl small ↦ (
    s,
    quick_sort-small (suc fuel) left right s (ground arith),
    Moved-refl left right s,
    small-IsSorted s left right (ground arith),
  )
  | inr large ↦
      let lt : left < right = ground arith in
      let base = at s left in
      let b = base.precedence in
      let (t, m, e, lm, mr, split, mv) =
        partition_total (right - left) s left right left right b (omega arith) (omega arith)
          (omega arith) (fits lt) (omega arith) (first-Split s left right) in
      let first : at t left ≡ base = mv.outside left (inl (omega arith)) in
      let fits' : right < length t = omega (arith, mv.same_length, fits lt) in
      let u = swap t left m in
      let moved = Moved-swap left right t left m (omega arith) (omega arith) lm mr fits' in
      let placed =
        swap-Placed t left right m b lm mr fits' split
          (ap (λ (r : RouteRule). r.precedence) first) in
      let (v, f, p, mv1, lo) = left_part fuel left right m b u lm mr placed (
        quick_sort_total fuel left (m - 1) u (λ h. omega (arith, moved.same_length))
          (omega arith)) in
      let (w, g, mv2, hi) =
        quick_sort_total fuel (m + 1) right v
          (λ h. omega (arith, moved.same_length, mv1.same_length)) (omega arith) in
      let (mv3, sorted) = right_part fuel left right m b v w lm p lo mv2 hi in
      let all =
        Moved-trans left right s t w
          (Moved-widen (suc left) right left right s t (omega arith) (omega arith) mv)
          (Moved-trans left right t u w moved (Moved-trans left right u v w mv1 mv3)) in
      (
        w,
        quick_sort-step fuel left right m s t u v w large e (place-swap t left m base first) f g,
        all,
        sorted,
      )
]

-- `SortRules` sorts any slice of rules: it ends, gives back the same rules in another order, and
-- no rule stands behind one of lower precedence.
pub sort_slice-IsSorted :
    (slice : List RouteRule)
    → (t : List RouteRule) × (sort_slice slice ≡ some t)
      × Perm t slice
      × (length t ≡ length slice)
      × IsSorted t 0 (length slice - 1)
unfolding sort_slice
sort_slice-IsSorted slice =
    let (t, e, mv, sorted) =
      quick_sort_total (length slice) 0 (length slice - 1) slice (λ h. omega arith) (omega arith) in
    (t, e, mv.perm, mv.same_length, sorted)
