-- ===== src/Router/Sort/Partition.antt =====
-- The loop of `QuickSort` (core/router/router.go) that splits a range by a precedence.
use go_chassis.Prelude.{
  ℕ, zero, suc, ◌+◌, ◌-◌, ◌≤◌, ◌<◌, ◌≡◌, ◌≢◌, ◌⊎◌, inl, inr, refl, sym, ap, subst, arith, List,
  some, true, Bool-cases, eqb, ltb, leb, length, ℤ, ◌≤ℤ◌, ◌<ℤ◌, leb_ℤ, ◌&&◌, if◌then◌else◌,
}
use go_chassis.Config.{RouteRule}
use go_chassis.Router.Sort.{prec, down, up, swap, partition}
use go_chassis.Router.Sort.Moves.{
  Moved, Moved-refl, Moved-trans, Moved-swap, at-swap_left, at-swap_ne,
}

-- Where the first inner loop stops.
record Stopped (s : List RouteRule) (b : ℤ) (i j k : ℕ) : Type 0 where
  low : i ≤ k
  high : k ≤ j
  passed : (c : ℕ) → k < c → c ≤ j → prec s c ≤ℤ b
  stop : (k ≡ i) ⊎ (b <ℤ prec s k)

down-Stopped : (s : List RouteRule) (b : ℤ) (i j : ℕ) → i ≤ j → Stopped s b i j (down s b i j)
unfolding down
down-Stopped s b i zero h = record {
  low = h;
  high = omega arith;
  passed = λ c p q. absurd (omega arith);
  stop = inl (omega arith);
}
down-Stopped s b i (suc j) h = elim (Bool-cases (leb_ℤ (prec s (suc j)) b && ltb i (suc j))) [
  | inl go ↦
      let ih = down-Stopped s b i j (ground arith) in
      rw go (record {
        low = ih.low;
        high = omega (arith, ih.high);
        passed = λ c p q. elim (Bool-cases (eqb c (suc j))) [
          | inl e ↦
              subst (λ x. prec s x ≤ℤ b) (let r : suc j ≡ c = ground arith in r) (ground arith)
          | inr n ↦ ih.passed c p (ground arith)
        ];
        stop = ih.stop;
      })
  | inr halt ↦ rw halt (record {
    low = h;
    high = omega arith;
    passed = λ c p q. absurd (omega arith);
    stop = ground arith;
  })
]

-- Where the second inner loop stops.
record Risen (s : List RouteRule) (b : ℤ) (i j k : ℕ) : Type 0 where
  low : i ≤ k
  high : k ≤ j
  passed : (a : ℕ) → i ≤ a → a < k → b ≤ℤ prec s a
  stop : (k ≡ j) ⊎ (prec s k <ℤ b)

up-Risen : (s : List RouteRule) (b : ℤ) (j gap i : ℕ) → i + gap ≡ j → Risen s b i j (up s b j gap i)
unfolding up
up-Risen s b j zero i h = record {
  low = omega arith;
  high = omega arith;
  passed = λ a p q. absurd (omega arith);
  stop = inl (omega arith);
}
up-Risen s b j (suc gap) i h = elim (Bool-cases (leb_ℤ b (prec s i) && ltb i j)) [
  | inl go ↦
      let ih = up-Risen s b j gap (suc i) (omega arith) in
      rw go (record {
        low = omega (arith, ih.low);
        high = ih.high;
        passed = λ a p q. elim (Bool-cases (eqb a i)) [
          | inl e ↦ subst (λ x. b ≤ℤ prec s x) (let r : i ≡ a = ground arith in r) (ground arith)
          | inr n ↦ ih.passed a (ground arith) q
        ];
        stop = ih.stop;
      })
  | inr halt ↦ rw halt (record {
    low = omega arith;
    high = omega arith;
    passed = λ a p q. absurd (omega arith);
    stop = ground arith;
  })
]

-- Up to `i` the rules come before the base, after `j` they come behind it.
pub record Split (s : List RouteRule) (left right i j : ℕ) (b : ℤ) : Type 0 where
  pub upper : (a : ℕ) → left ≤ a → a ≤ i → b ≤ℤ prec s a
  pub lower : (c : ℕ) → j < c → c ≤ right → prec s c ≤ℤ b

-- The indices after one round.
record Met (s : List RouteRule) (left right i j : ℕ) (b : ℤ) (t : List RouteRule) (i' j' : ℕ)
    : Type 0 where
  starts : i ≤ i'
  ordered : i' ≤ j'
  ends : j' ≤ j
  progress : suc (j' - i') ≤ j - i
  split : Split t left right i' j' b
  moved : Moved (suc left) right s t

module _ (s : List RouteRule) (left right i j : ℕ) (b : ℤ) (li : left ≤ i) (ij : i < j)
    (jr : j ≤ right) (fits : right < length s) (sp : Split s left right i j b) where
  j' : ℕ
  j' = down s b i j

  i' : ℕ
  unfolding j'
  i' = up s b j' (j' - i) i

  d : Stopped s b i j j'
  unfolding j'
  d = down-Stopped s b i j (omega arith)

  u : Risen s b i j' i'
  unfolding i'
  u = up-Risen s b j' (j' - i) i (omega (arith, d.low))

  next : List RouteRule
  next = if ltb i' j' then swap s i' j' else s

  -- With a gap left the second loop passes `i` itself.
  raised : i < j' → i < i'
  raised h = elim (Bool-cases (eqb i' i)) [
    | inl e ↦
        let same : i ≡ i' = ground arith in
        let above : b ≤ℤ prec s i' =
          subst (λ x. b ≤ℤ prec s x) same (sp.upper i li (omega arith)) in
        elim u.stop [ inl p ↦ omega (arith, same) | inr lt ↦ absurd (omega arith) ]
    | inr n ↦ ground (arith, u.low)
  ]

  lower_now : (c : ℕ) → j' < c → c ≤ right → prec s c ≤ℤ b
  lower_now c p q = elim (Bool-cases (leb c j)) [
    | inl le ↦ d.passed c p (ground arith)
    | inr gt ↦ sp.lower c (ground arith) q
  ]

  upper_below : (a : ℕ) → left ≤ a → a < i' → b ≤ℤ prec s a
  upper_below a p q = elim (Bool-cases (leb a i)) [
    | inl le ↦ sp.upper a p (ground arith)
    | inr gt ↦ u.passed a (ground arith) q
  ]

  prec-swap_ne : (k : ℕ) → i' ≢ k → j' ≢ k → prec (swap s i' j') k ≡ prec s k
  prec-swap_ne k n m = ap (λ (r : RouteRule). r.precedence) (at-swap_ne s i' j' k n m)

  prec-swap_left : i' < j' → prec (swap s i' j') i' ≡ prec s j'
  prec-swap_left lt =
      ap (λ (r : RouteRule). r.precedence)
        (at-swap_left s i' j' (omega (arith, d.high)) (omega (arith, d.high)))

  j'_above : i < j' → b <ℤ prec s j'
  j'_above h = elim d.stop [ inl e ↦ absurd (omega arith) | inr lt ↦ lt ]

  Met-swap : i' < j' → Met s left right i j b (swap s i' j') i' j'
  Met-swap lt = record {
    starts = u.low;
    ordered = u.high;
    ends = d.high;
    progress = omega (arith, raised (omega (arith, u.low)), d.high, u.low);
    split = record {
      upper = λ a p q. elim (Bool-cases (eqb a i')) [
        | inl e ↦
            let r : i' ≡ a = ground arith in
            subst (λ x. b ≤ℤ prec (swap s i' j') x) r
              (rw (prec-swap_left lt) (omega (arith, j'_above (omega (arith, u.low)))))
        | inr n ↦ rw (prec-swap_ne a (ground arith) (ground arith)) (upper_below a p (ground arith))
      ];
      lower = λ c p q. rw (prec-swap_ne c (omega arith) (omega arith)) (lower_now c p q);
    };
    moved =
        Moved-swap (suc left) right s i' j' (omega (arith, raised (omega (arith, u.low))))
          (omega (arith, d.high)) (omega (arith, raised (omega (arith, u.low))))
          (omega (arith, d.high)) fits;
  }

  Met-stay : i' ≡ j' → Met s left right i j b s i' j'
  Met-stay e = record {
    starts = u.low;
    ordered = u.high;
    ends = d.high;
    progress = omega arith;
    split = record {
      upper = λ a p q. elim (Bool-cases (eqb a i')) [
        | inl f ↦
            let r : j' ≡ a = ground arith in
            subst (λ x. b ≤ℤ prec s x) r
              (elim d.stop [
                | inl g ↦ subst (λ x. b ≤ℤ prec s x) (sym g) (sp.upper i li (omega arith))
                | inr lt ↦ omega arith
              ])
        | inr n ↦ upper_below a p (ground arith)
      ];
      lower = lower_now;
    };
    moved = Moved-refl (suc left) right s;
  }

  met : Met s left right i j b next i' j'
  unfolding next
  met = elim (Bool-cases (ltb i' j')) [
    | inl lt ↦ rw lt (Met-swap (ground arith))
    | inr ge ↦ rw ge (Met-stay (ground (arith, u.high)))
  ]

-- The loop ends within `j - i` rounds, with the range split where the indices meet.
pub partition_total :
    (fuel : ℕ) (s : List RouteRule) (left right i j : ℕ) (b : ℤ)
    → left ≤ i
    → i ≤ j
    → j ≤ right
    → right < length s
    → j - i ≤ fuel
    → Split s left right i j b
    → (t : List RouteRule) × (m : ℕ) × (partition fuel s b i j ≡ some (t, m))
      × (left ≤ m)
      × (m ≤ right)
      × Split t left right m m b
      × Moved (suc left) right s t
unfolding partition next i' j'
partition_total zero s left right i j b li ij jr fits enough sp =
    let same : i ≡ j = omega arith in
    let met : eqb i j ≡ true = ground arith in
    (
      s,
      i,
      rw met refl,
      li,
      omega arith,
      subst (λ x. Split s left right i x b) (sym same) sp,
      Moved-refl (suc left) right s,
    )
partition_total (suc fuel) s left right i j b li ij jr fits enough sp =
    elim (Bool-cases (eqb i j)) [
      | inl e ↦
          let same : i ≡ j = ground arith in
          (
            s,
            i,
            rw e refl,
            li,
            omega arith,
            subst (λ x. Split s left right i x b) (sym same) sp,
            Moved-refl (suc left) right s,
          )
      | inr n ↦
          let lt : i < j = ground arith in
          let k = j' s left right i j b li lt jr fits sp in
          let h = i' s left right i j b li lt jr fits sp in
          let r = met s left right i j b li lt jr fits sp in
          let s' = next s left right i j b li lt jr fits sp in
          let (t, m, e, lm, mr, split, moved) =
            partition_total fuel s' left right h k b (omega (arith, r.starts)) r.ordered
              (omega (arith, r.ends)) (omega (arith, r.moved.same_length))
              (omega (arith, r.progress)) r.split in
          (t, m, rw n e, lm, mr, split, Moved-trans (suc left) right s s' t r.moved moved)
    ]
