-- ===== src/Router/Sort/Moves.antt =====
-- What the writes of `QuickSort` (core/router/router.go) do to a slice: they move its elements
-- about between two indices.
use mathlib.Core.List.{Perm, perm-cons}
use mathlib.Core.List.Perm
use go_chassis.Prelude.{
  ℕ, ◌≤◌, ◌<◌, ◌≡◌, ◌≢◌, ◌⊎◌, inl, inr, refl, ◌∙◌, subst, arith, List, ◌∷◌, Bool-cases, eqb, length,
  set, length-set, get_or-set_self, get_or-set_ne, perm-set,
}
use go_chassis.Config.{RouteRule, zero_rule}
use go_chassis.Router.Sort.{at, swap}

abbrev pub Outside : ℕ → ℕ → ℕ → Type 0
Outside lo hi k = (k < lo) ⊎ (hi < k)

-- The element at `k` stood in the range before.
abbrev pub FromRange : ℕ → ℕ → List RouteRule → List RouteRule → ℕ → Type 0
FromRange lo hi s t k = (j : ℕ) × (lo ≤ j) × (j ≤ hi) × (at t k ≡ at s j)

pub record Moved (lo hi : ℕ) (s t : List RouteRule) : Type 0 where
  pub same_length : length t ≡ length s
  pub perm : Perm t s
  pub outside : (k : ℕ) → Outside lo hi k → at t k ≡ at s k
  pub inside : (k : ℕ) → lo ≤ k → k ≤ hi → FromRange lo hi s t k

pub Moved-refl : (lo hi : ℕ) (s : List RouteRule) → Moved lo hi s s
Moved-refl lo hi s = record {
  same_length = refl;
  perm = Perm.refl s;
  outside = λ k o. refl;
  inside = λ k a b. (k, a, b, refl);
}

pub Moved-trans :
    (lo hi : ℕ) (s t u : List RouteRule) → Moved lo hi s t → Moved lo hi t u → Moved lo hi s u
Moved-trans lo hi s t u m n = record {
  same_length = n.same_length ∙ m.same_length;
  perm = Perm.trans n.perm m.perm;
  outside = λ k o. n.outside k o ∙ m.outside k o;
  inside = λ k a b.
      let (j, c, d, e) = n.inside k a b in let (i, f, g, h) = m.inside j c d in (i, f, g, e ∙ h);
}

inside_or_out : (lo hi k : ℕ) → Outside lo hi k ⊎ ((lo ≤ k) × (k ≤ hi))
inside_or_out lo hi k = grind arith

-- A larger range.
pub Moved-widen :
    (lo hi lo' hi' : ℕ) (s t : List RouteRule)
    → lo' ≤ lo
    → hi ≤ hi'
    → Moved lo hi s t
    → Moved lo' hi' s t
Moved-widen lo hi lo' hi' s t a b m = record {
  same_length = m.same_length;
  perm = m.perm;
  outside = λ k o. m.outside k (ground arith);
  inside = λ k c d. elim (inside_or_out lo hi k) [
    | inl o ↦ (k, c, d, m.outside k o)
    | inr r ↦ (let (j, e, f, g) = m.inside k r.0 r.1 in (j, omega arith, omega arith, g))
  ];
}

-- What an exchange leaves, in the two cells and elsewhere.
pub at-swap_right : (s : List RouteRule) (i j : ℕ) → j < length s → at (swap s i j) j ≡ at s i
unfolding swap
at-swap_right s i j l =
    get_or-set_self (set s i (at s j)) j (at s i) zero_rule (omega (arith, length-set s i (at s j)))

pub at-swap_ne : (s : List RouteRule) (i j k : ℕ) → i ≢ k → j ≢ k → at (swap s i j) k ≡ at s k
unfolding swap
at-swap_ne s i j k n m =
    get_or-set_ne (set s i (at s j)) j k (at s i) zero_rule m
    ∙ get_or-set_ne s i k (at s j) zero_rule n

pub at-swap_left :
    (s : List RouteRule) (i j : ℕ) → i < length s → j < length s → at (swap s i j) i ≡ at s j
unfolding swap
at-swap_left s i j h l = elim (Bool-cases (eqb i j)) [
  | inl e ↦
      subst (λ k. at (swap s i k) i ≡ at s k) (let p : i ≡ j = ground arith in p)
        (at-swap_right s i i h)
  | inr n ↦
      get_or-set_ne (set s i (at s j)) j i (at s i) zero_rule (ground arith)
      ∙ get_or-set_self s i (at s j) zero_rule h
]

perm-swap : (s : List RouteRule) (i j : ℕ) → i < length s → j < length s → Perm (swap s i j) s
unfolding swap
perm-swap s i j h l = (perm-cons (at s j)).0 (Perm.trans first (perm-set s i (at s j) zero_rule h))
  where
    t : List RouteRule
    t = set s i (at s j)

    held : at t j ≡ at s j
    held = elim (Bool-cases (eqb i j)) [
      | inl e ↦
          subst (λ k. at (set s i (at s j)) k ≡ at s j) (let p : i ≡ j = ground arith in p)
            (get_or-set_self s i (at s j) zero_rule h)
      | inr n ↦ get_or-set_ne s i j (at s j) zero_rule (ground arith)
    ]

    first : Perm (at s j ∷ set t j (at s i)) (at s i ∷ t)
    first =
        subst (λ x. Perm (x ∷ set t j (at s i)) (at s i ∷ t)) held
          (perm-set t j (at s i) zero_rule (omega (arith, length-set s i (at s j))))

pub length-swap : (s : List RouteRule) (i j : ℕ) → length (swap s i j) ≡ length s
unfolding swap
length-swap s i j = length-set (set s i (at s j)) j (at s i) ∙ length-set s i (at s j)

module _ (lo hi : ℕ) (s : List RouteRule) (i j : ℕ) (a : lo ≤ i) (b : i ≤ hi) (c : lo ≤ j)
    (d : j ≤ hi) (fits : hi < length s) where
  from_swap : (k : ℕ) → lo ≤ k → k ≤ hi → FromRange lo hi s (swap s i j) k
  from_swap k p q = elim (Bool-cases (eqb i k)) [
    | inl e ↦ (
      j,
      c,
      d,
      subst (λ x. at (swap s i j) x ≡ at s j) (let r : i ≡ k = ground arith in r)
          (at-swap_left s i j (omega arith) (omega arith)),
    )
    | inr n ↦ elim (Bool-cases (eqb j k)) [
      | inl e ↦ (
        i,
        a,
        b,
        subst (λ x. at (swap s i j) x ≡ at s i) (let r : j ≡ k = ground arith in r)
            (at-swap_right s i j (omega arith)),
      )
      | inr m ↦ (k, p, q, at-swap_ne s i j k (ground arith) (ground arith))
    ]
  ]

  pub Moved-swap : Moved lo hi s (swap s i j)
  Moved-swap = record {
    same_length = length-swap s i j;
    perm = perm-swap s i j (omega arith) (omega arith);
    outside = λ k o. at-swap_ne s i j k (ground arith) (ground arith);
    inside = from_swap;
  }

pub ruleset swap_laws = (at-swap_left, at-swap_right, at-swap_ne, length-swap)
