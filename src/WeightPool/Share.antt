-- ===== src/WeightPool/Share.antt =====
-- The shares of weightpool.go: over one cycle of the weighted round robin every tag is returned
-- as often as its weight holds the common divisor.
use native.Mathlib.Nat.{
  mod-eq_of_lt, add-zero, zero-add, suc-add, mod_self, suc-mul, add_comm, mul-le-mul_right,
}
use go_chassis.Prelude.{
  ℕ, zero, suc, ◌+◌, ◌-◌, ◌*◌, ◌/◌, ◌%◌, ◌≤◌, ◌<◌, ◌≡◌, refl, ap, sym, ◌∙◌, subst, Bool, true,
  false, inl, inr, arith, ◌&&◌, eqb, leb, leb→le, le→leb, Bool-cases, List, [], ◌∷◌, ◌++◌, get_or,
  ℤ, pos, negsuc, if◌then◌else◌,
}
use Prim.Native.Nat.{min}
use go_chassis.Config.{zero_tag}
use go_chassis.WeightPool.{Pool, reaches, advance}
use go_chassis.WeightPool.Invariant.{IsValid}
use go_chassis.WeightPool.Valid.{advance-IsValid}
use go_chassis.WeightPool.Rounds.{hit, rounds, trace}

-- How often `j` stands in a list.
abbrev pub count : ℕ → List ℕ → ℕ
count j [] = 0
count j (x ∷ xs) = let rest = count j xs in if eqb x j then suc rest else rest

-- The weight of the tag at index `j`.
abbrev pub weight_at : Pool → ℕ → ℤ
weight_at p j = (get_or p.tags j zero_tag).weight

-- The calls that a weight earns in a cycle.
abbrev pub share : ℕ → ℤ → ℕ
share g (pos w) = w / g
share g (negsuc n) = 0

abbrev pub one_if : Bool → ℕ
one_if true = 1
one_if false = 0

pub count-append : (j : ℕ) (xs ys : List ℕ) → count j (xs ++ ys) ≡ count j xs + count j ys
count-append j [] ys = omega arith
count-append j (x ∷ xs) ys = ground (arith, count-append j xs ys)

pub trace-add : (m n : ℕ) (p : Pool) → trace (m + n) p ≡ trace m p ++ trace n (rounds m p)
unfolding trace rounds
trace-add zero n p = rw zero-add refl
trace-add (suc m) n p = rw suc-add (elim (Bool-cases (hit p)) [
  | inl h ↦ rw h (ap (λ (l : List ℕ). (advance p).i ∷ l) (trace-add m n (advance p)))
  | inr h ↦ rw h (trace-add m n (advance p))
])

rounds-IsValid : (n : ℕ) (p : Pool) → IsValid p → IsValid (rounds n p)
unfolding rounds
rounds-IsValid zero p v = v
rounds-IsValid (suc n) p v = rounds-IsValid n (advance p) (advance-IsValid p v)

-- The state with another index and level.
abbrev pub at : Pool → ℕ → ℕ → Pool
at p i cw = record p { i = i; cw = cw }

-- Inside a sweep the index goes up by one.
advance-inside : (p : Pool) → p.i + 1 < p.num → advance p ≡ at p (p.i + 1) p.cw
unfolding advance
advance-inside p h =
    rw (mod-eq_of_lt h) (let ne : eqb (p.i + 1) 0 ≡ false = ground arith in rw ne refl)

abbrev pub next_level : Pool → ℕ
next_level p = if leb p.cw p.gcd then p.max else p.cw - p.gcd

-- At the end of a sweep the index goes back to 0 and the level falls.
advance-end : (p : Pool) → p.i + 1 ≡ p.num → advance p ≡ at p 0 (next_level p)
unfolding advance
advance-end p h = let z : (p.i + 1) % p.num ≡ 0 = rw h (mod_self p.num) in rw z refl

count-if :
    (test : ℕ → Bool) (i j : ℕ) (r : List ℕ)
    → count j (if test i then i ∷ r else r) ≡ one_if (eqb i j && test j) + count j r
count-if test i j r = elim (Bool-cases (eqb i j)) [
  | inl e ↦
      subst (λ k. count j (if test k then k ∷ r else r) ≡ one_if (eqb k j && test j) + count j r)
        (let s : j ≡ i = ground arith in s) (ground arith)
  | inr e ↦ ground arith
]

-- One round counts the tag at its index, if it hits.
count-trace-suc :
    (j n : ℕ) (p q : Pool)
    → advance p ≡ q
    → count j (trace (suc n) p)
      ≡ one_if (eqb q.i j && reaches q.cw (weight_at q j)) + count j (trace n q)
unfolding trace
count-trace-suc j n p q e =
    subst
      (λ r.
        count j (trace (suc n) p)
        ≡ one_if (eqb r.i j && reaches r.cw (weight_at r j)) + count j (trace n r))
      e
      (count-if (λ k. reaches (advance p).cw (weight_at (advance p) k)) (advance p).i j
        (trace n (advance p)))

tally :
    (b : Bool) (i j : ℕ)
    → one_if (eqb (i + 1) j && b) + (if leb j (i + 1) then 0 else one_if b)
      ≡ (if leb j i then 0 else one_if b)
tally b i j = ground arith

-- From inside a sweep to its end: `j` is counted if it is still ahead and reaches the level.
pub sweep-rest :
    (j d : ℕ) (q : Pool)
    → q.i + suc d ≡ q.num
    → j < q.num
    → (count j (trace d q) ≡ (if leb j q.i then 0 else one_if (reaches q.cw (weight_at q j))))
      × (rounds d q ≡ at q (q.i + d) q.cw)
unfolding trace rounds
sweep-rest j zero q e lt = (ground arith, ap (λ (k : ℕ). at q k q.cw) (sym (add-zero q.i)))
sweep-rest j (suc d) q e lt =
    let step = advance-inside q (omega arith) in
    let ih = sweep-rest j d (at q (q.i + 1) q.cw) (omega arith) lt in
    (
      count-trace-suc j d q (at q (q.i + 1) q.cw) step
          ∙ rw ih.0 (tally (reaches q.cw (weight_at q j)) q.i j),
      ap (rounds d) step
          ∙ ih.1
          ∙ ap (λ (k : ℕ). at q k q.cw) (let s : q.i + 1 + d ≡ q.i + suc d = omega arith in s),
    )

tally_first :
    (b : Bool) (j : ℕ) → one_if (eqb 0 j && b) + (if leb j 0 then 0 else one_if b) ≡ one_if b
tally_first b j = ground arith

-- A whole sweep from the end of the last one: `j` is counted if it reaches the new level.
pub sweep :
    (j : ℕ) (p : Pool)
    → p.i + 1 ≡ p.num
    → j < p.num
    → (count j (trace p.num p) ≡ one_if (reaches (next_level p) (weight_at p j)))
      × (rounds p.num p ≡ at p p.i (next_level p))
sweep j p e lt =
    let step = advance-end p e in
    let (c, r) = sweep-rest j p.i (at p 0 (next_level p)) (omega arith) lt in
    (
      subst (λ n. count j (trace n p) ≡ one_if (reaches (next_level p) (weight_at p j)))
          (let s : suc p.i ≡ p.num = omega arith in s)
          (count-trace-suc j p.i p (at p 0 (next_level p)) step
            ∙ rw c (tally_first (reaches (next_level p) (weight_at p j)) j)),
      subst (λ n. rounds n p ≡ at p p.i (next_level p)) (let s : suc p.i ≡ p.num = omega arith in s)
          (unfold rounds in
            ap (rounds p.i) step ∙ r ∙ ap (λ (k : ℕ). at p k (next_level p)) (zero-add p.i)),
    )

level_falls :
    (p : Pool) (l : ℕ) → 0 < p.gcd → p.cw ≡ suc (suc l) * p.gcd → next_level p ≡ suc l * p.gcd
level_falls p l g c =
    let above : leb p.cw p.gcd ≡ false = ground (arith, suc-mul (suc l) p.gcd, suc-mul l p.gcd) in
    rw above (omega (arith, suc-mul (suc l) p.gcd))

-- A weight of `k` units reaches the levels up to the `k`-th.
pub level_counts : (l k g : ℕ) → 0 < g → one_if (leb (suc l * g) (k * g)) + min l k ≡ min (suc l) k
level_counts l k g h = elim (Bool-cases (leb (suc l) k)) [
  | inl le ↦
      let up : suc l * g ≤ k * g = mul-le-mul_right g (leb→le (suc l) k le) in
      rw (le→leb (suc l * g) (k * g) up) (ground arith)
  | inr gt ↦
      let low : k * g ≤ l * g = mul-le-mul_right g (ground arith) in
      let miss : leb (suc l * g) (k * g) ≡ false = ground (arith, suc-mul l g) in
      rw miss (ground arith)
]

-- The sweeps at the levels `l * gcd`, ..., `gcd`.
pub sweeps :
    (j l k : ℕ) (p : Pool)
    → p.i + 1 ≡ p.num
    → j < p.num
    → 0 < p.gcd
    → p.cw ≡ suc l * p.gcd
    → weight_at p j ≡ pos (k * p.gcd)
    → count j (trace (l * p.num) p) ≡ min l k
sweeps j zero k p e lt g c w = unfold trace in (ground arith)
sweeps j (suc l) k p e lt g c w =
    let (n, r) = sweep j p e lt in
    let level = level_falls p l g c in
    let rest = sweeps j l k (at p p.i (next_level p)) e lt g level w in
    rw (suc-mul, add_comm, trace-add)
      (count-append j (trace p.num p) (trace (l * p.num) (rounds p.num p))
        ∙ rw (n, r, rest, w, level) (level_counts l k p.gcd g))

-- A negative weight reaches no level.
pub sweeps_neg :
    (j l n : ℕ) (p : Pool)
    → p.i + 1 ≡ p.num
    → j < p.num
    → weight_at p j ≡ negsuc n
    → count j (trace (l * p.num) p) ≡ 0
sweeps_neg j zero n p e lt w = unfold trace in ground arith
sweeps_neg j (suc l) n p e lt w =
    let (c, r) = sweep j p e lt in
    let rest = sweeps_neg j l n (at p p.i (next_level p)) e lt w in
    rw (suc-mul, add_comm, trace-add)
      (count-append j (trace p.num p) (trace (l * p.num) (rounds p.num p))
        ∙ rw (c, r, rest, w) refl)
