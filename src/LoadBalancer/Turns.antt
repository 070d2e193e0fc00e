-- ===== src/LoadBalancer/Turns.antt =====
-- The turns of the round robin (core/loadbalancer/roundrobin.go).
use native.Mathlib.Nat.{mod-lt, mod-add-mod, mod-eq_of_lt, mod-eq-sub-mod}
use go_chassis.Prelude.{
  ℕ, zero, suc, ◌+◌, ◌-◌, ◌%◌, ◌≤◌, ◌<◌, ◌≡◌, ◌≢◌, refl, sym, ◌∙◌, ap, inl, inr, arith, String,
  List, ◌∷◌, Option, none, some, false, leb, eqb, ℤ, pos, negsuc, inc_int, max_int, Dict, lookup,
  insert, value_or, Option-cases, lookup-insert_self, length, get_or, get_elem?-get_or, Bool-cases,
}
use go_chassis.Instance.{MicroServiceInstance}
use go_chassis.LoadBalancer.{
  State, Picked, pick, at_counter, round_robin, counter_read, counter_write,
}

-- The state after `k` picks for a key, whatever the instances of each; `randoms` are the numbers that the
-- picks would begin with.
pub after : ℕ → String → (ℕ → ℕ) → Dict ℤ → Dict ℤ
after zero key randoms m = m
after (suc k) key randoms m = (pick key (randoms k) (after k key randoms m)).1

-- The counter of a key, which the first pick makes.
abbrev pub Counts : String → ℕ → Dict ℤ → ℕ → Type 0
unfolding lookup
Counts key random m n = value_or (lookup key m) (pos random) ≡ pos n

pick-fresh :
    (key : String) (random : ℕ) (m : Dict ℤ)
    → lookup key m ≡ none
    → pick key random m ≡ (pos random, insert key (inc_int (pos random)) m)
unfolding pick counter_read counter_write
pick-fresh key random m e = rw e (rw e refl)

pick-held :
    (key : String) (random : ℕ) (m : Dict ℤ) (i : ℤ)
    → lookup key m ≡ some i
    → pick key random m ≡ (i, insert key (inc_int i) m)
unfolding pick counter_read counter_write
pick-held key random m i e = rw e (rw e refl)

pick-Counts :
    (key : String) (random : ℕ) (m : Dict ℤ) (n : ℕ)
    → Counts key random m n
    → n < max_int
    → ((pick key random m).0 ≡ pos n) × (lookup key (pick key random m).1 ≡ some (pos (n + 1)))
unfolding inc_int Counts
pick-Counts key random m n e h =
    let room : eqb n max_int ≡ false = ground arith in
    let next = lookup-insert_self key (pos (n + 1)) m in
    elim (Option-cases (lookup key m)) [
      | inl fresh ↦
          let begins : pos random ≡ pos n =
            sym (ap (λ (o : Option ℤ). value_or o (pos random)) fresh) ∙ e in
          let p =
            pick-fresh key random m fresh ∙ ap (λ (i : ℤ). (i, insert key (inc_int i) m)) begins in
          rw (p, room) (refl, next)
      | inr (i, held) ↦
          let same : i ≡ pos n = sym (ap (λ (o : Option ℤ). value_or o (pos random)) held) ∙ e in
          let p =
            pick-held key random m i held ∙ ap (λ (i : ℤ). (i, insert key (inc_int i) m)) same in
          rw (p, room) (refl, next)
    ]

-- The counter before the pick after `k` earlier ones, short of the largest `int`.
after-Counts :
    (k : ℕ) (key : String) (randoms : ℕ → ℕ) (m : Dict ℤ) (n : ℕ)
    → Counts key (randoms 0) m n
    → n + k ≤ max_int
    → Counts key (randoms k) (after k key randoms m) (n + k)
unfolding after Counts
after-Counts zero key randoms m n e h =
    e ∙ ap (λ (x : ℕ). pos x) (let s : n ≡ n + 0 = omega arith in s)
after-Counts (suc k) key randoms m n e h =
    let before = after-Counts k key randoms m n e (omega arith) in
    let (_, stored) =
      pick-Counts key (randoms k) (after k key randoms m) (n + k) before (omega arith) in
    ap (λ (o : Option ℤ). value_or o (pos (randoms (suc k)))) stored
    ∙ ap (λ (x : ℕ). pos x) (let s : n + k + 1 ≡ n + suc k = omega arith in s)

-- The counter after the pick at the largest `int`.
after-wraps :
    (key : String) (randoms : ℕ → ℕ) (m : Dict ℤ)
    → lookup key m ≡ some (pos max_int)
    → lookup key (after 1 key randoms m) ≡ some (negsuc max_int)
unfolding after inc_int
after-wraps key randoms m e =
    ap (λ (r : ℤ × Dict ℤ). lookup key r.1) (pick-held key (randoms 0) m (pos max_int) e)
    ∙ lookup-insert_self key (negsuc max_int) m

-- Of `n` consecutive numbers one has the remainder `j`.
window : (a n j : ℕ) → j < n → (k : ℕ) × (k < n) × ((a + k) % n ≡ j)
window a n j h = elim (Bool-cases (leb r j)) [
  | inl le ↦
      let s : r + (j - r) ≡ j = ground arith in
      (j - r, omega arith, shift (j - r) ∙ ap (λ (x : ℕ). x % n) s ∙ mod-eq_of_lt h)
  | inr gt ↦
      let s : r + (j + n - r) ≡ j + n = ground arith in
      let d : (j + n) % n ≡ j =
        mod-eq-sub-mod (omega arith)
        ∙ ap (λ (x : ℕ). x % n) (let q : j + n - n ≡ j = omega arith in q)
        ∙ mod-eq_of_lt h in
      (j + n - r, ground arith, shift (j + n - r) ∙ ap (λ (x : ℕ). x % n) s ∙ d)
]
  where
    r : ℕ
    r = a % n

    small : r < n
    small = mod-lt a (omega arith)

    shift : (k : ℕ) → (a + k) % n ≡ (r + k) % n
    shift k = sym (mod-add-mod a n k)

module _ (ins : MicroServiceInstance) (rest : List MicroServiceInstance) (key : String)
    (randoms : ℕ → ℕ) (s : State) where
  abbrev all_instances : List MicroServiceInstance
  all_instances = ins ∷ rest

  -- The pick after `k` earlier ones for the key.
  abbrev pub turn : ℕ → Option Picked
  turn k =
      round_robin all_instances key (randoms k)
        (record s { rr_idx_map = after k key randoms s.rr_idx_map })

  turn-at :
      (n k : ℕ)
      → Counts key (randoms 0) s.rr_idx_map n
      → n + k < max_int
      → (s' : State) × (turn k
          ≡ some (some (get_or all_instances ((n + k) % length all_instances) ins), s'))
  unfolding round_robin at_counter
  turn-at n k e h =
      let (counter, _) =
        pick-Counts key (randoms k) (after k key randoms s.rr_idx_map) (n + k)
          (after-Counts k key randoms s.rr_idx_map n e (omega arith)) h in
      let inside =
        get_elem?-get_or all_instances ((n + k) % length all_instances) ins
          (mod-lt (n + k) (omega arith)) in
      (
        record s { rr_idx_map = (pick key (randoms k) (after k key randoms s.rr_idx_map)).1 },
        rw counter (rw inside refl),
      )

  -- Among as many picks for a key as there are instances, one after the other, each instance is returned:
  -- from the counter of the key, or from the random number of the first pick when the key has none, as
  -- long as the counter stays within a 64-bit `int`. No two of these picks overlap, and `rand` may give any other
  -- numbers for the later picks.
  pub turns_fair :
      (n : ℕ)
      → value_or (lookup key s.rr_idx_map) (pos (randoms 0)) ≡ pos n
      → n + length all_instances ≤ max_int
      → (j : ℕ) → j < length all_instances
      → (k : ℕ) × (k < length all_instances)
        × (s' : State) × (turn k ≡ some (some (get_or all_instances j ins), s'))
  unfolding Counts
  turns_fair n e h j lt =
      let (k, small, r) = window n (length all_instances) j lt in
      let (s', t) = turn-at n k e (omega arith) in
      (k, small, s', t ∙ ap (λ (x : ℕ). some (some (get_or all_instances x ins), s')) r)

  -- After the pick at the largest `int` the counter is negative, and the next pick panics, unless
  -- the number of instances divides 2^63.
  pub turns_overflow :
      lookup key s.rr_idx_map ≡ some (pos max_int)
      → suc max_int % length all_instances ≢ 0
      → turn 1 ≡ none
  unfolding round_robin at_counter
  turns_overflow e h =
      let odd : eqb (suc max_int % length all_instances) 0 ≡ false = ground arith in
      let second =
        pick-held key (randoms 1) (after 1 key randoms s.rr_idx_map) (negsuc max_int)
          (after-wraps key randoms s.rr_idx_map e) in
      rw second (rw odd refl)
