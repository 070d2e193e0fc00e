-- ===== src/Fault/Counters.antt =====
-- The calls of a key in core/fault/fault_injection.go with their counters, and what each decision on a
-- call does.
use go_chassis.Prelude.{
  ℕ, zero, suc, ◌+◌, ◌*◌, ◌/◌, ◌≤◌, ◌<◌, ◌≡◌, ◌≢◌, refl, ap, arith, String, List, [], ◌∷◌, Option,
  none, some, Bool, true, false, not, ◌&&◌, ◌||◌, ltb, eqb, pos, eqb_ℤ, lookup, insert,
  lookup-insert_self, ◌>>=◌, if◌then◌else◌,
}
use go_chassis.Fault.{
  State, Fault, Answer, FaultType, abort_type, delay_type, nothing, inject_fault,
  increment_key_count, calculate_percentage, count_call, initial_count, increase_fault_count,
  take_decision, apply_fault_injection,
}

-- What an injected fault answers.
abbrev pub injected : FaultType → Fault → Answer
injected delay_type f = record { slept = f.delay.fixed_delay; error = none }
injected abort_type f = record { slept = pos 0; error = some "injecting abort" }

abbrev pub is_error : Option String → Bool
is_error none = false
is_error (some e) = true

-- Whether an answer is a fault: a call that slept or has an error.
abbrev pub is_fault : Answer → Bool
is_fault a = is_error a.error || not (eqb_ℤ a.slept (pos 0))

unfoldable pub faults : List Answer → ℕ
faults [] = 0
faults (a ∷ rest) = (if is_fault a then 1 else 0) + faults rest

-- `k` calls of a key, one after the other.
unfoldable pub calls : FaultType → Fault → String → ℕ → ℕ → State → Option (List Answer × State)
calls kind fault key percent zero s = some ([], s)
calls kind fault key percent (suc k) s =
    apply_fault_injection kind fault key percent s >>= λ (a, s').
    calls kind fault key percent k s' >>= λ (rest, s''). some (a ∷ rest, s'')

module _ (kind : FaultType) (fault : Fault) (key : String) (p : ℕ) (c : ℕ) (s : State) where
  pub decision-quiet :
      (failures : ℕ) (initial : Option ℕ) (q : ℕ)
      → lookup key s.fault_key_count ≡ some failures
      → lookup key s.initial_key_count ≡ initial
      → c * p / 100 ≡ q
      → (eqb q failures && not (eqb (initial_count initial) 1)) ≡ false
      → (not (eqb q failures) && ltb 1 q) ≡ false
      → take_decision kind fault key p (c, s) ≡ some (nothing, increment_key_count key (c + 1) s)
  unfolding take_decision calculate_percentage
  decision-quiet failures initial q ef ei eq h1 h2 = rw ef (rw ei (rw eq (rw h1 (rw h2 refl))))

  pub decision-first :
      lookup key s.fault_key_count ≡ some 1
      → lookup key s.initial_key_count ≡ none
      → c * p / 100 ≡ 1
      → take_decision kind fault key p (c, s)
        ≡ some (
            inject_fault kind fault (
              increment_key_count key
                (c + 1)
                (record s { initial_key_count = insert key 1 s.initial_key_count })))
  unfolding take_decision calculate_percentage
  decision-first ef ei eq = rw ef (rw ei (rw eq refl))

  pub decision-later :
      (failures q : ℕ)
      → lookup key s.fault_key_count ≡ some failures
      → c * p / 100 ≡ q
      → q ≢ failures
      → 1 < q
      → take_decision kind fault key p (c, s)
        ≡ some (
            inject_fault kind fault (
              increment_key_count key
                (c + 1)
                (record s { fault_key_count = insert key (failures + 1) s.fault_key_count })))
  unfolding take_decision calculate_percentage increase_fault_count
  decision-later failures q ef eq ne big =
      let t1 : eqb q failures ≡ false = ground arith in
      let t2 : ltb 1 q ≡ true = ground arith in rw ef (rw eq (rw t1 (rw t2 refl)))

-- The counters of a key after `n` calls of which `q` were answered by a fault.
abbrev seen : ℕ → Option ℕ
seen zero = none
seen (suc n) = some (suc n + 1)

abbrev at_least_one : ℕ → ℕ
at_least_one zero = 1
at_least_one (suc q) = suc q

abbrev failed : ℕ → ℕ → Option ℕ
failed zero q = none
failed (suc n) q = some (at_least_one q)

abbrev began : ℕ → Option ℕ
began zero = none
began (suc q) = some 1

pub record Standing (key : String) (n q : ℕ) (s : State) : Type 0 where
  pub unset : lookup key s.percen_store ≡ none
  pub invoked : lookup key s.invoked_count ≡ seen n
  pub failures : lookup key s.fault_key_count ≡ failed n q
  pub initial : lookup key s.initial_key_count ≡ began q
  pub below : q ≤ n

-- The counters when the call has been counted.
pub record Ready (key : String) (q : ℕ) (s : State) : Type 0 where
  pub unset : lookup key s.percen_store ≡ none
  pub failures : lookup key s.fault_key_count ≡ some (at_least_one q)
  pub initial : lookup key s.initial_key_count ≡ began q

pub counted :
    (key : String) (n q : ℕ) (s : State)
    → Standing key n q s
    → (s' : State) × (count_call (lookup key s.invoked_count) key s ≡ some (suc n, s'))
      × Ready key q s'
unfolding increase_fault_count
counted key zero zero s st = (
  record s { fault_key_count = insert key 1 s.fault_key_count },
  rw st.invoked (rw st.failures refl),
  record {
    unset = st.unset;
    failures = lookup-insert_self key 1 s.fault_key_count;
    initial = st.initial;
  },
)
counted key zero (suc q) s st = absurd (omega (arith, st.below))
counted key (suc n) q s st =
    let more : eqb (suc n + 1) 1 ≡ false = ground arith in
    (
      s,
      rw st.invoked (
          rw more
            (ap (λ (x : ℕ). some (x, s)) (let e : suc n + 1 ≡ suc (suc n) = omega arith in e))),
      record { unset = st.unset; failures = st.failures; initial = st.initial },
    )
