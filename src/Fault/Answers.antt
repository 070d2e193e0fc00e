-- ===== src/Fault/Answers.antt =====
-- What the counters and the flags of core/fault/fault_injection.go do across calls with different
-- faults.
use go_chassis.Prelude.{
  ℕ, zero, suc, ◌+◌, ◌*◌, ◌/◌, ◌≤◌, ◌<◌, ◌≡◌, ◌↔◌, refl, ◌∙◌, ap, inl, inr, arith, String, List, [],
  ◌∷◌, none, some, Bool, true, false, ◌||◌, eqb, pos, ltb_ℤ, eqb_ℤ, ◌≤ℤ◌, lookup, insert,
  lookup-insert_self, Bool-cases,
}
use go_chassis.Fault.{
  State, Fault, Abort, Answer, FaultType, abort_type, delay_type, nothing, inject_fault,
  increment_key_count, check_percent, apply_fault_injection, has_abort, has_delay,
  validate_fault_abort, abort_part, delay_part, validate_and_apply_fault,
}
use go_chassis.Fault.Counters.{injected, is_fault, faults, calls, decision-later}

-- A key that has had `c - 1` calls and `f` faults.
record Counted (key : String) (c f : ℕ) (s : State) : Type 0 where
  unset : lookup key s.percen_store ≡ none
  invoked : lookup key s.invoked_count ≡ some c
  failures : lookup key s.fault_key_count ≡ some f

module _ (kind : FaultType) (fault : Fault) (key : String) where
  inject_fault-Counted :
      (c f : ℕ) (s : State)
      → Counted key c f s
      → (s' : State) × (inject_fault kind fault s ≡ (injected kind fault, s')) × Counted key c f s'
  unfolding inject_fault
  inject_fault-Counted c f s st =
      elim kind
        as (λ (k : FaultType).
          (s' : State) × (inject_fault k fault s ≡ (injected k fault, s')) × Counted key c f s') [
            | abort_type ↦ (s, refl, st)
            | delay_type ↦ (
              record s { delay_applied = true },
              refl,
              record { unset = st.unset; invoked = st.invoked; failures = st.failures },
            )
          ]

  -- A call whose share is behind the faults already answered is answered by one more.
  behind :
      (p c f : ℕ) (s : State)
      → Counted key c f s
      → 1 < c
      → 1 < c * p / 100
      → c * p / 100 < f
      → (s' : State) × (apply_fault_injection kind fault key p s ≡ some (injected kind fault, s'))
        × Counted key (c + 1) (f + 1) s'
  unfolding apply_fault_injection check_percent increment_key_count
  behind p c f s st many big less =
      let more : eqb c 1 ≡ false = ground arith in
      let (s', i, st') =
        inject_fault-Counted (c + 1) (f + 1)
          (increment_key_count key (c + 1)
            (record s { fault_key_count = insert key (f + 1) s.fault_key_count }))
          (record {
            unset = st.unset;
            invoked = lookup-insert_self key (c + 1) s.invoked_count;
            failures = lookup-insert_self key (f + 1) s.fault_key_count;
          }) in
      let d =
        decision-later kind fault key p c s f (c * p / 100) st.failures refl (omega (arith, less))
          big in
      (
        s',
        rw st.unset
            (rw st.unset (rw st.invoked (rw more (d ∙ ap (λ (x : Answer × State). some x) i)))),
        st',
      )

  calls-behind :
      (k p c f : ℕ) (s : State)
      → Counted key c f s
      → p ≤ 100
      → is_fault (injected kind fault) ≡ true
      → 1 < c
      → 1 < c * p / 100
      → c * p / 100 < f
      → (answers : List Answer) × (s' : State) × (calls kind fault key p k s ≡ some (answers, s'))
        × (faults answers ≡ k)
  unfolding calls faults
  calls-behind zero p c f s st h real many big less = ([], s, refl, refl)
  calls-behind (suc k) p c f s st h real many big less =
      let (s', e, st') = behind p c f s st many big less in
      let next : (c + 1) * p ≡ c * p + p = omega arith in
      let (answers, last, r, all) =
        calls-behind k p (c + 1) (f + 1) s' st' h real (omega arith) (omega (arith, next, big))
          (omega (arith, next, less)) in
      (injected kind fault ∷ answers, last, rw e (rw r refl), rw real (omega (arith, all)))

  -- When the percentage of a key was lowered, so that it has had more faults than its share of the
  -- calls so far, and the share is at least 2, then each further call is answered by a fault: the
  -- counters are not reset, and the faults never fall behind again.
  pub calls-lowered :
      (k p c f : ℕ) (s : State)
      → lookup key s.percen_store ≡ none
      → lookup key s.invoked_count ≡ some c
      → lookup key s.fault_key_count ≡ some f
      → p ≤ 100
      → is_fault (injected kind fault) ≡ true
      → 1 < c
      → 1 < c * p / 100
      → c * p / 100 < f
      → (answers : List Answer) × (s' : State) × (calls kind fault key p k s ≡ some (answers, s'))
        × (faults answers ≡ k)
  calls-lowered k p c f s a b d h real many big less =
      calls-behind k p c f s (record { unset = a; invoked = b; failures = d }) h real many big less

-- A status between 100 and 600 and a percentage from `least` to 100.
abbrev pub InRange : ℕ → Abort → Type 0
InRange least a =
    (pos 100 ≤ℤ a.http_status)
    × (a.http_status ≤ℤ pos 600)
    × (pos least ≤ℤ a.percent)
    × (a.percent ≤ℤ pos 100)

abbrev bad_status : Abort → Bool
bad_status a = ltb_ℤ a.http_status (pos 100) || ltb_ℤ (pos 600) a.http_status

abbrev bad_percent : Abort → Bool
bad_percent a = ltb_ℤ a.percent (pos 0) || ltb_ℤ (pos 100) a.percent

-- `ValidateFaultAbort` has no error exactly for a status between 100 and 600 and a percentage
-- between 0 and 100, and then leaves a percentage between 1 and 100.
pub validate_fault_abort-InRange :
    (f : Fault)
    → (((validate_fault_abort f).1 ≡ none) ↔ InRange 0 f.abort)
      × ((validate_fault_abort f).1 ≡ none → InRange 1 (validate_fault_abort f).0.abort)
unfolding validate_fault_abort
validate_fault_abort-InRange f = elim (Bool-cases (bad_status f.abort)) [
  | inl e ↦ rw e (((λ q. cc), λ h. ground arith), λ q. cc)
  | inr fine ↦ elim (Bool-cases (bad_percent f.abort)) [
    | inl e ↦ rw fine (rw e (((λ q. cc), λ h. ground arith), λ q. cc))
    | inr good ↦
        let (a, b, c, d) : InRange 0 f.abort =
          (ground arith, ground arith, ground arith, ground arith) in
        elim (Bool-cases (eqb_ℤ f.abort.percent (pos 0))) [
          | inl z ↦ rw fine (
              rw good
                (rw z (((λ _. (a, b, c, d)), λ _. refl), λ _. (a, b, omega arith, omega arith))))
          | inr nz ↦
              rw fine
                (rw good (rw nz (((λ _. (a, b, c, d)), λ _. refl), λ _. (a, b, ground arith, d))))
        ]
  ]
]

-- After a call that asked for a delay and an abort, and was not delayed, no abort is injected for
-- a fault with an abort alone, whatever the service: the flag stays up and such calls pass.
pub abort-waits :
    (f : Fault) (key : String) (s : State)
    → s.abort_needed ≡ true
    → s.delay_applied ≡ false
    → has_delay f ≡ false
    → (validate_fault_abort f).1 ≡ none
    → validate_and_apply_fault f key s ≡ some (nothing, s)
unfolding validate_and_apply_fault delay_part abort_part
abort-waits f key s need delayed alone valid = elim (Bool-cases (has_abort f)) [
  | inl e ↦ rw alone (rw e (rw valid (rw need (rw delayed refl))))
  | inr e ↦ rw alone (rw e refl)
]
