-- ===== src/Fault/Share.antt =====
-- How many of the calls of a key `ApplyFaultInjection` of core/fault/fault_injection.go answers by
-- a fault.
use go_chassis.Prelude.{
  ℕ, zero, suc, ◌+◌, ◌*◌, ◌/◌, ◌≤◌, ◌≡◌, refl, sym, ◌∙◌, ap, subst, inl, inr, ◌⊎◌, arith, String,
  List, [], ◌∷◌, Option, none, some, true, eqb, lookup, insert, lookup-insert_self, Bool-cases,
}
use go_chassis.Fault.{
  State, Fault, Answer, FaultType, abort_type, delay_type, nothing, inject_fault,
  increment_key_count, check_percent, take_decision, apply_fault_injection,
}
use go_chassis.Fault.Counters.{
  injected, is_fault, faults, calls, decision-quiet, decision-first, decision-later, Standing,
  Ready, counted,
}

-- A call adds at most one to the share of the calls before it.
share_step :
    (n p : ℕ) → p ≤ 100 → (suc n * p / 100 ≡ n * p / 100) ⊎ (suc n * p / 100 ≡ suc (n * p / 100))
share_step n p h =
    let e : suc n * p ≡ n * p + p = omega arith in
    elim (Bool-cases (eqb (suc n * p / 100) (n * p / 100))) [
      | inl same ↦ inl (ground arith)
      | inr ne ↦ inr (ground (arith, e))
    ]

module _ (kind : FaultType) (fault : Fault) (key : String) where
  inject_fault-Standing :
      (n q : ℕ) (s : State)
      → Standing key n q s
      → (s' : State) × (inject_fault kind fault s ≡ (injected kind fault, s')) × Standing key n q s'
  unfolding inject_fault
  inject_fault-Standing n q s st =
      elim kind
        as (λ (k : FaultType).
          (s' : State) × (inject_fault k fault s ≡ (injected k fault, s')) × Standing key n q s') [
            | abort_type ↦ (s, refl, st)
            | delay_type ↦ (
              record s { delay_applied = true },
              refl,
              record {
                unset = st.unset;
                invoked = st.invoked;
                failures = st.failures;
                initial = st.initial;
                below = st.below;
              },
            )
          ]

  -- A call after `n` calls with `q` faults.
  abbrev Decided : ℕ → ℕ → Answer → Option (Answer × State) → Type 0
  Decided n q a result = (s' : State) × (result ≡ some (a, s')) × Standing key n q s'

  decide-quiet :
      (n p q : ℕ) (s : State)
      → Ready key q s
      → q ≤ n
      → suc n * p / 100 ≡ q
      → Decided (suc n) q nothing (take_decision kind fault key p (suc n, s))
  unfolding increment_key_count
  decide-quiet n p zero s r le e = (
    increment_key_count key (suc n + 1) s,
    decision-quiet kind fault key p (suc n) s 1 none 0 r.failures r.initial e refl refl,
    record {
      unset = r.unset;
      invoked = lookup-insert_self key (suc n + 1) s.invoked_count;
      failures = r.failures;
      initial = r.initial;
      below = omega arith;
    },
  )
  decide-quiet n p (suc q) s r le e = (
    increment_key_count key (suc n + 1) s,
    decision-quiet kind fault key p (suc n) s (suc q) (some 1) (suc q) r.failures r.initial e
        (ground arith) (ground arith),
    record {
      unset = r.unset;
      invoked = lookup-insert_self key (suc n + 1) s.invoked_count;
      failures = r.failures;
      initial = r.initial;
      below = omega arith;
    },
  )

  decide-fault :
      (n p q : ℕ) (s : State)
      → Ready key q s
      → q ≤ n
      → suc n * p / 100 ≡ suc q
      → Decided (suc n) (suc q) (injected kind fault) (take_decision kind fault key p (suc n, s))
  unfolding increment_key_count
  decide-fault n p zero s r le e =
      let (s', i, st) =
        inject_fault-Standing (suc n) 1
          (increment_key_count key (suc n + 1)
            (record s { initial_key_count = insert key 1 s.initial_key_count }))
          (record {
            unset = r.unset;
            invoked = lookup-insert_self key (suc n + 1) s.invoked_count;
            failures = r.failures;
            initial = lookup-insert_self key 1 s.initial_key_count;
            below = omega arith;
          }) in
      (
        s',
        decision-first kind fault key p (suc n) s r.failures r.initial e
            ∙ ap (λ (x : Answer × State). some x) i,
        st,
      )
  decide-fault n p (suc q) s r le e =
      let (s', i, st) =
        inject_fault-Standing (suc n) (suc (suc q))
          (increment_key_count key (suc n + 1)
            (record s { fault_key_count = insert key (suc q + 1) s.fault_key_count }))
          (record {
            unset = r.unset;
            invoked = lookup-insert_self key (suc n + 1) s.invoked_count;
            failures =
                lookup-insert_self key (suc q + 1) s.fault_key_count
                ∙ ap (λ (x : ℕ). some x) (let more : suc q + 1 ≡ suc (suc q) = omega arith in more);
            initial = r.initial;
            below = omega arith;
          }) in
      (
        s',
        decision-later kind fault key p (suc n) s (suc q) (suc (suc q)) r.failures e (omega arith)
              (omega arith)
            ∙ ap (λ (x : Answer × State). some x) i,
        st,
      )

  apply-counted :
      (n p q : ℕ) (s : State)
      → Standing key n q s
      → (s' : State) × Ready key q s'
        × (apply_fault_injection kind fault key p s ≡ take_decision kind fault key p (suc n, s'))
  unfolding apply_fault_injection check_percent
  apply-counted n p q s st =
      let (s', e, r) = counted key n q s st in (s', r, rw st.unset (rw st.unset (rw e refl)))

  -- The calls after the first `n`, of which as many are faults as the share grows by.
  calls-Standing :
      (k n p : ℕ) (s : State)
      → p ≤ 100
      → is_fault (injected kind fault) ≡ true
      → Standing key n (n * p / 100) s
      → (answers : List Answer) × (s' : State) × (calls kind fault key p k s ≡ some (answers, s'))
        × (n * p / 100 + faults answers ≡ (n + k) * p / 100)
  unfolding calls faults
  calls-Standing zero n p s h real st =
      ([], s, refl, (let e : n + 0 ≡ n = omega arith in rw e (omega arith)))
  calls-Standing (suc k) n p s h real st =
      let (s', r, e) = apply-counted n p (n * p / 100) s st in
      let sum : suc n + k ≡ n + suc k = omega arith in
      elim (share_step n p h) [
        | inl same ↦
            let (s'', d, st') = decide-quiet n p (n * p / 100) s' r st.below same in
            let (answers, last, c, total) =
              calls-Standing k (suc n) p s'' h real
                (subst (λ (q : ℕ). Standing key (suc n) q s'') (sym same) st') in
            (
              nothing ∷ answers,
              last,
              rw e (rw d (rw c refl)),
              rw (sym sum) (omega (arith, total, same)),
            )
        | inr grows ↦
            let (s'', d, st') = decide-fault n p (n * p / 100) s' r st.below grows in
            let (answers, last, c, total) =
              calls-Standing k (suc n) p s'' h real
                (subst (λ (q : ℕ). Standing key (suc n) q s'') (sym grows) st') in
            (
              injected kind fault ∷ answers,
              last,
              rw e (rw d (rw c refl)),
              rw (sym sum) (rw real (omega (arith, total, grows))),
            )
      ]

  -- Of the first `k` calls of a key exactly the share `percent` / 100, rounded down, is answered by
  -- a fault, for every `k` and any constant percentage up to 100.
  pub calls-share :
      (k p : ℕ) (s : State)
      → p ≤ 100
      → is_fault (injected kind fault) ≡ true
      → lookup key s.percen_store ≡ none
      → lookup key s.invoked_count ≡ none
      → lookup key s.fault_key_count ≡ none
      → lookup key s.initial_key_count ≡ none
      → (answers : List Answer) × (s' : State) × (calls kind fault key p k s ≡ some (answers, s'))
        × (faults answers ≡ k * p / 100)
  calls-share k p s h real a b c d =
      let none_yet : 0 * p / 100 ≡ 0 = omega arith in
      let st : Standing key 0 0 s = record {
        unset = a;
        invoked = b;
        failures = c;
        initial = d;
        below = omega arith;
      } in
      let (answers, s', e, total) =
        calls-Standing k 0 p s h real (subst (λ (q : ℕ). Standing key 0 q s) (sym none_yet) st) in
      let start : 0 + k ≡ k = omega arith in
      (answers, s', e, omega (arith, total, none_yet, ap (λ (x : ℕ). x * p / 100) start))
