-- ===== src/Fault.antt =====
-- Fault injection: core/fault/fault_injection.go. A call's key is the name of its service and its
-- route tags. The counters never become negative, so they are natural numbers, and a percentage
-- that passed the validation is one too; the products stay below 2^63. A result is `none` where
-- the code panics on a missing counter. The sleep of a delay is part of the answer.
pub mod Counters
pub mod Share
pub mod Answers
use go_chassis.Prelude.{
  ℕ, zero, suc, ◌+◌, ◌*◌, ◌/◌, String, Option, none, some, Bool, true, false, not, ◌&&◌, ◌||◌, ltb,
  eqb, ℤ, pos, pos_part, ltb_ℤ, eqb_ℤ, Dict, lookup, insert, remove, ◌>>=◌, if◌then◌else◌,
}

-- `Abort`, `Delay` and `Fault` of core/config/model; a duration is a number of nanoseconds.
pub record Abort : Type 0 where
  pub percent : ℤ
  pub http_status : ℤ

pub record Delay : Type 0 where
  pub percent : ℤ
  pub fixed_delay : ℤ

pub record Fault : Type 0 where
  pub abort : Abort
  pub delay : Delay

-- The variables of the package.
pub record State : Type 0 where
  pub fault_key_count : Dict ℕ
  pub initial_key_count : Dict ℕ
  pub invoked_count : Dict ℕ
  pub percen_store : Dict ℕ
  pub abort_needed : Bool
  pub delay_applied : Bool

-- What a call comes to: how long it slept, and its error.
pub record Answer : Type 0 where
  pub slept : ℤ
  pub error : Option String

abbrev pub nothing : Answer
nothing = record { slept = pos 0; error = none }

-- The two fault types.
pub data FaultType : Type 0 where
  abort_type : FaultType
  delay_type : FaultType

-- `fault.Abort != (model.Abort{})`, `fault.Delay != (model.Delay{})`
abbrev pub has_abort : Fault → Bool
has_abort f = not (eqb_ℤ f.abort.percent (pos 0) && eqb_ℤ f.abort.http_status (pos 0))

abbrev pub has_delay : Fault → Bool
has_delay f = not (eqb_ℤ f.delay.percent (pos 0) && eqb_ℤ f.delay.fixed_delay (pos 0))

-- `ValidateFaultAbort`: the fault with its percentage filled in, and the error.
unfoldable pub validate_fault_abort : Fault → Fault × Option String
validate_fault_abort f =
    if ltb_ℤ f.abort.http_status (pos 100) || ltb_ℤ (pos 600) f.abort.http_status
    then (f, some "invalid httpfault status")
    else if ltb_ℤ f.abort.percent (pos 0) || ltb_ℤ (pos 100) f.abort.percent
    then (f, some "invalid httpfault percentage:must be in range 0..100")
    else if eqb_ℤ f.abort.percent (pos 0)
    then (record f { abort = record f.abort { percent = pos 100 } }, none)
    else (f, none)

-- `ValidateFaultDelay`
abbrev pub millisecond : ℤ
millisecond = pos 1000000

abbrev default_delay : Fault → Fault
default_delay f =
    if eqb_ℤ f.delay.percent (pos 0)
    then record f { delay = record f.delay { percent = pos 100 } }
    else f

unfoldable pub validate_fault_delay : Fault → Fault × Option String
validate_fault_delay f =
    if ltb_ℤ f.delay.percent (pos 0) || ltb_ℤ (pos 100) f.delay.percent
    then (f, some "percentage must be in range 0..100")
    else if ltb_ℤ f.delay.fixed_delay millisecond
    then (default_delay f, some "duration must be greater than 1ms")
    else (default_delay f, none)

-- `injectFault`
unfoldable pub inject_fault : FaultType → Fault → State → Answer × State
inject_fault delay_type f s =
    (record { slept = f.delay.fixed_delay; error = none }, record s { delay_applied = true })
inject_fault abort_type f s = (record { slept = pos 0; error = some "injecting abort" }, s)

-- `resetFaultKeyCount`
unfoldable pub reset_fault_key_count : String → State → State
reset_fault_key_count key s = record s {
  fault_key_count = remove key s.fault_key_count;
  initial_key_count = remove key s.initial_key_count;
  invoked_count = remove key s.invoked_count;
}

-- `incrementKeyCount`
unfoldable pub increment_key_count : String → ℕ → State → State
increment_key_count key count s = record s { invoked_count = insert key count s.invoked_count }

-- `calculatePercentage`
unfoldable pub calculate_percentage : ℕ → ℕ → ℕ
calculate_percentage count percent = count * percent / 100

-- The percentage of the key, stored where there is one, and the reset on a change.
abbrev pub store_percent : Option ℕ → String → ℕ → State → State
store_percent none key percent s = s
store_percent (some old) key percent s = record s {
  percen_store = insert key percent s.percen_store;
}

abbrev pub reset_on_change : Option ℕ → String → ℕ → State → State
reset_on_change none key percent s = s
reset_on_change (some old) key percent s =
    if eqb percent old
    then s
    else store_percent (some old) key percent (reset_fault_key_count key s)

unfoldable pub check_percent : String → ℕ → State → State
unfolding reset_fault_key_count
check_percent key percent s =
    let s' = store_percent (lookup key s.percen_store) key percent s in
    reset_on_change (lookup key s'.percen_store) key percent s'

-- The stored count, plus 1; `start` where there is none.
abbrev pub plus_one : Option ℕ → Option ℕ → Option ℕ
plus_one none start = start
plus_one (some v) start = some (v + 1)

-- `faultKeyCount.Store(key, value.(int)+1)`, which panics without a value.
unfoldable pub increase_fault_count : String → Option ℕ → State → Option State
increase_fault_count key start s = plus_one (lookup key s.fault_key_count) start >>= λ v.
    some (record s { fault_key_count = insert key v s.fault_key_count })

-- The number of this call, from 1.
abbrev pub count_call : Option ℕ → String → State → Option (ℕ × State)
count_call none key s = increase_fault_count key (some 1) s >>= λ s'. some (1, s')
count_call (some count) key s =
    if eqb count 1
    then (increase_fault_count key none s >>= λ s'. some (count, s'))
    else some (count, s)

-- `percentage == failureCount`, with an interface that may be nil.
abbrev pub is_count : ℕ → Option ℕ → Bool
is_count percentage none = false
is_count percentage (some failures) = eqb percentage failures

abbrev pub initial_count : Option ℕ → ℕ
initial_count none = 0
initial_count (some n) = n

-- Whether the call is answered by a fault, and the counters after it.
unfoldable pub take_decision : FaultType → Fault → String → ℕ → ℕ × State → Option (Answer × State)
unfolding calculate_percentage increment_key_count inject_fault increase_fault_count
take_decision kind fault key percent (count, s) =
    let percentage = calculate_percentage count percent in
    let failures = lookup key s.fault_key_count in
    let initial = lookup key s.initial_key_count in
    let counted = increment_key_count key (count + 1) in
    let first : Option (Answer × State) = plus_one initial (some 1) >>= λ v. some (
      inject_fault kind fault
        (counted (record s { initial_key_count = insert key v s.initial_key_count }))) in
    let later : Option (Answer × State) =
      increase_fault_count key none s >>= λ s'. some (inject_fault kind fault (counted s')) in
    if is_count percentage failures && not (eqb (initial_count initial) 1)
    then first
    else if not (is_count percentage failures) && ltb 1 percentage
    then later
    else some (nothing, counted s)

-- `ApplyFaultInjection`
unfoldable pub apply_fault_injection :
    FaultType → Fault → String → ℕ → State → Option (Answer × State)
unfolding check_percent increase_fault_count take_decision
apply_fault_injection kind fault key percent s =
    let s1 = check_percent key percent s in
    count_call (lookup key s1.invoked_count) key s1 >>= λ counted.
    take_decision kind fault key percent counted

-- `ValidateAndApplyFault`: the part for the delay, and the part for the abort of the fault that
-- this left.
unfoldable pub delay_part : Fault → String → State → Option (Answer × (Fault × State))
unfolding validate_fault_delay apply_fault_injection
delay_part fault key s =
    let (f, invalid) = validate_fault_delay fault in
    let s' = if has_abort f then record s { abort_needed = true } else s in
    let applied : Option (Answer × (Fault × State)) =
      apply_fault_injection delay_type f key (pos_part f.delay.percent) s' >>= λ (a, s'').
      some (a, (f, s'')) in
    let failed : String → Answer = λ e. record { slept = pos 0; error = some e } in
    if has_delay fault
    then elim invalid [ none ↦ applied | some e ↦ some (failed e, (f, s)) ]
    else some (nothing, (fault, s))

unfoldable pub abort_part : Fault → String → State → Option (Answer × State)
unfolding validate_fault_abort apply_fault_injection
abort_part fault key s =
    let (f, invalid) = validate_fault_abort fault in
    let failed : String → Answer = λ e. record { slept = pos 0; error = some e } in
    let cleared = record s { abort_needed = false; delay_applied = false } in
    let valid : Option (Answer × State) =
      if s.abort_needed && s.delay_applied
      then some (failed "injecting abort and delay", cleared)
      else if not s.abort_needed
      then apply_fault_injection abort_type f key (pos_part f.abort.percent) s
      else some (nothing, s) in
    if has_abort fault
    then elim invalid [ none ↦ valid | some e ↦ some (failed e, s) ]
    else some (nothing, s)

-- The answer of the second part after that of the first: an error ends the first.
abbrev pub after_delay :
    Option String → ℤ → Option (Answer × State) → State → Option (Answer × State)
after_delay (some e) t next s = some (record { slept = t; error = some e }, s)
after_delay none t next s = next >>= λ (a, s'). some (record a { slept = t }, s')

unfoldable pub validate_and_apply_fault : Fault → String → State → Option (Answer × State)
unfolding delay_part abort_part
validate_and_apply_fault fault key s =
    delay_part fault key s >>= λ (a, (f, s')). after_delay a.error a.slept (abort_part f key s') s'
