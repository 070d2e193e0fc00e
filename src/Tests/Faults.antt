-- ===== src/Tests/Faults.antt =====
-- The fault injection of core/fault on small data.
use go_chassis.Prelude.{
  ◌*◌, ◌/◌, ◌≡◌, refl, arith, List, [], ◌∷◌, some, true, false, pos, lookup, insert,
}
use go_chassis.Fault.{
  State, Fault, Answer, abort_type, nothing, validate_and_apply_fault, delay_part, abort_part,
  apply_fault_injection, check_percent, take_decision, increase_fault_count, inject_fault,
  increment_key_count, calculate_percentage,
}
use go_chassis.Fault.Counters.{faults, calls}
use go_chassis.Fault.Share.{calls-share}

abbrev refuse : Fault
refuse = record {
  abort = record { percent = pos 0; http_status = pos 503 };
  delay = record { percent = pos 0; fixed_delay = pos 0 };
}

abbrev fresh : State
fresh = record {
  fault_key_count = [];
  initial_key_count = [];
  invoked_count = [];
  percen_store = [];
  abort_needed = false;
  delay_applied = false;
}

calls-share_example :
    (answers : List Answer) × (s' : State) × (calls abort_type refuse "cart" 30 10 fresh
      ≡ some (answers, s'))
    × (faults answers ≡ 10 * 30 / 100)
unfolding lookup
calls-share_example =
    calls-share abort_type refuse "cart" 10 30 fresh (omega arith) refl refl refl refl refl

-- After 50 calls that were all answered by a fault.
abbrev busy : State
busy = record fresh {
  fault_key_count = ("cart", 50) ∷ [];
  initial_key_count = ("cart", 1) ∷ [];
  invoked_count = ("cart", 51) ∷ [];
}

abbrev both : Fault
both = record {
  abort = record { percent = pos 0; http_status = pos 503 };
  delay = record { percent = pos 10; fixed_delay = pos 2000000 };
}

-- The first call with a delay and an abort leaves the flag for the abort up.
abbrev waiting : State
waiting = record fresh {
  fault_key_count = ("cart", 1) ∷ [];
  invoked_count = ("cart", 2) ∷ [];
  abort_needed = true;
}

first_of_both : validate_and_apply_fault both "cart" fresh ≡ some (nothing, waiting)
unfolding validate_and_apply_fault delay_part abort_part apply_fault_injection check_percent
    take_decision increase_fault_count inject_fault increment_key_count calculate_percentage lookup
    insert
first_of_both = refl
