-- ===== src/LoadBalancer.antt =====
-- The client side load balancer: core/loadbalancer/roundrobin.go, randam.go, strategy.go,
-- session_stickiness_strategy.go, latency_strategy.go, filter.go and load_balancer.go. What
-- `rand.Int()` and `rand.Intn(100)` return is an argument, and so is the session cache. A result is
-- `none` where the code panics; a pick gives no instance where it returns an error.
pub mod Filters
pub mod Build
pub mod Turns
pub mod Chosen
pub mod Latency
pub mod Records
pub mod Strategies
pub mod Available
use go_chassis.Prelude.{
  ℕ, zero, suc, ◌+◌, ◌%◌, String, List, [], ◌∷◌, Option, none, some, Bool, true, false, not, ◌&&◌,
  ◌==◌, ltb, eqb, ℤ, pos, negsuc, inc_int, Dict, lookup, insert, remove, value_or, length,
  get_elem?, ◌>>=◌, if◌then◌else◌,
}
use go_chassis.Instance.{MicroServiceInstance}

-- The package variables: `rrIdxMap`, the counter `i`, and the failures by cookie.
pub record State : Type 0 where
  pub rr_idx_map : Dict ℤ
  pub i : ℤ
  pub successive_failure_count : Dict ℤ

-- `pick(key)`: the read of the counter under the lock for readers, and what follows under the lock for
-- writers: the counter begins at a random number, and is increased. Between the two another call may
-- change the counters, and a call that has read a counter gives that number.
abbrev pub counter_read : String → Dict ℤ → Option ℤ
unfolding lookup
counter_read key m = lookup key m

unfoldable pub counter_write : String → ℕ → Option ℤ → Dict ℤ → ℤ × Dict ℤ
unfolding lookup insert
counter_write key random none m =
    let i = value_or (lookup key m) (pos random) in (i, insert key (inc_int i) m)
counter_write key random (some i) m = (i, insert key (inc_int (value_or (lookup key m) (pos 0))) m)

-- Both with no other call between them.
unfoldable pub pick : String → ℕ → Dict ℤ → ℤ × Dict ℤ
unfolding counter_write counter_read
pick key random m = counter_write key random (counter_read key m) m

-- `instances[i % len(instances)]`. The remainder has the sign of `i`, and a negative index panics.
unfoldable pub at_counter : List MicroServiceInstance → ℤ → Option MicroServiceInstance
at_counter instances (pos n) = get_elem? instances (n % length instances)
at_counter instances (negsuc n) =
    if eqb (suc n % length instances) 0 then get_elem? instances 0 else none

abbrev pub Picked : Type 0
Picked = Option MicroServiceInstance × State

-- `(*RoundRobinStrategy).Pick`
unfoldable pub round_robin : List MicroServiceInstance → String → ℕ → State → Option Picked
unfolding pick
round_robin [] key random s = some (none, s)
round_robin (ins ∷ rest) key random s =
    let (i, m) = pick key random s.rr_idx_map in
    at_counter (ins ∷ rest) i >>= λ x. some (some x, record s { rr_idx_map = m })

-- `(*RandomStrategy).Pick`
unfoldable pub random_pick : List MicroServiceInstance → ℕ → State → Option Picked
random_pick [] random s = some (none, s)
random_pick (ins ∷ rest) random s =
    get_elem? (ins ∷ rest) (random % length (ins ∷ rest)) >>= λ x. some (some x, s)

-- `r.instances[i%len(r.instances)]; i++`, with the package's counter; an empty list panics.
unfoldable pub shared_turn : List MicroServiceInstance → State → Option Picked
shared_turn instances s =
    at_counter instances s.i >>= λ x. some (some x, record s { i = inc_int s.i })

-- `(*SessionStickinessStrategy).pick`
unfoldable pub sticky_turn : List MicroServiceInstance → State → Option Picked
sticky_turn [] s = some (none, s)
sticky_turn (ins ∷ rest) s = shared_turn (ins ∷ rest) s

-- The first instance whose endpoint, chosen by `ep`, is `addr`.
unfoldable pub find_addr :
    (MicroServiceInstance → String)
    → String
    → List MicroServiceInstance
    → Option MicroServiceInstance
find_addr ep addr [] = none
find_addr ep addr (ins ∷ rest) = if addr == ep ins then some ins else find_addr ep addr rest

-- `instance.EndpointsMap[protocol]`
abbrev pub endpoint : String → MicroServiceInstance → String
endpoint protocol ins = value_or (lookup protocol ins.endpoints_map) ""

abbrev pub default_endpoint : MicroServiceInstance → String
default_endpoint ins = endpoint ins.default_protocol ins

-- The instance that was found, or else a turn.
abbrev pub found_or : Option MicroServiceInstance → State → Option Picked → Option Picked
found_or none s turn = turn
found_or (some ins) s turn = some (some ins, s)

-- `(*SessionStickinessStrategy).Pick`, over what `session.Get` gives for the session.
unfoldable pub session_pick : List MicroServiceInstance → Option String → State → Option Picked
unfolding sticky_turn
session_pick instances none s = sticky_turn instances s
session_pick instances (some addr) s =
    found_or (find_addr default_endpoint addr instances) s (sticky_turn instances s)

-- `(*WeightedResponseStrategy).Pick`, over `rand.Intn(100)` and the addresses of the statistics of
-- the service and the protocol, the fastest first.
unfoldable pub weighted_pick :
    List MicroServiceInstance → String → List String → ℕ → State → Option Picked
unfolding shared_turn
weighted_pick instances protocol stats random s =
    let fastest : List String → String = λ l. elim l [ [] ↦ "" | a ∷ _ ↦ a ] in
    let turn = shared_turn instances s in
    if ltb random 70
    then found_or (find_addr (endpoint protocol) (fastest stats) instances) s turn
    else turn

-- `IncreaseSuccessiveFailureCount`, `GetSuccessiveFailureCount`, `DeleteSuccessiveFailureCount`,
-- `ResetSuccessiveFailureMap`
unfoldable pub increase_failures : String → State → State
increase_failures cookie s = record s {
  successive_failure_count =
      insert cookie (inc_int (value_or (lookup cookie s.successive_failure_count) (pos 0)))
        s.successive_failure_count;
}

unfoldable pub get_failures : String → State → ℤ
get_failures cookie s = value_or (lookup cookie s.successive_failure_count) (pos 0)

unfoldable pub delete_failures : String → State → State
delete_failures cookie s = record s {
  successive_failure_count = remove cookie s.successive_failure_count;
}

unfoldable pub reset_failures : State → State
reset_failures s = record s { successive_failure_count = [] }
