-- ===== src/LoadBalancer/Strategies.antt =====
-- The strategies of core/loadbalancer behind one interface, and the table of strategies of
-- strategy.go and load_balancer.go.
use go_chassis.Prelude.{
  ℕ, zero, suc, ◌%◌, ◌≡◌, inl, inr, String, List, [], ◌∷◌, Option, none, some, Bool, true, false,
  ◌==◌, ltb, eqb, ℤ, pos, negsuc, inc_int, Dict, lookup, insert, length, get_elem?, ◌>>=◌,
  if◌then◌else◌,
}
use go_chassis.Instance.{MicroServiceInstance}
use go_chassis.LoadBalancer.{
  State, Picked, pick, round_robin, random_pick, shared_turn, sticky_turn, session_pick,
  weighted_pick, find_addr, found_or, at_counter, endpoint, default_endpoint,
}
use go_chassis.LoadBalancer.Chosen.{Among}

-- What `ReceiveData` hands to a strategy besides the instances, and what the strategies read of
-- their surroundings: a random number, the address of the session, and the addresses of the
-- statistics, the fastest first.
pub record Request : Type 0 where
  pub service_key : String
  pub protocol : String
  pub session_addr : Option String
  pub stats : List String
  pub random : ℕ

-- `Strategy`: `Pick` after `ReceiveData`, and that it returns one of the instances.
pub record Strategy : Type 0 where
  pub pick : List MicroServiceInstance → Request → State → Option Picked
  pub pick-Among :
      (l : List MicroServiceInstance) (r : Request) (s s' : State) (x : MicroServiceInstance)
      → pick l r s ≡ some (some x, s')
      → Among x l

-- What a pick returns is among the instances.
abbrev Within : List MicroServiceInstance → Option Picked → Type 0
Within l o = (s' : State) (x : MicroServiceInstance) → o ≡ some (some x, s') → Among x l

elem-Among :
    (l : List MicroServiceInstance) (n : ℕ) (x : MicroServiceInstance)
    → get_elem? l n ≡ some x
    → Among x l
elem-Among [] n x h = cc
elem-Among (y ∷ ys) zero x h = inl (cc)
elem-Among (y ∷ ys) (suc n) x h = inr (elem-Among ys n x h)

at_counter-Among :
    (l : List MicroServiceInstance) (i : ℤ) (x : MicroServiceInstance)
    → at_counter l i ≡ some x
    → Among x l
unfolding at_counter
at_counter-Among l (pos n) x = elem-Among l (n % length l) x
at_counter-Among l (negsuc n) x =
    elim (eqb (suc n % length l) 0)
      as (λ (b : Bool). (if b then get_elem? l 0 else none) ≡ some x → Among x l) [
        | true ↦ elem-Among l 0 x
        | false ↦ λ h. cc
      ]

-- A pick that gives what `o` holds.
held :
    (l : List MicroServiceInstance) (o : Option MicroServiceInstance) (s : State)
    → ((x : MicroServiceInstance) → o ≡ some x → Among x l)
    → Within l (o >>= λ x. some (some x, s))
held l none s among s' x h = cc
held l (some y) s among s' x h = among x (cc)

find_addr-Among :
    (ep : MicroServiceInstance → String) (addr : String) (l : List MicroServiceInstance)
    (x : MicroServiceInstance)
    → find_addr ep addr l ≡ some x
    → Among x l
unfolding find_addr
find_addr-Among ep addr [] x = λ h. cc
find_addr-Among ep addr (y ∷ ys) x =
    elim (addr == ep y)
      as (λ (b : Bool). (if b then some y else find_addr ep addr ys) ≡ some x → Among x (y ∷ ys)) [
        | true ↦ λ h. inl (cc)
        | false ↦ λ h. inr (find_addr-Among ep addr ys x h)
      ]

found_or-Within :
    (l : List MicroServiceInstance) (o : Option MicroServiceInstance) (s : State)
    (turn : Option Picked)
    → ((x : MicroServiceInstance) → o ≡ some x → Among x l)
    → Within l turn
    → Within l (found_or o s turn)
found_or-Within l none s turn a b s' x h = b s' x h
found_or-Within l (some y) s turn a b s' x h = a x (cc)

shared_turn-Within : (l : List MicroServiceInstance) (s : State) → Within l (shared_turn l s)
unfolding shared_turn
shared_turn-Within l s =
    held l (at_counter l s.i) (record s { i = inc_int s.i }) (at_counter-Among l s.i)

sticky_turn-Within : (l : List MicroServiceInstance) (s : State) → Within l (sticky_turn l s)
unfolding sticky_turn
sticky_turn-Within [] s = λ s' x h. cc
sticky_turn-Within (y ∷ ys) s = shared_turn-Within (y ∷ ys) s

pub round_robin-Within :
    (l : List MicroServiceInstance) (key : String) (random : ℕ) (s : State)
    → Within l (round_robin l key random s)
unfolding round_robin
round_robin-Within [] key random s = λ s' x h. cc
round_robin-Within (y ∷ ys) key random s =
    let (i, m) = pick key random s.rr_idx_map in
    held (y ∷ ys) (at_counter (y ∷ ys) i) (record s { rr_idx_map = m })
      (at_counter-Among (y ∷ ys) i)

pub random_pick-Within :
    (l : List MicroServiceInstance) (random : ℕ) (s : State) → Within l (random_pick l random s)
unfolding random_pick
random_pick-Within [] random s = λ s' x h. cc
random_pick-Within (y ∷ ys) random s =
    let n = random % length (y ∷ ys) in
    held (y ∷ ys) (get_elem? (y ∷ ys) n) s (elem-Among (y ∷ ys) n)

pub session_pick-Within :
    (l : List MicroServiceInstance) (addr : Option String) (s : State)
    → Within l (session_pick l addr s)
unfolding session_pick
session_pick-Within l none s = sticky_turn-Within l s
session_pick-Within l (some addr) s =
    found_or-Within l (find_addr default_endpoint addr l) s (sticky_turn l s)
      (find_addr-Among default_endpoint addr l) (sticky_turn-Within l s)

pub weighted_pick-Within :
    (l : List MicroServiceInstance) (protocol : String) (stats : List String) (random : ℕ)
    (s : State)
    → Within l (weighted_pick l protocol stats random s)
unfolding weighted_pick
weighted_pick-Within l protocol stats random s =
    elim (ltb random 70)
      as (λ (b : Bool). Within l (
        if b
        then found_or (find_addr (endpoint protocol) (elim stats [ [] ↦ "" | a ∷ _ ↦ a ]) l) s
            (shared_turn l s)
        else shared_turn l s)) [
          | true ↦
              found_or-Within l _ s (shared_turn l s) (find_addr-Among (endpoint protocol) _ l)
                (shared_turn-Within l s)
          | false ↦ shared_turn-Within l s
        ]

-- `strategies` after `Enable`: the four strategies under their names.
unfoldable pub strategies : Dict Strategy
strategies =
    (
      "Random",
      record {
        pick = λ l r s. random_pick l r.random s;
        pick-Among = λ l r s. random_pick-Within l r.random s;
      },
    )
    ∷ (
      "RoundRobin",
      record {
        pick = λ l r s. round_robin l r.service_key r.random s;
        pick-Among = λ l r s. round_robin-Within l r.service_key r.random s;
      },
    )
    ∷ (
      "SessionStickiness",
      record {
        pick = λ l r s. session_pick l r.session_addr s;
        pick-Among = λ l r s. session_pick-Within l r.session_addr s;
      },
    )
    ∷ (
      "WeightedResponse",
      record {
        pick = λ l r s. weighted_pick l r.protocol r.stats r.random s;
        pick-Among = λ l r s. weighted_pick-Within l r.protocol r.stats r.random s;
      },
    )
    ∷ []

-- `InstallStrategy`, `GetStrategyPlugin`
unfoldable pub install_strategy : String → Strategy → Dict Strategy → Dict Strategy
install_strategy name s table = insert name s table

unfoldable pub get_strategy_plugin : String → Dict Strategy → Option Strategy
get_strategy_plugin name table = lookup name table
