-- ===== src/LoadBalancer/Chosen.antt =====
-- Which instance the strategies of core/loadbalancer return: session_stickiness_strategy.go and
-- latency_strategy.go.
use native.Mathlib.Nat.{mod-lt}
use go_chassis.Prelude.{
  ℕ, ◌%◌, ◌<◌, ◌≡◌, refl, sym, ap, inl, inr, arith, String, List, [], ◌∷◌, Option, none, some, true,
  ◌==◌, ltb, eq_iff, pos, inc_int, lookup, value_or, length, get_or, get_elem?-get_or, Any,
  Bool-cases,
}
use go_chassis.Instance.{MicroServiceInstance}
use go_chassis.LoadBalancer.{
  State, find_addr, endpoint, default_endpoint, sticky_turn, shared_turn, session_pick,
  weighted_pick, at_counter,
}

-- `x` is one of the instances.
abbrev pub Among : MicroServiceInstance → List MicroServiceInstance → Type 0
Among x l = Any (λ (y : MicroServiceInstance). y ≡ x) l

module _ (ep : MicroServiceInstance → String) (addr : String) where
  find_addr-hit :
      (l : List MicroServiceInstance)
      → Any (λ (y : MicroServiceInstance). ep y ≡ addr) l
      → (x : MicroServiceInstance) × (find_addr ep addr l ≡ some x) × (ep x ≡ addr) × Among x l
  unfolding find_addr
  find_addr-hit [] h = absurd h
  find_addr-hit (y ∷ ys) h = elim (Bool-cases (addr == ep y)) [
    | inl e ↦ (y, ground arith, sym ((eq_iff addr (ep y)).0 e), inl refl)
    | inr ne ↦ elim h [
      | inl same ↦ absurd (let e = (eq_iff addr (ep y)).1 (sym same) in cc)
      | inr later ↦ let (x, f, a, m) = find_addr-hit ys later in (x, rw ne f, a, inr m)
    ]
  ]

  find_addr-miss :
      (l : List MicroServiceInstance)
      → ¬ Any (λ (y : MicroServiceInstance). ep y ≡ addr) l
      → find_addr ep addr l ≡ none
  unfolding find_addr
  find_addr-miss [] h = refl
  find_addr-miss (y ∷ ys) h = elim (Bool-cases (addr == ep y)) [
    | inl e ↦ absurd (h (inl (sym ((eq_iff addr (ep y)).0 e))))
    | inr ne ↦ rw ne (find_addr-miss ys (λ later. h (inr later)))
  ]

-- A session that is bound to an address goes to an instance of the list with that address, when
-- there is one, and the turns of the other sessions do not change.
pub session_pick-sticks :
    (l : List MicroServiceInstance) (addr : String) (s : State)
    → Any (λ (y : MicroServiceInstance). default_endpoint y ≡ addr) l
    → (x : MicroServiceInstance) × (session_pick l (some addr) s ≡ some (some x, s))
      × (default_endpoint x ≡ addr)
      × Among x l
unfolding session_pick
session_pick-sticks l addr s h =
    let (x, f, a, m) = find_addr-hit (λ y. default_endpoint y) addr l h in (x, rw f refl, a, m)

-- A session whose address no instance has any more is served in turn: by the instance at the
-- package's counter, modulo the number of instances, and the counter is increased.
pub session_pick-moves :
    (ins : MicroServiceInstance) (rest : List MicroServiceInstance) (addr : String) (s : State)
    (n : ℕ)
    → s.i ≡ pos n
    → ¬ Any (λ (y : MicroServiceInstance). default_endpoint y ≡ addr) (ins ∷ rest)
    → session_pick (ins ∷ rest) (some addr) s
      ≡ some (
        some (get_or (ins ∷ rest) (n % length (ins ∷ rest)) ins),
        record s { i = inc_int (pos n) },
      )
unfolding session_pick sticky_turn shared_turn at_counter
session_pick-moves ins rest addr s n e h =
    let inside =
      get_elem?-get_or (ins ∷ rest) (n % length (ins ∷ rest)) ins (mod-lt n (omega arith)) in
    rw (find_addr-miss (λ y. default_endpoint y) addr (ins ∷ rest) h) (rw e (rw inside refl))

-- Seven times out of ten the latency strategy returns an instance with the fastest address.
pub weighted_pick-fastest :
    (l : List MicroServiceInstance) (protocol addr : String) (others : List String) (random : ℕ)
    (s : State)
    → random < 70
    → Any (λ (y : MicroServiceInstance). endpoint protocol y ≡ addr) l
    → (x : MicroServiceInstance) × (weighted_pick l protocol (addr ∷ others) random s
        ≡ some (some x, s))
      × (endpoint protocol x ≡ addr)
      × Among x l
unfolding weighted_pick
weighted_pick-fastest l protocol addr others random s small h =
    let (x, f, a, m) = find_addr-hit (λ y. endpoint protocol y) addr l h in
    let t : ltb random 70 ≡ true = ground arith in (x, rw t (rw f refl), a, m)

-- While there are no statistics, seven times out of ten the latency strategy returns an instance
-- without an address for the protocol, whenever the list has one.
pub weighted_pick-no_stats :
    (l : List MicroServiceInstance) (protocol : String) (random : ℕ) (s : State)
    → random < 70
    → Any (λ (y : MicroServiceInstance). lookup protocol y.endpoints_map ≡ none) l
    → (x : MicroServiceInstance) × (weighted_pick l protocol [] random s ≡ some (some x, s))
      × (endpoint protocol x ≡ "")
      × Among x l
unfolding weighted_pick
weighted_pick-no_stats l protocol random s small h =
    let (x, f, a, m) = find_addr-hit (λ y. endpoint protocol y) "" l (without l h) in
    let t : ltb random 70 ≡ true = ground arith in (x, rw t (rw f refl), a, m)
  where
    without :
        (l : List MicroServiceInstance)
        → Any (λ (y : MicroServiceInstance). lookup protocol y.endpoints_map ≡ none) l
        → Any (λ (y : MicroServiceInstance). endpoint protocol y ≡ "") l
    without [] h = h
    without (y ∷ ys) (inl e) = inl (ap (λ (o : Option String). value_or o "") e)
    without (y ∷ ys) (inr later) = inr (without ys later)
