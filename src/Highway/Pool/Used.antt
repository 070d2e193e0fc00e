-- ===== src/Highway/Pool/Used.antt =====
-- The connection on which a client of client/highway/highway_base_client.go writes, and the client of an address.
use go_chassis.Prelude.{
  ℕ, ◌%◌, ◌<◌, ◌≡◌, refl, inl, inr, arith, String, ◌∷◌, Option, none, some, Bool, true, false, eqb,
  length, get_or, get_or-set_self, Bool-cases, Dict, lookup, remove, lookup-insert_self,
  Option-cases, subst,
}
use go_chassis.Highway.Pool.{
  Dial, unreachable, refused, connected, Sockets, make_connection, is_open, Pool, redialled,
  connection_of, stored, of_cached, get_client,
}

is_open_newest : (s : Sockets) → is_open s.next (s.next ∷ s.open_ones) ≡ true
is_open_newest s = let e : eqb s.next s.next ≡ true = ground arith in rw e refl

abbrev Kept : ℕ → Option ℕ × Pool × Sockets → Type 0
Kept idx (none, p, s) = Unit
Kept idx (some n, p, s) =
    (is_open n s.open_ones ≡ true) × (get_or p.highway_conns idx none ≡ some n)

redialled-Kept :
    (dial : Dial) (idx : ℕ) (p : Pool) (s : Sockets)
    → idx < length p.highway_conns
    → Kept idx (redialled idx p (make_connection dial s))
unfolding make_connection redialled
redialled-Kept unreachable idx p s h = tt
redialled-Kept refused idx p s h = tt
redialled-Kept connected idx p s h =
    (is_open_newest s, get_or-set_self p.highway_conns idx (some s.next) none h)

connection_of-Kept :
    (dial : Dial) (msg_id : ℕ) (p : Pool) (s : Sockets)
    → msg_id % p.conn_num < length p.highway_conns
    → Kept (msg_id % p.conn_num) (connection_of dial msg_id p s)
unfolding connection_of
connection_of-Kept dial msg_id p s h =
    let idx = msg_id % p.conn_num in
    elim (Bool-cases p.closed) [
      | inl c ↦ rw c tt
      | inr c ↦ elim (Option-cases (get_or p.highway_conns idx none)) [
        | inl g ↦ simp (c, g) (redialled-Kept dial idx p s h)
        | inr (n, g) ↦ elim (Bool-cases (is_open n s.open_ones)) [
          | inl o ↦ simp (c, g, o) (refl, refl)
          | inr o ↦ simp (c, g, o) (redialled-Kept dial idx p s h)
        ]
      ]
    ]

-- The connection that Send writes on is open, and is kept in the slot of the identifier: if
-- the client has that many slots, at least one.
pub connection_of-open :
    (dial : Dial) (msg_id n : ℕ) (p p' : Pool) (s s' : Sockets)
    → length p.highway_conns ≡ p.conn_num
    → 0 < p.conn_num
    → connection_of dial msg_id p s ≡ (some n, p', s')
    → (is_open n s'.open_ones ≡ true)
      × (get_or p'.highway_conns (msg_id % p.conn_num) none ≡ some n)
connection_of-open dial msg_id n p p' s s' l some_slot e =
    let idx : msg_id % p.conn_num < length p.highway_conns = omega (arith, l, some_slot) in
    subst (Kept (msg_id % p.conn_num)) e (connection_of-Kept dial msg_id p s idx)

abbrev Live : (ℕ → Bool) → String → Option ℕ × Dict ℕ → Type 0
Live is_closed addr (none, clients) = Unit
Live is_closed addr (some c, clients) = (lookup addr clients ≡ some c) × (is_closed c ≡ false)

stored-Live :
    (is_closed : ℕ → Bool) (new : Option ℕ) (addr : String) (clients : Dict ℕ)
    → ((c : ℕ) → new ≡ some c → is_closed c ≡ false)
    → Live is_closed addr (stored addr new clients)
unfolding stored
stored-Live is_closed none addr clients fresh = tt
stored-Live is_closed (some c) addr clients fresh =
    (lookup-insert_self addr c clients, fresh c refl)

-- The client that is given for an address is stored under it, and it is not closed, if a new one is not.
pub get_client-stored :
    (is_closed : ℕ → Bool) (new : Option ℕ) (addr : String) (clients clients' : Dict ℕ) (c : ℕ)
    → ((d : ℕ) → new ≡ some d → is_closed d ≡ false)
    → get_client is_closed new addr clients ≡ (some c, clients')
    → (lookup addr clients' ≡ some c) × (is_closed c ≡ false)
unfolding get_client of_cached
get_client-stored is_closed new addr clients clients' c fresh e = subst (Live is_closed addr) e live
  where
    live : Live is_closed addr (get_client is_closed new addr clients)
    live = elim (Option-cases (lookup addr clients)) [
      | inl n ↦ rw n (stored-Live is_closed new addr clients fresh)
      | inr (d, l) ↦ elim (Bool-cases (is_closed d)) [
        | inl q ↦ rw (l, q) (stored-Live is_closed new addr (remove addr clients) fresh)
        | inr q ↦ rw (l, q) (l, q)
      ]
    ]
