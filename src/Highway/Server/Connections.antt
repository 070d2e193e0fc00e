-- ===== src/Highway/Server/Connections.antt =====
-- The connections of server/highway/highway_conn.go that are open are counted.
use go_chassis.Prelude.{
  ℕ, zero, suc, ◌≡◌, refl, ap, ◌∙◌, inl, inr, arith, String, List, [], ◌∷◌, ◌++◌, none, some, true,
  false, pos, ◌+ℤ◌, negsuc, get_elem?, set, Bool-cases, Option-cases, if◌then◌else◌,
}
use go_chassis.Highway.Server.{
  Connection, ConnectionMgr, new_connect_mgr, create_conn, delete_conn, close_conn, Change,
  created_conn, closed_conn, apply_changes,
}

-- How many connections are open.
abbrev pub number_open : List Connection → ℕ
number_open [] = 0
number_open (c ∷ cs) = if c.closed then number_open cs else suc (number_open cs)

number_open-create :
    (cs : List Connection) (c : Connection)
    → c.closed ≡ false
    → number_open (cs ++ (c ∷ [])) ≡ suc (number_open cs)
number_open-create [] c o = rw o refl
number_open-create (d ∷ cs) c o = elim (Bool-cases d.closed) [
  | inl e ↦ rw e (number_open-create cs c o)
  | inr e ↦ rw e (ap suc (number_open-create cs c o))
]

number_open-close :
    (cs : List Connection) (h : ℕ) (c : Connection)
    → get_elem? cs h ≡ some c
    → c.closed ≡ false
    → number_open cs ≡ suc (number_open (set cs h (record c { closed = true })))
number_open-close [] h c e o = absurd (let f : none ≡ some c = e in cc)
number_open-close (d ∷ cs) zero c e o =
    let same : d ≡ c = cc in
    let o' : d.closed ≡ false = ap (λ (c : Connection). c.closed) same ∙ o in rw o' refl
number_open-close (d ∷ cs) (suc h) c e o = elim (Bool-cases d.closed) [
  | inl q ↦ rw q (number_open-close cs h c e o)
  | inr q ↦ rw q (ap suc (number_open-close cs h c e o))
]

plus_one : (n : ℕ) → pos n +ℤ pos 1 ≡ pos (suc n)
unfolding ◌+ℤ◌
plus_one n = ground arith

minus_one : (n : ℕ) → pos (suc n) +ℤ negsuc 0 ≡ pos n
unfolding ◌+ℤ◌
minus_one n = ground arith

abbrev Counted : ConnectionMgr → Type 0
Counted mgr = mgr.count ≡ pos (number_open mgr.created)

create_conn-Counted :
    (addr : String) (mgr : ConnectionMgr) → Counted mgr → Counted (create_conn addr mgr)
unfolding create_conn ◌+ℤ◌
create_conn-Counted addr mgr e =
    rw (e, number_open-create mgr.created (record { remote_addr = addr; closed = false }) refl)
      (plus_one (number_open mgr.created))

close_conn-Counted : (h : ℕ) (mgr : ConnectionMgr) → Counted mgr → Counted (close_conn h mgr)
unfolding close_conn delete_conn ◌+ℤ◌
close_conn-Counted h mgr e = elim (Option-cases (get_elem? mgr.created h)) [
  | inl n ↦ rw n e
  | inr (c, g) ↦ elim (Bool-cases c.closed) [
    | inl q ↦ rw (g, q) e
    | inr q ↦
        rw (g, q, e, number_open-close mgr.created h c g q)
          (minus_one (number_open (set mgr.created h (record c { closed = true }))))
  ]
]

-- However connections come and end, the counter of a new server is the number of those that are open, also
-- when a connection is closed more than once.
pub apply_changes-counted :
    (changes : List Change)
    → (apply_changes changes new_connect_mgr).count
      ≡ pos (number_open (apply_changes changes new_connect_mgr).created)
unfolding apply_changes
apply_changes-counted changes = go changes new_connect_mgr refl
  where
    go :
        (changes : List Change) (mgr : ConnectionMgr)
        → Counted mgr
        → Counted (apply_changes changes mgr)
    go [] mgr e = e
    go (created_conn addr ∷ rest) mgr e =
        go rest (create_conn addr mgr) (create_conn-Counted addr mgr e)
    go (closed_conn h ∷ rest) mgr e = go rest (close_conn h mgr) (close_conn-Counted h mgr e)
