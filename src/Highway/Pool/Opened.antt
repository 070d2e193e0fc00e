-- ===== src/Highway/Pool/Opened.antt =====
-- The connections of a client of client/highway/highway_base_client.go that are open.
use go_chassis.Prelude.{
  ℕ, suc, ◌<◌, ◌≡◌, ◌⊎◌, List, ◌∷◌, Option, none, some, true, false, All, Any, length,
}
use go_chassis.Highway.Pool.{Sockets, is_open, Pool, Ended, done, failed, broken, connections_of}

-- The sockets that are open have been numbered.
abbrev pub Numbered : Sockets → Type 0
Numbered s = All (λ (n : ℕ). n < s.next) s.open_ones

abbrev one_more : Sockets → Sockets
one_more s = record { open_ones = s.next ∷ s.open_ones; next = suc s.next }

-- If no handshake is refused, the slots are all filled with connections that are open, or there is an error.
abbrev pub AllOpen : List (Option ℕ) → List ℕ → Type 0
AllOpen conns sockets =
    All (λ (c : Option ℕ). (n : ℕ) × (c ≡ some n) × (is_open n sockets ≡ true)) conns

-- A socket that is open was open before, or is in a slot of the client.
abbrev pub Accounted : List ℕ → List (Option ℕ) → List ℕ → Type 0
Accounted before conns sockets =
    (n : ℕ)
    → is_open n sockets ≡ true
    → (is_open n before ≡ true) ⊎ Any (λ (c : Option ℕ). c ≡ some n) conns

-- Every slot is empty or has a connection that is open.
abbrev pub SlotsOpen : List (Option ℕ) → List ℕ → Type 0
SlotsOpen conns sockets =
    All (λ (c : Option ℕ). (c ≡ none) ⊎ ((n : ℕ) × (c ≡ some n) × (is_open n sockets ≡ true))) conns

-- What Open leaves: all connections, or an error and none, or a panic and those that were made before it.
abbrev pub Whole : Pool → Sockets → Ended → Pool → Sockets → Type 0
Whole p s done p' s' =
    (p'.closed ≡ false)
    × (length p'.highway_conns ≡ connections_of p)
    × AllOpen p'.highway_conns s'.open_ones
Whole p s failed p' s' = (p'.closed ≡ p.closed) × (s'.open_ones ≡ s.open_ones)
Whole p s broken p' s' =
    (p'.closed ≡ p.closed)
    × SlotsOpen p'.highway_conns s'.open_ones
    × Accounted s.open_ones p'.highway_conns s'.open_ones
