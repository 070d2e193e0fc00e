-- ===== src/Tests/Connections.antt =====
-- The theorems on the connections of Highway at concrete inputs.
use go_chassis.Prelude.{ℕ, zero, suc, [], ◌∷◌, true}
use go_chassis.Highway.Pool.{Dial, unreachable, connected, Sockets, Pool}

abbrev new_pool_of_two : Pool
new_pool_of_two = record { conn_num = 2; highway_conns = []; closed = true }

abbrev busy : Sockets
busy = record { open_ones = 1 ∷ []; next = 5 }

-- The first connection is made, the second cannot be dialled.
abbrev second_fails : ℕ → Dial
second_fails zero = connected
second_fails (suc n) = unreachable
