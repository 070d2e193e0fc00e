-- ===== src/Highway/Pool.antt =====
-- The connections of a client, client/highway/highway_base_client.go. A connection is the number of its
-- socket, and it is closed when its socket is no longer open. What comes of dialling, with the
-- handshake behind it, is a parameter.
pub mod Opened
pub mod Used
use go_chassis.Prelude.{
  ℕ, zero, suc, ◌+◌, ◌%◌, ◌≡◌, String, List, [], ◌∷◌, Option, none, some, Bool, true, false, not,
  eqb, Dict, lookup, insert, remove, keep, length, get_or, set, if◌then◌else◌,
}

pub data Dial : Type 0 where
  unreachable : Dial
  refused : Dial
  connected : Dial

pub record Sockets : Type 0 where
  pub open_ones : List ℕ
  pub next : ℕ

-- `makeConnection`; when the handshake is refused, the connection is closed and the line of the log panics.
pub data Made : Type 0 where
  made : ℕ → Made
  dial_error : Made
  panicked : Made

unfoldable pub make_connection : Dial → Sockets → Made × Sockets
make_connection unreachable s = (dial_error, s)
make_connection refused s = (panicked, record s { next = suc s.next })
make_connection connected s =
    (made s.next, record { open_ones = s.next ∷ s.open_ones; next = suc s.next })

-- `Close` and `Closed` of a connection
abbrev pub is_open : ℕ → List ℕ → Bool
is_open n [] = false
is_open n (k ∷ ks) = if eqb n k then true else is_open n ks

abbrev pub other_than : ℕ → ℕ → Bool
other_than n k = not (eqb n k)

unfoldable pub close_socket : ℕ → List ℕ → List ℕ
unfolding keep
close_socket n sockets = keep (other_than n) sockets

-- The part of `BaseClient` that this is about.
pub record Pool : Type 0 where
  pub conn_num : ℕ
  pub highway_conns : List (Option ℕ)
  pub closed : Bool

pub data Ended : Type 0 where
  done : Ended
  failed : Ended
  broken : Ended

abbrev pub nones : ℕ → List (Option ℕ)
nones zero = []
nones (suc k) = none ∷ nones k

-- The loop of `initConns`, with the slots that are still to be filled.
abbrev pub with_slot : ℕ → Ended × List (Option ℕ) × Sockets → Ended × List (Option ℕ) × Sockets
with_slot n (r, conns, s) = (r, some n ∷ conns, s)

unfoldable pub fill : ℕ → ℕ → (ℕ → Dial) → Sockets → Ended × List (Option ℕ) × Sockets
unfolding make_connection
fill zero i dials s = (done, [], s)
fill (suc k) i dials s = elim (make_connection (dials i) s).0 [
  | made n ↦ with_slot n (fill k (suc i) dials (make_connection (dials i) s).1)
  | dial_error ↦ (failed, nones (suc k), (make_connection (dials i) s).1)
  | panicked ↦ (broken, nones (suc k), (make_connection (dials i) s).1)
]

-- `clearConns`
abbrev pub close_all : List (Option ℕ) → List ℕ → List ℕ
unfolding close_socket
close_all [] sockets = sockets
close_all (none ∷ conns) sockets = close_all conns sockets
close_all (some n ∷ conns) sockets = close_all conns (close_socket n sockets)

abbrev pub clear_conns : Pool → Sockets → Pool × Sockets
unfolding close_all
clear_conns p s = (
  record p { highway_conns = nones (length p.highway_conns) },
  record s { open_ones = close_all p.highway_conns s.open_ones },
)

-- `Open`
unfoldable pub opened : Pool → Ended × List (Option ℕ) × Sockets → Ended × Pool × Sockets
unfolding clear_conns
opened p (done, conns, s) = (done, record p { highway_conns = conns; closed = false }, s)
opened p (failed, conns, s) =
    let (p', s') = clear_conns (record p { highway_conns = conns }) s in (failed, p', s')
opened p (broken, conns, s) = (broken, record p { highway_conns = conns }, s)

abbrev pub connections_of : Pool → ℕ
connections_of p = if eqb p.conn_num 0 then 4 else p.conn_num

unfoldable pub open_client : (ℕ → Dial) → Pool → Sockets → Ended × Pool × Sockets
unfolding fill opened
open_client dials p s =
    opened (record p { conn_num = connections_of p }) (fill (connections_of p) 0 dials s)

-- `Close` of the client, without the calls that wait
unfoldable pub close_client : Pool → Sockets → Pool × Sockets
unfolding clear_conns
close_client p s =
    if p.closed then (p, s) else (record (clear_conns p s).0 { closed = true }, (clear_conns p s).1)

-- The beginning of `Send`: the connection on which it writes.
unfoldable pub redialled : ℕ → Pool → Made × Sockets → Option ℕ × Pool × Sockets
redialled idx p (made n, s) =
    (some n, record p { highway_conns = set p.highway_conns idx (some n) }, s)
redialled idx p (dial_error, s) = (none, p, s)
redialled idx p (panicked, s) = (none, p, s)

abbrev pub usable : Option ℕ → Sockets → Bool
usable none s = false
usable (some n) s = is_open n s.open_ones

unfoldable pub connection_of : Dial → ℕ → Pool → Sockets → Option ℕ × Pool × Sockets
unfolding make_connection redialled
connection_of dial msg_id p s =
    let idx = msg_id % p.conn_num in
    let conn = get_or p.highway_conns idx none in
    if p.closed
    then (none, p, s)
    else if usable conn s
    then (conn, p, s)
    else redialled idx p (make_connection dial s)

-- `GetClient`; a client is a number, and what opening a new one gives is a parameter.
unfoldable pub stored : String → Option ℕ → Dict ℕ → Option ℕ × Dict ℕ
unfolding insert
stored addr none clients = (none, clients)
stored addr (some c) clients = (some c, insert addr c clients)

unfoldable pub of_cached : (ℕ → Bool) → Option ℕ → String → Option ℕ → Dict ℕ → Option ℕ × Dict ℕ
unfolding stored remove
of_cached is_closed new addr none clients = stored addr new clients
of_cached is_closed new addr (some c) clients =
    if is_closed c then stored addr new (remove addr clients) else (some c, clients)

unfoldable pub get_client : (ℕ → Bool) → Option ℕ → String → Dict ℕ → Option ℕ × Dict ℕ
unfolding of_cached lookup
get_client is_closed new addr clients = of_cached is_closed new addr (lookup addr clients) clients
