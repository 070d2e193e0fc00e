-- ===== src/Prelude/Numerals.antt =====
-- `strconv.Atoi` of Go's standard library, for a 64-bit `int`: the value, and whether there was
-- no error. On an error the value is 0, or the nearest bound where the number is out of range.
use Prim.Native.Nat.{ℕ, ◌+◌, ◌-◌, ◌*◌}
use Prim.Native.Char.{code}
use Prim.Native.String.{String}
use mathlib.Core.Bool.{Bool, true, false, ◌&&◌}
use mathlib.Core.Option.{Option, none, some}
use go_chassis.Prelude.Tests.{ltb, leb, eqb, if◌then◌else◌}
use go_chassis.Prelude.Int.{ℤ, pos, negsuc, max_int}

abbrev max_uint : ℕ
max_uint = 18446744073709551615

-- The digits, up to the first that passes the largest `uint64`; `none` is a character that is no
-- digit.
unfoldable pub digits_value : ℕ → String → Option ℕ
digits_value n String.[] = some n
digits_value n (String.◌∷◌ ch rest) =
    let c = code ch in
    let n' = n * 10 + (c - b'0') in
    let more = digits_value n' rest in
    if leb b'0' c && leb c b'9' then (if ltb max_uint n' then some n' else more) else none

unsigned : String → Option ℕ
unfolding digits_value
unsigned String.[] = none
unsigned (String.◌∷◌ ch rest) = digits_value 0 (String.◌∷◌ ch rest)

signed_value : Bool → Option ℕ → ℤ × Bool
signed_value negative none = (pos 0, false)
signed_value false (some n) = if ltb max_int n then (pos max_int, false) else (pos n, true)
signed_value true (some n) =
    if ltb (max_int + 1) n
    then (negsuc max_int, false)
    else ((if eqb n 0 then pos 0 else negsuc (n - 1)), true)

unfoldable pub atoi : String → ℤ × Bool
unfolding unsigned signed_value
atoi String.[] = (pos 0, false)
atoi (String.◌∷◌ ch rest) =
    if eqb (code ch) b'-'
    then signed_value true (unsigned rest)
    else if eqb (code ch) b'+'
    then signed_value false (unsigned rest)
    else signed_value false (unsigned (String.◌∷◌ ch rest))
