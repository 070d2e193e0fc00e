-- ===== src/Router/Sort.antt =====
-- `QuickSort` of core/router/router.go, which puts the rules of highest precedence first. A slice
-- is a list that is read and written by index; every index of the code stays between `left` and
-- `right`. `right` and `i - 1` may be -1 in the source, where `left >= right` ends the call; they
-- are 0 here, with the same outcome.
pub mod Moves
pub mod Partition
pub mod Sorted
use go_chassis.Prelude.{
  ℕ, zero, suc, ◌+◌, ◌-◌, List, Option, none, some, Bool, true, false, ◌&&◌, ltb, leb, eqb, ℤ,
  leb_ℤ, length, get_or, set, ◌>>=◌, if◌then◌else◌,
}
use go_chassis.Config.{RouteRule, zero_rule}

abbrev pub at : List RouteRule → ℕ → RouteRule
at s i = get_or s i zero_rule

abbrev pub prec : List RouteRule → ℕ → ℤ
prec s i = (at s i).precedence

-- `for s[j].Precedence <= base.Precedence && i < j { j-- }`
unfoldable pub down : List RouteRule → ℤ → ℕ → ℕ → ℕ
down s base i zero = zero
down s base i (suc j) =
    let rest = down s base i j in
    if leb_ℤ (prec s (suc j)) base && ltb i (suc j) then rest else suc j

-- `for s[i].Precedence >= base.Precedence && i < j { i++ }`, for at most `gap` rounds.
unfoldable pub up : List RouteRule → ℤ → ℕ → ℕ → ℕ → ℕ
up s base j zero i = i
up s base j (suc gap) i =
    let rest = up s base j gap (suc i) in if leb_ℤ base (prec s i) && ltb i j then rest else i

unfoldable pub swap : List RouteRule → ℕ → ℕ → List RouteRule
swap s i j = set (set s i (at s j)) j (at s i)

-- `s[left] = s[i]; s[i] = base`
unfoldable pub place : List RouteRule → ℕ → ℕ → RouteRule → List RouteRule
place s left i base = set (set s left (at s i)) i base

-- `for i != j { ... }`: the slice and the place where the indices meet; `none` at the end of the
-- fuel. Each round raises `i`, so `j - i` rounds are enough.
unfoldable pub partition : ℕ → List RouteRule → ℤ → ℕ → ℕ → Option (List RouteRule × ℕ)
unfolding down up swap
partition zero s base i j = if eqb i j then some (s, i) else none
partition (suc fuel) s base i j =
    let j' = down s base i j in
    let i' = up s base j' (j' - i) i in
    let rest = partition fuel (if ltb i' j' then swap s i' j' else s) base i' j' in
    if eqb i j then some (s, i) else rest

-- `QuickSort`; `none` at the end of the fuel, and `right - left` levels are enough.
unfoldable pub quick_sort : ℕ → ℕ → ℕ → List RouteRule → Option (List RouteRule)
quick_sort zero left right rules = if leb right left then some rules else none
quick_sort (suc fuel) left right rules =
    let base = at rules left in
    let rest = partition (right - left) rules base.precedence left right >>= λ r.
    quick_sort fuel left (r.1 - 1) (place r.0 left r.1 base) >>= λ s.
    quick_sort fuel (r.1 + 1) right s in
    if leb right left then some rules else rest

-- `QuickSort(0, len(slice)-1, slice)` of `SortRules`.
unfoldable pub sort_slice : List RouteRule → Option (List RouteRule)
sort_slice slice = quick_sort (length slice) 0 (length slice - 1) slice
