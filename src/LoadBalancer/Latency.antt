-- ===== src/LoadBalancer/Latency.antt =====
-- The latency statistics of core/loadbalancer/struct.go and latency_strategy.go. Durations are
-- numbers of nanoseconds that are not negative and whose sums stay below 2^63. The library's
-- `sort.Sort` is an insertion sort here.
use go_chassis.Prelude.{
  ℕ, ◌+◌, ◌/◌, ◌≤◌, arith, String, List, [], ◌∷◌, ◌++◌, Bool, true, false, ◌==◌, leb, Dict, lookup,
  insert, value_or, length, length-append, All, Bool-cases, inl, inr, if◌then◌else◌,
}

pub record ProtocolStats : Type 0 where
  pub latency : List ℕ
  pub addr : String
  pub avg_latency : ℕ

abbrev sum : List ℕ → ℕ
sum [] = 0
sum (x ∷ xs) = x + sum xs

abbrev tail_of : List ℕ → List ℕ
tail_of [] = []
tail_of (x ∷ xs) = xs

-- `SaveLatency`: the latest ten records.
unfoldable pub save_latency : ℕ → ProtocolStats → ProtocolStats
save_latency l ps = record ps {
  latency = (if leb 10 (length ps.latency) then tail_of ps.latency else ps.latency) ++ l ∷ [];
}

-- `CalculateAverageLatency`
unfoldable pub calculate_average_latency : ProtocolStats → ProtocolStats
calculate_average_latency ps = elim ps.latency [
  | [] ↦ ps
  | x ∷ xs ↦ record ps { avg_latency = sum (x ∷ xs) / length (x ∷ xs) }
]

-- The loop of `SetLatency`: every record of the address is changed, and whether there was one.
unfoldable pub update_stats : ℕ → String → List ProtocolStats → List ProtocolStats × Bool
update_stats l addr [] = ([], false)
update_stats l addr (v ∷ vs) =
    let (rest, exist) = update_stats l addr vs in
    if v.addr == addr then (save_latency l v ∷ rest, true) else (v ∷ rest, exist)

-- `SetLatency`, under the key that `BuildKey` makes.
unfoldable pub set_latency :
    ℕ → String → String → Dict (List ProtocolStats) → Dict (List ProtocolStats)
unfolding update_stats save_latency
set_latency l addr key m =
    let (stats, exist) = update_stats l addr (value_or (lookup key m) []) in
    let new = save_latency l (record { latency = []; addr = addr; avg_latency = 0 }) in
    insert key (if exist then stats else stats ++ new ∷ []) m

unfoldable pub insert_sorted : ProtocolStats → List ProtocolStats → List ProtocolStats
insert_sorted v [] = v ∷ []
insert_sorted v (w ∷ ws) =
    let rest = insert_sorted v ws in
    if leb v.avg_latency w.avg_latency then v ∷ w ∷ ws else w ∷ rest

-- `sort.Sort(ByDuration(v))` of `SortLatency`.
unfoldable pub sort_latency : List ProtocolStats → List ProtocolStats
unfolding insert_sorted
sort_latency [] = []
sort_latency (v ∷ vs) = insert_sorted v (sort_latency vs)

-- At most ten latencies are kept.
abbrev pub TenAtMost : List ProtocolStats → Type 0
TenAtMost vs = All (λ (v : ProtocolStats). length v.latency ≤ 10) vs

pub save_latency-le :
    (l : ℕ) (v : ProtocolStats) → length v.latency ≤ 10 → length (save_latency l v).latency ≤ 10
unfolding save_latency
save_latency-le l v h = elim (Bool-cases (leb 10 (length v.latency))) [
  | inl e ↦
      rw e (omega (arith, length-append {0} (tail_of v.latency) (l ∷ []), length-tail v.latency h))
  | inr e ↦ rw e (ground (arith, length-append {0} v.latency (l ∷ [])))
]
  where
    length-tail : (xs : List ℕ) → length xs ≤ 10 → length (tail_of xs) + 1 ≤ 10
    length-tail [] k = omega arith
    length-tail (x ∷ xs) k = omega arith
