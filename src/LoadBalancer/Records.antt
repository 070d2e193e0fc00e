-- ===== src/LoadBalancer/Records.antt =====
-- What `SetLatency` of core/loadbalancer/latency_strategy.go records.
use go_chassis.Prelude.{
  ℕ, ◌≤◌, ◌≡◌, refl, arith, String, List, [], ◌∷◌, ◌++◌, some, true, ◌==◌, Dict, lookup,
  lookup-insert_self, value_or, length, Any, Bool-cases, inl, inr, eq_iff,
}
use go_chassis.LoadBalancer.Latency.{
  ProtocolStats, save_latency, update_stats, set_latency, TenAtMost, save_latency-le,
}

-- The latest latency of a record of `addr` is `l`.
abbrev pub Recorded : ℕ → String → ProtocolStats → Type 0
Recorded l addr v = (v.addr ≡ addr) × ((earlier : List ℕ) × (v.latency ≡ earlier ++ l ∷ []))

save_latency-Recorded :
    (l : ℕ) (v : ProtocolStats) (addr : String) → v.addr ≡ addr → Recorded l addr (save_latency l v)
unfolding save_latency
save_latency-Recorded l v addr e = (e, (_, refl))

module _ (l : ℕ) (addr : String) where
  update_stats-TenAtMost :
      (vs : List ProtocolStats) → TenAtMost vs → TenAtMost (update_stats l addr vs).0
  unfolding update_stats
  update_stats-TenAtMost [] h = tt
  update_stats-TenAtMost (v ∷ vs) h = elim (Bool-cases (v.addr == addr)) [
    | inl e ↦ rw e (save_latency-le l v h.0, update_stats-TenAtMost vs h.1)
    | inr e ↦ rw e (h.0, update_stats-TenAtMost vs h.1)
  ]

  update_stats-Recorded :
      (vs : List ProtocolStats)
      → (update_stats l addr vs).1 ≡ true
      → Any (Recorded l addr) (update_stats l addr vs).0
  unfolding update_stats
  update_stats-Recorded [] = λ h. cc
  update_stats-Recorded (v ∷ vs) = elim (Bool-cases (v.addr == addr)) [
    | inl e ↦ rw e (λ _. inl (save_latency-Recorded l v addr ((eq_iff v.addr addr).0 e)))
    | inr e ↦ rw e (λ h. inr (update_stats-Recorded vs h))
  ]

  new_stats-TenAtMost :
      (vs : List ProtocolStats) (new : ProtocolStats)
      → TenAtMost vs
      → length new.latency ≤ 10
      → TenAtMost (vs ++ new ∷ [])
  new_stats-TenAtMost [] new h k = (k, tt)
  new_stats-TenAtMost (v ∷ vs) new h k = (h.0, new_stats-TenAtMost vs new h.1 k)

  new_stats-Recorded :
      (vs : List ProtocolStats) (new : ProtocolStats)
      → Recorded l addr new
      → Any (Recorded l addr) (vs ++ new ∷ [])
  new_stats-Recorded [] new r = inl r
  new_stats-Recorded (v ∷ vs) new r = inr (new_stats-Recorded vs new r)

  -- `SetLatency` records the latency as the latest of some record of the address, and keeps at
  -- most ten latencies in every record of the service.
  pub set_latency-Recorded :
      (key : String) (m : Dict (List ProtocolStats))
      → TenAtMost (value_or (lookup key m) [])
      → (vs : List ProtocolStats) × (lookup key (set_latency l addr key m) ≡ some vs)
        × TenAtMost vs
        × Any (Recorded l addr) vs
  unfolding set_latency
  set_latency-Recorded key m h =
      let old : List ProtocolStats = value_or (lookup key m) [] in
      let new : ProtocolStats = record { latency = []; addr = addr; avg_latency = 0 } in
      elim (Bool-cases (update_stats l addr old).1) [
        | inl e ↦ (
          (update_stats l addr old).0,
          rw e (lookup-insert_self key (update_stats l addr old).0 m),
          update_stats-TenAtMost old h,
          update_stats-Recorded old e,
        )
        | inr e ↦ (
          (update_stats l addr old).0 ++ save_latency l new ∷ [],
          rw e (lookup-insert_self key ((update_stats l addr old).0 ++ save_latency l new ∷ []) m),
          new_stats-TenAtMost (update_stats l addr old).0 (save_latency l new)
              (update_stats-TenAtMost old h) (save_latency-le l new (omega arith)),
          new_stats-Recorded (update_stats l addr old).0 (save_latency l new)
              (save_latency-Recorded l new addr refl),
        )
      ]
