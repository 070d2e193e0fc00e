-- ===== src/WeightPool/Rounds.antt =====
-- The rounds of the loop of `PickOne` (weightpool.go), one after the other: calls that follow each
-- other return the tags at the rounds that hit.
use go_chassis.Prelude.{
  ℕ, zero, suc, ◌<◌, ◌≡◌, refl, sym, ◌∙◌, Bool, true, false, inl, inr, arith, subst, ◌-◌, eqb,
  Bool-cases, List, [], ◌∷◌, Option, some, length, ◌||◌, ◌>>=◌, if◌then◌else◌,
}
use go_chassis.Config.{RouteTag}
use go_chassis.WeightPool.{Pool, reaches, advance, scan, pick_one}
use go_chassis.WeightPool.Invariant.{IsValid}
use go_chassis.WeightPool.Valid.{advance-IsValid}
use go_chassis.WeightPool.Pick.{here, scan-suc, scan_total}

-- The test of the round that begins in `p`.
abbrev pub hit : Pool → Bool
hit p = reaches (advance p).cw (here (advance p)).weight

unfoldable pub rounds : ℕ → Pool → Pool
rounds zero p = p
rounds (suc n) p = rounds n (advance p)

-- The indices of the tags that `n` rounds hit, in order.
unfoldable pub trace : ℕ → Pool → List ℕ
trace zero p = []
trace (suc n) p = let rest = trace n (advance p) in if hit p then (advance p).i ∷ rest else rest

-- The indices that `n` calls of `PickOne` leave behind.
unfoldable pub calls : ℕ → Pool → Option (List ℕ)
calls zero p = some []
calls (suc n) p = pick_one p >>= λ r. calls n r.0 >>= λ rest. some (r.0.i ∷ rest)

scan-hit :
    (fuel : ℕ) (p : Pool)
    → IsValid p
    → hit p ≡ true
    → scan (suc fuel) p ≡ some (advance p, some (here (advance p)))
scan-hit fuel p v h = scan-suc fuel p v ∙ rw h refl

scan-miss :
    (fuel : ℕ) (p : Pool) → IsValid p → hit p ≡ false → scan (suc fuel) p ≡ scan fuel (advance p)
scan-miss fuel p v h = scan-suc fuel p v ∙ rw h refl

-- More fuel does not change what the loop returns.
scan-more :
    (fuel : ℕ) (p : Pool) (r : Pool × Option RouteTag)
    → IsValid p
    → scan fuel p ≡ some r
    → scan (suc fuel) p ≡ some r
unfolding scan
scan-more zero p r v e = cc
scan-more (suc fuel) p r v e = elim (Bool-cases (hit p)) [
  | inl h ↦ scan-hit (suc fuel) p v h ∙ sym (scan-hit fuel p v h) ∙ e
  | inr m ↦
      scan-miss (suc fuel) p v m
      ∙ scan-more fuel (advance p) r (advance-IsValid p v) (sym (scan-miss fuel p v m) ∙ e)
]

pick_one-scan : (p : Pool) → IsValid p → 1 < p.num → pick_one p ≡ scan p.num p
unfolding pick_one
pick_one-scan p v many = rw (busy, single) refl
  where
    busy : (eqb p.num 0 || eqb p.max 0) ≡ false
    busy = ground (arith, v.has_max)

    single : eqb p.num 1 ≡ false
    single = ground arith

-- A call that begins with a hit returns there.
pub pick_one-hit :
    (p : Pool)
    → IsValid p
    → 1 < p.num
    → hit p ≡ true
    → pick_one p ≡ some (advance p, some (here (advance p)))
pick_one-hit p v many h =
    pick_one-scan p v many
    ∙ subst (λ n. scan n p ≡ some (advance p, some (here (advance p))))
        (let e : suc (p.num - 1) ≡ p.num = omega arith in e) (scan-hit (p.num - 1) p v h)

-- A call that begins with a miss returns what a call from the next round returns.
pub pick_one-miss :
    (p : Pool) → IsValid p → 1 < p.num → hit p ≡ false → pick_one p ≡ pick_one (advance p)
pick_one-miss p v many m =
    pick_one-scan p v many
    ∙ e
    ∙ sym more
    ∙ sym (pick_one-scan (advance p) w (unfold advance in many))
  where
    w : IsValid (advance p)
    w = advance-IsValid p v

    n : ℕ
    n = p.num - 1

    num_suc : suc n ≡ p.num
    num_suc = omega arith

    r : Pool × Option RouteTag
    r = let (q, t, _, _) = scan_total p v in (q, some t)

    e : scan p.num p ≡ some r
    e = (scan_total p v).2

    short : scan n (advance p) ≡ some r
    short = sym (scan-miss n p v m) ∙ subst (λ k. scan k p ≡ some r) (sym num_suc) e

    more : scan (advance p).num (advance p) ≡ some r
    more =
        unfold advance in
        subst (λ k. scan k (advance p) ≡ some r) num_suc (scan-more n (advance p) r w short)

calls-miss :
    (n : ℕ) (p : Pool) → IsValid p → 1 < p.num → hit p ≡ false → calls n p ≡ calls n (advance p)
unfolding calls
calls-miss zero p v many m = refl
calls-miss (suc n) p v many m = rw (pick_one-miss p v many m) refl

-- As many calls as `n` rounds have hits return the tags that these rounds hit.
pub calls-trace :
    (n : ℕ) (p : Pool) → IsValid p → 1 < p.num → calls (length (trace n p)) p ≡ some (trace n p)
unfolding trace calls
calls-trace zero p v many = refl
calls-trace (suc n) p v many =
    let ih = calls-trace n (advance p) (advance-IsValid p v) (unfold advance in many) in
    elim (Bool-cases (hit p)) [
      | inl h ↦ rw (h, pick_one-hit p v many h) (rw ih refl)
      | inr m ↦ rw m (calls-miss (length (trace n (advance p))) p v many m ∙ ih)
    ]
