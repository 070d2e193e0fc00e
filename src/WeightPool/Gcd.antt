-- ===== src/WeightPool/Gcd.antt =====
-- What `gcd` of weightpool.go computes: a common divisor.
use native.Mathlib.Nat.{div-add-mod', mod-lt, mul_assoc}
use go_chassis.Prelude.{
  ℕ, zero, suc, ◌+◌, ◌*◌, ◌/◌, ◌%◌, ◌<◌, ◌≡◌, sym, ◌∙◌, inl, inr, arith, eqb, Bool-cases,
}
use go_chassis.WeightPool.{gcd, gcd_fuel}

-- `w` is a multiple of `g`.
abbrev pub Divides : ℕ → ℕ → Type 0
Divides g w = (k : ℕ) × (w ≡ k * g)

pub Divides-add : (g a b : ℕ) → Divides g a → Divides g b → Divides g (a + b)
Divides-add g a b (k, p) (l, q) = (k + l, grind arith)

pub Divides-mul : (g a n : ℕ) → Divides g a → Divides g (n * a)
Divides-mul g a n (k, p) = (n * k, rw p (sym (mul_assoc n k g)))

pub Divides-trans : (g h w : ℕ) → Divides g h → Divides h w → Divides g w
Divides-trans g h w p (l, q) = let (k, e) = Divides-mul g h l p in (k, q ∙ e)

abbrev IsCommon : ℕ → ℕ → ℕ → Type 0
IsCommon g a b = Divides g a × Divides g b

-- From a common divisor of `b` and `a % b` to one of `a` and `b`.
IsCommon-step : (g a b : ℕ) → IsCommon g b (a % b) → IsCommon g a b
IsCommon-step g a b (p, q) = (
  let (k, e) = Divides-add g (a / b * b) (a % b) (Divides-mul g b (a / b) p) q in
      (k, sym (div-add-mod' a b) ∙ e),
  p,
)

gcd_fuel-IsCommon : (fuel a b : ℕ) → b < fuel → IsCommon (gcd_fuel fuel a b) a b
unfolding gcd_fuel
gcd_fuel-IsCommon zero a b h = elim h [ ]
gcd_fuel-IsCommon (suc fuel) a b h = elim (Bool-cases (eqb b 0)) [
  | inl e ↦ rw e ((1, omega arith), (0, ground arith))
  | inr e ↦
      rw e
        (IsCommon-step _ a b (gcd_fuel-IsCommon fuel b (a % b) (ground (arith, mod-lt a {m = b}))))
]

-- `gcd a b` divides both its arguments.
pub gcd-Divides : (a b : ℕ) → Divides (gcd a b) a × Divides (gcd a b) b
unfolding gcd
gcd-Divides a b = gcd_fuel-IsCommon (suc b) a b (omega arith)

pub Divides-pos : (g b : ℕ) → Divides g b → 0 < b → 0 < g
Divides-pos zero b (k, e) h = absurd (omega arith)
Divides-pos (suc g) b d h = omega arith

pub gcd_pos : (a b : ℕ) → 0 < b → 0 < gcd a b
gcd_pos a b h = Divides-pos (gcd a b) b (gcd-Divides a b).1 h
