-- ===== src/Prelude/Partial.antt =====
-- Code that may panic, or that a bound on its rounds may stop, returns an `Option`; the comment on
-- each function says which.
use mathlib.Core.Path.{◌≡◌, refl}
use mathlib.Core.Option.{Option, none, some}

infixl 5 ◌>>=◌
abbrev pub ◌>>=◌ {ℓ κ} : {A : Type ℓ} {B : Type κ} → Option A → (A → Option B) → Option B
none >>= f = none
some a >>= f = f a

-- A chain that gives a result has got one from its first part, and the rest has given it.
pub bind_some {ℓ κ} :
    {A : Type ℓ} {B : Type κ} (o : Option A) (f : A → Option B) (b : B)
    → (o >>= f) ≡ some b
    → (a : A) × (o ≡ some a) × (f a ≡ some b)
bind_some none f b e = absurd (let g : none ≡ some b = e in cc)
bind_some (some a) f b e = (a, refl, e)
