-- ===== src/WeightPool/Invariant.antt =====
-- What a pool of core/router/weightpool/weightpool.go has while it is built and when it is ready, and its tags
-- under a new one.
use go_chassis.Prelude.{
  ℕ, zero, suc, ◌+◌, ◌≤◌, ◌<◌, ◌≡◌, refl, ap, sym, ◌∙◌, inl, inr, arith, subst, List, [], ◌∷◌, ◌++◌,
  ℤ, pos, negsuc, length, get_or, All, length-append, ◌⊎◌,
}
use go_chassis.Config.{RouteTag, zero_tag}
use go_chassis.WeightPool.{Pool, gcd}
use go_chassis.WeightPool.Gcd.{Divides, Divides-trans, gcd-Divides, gcd_pos}

-- A weight is at most `max`, and a multiple of `gcd` if it is positive.
abbrev pub Fits : ℕ → ℕ → ℤ → Type 0
Fits g m (pos w) = (w ≤ m) × Divides g w
Fits g m (negsuc n) = Unit

abbrev pub AllFit : ℕ → ℕ → List RouteTag → Type 0
AllFit g m ts = All (λ t. Fits g m t.weight) ts

-- Some tag has the weight `m`.
abbrev pub Attained : ℕ → List RouteTag → Type 0
Attained m ts = (k : ℕ) × (k < length ts) × ((get_or ts k zero_tag).weight ≡ pos m)

-- What the loop of `NewPool` keeps: `total` and `max` are 0 together.
pub record IsBuilding (total : ℕ) (p : Pool) : Type 0 where
  pub fit : AllFit p.gcd p.max p.tags
  pub heaviest : (p.max ≡ 0) ⊎ Attained p.max p.tags
  pub unit_pos : 0 < p.max → 0 < p.gcd
  pub max_pos : 0 < total → 0 < p.max
  pub unit_of_max : Divides p.gcd p.max
  pub index : p.i ≡ 0
  pub current : p.cw ≡ 0

pub record IsValid (p : Pool) : Type 0 where
  pub counted : p.num ≡ length p.tags
  pub in_range : p.i < p.num
  pub below_max : p.cw ≤ p.max
  pub has_max : 0 < p.max
  pub has_unit : 0 < p.gcd
  pub unit_of_max : Divides p.gcd p.max
  pub heaviest : Attained p.max p.tags
  pub fit : AllFit p.gcd p.max p.tags

Fits-weaken : (g h m n : ℕ) (w : ℤ) → Divides h g → m ≤ n → Fits g m w → Fits h n w
Fits-weaken g h m n (pos w) d le (a, b) = (omega arith, Divides-trans h g w d b)
Fits-weaken g h m n (negsuc w) d le u = tt

AllFit-weaken :
    (g h m n : ℕ) (ts : List RouteTag) → Divides h g → m ≤ n → AllFit g m ts → AllFit h n ts
AllFit-weaken g h m n [] d le u = tt
AllFit-weaken g h m n (t ∷ ts) d le (a, b) =
    (Fits-weaken g h m n t.weight d le a, AllFit-weaken g h m n ts d le b)

AllFit-append :
    (g m : ℕ) (ts : List RouteTag) (t : RouteTag)
    → AllFit g m ts
    → Fits g m t.weight
    → AllFit g m (ts ++ t ∷ [])
AllFit-append g m [] t u f = (f, tt)
AllFit-append g m (s ∷ ts) t (a, b) f = (a, AllFit-append g m ts t b f)

get_or-append_left :
    (ts us : List RouteTag) (k : ℕ)
    → k < length ts
    → get_or (ts ++ us) k zero_tag ≡ get_or ts k zero_tag
get_or-append_left [] us k h = elim h [ ]
get_or-append_left (t ∷ ts) us zero h = refl
get_or-append_left (t ∷ ts) us (suc k) h = get_or-append_left ts us k (omega arith)

get_or-append_last :
    (ts : List RouteTag) (t : RouteTag) → get_or (ts ++ t ∷ []) (length ts) zero_tag ≡ t
get_or-append_last [] t = refl
get_or-append_last (s ∷ ts) t = get_or-append_last ts t

pub Attained-append :
    (m : ℕ) (ts : List RouteTag) (t : RouteTag) → Attained m ts → Attained m (ts ++ t ∷ [])
Attained-append m ts t (k, lt, e) = (
  k,
  omega (arith, length-append {0} ts (t ∷ [])),
  ap (λ (s : RouteTag). s.weight) (get_or-append_left ts (t ∷ []) k lt) ∙ e,
)

pub Attained-last :
    (m : ℕ) (ts : List RouteTag) (t : RouteTag) → t.weight ≡ pos m → Attained m (ts ++ t ∷ [])
Attained-last m ts t e = (
  length ts,
  omega (arith, length-append {0} ts (t ∷ [])),
  ap (λ (s : RouteTag). s.weight) (get_or-append_last ts t) ∙ e,
)

-- A tag that does not change `gcd` and `max` is appended.
pub IsBuilding-append :
    (total : ℕ) (p : Pool) (t : RouteTag)
    → Fits p.gcd p.max t.weight
    → IsBuilding total p
    → IsBuilding total (record p { tags = p.tags ++ t ∷ [] })
IsBuilding-append total p t f b = record {
  fit = AllFit-append p.gcd p.max p.tags t b.fit f;
  heaviest = elim b.heaviest [ inl z ↦ inl z | inr a ↦ inr (Attained-append p.max p.tags t a) ];
  unit_pos = b.unit_pos;
  max_pos = b.max_pos;
  unit_of_max = b.unit_of_max;
  index = b.index;
  current = b.current;
}

-- A tag of positive weight is appended: `gcd` takes the weight in, and `max` becomes `m`.
pub IsBuilding-refresh :
    (total w m : ℕ) (p : Pool) (t : RouteTag)
    → t.weight ≡ pos w
    → 0 < w
    → p.max ≤ m
    → w ≤ m
    → Divides (gcd p.gcd w) m
    → Attained m (p.tags ++ t ∷ [])
    → IsBuilding total p
    → IsBuilding (total + w) (record p { tags = p.tags ++ t ∷ []; gcd = gcd p.gcd w; max = m })
IsBuilding-refresh total w m p t e wp up fits d a b =
    let g = gcd p.gcd w in
    let (old, new) = gcd-Divides p.gcd w in
    record {
      fit =
          AllFit-append g m p.tags t (AllFit-weaken p.gcd g p.max m p.tags old up b.fit)
            (subst (Fits g m) (sym e) (fits, new));
      heaviest = inr a;
      unit_pos = λ h. gcd_pos p.gcd w wp;
      max_pos = λ h. omega arith;
      unit_of_max = d;
      index = b.index;
      current = b.current;
    }
