-- ===== src/Prelude/Kept.antt =====
-- Lemmas on the elements of a list that pass a test, and on the lists whose elements all or in part satisfy
-- a predicate.
use mathlib.Core.Path.{◌≡◌, refl, ap, ◌∙◌, subst}
use mathlib.Core.Logic.{◌≢◌, inl, inr}
use mathlib.Core.Bool.{Bool, true, ◌&&◌}
use mathlib.Core.List.{List, [], ◌∷◌, ◌++◌}
use go_chassis.Prelude.Tests.{if◌then◌else◌, Bool-cases}
use go_chassis.Prelude.Lists.{All, Any, keep}

module _ {A : Type 0} (p : A → Bool) where
  pub keep-All : (l : List A) → All (λ (x : A). p x ≡ true) (keep p l)
  unfolding keep
  keep-All [] = tt
  keep-All (x ∷ xs) = elim (Bool-cases (p x)) [
    | inl e ↦ rw e (e, keep-All xs)
    | inr e ↦ rw e (keep-All xs)
  ]

  pub keep-Any : (Q : A → Type 0) (l : List A) → Any Q (keep p l) → Any Q l
  unfolding keep
  keep-Any Q [] h = h
  keep-Any Q (y ∷ ys) h = elim (Bool-cases (p y)) [
    | inl e ↦ elim (subst (λ (b : Bool). Any Q (if b then y ∷ keep p ys else keep p ys)) e h) [
      | inl q ↦ inl q
      | inr later ↦ inr (keep-Any Q ys later)
    ]
    | inr e ↦
        inr
          (keep-Any Q ys (subst (λ (b : Bool). Any Q (if b then y ∷ keep p ys else keep p ys)) e h))
  ]

  pub keep-some : (l : List A) → Any (λ (x : A). p x ≡ true) l → keep p l ≢ []
  unfolding keep
  keep-some [] h = absurd h
  keep-some (x ∷ xs) h = elim (Bool-cases (p x)) [
    | inl e ↦ rw e (λ q. cc)
    | inr ne ↦ rw ne (elim h [ inl e ↦ absurd (let q = ne in cc) | inr later ↦ keep-some xs later ])
  ]

pub All-weaken :
    {X : Type 0} {P Q : X → Type 0} (l : List X) → ((x : X) → P x → Q x) → All P l → All Q l
All-weaken [] f h = tt
All-weaken (x ∷ l) f (p, h) = (f x p, All-weaken l f h)

pub All-keep :
    {X : Type 0} {P Q : X → Type 0} (p : X → Bool) (l : List X)
    → ((x : X) → p x ≡ true → P x → Q x)
    → All P l
    → All Q (keep p l)
unfolding keep
All-keep p [] f h = tt
All-keep p (x ∷ l) f (a, h) = elim (Bool-cases (p x)) [
  | inl e ↦ rw e (f x e a, All-keep p l f h)
  | inr e ↦ rw e (All-keep p l f h)
]

pub Any-keep :
    {X : Type 0} (p : X → Bool) (x : X) (l : List X)
    → p x ≡ true
    → Any (λ (y : X). y ≡ x) l
    → Any (λ (y : X). y ≡ x) (keep p l)
unfolding keep
Any-keep p x [] e h = elim h [ ]
Any-keep p x (y ∷ l) e (inl h) = let e' : p y ≡ true = ap p h ∙ e in rw e' (inl h)
Any-keep p x (y ∷ l) e (inr h) = elim (Bool-cases (p y)) [
  | inl q ↦ rw q (inr (Any-keep p x l e h))
  | inr q ↦ rw q (Any-keep p x l e h)
]

pub All-front : {X : Type 0} (P : X → Type 0) (xs ys : List X) → All P (xs ++ ys) → All P xs
All-front P [] ys a = tt
All-front P (x ∷ xs) ys (p, a) = (p, All-front P xs ys a)

module _ {X : Type 0} where
  -- Two tests one after the other: in either order, and as one.
  pub keep_comm : (p q : X → Bool) (l : List X) → keep p (keep q l) ≡ keep q (keep p l)
  unfolding keep
  keep_comm p q [] = refl
  keep_comm p q (x ∷ l) = elim (Bool-cases (p x)) [
    | inl e ↦ elim (Bool-cases (q x)) [
      | inl f ↦ rw (e, f, e) (ap (λ (l : List X). x ∷ l) (keep_comm p q l))
      | inr f ↦ rw (e, f) (keep_comm p q l)
    ]
    | inr e ↦ elim (Bool-cases (q x)) [
      | inl f ↦ rw (e, f, e) (keep_comm p q l)
      | inr f ↦ rw (e, f) (keep_comm p q l)
    ]
  ]

  pub keep-and : (p q : X → Bool) (l : List X) → keep q (keep p l) ≡ keep (λ x. p x && q x) l
  unfolding keep
  keep-and p q [] = refl
  keep-and p q (x ∷ l) = elim (Bool-cases (p x)) [
    | inr e ↦ rw e (keep-and p q l)
    | inl e ↦ elim (Bool-cases (q x)) [
      | inl f ↦ rw (e, f) (ap (λ (l : List X). x ∷ l) (keep-and p q l))
      | inr f ↦ rw (e, f) (keep-and p q l)
    ]
  ]

  pub keep_all : (p : X → Bool) (l : List X) → All (λ (x : X). p x ≡ true) l → keep p l ≡ l
  unfolding keep
  keep_all p [] h = refl
  keep_all p (x ∷ l) (e, h) = rw e (ap (λ (l : List X). x ∷ l) (keep_all p l h))

  pub keep-true : (l : List X) → keep (λ x. true) l ≡ l
  unfolding keep
  keep-true [] = refl
  keep-true (x ∷ l) = ap (λ (l : List X). x ∷ l) (keep-true l)
