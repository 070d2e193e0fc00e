-- ===== src/Router/Priority.antt =====
-- Which of the sorted rules of core/router/router.go is chosen.
use mathlib.Core.Logic.Or
use mathlib.Core.List.{Perm, Mem, mem-cons, not-mem-nil, mem-cons_self, mem-cons_of_mem}
use mathlib.Core.List.Perm
use go_chassis.Prelude.{
  ℕ, suc, ◌≤◌, ◌<◌, ◌≡◌, sym, subst, inl, inr, ◌∙◌, ℤ, String, List, [], ◌∷◌, Option, none, some,
  Bool, true, false, Dict, arith, All, ◌≤ℤ◌, ◌<ℤ◌, length, Bool-cases, Option-cases,
}
use go_chassis.Config.{Match, RouteRule}
use go_chassis.Router.{first_match}
use go_chassis.Router.Matching.{SourceInfo, matches}
use go_chassis.Router.Sort.{prec, sort_slice}
use go_chassis.Router.Sort.Sorted.{sort_slice-IsSorted}

-- No later rule has a higher precedence, rule by rule.
abbrev Falling : List RouteRule → Type 0
Falling [] = Unit
Falling (r ∷ rs) = All (λ (x : RouteRule). x.precedence ≤ℤ r.precedence) rs × Falling rs

All-of_index :
    (r : RouteRule) (rs : List RouteRule)
    → ((c : ℕ) → c < length rs → prec rs c ≤ℤ r.precedence)
    → All (λ (x : RouteRule). x.precedence ≤ℤ r.precedence) rs
All-of_index r [] h = tt
All-of_index r (x ∷ xs) h = (h 0 (omega arith), All-of_index r xs (λ c l. h (suc c) (omega arith)))

Falling-of_index :
    (rs : List RouteRule)
    → ((a c : ℕ) → a ≤ c → c < length rs → prec rs c ≤ℤ prec rs a)
    → Falling rs
Falling-of_index [] h = tt
Falling-of_index (r ∷ rs) h = (
  All-of_index r rs (λ c l. h 0 (suc c) (omega arith) (omega arith)),
  Falling-of_index rs (λ a c x y. h (suc a) (suc c) (omega arith) (omega arith)),
)

bool_set : (o : Option Bool) (b : Bool) → IsProp (o ≡ some b)
bool_set o b = hlevel

lt_irrefl : (a : ℤ) → a <ℤ a → ⊥
lt_irrefl a h = omega arith

higher_not_later :
    (r x : RouteRule) (rs : List RouteRule)
    → All (λ (y : RouteRule). y.precedence ≤ℤ r.precedence) rs
    → r.precedence <ℤ x.precedence
    → Mem x rs
    → ⊥
higher_not_later r x [] a h m = not-mem-nil m
higher_not_later r x (y ∷ ys) a h m =
    Or.elim (λ p q. absurd p) (mem-cons.0 m)
      (λ e. omega (arith, subst (λ (z : RouteRule). z.precedence ≤ℤ r.precedence) (sym e) a.0))
      (higher_not_later r x ys a.1 h)

module _ (posix_match : String → String → Option Bool) (templates : Dict Match)
    (headers : Dict String) (source : SourceInfo) where
  abbrev pub test : RouteRule → Option Bool
  test r = matches posix_match templates r.match headers source

  abbrev pub choice : List RouteRule → Option (Option RouteRule)
  choice rs = first_match posix_match templates rs headers source

  -- The rule that is chosen matches, and is one of the rules.
  pub choice-Mem :
      (rs : List RouteRule) (r : RouteRule)
      → choice rs ≡ some (some r)
      → (test r ≡ some true) × Mem r rs
  unfolding first_match
  choice-Mem [] r h = cc
  choice-Mem (x ∷ xs) r h = elim (Option-cases (test x)) [
    | inl e ↦ absurd (ground arith)
    | inr (b, e) ↦ elim (Bool-cases b) [
      | inl yes' ↦
          let same : x ≡ r = ground arith in
          (
            subst (λ (z : RouteRule). test z ≡ some true) same (ground arith),
            subst (λ (z : RouteRule). Mem z (x ∷ xs)) same mem-cons_self,
          )
      | inr no' ↦ let (t, m) = choice-Mem xs r (ground arith) in (t, mem-cons_of_mem x m)
    ]
  ]

  -- Every rule of higher precedence was tried and refused.
  choice_highest :
      (rs : List RouteRule) (r x : RouteRule)
      → Falling rs
      → choice rs ≡ some (some r)
      → Mem x rs
      → r.precedence <ℤ x.precedence
      → test x ≡ some false
  unfolding first_match
  choice_highest [] r x f h m lt = absurd (not-mem-nil m)
  choice_highest (y ∷ ys) r x f h m lt = elim (Option-cases (test y)) [
    | inl e ↦ absurd (ground arith)
    | inr (b, e) ↦ elim (Bool-cases b) [
      | inl yes' ↦
          let same : y ≡ r = ground arith in
          absurd (
            Or.elim (λ p q. absurd p) (mem-cons.0 m)
              (λ g.
                lt_irrefl r.precedence
                  (subst (λ (z : RouteRule). r.precedence <ℤ z.precedence) (g ∙ same) lt))
              (higher_not_later y x ys f.0
                (subst (λ (z : RouteRule). z.precedence <ℤ x.precedence) (sym same) lt)))
      | inr no' ↦
          Or.elim (bool_set (test x) false) (mem-cons.0 m)
            (λ g. subst (λ (z : RouteRule). test z ≡ some false) (sym g) (ground arith))
            (λ later. choice_highest ys r x f.1 (ground arith) later lt)
    ]
  ]

  -- With no choice every rule was tried and refused.
  choice-none :
      (rs : List RouteRule) (x : RouteRule) → choice rs ≡ some none → Mem x rs → test x ≡ some false
  unfolding first_match
  choice-none [] x h m = absurd (not-mem-nil m)
  choice-none (y ∷ ys) x h m = elim (Option-cases (test y)) [
    | inl e ↦ absurd (ground arith)
    | inr (b, e) ↦ elim (Bool-cases b) [
      | inl yes' ↦ absurd (ground arith)
      | inr no' ↦
          Or.elim (bool_set (test x) false) (mem-cons.0 m)
            (λ g. subst (λ (z : RouteRule). test z ≡ some false) (sym g) (ground arith))
            (λ later. choice-none ys x (ground arith) later)
    ]
  ]

  -- The sorted rules of a service, and what a choice among them says of all its rules.
  pub sorted_choice :
      (slice : List RouteRule)
      → (t : List RouteRule) × (sort_slice slice ≡ some t)
        × Perm t slice
        × ((r : RouteRule)
            → choice t ≡ some (some r)
            → (test r ≡ some true)
              × Mem r slice
              × ((x : RouteRule)
                  → Mem x slice
                  → r.precedence <ℤ x.precedence
                  → test x ≡ some false))
        × (choice t ≡ some none → (x : RouteRule) → Mem x slice → test x ≡ some false)
  sorted_choice slice =
      let (t, e, p, len, sorted) = sort_slice-IsSorted slice in
      let falling =
        Falling-of_index t (λ a c x y. sorted a c (omega arith) x (omega (arith, len))) in
      (
        t,
        e,
        p,
        (λ r h.
            let (m, i) = choice-Mem t r h in
            (
              m,
              (Perm.mem_iff p).0 i,
              λ x j lt. choice_highest t r x falling h ((Perm.mem_iff p).1 j) lt,
            )),
        (λ h x j. choice-none t x h ((Perm.mem_iff p).1 j)),
      )
