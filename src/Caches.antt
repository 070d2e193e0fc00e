-- ===== src/Caches.antt =====
-- The loop over the keys of a cache that deletes those which are not wanted any more: in
-- `compareAndDeleteOutdatedProviders` of core/registry/servicecenter/cache.go, and in `SaveToLBCache` of
-- control/archaius/transfer.go.
use go_chassis.Prelude.{
  ◌≡◌, refl, sym, ◌∙◌, ap, subst, inl, inr, ◌⊎◌, arith, String, List, [], ◌∷◌, none, some, Bool,
  true, false, ◌==◌, eq_iff, Dict, lookup, insert, lookup-insert, remove, lookup-remove,
  lookup-remove_ne, remove_cases, Bool-cases, if◌then◌else◌,
}
use go_chassis.Chain.{in_slice}
use go_chassis.Refresh.{is_known}

-- The keys are those of the cache before.
unfoldable pub delete_outdated : {V : Type 0} → List String → Dict V → Dict V → Dict V
unfolding in_slice
delete_outdated names [] m = m
delete_outdated names ((old, v) ∷ rest) m =
    let kept = delete_outdated names rest m in
    let deleted = delete_outdated names rest (remove old m) in
    if in_slice old names then kept else deleted

-- What is left after the outdated keys were deleted.
pub outdated_cases :
    {V : Type 0} (names : List String) (es m : Dict V) (k : String) (l : V)
    → lookup k (delete_outdated names es m) ≡ some l
    → (in_slice k names ≡ true) ⊎ ((lookup k es ≡ none) × (lookup k m ≡ some l))
unfolding delete_outdated lookup
outdated_cases names [] m k l h = inr (refl, h)
outdated_cases names ((old, x) ∷ rest) m k l h = elim (Bool-cases (in_slice old names)) [
  | inl e ↦
      elim (outdated_cases names rest m k l (
        sym (
          ap
            (λ (b : Bool). lookup k (
              if b
              then delete_outdated names rest m
              else delete_outdated names rest (remove old m)))
            e)
        ∙ h)) [
          | inl found ↦ inl found
          | inr (missed, f) ↦ elim (Bool-cases (k == old)) [
            | inl same ↦
                inl
                  (subst (λ (z : String). in_slice z names ≡ true) (sym ((eq_iff k old).0 same)) e)
            | inr other ↦ inr (rw other missed, f)
          ]
        ]
  | inr e ↦
      elim (outdated_cases names rest (remove old m) k l (
        sym (
          ap
            (λ (b : Bool). lookup k (
              if b
              then delete_outdated names rest m
              else delete_outdated names rest (remove old m)))
            e)
        ∙ h)) [
          | inl found ↦ inl found
          | inr (missed, f) ↦ elim (Bool-cases (old == k)) [
            | inl same ↦ absurd (
                let q : none ≡ some l =
                  sym
                    (lookup-remove old k m ∙ ap (λ (b : Bool). if b then none else lookup k m) same)
                  ∙ f in
                cc)
            | inr other ↦
                let other' : (k == old) ≡ false = ground (arith, eq_iff k old, eq_iff old k) in
                inr (rw other' missed, remove_cases old k l m f)
          ]
        ]
]

-- The wanted keys are not touched.
pub lookup-delete_outdated :
    {V : Type 0} (names : List String) (es m : Dict V) (k : String)
    → in_slice k names ≡ true
    → lookup k (delete_outdated names es m) ≡ lookup k m
unfolding delete_outdated
lookup-delete_outdated names [] m k h = refl
lookup-delete_outdated names ((old, v) ∷ rest) m k h = elim (Bool-cases (in_slice old names)) [
  | inl e ↦ rw e (lookup-delete_outdated names rest m k h)
  | inr e ↦ rw e (
      lookup-delete_outdated names rest (remove old m) k h
      ∙ lookup-remove_ne old k m (λ same. absurd (
          let g : in_slice k names ≡ false =
            subst (λ (z : String). in_slice z names ≡ false) same e in
          cc)))
]

-- A key that is there stays there, and one that was written is there.
pub insert-known :
    {V : Type 0} (k key : String) (v : V) (m : Dict V)
    → is_known (lookup k m) ≡ true
    → is_known (lookup k (insert key v m)) ≡ true
insert-known k key v m h = elim (Bool-cases (key == k)) [
  | inl same ↦
      (let e = lookup-insert key k v m ∙ ap (λ (b : Bool). if b then some v else lookup k m) same in
        rw e refl)
  | inr other ↦
      (let e =
          lookup-insert key k v m ∙ ap (λ (b : Bool). if b then some v else lookup k m) other in
        rw e h)
]
