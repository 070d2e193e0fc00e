-- ===== src/ServiceCenter/Held.antt =====
-- The cached instances by service and identifier, for the events of core/registry/servicecenter/cache.go: what
-- an update, a removal and a write of a list leave under an identifier.
use go_chassis.Prelude.{
  ◌≡◌, refl, sym, ◌∙◌, ap, subst, inl, inr, arith, String, List, [], ◌∷◌, ◌++◌, Option, none, some,
  Bool, true, false, not, ◌&&◌, ◌==◌, eq_iff, keep, lookup, insert, lookup-insert, Bool-cases,
  ◌>>=◌, if◌then◌else◌,
}
use go_chassis.Instance.{MicroServiceInstance}
use go_chassis.ServiceCenter.Events.{Cached, has_id, replace_last, updated}

-- The last instance with an identifier.
abbrev held_or :
    Option MicroServiceInstance → String → MicroServiceInstance → Option MicroServiceInstance
held_or (some x) id v = some x
held_or none id v = if has_id id v then some v else none

unfoldable pub held : String → List MicroServiceInstance → Option MicroServiceInstance
held id [] = none
held id (v ∷ vs) = held_or (held id vs) id v

abbrev pub view : Cached → String → String → Option MicroServiceInstance
view m service id = lookup service m >>= held id

pub held-append :
    (id : String) (l : List MicroServiceInstance) (x : MicroServiceInstance)
    → held id (l ++ x ∷ []) ≡ (if x.instance_id == id then some x else held id l)
unfolding held
held-append id [] x = refl
held-append id (v ∷ vs) x =
    rw (held-append id vs x)
      (elim (x.instance_id == id)
        as (λ (b : Bool).
          held_or (if b then some x else held id vs) id v
          ≡ (if b then some x else held_or (held id vs) id v)) [ true ↦ refl | false ↦ refl ])

held_or-other :
    (o : Option MicroServiceInstance) (id : String) (v : MicroServiceInstance)
    → has_id id v ≡ false
    → held_or o id v ≡ o
held_or-other (some x) id v h = refl
held_or-other none id v h = rw h refl

pub held-keep :
    (id j : String) (l : List MicroServiceInstance)
    → held id (keep (λ v. not (has_id j v)) l) ≡ (if j == id then none else held id l)
unfolding held keep
held-keep id j [] = ground arith
held-keep id j (v ∷ vs) =
    let ih = held-keep id j vs in
    elim (Bool-cases (has_id j v)) [
      | inl e ↦ rw e (
          ih ∙ elim (Bool-cases (j == id)) [
            | inl same ↦ rw same refl
            | inr other ↦
                let o : has_id id v ≡ false =
                  ground (arith, eq_iff v.instance_id j, eq_iff j id, eq_iff v.instance_id id) in
                rw other (sym (held_or-other (held id vs) id v o))
          ])
      | inr e ↦ rw e (
          rw ih (elim (Bool-cases (j == id)) [
            | inl same ↦
                let o : has_id id v ≡ false =
                  ground (arith, eq_iff v.instance_id j, eq_iff j id, eq_iff v.instance_id id) in
                rw same (rw o refl)
            | inr other ↦ rw other refl
          ]))
    ]

-- What `updateAction` makes of a list.
held-found :
    (id j : String) (o : Option (List MicroServiceInstance)) (msi v : MicroServiceInstance)
    (vs : List MicroServiceInstance)
    → msi.instance_id ≡ j
    → (o ≡ none → held j vs ≡ none)
    → held id (updated o msi vs) ≡ (if j == id then some msi else held id vs)
    → held id (
        updated
          (elim o [
            | some replaced ↦ some (v ∷ replaced)
            | none ↦ if has_id j v then some (msi ∷ vs) else none
          ])
          msi
          (v ∷ vs))
      ≡ (if j == id then some msi else held_or (held id vs) id v)
unfolding held
held-found id j (some replaced) msi v vs e absent ih =
    rw ih
      (elim (j == id)
        as (λ (b : Bool).
          held_or (if b then some msi else held id vs) id v
          ≡ (if b then some msi else held_or (held id vs) id v)) [ true ↦ refl | false ↦ refl ])
held-found id j none msi v vs e absent ih = elim (Bool-cases (has_id j v)) [
  | inl k ↦ rw k (elim (Bool-cases (j == id)) [
    | inl same ↦
        let i : j ≡ id = (eq_iff j id).0 same in
        let o : held id vs ≡ none = subst (λ (z : String). held z vs ≡ none) i (absent refl) in
        let m : has_id id msi ≡ true = (eq_iff msi.instance_id id).1 (e ∙ i) in
        rw same (rw o (rw m refl))
    | inr other ↦
        let a : has_id id v ≡ false =
          ground (arith, eq_iff v.instance_id j, eq_iff j id, eq_iff v.instance_id id) in
        let b : has_id id msi ≡ false = ground (arith, e, eq_iff msi.instance_id id, eq_iff j id) in
        rw other (held_or-other (held id vs) id msi b ∙ sym (held_or-other (held id vs) id v a))
  ])
  | inr k ↦ rw k (
      held-append id (v ∷ vs) msi
      ∙ ap (λ (z : String). if z == id then some msi else held_or (held id vs) id v) e)
]

-- A list in which nothing is replaced has no instance with the identifier.
absent-held :
    (j : String) (msi : MicroServiceInstance) (l : List MicroServiceInstance)
    → replace_last j msi l ≡ none
    → held j l ≡ none
unfolding held replace_last
absent-held j msi [] = λ h. refl
absent-held j msi (v ∷ vs) = above (replace_last j msi vs) (absent-held j msi vs)
  where
    above :
        (o : Option (List MicroServiceInstance))
        → (o ≡ none → held j vs ≡ none)
        → elim o [
          | some replaced ↦ some (v ∷ replaced)
          | none ↦ if has_id j v then some (msi ∷ vs) else none
        ]
          ≡ none
        → held_or (held j vs) j v ≡ none
    above (some replaced) ih h = cc
    above none ih h = elim (Bool-cases (has_id j v)) [
      | inl k ↦ absurd (
          let q : some (msi ∷ vs) ≡ none =
            sym (ap (λ (b : Bool). if b then some (msi ∷ vs) else none) k) ∙ h in
          cc)
      | inr k ↦ rw (ih refl) (rw k refl)
    ]

pub held-updated :
    (id j : String) (msi : MicroServiceInstance) (l : List MicroServiceInstance)
    → msi.instance_id ≡ j
    → held id (updated (replace_last j msi l) msi l) ≡ (if j == id then some msi else held id l)
unfolding held replace_last
held-updated id j msi [] e = ground (arith, e)
held-updated id j msi (v ∷ vs) e =
    held-found id j (replace_last j msi vs) msi v vs e (absent-held j msi vs)
      (held-updated id j msi vs e)

-- A write of a list in which one identifier has changed.
pub view-insert :
    (m : Cached) (s j : String) (l l' : List MicroServiceInstance) (r : Option MicroServiceInstance)
    → lookup s m ≡ some l
    → ((id : String) → held id l' ≡ (if j == id then r else held id l))
    → (k id : String) → view (insert s l' m) k id ≡ (if s == k && j == id then r else view m k id)
view-insert m s j l l' r e h k id = elim (Bool-cases (s == k)) [
  | inl same ↦
      let found : lookup k m ≡ some l =
        subst (λ (z : String). lookup z m ≡ some l) ((eq_iff s k).0 same) e in
      let new =
        lookup-insert s k l' m ∙ ap (λ (b : Bool). if b then some l' else lookup k m) same in
      rw new (rw same (rw found (h id)))
  | inr other ↦
      let new =
        lookup-insert s k l' m ∙ ap (λ (b : Bool). if b then some l' else lookup k m) other in
      rw new (rw other refl)
]
