-- ===== src/IndexCache/Latest.antt =====
-- The latest version that `Set` of core/registry/cache_index.go keeps for a service.
use go_chassis.Prelude.{
  ◌≡◌, ◌⊎◌, refl, sym, ap, ◌∙◌, inl, inr, String, List, [], ◌∷◌, Option, none, some, Bool, true,
  false, Dict, lookup, insert, lookup-insert_self, All, Any, Bool-cases, Option-cases,
}
use go_chassis.Instance.{MicroServiceInstance, version}
use go_chassis.IndexCache.{IndexCache, is_newer, update_latest, set}

module _ {V : Type 0} (new_version : String → Option V) (less_than : V → V → Bool)
    (irreflexive : (v : V) → less_than v v ≡ false)
    (transitive : (u v w : V) → less_than u v ≡ true → less_than v w ≡ true → less_than u w ≡ true)
    (k : String) where
  -- No instance has a version newer than `v`.
  abbrev pub Newest : V → List MicroServiceInstance → Type 0
  Newest v l =
      All
        (λ (x : MicroServiceInstance).
          is_newer new_version less_than v (new_version (version x)) ≡ false)
        l

  -- What the map holds in the end: the newest version of all instances, which is one of theirs,
  -- or what it held before where none is newer than the first.
  abbrev pub Held : V → List MicroServiceInstance → Dict String → Dict String → Type 0
  Held latest l m m' =
      (Newest latest l × (m' ≡ m))
      ⊎ ((s : String) × (v : V) × (lookup k m' ≡ some s)
          × (new_version s ≡ some v)
          × (less_than latest v ≡ true)
          × Newest v l
          × Any (λ (x : MicroServiceInstance). version x ≡ s) l)

  not_newer :
      (u v : V) (o : Option V)
      → less_than u v ≡ true
      → is_newer new_version less_than u o ≡ false
      → is_newer new_version less_than v o ≡ false
  not_newer u v none h1 h2 = refl
  not_newer u v (some w) h1 h2 = elim (Bool-cases (less_than v w)) [
    | inl e ↦ absurd (let q : true ≡ false = sym (transitive u v w h1 e) ∙ h2 in cc)
    | inr e ↦ e
  ]

  update_latest-Held :
      (latest : V) (l : List MicroServiceInstance) (m : Dict String)
      → Held latest l m (update_latest new_version less_than k latest l m)
  unfolding update_latest
  update_latest-Held latest [] m = inl (tt, refl)
  update_latest-Held latest (x ∷ xs) m = elim (Option-cases (new_version (version x))) [
    | inl e ↦ rw e (elim (update_latest-Held latest xs m) [
      | inl (n, same) ↦ inl ((refl, n), same)
      | inr (s, v, a, b, c, n, i) ↦ inr (s, v, a, b, c, (refl, n), inr i)
    ])
    | inr (w, e) ↦ elim (Bool-cases (less_than latest w)) [
      | inr old ↦ rw e (
          rw old (elim (update_latest-Held latest xs m) [
            | inl (n, same) ↦ inl ((refl, n), same)
            | inr (s, v, a, b, c, n, i) ↦
                inr (s, v, a, b, c, (not_newer latest v (some w) c old, n), inr i)
          ]))
      | inl new ↦ rw e (
          rw new (elim (update_latest-Held w xs (insert k (version x) m)) [
            | inl (n, same) ↦ inr (
              version x,
              w,
              ap (λ (z : Dict String). lookup k z) same ∙ lookup-insert_self k (version x) m,
              e,
              new,
              (irreflexive w, n),
              inl refl,
            )
            | inr (s, v, a, b, c, n, i) ↦ inr (
              s,
              v,
              a,
              b,
              transitive latest w v new c,
              (not_newer w v (some w) c (irreflexive w), n),
              inr i,
            )
          ]))
    ]
  ]

  -- After `Set` either no instance of the list has a version newer than 0.0.0, and the latest
  -- version of the service is what it was before, or it is the version of an instance of the list,
  -- and no instance has a newer one. The order of the versions is irreflexive and transitive.
  pub set-Held :
      (zero_version : V) (l : List MicroServiceInstance) (ic : IndexCache)
      → Held zero_version l ic.latest_v (set new_version less_than zero_version k l ic).latest_v
  unfolding set
  set-Held zero_version l ic = update_latest-Held zero_version l ic.latest_v
