-- ===== src/Refresh.antt =====
-- The refresh of the cache of instances, `RefreshCache` of core/registry/healthz.go, as far as the cached lists. `downs` holds
-- the identifiers that are known to be down. Whether `HealthCheck` takes an instance is a
-- parameter, since it hands it to another goroutine. The `simpleCache` of core/registry is a map.
use go_chassis.Prelude.{
  String, List, [], ◌∷◌, ◌++◌, Option, none, some, Bool, true, false, not, ◌&&◌, ◌||◌, ◌==◌, ◌≡◌,
  refl, sym, ap, ◌∙◌, ◌⊎◌, inl, inr, arith, eq_iff, eq_refl, keep, keep-All, All, Dict, lookup,
  insert, remove, lookup-insert, lookup-insert_self, lookup-remove, subst, Bool-cases,
  if◌then◌else◌,
}
use go_chassis.Instance.{MicroServiceInstance}

abbrev pub is_known {ℓ} : {A : Type ℓ} → Option A → Bool
is_known none = false
is_known (some a) = true

-- The instances by their identifiers; a later one replaces an earlier one.
unfoldable pub by_id :
    List MicroServiceInstance → Dict MicroServiceInstance → Dict MicroServiceInstance
by_id [] m = m
by_id (ins ∷ rest) m = by_id rest (insert ins.instance_id ins m)

abbrev values : Dict MicroServiceInstance → List MicroServiceInstance
values [] = []
values (entry ∷ rest) = entry.1 ∷ values rest

module _ (health_check : MicroServiceInstance → Bool) (downs : Dict {0} Unit) where
  -- Whether an instance of the cache stays.
  abbrev pub stays : Dict MicroServiceInstance → MicroServiceInstance → Bool
  stays map_ups ins =
      is_known (lookup ins.instance_id map_ups)
      || (not (is_known (lookup ins.instance_id downs)) && health_check ins)

  abbrev pub is_new : Dict MicroServiceInstance → MicroServiceInstance → Bool
  is_new map_exps up = not (is_known (lookup up.instance_id map_exps))

  -- The instances that stay, and those that are new.
  unfoldable pub refreshed :
      List MicroServiceInstance → List MicroServiceInstance → List MicroServiceInstance
  unfolding by_id
  refreshed exps ups =
      let map_ups = by_id ups [] in
      let map_exps = by_id exps [] in
      keep (stays map_ups) (values map_exps) ++ keep (is_new map_exps) ups

  -- `RefreshCache`
  abbrev pub stored :
      String
      → List MicroServiceInstance
      → Dict (List MicroServiceInstance)
      → Dict (List MicroServiceInstance)
  stored service [] m = remove service m
  stored service (x ∷ xs) m = insert service (x ∷ xs) m

  -- `nil` says whether an empty list in the cache is a nil one, which `removeFromCache` leaves and the code
  -- takes for a missing one.
  abbrev pub is_empty : List MicroServiceInstance → Bool
  is_empty [] = true
  is_empty (x ∷ xs) = false

  abbrev pub refresh_found :
      Bool
      → Option (List MicroServiceInstance)
      → String
      → List MicroServiceInstance
      → Dict (List MicroServiceInstance)
      → Dict (List MicroServiceInstance)
  refresh_found nil none service ups m = insert service ups m
  refresh_found nil (some exps) service ups m =
      if nil && is_empty exps then insert service ups m else stored service (refreshed exps ups) m

  unfoldable pub refresh_cache :
      Bool
      → String
      → List MicroServiceInstance
      → Dict (List MicroServiceInstance)
      → Dict (List MicroServiceInstance)
  unfolding refreshed
  refresh_cache nil service ups m = refresh_found nil (lookup service m) service ups m

  written :
      (k : String) (ins : MicroServiceInstance) (m : Dict MicroServiceInstance)
      → (ins.instance_id ≡ k) ⊎ (is_known (lookup k m) ≡ true)
      → is_known (lookup k (insert ins.instance_id ins m)) ≡ true
  written k ins m h =
      ap (λ (o : Option MicroServiceInstance). is_known o) (lookup-insert ins.instance_id k ins m)
      ∙ (elim (Bool-cases (ins.instance_id == k)) [
        | inl e ↦ rw e refl
        | inr ne ↦ rw ne (elim h [
          | inl s ↦ absurd (let t = (eq_iff ins.instance_id k).1 s in ground arith)
          | inr b ↦ b
        ])
      ])

  by_id-grows :
      (k : String) (l : List MicroServiceInstance) (m : Dict MicroServiceInstance)
      → is_known (lookup k m) ≡ true
      → is_known (lookup k (by_id l m)) ≡ true
  unfolding by_id
  by_id-grows k [] m h = h
  by_id-grows k (ins ∷ rest) m h =
      by_id-grows k rest (insert ins.instance_id ins m) (written k ins m (inr h))

  -- Every instance of a list is found under its identifier.
  by_id-known :
      (l : List MicroServiceInstance) (m : Dict MicroServiceInstance)
      → All (λ (x : MicroServiceInstance). is_known (lookup x.instance_id (by_id l m)) ≡ true) l
  unfolding by_id
  by_id-known [] m = tt
  by_id-known (ins ∷ rest) m = (
    by_id-grows ins.instance_id rest (insert ins.instance_id ins m)
        (written ins.instance_id ins m (inl refl)),
    by_id-known rest (insert ins.instance_id ins m),
  )

  -- Not known to be down, or reported to be up.
  abbrev pub Alive : List MicroServiceInstance → MicroServiceInstance → Type 0
  Alive ups x =
      (is_known (lookup x.instance_id downs) ≡ false)
      ⊎ (is_known (lookup x.instance_id (by_id ups [])) ≡ true)

  stay-Alive :
      (ups l : List MicroServiceInstance)
      → All (λ (x : MicroServiceInstance). stays (by_id ups []) x ≡ true) l
      → All (Alive ups) l
  stay-Alive ups [] h = tt
  stay-Alive ups (x ∷ xs) h = (
    elim (Bool-cases (is_known (lookup x.instance_id (by_id ups [])))) [
      | inl e ↦ inr e
      | inr ne ↦ inl (let s = h.0 in ground arith)
    ],
    stay-Alive ups xs h.1,
  )

  new-Alive :
      (ups l : List MicroServiceInstance) (p : MicroServiceInstance → Bool)
      → All (λ (x : MicroServiceInstance). is_known (lookup x.instance_id (by_id ups [])) ≡ true) l
      → All (Alive ups) (keep p l)
  unfolding keep
  new-Alive ups [] p h = tt
  new-Alive ups (x ∷ xs) p h =
      elim (p x) as (λ (b : Bool). All (Alive ups) (if b then x ∷ keep p xs else keep p xs)) [
        | true ↦ (inr h.0, new-Alive ups xs p h.1)
        | false ↦ new-Alive ups xs p h.1
      ]

  append-Alive :
      (ups xs ys : List MicroServiceInstance)
      → All (Alive ups) xs
      → All (Alive ups) ys
      → All (Alive ups) (xs ++ ys)
  append-Alive ups [] ys a b = b
  append-Alive ups (x ∷ xs) ys a b = (a.0, append-Alive ups xs ys a.1 b)

  -- After the refresh of a service that was in the cache, each instance that is cached for it is
  -- not known to be down or is reported to be up.
  pub refresh_cache-Alive :
      (nil : Bool) (service : String) (exps ups l : List MicroServiceInstance)
      (m : Dict (List MicroServiceInstance))
      → lookup service m ≡ some exps
      → lookup service (refresh_cache nil service ups m) ≡ some l
      → All (Alive ups) l
  unfolding refresh_cache refreshed
  refresh_cache-Alive nil service exps ups l m e h =
      let lefts = keep (stays (by_id ups [])) (values (by_id exps [])) in
      let saves = keep (is_new (by_id exps [])) ups in
      let alive : All (Alive ups) (lefts ++ saves) =
        append-Alive ups lefts saves
          (stay-Alive ups lefts (keep-All (stays (by_id ups [])) (values (by_id exps []))))
          (new-Alive ups ups (is_new (by_id exps [])) (by_id-known ups [])) in
      let after : lookup service (refresh_found nil (some exps) service ups m) ≡ some l =
        sym (
          ap
            (λ (o : Option (List MicroServiceInstance)).
              lookup service (refresh_found nil o service ups m))
            e)
        ∙ h in
      elim (Bool-cases (nil && is_empty exps)) [
        | inl b ↦
            let set_ups : lookup service (insert service ups m) ≡ some l =
              sym (rw b refl) ∙ after in
            let same : some ups ≡ some l = sym (lookup-insert_self service ups m) ∙ set_ups in
            let same' : ups ≡ l = cc in
            subst (All (Alive ups)) same' (all_up ups (by_id-known ups []))
        | inr b ↦ held (lefts ++ saves) alive (sym (rw b refl) ∙ after)
      ]
    where
      all_up :
          (xs : List MicroServiceInstance)
          → All
              (λ (x : MicroServiceInstance). is_known (lookup x.instance_id (by_id ups [])) ≡ true)
              xs
          → All (Alive ups) xs
      all_up [] a = tt
      all_up (x ∷ xs) (p, a) = (inr p, all_up xs a)

      held :
          (r : List MicroServiceInstance)
          → All (Alive ups) r
          → lookup service (stored service r m) ≡ some l
          → All (Alive ups) l
      held [] a q = absurd (
          let g : none ≡ some l =
            sym (
              lookup-remove service service m
              ∙ ap (λ (b : Bool). if b then none else lookup service m) (eq_refl service))
            ∙ q in
          cc)
      held (x ∷ xs) a q =
          subst (λ (z : List MicroServiceInstance). All (Alive ups) z)
            (let g : some (x ∷ xs) ≡ some l = sym (lookup-insert_self service (x ∷ xs) m) ∙ q in
              let c : (x ∷ xs) ≡ l = cc in c)
            a
