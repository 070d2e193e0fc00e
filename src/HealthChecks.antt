-- ===== src/HealthChecks.antt =====
-- The health checker of core/registry/healthz.go, over the cache of instances: the packing of the instances
-- that wait, and the check of a pack. The map of a pack is in an order that the code does not
-- fix. The test of an endpoint over the network is a parameter.
use go_chassis.Prelude.{
  String, ◌<>◌, List, [], ◌∷◌, Option, none, some, Bool, true, false, not, ◌&&◌, ◌==◌, ◌≡◌, refl,
  sym, ap, ◌∙◌, inl, inr, arith, eq_iff, keep, keep-and, keep-true, Dict, lookup, insert,
  lookup-insert, lookup-insert_ne, Option-cases, Bool-cases, Any, ◌↔◌, if◌then◌else◌,
}
use go_chassis.Instance.{MicroServiceInstance}
use go_chassis.IndexCache.{IndexCache, set}

-- `WrapInstance` and its `String`
pub record WrapInstance : Type 0 where
  pub app_id : String
  pub service_name : String
  pub version : String
  pub instance : MicroServiceInstance

abbrev pub wrap_key : WrapInstance → String
wrap_key i = i.service_name <> ":" <> i.version <> ":" <> i.app_id <> ":" <> i.instance.instance_id

-- `wait`, for what comes before the time is over.
unfoldable pub pack_pending : List WrapInstance → Dict WrapInstance → Dict WrapInstance
unfolding insert
pack_pending [] pack = pack
pack_pending (i ∷ rest) pack = pack_pending rest (insert (wrap_key i) i pack)

-- `doCheck`: the first endpoint of the map decides, and an instance without endpoints is healthy.
abbrev pub first_answers : (String → String → Bool) → Dict String → Bool
first_answers test [] = true
first_answers test ((protocol, ep) ∷ rest) = test protocol ep

unfoldable pub do_check : (String → String → Bool) → WrapInstance → Bool
do_check test i = first_answers test i.instance.endpoints_map

-- The first endpoint of the map, which the check asks, does not answer.
abbrev pub Fails : (String → String → Bool) → Dict String → Type 0
Fails test [] = ⊥
Fails test ((protocol, ep) ∷ rest) = test protocol ep ≡ false

-- An instance of a pack that fails its check, and has a service and the identifier of an instance.
abbrev pub Removes :
    (String → String → Bool) → String → MicroServiceInstance → WrapInstance → Type 0
Removes test service x i =
    Fails test i.instance.endpoints_map
    × (i.service_name ≡ service)
    × (x.instance_id ≡ i.instance.instance_id)

do_check-Fails :
    (test : String → String → Bool) (i : WrapInstance)
    → (do_check test i ≡ false) ↔ Fails test i.instance.endpoints_map
unfolding do_check
do_check-Fails test i = go i.instance.endpoints_map
  where
    go : (m : Dict String) → (first_answers test m ≡ false) ↔ Fails test m
    go [] = ((λ e. let f : true ≡ false = e in cc), λ h. absurd h)
    go ((protocol, ep) ∷ rest) = ((λ e. e), λ h. h)

module _ {V : Type 0} (new_version : String → Option V) (less_than : V → V → Bool)
    (zero_version : V) (test : String → String → Bool) where
  abbrev pub other_instance : WrapInstance → MicroServiceInstance → Bool
  other_instance i x = not (x.instance_id == i.instance.instance_id)

  -- `removeFromCache`
  abbrev pub remove_cached :
      WrapInstance → Option (List MicroServiceInstance) → IndexCache → IndexCache
  unfolding set keep
  remove_cached i none ic = ic
  remove_cached i (some l) ic =
      set new_version less_than zero_version i.service_name (keep (other_instance i) l) ic

  unfoldable pub remove_from_cache : WrapInstance → IndexCache → IndexCache
  unfolding remove_cached lookup
  remove_from_cache i ic = remove_cached i (lookup i.service_name ic.simple_cache) ic

  -- `check`, for one pack
  unfoldable pub check_pack : Dict WrapInstance → IndexCache → IndexCache
  unfolding remove_from_cache do_check
  check_pack [] ic = ic
  check_pack (entry ∷ pack) ic =
      check_pack pack (if do_check test entry.1 then ic else remove_from_cache entry.1 ic)

  -- An instance that is checked and fails removes those of its service with its identifier.
  abbrev spare : Bool → Bool → (MicroServiceInstance → Bool) → MicroServiceInstance → Bool
  spare true of_service others x = true
  spare false true others x = others x
  spare false false others x = true

  unfoldable pub spared : String → WrapInstance → MicroServiceInstance → Bool
  unfolding do_check
  spared service i = spare (do_check test i) (i.service_name == service) (other_instance i)

  unfoldable pub survives : String → Dict WrapInstance → MicroServiceInstance → Bool
  unfolding spared
  survives service [] x = true
  survives service (entry ∷ pack) x = spared service entry.1 x && survives service pack x

  after_one :
      (i : WrapInstance) (service : String) (l : List MicroServiceInstance) (ic : IndexCache)
      → lookup service ic.simple_cache ≡ some l
      → lookup service (if do_check test i then ic else remove_from_cache i ic).simple_cache
        ≡ some (keep (spared service i) l)
  unfolding remove_from_cache set spared
  after_one i service l ic h = go (do_check test i) (i.service_name == service) refl
    where
      others : List MicroServiceInstance
      others = keep (other_instance i) l

      go :
          (ok same : Bool)
          → (i.service_name == service) ≡ same
          → lookup service (if ok then ic else remove_from_cache i ic).simple_cache
            ≡ some (keep (spare ok same (other_instance i)) l)
      go true same e = h ∙ ap some (sym (keep-true l))
      go false true e =
          let here : lookup i.service_name ic.simple_cache ≡ some l =
            ap (λ (n : String). lookup n ic.simple_cache) ((eq_iff i.service_name service).0 e)
            ∙ h in
          rw here (
            lookup-insert i.service_name service others ic.simple_cache
            ∙ ap (λ (b : Bool). if b then some others else lookup service ic.simple_cache) e)
      go false false e = elim (Option-cases (lookup i.service_name ic.simple_cache)) [
        | inl n ↦ rw n (h ∙ ap some (sym (keep-true l)))
        | inr (k, f) ↦ rw f (
            lookup-insert_ne i.service_name service (keep (other_instance i) k) ic.simple_cache
              (ground (arith, e, eq_iff i.service_name service))
            ∙ h
            ∙ ap some (sym (keep-true l)))
      ]

  check_pack-keeps :
      (pack : Dict WrapInstance) (service : String) (l : List MicroServiceInstance)
      (ic : IndexCache)
      → lookup service ic.simple_cache ≡ some l
      → lookup service (check_pack pack ic).simple_cache ≡ some (keep (survives service pack) l)
  unfolding check_pack survives
  check_pack-keeps [] service l ic h = h ∙ ap some (sym (keep-true l))
  check_pack-keeps (entry ∷ pack) service l ic h =
      check_pack-keeps pack service (keep (spared service entry.1) l) _
        (after_one entry.1 service l ic h)
      ∙ ap some (keep-and (spared service entry.1) (survives service pack) l)

  spared-Removes :
      (service : String) (i : WrapInstance) (x : MicroServiceInstance)
      → (spared service i x ≡ false) ↔ Removes test service x i
  unfolding spared
  spared-Removes service i x =
      let (to_fails, of_fails) = do_check-Fails test i in
      let (to_service, of_service) = eq_iff i.service_name service in
      let (to_id, of_id) = eq_iff x.instance_id i.instance.instance_id in
      (
        (λ e. elim (Bool-cases (do_check test i)) [
          | inl ok ↦ absurd (let f : true ≡ false = sym (rw ok refl) ∙ e in cc)
          | inr ko ↦ elim (Bool-cases (i.service_name == service)) [
            | inr ne ↦ absurd (let f : true ≡ false = sym (rw (ko, ne) refl) ∙ e in cc)
            | inl same ↦ elim (Bool-cases (x.instance_id == i.instance.instance_id)) [
              | inr ne ↦ absurd (let f : true ≡ false = sym (rw (ko, same, ne) refl) ∙ e in cc)
              | inl id ↦ (to_fails ko, to_service same, to_id id)
            ]
          ]
        ]),
        λ (f, same, id). rw (of_fails f, of_service same, of_id id) refl,
      )

  survives-Removes :
      (service : String) (pack : Dict WrapInstance) (x : MicroServiceInstance)
      → (survives service pack x ≡ false)
        ↔ Any (λ (entry : String × WrapInstance). Removes test service x entry.1) pack
  unfolding survives
  survives-Removes service [] x = ((λ e. let f : true ≡ false = e in cc), λ h. absurd h)
  survives-Removes service (entry ∷ pack) x =
      let (to_one, of_one) = spared-Removes service entry.1 x in
      let (to_rest, of_rest) = survives-Removes service pack x in
      (
        (λ e. elim (Bool-cases (spared service entry.1 x)) [
          | inl stays ↦ inr (to_rest (sym (rw stays refl) ∙ e))
          | inr goes ↦ inl (to_one goes)
        ]),
        λ h. elim h [
          | inl one ↦ rw (of_one one) refl
          | inr later ↦ elim (Bool-cases (spared service entry.1 x)) [
            | inl stays ↦ rw stays (of_rest later)
            | inr goes ↦ rw goes refl
          ]
        ],
      )

  -- The check of a pack keeps of every service in the cache a part of its instances, in their order. An instance
  -- is gone exactly if some instance of the pack has the service and its identifier and has a first
  -- endpoint that does not answer.
  pub check_pack-survives :
      (pack : Dict WrapInstance) (service : String) (l : List MicroServiceInstance)
      (ic : IndexCache)
      → lookup service ic.simple_cache ≡ some l
      → (p : MicroServiceInstance → Bool) × (lookup service (check_pack pack ic).simple_cache
          ≡ some (keep p l))
        × ((x : MicroServiceInstance)
            → (p x ≡ false)
              ↔ Any (λ (entry : String × WrapInstance). Removes test service x entry.1) pack)
  check_pack-survives pack service l ic h =
      (survives service pack, check_pack-keeps pack service l ic h, survives-Removes service pack)
