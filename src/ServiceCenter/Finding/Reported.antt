-- ===== src/ServiceCenter/Finding/Reported.antt =====
-- What `FindMicroServiceInstances` of core/registry/servicecenter/servicecenter.go finds of an answer, told from
-- the fields of the instances that the service center sends.
use go_chassis.Prelude.{
  String, List, [], ◌∷◌, Option, none, some, Bool, true, false, not, ◌&&◌, ◌==◌, ◌≡◌, ◌≢◌, ◌↔◌,
  refl, sym, ap, ◌∙◌, inl, inr, eq_iff, keep, keep-and, map, subst, Dict, lookup, insert,
  lookup-insert, value_or, All, Bool-cases, if◌then◌else◌,
}
use go_chassis.Instance.{MicroServiceInstance, with_app_id, has, holds}
use go_chassis.Router.{Tags}
use go_chassis.ServiceCenter.{ScInstance, to_micro_service_instance, filter}
use go_chassis.ServiceCenter.Finding.{
  with_version, with_app, wrap_kv, wrap_tags_for_service_center, Known, Found, found_ones, nothing,
  find_error, find_micro_service_instances,
}
use go_chassis.ServiceCenter.Finding.Answered.{
  found_of, sought, asked, wanted, find_micro_service_instances-cold,
}

-- The value of an instance under the name of a tag, for an application.
abbrev pub value_under : String → ScInstance → String → Option String
value_under app_id i k =
    if "app" == k
    then some app_id
    else if "version" == k
    then some i.version
    else lookup k i.properties

-- An instance is up, has a version, and has the value of every tag.
abbrev pub Reported : String → Dict String → ScInstance → Type 0
Reported app_id kv i =
    (i.status ≡ "UP")
    × (i.version ≢ "")
    × All (λ (t : String × String). value_under app_id i t.0 ≡ some t.1) kv

keep-map :
    (q : MicroServiceInstance → Bool) (f : ScInstance → MicroServiceInstance) (l : List ScInstance)
    → keep q (map f l) ≡ map f (keep (λ i. q (f i)) l)
unfolding keep
keep-map q f [] = refl
keep-map q f (i ∷ l) = elim (Bool-cases (q (f i))) [
  | inl e ↦ rw e (ap (λ (r : List MicroServiceInstance). f i ∷ r) (keep-map q f l))
  | inr e ↦ rw e (keep-map q f l)
]

abbrev serves : ScInstance → Bool
serves i = not (i.version == "") && (i.status == "UP")

module _ (parse : String → Option (String × String)) (app_id : String) where
  abbrev pub converted : ScInstance → MicroServiceInstance
  unfolding to_micro_service_instance with_app_id
  converted i = with_app_id app_id (to_micro_service_instance parse i)

  filter-ups :
      (l : List ScInstance) (downs : Dict {0} Unit)
      → (filter parse app_id l downs).0 ≡ map converted (keep serves l)
  unfolding filter keep
  filter-ups [] downs = refl
  filter-ups (i ∷ l) downs = elim (Bool-cases (i.version == "")) [
    | inl v ↦ rw v (filter-ups l downs)
    | inr v ↦ elim (Bool-cases (i.status == "UP")) [
      | inl u ↦
          rw (v, u) (ap (λ (r : List MicroServiceInstance). converted i ∷ r) (filter-ups l downs))
      | inr u ↦ rw (v, u) (filter-ups l (insert i.instance_id tt downs))
    ]
  ]

  lookup-converted :
      (i : ScInstance) (k : String) → lookup k (converted i).metadata ≡ value_under app_id i k
  unfolding with_app_id to_micro_service_instance
  lookup-converted i k =
      lookup-insert "app" k app_id (insert "version" i.version i.properties)
      ∙ ap (λ (o : Option String). if "app" == k then some app_id else o)
          (lookup-insert "version" k i.version i.properties)

  holds-some : (o : Option String) (w : String) → (holds o w ≡ true) ↔ (o ≡ some w)
  holds-some none w = ((λ e. let f : false ≡ true = e in cc), λ e. let f : none ≡ some w = e in cc)
  holds-some (some v) w = (
    (λ e. ap (λ (t : String). some t) ((eq_iff v w).0 e)),
    λ e. (eq_iff v w).1 (let f : some v ≡ some w = e in cc),
  )

  has-values :
      (i : ScInstance) (kv : Dict String)
      → (has (converted i) kv ≡ true)
        ↔ All (λ (t : String × String). value_under app_id i t.0 ≡ some t.1) kv
  unfolding has
  has-values i [] = ((λ e. tt), λ h. refl)
  has-values i ((k, w) ∷ rest) =
      let (to_rest, of_rest) = has-values i rest in
      let (to_one, of_one) = holds-some (value_under app_id i k) w in
      let same : lookup k (converted i).metadata ≡ value_under app_id i k = lookup-converted i k in
      (
        (λ e. elim (Bool-cases (holds (value_under app_id i k) w)) [
          | inl h ↦ (to_one h, to_rest (sym (rw (same, h) refl) ∙ e))
          | inr h ↦ absurd (let f : false ≡ true = sym (rw (same, h) refl) ∙ e in cc)
        ]),
        λ (one, later). rw (same, of_one one) (of_rest later),
      )

  abbrev reports : Dict String → ScInstance → Bool
  unfolding has
  reports kv i = serves i && has (converted i) kv

  reports-Reported :
      (kv : Dict String) (i : ScInstance) → (reports kv i ≡ true) ↔ Reported app_id kv i
  unfolding reports
  reports-Reported kv i =
      let (to_values, of_values) = has-values i kv in
      let (to_up, of_up) = eq_iff i.status "UP" in
      let (to_empty, of_empty) = eq_iff i.version "" in
      (
        (λ e. elim (Bool-cases (i.version == "")) [
          | inl v ↦ absurd (let f : false ≡ true = sym (rw v refl) ∙ e in cc)
          | inr v ↦ elim (Bool-cases (i.status == "UP")) [
            | inr u ↦ absurd (let f : false ≡ true = sym (rw (v, u) refl) ∙ e in cc)
            | inl u ↦ (
              to_up u,
              (λ q. let t = of_empty q in let f : true ≡ false = sym t ∙ v in cc),
              to_values (sym (rw (v, u) refl) ∙ e),
            )
          ]
        ]),
        λ (u, v, h).
            let v' : (i.version == "") ≡ false = (elim (Bool-cases (i.version == "")) [
              | inl q ↦ absurd (v (to_empty q))
              | inr q ↦ q
            ]) in
            rw (v', of_up u) (of_values h),
      )

  ups-reported :
      (kv : Dict String) (l : List ScInstance) (downs : Dict {0} Unit)
      → keep (λ ins. has ins kv) (filter parse app_id l downs).0
        ≡ map converted (keep (reports kv) l)
  unfolding reports
  ups-reported kv l downs =
      ap (λ (r : List MicroServiceInstance). keep (λ ins. has ins kv) r) (filter-ups l downs)
      ∙ keep-map (λ ins. has ins kv) converted (keep serves l)
      ∙ ap (λ (r : List ScInstance). map converted r)
          (keep-and serves (λ i. has (converted i) kv) l)

-- Tags that name an application and a version, which is not the latest one.
pub record IsNamed (app_id v : String) (kv : Dict String) : Type 0 where
  pub app_named : lookup "app" kv ≡ some app_id
  pub app_given : app_id ≢ ""
  pub version_named : lookup "version" kv ≡ some v
  pub version_given : v ≢ ""
  pub not_latest : v ≢ "latest"

differs : (a b : String) → a ≢ b → (a == b) ≡ false
differs a b ne = elim (Bool-cases (a == b)) [ inl e ↦ absurd (ne ((eq_iff a b).0 e)) | inr e ↦ e ]

wrapped-IsNamed :
    (app app_id v label : String) (kv : Dict String)
    → IsNamed app_id v kv
    → (wrap_tags_for_service_center app (record { kv = some kv; label = label })).0 ≡ kv
unfolding wrap_tags_for_service_center wrap_kv with_version with_app
wrapped-IsNamed app app_id v label kv n =
    rw (n.version_named, differs v "" n.version_given, n.app_named, differs app_id "" n.app_given)
      refl

abbrev pub ones_or_nothing : List MicroServiceInstance → Found
ones_or_nothing [] = nothing
ones_or_nothing (x ∷ xs) = found_ones (x ∷ xs)

module _ {V : Type 0} (new_version : String → Option V) (less_than : V → V → Bool)
    (zero_version : V) (parse : String → Option (String × String))
    (health_check : String → MicroServiceInstance → Bool) (is_nil : String → Bool)
    (app : String) where
  -- What is found of an answer: the error, or the instances of it that are reported, in their order, as the cache
  -- keeps them, or nothing.
  abbrev pub Finds : String → Dict String → Option (List ScInstance) → Found → Type 0
  unfolding converted
  Finds app_id kv none result = result ≡ find_error
  Finds app_id kv (some answer) result =
      (p : ScInstance → Bool) × (result
        ≡ ones_or_nothing (map (converted parse app_id) (keep p answer)))
      × ((i : ScInstance) → (p i ≡ true) ↔ Reported app_id kv i)

  same_found :
      (l : List MicroServiceInstance)
      → found_of new_version less_than zero_version parse health_check is_nil app l
        ≡ ones_or_nothing l
  same_found [] = refl
  same_found (x ∷ xs) = refl

  sought-IsNamed :
      (app_id v label : String) (kv : Dict String)
      → IsNamed app_id v kv
      → (sought new_version less_than zero_version parse health_check is_nil app
            (record { kv = some kv; label = label })
          ≡ kv)
        × (asked new_version less_than zero_version parse health_check is_nil app
              (record { kv = some kv; label = label })
            ≡ app_id)
  unfolding sought asked
  sought-IsNamed app_id v label kv n =
      let w = wrapped-IsNamed app app_id v label kv n in
      (w, rw (w, n.app_named, differs app_id "" n.app_given) refl)

  wanted-Finds :
      (name app_id v label : String) (kv : Dict String) (st : Known)
      (answer : Option (List ScInstance))
      → IsNamed app_id v kv
      → Finds app_id kv answer (
          wanted new_version less_than zero_version parse health_check is_nil app name
            (record { kv = some kv; label = label })
            st
            answer)
  unfolding wanted Finds
  wanted-Finds name app_id v label kv st none n = refl
  wanted-Finds name app_id v label kv st (some answer) n =
      let (w, a) = sought-IsNamed app_id v label kv n in
      (
        reports parse app_id kv,
        rw (w, a, n.version_named, differs v "latest" n.not_latest)
            (same_found _
              ∙ ap (λ (l : List MicroServiceInstance). ones_or_nothing l)
                  (ups-reported parse app_id kv answer [])),
        reports-Reported parse app_id kv,
      )

  -- For a service that is not in the cache, and for which no answer is cached, a caller whose tags name an
  -- application and a version other than the latest finds exactly the instances that the service center answers
  -- for them and that are reported UP, have a version, and have the value of every tag: in their order, as the cache
  -- keeps them. There is nothing if there are none, and an error if the service center gives one.
  pub find_micro_service_instances_reported :
      (find : String → String → String → Option (List ScInstance)) (name app_id v label : String)
      (kv : Dict String) (st : Known)
      → lookup name st.index.simple_cache ≡ none
      → st.index.indexed_cache ≡ []
      → IsNamed app_id v kv
      → Finds app_id kv
          (find app_id name v)
          (find_micro_service_instances new_version less_than zero_version parse health_check is_nil
            app find name
            (record { kv = some kv; label = label })
            st).0
  find_micro_service_instances_reported find name app_id v label kv st cold none_cached n =
      let (w, a) = sought-IsNamed app_id v label kv n in
      let tags : Tags = record { kv = some kv; label = label } in
      let asks = asked new_version less_than zero_version parse health_check is_nil app tags in
      let seeks = sought new_version less_than zero_version parse health_check is_nil app tags in
      let under : value_or (lookup "version" seeks) "" ≡ v =
        ap (λ (m : Dict String). value_or (lookup "version" m) "") w
        ∙ ap (λ (o : Option String). value_or o "") n.version_named in
      let answered : find asks name (value_or (lookup "version" seeks) "") ≡ find app_id name v =
        ap (λ (id : String). find id name (value_or (lookup "version" seeks) "")) a
        ∙ ap (λ (k : String). find app_id name k) under in
      let found_so =
        find_micro_service_instances-cold new_version less_than zero_version parse health_check
          is_nil app find name tags st cold none_cached
        ∙ ap
            (λ (o : Option (List ScInstance)).
              wanted new_version less_than zero_version parse health_check is_nil app name tags st
                o)
            answered in
      subst (Finds app_id kv (find app_id name v)) (sym found_so)
        (wanted-Finds name app_id v label kv st (find app_id name v) n)
