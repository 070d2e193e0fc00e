-- ===== src/ServiceCenter/Finding/Answered.antt =====
-- What `FindMicroServiceInstances` of core/registry/servicecenter/servicecenter.go gives.
use go_chassis.Prelude.{
  String, List, [], ◌∷◌, Option, none, some, Bool, ◌==◌, ◌≡◌, ◌≢◌, refl, ◌∙◌, inl, inr, keep, Dict,
  lookup, insert, lookup-insert_self, value_or, Bool-cases,
}
use go_chassis.Config.{buildin_tag_app, buildin_tag_version, latest_version}
use go_chassis.Instance.{MicroServiceInstance, has}
use go_chassis.Router.{Tags}
use go_chassis.IndexCache.{IndexCache, set, get, found, set_tags_before_query}
use go_chassis.Refresh.{refresh_cache}
use go_chassis.ServiceCenter.{ScInstance, filter}
use go_chassis.ServiceCenter.Pull.{or_app}
use go_chassis.ServiceCenter.Finding.{
  is_unset, with_version, with_app, default_kv, wrap_kv, wrap_tags_for_service_center, Known, Found,
  found_ones, nothing, find_error, replaced, refresh_index, looked_up, after_answer, on_cached,
  find_micro_service_instances,
}

get-found :
    (name : String) (kv : Dict String) (l : List MicroServiceInstance) (ic : IndexCache)
    → kv ≢ []
    → lookup name ic.simple_cache ≡ some l
    → ic.indexed_cache ≡ []
    → (get name kv ic).0 ≡ found (keep (λ ins. has ins (set_tags_before_query name kv ic)) l)
unfolding get lookup
get-found name [] l ic ne s e = absurd (ne refl)
get-found name (t ∷ ts) l ic ne s e = rw (s, e) refl

insert-ne : (k v : String) (m : Dict String) → insert k v m ≢ []
unfolding insert
insert-ne k v [] = λ e. absurd (let f : (k, v) ∷ [] ≡ [] = e in cc)
insert-ne k v (entry ∷ rest) = elim (Bool-cases (k == entry.0)) [
  | inl q ↦ rw q (λ e. absurd (let f : (entry.0, v) ∷ rest ≡ [] = e in cc))
  | inr q ↦ rw q (λ e. absurd (let f : entry ∷ insert k v rest ≡ [] = e in cc))
]

with_app-ne : (app label : String) (kv : Dict String) → kv ≢ [] → (with_app app (kv, label)).0 ≢ []
unfolding with_app
with_app-ne app label kv ne = elim (Bool-cases (is_unset (lookup buildin_tag_app kv))) [
  | inl q ↦ rw q (insert-ne buildin_tag_app app kv)
  | inr q ↦ rw q ne
]

with_version-ne : (label : String) (kv : Dict String) → (with_version kv label).0 ≢ []
unfolding with_version lookup
with_version-ne label [] = insert-ne buildin_tag_version latest_version []
with_version-ne label (t ∷ ts) =
    elim (Bool-cases (is_unset (lookup buildin_tag_version (t ∷ ts)))) [
      | inl q ↦ rw q (insert-ne buildin_tag_version latest_version (t ∷ ts))
      | inr q ↦ rw q (λ e. absurd (let f : t ∷ ts ≡ [] = e in cc))
    ]

-- There are always tags after the wrapping.
wrap_tags-ne : (app : String) (t : Tags) → (wrap_tags_for_service_center app t).0 ≢ []
unfolding wrap_tags_for_service_center wrap_kv
wrap_tags-ne app t = go t.kv
  where
    go : (kv : Option (Dict String)) → (wrap_kv app kv t.label).0 ≢ []
    go none = λ e. absurd (let f : default_kv latest_version app ≡ [] = e in cc)
    go (some kv) =
        with_app-ne app (with_version kv t.label).1 (with_version kv t.label).0
          (with_version-ne t.label kv)

module _ {V : Type 0} (new_version : String → Option V) (less_than : V → V → Bool)
    (zero_version : V) (parse : String → Option (String × String))
    (health_check : String → MicroServiceInstance → Bool) (is_nil : String → Bool)
    (app : String) where
  abbrev pub found_of : List MicroServiceInstance → Found
  found_of [] = nothing
  found_of (x ∷ xs) = found_ones (x ∷ xs)

  -- The tags that are sought, and the application that is asked for.
  unfoldable pub sought : Tags → Dict String
  unfolding wrap_tags_for_service_center
  sought tags = (wrap_tags_for_service_center app tags).0

  unfoldable pub asked : Tags → String
  unfolding lookup
  asked tags = or_app (value_or (lookup buildin_tag_app (sought tags)) "") app

  stored_set :
      (name : String) (ups : List MicroServiceInstance) (ic : IndexCache)
      → lookup name (set new_version less_than zero_version name ups ic).simple_cache ≡ some ups
  unfolding set
  stored_set name ups ic = lookup-insert_self name ups ic.simple_cache

  kept_set :
      (name : String) (ups : List MicroServiceInstance) (ic : IndexCache)
      → (set new_version less_than zero_version name ups ic).indexed_cache ≡ ic.indexed_cache
  unfolding set
  kept_set name ups ic = refl

  cold_refresh :
      (name : String) (ups : List MicroServiceInstance) (downs : Dict {0} Unit) (ic : IndexCache)
      → lookup name ic.simple_cache ≡ none
      → refresh_index new_version less_than zero_version parse health_check is_nil app name ups
          downs ic
        ≡ set new_version less_than zero_version name ups ic
  unfolding refresh_index replaced refresh_cache
  cold_refresh name ups downs ic c = rw (c, lookup-insert_self name ups ic.simple_cache) refl

  found-found_of :
      (name app_id : String) (st : Known) (l : List MicroServiceInstance)
      → (looked_up new_version less_than zero_version parse health_check is_nil app name app_id
          (found l)
          st).0
        ≡ found_of l
  unfolding looked_up
  found-found_of name app_id st [] = refl
  found-found_of name app_id st (x ∷ xs) = refl

  -- What is found for an answer of the service center: the instances that are up, filtered by the tags,
  -- with the latest version of these instances put in.
  unfoldable pub wanted : String → Tags → Known → Option (List ScInstance) → Found
  unfolding filter set set_tags_before_query
  wanted name tags st none = find_error
  wanted name tags st (some answer) =
      let ups = (filter parse (asked tags) answer []).0 in
      let index' = set new_version less_than zero_version name ups st.index in
      found_of (keep (λ ins. has ins (set_tags_before_query name (sought tags) index')) ups)

  after_answer-wanted :
      (name : String) (tags : Tags) (st : Known) (answer : Option (List ScInstance))
      → lookup name st.index.simple_cache ≡ none
      → st.index.indexed_cache ≡ []
      → (after_answer new_version less_than zero_version parse health_check is_nil app name
          (asked tags)
          (sought tags)
          answer
          st).0
        ≡ wanted name tags st answer
  unfolding after_answer wanted sought wrap_tags_for_service_center
  after_answer-wanted name tags st none c e = refl
  after_answer-wanted name tags st (some answer) c e =
      let (ups, downs) = filter parse (asked tags) answer [] in
      let index' = set new_version less_than zero_version name ups st.index in
      let fresh = cold_refresh name ups downs st.index c in
      let held : lookup name index'.simple_cache ≡ some ups = stored_set name ups st.index in
      let empty : index'.indexed_cache ≡ [] = kept_set name ups st.index ∙ e in
      rw (fresh, get-found name (sought tags) ups index' (wrap_tags-ne app tags) held empty)
        (found-found_of name (asked tags) _ _)

  -- What is found for a service that is not yet in the cache.
  pub find_micro_service_instances-cold :
      (find : String → String → String → Option (List ScInstance)) (name : String) (tags : Tags)
      (st : Known)
      → lookup name st.index.simple_cache ≡ none
      → st.index.indexed_cache ≡ []
      → (find_micro_service_instances new_version less_than zero_version parse health_check is_nil
          app find name tags st).0
        ≡ wanted name tags st
            (find (asked tags) name (value_or (lookup buildin_tag_version (sought tags)) ""))
  unfolding find_micro_service_instances on_cached get asked sought
  find_micro_service_instances-cold find name tags st c e =
      let answer =
        find (asked tags) name (value_or (lookup buildin_tag_version (sought tags)) "") in
      rw c (after_answer-wanted name tags st answer c e)
