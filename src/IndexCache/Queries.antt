-- ===== src/IndexCache/Queries.antt =====
-- What `Get` of core/registry/cache_index.go returns after the other operations.
use go_chassis.Prelude.{
  ◌≡◌, refl, ◌∙◌, ap, String, eq_refl, List, [], ◌∷◌, Option, none, some, Bool, keep, Dict, lookup,
  remove, lookup-insert_self, lookup-remove, if◌then◌else◌,
}
use go_chassis.Instance.{MicroServiceInstance, has}
use go_chassis.IndexCache.{IndexCache, new_index_cache, delete, set, found, get}

-- The operations that change the cache.
pub data Operation : Type 0 where
  set_op : String → List MicroServiceInstance → Operation
  delete_op : String → Operation

module _ {V : Type 0} (new_version : String → Option V) (less_than : V → V → Bool)
    (zero_version : V) where
  -- The cache after some operations, beginning with a new one.
  pub history : List Operation → IndexCache
  unfolding delete set
  history [] = new_index_cache
  history (set_op k l ∷ before) = set new_version less_than zero_version k l (history before)
  history (delete_op k ∷ before) = delete k (history before)

  unindexed : (ops : List Operation) → (history ops).indexed_cache ≡ []
  unfolding history set delete remove
  unindexed [] = refl
  unindexed (set_op k l ∷ before) = unindexed before
  unindexed (delete_op k ∷ before) = rw (unindexed before) refl

  -- After `Set` of a service, on a cache with any history, `Get` without tags returns what was set,
  -- and `Get` with tags returns exactly the instances that have the tags, in the order of the
  -- list, and a miss if none has, where the tags are those that the call leaves behind, with
  -- the latest version put in.
  pub get-after_set :
      (ops : List Operation) (k : String) (l : List MicroServiceInstance)
      → ((get k [] (history (set_op k l ∷ ops))).0 ≡ some l)
        × ((t : String × String) (ts : Dict String)
            → let (result, tags) = get k (t ∷ ts) (history (set_op k l ∷ ops)) in
              result ≡ found (keep (λ ins. has ins tags) l))
  unfolding get history set lookup
  get-after_set ops k l =
      let e = lookup-insert_self k l (history ops).simple_cache in
      (rw e refl, λ t ts. rw e (rw (unindexed ops) refl))

  -- After `Delete` of a service every query of it is a miss, and the tags stay as they are.
  pub get-after_delete :
      (ops : List Operation) (k : String) (tags : Dict String)
      → get k tags (history (delete_op k ∷ ops)) ≡ (none, tags)
  unfolding get history delete
  get-after_delete ops k tags =
      let l = lookup-remove k k (history ops).simple_cache in
      let gone : lookup k (remove k (history ops).simple_cache) ≡ none =
        l
        ∙ ap (λ (b : Bool). if b then none else lookup k (history ops).simple_cache) (eq_refl k) in
      rw gone refl
