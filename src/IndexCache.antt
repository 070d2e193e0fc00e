-- ===== src/IndexCache.antt =====
-- The cache of instances: core/registry/cache_index.go. The library for version numbers is a
-- parameter: `new_version` parses a number, `less_than` orders them, and `zero_version` is what
-- it makes of "0.0.0". The entries of both caches never expire, since the code sets no time.
pub mod Queries
pub mod Latest
use go_chassis.Prelude.{
  String, ◌<>◌, sorted_names, List, [], ◌∷◌, Option, none, some, Bool, true, false, not, ◌&&◌, ◌==◌,
  keep, map, Dict, lookup, insert, remove, value_or, if◌then◌else◌,
}
use go_chassis.Config.{buildin_tag_version, latest_version}
use go_chassis.Instance.{MicroServiceInstance, has, version}

-- `IndexCache`, without the criteria, which nothing uses.
pub record IndexCache : Type 0 where
  pub latest_v : Dict String
  pub simple_cache : Dict (List MicroServiceInstance)
  pub indexed_cache : Dict (List MicroServiceInstance)

-- `NewIndexCache`
abbrev pub new_index_cache : IndexCache
new_index_cache = record { latest_v = []; simple_cache = []; indexed_cache = [] }

-- `Delete`
unfoldable pub delete : String → IndexCache → IndexCache
delete k ic = record ic {
  simple_cache = remove k ic.simple_cache;
  indexed_cache = remove k ic.indexed_cache;
}

module _ {V : Type 0} (new_version : String → Option V) (less_than : V → V → Bool) where
  abbrev pub is_newer : V → Option V → Bool
  is_newer latest none = false
  is_newer latest (some v) = less_than latest v

  -- The loop of `Set` over the instances.
  unfoldable pub update_latest : String → V → List MicroServiceInstance → Dict String → Dict String
  update_latest k latest [] m = m
  update_latest k latest (instance ∷ rest) m =
      let v = new_version (version instance) in
      let newer = update_latest k (value_or v latest) rest (insert k (version instance) m) in
      let older = update_latest k latest rest m in if is_newer latest v then newer else older

  -- `Set`
  unfoldable pub set : V → String → List MicroServiceInstance → IndexCache → IndexCache
  unfolding update_latest
  set zero_version k instances ic = record ic {
    latest_v = update_latest k zero_version instances ic.latest_v;
    simple_cache = insert k instances ic.simple_cache;
  }

-- `setTagsBeforeQuery`, which changes the tags of the caller.
abbrev pub is_latest : Option String → Bool
is_latest none = false
is_latest (some v) = v == latest_version

unfoldable pub set_tags_before_query : String → Dict String → IndexCache → Dict String
set_tags_before_query k tags ic =
    let latest = value_or (lookup k ic.latest_v) "" in
    if is_latest (lookup buildin_tag_version tags) && not (latest == "")
    then insert buildin_tag_version latest tags
    else tags

-- `getIndexedCacheKey`, over the keys in the order of the set.
key_parts : Dict String → List String → String
key_parts tags [] = ""
key_parts tags (k ∷ ks) = "|" <> k <> ":" <> value_or (lookup k tags) "" <> key_parts tags ks

unfoldable pub get_indexed_cache_key : String → Dict String → String
unfolding sorted_names key_parts
get_indexed_cache_key service tags = "service:" <> service <> key_parts tags (sorted_names tags)

-- The instances with the tags; an empty result counts as a miss.
abbrev pub found : List MicroServiceInstance → Option (List MicroServiceInstance)
found [] = none
found (x ∷ xs) = some (x ∷ xs)

abbrev pub query :
    Option (List MicroServiceInstance)
    → List MicroServiceInstance
    → Dict String
    → Option (List MicroServiceInstance)
query (some saved) instances tags = some saved
query none instances tags = found (keep (λ ins. has ins tags) instances)

abbrev pub get_cached :
    Option (List MicroServiceInstance)
    → String
    → Dict String
    → IndexCache
    → Option (List MicroServiceInstance) × Dict String
get_cached none k tags ic = (none, tags)
get_cached (some instances) k [] ic = (some instances, [])
get_cached (some instances) k (t ∷ ts) ic =
    let tags = set_tags_before_query k (t ∷ ts) ic in
    (query (lookup (get_indexed_cache_key k tags) ic.indexed_cache) instances tags, tags)

-- `Get`: the instances, `none` for a miss, and the tags that the call leaves to the caller.
unfoldable pub get :
    String → Dict String → IndexCache → Option (List MicroServiceInstance) × Dict String
unfolding set_tags_before_query get_indexed_cache_key
get k tags ic = get_cached (lookup k ic.simple_cache) k tags ic
