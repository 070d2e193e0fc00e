-- ===== src/Router.antt =====
-- core/router/router.go and core/router/router_config.go: the choice of the tags that a call is
-- sent to. The state is what the source keeps in package variables: the source match templates,
-- the weighted pools by destination, and the rules by service of the `cse` router
-- (core/router/cse/router.go).
pub mod Sort
pub mod Matching
pub mod Priority
pub mod Pools
pub mod Decided
use go_chassis.Prelude.{
  String, List, [], ◌∷◌, Option, none, some, Bool, true, false, Dict, lookup, insert, remove, ℤ,
  pos, eqb_ℤ, ltb_ℤ, ◌+ℤ◌, ◌==◌, ◌&&◌, ◌++◌, ◌>>=◌, if◌then◌else◌,
}
use go_chassis.Config.{Match, RouteRule, RouteTag}
use go_chassis.WeightPool
use go_chassis.WeightPool.{Pool, SafePool}
use go_chassis.Router.Sort.{sort_slice}
use go_chassis.Router.Matching.{SourceInfo, matches}

-- `Tags` of pkg/util/tags/tags.go: a nil map is `none`.
pub record Tags : Type 0 where
  pub kv : Option (Dict String)
  pub label : String

abbrev pub no_tags : Tags
no_tags = record { kv = none; label = "" }

pub record State : Type 0 where
  pub templates : Dict Match
  pub pools : SafePool
  pub dests : Dict (List RouteRule)

-- `routeTagToTags`: a copy of the tags; no tag gives the zero value.
unfoldable pub route_tag_to_tags : Option RouteTag → Tags
route_tag_to_tags none = no_tags
route_tag_to_tags (some t) = record { kv = some t.tags; label = t.label }

-- What a pick leaves in the pools.
unfoldable pub picked : String → SafePool → Pool × Option RouteTag → Option RouteTag × SafePool
picked dest pools (p, t) = (t, WeightPool.set dest p pools)

-- The destination has no pool yet, or it has one.
unfoldable pub from_pool :
    Option Pool → RouteTag → List RouteTag → String → SafePool → Option (Option RouteTag × SafePool)
from_pool none t tags dest pools =
    some (some t, WeightPool.set dest (WeightPool.new_pool tags) pools)
from_pool (some p) t tags dest pools = WeightPool.pick_one p >>= λ r. some (picked dest pools r)

-- `FitRate`; `none` is the panic on an empty list of tags.
unfoldable pub fit_rate : List RouteTag → String → SafePool → Option (Option RouteTag × SafePool)
unfolding from_pool picked
fit_rate [] dest pools = none
fit_rate (t ∷ ts) dest pools =
    if eqb_ℤ t.weight (pos 100)
    then some (some t, pools)
    else from_pool (WeightPool.get dest pools) t (t ∷ ts) dest pools

-- `FetchRouteRuleByServiceName` and the sort in place, which the shared slice keeps.
unfoldable pub sort_found :
    Option (List RouteRule) → String → State → Option (List RouteRule × State)
sort_found none name s = some ([], s)
sort_found (some slice) name s =
    sort_slice slice >>= λ t. some (t, record s { dests = insert name t s.dests })

-- `SortRules`; `InitRouteRuleByKey` of the `cse` router does nothing.
unfoldable pub sort_rules : String → State → Option (List RouteRule × State)
unfolding sort_found
sort_rules name s = sort_found (lookup name s.dests) name s

module _ (posix_match : String → String → Option Bool) where
  -- The loop of `Route`: the first rule that matches decides, and none leaves the tags alone.
  unfoldable pub first_match :
      Dict Match → List RouteRule → Dict String → SourceInfo → Option (Option RouteRule)
  first_match templates [] headers source = some none
  first_match templates (rule ∷ rules) headers source =
      matches posix_match templates rule.match headers source >>= λ b.
      let more = first_match templates rules headers source in if b then some (some rule) else more

  -- `inv.RouteTags = routeTagToTags(FitRate(rule.Routes, inv.MicroServiceName))`
  unfoldable pub apply_rule : Option RouteRule → String → Tags → State → Option (Tags × State)
  apply_rule none name tags s = some (tags, s)
  apply_rule (some rule) name tags s = fit_rate rule.routes name s.pools >>= λ r.
      some (route_tag_to_tags r.0, record s { pools = r.1 })

  -- `Route(header, si, inv)`, over the name of the service and the tags of the invocation. It
  -- returns no error, and is `none` where a call panics.
  unfoldable pub route : Dict String → SourceInfo → String → Tags → State → Option (Tags × State)
  unfolding first_match apply_rule
  route headers source name tags s = sort_rules name s >>= λ r.
      first_match s.templates r.0 headers source >>= λ rule. apply_rule rule name tags r.1
