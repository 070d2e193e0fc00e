-- ===== src/Tests/Routes.antt =====
-- The routing of core/router/router.go on small data.
use mathlib.Core.List.{Perm, Mem, mem-cons, not-mem-nil}
use mathlib.Core.Logic.Or
use Prim.Native.Char.{IsScalar}
use mathlib.Core.HLevel.{prop→set}
use text.Mathlib.TextEquality.{IsScalar-prop}
use go_chassis.Prelude.{
  All, value_or, ℕ, ◌-◌, ◌≡◌, ◌≢◌, ◌↔◌, refl, sym, subst, String, List, [], ◌∷◌, Option, none, some,
  Bool, true, false, arith, length, pos, lookup, ◌==◌,
}
use go_chassis.Config.{RouteTag, RouteRule, Match, zero_match}
use go_chassis.WeightPool
use go_chassis.WeightPool.{SafePool, new_pool}
use go_chassis.WeightPool.Invariant.{IsValid}
use go_chassis.WeightPool.Valid.{new_pool-IsValid}
use go_chassis.Router.{State, Tags, no_tags, route}
use go_chassis.Router.Sort.{sort_slice, quick_sort, partition, place}
use go_chassis.Router.Sort.Sorted.{IsSorted, sort_slice-IsSorted}
use go_chassis.Router.Matching.{SourceInfo, is_match, match_tags, match_all, source_match, matches}
use go_chassis.Router.Matching.Laws.{Agrees, source_match_iff}
use go_chassis.Router.Decided.{Decided, route_by_precedence}
use go_chassis.Router.Pools.{AllValid, route-Routed}

-- Stands for the regular expressions: a pattern matches itself, and none panics.
abbrev same_text : String → String → Option Bool
same_text pattern text = some (pattern == text)

abbrev tag : String → ℕ → RouteTag
tag version w = record { tags = ("version", version) ∷ []; weight = pos w; label = version }

abbrev for_source : String → ℕ → String → RouteRule
for_source source p version = record {
  precedence = pos p;
  routes = tag version 100 ∷ [];
  match = record zero_match { source = source };
}

abbrev rules : List RouteRule
rules = for_source "" 1 "1.0" ∷ for_source "shop" 3 "2.0" ∷ for_source "mall" 2 "1.5" ∷ []

abbrev shop : SourceInfo
shop = record { name = "shop"; tags = ("env", "test") ∷ [] }

abbrev state : State
state = record { templates = []; pools = []; dests = ("cart", rules) ∷ [] }

sorted :
    sort_slice rules
    ≡ some (for_source "shop" 3 "2.0" ∷ for_source "mall" 2 "1.5" ∷ for_source "" 1 "1.0" ∷ [])
unfolding sort_slice quick_sort partition place
sorted = refl

sort_slice-IsSorted_example :
    (t : List RouteRule) × (sort_slice rules ≡ some t)
    × Perm t rules
    × (length t ≡ length rules)
    × IsSorted t 0 (length rules - 1)
sort_slice-IsSorted_example = sort_slice-IsSorted rules

-- A cache with the pool of one destination.
abbrev canary : List RouteTag
canary = tag "1.0" 60 ∷ tag "2.0" 40 ∷ []

abbrev cached : SafePool
cached = ("cart", new_pool canary) ∷ []

AllValid-cached : AllValid cached
unfolding WeightPool.get lookup
AllValid-cached dest p e =
    subst IsValid (let r : new_pool canary ≡ p = ground arith in r) (new_pool-IsValid canary)

abbrev one_rule : List RouteRule
one_rule = for_source "shop" 3 "2.0" ∷ []

IsScalar-set : (n : ℕ) → IsSet (IsScalar n)
IsScalar-set n = prop→set (IsScalar-prop n)

rules_set : IsSet RouteRule
rules_set = hlevel IsScalar-set

only_rule : (r : RouteRule) → Mem r one_rule → r ≡ for_source "shop" 3 "2.0"
only_rule r m =
    Or.elim (rules_set r (for_source "shop" 3 "2.0")) (mem-cons.0 m) (λ e. e)
      (λ n. absurd (not-mem-nil n))

route-Routed_example :
    (t : Tags) × (after : State) × (route same_text [] shop "cart" no_tags
        (record state { dests = ("cart", one_rule) ∷ [] })
      ≡ some (t, after))
    × AllValid after.pools
unfolding lookup WeightPool.get matches source_match match_tags match_all
route-Routed_example =
    route-Routed same_text [] shop "cart" no_tags (record state { dests = ("cart", one_rule) ∷ [] })
      one_rule (λ dest p e. cc) refl
      (λ r m. subst (λ (x : RouteRule). x.routes ≢ []) (sym (only_rule r m)) (λ e. cc))
      (λ r m.
        subst (λ (x : RouteRule). (b : Bool) × (matches same_text [] x.match [] shop ≡ some b))
          (sym (only_rule r m)) (true, refl))

each_rule :
    (P : RouteRule → Type 0)
    → ((r : RouteRule) → IsProp (P r))
    → (rs : List RouteRule) → All P rs
    → (r : RouteRule) → Mem r rs
    → P r
each_rule P prop [] a r m = absurd (not-mem-nil m)
each_rule P prop (x ∷ xs) a r m =
    Or.elim (prop r) (mem-cons.0 m) (λ e. subst P (sym e) a.0) (each_rule P prop xs a.1 r)

abbrev answer : RouteRule → Option Bool
answer r = matches same_text [] r.match [] shop

-- Of the three rules the one of precedence 3 matches, and it stands in the middle.
route_by_precedence_example :
    (t : Tags) × (after : State) × (route same_text [] shop "cart" no_tags state ≡ some (t, after))
    × Decided same_text [] shop "cart" no_tags state rules t after
unfolding lookup WeightPool.get matches source_match match_tags match_all
route_by_precedence_example =
    route_by_precedence same_text [] shop "cart" no_tags state rules (λ dest p e. cc) refl
      (each_rule (λ r. r.routes ≢ []) (λ r. hlevel) rules ((λ e. cc), ((λ e. cc), ((λ e. cc), tt))))
      (λ r m. (
        value_or (answer r) false,
        each_rule (λ x. answer x ≡ some (value_or (answer x) false)) (λ x. hlevel) rules
            (refl, (refl, (refl, tt))) r m,
      ))

abbrev wanted : Match
wanted = record {
  refer = "";
  source = "shop";
  source_tags = ("env", "test") ∷ [];
  http_headers = none;
  headers = some (("user", ("exact", "ann") ∷ []) ∷ []);
}

source_match_iff_example :
    (source_match same_text wanted (("user", "ann") ∷ []) shop ≡ some true)
    ↔ Agrees same_text wanted (("user", "ann") ∷ []) shop
source_match_iff_example = source_match_iff same_text wanted (("user", "ann") ∷ []) shop

abbrev tags_only : Match
tags_only = record zero_match { source_tags = ("env", "prod") ∷ [] }

abbrev refers : Match
refers = record zero_match { refer = "vip" }

ages :
    (is_match same_text (("age", "18") ∷ []) "age" (("less", "21") ∷ []) ≡ some true)
    × (is_match same_text (("age", "-3") ∷ []) "age" (("noLess", "-2") ∷ []) ≡ some false)
    × (is_match same_text (("age", "old") ∷ []) "age" (("greater", "2") ∷ []) ≡ some false)
unfolding is_match lookup
ages = (refl, refl, refl)
