-- ===== src/RuleSource.antt =====
-- The rules of core/router/cse: the translation of dark launch rules in translate.go, and the table
-- of rules by service with its events in router.go and router_manager.go. What the configuration manager
-- holds under a key is an argument of an event.
pub mod Installed
use go_chassis.Prelude.{
  ℕ, suc, ◌-◌, ◌/◌, String, ◌<>◌, List, [], ◌∷◌, ◌++◌, Option, none, some, Bool, true, false, ◌==◌,
  eqb, ℤ, pos, negsuc, atoi, Dict, lookup, insert, remove, map, length, cut, replace_first,
  split_on, if◌then◌else◌,
}
use go_chassis.Config.{RouteTag, RouteRule, Match, zero_match}
use go_chassis.WeightPool
use go_chassis.WeightPool.{SafePool}
use go_chassis.Rules.{validate_rule}

-- `RuleItem`, `DarkLaunchRule`
pub record RuleItem : Type 0 where
  pub group_name : String
  pub group_condition : String
  pub policy_condition : String

pub record DarkLaunchRule : Type 0 where
  pub policy_type : String
  pub items : List RuleItem

-- The division of integers by a length, which drops the fraction.
abbrev pub quotient : ℤ → ℕ → ℤ
quotient (pos n) k = pos (n / k)
quotient (negsuc n) k = if eqb (suc n / k) 0 then pos 0 else negsuc (suc n / k - 1)

-- `generateRouteTags`
abbrev pub version_tag : ℤ → String → RouteTag
version_tag weight version = record {
  tags = ("version", version) ∷ [];
  weight = weight;
  label = "";
}

unfoldable pub generate_route_tags : ℤ → List String → List RouteTag
generate_route_tags weights versions =
    if eqb (length versions) 1
    then map (version_tag weights) versions
    else map (version_tag (quotient weights (length versions))) versions

-- The operators of a condition in the order of the tests, and the names of their headers.
abbrev pub operators : Dict String
operators =
    ("!=", "noEqu")
    ∷ (">=", "noLess")
    ∷ ("<=", "noGreater")
    ∷ ("=", "exact")
    ∷ (">", "greater")
    ∷ ("<", "less")
    ∷ ("~", "regex")
    ∷ []

-- `strings.Split(con, op)[1]`, in what follows the first operator.
abbrev pub up_to : Option (String × String) → String → String
up_to none text = text
up_to (some (front, more)) text = front

abbrev pub headers_of :
    Option (String × String) → String → String → Dict (Dict String) → Dict (Dict String)
headers_of none op name later = later
headers_of (some (header, after)) op name later =
    (header, (name, up_to (cut op after) after) ∷ []) ∷ []

unfoldable pub condition : Dict String → String → Dict (Dict String)
unfolding cut
condition [] con = []
condition ((op, name) ∷ rest) con = headers_of (cut op con) op name (condition rest con)

-- The versions of an item.
unfoldable pub versions_of : RuleItem → List String
unfolding split_on replace_first
versions_of item = split_on b',' (replace_first item.group_condition "version=" "")

-- `DarkLaunchRule2RouteRule`
unfoldable pub rate_routes : List RuleItem → List RouteTag
unfolding generate_route_tags versions_of
rate_routes [] = []
rate_routes (item ∷ rest) =
    generate_route_tags (atoi item.policy_condition).0 (versions_of item) ++ rate_routes rest

unfoldable pub item_rule : RuleItem → RouteRule
unfolding generate_route_tags versions_of condition
item_rule item = record {
  precedence = pos 1;
  routes = generate_route_tags (pos 100) (versions_of item);
  match = record zero_match {
    http_headers = some (condition operators item.policy_condition);
    headers = some (condition operators item.policy_condition);
  };
}

unfoldable pub dark_launch_rule_to_route_rule : DarkLaunchRule → List RouteRule
unfolding rate_routes item_rule
dark_launch_rule_to_route_rule rule =
    if rule.policy_type == "RATE"
    then record { precedence = pos 1; routes = rate_routes rule.items; match = zero_match } ∷ []
    else if rule.policy_type == "RULE"
    then map item_rule rule.items
    else []

-- The rules by service, and the cache of pools by service.
pub record Table : Type 0 where
  pub dests : Dict (List RouteRule)
  pub pools : SafePool

-- `SetRouteRuleByKey`, `DeleteRouteRuleByKey`
unfoldable pub set_route_rule_by_key : String → List RouteRule → Table → Table
set_route_rule_by_key k r t = record t { dests = insert k r t.dests }

unfoldable pub delete_route_rule_by_key : String → Table → Table
delete_route_rule_by_key k t = record t { dests = remove k t.dests }

-- What the configuration manager holds: nothing, rules, or another value.
pub data Held : Type 0 where
  nothing : Held
  rules : List RouteRule → Held
  other : Held

-- `Event`. The validation writes the labels into the rules.
abbrev pub installed : Bool × Dict (List RouteRule) → String → Table → Table
installed (true, (key, labelled) ∷ rest) k t =
    let t' = set_route_rule_by_key k labelled t in record t' { pools = WeightPool.reset k t'.pools }
installed (true, []) k t = t
installed (false, labelled) k t = t

unfoldable pub event : String → Held → Table → Table
unfolding set_route_rule_by_key delete_route_rule_by_key validate_rule
event k nothing t = delete_route_rule_by_key k t
event k (rules r) t = installed (validate_rule ((k, r) ∷ [])) k t
event k other t = t

-- `refresh`; `none` is the error. The rules are taken only if all are valid.
abbrev pub all_rules : Dict Held → Option (Dict (List RouteRule))
all_rules [] = some []
all_rules ((k, rules r) ∷ rest) = elim (all_rules rest) [ none ↦ none | some d ↦ some ((k, r) ∷ d) ]
all_rules ((k, nothing) ∷ rest) = none
all_rules ((k, other) ∷ rest) = none

abbrev pub refreshed : Bool × Dict (List RouteRule) → Table → Table
refreshed (ok, d) t = if ok then record t { dests = d } else t

unfoldable pub refresh : Dict Held → Table → Option Table
unfolding validate_rule
refresh configs t = elim (all_rules configs) [
  | none ↦ none
  | some d ↦ some (refreshed (validate_rule d) t)
]
