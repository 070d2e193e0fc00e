-- ===== src/Tests/Launches.antt =====
-- The dark launch rules of core/router/cse on small data.
use go_chassis.Prelude.{◌≡◌, refl, [], ◌∷◌, some, pos, lookup, map}
use go_chassis.Config.{RouteTag, RouteRule}
use go_chassis.Rules.{validate_rules, Light}
use go_chassis.RuleSource.{
  DarkLaunchRule, Table, rules, condition, operators, dark_launch_rule_to_route_rule, event,
}
use go_chassis.RuleSource.Installed.{event-dark_launch}

abbrev launch : DarkLaunchRule
launch = record {
  policy_type = "RULE";
  items =
      record {
        group_name = "s0";
        group_condition = "version=0.1,0.2,0.3";
        policy_condition = "user>=7";
      }
      ∷ [];
}

abbrev empty : Table
empty = record { dests = []; pools = [] }

condition_of : condition operators "user>=7" ≡ ("user", ("noLess", "7") ∷ []) ∷ []
unfolding condition
condition_of = refl

-- Three versions with 33 of 100 each.
weights :
    map
      (λ (r : RouteRule). map (λ (t : RouteTag). t.weight) r.routes)
      (dark_launch_rule_to_route_rule launch)
    ≡ (pos 33 ∷ pos 33 ∷ pos 33 ∷ []) ∷ []
unfolding dark_launch_rule_to_route_rule
weights = refl

event-dark_launch_example :
    Light (dark_launch_rule_to_route_rule launch)
    × (lookup "cart" (event "cart" (rules (dark_launch_rule_to_route_rule launch)) empty).dests
        ≡ some (validate_rules (dark_launch_rule_to_route_rule launch)).1)
event-dark_launch_example = event-dark_launch "cart" launch empty refl
