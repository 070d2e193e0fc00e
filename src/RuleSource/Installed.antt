-- ===== src/RuleSource/Installed.antt =====
-- Which dark launch rules core/router/cse puts into its table.
use native.Mathlib.Nat.{mul-div-le}
use go_chassis.Prelude.{
  ℕ, ◌+◌, ◌*◌, ◌/◌, ◌≡◌, sym, ◌∙◌, ap, subst, inl, inr, arith, String, List, [], ◌∷◌, some, true,
  eqb, ℤ, pos, ◌≤ℤ◌, ◌+ℤ◌, lookup, map, length, lookup-insert_self, Bool-cases,
}
use go_chassis.Config.{RouteRule}
use go_chassis.Rules.{validate_rules, validate_rule, validate_rules_iff, Light, weight_from}
use go_chassis.RuleSource.{
  RuleItem, DarkLaunchRule, version_tag, generate_route_tags, versions_of, item_rule,
  dark_launch_rule_to_route_rule, set_route_rule_by_key, rules, Table, event,
}

weight_from-tags :
    (n w : ℕ) (versions : List String)
    → weight_from (pos n) (map (version_tag (pos w)) versions) ≡ pos (n + length versions * w)
unfolding weight_from ◌+ℤ◌
weight_from-tags n w [] = ap pos (omega arith)
weight_from-tags n w (v ∷ vs) =
    let e : pos n +ℤ pos w ≡ pos (n + w) = ground arith in
    ap (λ (z : ℤ). weight_from z (map (version_tag (pos w)) vs)) e
    ∙ weight_from-tags (n + w) w vs
    ∙ ap pos (omega arith)

-- The shares of the versions of one item.
generate_route_tags-le :
    (versions : List String)
    → weight_from (pos 0) (generate_route_tags (pos 100) versions) ≤ℤ pos 100
unfolding generate_route_tags
generate_route_tags-le versions = elim (Bool-cases (eqb (length versions) 1)) [
  | inl e ↦ rw e (rw (weight_from-tags 0 100 versions) (ground arith))
  | inr e ↦ rw e (
      rw (weight_from-tags 0 (100 / length versions) versions)
        (omega (arith, mul-div-le (length versions) 100)))
]

item_rules-Light : (items : List RuleItem) → Light (map item_rule items)
unfolding item_rule
item_rules-Light [] = tt
item_rules-Light (item ∷ items) =
    (generate_route_tags-le (versions_of item), item_rules-Light items)

-- Rules that pass the validation are put into the table.
event-installed :
    (k : String) (r : List RouteRule) (t : Table)
    → Light r
    → lookup k (event k (rules r) t).dests ≡ some (validate_rules r).1
unfolding event validate_rule set_route_rule_by_key
event-installed k r t light =
    let ok : (validate_rules r).0 ≡ true = (validate_rules_iff r).1 light in
    rw ok (lookup-insert_self k (validate_rules r).1 t.dests)

-- A dark launch rule of the type RULE is always taken when its event comes, whatever its items say:
-- the weights of its routes add up to at most 100 for each item, so its translation with the
-- labels is in the table afterwards.
pub event-dark_launch :
    (k : String) (rule : DarkLaunchRule) (t : Table)
    → rule.policy_type ≡ "RULE"
    → let r = dark_launch_rule_to_route_rule rule in
      Light r × (lookup k (event k (rules r) t).dests ≡ some (validate_rules r).1)
unfolding dark_launch_rule_to_route_rule
event-dark_launch k rule t h =
    let r = dark_launch_rule_to_route_rule rule in
    let light : Light r =
      subst
        (λ (p : String). Light (dark_launch_rule_to_route_rule (record rule { policy_type = p })))
        (sym h) (item_rules-Light rule.items) in
    (light, event-installed k r t light)
