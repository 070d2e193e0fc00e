-- ===== src/Rules.antt =====
-- The validation of routing rules, `ValidateRule` of core/router/router_config.go, and the labels
-- of tags of pkg/util/tags/tags.go.
use go_chassis.Prelude.{
  String, ◌<>◌, sorted_names, List, [], ◌∷◌, Bool, true, false, ◌&&◌, ◌==◌, leb_ℤ, ◌≤ℤ◌, ◌+ℤ◌, ℤ,
  pos, Dict, lookup, value_or, All, Bool-cases, inl, inr, ◌≡◌, ◌↔◌, sym, subst, ◌∙◌, refl, arith,
  if◌then◌else◌,
}
use go_chassis.Config.{RouteTag, RouteRule, buildin_tag_version, latest_version}

-- `LabelOfTags`: the pairs in the order of their keys, joined by bars.
label_from : Dict String → List String → String
label_from t [] = ""
label_from t (s ∷ []) = s <> ":" <> value_or (lookup s t) ""
label_from t (s ∷ s' ∷ ss) = s <> ":" <> value_or (lookup s t) "" <> "|" <> label_from t (s' ∷ ss)

unfoldable pub label_of_tags : Dict String → String
unfolding sorted_names label_from
label_of_tags t = label_from t (sorted_names t)

-- `IsSubsetOf`, of the tags `kv`.
unfoldable pub is_subset_of : Dict String → Dict String → Bool
is_subset_of [] labels = true
is_subset_of ((k, v) ∷ rest) labels =
    let more = is_subset_of rest labels in
    if k == buildin_tag_version && v == latest_version
    then more
    else (value_or (lookup k labels) "" == v) && more

-- The inner loop: the sum of the weights, and the routes with their labels.
unfoldable pub label_routes : ℤ → List RouteTag → ℤ × List RouteTag
label_routes all_weight [] = (all_weight, [])
label_routes all_weight (t ∷ ts) =
    let (total, rest) = label_routes (all_weight +ℤ t.weight) ts in
    (total, record t { label = label_of_tags t.tags } ∷ rest)

-- The rules of a service; the first that is not valid ends the loop.
unfoldable pub validate_rules : List RouteRule → Bool × List RouteRule
unfolding label_routes
validate_rules [] = (true, [])
validate_rules (r ∷ rs) =
    let (total, routes) = label_routes (pos 0) r.routes in
    let (ok, rest) = validate_rules rs in
    if leb_ℤ total (pos 100)
    then (ok, record r { routes = routes } ∷ rest)
    else (false, record r { routes = routes } ∷ rs)

-- `ValidateRule`
unfoldable pub validate_rule : Dict (List RouteRule) → Bool × Dict (List RouteRule)
unfolding validate_rules
validate_rule [] = (true, [])
validate_rule ((name, rules) ∷ more) =
    let (ok, labelled) = validate_rules rules in
    let (ok', rest) = validate_rule more in
    if ok then (ok', (name, labelled) ∷ rest) else (false, (name, labelled) ∷ more)

-- The weights of a rule, added up from the left.
unfoldable pub weight_from : ℤ → List RouteTag → ℤ
weight_from n [] = n
weight_from n (t ∷ ts) = weight_from (n +ℤ t.weight) ts

label_routes-weight : (n : ℤ) (ts : List RouteTag) → (label_routes n ts).0 ≡ weight_from n ts
unfolding label_routes weight_from
label_routes-weight n [] = refl
label_routes-weight n (t ∷ ts) = label_routes-weight (n +ℤ t.weight) ts

abbrev pub Light : List RouteRule → Type 0
Light rules = All (λ (r : RouteRule). weight_from (pos 0) r.routes ≤ℤ pos 100) rules

pub validate_rules_iff : (rules : List RouteRule) → ((validate_rules rules).0 ≡ true) ↔ Light rules
unfolding validate_rules
validate_rules_iff [] = ((λ _. tt), λ _. refl)
validate_rules_iff (r ∷ rs) =
    let ih = validate_rules_iff rs in
    let w = label_routes-weight (pos 0) r.routes in
    elim (Bool-cases (leb_ℤ (label_routes (pos 0) r.routes).0 (pos 100))) [
      | inl e ↦
          rw e ((λ h. (subst (λ (x : ℤ). x ≤ℤ pos 100) w (ground arith), ih.0 h)), λ h. ih.1 h.1)
      | inr e ↦ rw e (
        (λ h. cc),
        λ h.
            absurd
              (let q = subst (λ (x : ℤ). leb_ℤ x (pos 100) ≡ false) w e in ground (arith, h.0)),
      )
    ]

-- `ValidateRule` accepts exactly the rules in which the weights of the routes of each rule add up
-- to at most 100.
pub validate_rule_iff :
    (m : Dict (List RouteRule))
    → ((validate_rule m).0 ≡ true) ↔ All (λ (entry : String × List RouteRule). Light entry.1) m
unfolding validate_rule
validate_rule_iff [] = ((λ _. tt), λ _. refl)
validate_rule_iff ((name, rules) ∷ more) =
    let ih = validate_rule_iff more in
    let here = validate_rules_iff rules in
    elim (Bool-cases (validate_rules rules).0) [
      | inl e ↦ rw e ((λ h. (here.0 e, ih.0 h)), λ h. ih.1 h.1)
      | inr e ↦ rw e ((λ h. cc), λ h. absurd (let q : true ≡ false = sym (here.1 h.0) ∙ e in cc))
    ]
