-- ===== src/Tests/Validation.antt =====
-- The validation of core/router/router_config.go on small data.
use go_chassis.Prelude.{[], ◌∷◌, pos, ◌≡◌, refl, lookup}
use go_chassis.Config.{RouteRule, zero_match}
use go_chassis.Rules.{label_of_tags}

abbrev heavy : RouteRule
heavy = record {
  precedence = pos 1;
  routes =
      record { tags = ("version", "1.0") ∷ ("app", "mall") ∷ []; weight = pos 60; label = "" }
      ∷ record { tags = []; weight = pos 50; label = "" }
      ∷ [];
  match = zero_match;
}

label : label_of_tags (("version", "1.0") ∷ ("app", "mall") ∷ []) ≡ "app:mall|version:1.0"
unfolding label_of_tags lookup
label = refl
