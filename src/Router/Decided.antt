-- ===== src/Router/Decided.antt =====
-- Which rule `Route` (core/router/router.go) goes by.
use mathlib.Core.List.{Mem}
use mathlib.Core.List.Perm
use go_chassis.Prelude.{
  ◌≡◌, ◌≢◌, refl, ◌∙◌, ap, ◌⊎◌, inl, inr, String, List, [], Option, none, some, Bool, true, false,
  Dict, lookup, insert, ◌<ℤ◌,
}
use go_chassis.Config.{RouteRule, RouteTag}
use go_chassis.Router.{
  State, Tags, route_tag_to_tags, fit_rate, sort_rules, sort_found, apply_rule, route,
}
use go_chassis.Router.Matching.{SourceInfo, matches}
use go_chassis.Router.Priority.{sorted_choice}
use go_chassis.Router.Pools.{AllValid, fit_any-Served, Answers, choice_total}

module _ (posix_match : String → String → Option Bool) (headers : Dict String)
    (source : SourceInfo) where
  abbrev pub decides : State → RouteRule → Option Bool
  decides s r = matches posix_match s.templates r.match headers source

  -- A rule of the service that matches, and every rule of higher precedence refused the call.
  abbrev pub Highest : State → List RouteRule → RouteRule → Type 0
  Highest s slice r =
      Mem r slice
      × (decides s r ≡ some true)
      × ((x : RouteRule) → Mem x slice → r.precedence <ℤ x.precedence → decides s x ≡ some false)

  -- What Route makes of the tags and the pools: those that the routes of the highest rule that matches give, or
  -- those from before when no rule matches.
  abbrev pub Decided : String → Tags → State → List RouteRule → Tags → State → Type 0
  Decided name tags s slice tags' after =
      ((r : RouteRule) × Highest s slice r
        × (tag : RouteTag) × (fit_rate r.routes name s.pools ≡ some (some tag, after.pools))
        × (tags' ≡ route_tag_to_tags (some tag)))
      ⊎ (((x : RouteRule) → Mem x slice → decides s x ≡ some false)
          × (tags' ≡ tags)
          × (after.pools ≡ s.pools))

  applied :
      (chosen : Option RouteRule) (name : String) (tags : Tags) (s kept : State)
      (slice : List RouteRule)
      → kept.pools ≡ s.pools
      → AllValid s.pools
      → ((r : RouteRule) → Mem r slice → r.routes ≢ [])
      → ((r : RouteRule) → chosen ≡ some r → Highest s slice r)
      → (chosen ≡ none → (x : RouteRule) → Mem x slice → decides s x ≡ some false)
      → (tags' : Tags) × (after : State) × (apply_rule posix_match chosen name tags kept
          ≡ some (tags', after))
        × Decided name tags s slice tags' after
  unfolding apply_rule
  applied none name tags s kept slice same all routes highest refused =
      (tags, kept, refl, inr (refused refl, refl, same))
  applied (some r) name tags s kept slice same all routes highest refused =
      let top = highest r refl in
      let (tag, pools, e, _) = fit_any-Served r.routes name s.pools (routes r top.0) all in
      (
        route_tag_to_tags (some tag),
        record kept { pools = pools },
        rw (same, e) refl,
        inl (r, top, tag, e, refl),
      )

  -- `Route` on a service whose rules all name a tag and answer to the match, with valid pools: it returns. If a
  -- rule of the service matches the call, the tags and the pools are those that `FitRate` gives for one that
  -- matches, and every rule of higher precedence was refused; if no rule matches, the tags and the pools stay.
  pub route_by_precedence :
      (name : String) (tags : Tags) (s : State) (slice : List RouteRule)
      → AllValid s.pools
      → lookup name s.dests ≡ some slice
      → ((r : RouteRule) → Mem r slice → r.routes ≢ [])
      → Answers posix_match headers source s.templates slice
      → (tags' : Tags) × (after : State) × (route posix_match headers source name tags s
          ≡ some (tags', after))
        × Decided name tags s slice tags' after
  unfolding route sort_rules sort_found
  route_by_precedence name tags s slice all found routes answers =
      let (t, e, p, choose, refuse) = sorted_choice posix_match s.templates headers source slice in
      let (o, f) =
        choice_total posix_match headers source s.templates t
          (λ r m. answers r ((Perm.mem_iff p).0 m)) in
      let (tags', after, g, d) =
        applied o name tags s (record s { dests = insert name t s.dests }) slice refl all routes
          (λ r h. let (m, i, above) = choose r (f ∙ ap some h) in (i, m, above))
          (λ h. refuse (f ∙ ap some h)) in
      (tags', after, rw found (rw e (rw f g)), d)
