-- ===== src/Router/Pools.antt =====
-- What `FitRate` and `Route` (core/router/router.go) do with the weighted pools.
use mathlib.Core.List.{Mem, mem-cons_self, mem-cons_of_mem}
use mathlib.Core.List.Perm
use go_chassis.Prelude.{
  ◌≡◌, ◌≢◌, refl, ◌∙◌, subst, ap, inl, inr, String, List, [], ◌∷◌, Option, none, some, Bool, false,
  Dict, lookup, insert, lookup-insert, arith, pos, eqb_ℤ, eqb_ℤ-ne, ◌==◌, Bool-cases,
}
use go_chassis.Config.{Match, RouteRule, RouteTag}
use go_chassis.WeightPool
use go_chassis.WeightPool.{Pool, SafePool}
use go_chassis.WeightPool.Invariant.{IsValid}
use go_chassis.WeightPool.Valid.{new_pool-IsValid}
use go_chassis.WeightPool.Pick.{pick_one-Picks}
use go_chassis.Router.{
  State, Tags, route_tag_to_tags, from_pool, picked, fit_rate, sort_rules, sort_found, first_match,
  apply_rule, route,
}
use go_chassis.Router.Matching.{SourceInfo, matches}
use go_chassis.Router.Sort.Sorted.{sort_slice-IsSorted}
use go_chassis.Router.Priority.{choice-Mem}

-- Every pool in the cache is one that `NewPool` and `PickOne` can have left.
abbrev pub AllValid : SafePool → Type 0
AllValid pools = (dest : String) (p : Pool) → WeightPool.get dest pools ≡ some p → IsValid p

AllValid-set :
    (pools : SafePool) (dest : String) (p : Pool)
    → AllValid pools
    → IsValid p
    → AllValid (WeightPool.set dest p pools)
unfolding WeightPool.get WeightPool.set
AllValid-set pools dest p all v key q e = elim (Bool-cases (dest == key)) [
  | inl same ↦ subst IsValid (let r : p ≡ q = ground (arith, lookup-insert dest key p pools) in r) v
  | inr other ↦ all key q (ground (arith, lookup-insert dest key p pools))
]

abbrev Served : Option (Option RouteTag × SafePool) → Type 0
Served r = (t : RouteTag) × (after : SafePool) × (r ≡ some (some t, after)) × AllValid after

from_pool-Served :
    (found : Option Pool) (t : RouteTag) (tags : List RouteTag) (dest : String) (pools : SafePool)
    → ((p : Pool) → found ≡ some p → IsValid p)
    → AllValid pools
    → Served (from_pool found t tags dest pools)
unfolding from_pool picked
from_pool-Served none t tags dest pools v all = (
  t,
  WeightPool.set dest (WeightPool.new_pool tags) pools,
  refl,
  AllValid-set pools dest (WeightPool.new_pool tags) all (new_pool-IsValid tags),
)
from_pool-Served (some p) t tags dest pools v all =
    let (q, u, e, k) = pick_one-Picks p (v p refl) in
    (u, WeightPool.set dest q pools, rw e refl, AllValid-set pools dest q all k.valid)

-- With valid pools `FitRate` serves every rule that has a tag at all: it ends, it panics nowhere,
-- it returns a tag, and the pools stay valid.
pub fit_rate-Served :
    (t : RouteTag) (ts : List RouteTag) (dest : String) (pools : SafePool)
    → AllValid pools
    → Served (fit_rate (t ∷ ts) dest pools)
unfolding fit_rate
fit_rate-Served t ts dest pools all = elim (Bool-cases (eqb_ℤ t.weight (pos 100))) [
  | inl full ↦ rw full (t, pools, refl, all)
  | inr part ↦
      rw part
        (from_pool-Served (WeightPool.get dest pools) t (t ∷ ts) dest pools (λ p. all dest p) all)
]

-- The pools are kept by destination alone: once a destination has one, two rules for it are served
-- alike, whatever tags they name, unless the first tag of one has the weight 100.
pub fit_rate-other_rule :
    (t u : RouteTag) (ts us : List RouteTag) (dest : String) (pools : SafePool) (p : Pool)
    → WeightPool.get dest pools ≡ some p
    → t.weight ≢ pos 100
    → u.weight ≢ pos 100
    → fit_rate (t ∷ ts) dest pools ≡ fit_rate (u ∷ us) dest pools
unfolding fit_rate from_pool
fit_rate-other_rule t u ts us dest pools p found a b =
    let first : eqb_ℤ t.weight (pos 100) ≡ false = eqb_ℤ-ne t.weight (pos 100) a in
    let second : eqb_ℤ u.weight (pos 100) ≡ false = eqb_ℤ-ne u.weight (pos 100) b in
    rw (first, second, found) refl

pub fit_any-Served :
    (ts : List RouteTag) (dest : String) (pools : SafePool)
    → ts ≢ []
    → AllValid pools
    → Served (fit_rate ts dest pools)
fit_any-Served [] dest pools h all = absurd (h refl)
fit_any-Served (t ∷ ts) dest pools h all = fit_rate-Served t ts dest pools all

module _ (posix_match : String → String → Option Bool) (headers : Dict String)
    (source : SourceInfo) where
  -- The match of every rule gives an answer: its pattern compiles and its template is there.
  abbrev pub Answers : Dict Match → List RouteRule → Type 0
  Answers templates rs =
      (r : RouteRule)
      → Mem r rs
      → (b : Bool) × (matches posix_match templates r.match headers source ≡ some b)

  pub choice_total :
      (templates : Dict Match) (rs : List RouteRule)
      → Answers templates rs
      → (o : Option RouteRule) × (first_match posix_match templates rs headers source ≡ some o)
  unfolding first_match
  choice_total templates [] h = (none, refl)
  choice_total templates (r ∷ rs) h =
      let (b, e) = h r mem-cons_self in
      let (o, f) = choice_total templates rs (λ x m. h x (mem-cons_of_mem r m)) in
      elim (Bool-cases b) [ inl t ↦ (some r, rw e (rw t refl)) | inr t ↦ (o, rw e (rw t f)) ]

  abbrev Routed : Option (Tags × State) → Type 0
  Routed r = (t : Tags) × (after : State) × (r ≡ some (t, after)) × AllValid after.pools

  apply_rule-Routed :
      (chosen : Option RouteRule) (name : String) (tags : Tags) (s : State)
      → ((r : RouteRule) → chosen ≡ some r → r.routes ≢ [])
      → AllValid s.pools
      → Routed (apply_rule posix_match chosen name tags s)
  unfolding apply_rule
  apply_rule-Routed none name tags s h all = (tags, s, refl, all)
  apply_rule-Routed (some r) name tags s h all =
      let (t, pools, e, v) = fit_any-Served r.routes name s.pools (h r refl) all in
      (route_tag_to_tags (some t), record s { pools = pools }, rw e refl, v)

  -- `Route` on a service whose rules all name a tag and answer to the match, with valid pools:
  -- it returns, and leaves valid pools.
  pub route-Routed :
      (name : String) (tags : Tags) (s : State) (slice : List RouteRule)
      → AllValid s.pools
      → lookup name s.dests ≡ some slice
      → ((r : RouteRule) → Mem r slice → r.routes ≢ [])
      → Answers s.templates slice
      → Routed (route posix_match headers source name tags s)
  unfolding route sort_rules sort_found
  route-Routed name tags s slice all found routes answers =
      let (t, e, p, _, _) = sort_slice-IsSorted slice in
      let (o, f) = choice_total s.templates t (λ r m. answers r ((Perm.mem_iff p).0 m)) in
      let (u, after, g, v) =
        apply_rule-Routed o name tags (record s { dests = insert name t s.dests })
          (λ r h. routes r (
            (Perm.mem_iff p).0
              (choice-Mem posix_match s.templates headers source t r (f ∙ ap some h)).1))
          all in
      (u, after, rw found (rw e (rw f g)), v)
