-- ===== src/Endpoint/Served.antt =====
-- Which endpoints core/handler/loadbalance_handler.go calls.
use go_chassis.Prelude.{
  ◌≡◌, refl, sym, subst, ◌∙◌, ap, inl, inr, String, ◌<>◌, List, Option, none, some, Dict, lookup,
  Option-cases, ◌>>=◌,
}
use go_chassis.Instance.{MicroServiceInstance}
use go_chassis.LoadBalancer.{State, Picked}
use go_chassis.LoadBalancer.Build.{Filter, build_strategy}
use go_chassis.LoadBalancer.Strategies.{Request, Strategy, get_strategy_plugin}
use go_chassis.LoadBalancer.Chosen.{Among}
use go_chassis.Retry.{endpoint, no_endpoint}
use go_chassis.Endpoint.{
  Invocation, LoadBalancingConfig, gen_proto_end_point, with_config, with_protocol, Located,
  found_endpoint, of_picked, of_instances, get_endpoint,
}

module _ (table : Dict Strategy) (installed : Dict Filter) (transport : String → String → String)
    (cfg : LoadBalancingConfig) (r : Request) (found : Option (List MicroServiceInstance)) where
  -- The address `ep` is the one of an instance that the filters left, for the protocol and the port
  -- of the call.
  abbrev pub Serves : String → List String → Invocation → Type 0
  Serves ep filters i =
      (l : List MicroServiceInstance) × (build_strategy installed filters found ≡ some l)
      × (x : MicroServiceInstance) × Among x l
      × (lookup (gen_proto_end_point i.protocol i.port) x.endpoints_map ≡ some ep)

  of_picked-Serves :
      (l : List MicroServiceInstance) (i i' : Invocation) (s s' : State) (p : Picked) (ep : String)
      → ((x : MicroServiceInstance) (t : State) → p ≡ (some x, t) → Among x l)
      → of_picked transport i p ≡ (endpoint ep, (i', s'))
      → (x : MicroServiceInstance) × Among x l
        × (lookup (gen_proto_end_point i'.protocol i'.port) x.endpoints_map ≡ some ep)
  of_picked-Serves l i i' s s' (none, t) ep among h = absurd (
      let e : no_endpoint "None available instance" ≡ endpoint ep = ap (λ (z : Located). z.0) h in
      cc)
  of_picked-Serves l i i' s s' (some x, t) ep among h =
      let j = with_protocol transport x i in
      let same : j ≡ i' = ap (λ (z : Located). z.1.0) h in
      let e : found_endpoint (lookup (gen_proto_end_point j.protocol j.port) x.endpoints_map)
          ≡ endpoint ep =
        ap (λ (z : Located). z.0) h in
      (
        x,
        among x t refl,
        subst
            (λ (k : Invocation).
              lookup (gen_proto_end_point k.protocol k.port) x.endpoints_map ≡ some ep)
            same (held (lookup (gen_proto_end_point j.protocol j.port) x.endpoints_map) ep e),
      )
    where
      held : (o : Option String) (ep : String) → found_endpoint o ≡ endpoint ep → o ≡ some ep
      held none ep e = cc
      held (some a) ep e = cc

  of_instances-Serves :
      (o : Option (List MicroServiceInstance)) (strategy : Strategy) (r' : Request)
      (i i' : Invocation) (s s' : State) (ep : String)
      → of_instances transport strategy r' i s o ≡ some (endpoint ep, (i', s'))
      → (l : List MicroServiceInstance) × (o ≡ some l)
        × (x : MicroServiceInstance) × Among x l
        × (lookup (gen_proto_end_point i'.protocol i'.port) x.endpoints_map ≡ some ep)
  of_instances-Serves none strategy r' i i' s s' ep h = absurd (
      let e : some (no_endpoint "No available instance", (i, s)) ≡ some (endpoint ep, (i', s')) =
        h in
      cc)
  of_instances-Serves (some l) strategy r' i i' s s' ep h =
      elim (Option-cases (strategy.pick l r' s)) [
        | inl e ↦ absurd (
            let q : none ≡ some (endpoint ep, (i', s')) =
              sym (ap (λ (o : Option Picked). o >>= λ p. some (of_picked transport i p)) e) ∙ h in
            cc)
        | inr (p, e) ↦
            let q : some (of_picked transport i p) ≡ some (endpoint ep, (i', s')) =
              sym (ap (λ (o : Option Picked). o >>= λ p. some (of_picked transport i p)) e) ∙ h in
            let (x, m, k) =
              of_picked-Serves l i i' s s' p ep
                (λ x t g. strategy.pick-Among l r' s t x (e ∙ ap (λ (z : Picked). some z) g))
                (cc) in
            (l, refl, x, m, k)
      ]

  -- Whatever strategy is chosen from the table, an endpoint that `getEndpoint` returns is the one of
  -- an instance that discovery found and the filters left, under the protocol and the port that the
  -- invocation then has.
  pub get_endpoint-Serves :
      (i i' : Invocation) (s s' : State) (ep : String)
      → get_endpoint table installed transport cfg r found i s ≡ some (endpoint ep, (i', s'))
      → Serves ep (with_config cfg i).filters i'
  unfolding get_endpoint
  get_endpoint-Serves i i' s s' ep h =
      elim (Option-cases (lookup (with_config cfg i).strategy table)) [
        | inl e ↦ absurd (
            let q : none ≡ some (endpoint ep, (i', s')) =
              sym (
                ap
                  (λ (o : Option Strategy). o >>= λ st.
                    of_instances transport st (request i) (with_config cfg i) s
                      (build_strategy installed (with_config cfg i).filters found))
                  e)
              ∙ h in
            cc)
        | inr (st, e) ↦
            of_instances-Serves (build_strategy installed (with_config cfg i).filters found) st
              (request i) (with_config cfg i) i' s s' ep
              (sym (
                  ap
                    (λ (o : Option Strategy). o >>= λ st.
                      of_instances transport st (request i) (with_config cfg i) s
                        (build_strategy installed (with_config cfg i).filters found))
                    e)
                ∙ h)
      ]
    where
      request : Invocation → Request
      request i = record r {
        service_key =
            (with_config cfg i).micro_service_name <> "|" <> (with_config cfg i).tags_label;
        protocol = (with_config cfg i).protocol;
      }

  -- A strategy that is not installed makes the call panic.
  pub get_endpoint-panics :
      (i : Invocation) (s : State)
      → get_strategy_plugin (with_config cfg i).strategy table ≡ none
      → get_endpoint table installed transport cfg r found i s ≡ none
  unfolding get_endpoint get_strategy_plugin
  get_endpoint-panics i s h = rw h refl
