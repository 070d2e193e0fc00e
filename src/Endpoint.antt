-- ===== src/Endpoint.antt =====
-- The endpoint of a call: `getEndpoint` and the choice of the retries of the load balancing handler
-- (core/handler/loadbalance_handler.go). The table of strategies is the interface of LoadBalancer;
-- discovery, the configured protocol of a service and what the strategies read of their
-- surroundings are arguments. The texts of the errors are shortened. A result is `none` where the
-- code panics: a strategy that is not installed is logged and then called.
pub mod Served
use go_chassis.Prelude.{
  ℕ, String, ◌<>◌, List, [], ◌∷◌, Option, none, some, Bool, true, false, ◌==◌, Dict, lookup,
  value_or, ◌>>=◌, if◌then◌else◌,
}
use go_chassis.Instance.{MicroServiceInstance}
use go_chassis.LoadBalancer.{State, Picked}
use go_chassis.LoadBalancer.Build.{Filter, build_strategy}
use go_chassis.LoadBalancer.Strategies.{Request, Strategy}
use go_chassis.Retry.{Endpoint, endpoint, no_endpoint}

-- The fields of the invocation, and of its tags, that are read.
pub record Invocation : Type 0 where
  pub micro_service_name : String
  pub tags_label : String
  pub strategy : String
  pub filters : List String
  pub protocol : String
  pub port : String

-- `control.LoadBalancingConfig`
pub record LoadBalancingConfig : Type 0 where
  pub strategy : String
  pub filters : List String
  pub retry_enabled : Bool
  pub retry_on_same : ℕ
  pub retry_on_next : ℕ

-- `GenProtoEndPoint` of pkg/util/util.go
unfoldable pub gen_proto_end_point : String → String → String
gen_proto_end_point proto port = if port == "" then proto else proto <> "-" <> port

abbrev pub or_text : String → String → String
or_text a b = if a == "" then b else a

abbrev pub or_filters : List String → List String → List String
or_filters [] other = other
or_filters (f ∷ fs) other = f ∷ fs

abbrev pub first_key : Dict String → String
first_key [] = ""
first_key ((k, v) ∷ rest) = k

-- The strategy and the filters of the configuration, where the invocation names none.
unfoldable pub with_config : LoadBalancingConfig → Invocation → Invocation
with_config cfg i = record i {
  strategy = or_text i.strategy cfg.strategy;
  filters = or_filters i.filters cfg.filters;
}

-- The protocol of the call: its own, else the configured one of the service, else the first that
-- the instance has.
unfoldable pub with_protocol :
    (String → String → String) → MicroServiceInstance → Invocation → Invocation
with_protocol transport ins i = record i {
  protocol =
      or_text (or_text i.protocol (transport i.micro_service_name ins.default_protocol))
        (first_key ins.endpoints_map);
}

-- What a call of `getEndpoint` leaves: the endpoint, the invocation and the state.
abbrev pub Located : Type 0
Located = Endpoint × (Invocation × State)

abbrev pub found_endpoint : Option String → Endpoint
found_endpoint none = no_endpoint "No available instance support the protocol"
found_endpoint (some ep) = endpoint ep

abbrev pub of_picked : (String → String → String) → Invocation → Picked → Located
of_picked transport i (none, s) = (no_endpoint "None available instance", (i, s))
of_picked transport i (some ins, s) =
    let i' = with_protocol transport ins i in
    (found_endpoint (lookup (gen_proto_end_point i'.protocol i'.port) ins.endpoints_map), (i', s))

abbrev pub of_instances :
    (String → String → String)
    → Strategy
    → Request
    → Invocation
    → State
    → Option (List MicroServiceInstance)
    → Option Located
of_instances transport strategy r i s none = some (no_endpoint "No available instance", (i, s))
of_instances transport strategy r i s (some l) =
    strategy.pick l r s >>= λ p. some (of_picked transport i p)

-- `getEndpoint`
unfoldable pub get_endpoint :
    Dict Strategy
    → Dict Filter
    → (String → String → String)
    → LoadBalancingConfig
    → Request
    → Option (List MicroServiceInstance)
    → Invocation
    → State
    → Option Located
unfolding with_config
get_endpoint table installed transport cfg r found i s =
    let i' = with_config cfg i in
    lookup i'.strategy table >>= λ strategy.
    let r' = record r {
      service_key = i'.micro_service_name <> "|" <> i'.tags_label;
      protocol = i'.protocol;
    } in
    of_instances transport strategy r' i' s (build_strategy installed i'.filters found)
