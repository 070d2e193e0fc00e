-- ===== src/Tests/Chains.antt =====
-- Chains of handlers and the handlers of core/handler on small data.
use go_chassis.Prelude.{
  ℕ, ◌+◌, ◌≡◌, refl, [], ◌∷◌, none, some, true, false, pos, lookup, insert, inc_int, join,
}
use go_chassis.Instance.{MicroServiceInstance}
use go_chassis.LoadBalancer.{State, round_robin, at_counter}
use go_chassis.LoadBalancer.Build.{build_strategy}
use go_chassis.LoadBalancer.Strategies.{Request, strategies}
use go_chassis.Chain.{answers, forwards, Handler, Chain, next, parse_handlers}
use go_chassis.Chain.Order.{nested, handed, next-refines}
use go_chassis.Chain.Names.{parse_handlers-join}
use go_chassis.QpsLimiter.{QpsLimiterMap}
use go_chassis.Retry.{Response, endpoint}
use go_chassis.Handlers.{Invocation, RateLimitingConfig, consumer_limiter}
use go_chassis.Endpoint
use go_chassis.Endpoint.{
  LoadBalancingConfig, get_endpoint, gen_proto_end_point, with_config, with_protocol,
}
use go_chassis.Endpoint.Served.{Serves, get_endpoint-Serves}

-- A handler that counts the calls and adds to the invocation, and one that answers.
abbrev counting : Handler ℕ ℕ ℕ
counting s i = forwards (i + 1) (s + 1) (λ r. r + 100)

abbrev answering : Handler ℕ ℕ ℕ
answering s i = answers (i + s) s

abbrev chain : Chain ℕ ℕ ℕ
chain = record {
  service_type = "Consumer";
  name = "default";
  handlers = counting ∷ answering ∷ counting ∷ [];
  handler_index = 0;
}

next-refines_example :
    next 4 0 chain 5 7 ≡ handed 0 chain (nested 0 (counting ∷ answering ∷ counting ∷ []) 5 7)
next-refines_example = next-refines 0 chain 5 7 refl

-- The third handler is not entered.
chain_run : next 4 0 chain 5 7 ≡ some (114, (8, record chain { handler_index = 2 }))
unfolding next
chain_run = refl

parse_handlers-join_example :
    parse_handlers (join "," ("fault" ∷ "tracing" ∷ [])) ≡ "fault" ∷ "tracing" ∷ []
parse_handlers-join_example =
    parse_handlers-join "fault" ("tracing" ∷ [])
      (
        (refl, refl, (refl, refl, (refl, refl, (refl, refl, (refl, refl, tt))))),
        (
          (
            refl,
            refl,
            (refl, refl, (refl, refl, (refl, refl, (refl, refl, (refl, refl, (refl, refl, tt)))))),
          ),
          tt,
        ),
      )
      (cc, (cc, tt))

abbrev rates : Invocation → RateLimitingConfig
rates i = record { enabled = true; rate = pos 5; key = "cse.flowcontrol.Consumer.qps.limit.cart" }

abbrev call : Invocation
call = record { source_micro_service = "web"; protocol = "rest"; fault_key = "rest"; endpoint = "" }

abbrev limited_chain : Chain QpsLimiterMap Invocation Response
limited_chain = record {
  service_type = "Consumer";
  name = "default";
  handlers = consumer_limiter rates ∷ [];
  handler_index = 0;
}

abbrev done : Response
done = record { status = 200; err = none }

abbrev no_limiters : QpsLimiterMap
no_limiters = record { key_map = []; taken = [] }

abbrev cart_instance : MicroServiceInstance
cart_instance = record {
  instance_id = "1";
  service_id = "cart";
  default_protocol = "rest";
  endpoints_map = ("rest", "10.0.0.1:80") ∷ ("highway", "10.0.0.1:81") ∷ [];
  host_name = "";
  default_endpoint = "";
  status = "UP";
  metadata = [];
  data_center_info = none;
}

abbrev to_cart : Endpoint.Invocation
to_cart = record {
  micro_service_name = "cart";
  tags_label = "";
  strategy = "";
  filters = [];
  protocol = "";
  port = "";
}

abbrev balancing : LoadBalancingConfig
balancing = record {
  strategy = "RoundRobin";
  filters = [];
  retry_enabled = false;
  retry_on_same = 0;
  retry_on_next = 0;
}

abbrev request : Request
request = record { service_key = ""; protocol = ""; session_addr = none; stats = []; random = 0 }

abbrev fresh : State
fresh = record { rr_idx_map = []; i = pos 0; successive_failure_count = [] }

abbrev after : State
after = record fresh { rr_idx_map = ("cart|", pos 1) ∷ [] }

located :
    get_endpoint strategies []
      (λ name p. "highway")
      balancing
      request
      (some (cart_instance ∷ []))
      to_cart
      fresh
    ≡ some (
      endpoint "10.0.0.1:81",
      (record to_cart { strategy = "RoundRobin"; protocol = "highway" }, after),
    )
unfolding get_endpoint lookup strategies build_strategy round_robin at_counter gen_proto_end_point
    with_protocol insert inc_int
located = refl

get_endpoint-Serves_example :
    Serves strategies []
      (λ name p. "highway")
      balancing
      request
      (some (cart_instance ∷ []))
      "10.0.0.1:81"
      []
      (record to_cart { strategy = "RoundRobin"; protocol = "highway" })
unfolding with_config
get_endpoint-Serves_example =
    get_endpoint-Serves strategies [] (λ name p. "highway") balancing request
      (some (cart_instance ∷ [])) to_cart
      (record to_cart { strategy = "RoundRobin"; protocol = "highway" }) fresh after "10.0.0.1:81"
      located
