-- ===== src/Tests/Rates.antt =====
-- The rate limiter of core/qpslimiter on small data.
use go_chassis.Prelude.{◌≡◌, refl, String, List, [], ◌∷◌, pos, ℤ, ◌==◌, if◌then◌else◌}
use go_chassis.QpsLimiter.{
  default_rate, QpsLimiterMap, OperationMeta, string_value, init_schema_operations,
  get_specific_key,
}
use go_chassis.QpsLimiter.Rates.{Event, request, update}

abbrev empty : QpsLimiterMap
empty = record { key_map = []; taken = [] }

abbrev events : List Event
events = request "cart" (pos 0) ∷ update "orders" (string_value "200") ∷ request "cart" (pos 7) ∷ []

abbrev cart_op : OperationMeta
cart_op = record {
  micro_service_name = "limit.cart";
  schema_qualified_name = "limit.cart.items";
  operation_qualified_name = "limit.cart.items.add";
}

-- Only the schema is configured.
abbrev configured : String → ℤ
configured key = if key == "limit.cart.items" then pos 30 else default_rate

keys :
    (init_schema_operations "shop" "cart" "items" "").operation_qualified_name
    ≡ "cse.flowcontrol.shop.Consumer.qps.limit.cart.items"
unfolding init_schema_operations get_specific_key
keys = refl
