-- ===== src/ServiceCenter/Contracts/Services.antt =====
-- The schemas of a service by its name, `GetSchemaContentByServiceName` of
-- core/registry/servicecenter/servicecenter.go.
use go_chassis.Prelude.{
  String, List, [], ◌∷◌, ◌++◌, Option, none, some, ◌==◌, lookup, value_or, if◌then◌else◌,
}
use go_chassis.ServiceCenter.Contracts.{Service, SchemaContent, Center, Schemas, fetch}

-- The schemas with these names that can be fetched and parsed, in their order.
abbrev pub or_skip : Option SchemaContent → List SchemaContent → List SchemaContent
or_skip none more = more
or_skip (some schema) more = schema ∷ more

abbrev pub readable : Center → String → List String → List SchemaContent
readable center id [] = []
readable center id (name ∷ names) = or_skip (fetch center id name) (readable center id names)

-- Those of all services with an identifier.
abbrev pub readable_of : Center → String → List Service → List SchemaContent
readable_of center id [] = []
readable_of center id (ms ∷ rest) =
    let more = readable_of center id rest in
    if ms.service_id == id then readable center ms.service_id ms.schemas ++ more else more

-- The services that are searched: those in the cache, or all that the service center has.
abbrev pub searched : Center → Option (List Service) → List Service
searched center none = value_or center.get_all_micro_services []
searched center (some services) = services

unfoldable pub expected : Center → Option String → Schemas → List SchemaContent
unfolding lookup
expected center none st = []
expected center (some id) st = readable_of center id (searched center (lookup id st.by_service))
