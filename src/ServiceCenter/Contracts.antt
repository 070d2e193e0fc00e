-- ===== src/ServiceCenter/Contracts.antt =====
-- The schemas of services, `ContractDiscovery` of core/registry/servicecenter/servicecenter.go, with its two caches. The
-- expiry of their entries is left out. What the service center answers and the parsing of a schema are
-- parameters; `none` and `false` are errors.
pub mod Services
use go_chassis.Prelude.{
  String, List, [], ◌∷◌, ◌++◌, Option, none, some, Bool, true, false, ◌==◌, Dict, lookup, insert,
  value_or, if◌then◌else◌,
}

-- `MicroService` of the client, as far as this code reads it.
pub record Service : Type 0 where
  pub service_id : String
  pub service_name : String
  pub app_id : String
  pub version : String
  pub environment : String
  pub schemas : List String

-- `SchemaContent`, whose other fields are not read.
pub record SchemaContent : Type 0 where
  pub info : Dict String
  pub text : String

abbrev pub no_content : SchemaContent
no_content = record { info = []; text = "" }

pub record Center : Type 0 where
  pub get_all_micro_services : Option (List Service)
  pub get_micro_service_id : String → String → String → String → Option String
  pub get_schema : String → String → Option String
  pub unmarshal_schema_content : String → Option SchemaContent
  pub parse_schema_content : String → SchemaContent × Bool

-- `SchemaInterfaceIndexedCache` and `SchemaServiceIndexedCache`
pub record Schemas : Type 0 where
  pub by_interface : Dict (List Service)
  pub by_service : Dict (List Service)

-- The schema of a service under a name, if it can be fetched and parsed.
abbrev pub parse_fetched : Center → Option String → Option SchemaContent
parse_fetched center none = none
parse_fetched center (some content) = center.unmarshal_schema_content content

abbrev pub fetch : Center → String → String → Option SchemaContent
fetch center service_id name = parse_fetched center (center.get_schema service_id name)

-- `fillCacheAndGetServiceSchemaContent`: the schemas of one service, and of all in the list.
abbrev pub with_new :
    String → Service → Option (List Service) → Dict (List Service) → Dict (List Service)
unfolding insert
with_new id ms none m = insert id (ms ∷ []) m
with_new id ms (some known) m = m

abbrev pub remember : String → Service → Schemas → Schemas
unfolding with_new lookup
remember id ms st = record st {
  by_service = with_new id ms (lookup id st.by_service) st.by_service;
}

abbrev pub with_schema :
    Option SchemaContent
    → List SchemaContent × Schemas
    → List SchemaContent × Schemas
    → List SchemaContent × Schemas
with_schema none kept stored = kept
with_schema (some schema) kept (more, st) = (schema ∷ more, st)

unfoldable pub schemas_of :
    Center → String → Service → List String → Schemas → List SchemaContent × Schemas
unfolding remember
schemas_of center id ms [] st = ([], st)
schemas_of center id ms (name ∷ names) st =
    with_schema (fetch center ms.service_id name) (schemas_of center id ms names st)
      (schemas_of center id ms names (remember id ms st))

abbrev pub then_more :
    List SchemaContent → List SchemaContent × Schemas → List SchemaContent × Schemas
then_more front (more, st) = (front ++ more, st)

unfoldable pub fill_cache_and_get_service_schema_content :
    Center → List Service → String → Schemas → List SchemaContent × Schemas
unfolding schemas_of
fill_cache_and_get_service_schema_content center [] id st = ([], st)
fill_cache_and_get_service_schema_content center (ms ∷ rest) id st =
    let (front, st') = schemas_of center id ms ms.schemas st in
    let more = fill_cache_and_get_service_schema_content center rest id st' in
    let skipped = fill_cache_and_get_service_schema_content center rest id st in
    if ms.service_id == id then then_more front more else skipped

-- `fillSchemaServiceIndexCache` without a list
unfoldable pub from_all :
    Center → String → Option (List Service) → Schemas → List SchemaContent × Schemas
unfolding fill_cache_and_get_service_schema_content
from_all center id none st = ([], st)
from_all center id (some services) st =
    fill_cache_and_get_service_schema_content center services id st

unfoldable pub of_known :
    Center → String → Option (List Service) → Schemas → List SchemaContent × Schemas
unfolding from_all fill_cache_and_get_service_schema_content
of_known center id none st = from_all center id center.get_all_micro_services st
of_known center id (some services) st =
    fill_cache_and_get_service_schema_content center services id st

unfoldable pub of_service_id : Center → Option String → Schemas → List SchemaContent × Schemas
unfolding of_known lookup
of_service_id center none st = ([], st)
of_service_id center (some id) st = of_known center id (lookup id st.by_service) st

-- `GetSchemaContentByServiceName`
unfoldable pub get_schema_content_by_service_name :
    Center → String → String → String → String → Schemas → List SchemaContent × Schemas
unfolding of_service_id
get_schema_content_by_service_name center service_name version app_id env st =
    of_service_id center (center.get_micro_service_id app_id service_name version env) st

-- `fillCacheAndGetInterfaceSchemaContent`: the result so far is what was parsed last, also when that was an
-- error, and the search ends at a schema of the interface.
pub record Search : Type 0 where
  pub content : SchemaContent
  pub is_found : Bool
  pub caches : Schemas

unfoldable pub interface_of : SchemaContent → String
unfolding lookup
interface_of schema = value_or (lookup "x-java-interface" schema.info) ""

abbrev pub index_interface : String → String → Service → Schemas → Schemas
unfolding lookup insert
index_interface name value ms st = record st {
  by_interface =
      insert value (value_or (lookup name st.by_interface) [] ++ (ms ∷ [])) st.by_interface;
}

abbrev pub on_parsed : String → Service → SchemaContent × Bool → Search → Search
unfolding index_interface interface_of
on_parsed name ms (schema, false) s = record s { content = schema }
on_parsed name ms (schema, true) s =
    let s' : Search = record s { content = schema } in
    if interface_of schema == "" then s' else record s' {
      is_found = name == interface_of schema;
      caches = index_interface name (interface_of schema) ms s.caches;
    }

abbrev pub on_content : Center → String → Service → Option String → Search → Search
unfolding on_parsed
on_content center name ms none s = s
on_content center name ms (some content) s =
    on_parsed name ms (center.parse_schema_content content) s

unfoldable pub search_schemas : Center → String → Service → String → List String → Search → Search
unfolding on_content
search_schemas center name ms id [] s = s
search_schemas center name ms id (schema ∷ schemas) s =
    if s.is_found
    then s
    else search_schemas center name ms id schemas
        (on_content center name ms (center.get_schema id schema) s)

abbrev pub search_service : Center → String → Service → Option String → Search → Search
unfolding search_schemas
search_service center name ms none s = s
search_service center name ms (some id) s = search_schemas center name ms id ms.schemas s

unfoldable pub search_services : Center → String → List Service → Search → Search
unfolding search_service
search_services center name [] s = s
search_services center name (ms ∷ rest) s =
    let more = search_services center name rest (
      search_service center name ms
        (center.get_micro_service_id ms.app_id ms.service_name ms.version ms.environment) s) in
    if s.is_found then s else more

abbrev pub search_all : Center → String → Option (List Service) → Schemas → Search
unfolding search_services
search_all center name none st = record { content = no_content; is_found = false; caches = st }
search_all center name (some services) st =
    search_services center name services
      (record { content = no_content; is_found = false; caches = st })

abbrev pub listed : Center → Option (List Service) → Option (List Service)
listed center none = center.get_all_micro_services
listed center (some services) = some services

-- `GetSchemaContentByInterface`, and the cached services of `GetMicroServicesByInterface`
unfoldable pub get_schema_content_by_interface : Center → String → Schemas → SchemaContent × Schemas
unfolding search_all lookup
get_schema_content_by_interface center name st =
    let s = search_all center name (listed center (lookup name st.by_interface)) st in
    (s.content, s.caches)

abbrev pub after_fill : String → Option (List Service) → Search → List Service × Schemas
unfolding lookup
after_fill name none s = (value_or (lookup name s.caches.by_interface) [], s.caches)
after_fill name (some services) s = (services, s.caches)

unfoldable pub get_micro_services_by_interface : Center → String → Schemas → List Service × Schemas
unfolding search_all lookup after_fill
get_micro_services_by_interface center name st = elim (lookup name st.by_interface) [
  | some services ↦ (services, st)
  | none ↦ after_fill name none (search_all center name center.get_all_micro_services st)
]
