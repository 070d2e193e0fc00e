-- ===== src/ServiceCenter/SchemaIndex.antt =====
-- The indexes of services by the interfaces of their schemas and by their identifiers, `MakeSchemaIndex` of
-- core/registry/servicecenter/cache.go, over the caches and the service center of Contracts.
pub mod Listed
pub mod Complete
use go_chassis.Prelude.{
  String, List, [], ◌∷◌, ◌++◌, Option, none, some, Bool, true, false, ◌==◌, Dict, lookup, insert,
  if◌then◌else◌,
}
use go_chassis.ServiceCenter.Contracts.{Service, SchemaContent, Center, Schemas, interface_of}

-- `checkIfMicroServiceExistInList`
unfoldable pub check_if_micro_service_exist_in_list : List Service → String → Bool
check_if_micro_service_exist_in_list [] id = false
check_if_micro_service_exist_in_list (s ∷ l) id =
    if s.service_id == id then true else check_if_micro_service_exist_in_list l id

-- A service put into the list of a key, if it is not there.
abbrev pub listed_with :
    String → Service → Option (List Service) → Dict (List Service) → Dict (List Service)
unfolding insert check_if_micro_service_exist_in_list
listed_with key ms none m = insert key (ms ∷ []) m
listed_with key ms (some val) m =
    if check_if_micro_service_exist_in_list val ms.service_id
    then m
    else insert key (val ++ (ms ∷ [])) m

unfoldable pub list_under : String → Service → Dict (List Service) → Dict (List Service)
unfolding listed_with lookup
list_under key ms m = listed_with key ms (lookup key m) m

unfoldable pub index_schema : String → Service → String → Schemas → Schemas
unfolding list_under
index_schema service_id ms interface_name st = if interface_name == "" then st else record {
  by_interface = list_under interface_name ms st.by_interface;
  by_service = list_under service_id ms st.by_service;
}

abbrev pub index_parsed : String → Service → SchemaContent × Bool → Schemas → Schemas
unfolding index_schema
index_parsed service_id ms (schema, false) st = st
index_parsed service_id ms (schema, true) st = index_schema service_id ms (interface_of schema) st

unfoldable pub index_fetched : Center → String → Service → Option String → Schemas → Schemas
unfolding index_parsed
index_fetched center service_id ms none st = st
index_fetched center service_id ms (some content) st =
    index_parsed service_id ms (center.parse_schema_content content) st

-- The loop over the schemas of a service, and the one over the services.
unfoldable pub index_schemas : Center → String → Service → List String → Schemas → Schemas
unfolding index_fetched
index_schemas center service_id ms [] st = st
index_schemas center service_id ms (name ∷ names) st =
    index_schemas center service_id ms names
      (index_fetched center service_id ms (center.get_schema service_id name) st)

unfoldable pub index_found : Center → Service → Option String → Schemas → Schemas
unfolding index_schemas
index_found center ms none st = st
index_found center ms (some service_id) st = index_schemas center service_id ms ms.schemas st

unfoldable pub index_services : Center → List Service → Schemas → Schemas
unfolding index_found
index_services center [] st = st
index_services center (ms ∷ rest) st =
    let id = center.get_micro_service_id ms.app_id ms.service_name ms.version ms.environment in
    index_services center rest (index_found center ms id st)

-- `MakeSchemaIndex`; `false` is its error.
abbrev pub index_all : Center → Option (List Service) → Schemas → Bool × Schemas
unfolding index_services
index_all center none st = (false, st)
index_all center (some services) st = (true, index_services center services st)

unfoldable pub make_schema_index : Center → Schemas → Bool × Schemas
unfolding index_all
make_schema_index center st = index_all center center.get_all_micro_services st
