-- ===== src/ServiceCenter/SchemaIndex/Complete.antt =====
-- The loops of MakeSchemaIndex of core/registry/servicecenter/cache.go over all services and their schemas.
use go_chassis.Prelude.{String}
use go_chassis.ServiceCenter.Contracts.{Schemas}
use go_chassis.ServiceCenter.SchemaIndex.Listed.{AllDistinct, Has}

abbrev Distincts : Schemas → Type 0
Distincts st = AllDistinct st.by_interface × AllDistinct st.by_service

-- The service with an identifier is under an interface and under an identifier.
abbrev Found : String → String → String → Schemas → Type 0
Found interface_name id service_id st =
    Has interface_name service_id st.by_interface × Has id service_id st.by_service
