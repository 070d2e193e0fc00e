-- ===== src/Instance.antt =====
-- The instances of a service, `MicroServiceInstance` of core/registry/struct.go.
use go_chassis.Prelude.{
  String, [], ◌∷◌, Option, none, some, Bool, true, false, ◌&&◌, ◌==◌, Dict, lookup, insert,
  value_or, if◌then◌else◌,
}
use go_chassis.Config.{buildin_tag_app, buildin_tag_version}

pub record DataCenterInfo : Type 0 where
  pub name : String
  pub region : String
  pub available_zone : String

-- A nil `DataCenterInfo` is `none`.
pub record MicroServiceInstance : Type 0 where
  pub instance_id : String
  pub host_name : String
  pub service_id : String
  pub default_protocol : String
  pub default_endpoint : String
  pub status : String
  pub endpoints_map : Dict String
  pub metadata : Dict String
  pub data_center_info : Option DataCenterInfo

-- `appID()`, `version()`
unfoldable pub app_id : MicroServiceInstance → String
app_id m = value_or (lookup buildin_tag_app m.metadata) ""

unfoldable pub version : MicroServiceInstance → String
version m = value_or (lookup buildin_tag_version m.metadata) ""

-- `WithAppID(v)`
unfoldable pub with_app_id : String → MicroServiceInstance → MicroServiceInstance
with_app_id v m = record m { metadata = insert buildin_tag_app v m.metadata }

-- `mt, ok := m.Metadata[k]; ok && mt == v`
abbrev pub holds : Option String → String → Bool
holds none v = false
holds (some w) v = w == v

-- `Has(tags)`
unfoldable pub has : MicroServiceInstance → Dict String → Bool
has m [] = true
has m ((k, v) ∷ rest) = holds (lookup k m.metadata) v && has m rest

-- `Equal(ins)`
unfoldable pub equal : MicroServiceInstance → MicroServiceInstance → Bool
equal m ins = if m.instance_id == ins.instance_id then m.service_id == ins.service_id else false
