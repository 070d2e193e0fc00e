-- ===== src/ServiceCenter.antt =====
-- The service center as a registry: core/registry/servicecenter. This file has the records of the
-- client, of which only the fields are listed that the code reads or writes, and the conversions
-- of sc_convertor.go, `filter` of cache.go, `filterInstances` of util.go, and the maps of
-- endpoints of core/registry/util.go. `url.Parse` is a parameter: the scheme and the host of a text. The
-- metadata of a converted instance is a copy of the properties that were sent, where the code goes on with
-- the same map, which nothing reads afterwards.
pub mod Events
pub mod Held
pub mod Views
pub mod Pull
pub mod Finding
pub mod Contracts
pub mod SchemaIndex
use go_chassis.Prelude.{
  String, ◌<>◌, List, [], ◌∷◌, Option, none, some, Bool, true, false, not, ◌==◌, map, Dict, lookup,
  insert, value_or, if◌then◌else◌,
}
use go_chassis.Config.{buildin_tag_version}
use go_chassis.Instance.{MicroServiceInstance, DataCenterInfo, with_app_id}

-- `MicroServiceInstance` of the client.
pub record ScInstance : Type 0 where
  pub instance_id : String
  pub service_id : String
  pub host_name : String
  pub endpoints : List String
  pub version : String
  pub status : String
  pub properties : Dict String
  pub data_center_info : Option DataCenterInfo

-- The status of an instance that takes calls.
abbrev pub default_status : String
default_status = "UP"

module _ (parse : String → Option (String × String)) where
  -- `GetProtocolMap`, from a map and a protocol on.
  abbrev pub with_uri : Option (String × String) → Dict String × String → Dict String × String
  with_uri none (m, p) = (m, p)
  with_uri (some (proto, ip_port)) (m, p) =
      if proto == "" then (insert "unknown" ip_port m, p) else (insert proto ip_port m, proto)

  unfoldable pub protocol_map : List String → Dict String × String → Dict String × String
  protocol_map [] mp = mp
  protocol_map (ep ∷ eps) mp = protocol_map eps (with_uri (parse ep) mp)

  unfoldable pub get_protocol_map : List String → Dict String × String
  unfolding protocol_map
  get_protocol_map eps = protocol_map eps ([], "")

  -- `ToMicroServiceInstance`
  unfoldable pub to_micro_service_instance : ScInstance → MicroServiceInstance
  unfolding get_protocol_map
  to_micro_service_instance ins =
      let (m, p) = get_protocol_map ins.endpoints in
      record {
        instance_id = ins.instance_id;
        host_name = "";
        service_id = "";
        default_protocol = p;
        default_endpoint = value_or (lookup p m) "";
        status = ins.status;
        endpoints_map = m;
        metadata = insert buildin_tag_version ins.version ins.properties;
        data_center_info = ins.data_center_info;
      }

  -- `filter`: the instances that are up, with their application, and the identifiers of the others.
  unfoldable pub filter :
      String → List ScInstance → Dict {0} Unit → List MicroServiceInstance × Dict {0} Unit
  unfolding to_micro_service_instance with_app_id
  filter app [] downs = ([], downs)
  filter app (ins ∷ rest) downs =
      let skipped = filter app rest downs in
      let down = filter app rest (insert ins.instance_id tt downs) in
      if ins.version == ""
      then skipped
      else if not (ins.status == default_status)
      then down
      else (with_app_id app (to_micro_service_instance ins) ∷ skipped.0, skipped.1)

  -- `filterInstances`
  unfoldable pub filter_instances : List ScInstance → List MicroServiceInstance
  unfolding to_micro_service_instance
  filter_instances [] = []
  filter_instances (ins ∷ rest) =
      let more = filter_instances rest in
      if ins.status == default_status then to_micro_service_instance ins ∷ more else more

-- `GetProtocolList`, in the order of the map.
unfoldable pub get_protocol_list : Dict String → List String
get_protocol_list m = map (λ (e : String × String). e.0 <> "://" <> e.1) m

-- `ToSCInstance`
unfoldable pub to_sc_instance : MicroServiceInstance → ScInstance
unfolding get_protocol_list
to_sc_instance msi = record {
  instance_id = msi.instance_id;
  service_id = "";
  host_name = msi.host_name;
  endpoints = get_protocol_list msi.endpoints_map;
  version = "";
  status = msi.status;
  properties = msi.metadata;
  data_center_info = msi.data_center_info;
}
