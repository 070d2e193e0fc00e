-- ===== src/Heartbeat.antt =====
-- The heartbeats of core/registry/heartbeat.go: the tasks with their methods, and the cache of
-- the identifiers of the own instances of core/registry/cache.go, which registration fills. Times
-- are seconds. `RegisterMicroservice` and what follows it are a parameter of each round of the retries.
pub mod Recovery
use go_chassis.Prelude.{
  ℕ, ◌+◌, String, ◌<>◌, List, [], ◌∷◌, ◌++◌, Option, none, some, Bool, true, false, not, ◌&&◌, ◌==◌,
  leb, Dict, lookup, insert, remove, value_or, if◌then◌else◌,
}
use go_chassis.Instance.{MicroServiceInstance}
use go_chassis.Chain.{in_slice}
use go_chassis.ServiceCenter.{ScInstance, to_sc_instance, default_status}

-- `HeartbeatTask`
pub record HeartbeatTask : Type 0 where
  pub service_id : String
  pub instance_id : String
  pub time : ℕ
  pub running : Bool

-- The instances of `HeartbeatService`, and `SelfInstancesCache`.
pub record Registry : Type 0 where
  pub tasks : Dict HeartbeatTask
  pub self_instances : Dict (List String)

abbrev pub task_key : String → String → String
task_key service_id instance_id = service_id <> "/" <> instance_id

-- `AddTask`
abbrev pub add_missing :
    Option HeartbeatTask → ℕ → String → String → Dict HeartbeatTask → Dict HeartbeatTask
add_missing (some task) now sid iid tasks = tasks
add_missing none now sid iid tasks =
    insert (task_key sid iid)
      (record { service_id = sid; instance_id = iid; time = now; running = false }) tasks

unfoldable pub add_task : ℕ → String → String → Dict HeartbeatTask → Dict HeartbeatTask
add_task now sid iid tasks = add_missing (lookup (task_key sid iid) tasks) now sid iid tasks

-- `RemoveTask`
unfoldable pub remove_task : String → String → Dict HeartbeatTask → Dict HeartbeatTask
remove_task sid iid tasks = remove (task_key sid iid) tasks

-- `RefreshTask`, `toggleTask`
abbrev pub update_found :
    Option HeartbeatTask
    → String
    → (HeartbeatTask → HeartbeatTask)
    → Dict HeartbeatTask
    → Dict HeartbeatTask
update_found none key f tasks = tasks
update_found (some task) key f tasks = insert key (f task) tasks

unfoldable pub refresh_task : ℕ → String → String → Dict HeartbeatTask → Dict HeartbeatTask
refresh_task now sid iid tasks =
    update_found (lookup (task_key sid iid) tasks) (task_key sid iid)
      (λ task. record task { time = now }) tasks

unfoldable pub toggle_task : String → String → Bool → Dict HeartbeatTask → Dict HeartbeatTask
toggle_task sid iid running tasks =
    update_found (lookup (task_key sid iid) tasks) (task_key sid iid)
      (λ task. record task { running = running }) tasks

-- The tasks for which one round of `run` starts a heartbeat.
unfoldable pub due : ℕ → Dict HeartbeatTask → List HeartbeatTask
due now [] = []
due now ((key, task) ∷ rest) =
    let later = due now rest in
    if not task.running && leb (task.time + 30) now then task ∷ later else later

-- What registration does to the identifiers of the own instances of a service.
unfoldable pub remember : String → String → Dict (List String) → Dict (List String)
unfolding in_slice
remember sid iid cache =
    let ids = value_or (lookup sid cache) [] in
    insert sid (if in_slice iid ids then ids else ids ++ iid ∷ []) cache

-- `(*Registrator).RegisterServiceInstance` of core/registry/servicecenter/servicecenter.go, which
-- never sets the health check of the instance that it sends.
abbrev pub of_registered : Option String → ℕ → String → Registry → Option String × Registry
of_registered none now sid reg = (none, reg)
of_registered (some iid) now sid reg = (
  some iid,
  record reg {
    self_instances = remember sid iid reg.self_instances;
    tasks = add_task now sid iid reg.tasks;
  },
)

unfoldable pub register_service_instance :
    (ScInstance → Option String)
    → ℕ
    → String
    → MicroServiceInstance
    → Registry
    → Option String × Registry
unfolding to_sc_instance
register_service_instance register now sid ins reg =
    of_registered (register (record (to_sc_instance ins) { service_id = sid })) now sid reg

-- What one round of the retries meets: whether the services can be listed and the service is
-- found, the registration of the service and all instances, the endpoints of this process, and
-- the answer of the service center to a registration.
pub record Round : Type 0 where
  pub listed : Bool
  pub found : Bool
  pub re_register_all : Registry → Bool × Registry
  pub endpoint_map : Option (Dict String)
  pub instance_endpoints : Option (Dict String)
  pub host_name : String
  pub now : ℕ
  pub register : ScInstance → Option String

-- `reRegisterSelfMSI`: whether it gave no error. The identifier goes to the list of the empty
-- service too, since the service of the new record is not set.
abbrev pub own_instance : String → String → Dict String → MicroServiceInstance
own_instance iid host_name eps = record {
  instance_id = iid;
  host_name = host_name;
  service_id = "";
  default_protocol = "";
  default_endpoint = "";
  status = default_status;
  endpoints_map = eps;
  metadata = [];
  data_center_info = none;
}

abbrev pub re_registered : Option String × Registry → Bool × Registry
re_registered (none, reg) = (false, reg)
re_registered (some iid, reg) =
    (true, record reg { self_instances = remember "" iid reg.self_instances })

abbrev pub with_endpoints :
    Option (Dict String) → Round → String → String → Registry → Bool × Registry
with_endpoints none r sid iid reg = (false, reg)
with_endpoints (some eps) r sid iid reg = re_registered (
    register_service_instance r.register r.now sid
      (own_instance iid r.host_name (value_or r.instance_endpoints eps)) reg)

unfoldable pub re_register_self_msi : Round → String → String → Registry → Bool × Registry
unfolding register_service_instance remember
re_register_self_msi r sid iid reg = with_endpoints r.endpoint_map r sid iid reg

-- A round of `RetryRegister`, and the loop; `none` where the rounds are not enough.
unfoldable pub attempt : Round → String → String → Registry → Bool × Registry
unfolding re_register_self_msi
attempt r sid iid reg =
    if not r.listed
    then (false, reg)
    else if r.found
    then re_register_self_msi r sid iid reg
    else r.re_register_all reg

unfoldable pub retry_register : List Round → String → String → Registry → Option Registry
unfolding attempt
retry_register [] sid iid reg = none
retry_register (r ∷ rest) sid iid reg =
    let again = retry_register rest sid iid (attempt r sid iid reg).1 in
    if (attempt r sid iid reg).0 then some (attempt r sid iid reg).1 else again

-- `DoHeartBeat`, where `alive` is that the heartbeat gave no error and `now` the time in the end.
abbrev pub ended : ℕ → String → String → Option Registry → Option Registry
ended now sid iid none = none
ended now sid iid (some reg) =
    some (record reg { tasks = toggle_task sid iid false (refresh_task now sid iid reg.tasks) })

unfoldable pub do_heart_beat : Bool → List Round → ℕ → String → String → Registry → Option Registry
unfolding retry_register toggle_task remove_task
do_heart_beat alive rounds now sid iid reg =
    let started : Registry = record reg { tasks = toggle_task sid iid true reg.tasks } in
    let failed : Registry = record started { tasks = remove_task sid iid started.tasks } in
    ended now sid iid (if alive then some started else retry_register rounds sid iid failed)
