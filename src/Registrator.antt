-- ===== src/Registrator.antt =====
-- The registration at the service center: core/registry/servicecenter/servicecenter.go, besides
-- `RegisterServiceInstance`, which Heartbeat has. The answers of the service center are arguments, and an
-- error is `none` or a flag.
use go_chassis.Prelude.{
  ℕ, String, [], Option, none, some, Bool, true, false, not, ◌||◌, ◌==◌, keep, lookup, insert,
  value_or, if◌then◌else◌,
}
use go_chassis.Instance.{MicroServiceInstance}
use go_chassis.ServiceCenter.{ScInstance}
use go_chassis.Heartbeat.{Registry, register_service_instance}

-- `(*Registrator).RegisterService`, over the identifier that the service center has for the service,
-- and its answer to a registration.
abbrev pub of_known : Option String → Option String → Option String
of_known none registered = none
of_known (some sid) registered = if sid == "" then registered else some sid

unfoldable pub register_service : Option String → Option String → Option String
register_service known registered = of_known known registered

-- `(*Registrator).RegisterServiceAndInstance`: the two identifiers, whether there was no error, and
-- the registry. An error of the look-up alone is passed over.
abbrev pub Registered : Type 0
Registered = (String × String × Bool) × Registry

abbrev pub with_instance : String → Option String × Registry → Registered
with_instance sid (none, reg) = ((sid, "", false), reg)
with_instance sid (some iid, reg) = ((sid, iid, true), reg)

abbrev pub with_service :
    Option String → (ScInstance → Option String) → ℕ → MicroServiceInstance → Registry → Registered
with_service none register now ins reg = (("", "", false), reg)
with_service (some sid) register now ins reg =
    with_instance sid (register_service_instance register now sid ins reg)

unfoldable pub register_service_and_instance :
    String
    → Option String
    → (ScInstance → Option String)
    → ℕ
    → MicroServiceInstance
    → Registry
    → Registered
unfolding register_service_instance
register_service_and_instance known registered register now ins reg =
    with_service (if known == "" then registered else some known) register now ins reg

-- `(*Registrator).UnRegisterMicroServiceInstance`: whether there was no error, and the registry. The
-- task of the heartbeats stays.
unfoldable pub un_register_micro_service_instance :
    Bool → Bool → String → String → Registry → Bool × Registry
un_register_micro_service_instance is_success failed sid iid reg =
    let ids = keep (λ v. not (v == iid)) (value_or (lookup sid reg.self_instances) []) in
    if not is_success || failed
    then (not failed, reg)
    else (true, record reg { self_instances = insert sid ids reg.self_instances })

-- `(*Registrator).Heartbeat`: the answer, and whether there was no error.
unfoldable pub heartbeat : Bool → Bool → Bool × Bool
heartbeat answer failed = if failed then (false, false) else (answer, true)
