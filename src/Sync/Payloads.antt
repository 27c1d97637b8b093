-- ===== src/Sync/Payloads.antt =====
-- sync.py: `_build_payloads`. Each device is skipped and reported, or becomes a payload with an
-- outcome that waits for its result. The resolver of references goes from device to device.
pub mod Complete
pub mod Sorted
use Prim.Native.String
use mac_service_now_cmdb.Base.{
  ℕ, ◌+◌, String, Bool, true, false, Option, none, some, List, [], ◌∷◌, ◌++◌, ◌&&◌, ◌||◌, not, ◌==◌,
  if◌then◌else◌,
}
use mac_service_now_cmdb.Text.{truthy}
use mac_service_now_cmdb.Dict.{Dict, lookup, insert}
use mac_service_now_cmdb.Json.Value.{Value, null, str, get, get_or_empty, is_true, or_else}
use mac_service_now_cmdb.Json.Show.{show, repr_value}
use mac_service_now_cmdb.Errors.{Error, Result, ok, err, ◌>>=◌}
use mac_service_now_cmdb.Models.{DeviceOutcome, new_outcome, RunReport, record_outcome}
use mac_service_now_cmdb.Models.People.{SysUserRef}
use mac_service_now_cmdb.Client.{Send}
use mac_service_now_cmdb.Mapping.Fields.{resolve_class_name, text_or_none}
use mac_service_now_cmdb.Mapping.Values
use mac_service_now_cmdb.Mapping.Values.{User, serial_for, build_values}
use mac_service_now_cmdb.References.Device
use mac_service_now_cmdb.References.Device.{Resolver, references_for}
use mac_service_now_cmdb.Sync.Collect.{Device}
use mac_service_now_cmdb.Writers.Types.{CiPayload}

pub record Settings : Type 0 where
  pub class_map : Dict String
  pub default_class : Option String
  pub recency_is_run_time : Bool
  pub mapping : Values.Settings
  pub references : Device.Settings

-- What the devices become: the payloads, the outcomes that wait, the report and the resolver.
pub record Built : Type 0 where
  pub payloads : List CiPayload
  pub outcomes : Dict DeviceOutcome
  pub report : RunReport
  pub resolver : Resolver

abbrev pub device_id : Device → String
device_id device = show (get_or_empty "id" device)

abbrev pub device_name : Device → String
device_name device =
    show (or_else (or_else (get "deviceName" device) (get "managedDeviceName" device)) (str ""))

abbrev pub skipped : String → DeviceOutcome → DeviceOutcome
skipped message o = record o { action = "skipped"; message = some message }

abbrev pub without_id : DeviceOutcome → Built → Built
without_id o b = record b {
  report = record_outcome (skipped "device has no Intune id" o) (record (b.report) {
    devices_skipped_no_identifier = b.report.devices_skipped_no_identifier + 1;
  });
}

abbrev pub without_class : Device → DeviceOutcome → Built → Built
without_class device o b = record b {
  report =
      record_outcome
        (skipped
          (String.◌++◌ "no CMDB class mapped for operatingSystem="
            (repr_value (get "operatingSystem" device)))
          o)
        (record (b.report) { devices_skipped_no_class = b.report.devices_skipped_no_class + 1 });
}

abbrev pub without_name : Resolver → DeviceOutcome → Built → Built
without_name resolver o b = record b {
  report =
      record_outcome (skipped "no usable serial number or device name to identify the CI" o)
        (record (b.report) {
          devices_skipped_no_identifier = b.report.devices_skipped_no_identifier + 1;
        });
  resolver = resolver;
}

-- The outcome of a device whose owner was matched.
abbrev pub owned : Option SysUserRef → DeviceOutcome → DeviceOutcome
owned none o = o
owned (some u) o = record o { user_matched_on = some u.matched_on; assigned_to = some u.sys_id }

abbrev pub sys_id_of : Option SysUserRef → Option String
sys_id_of none = none
sys_id_of (some u) = some u.sys_id

abbrev flatten_user : Option (Option SysUserRef) → Option SysUserRef
flatten_user none = none
flatten_user (some u) = u

-- `sys_users.get(user_id) if user_id else None`
abbrev pub owner_of : Dict (Option SysUserRef) → Device → Option SysUserRef
owner_of sys_users device =
    let id = show (get_or_empty "userId" device) in
    if truthy id then flatten_user (lookup id sys_users) else none

abbrev pub person_of : Dict User → Device → Option User
person_of users device =
    let id = show (get_or_empty "userId" device) in if truthy id then lookup id users else none

module _ (to_snow_datetime : Value → Option String) (run_time : String) (cfg : Settings)
    (send : Send) (sys_users : Dict (Option SysUserRef)) (users : Dict User) where
  -- `_source_recency`
  abbrev source_recency : Device → Option String
  source_recency device =
      if cfg.recency_is_run_time
      then some run_time
      else to_snow_datetime (get "lastSyncDateTime" device)

  abbrev payload_of : Device → String → Dict Value → CiPayload
  payload_of device class_name values = record {
    intune_id = device_id device;
    class_name = class_name;
    values = values;
    device_name = device_name device;
    serial_number = serial_for to_snow_datetime cfg.mapping device;
    source_recency = source_recency device;
  }

  abbrev identified : Dict Value → Bool
  identified values = is_true (get "serial_number" values) || is_true (get "name" values)

  -- The device with its values and the resolver after them.
  add_values : Device → String → DeviceOutcome → Built → Dict Value → Resolver → Built
  add_values device class_name o b values resolver =
      if identified values
      then record {
        payloads = b.payloads ++ payload_of device class_name values ∷ [];
        outcomes = insert (device_id device) (record o { sent_values = some values }) b.outcomes;
        report = b.report;
        resolver = resolver;
      }
      else without_name resolver o b

  add_classed : Device → String → DeviceOutcome → Built → Result Built
  unfolding add_values
  add_classed device class_name o b =
      let owner = owner_of sys_users device in
      references_for cfg.references send (text_or_none (get "manufacturer" device))
        (text_or_none (get "model" device)) b.resolver
      >>= λ (references, resolver). ok (
          add_values device class_name (owned owner (record o { class_name = some class_name })) b
            (build_values to_snow_datetime cfg.mapping device (sys_id_of owner)
              (person_of users device) references)
            resolver)

  -- `if not class_name: ...`
  add_class : Device → Option String → DeviceOutcome → Built → Result Built
  unfolding add_classed
  add_class device none o b = ok (without_class device o b)
  add_class device (some c) o b =
      if truthy c then add_classed device c o b else ok (without_class device o b)

  abbrev fresh_outcome : Device → DeviceOutcome
  fresh_outcome device =
      new_outcome (device_id device) (device_name device)
        (serial_for to_snow_datetime cfg.mapping device)

  -- One round of the loop
  unfoldable pub add_device : Device → Built → Result Built
  unfolding add_class
  add_device device b =
      let o = fresh_outcome device in
      if truthy (device_id device)
      then add_class device (resolve_class_name cfg.class_map cfg.default_class device) o b
      else ok (without_id o b)

  unfoldable pub add_devices : List Device → Built → Result Built
  unfolding add_device
  add_devices [] b = ok b
  add_devices (d ∷ ds) b = add_device d b >>= λ b'. add_devices ds b'

  -- `_build_payloads`
  unfoldable pub build_payloads : List Device → RunReport → Resolver → Result Built
  unfolding add_devices
  build_payloads devices report resolver =
      add_devices devices
        (record { payloads = []; outcomes = []; report = report; resolver = resolver })
