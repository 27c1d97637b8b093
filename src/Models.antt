-- ===== src/Models.antt =====
-- models.py: the outcome of one device and the report of a run. A report holds
-- outcomes as values; Sync/Write changes those that share an object with the one it records.
pub mod Accounts
pub mod Follows
pub mod People
use mac_service_now_cmdb.Base.{
  ℕ, zero, suc, ◌+◌, String, Bool, true, false, Option, none, some, List, [], ◌∷◌, ◌++◌, ◌==◌, ltb,
  length, if◌then◌else◌, ◌&&◌,
}
use mac_service_now_cmdb.Text.{truthy}
use mac_service_now_cmdb.Dict.{Dict}
use mac_service_now_cmdb.Json.Value.{Value}
use Prim.Native.String

pub record DeviceOutcome : Type 0 where
  pub intune_id : String
  pub device_name : String
  pub serial_number : Option String
  pub class_name : Option String
  pub action : String
  pub ci_sys_id : Option String
  pub user_matched_on : Option String
  pub assigned_to : Option String
  pub message : Option String
  pub sent_values : Option (Dict Value)
  pub ire_detail : Option (Dict Value)

-- `DeviceOutcome(intune_id=..., device_name=..., serial_number=...)`
abbrev pub new_outcome : String → String → Option String → DeviceOutcome
new_outcome id name serial = record {
  intune_id = id;
  device_name = name;
  serial_number = serial;
  class_name = none;
  action = "pending";
  ci_sys_id = none;
  user_matched_on = none;
  assigned_to = none;
  message = none;
  sent_values = none;
  ire_detail = none;
}

-- Times are in microseconds since the epoch.
pub record RunReport : Type 0 where
  pub run_id : String
  pub started_at : ℕ
  pub finished_at : Option ℕ
  pub dry_run : Bool
  pub write_mode : String
  pub fetch_hardware_detail : Bool
  pub ram_from_custom_attribute : ℕ
  pub cpu_name_from_custom_attribute : ℕ
  pub devices_fetched : ℕ
  pub devices_after_ownership_filter : ℕ
  pub devices_skipped_no_class : ℕ
  pub devices_skipped_no_identifier : ℕ
  pub inserted : ℕ
  pub updated : ℕ
  pub unchanged : ℕ
  pub errors : ℕ
  pub retired : ℕ
  pub users_resolved : ℕ
  pub users_unresolved : ℕ
  pub outcomes : List DeviceOutcome
  pub error_samples : List String
  pub warnings : List String
  pub degraded : List String
  pub unresolved_references : Dict (List String)

-- A new report, with the fields that the caller gives.
abbrev pub new_report : String → ℕ → Bool → String → Bool → RunReport
new_report run_id now dry_run mode detail = record {
  run_id = run_id;
  started_at = now;
  finished_at = none;
  dry_run = dry_run;
  write_mode = mode;
  fetch_hardware_detail = detail;
  ram_from_custom_attribute = 0;
  cpu_name_from_custom_attribute = 0;
  devices_fetched = 0;
  devices_after_ownership_filter = 0;
  devices_skipped_no_class = 0;
  devices_skipped_no_identifier = 0;
  inserted = 0;
  updated = 0;
  unchanged = 0;
  errors = 0;
  retired = 0;
  users_resolved = 0;
  users_unresolved = 0;
  outcomes = [];
  error_samples = [];
  warnings = [];
  degraded = [];
  unresolved_references = [];
}

abbrev pub warn : String → RunReport → RunReport
warn message r = record r { warnings = r.warnings ++ message ∷ [] }

-- `RunReport.degrade`
unfoldable pub degrade : String → RunReport → RunReport
degrade message r = record r {
  warnings = r.warnings ++ message ∷ [];
  degraded = r.degraded ++ message ∷ [];
}

-- At most 20 errors are kept as samples.
sample : DeviceOutcome → RunReport → List String
sample o r = elim o.message [
  | none ↦ r.error_samples
  | some m ↦
      if truthy m && ltb (length r.error_samples) 20
      then r.error_samples ++ String.◌++◌ o.device_name (String.◌++◌ ": " m) ∷ []
      else r.error_samples
]

-- `RunReport.record`
unfoldable pub record_outcome : DeviceOutcome → RunReport → RunReport
unfolding sample
record_outcome o r =
    let r' : RunReport = record r { outcomes = r.outcomes ++ o ∷ [] } in
    if o.action == "inserted"
    then record r' { inserted = r.inserted + 1 }
    else if o.action == "updated"
    then record r' { updated = r.updated + 1 }
    else if o.action == "unchanged"
    then record r' { unchanged = r.unchanged + 1 }
    else if o.action == "error"
    then record r' { errors = r.errors + 1; error_samples = sample o r }
    else r'
