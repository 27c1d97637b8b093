-- ===== src/Witnesses/Runs.antt =====
-- Concrete runs of the steps of sync.py.
use mac_service_now_cmdb.Base.{
  ℕ, String, ◌≡◌, refl, true, false, none, some, inr, List, [], ◌∷◌, All, length, take, ◌≤◌, arith,
}
use mac_service_now_cmdb.Dict.{lookup, mem}
use mac_service_now_cmdb.Dict.Laws.{IsDict}
use mac_service_now_cmdb.Json.Value.{pos, null, str}
use mac_service_now_cmdb.Errors.{Error, Result, ok}
use mac_service_now_cmdb.Models.{DeviceOutcome, new_outcome, RunReport, new_report, record_outcome}
use mac_service_now_cmdb.Models.Accounts.{IsAccounted, record_outcome-IsAccounted}
use mac_service_now_cmdb.State.{SyncState, Entry, missing_since_last_run}
use mac_service_now_cmdb.Writers.Types.{CiPayload, WriteResult, failure}
use mac_service_now_cmdb.Config.Floats.{finite}
use mac_service_now_cmdb.Sync.Collect.{
  Device, failed, all_of, is_corporate, corporate, collect_devices,
}
use mac_service_now_cmdb.Sync.Collect.Limit.{Kept, collect_devices-limit}
use mac_service_now_cmdb.Sync.Write.{Progress, start_writing, write_batch}
use mac_service_now_cmdb.Sync.Write.Told.{Told}
use mac_service_now_cmdb.Sync.Write.Accounts.{Ready, Adds, write_batch_reports}
use mac_service_now_cmdb.Sync.Retire.{Settings, Update, sweep, retire_missing, exceeds}
use mac_service_now_cmdb.Sync.Retire.Fraction.{IsBounded, retire_missing-IsBounded}
use mac_service_now_cmdb.Sync.Retire.Safety.{
  IsForMissing, retire_missing-current, retire_missing-targets,
}

abbrev report : RunReport
report = new_report "r1" 0 false "ire" false

report-IsAccounted : IsAccounted report
report-IsAccounted = record {
  inserted = refl;
  updated = refl;
  unchanged = refl;
  errors = refl;
  samples = omega arith;
}

abbrev written : DeviceOutcome
written = record (new_outcome "d1" "laptop" none) { action = "inserted" }

record_outcome-IsAccounted_example : IsAccounted (record_outcome written report)
record_outcome-IsAccounted_example = record_outcome-IsAccounted written report report-IsAccounted

-- Two devices are remembered, and Intune reports the first.
abbrev remembered : String → Entry
remembered id = ("name", str "laptop") ∷ ("sys_id", str id) ∷ []

abbrev known : SyncState
known = record {
  version = pos 1;
  last_run_at = null;
  devices = ("d1", remembered "c1") ∷ ("d2", remembered "c2") ∷ [];
}

known-IsDict : IsDict known.devices
unfolding lookup
known-IsDict = (refl, (refl, tt))

abbrev settings : Settings
settings = record {
  retire_missing = true;
  retire_install_status = "7";
  retire_max_fraction = finite (pos 5) 1;
  device_limit = none;
  dry_run = false;
}

abbrev percent : ℕ → ℕ → String
percent n m = "50%"

abbrev accept : Update → Result (Unit {0})
accept u = ok tt

abbrev current : List String
current = "d1" ∷ []

sends_one : length (retire_missing percent settings accept current known report).sent ≡ 1
unfolding retire_missing sweep exceeds lookup mem missing_since_last_run
sends_one = refl

retire_missing-targets_example :
    All
      (IsForMissing settings accept percent current known report)
      (retire_missing percent settings accept current known report).sent
retire_missing-targets_example =
    retire_missing-targets settings accept percent current known report known-IsDict

d1_current : mem "d1" current ≡ true
unfolding mem
d1_current = refl

retire_missing-current_example :
    lookup "d1" (retire_missing percent settings accept current known report).state.devices
    ≡ lookup "d1" known.devices
retire_missing-current_example =
    retire_missing-current settings accept percent current known report "d1" known-IsDict d1_current

-- One of two devices is missing, and the fraction is a half.
retire_missing-IsBounded_example :
    IsBounded settings accept percent current known report 5 1
      (retire_missing percent settings accept current known report)
retire_missing-IsBounded_example =
    retire_missing-IsBounded settings accept percent current known report 5 1 refl (omega arith)

-- Two corporate devices and a personal one.
abbrev device : String → Device
device owner = ("managedDeviceOwnerType", str owner) ∷ []

abbrev fleet : List Device
fleet = device "Company" ∷ device "personal" ∷ device "company" ∷ []

keeps_two : corporate "company" fleet ≡ device "Company" ∷ device "company" ∷ []
unfolding is_corporate lookup
keeps_two = refl

keeps_one : 1 ≤ length (corporate "company" fleet)
keeps_one = rw keeps_two (omega arith)

collect_devices-limit_example :
    Kept
      (collect_devices "company" (some 1) (all_of fleet (failed (Error.graph "gone"))) report)
      (take 1 (corporate "company" fleet))
collect_devices-limit_example =
    collect_devices-limit "company" 1 (failed (Error.graph "gone")) fleet report (omega arith)
      (inr keeps_one)

abbrev payload : String → CiPayload
payload id = record {
  intune_id = id;
  class_name = "cmdb_ci_computer";
  values = [];
  device_name = "laptop";
  serial_number = none;
  source_recency = none;
}

abbrev batch : List CiPayload
batch = payload "d1" ∷ payload "d2" ∷ []

abbrev started : Progress
started =
    start_writing
      (("d1", new_outcome "d1" "laptop" none) ∷ ("d2", new_outcome "d2" "laptop" none) ∷ []) report
      known

abbrev inserted_one : WriteResult
inserted_one = record {
  intune_id = "d1";
  action = "inserted";
  sys_id = some "c9";
  errors = [];
  detail = none;
}

abbrev results : List WriteResult
results = inserted_one ∷ failure "d2" ("refused" ∷ []) ∷ []

both-Ready : Ready started ("d1" ∷ "d2" ∷ [])
unfolding lookup mem
both-Ready = record {
  indexed = (
    (new_outcome "d1" "laptop" none, refl, refl),
    ((new_outcome "d2" "laptop" none, refl, refl), tt),
  );
  distinct = (refl, (refl, tt));
  fresh = (refl, (refl, tt));
}

write_batch_reports_example :
    (p' : Progress) × (write_batch "now" batch (ok results) started ≡ ok p')
    × Adds (Told batch (ok results)) [] started p'
write_batch_reports_example =
    write_batch_reports "now" batch [] (ok results) started refl both-Ready
