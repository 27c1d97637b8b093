-- ===== src/Witnesses/Whole.antt =====
-- Concrete runs as a whole.
use mac_service_now_cmdb.Base.{
  ℕ, String, ◌≡◌, refl, true, false, Option, none, some, List, [], ◌∷◌, arith,
}
use mac_service_now_cmdb.Dict.{lookup, mem}
use mac_service_now_cmdb.Json.Value.{Value, pos, str, obj, of_dict}
use mac_service_now_cmdb.Json.Show.{show}
use mac_service_now_cmdb.Errors.{Error, Result, ok, err}
use mac_service_now_cmdb.Models.{RunReport, new_report, new_outcome}
use mac_service_now_cmdb.Models.Accounts.{IsAccounted}
use mac_service_now_cmdb.State.{Stored, new_state}
use mac_service_now_cmdb.Client.{Request, Send}
use mac_service_now_cmdb.Http.Response.{Response, absent, is_success}
use mac_service_now_cmdb.References.Device.{new_resolver}
use mac_service_now_cmdb.Errors.Gives.{Gives}
use mac_service_now_cmdb.Query.{chunked}
use mac_service_now_cmdb.Config.Floats.{finite}
use mac_service_now_cmdb.Sync.Collect.{Device}
use mac_service_now_cmdb.Sync.Payloads
use mac_service_now_cmdb.Sync.Payloads.{build_payloads, device_id}
use mac_service_now_cmdb.Sync.Payloads.Complete.{IsComplete, build_payloads-IsComplete}
use mac_service_now_cmdb.Sync.Write.{Progress, start_writing, write_batches}
use mac_service_now_cmdb.Sync.Write.Accounts.{Fits, Adds, Ready}
use mac_service_now_cmdb.Sync.Write.Batches.{WrittenAs, write_batches_reports}
use mac_service_now_cmdb.Sync.Retire
use mac_service_now_cmdb.Sync.Retire.{Update}
use mac_service_now_cmdb.Sync.Run.{conclude}
use mac_service_now_cmdb.Sync.Run.Ready.{device_ids}
use mac_service_now_cmdb.Query.Injection.{Distinct}
use mac_service_now_cmdb.Sync.Run.Outcome.{Concludes, conclude-Concludes}
use mac_service_now_cmdb.Sync.Run.Complete.{outcome, IsReported, IsKept, run-IsReported, run-IsKept}
use mac_service_now_cmdb.Writers.Types.{CiPayload}
use mac_service_now_cmdb.Writers.Ire
use mac_service_now_cmdb.Writers.Ire.{write, envelope, items_of}
use mac_service_now_cmdb.Writers.Ire.Served.{IsServed, write-Fits}

abbrev empty_answer : Response
empty_answer = record {
  status = 200;
  reason = "OK";
  content = "{}";
  body = some (obj (of_dict []));
  request = none;
  is_logged_in = none;
  retry_after = absent;
  rate_limit_reset = none;
}

abbrev service : Send
service q = ok empty_answer

serves : (q : Request) → IsServed (service q)
unfolding envelope items_of lookup is_success
serves q = (λ h. ([], [], refl, refl, tt), λ h. absurd (cc))

abbrev bulk : Ire.Settings
bulk = record {
  discovery_source = "Intune";
  source_feed = "";
  use_enhanced_ire = false;
  enhanced_ire_options = "";
  dry_run = false;
}

abbrev payload : CiPayload
payload = record {
  intune_id = "d1";
  class_name = "cmdb_ci_computer";
  values = [];
  device_name = "laptop";
  serial_number = none;
  source_recency = none;
}

write-Fits_example : Fits (payload ∷ []) (write bulk service (payload ∷ []))
write-Fits_example = write-Fits bulk service serves (payload ∷ [])

bulk-Fits : (b : List CiPayload) → Fits b (write bulk service b)
bulk-Fits b = write-Fits bulk service serves b

abbrev report : RunReport
report = new_report "r1" 0 false "ire" false

report-IsAccounted : IsAccounted report
report-IsAccounted = record {
  inserted = refl;
  updated = refl;
  unchanged = refl;
  errors = refl;
  samples = omega arith;
}

abbrev started : Progress
started = start_writing (("d1", new_outcome "d1" "laptop" none) ∷ []) report new_state

laptop-Ready : Ready started ("d1" ∷ [])
unfolding lookup mem
laptop-Ready = record {
  indexed = ((new_outcome "d1" "laptop" none, refl, refl), tt);
  distinct = (refl, tt);
  fresh = (refl, tt);
}

write_batches_reports_example :
    ((write_batches "now" (write bulk service) (chunked (payload ∷ []) 10) started).1 ≡ none)
    × Adds
        (WrittenAs "now" (write bulk service) (chunked (payload ∷ []) 10) (payload ∷ []))
        []
        started
        (write_batches "now" (write bulk service) (chunked (payload ∷ []) 10) started).0
write_batches_reports_example =
    write_batches_reports "now" (write bulk service) bulk-Fits (payload ∷ []) 10 started
      (omega arith) laptop-Ready

abbrev no_date : Value → Option String
no_date v = none

abbrev config : Payloads.Settings
config = record {
  class_map = [];
  default_class = some "cmdb_ci_computer";
  recency_is_run_time = true;
  mapping = record {
    serial_blocklist = [];
    set_correlation = false;
    correlation_field = "";
    assign_user = false;
    install_status_active = "1";
    os_names = [];
    extra_fields = [];
    static = [];
    drop = [];
  };
  references = record {
    create_manufacturers = false;
    create_models = false;
    dry_run = false;
    manufacturer_aliases = [];
    model_aliases = [];
  };
}

abbrev devices : List Device
devices = (("id", str "d1") ∷ ("deviceName", str "laptop") ∷ []) ∷ [] ∷ []

build_payloads-IsComplete_example :
    Gives
      (IsComplete no_date "now" config service [] [] devices report)
      (build_payloads no_date "now" config service [] [] devices report new_resolver)
build_payloads-IsComplete_example =
    build_payloads-IsComplete no_date "now" config service [] [] devices report new_resolver

abbrev retire : Retire.Settings
retire = record {
  retire_missing = true;
  retire_install_status = "7";
  retire_max_fraction = finite (pos 5) 1;
  device_limit = none;
  dry_run = false;
}

abbrev percent : ℕ → ℕ → String
percent n m = "50%"

abbrev accept : Update → Result (Unit {0})
accept u = ok tt

abbrev full_disk : Stored → Result (Unit {0})
full_disk s = err (Error.other "disk full")

devices-Distinct : Distinct (device_ids devices)
unfolding device_ids lookup mem show
devices-Distinct = (refl, tt)

conclude-Concludes_example :
    Gives (Concludes "now" "state.json" (some full_disk) false (payload ∷ []) started) (
      conclude "now" "state.json"
        (some full_disk)
        retire
        percent
        accept
        none
        devices
        (payload ∷ [])
        new_resolver
        started)
conclude-Concludes_example =
    conclude-Concludes "now" "state.json" (some full_disk) retire percent accept none devices
      (payload ∷ []) new_resolver started

run-IsReported_example :
    Gives
      (IsReported "now" "state.json"
        (some full_disk)
        no_date
        "now"
        config
        service
        []
        []
        10
        (write bulk service)
        retire
        percent
        accept
        none
        devices
        new_resolver
        report
        new_state)
      (outcome "now" "state.json"
        (some full_disk)
        no_date
        "now"
        config
        service
        []
        []
        10
        (write bulk service)
        retire
        percent
        accept
        none
        devices
        new_resolver
        report
        new_state)
run-IsReported_example =
    run-IsReported "now" "state.json" (some full_disk) no_date "now" config service [] [] 10
      (write bulk service) retire percent accept none devices new_resolver report new_state
      (omega arith) bulk-Fits report-IsAccounted devices-Distinct

run-IsKept_example :
    Gives
      (IsKept "now" "state.json"
        (some full_disk)
        no_date
        "now"
        config
        service
        []
        []
        10
        (write bulk service)
        retire
        percent
        accept
        none
        devices
        new_resolver
        report
        new_state)
      (outcome "now" "state.json"
        (some full_disk)
        no_date
        "now"
        config
        service
        []
        []
        10
        (write bulk service)
        retire
        percent
        accept
        none
        devices
        new_resolver
        report
        new_state)
run-IsKept_example =
    run-IsKept "now" "state.json" (some full_disk) no_date "now" config service [] [] 10
      (write bulk service) retire percent accept none devices new_resolver report new_state
