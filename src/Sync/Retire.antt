-- ===== src/Sync/Retire.antt =====
-- sync.py: `_retire_missing`. The fraction of devices that may be retired at once is a float of the
-- configuration: a decimal, an infinity or no number. The share of the missing devices is compared with
-- it by products, without the rounding of the division: the same while the number of devices times
-- 10 ^ digits is below 2 ^ 53. Each request for an update is answered by the service, and may raise.
pub mod Cases
pub mod Fraction
pub mod Safety
use Prim.Native.String
use mac_service_now_cmdb.Base.{
  ℕ, zero, suc, ◌+◌, ◌*◌, ◌^◌, String, Bool, true, false, Option, none, some, List, [], ◌∷◌, ltb,
  length, max, not, if◌then◌else◌,
}
use mac_service_now_cmdb.Text.{join}
use mac_service_now_cmdb.Dict.{Dict}
use mac_service_now_cmdb.Json.Value.{Value, str, get, or_else, pos, negsuc}
use mac_service_now_cmdb.Config.Floats.{Float, finite, infinite, nan}
use mac_service_now_cmdb.Json.Show.{show, show_nat}
use mac_service_now_cmdb.Errors.{Error, service_now, Result, ok, err}
use mac_service_now_cmdb.Models.{RunReport, warn, degrade}
use mac_service_now_cmdb.State.{SyncState, Entry, missing_since_last_run, forget}

pub record Settings : Type 0 where
  pub retire_missing : Bool
  pub retire_install_status : String
  pub retire_max_fraction : Float
  pub device_limit : Option ℕ
  pub dry_run : Bool

-- `update_record(class_name, sys_id, {"install_status": ...})`
pub record Update : Type 0 where
  pub class_name : String
  pub sys_id : String
  pub install_status : String

abbrev pub update_of : Settings → Entry → Update
update_of cfg entry = record {
  class_name = show (or_else (get "class_name" entry) (str "cmdb_ci_computer"));
  sys_id = show (or_else (get "sys_id" entry) (str ""));
  install_status = cfg.retire_install_status;
}

-- What a loop over the missing devices did: the updates that were sent, in order, and the ids that
-- were retired, or the error that ended the run.
pub record Sweep : Type 0 where
  pub sent : List Update
  pub retired : Result (List String)

abbrev and_retired : String → Sweep → Sweep
and_retired id s = record s { retired = elim s.retired [ ok ids ↦ ok (id ∷ ids) | err e ↦ err e ] }

abbrev pub and_sent : Update → Sweep → Sweep
and_sent u s = record s { sent = u ∷ s.sent }

-- What follows an update, by its answer. A `ServiceNowError` passes the device over.
after_update : Update → String → Result (Unit {0}) → Sweep → Sweep
after_update u id (ok _) rest = and_sent u (and_retired id rest)
after_update u id (err (service_now _)) rest = and_sent u rest
after_update u id (err e) rest = record { sent = u ∷ []; retired = err e }

unfoldable pub sweep : Settings → (Update → Result (Unit {0})) → Dict Entry → Sweep
unfolding after_update
sweep cfg patch [] = record { sent = []; retired = ok [] }
sweep cfg patch ((id, entry) ∷ missing) =
    after_update (update_of cfg entry) id (patch (update_of cfg entry)) (sweep cfg patch missing)

-- The report and the state after the retirement, the updates that were sent, and the error that
-- ends the run, if there is one.
pub record Retirement : Type 0 where
  pub report : RunReport
  pub state : SyncState
  pub sent : List Update
  pub raised : Option Error

abbrev pub untouched : RunReport → SyncState → Retirement
untouched report state = record { report = report; state = state; sent = []; raised = none }

pub finish : List Update → Result (List String) → RunReport → SyncState → Retirement
finish sent (err e) report state = record {
  report = report;
  state = state;
  sent = sent;
  raised = some e;
}
finish sent (ok ids) report state = record {
  report = record report { retired = length ids };
  state = forget ids state;
  sent = sent;
  raised = none;
}

abbrev limit_message : String
limit_message =
    "retirement skipped: INTUNE_DEVICE_LIMIT was in effect, so the device list is a deliberate subset rather than the current fleet"

-- `{:.0%}` of the fraction
percent_of : (ℕ → ℕ → String) → Float → String
percent_of percent (finite (pos n) k) = percent n (10 ^ k)
percent_of percent (finite (negsuc n) k) = Prim.Native.String.◌++◌ "-" (percent (n + 1) (10 ^ k))
percent_of percent (infinite true) = "inf%"
percent_of percent (infinite false) = "-inf%"
percent_of percent nan = "nan%"

-- The message of the guard; percentages are rounded by `percent`.
refuse_message : (ℕ → ℕ → String) → Settings → ℕ → ℕ → String
unfolding percent_of
refuse_message percent cfg missing known = join "" (
    "refusing to retire "
    ∷ show_nat missing
    ∷ " of "
    ∷ show_nat known
    ∷ " known devices ("
    ∷ percent missing known
    ∷ " > SNOW_RETIRE_MAX_FRACTION="
    ∷ percent_of percent cfg.retire_max_fraction
    ∷ "); this usually means the Graph fetch was incomplete, not that the fleet vanished"
    ∷ [])

-- `len(state.devices) or 1`
abbrev pub known_total : SyncState → ℕ
known_total s = max 1 (length s.devices)

-- `missing / known > retire_max_fraction`, which is false when the latter is no number
unfoldable pub exceeds : Float → ℕ → ℕ → Bool
exceeds nan missing known = false
exceeds (infinite p) missing known = not p
exceeds (finite (negsuc n) k) missing known = true
exceeds (finite (pos n) k) missing known = ltb (n * known) (missing * 10 ^ k)

-- The part behind the tests of the configuration and of an empty list.
guarded :
    (ℕ → ℕ → String)
    → Settings
    → (Update → Result (Unit {0}))
    → Dict Entry
    → SyncState
    → RunReport
    → Retirement
unfolding refuse_message finish exceeds
guarded percent cfg patch missing state report =
    if exceeds cfg.retire_max_fraction (length missing) (known_total state)
    then untouched
        (degrade (refuse_message percent cfg (length missing) (known_total state)) report) state
    else if cfg.dry_run
    then untouched
        (warn (join "" ("dry run: would retire " ∷ show_nat (length missing) ∷ " CIs" ∷ [])) report)
        state
    else (let s = sweep cfg patch missing in finish s.sent s.retired report state)

unless_empty :
    (ℕ → ℕ → String)
    → Settings
    → (Update → Result (Unit {0}))
    → Dict Entry
    → SyncState
    → RunReport
    → Retirement
unfolding guarded
unless_empty percent cfg patch [] state report = untouched report state
unless_empty percent cfg patch (e ∷ missing) state report =
    guarded percent cfg patch (e ∷ missing) state report

unless_limited :
    (ℕ → ℕ → String)
    → Settings
    → (Update → Result (Unit {0}))
    → Option ℕ
    → List String
    → SyncState
    → RunReport
    → Retirement
unfolding unless_empty
unless_limited percent cfg patch (some n) current state report =
    untouched (warn limit_message report) state
unless_limited percent cfg patch none current state report =
    unless_empty percent cfg patch (missing_since_last_run current state) state report

-- `_retire_missing`
unfoldable pub retire_missing :
    (ℕ → ℕ → String)
    → Settings
    → (Update → Result (Unit {0}))
    → List String
    → SyncState
    → RunReport
    → Retirement
unfolding unless_limited
retire_missing percent cfg patch current state report =
    if cfg.retire_missing
    then unless_limited percent cfg patch cfg.device_limit current state report
    else untouched report state
