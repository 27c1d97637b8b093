-- ===== src/Sync/Write.antt =====
-- sync.py: `_write_batch` and the loop over batches in `run`. `outcomes` is the index of the outcomes
-- that wait for a result. The report lists the very objects of the index: where two devices have one
-- id, a later result changes the outcome that is listed already. Behind the `older` outcomes that were
-- there before the batches, the report lists the outcomes of the ids in `held`. Only a
-- `ServiceNowError` is handled here: what else the writer raises ends the run.
pub mod Told
pub mod Accounts
pub mod Known
pub mod Batches
use Prim.Native.String
use mac_service_now_cmdb.Base.{
  ◌++◌, map, take, drop, length, ℕ, String, Bool, true, false, Option, none, some, List, [], ◌∷◌,
  ◌==◌, not, ◌&&◌, if◌then◌else◌,
}
use mac_service_now_cmdb.Text.{truthy, after_prefix}
use mac_service_now_cmdb.Dict.{Dict, lookup, insert, mem}
use mac_service_now_cmdb.Errors.{Error, service_now, Result, ok, err}
use mac_service_now_cmdb.Models.{DeviceOutcome, RunReport, record_outcome}
use mac_service_now_cmdb.State.{SyncState, observe}
use mac_service_now_cmdb.Writers.Types.{CiPayload, WriteResult, result_message}

pub record Progress : Type 0 where
  pub outcomes : Dict DeviceOutcome
  pub report : RunReport
  pub state : SyncState
  pub older : ℕ
  pub held : List String

-- The progress before the first batch
abbrev pub start_writing : Dict DeviceOutcome → RunReport → SyncState → Progress
start_writing outcomes report state = record {
  outcomes = outcomes;
  report = report;
  state = state;
  older = length report.outcomes;
  held = [];
}

abbrev renewed : String → DeviceOutcome → DeviceOutcome → DeviceOutcome
renewed id o listed = if listed.intune_id == id then o else listed

-- The report after the object of the index has changed, which it may list already.
unfoldable pub changed : String → DeviceOutcome → Progress → RunReport
changed id o p =
    if mem id p.held
    then record (p.report) {
      outcomes =
          take p.older p.report.outcomes ++ map (renewed id o) (drop p.older p.report.outcomes);
    }
    else p.report

-- `report.record(outcome)` of the changed object
unfoldable pub record_changed : String → DeviceOutcome → Progress → Progress
unfolding changed
record_changed id o p = record p {
  outcomes = insert id o p.outcomes;
  report = record_outcome o (changed id o p);
  held = id ∷ p.held;
}

-- The action and the message that a result gives an outcome, before the result's own message.
abbrev pub simulated : String → DeviceOutcome → DeviceOutcome
simulated action o =
    if action == "pending"
    then record o {
      action = "skipped";
      message = some "dry run - outcome not predictable in this write mode";
    }
    else record o { action = action; message = some "dry run - nothing written" }

unfoldable pub acted : String → DeviceOutcome → DeviceOutcome
acted action o = elim (after_prefix "dry_run:" action) [
  | none ↦ record o { action = action }
  | some a ↦ simulated a o
]

unfoldable pub with_message : Option String → DeviceOutcome → DeviceOutcome
with_message none o = o
with_message (some m) o = if truthy m then record o { message = some m } else o

unfoldable pub outcome_of : WriteResult → DeviceOutcome → DeviceOutcome
unfolding acted with_message
outcome_of r o =
    let o' = acted r.action o in
    with_message (result_message r) (record o' { ci_sys_id = r.sys_id; ire_detail = r.detail })

learn : String → WriteResult → DeviceOutcome → Option String → SyncState → SyncState
learn now r o none s = s
learn now r o (some id) s =
    if truthy id && not (o.action == "error")
    then observe now r.intune_id (some id) o.device_name o.class_name s
    else s

-- What the state learns from a result: a CI that is known and was not an error.
unfoldable pub learned : String → WriteResult → DeviceOutcome → SyncState → SyncState
unfolding learn
learned now r o s = learn now r o r.sys_id s

settle : String → WriteResult → Option DeviceOutcome → Progress → Progress
unfolding outcome_of learned record_changed
settle now r none p = p
settle now r (some o) p =
    let o' = outcome_of r o in
    record (record_changed r.intune_id o' p) { state = learned now r o' p.state }

-- One round of the loop over the results; a result for no device of the index is passed over.
unfoldable pub apply_result : String → WriteResult → Progress → Progress
unfolding settle
apply_result now r p = settle now r (lookup r.intune_id p.outcomes) p

unfoldable pub apply_results : String → List WriteResult → Progress → Progress
apply_results now [] p = p
apply_results now (r ∷ rs) p = apply_results now rs (apply_result now r p)

abbrev pub failed : String → DeviceOutcome → DeviceOutcome
failed message o = record o { action = "error"; message = some message }

fail_one : String → CiPayload → Option DeviceOutcome → Progress → Progress
unfolding record_changed
fail_one message item none p = p
fail_one message item (some o) p = record_changed item.intune_id (failed message o) p

-- Every device of a batch that failed as a whole is an error. (Each has its outcome in the index:
-- the lookup in the source raises `KeyError` otherwise.)
unfoldable pub fail_batch : String → List CiPayload → Progress → Progress
unfolding fail_one
fail_batch message [] p = p
fail_batch message (item ∷ batch) p =
    fail_batch message batch (fail_one message item (lookup item.intune_id p.outcomes) p)

-- `_write_batch`, on what the writer returns or raises for the batch
unfoldable pub write_batch :
    String → List CiPayload → Result (List WriteResult) → Progress → Result Progress
write_batch now batch (ok results) p = ok (apply_results now results p)
write_batch now batch (err (service_now m)) p = ok (fail_batch m batch p)
write_batch now batch (err e) p = err e

-- The loop over the batches. The writer answers by the number of the batch; the progress comes back
-- beside an error that ends the run.
unfoldable pub write_batches :
    String
    → (List CiPayload → Result (List WriteResult))
    → List (List CiPayload)
    → Progress
    → Progress × Option Error
unfolding write_batch
write_batches now writer [] p = (p, none)
write_batches now writer (b ∷ bs) p = elim (write_batch now b (writer b) p) [
  | ok p' ↦ write_batches now writer bs p'
  | err e ↦ (p, some e)
]
