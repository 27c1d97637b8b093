-- ===== src/Sync/Run.antt =====
-- sync.py: `run`, from the devices that it keeps on, and the exit code of `_run` in __main__.py. The
-- stages that enrich the devices and resolve their owners come before and give their results; the
-- writer's `aborted` is what it is after the batches. An error that ends the run leaves no state
-- saved; the report that `_run` writes then is not modelled.
pub mod Outcome
pub mod Ready
pub mod Complete
use Prim.Native.String
use mac_service_now_cmdb.Base.{
  ℕ, ◌+◌, String, Bool, true, false, Option, none, some, List, [], ◌∷◌, ◌++◌, ◌&&◌, ◌||◌, not, ◌==◌,
  ltb, eqb, length, keep, map, if◌then◌else◌,
}
use mac_service_now_cmdb.Text.{truthy, lower, join}
use mac_service_now_cmdb.Text.Order.{sorted}
use mac_service_now_cmdb.Dict.{Dict, mem}
use mac_service_now_cmdb.Json.Value.{Value, get, is_true}
use mac_service_now_cmdb.Json.Show.{show, show_nat}
use mac_service_now_cmdb.Errors.{Error, Result, ok, err, ◌>>=◌, text_of}
use mac_service_now_cmdb.Models.{DeviceOutcome, RunReport, warn, degrade}
use mac_service_now_cmdb.State.{SyncState, Stored, save_state}
use mac_service_now_cmdb.Client.{Send}
use mac_service_now_cmdb.Query.{chunked}
use mac_service_now_cmdb.Mapping.Values.{User}
use mac_service_now_cmdb.References.Device.{Resolver}
use mac_service_now_cmdb.Sync.Collect.{Device}
use mac_service_now_cmdb.Models.People.{SysUserRef}
use mac_service_now_cmdb.Sync.Payloads
use mac_service_now_cmdb.Sync.Payloads.{Built, build_payloads}
use mac_service_now_cmdb.Sync.Write.{Progress, start_writing, write_batches}
use mac_service_now_cmdb.Sync.Retire
use mac_service_now_cmdb.Sync.Retire.{Update, Retirement, retire_missing}
use mac_service_now_cmdb.Writers.Types.{CiPayload, WriteResult}

-- `ReferenceResolver.unresolved`
unfoldable pub unresolved : Resolver → Dict (List String)
unfolding sorted
unresolved r =
    ("manufacturers", sorted r.manufacturers.missing) ∷ ("models", sorted r.models.missing) ∷ []

-- `ReferenceResolver.models_awaiting_manufacturer`
unfoldable pub models_awaiting_manufacturer : Resolver → List String
unfolding sorted
models_awaiting_manufacturer r = sorted (keep (λ m. mem (lower m) r.awaiting) r.models.missing)

-- A run that had payloads and wrote nothing is degraded.
unfoldable pub unless_written : List CiPayload → RunReport → RunReport
unless_written [] r = r
unless_written (p ∷ ps) r =
    if eqb (r.inserted + r.updated + r.unchanged) 0
    then degrade
        (join "" (
          "no device was written: all "
          ∷ show_nat r.errors
          ∷ " attempted write(s) failed. The CMDB holds nothing from this run."
          ∷ []))
        r
    else r

-- A writer that stopped early degrades the run.
unfoldable pub if_aborted : Option String → RunReport → RunReport
if_aborted none r = r
if_aborted (some reason) r =
    if truthy reason then degrade (String.◌++◌ "write run stopped early: " reason) r else r

awaiting_note : List String → RunReport → RunReport
awaiting_note [] r = r
awaiting_note (m ∷ ms) r =
    warn
      (join "" (
        show_nat (length (m ∷ ms))
        ∷ " model(s) not created because their manufacturer has no core_company record: "
        ∷ join ", " (m ∷ ms)
        ∷ ". Create the manufacturer (or add a manufacturer_aliases entry) and the next run creates them."
        ∷ []))
      r

-- What the report says of the references.
unfoldable pub with_references : Resolver → RunReport → RunReport
unfolding awaiting_note unresolved models_awaiting_manufacturer
with_references resolver r = awaiting_note (models_awaiting_manufacturer resolver) (record r {
  unresolved_references = unresolved resolver;
  warnings = r.warnings ++ resolver.blank_creations;
})

-- `{str(d.get("id")) for d in devices if d.get("id")}`
abbrev pub current_ids : List Device → List String
current_ids devices = map (λ d. show (get "id" d)) (keep (λ d. is_true (get "id" d)) devices)

pub record Run : Type 0 where
  pub report : RunReport
  pub state : SyncState
  pub sent : List Update
  pub saved : Option Stored

abbrev pub save_message : String → Error → String
save_message location e = join "" (
    "could not persist sync state to "
    ∷ location
    ∷ ": "
    ∷ text_of e
    ∷ ". The CMDB writes succeeded, but the next run will not be able to retire devices that disappear from Intune."
    ∷ [])

module _ (now location : String) (store : Option (Stored → Result (Unit {0}))) where
  -- `state.save(store)`, of which every exception is handled
  saved_by : Retirement → SyncState × Result (Option Stored) → Run
  saved_by t (s, ok stored) = record { report = t.report; state = s; sent = t.sent; saved = stored }
  saved_by t (s, err e) = record {
    report = degrade (save_message location e) t.report;
    state = s;
    sent = t.sent;
    saved = none;
  }

  unfoldable pub keep_state : Bool → Retirement → Run
  unfolding saved_by save_state
  keep_state dry_run t =
      if dry_run
      then record { report = t.report; state = t.state; sent = t.sent; saved = none }
      else saved_by t (save_state now store t.state)

  -- The part behind the batches
  unfoldable pub conclude :
      Retire.Settings
      → (ℕ → ℕ → String)
      → (Update → Result (Unit {0}))
      → Option String
      → List Device
      → List CiPayload
      → Resolver
      → Progress
      → Result Run
  unfolding keep_state unless_written if_aborted with_references
  conclude cfg percent patch aborted devices payloads resolver p =
      let report =
        with_references resolver (if_aborted aborted (unless_written payloads p.report)) in
      let t = retire_missing percent cfg patch (current_ids devices) p.state report in
      elim t.raised [ some e ↦ err e | none ↦ ok (keep_state cfg.dry_run t) ]

  batched : (Progress → Result Run) → Progress × Option Error → Result Run
  batched rest (p, none) = rest p
  batched rest (p, some e) = err e

  -- `if not devices: ...`: such a run retires nothing and saves nothing.
  unless_no_devices : List Device → RunReport → SyncState → Result Run → Result Run
  unless_no_devices [] report state rest =
      ok (record { report = report; state = state; sent = []; saved = none })
  unless_no_devices (d ∷ devices) report state rest = rest

  module _ (to_snow_datetime : Value → Option String) (run_time : String) (cfg : Payloads.Settings)
      (send : Send) (sys_users : Dict (Option SysUserRef)) (users : Dict User) (size : ℕ)
      (writer : List CiPayload → Result (List WriteResult)) (retire : Retire.Settings)
      (percent : ℕ → ℕ → String) (patch : Update → Result (Unit {0}))
      (aborted : Option String) where
    write_all : SyncState → List Device → Built → Result Run
    unfolding batched conclude
    write_all state devices b =
        batched (conclude retire percent patch aborted devices b.payloads b.resolver) (
          write_batches now writer (chunked b.payloads size)
            (start_writing b.outcomes b.report state))

    -- `run`, from the devices that were kept
    unfoldable pub run : List Device → Resolver → RunReport → SyncState → Result Run
    unfolding unless_no_devices write_all
    run devices resolver report state = unless_no_devices devices report state (
        build_payloads to_snow_datetime run_time cfg send sys_users users devices report resolver
        >>= write_all state devices)

exit_of : Bool → ℕ → List String → ℕ
exit_of fail_on_error errors (d ∷ ds) = 4
exit_of fail_on_error errors [] = if not (eqb errors 0) && fail_on_error then 4 else 0

-- `EXIT_OK` and `EXIT_PARTIAL`: the exit code of a run that returned
unfoldable pub exit_code : Bool → RunReport → ℕ
unfolding exit_of
exit_code fail_on_error r = exit_of fail_on_error r.errors r.degraded
