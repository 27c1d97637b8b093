-- ===== src/Sync/Run/Complete.antt =====
-- A run as a whole: every device is reported, and a state that is not saved is not passed over.
use mac_service_now_cmdb.Base.{
  append_nothing, sym, ◌++◌, ℕ, ◌<◌, String, ◌≡◌, ◌≢◌, refl, ap, ◌∙◌, Bool, true, false, Option,
  none, some, List, [], ◌∷◌,
}
use mathlib.Core.Path.{subst}
use mac_service_now_cmdb.Dict.{Dict}
use mac_service_now_cmdb.Query.Injection.{Distinct}
use mac_service_now_cmdb.Sync.Run.Ready.{device_ids, Sorts-Distinct, start-Ready}
use mac_service_now_cmdb.Json.Value.{Value}
use mac_service_now_cmdb.Errors.{Error, Result, ◌>>=◌}
use mac_service_now_cmdb.Models.{DeviceOutcome, RunReport}
use mac_service_now_cmdb.Models.Accounts.{IsAccounted}
use mac_service_now_cmdb.State.{SyncState, Stored}
use mac_service_now_cmdb.Client.{Send}
use mac_service_now_cmdb.Query.{chunked}
use mac_service_now_cmdb.Mapping.Values.{User}
use mac_service_now_cmdb.References.Device.{Resolver}
use mac_service_now_cmdb.Errors.Gives.{Gives, Gives-bind}
use mac_service_now_cmdb.Sync.Collect.{Device}
use mac_service_now_cmdb.Models.People.{SysUserRef}
use mac_service_now_cmdb.Sync.Payloads
use mac_service_now_cmdb.Sync.Payloads.{Built, build_payloads}
use mac_service_now_cmdb.Sync.Payloads.Complete.{IsComplete, build_payloads-IsComplete}
use mac_service_now_cmdb.Sync.Payloads.Sorted.{Sorts, all_sorted}
use mac_service_now_cmdb.Sync.Write.{Progress, start_writing, write_batches}
use mac_service_now_cmdb.Sync.Write.Accounts.{Fits}
use mac_service_now_cmdb.Sync.Write.Batches.{WrittenAs, write_batches_reports}
use mac_service_now_cmdb.Sync.Retire
use mac_service_now_cmdb.Sync.Retire.{Update, Retirement, retire_missing}
use mac_service_now_cmdb.Sync.Run.{Run, conclude, batched, unless_no_devices, write_all, run}
use mac_service_now_cmdb.Writers.Types.{CiPayload, WriteResult}
use mac_service_now_cmdb.Sync.Run.Outcome.{Concludes, conclude-Concludes}
use mac_service_now_cmdb.Errors.Gives.{Gives-map, Gives-any}
use mac_service_now_cmdb.Sync.Run.{exit_of, exit_code}

batched-Gives :
    (now location : String) (store : Option (Stored → Result (Unit {0}))) (P : Run → Type 0)
    (rest : Progress → Result Run) (o : Progress × Option Error)
    → ((p : Progress) → Gives P (rest p))
    → Gives P (batched now location store rest o)
unfolding batched
batched-Gives now location store P rest (p, none) h = h p
batched-Gives now location store P rest (p, some e) h = tt

batched_fine :
    (now location : String) (store : Option (Stored → Result (Unit {0}))) (P : Run → Type 0)
    (rest : Progress → Result Run) (o : Progress × Option Error)
    → o.1 ≡ none
    → Gives P (rest o.0)
    → Gives P (batched now location store rest o)
unfolding batched
batched_fine now location store P rest (p, none) e h = h
batched_fine now location store P rest (p, some x) e h = tt

exit_of-degraded : (f : Bool) (errors : ℕ) (ds : List String) → ds ≢ [] → exit_of f errors ds ≡ 4
unfolding exit_of
exit_of-degraded f errors [] h = absurd (h refl)
exit_of-degraded f errors (d ∷ ds) h = refl

exit-degraded :
    (fail_on_error : Bool) (r : RunReport) → r.degraded ≢ [] → exit_code fail_on_error r ≡ 4
unfolding exit_code
exit-degraded f r h = exit_of-degraded f r.errors r.degraded h

module _ (now location : String) (store : Option (Stored → Result (Unit {0})))
    (to_snow_datetime : Value → Option String) (run_time : String) (cfg : Payloads.Settings)
    (send : Send) (sys_users : Dict (Option SysUserRef)) (users : Dict User) (size : ℕ)
    (writer : List CiPayload → Result (List WriteResult)) (retire : Retire.Settings)
    (percent : ℕ → ℕ → String) (patch : Update → Result (Unit {0})) (aborted : Option String)
    (devices : List Device) (resolver : Resolver) (report : RunReport) (state : SyncState) where
  -- The run.
  abbrev pub outcome : Result Run
  outcome =
      run now location store to_snow_datetime run_time cfg send sys_users users size writer retire
        percent patch aborted devices resolver report state

  abbrev building : Result Built
  building =
      build_payloads to_snow_datetime run_time cfg send sys_users users devices report resolver

  abbrev writing : Built → Result Run
  writing =
      write_all now location store to_snow_datetime run_time cfg send sys_users users size writer
        retire percent patch aborted state devices

  -- The report lists, behind what it listed before, first the devices that are skipped, each with its
  -- own outcome, and then the others, one outcome each and in order, with what the writer said of it.
  -- Its counters agree with its outcomes.
  pub record IsReported (r : Run) : Type 0 where
    pub payloads : List CiPayload
    pub skipped_ones : List DeviceOutcome
    pub written : List DeviceOutcome
    pub listed : r.report.outcomes ≡ (report.outcomes ++ skipped_ones) ++ written
    pub sorts : Sorts devices skipped_ones payloads
    pub said : WrittenAs now writer (chunked payloads size) payloads written
    pub accounted : IsAccounted r.report

  written-IsReported :
      0 < size
      → ((b : List CiPayload) → Fits b (writer b))
      → IsAccounted report
      → Distinct (device_ids devices)
      → (b : Built) → IsComplete to_snow_datetime run_time cfg send sys_users users devices report b
      → Gives IsReported (writing b)
  unfolding write_all
  written-IsReported pos fits a d b c =
      let start = start_writing b.outcomes b.report state in
      let rest =
        conclude now location store retire percent patch aborted devices b.payloads b.resolver in
      let o = write_batches now writer (chunked b.payloads size) start in
      let w =
        write_batches_reports now writer fits b.payloads size start pos
          (start-Ready b.outcomes b.report state b.payloads c.waiting (Sorts-Distinct c.sorts d)) in
      let adds = w.1 in
      batched_fine now location store IsReported rest o w.0 (
        Gives-map (Concludes now location store retire.dry_run b.payloads o.0) IsReported (rest o.0)
          (λ r k. record {
            payloads = b.payloads;
            skipped_ones = c.skipped_ones;
            written = adds.added;
            listed = k.follows.outcomes ∙ adds.listed ∙ ap (λ l. l ++ adds.added) c.listed;
            sorts = c.sorts;
            said = adds.said;
            accounted = k.follows.accounted (adds.accounted (c.accounted a));
          })
          (conclude-Concludes now location store retire percent patch aborted devices b.payloads
            b.resolver o.0))

  nothing_to_report :
      IsAccounted report
      → devices ≡ []
      → IsReported (record { report = report; state = state; sent = []; saved = none })
  unfolding chunked
  nothing_to_report a e = record {
    payloads = [];
    skipped_ones = [];
    written = [];
    listed = sym (append_nothing _ ∙ append_nothing _);
    sorts = subst (λ ds. Sorts ds [] []) (sym e) all_sorted;
    said = (refl, refl);
    accounted = a;
  }

  unless-Gives :
      (P : Run → Type 0) (ds : List Device) (rest : Result Run)
      → (ds ≡ [] → P (record { report = report; state = state; sent = []; saved = none }))
      → Gives P rest
      → Gives P (unless_no_devices now location store ds report state rest)
  unfolding unless_no_devices
  unless-Gives P [] rest h g = h refl
  unless-Gives P (d ∷ ds) rest h g = g

  -- When the writer answers every batch with one result for each device or with a `ServiceNowError`,
  -- and no two devices have one id, a run that returns has reported every device that it kept exactly
  -- once: the skipped ones with their own outcomes, the action "skipped" and a reason, and the others
  -- in order with what the writer said of them. Its counters agree with its outcomes.
  pub run-IsReported :
      0 < size
      → ((b : List CiPayload) → Fits b (writer b))
      → IsAccounted report
      → Distinct (device_ids devices)
      → Gives IsReported outcome
  unfolding run
  run-IsReported pos fits a d =
      unless-Gives IsReported devices (building >>= writing) (λ e. nothing_to_report a e)
        (Gives-bind (IsComplete to_snow_datetime run_time cfg send sys_users users devices report)
          IsReported building _
          (build_payloads-IsComplete to_snow_datetime run_time cfg send sys_users users devices
            report resolver)
          (λ b c. written-IsReported pos fits a d b c))

  -- What a run does with the state.
  abbrev pub IsKept : Run → Type 0
  IsKept r =
      (retire.dry_run ≡ true → (r.saved ≡ none) × (r.sent ≡ []))
      × (store ≡ none → r.saved ≡ none)
      × (retire.dry_run ≡ false
          → devices ≢ []
          → store ≢ none
          → r.saved ≡ none
          → (fail_on_error : Bool) → exit_code fail_on_error r.report ≡ 4)

  written-IsKept : (b : Built) → Gives IsKept (writing b)
  unfolding write_all
  written-IsKept b =
      let start = start_writing b.outcomes b.report state in
      let rest =
        conclude now location store retire percent patch aborted devices b.payloads b.resolver in
      batched-Gives now location store IsKept rest
        (write_batches now writer (chunked b.payloads size) start)
        (λ p.
          Gives-map (Concludes now location store retire.dry_run b.payloads p) IsKept (rest p)
            (λ r k. (k.dry, k.storeless, λ w d h s f. exit-degraded f r.report (k.wet w h s)))
            (conclude-Concludes now location store retire percent patch aborted devices b.payloads
              b.resolver p))

  -- Whatever the writer and the service answer: a dry run that returns has saved nothing and has sent
  -- no update, a run without a store has saved nothing, and a run with a store that is not dry and
  -- returns without a saved state had no device or has the exit code 4.
  pub run-IsKept : Gives IsKept outcome
  unfolding run
  run-IsKept =
      unless-Gives IsKept devices (building >>= writing)
        (λ e. (λ d. (refl, refl), λ n. refl, λ w d h s f. absurd (d e)))
        (Gives-bind (λ b. Unit {0}) IsKept building _ (Gives-any building)
          (λ b u. written-IsKept b))
