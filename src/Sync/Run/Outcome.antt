-- ===== src/Sync/Run/Outcome.antt =====
-- What a run that returns has done.
use mac_service_now_cmdb.Base.{
  ℕ, ◌+◌, String, ◌≡◌, ◌≢◌, refl, ◌∙◌, Bool, true, false, Option, none, some, inl, inr, List, [],
  ◌∷◌, ◌++◌, if-elim, eqb,
}
use mac_service_now_cmdb.Text.{truthy}
use mac_service_now_cmdb.Errors.{Error, Result, ok, err, ◌>>=◌}
use mac_service_now_cmdb.Models.{RunReport}
use mac_service_now_cmdb.Models.Follows.{
  Follows, Follows-refl, Follows-trans, same-Follows, warn-Follows, degrade-Follows,
  degraded-degrade,
}
use mac_service_now_cmdb.State.{SyncState, Stored, save, save_state}
use mac_service_now_cmdb.References.Device.{Resolver}
use mac_service_now_cmdb.Errors.Gives.{Gives}
use mac_service_now_cmdb.Sync.Collect.{Device}
use mac_service_now_cmdb.Sync.Write.{Progress}
use mac_service_now_cmdb.Sync.Retire
use mac_service_now_cmdb.Sync.Retire.{Update, Retirement, retire_missing}
use mac_service_now_cmdb.Sync.Retire.Cases.{retire_missing-Follows}
use mac_service_now_cmdb.Sync.Retire.Safety.{retire_missing-guards}
use mac_service_now_cmdb.Sync.Run.{
  unless_written, if_aborted, awaiting_note, with_references, current_ids, Run, saved_by,
  keep_state, conclude, save_message, unresolved,
}
use mac_service_now_cmdb.Writers.Types.{CiPayload}

unless_written-Follows : (ps : List CiPayload) (r : RunReport) → Follows r (unless_written ps r)
unfolding unless_written
unless_written-Follows [] r = Follows-refl r
unless_written-Follows (p ∷ ps) r =
    if-elim (Follows r) (eqb (r.inserted + r.updated + r.unchanged) 0) _ r
      (λ y. degrade-Follows _ r) (λ n. Follows-refl r)

unless_written-degraded :
    (ps : List CiPayload) (r : RunReport)
    → ps ≢ []
    → r.inserted + r.updated + r.unchanged ≡ 0
    → (unless_written ps r).degraded ≢ []
unfolding unless_written
unless_written-degraded [] r h z = absurd (h refl)
unless_written-degraded (p ∷ ps) r h z = rw z (degraded-degrade _ r)

if_aborted-Follows : (a : Option String) (r : RunReport) → Follows r (if_aborted a r)
unfolding if_aborted
if_aborted-Follows none r = Follows-refl r
if_aborted-Follows (some m) r =
    if-elim (Follows r) (truthy m) _ r (λ y. degrade-Follows _ r) (λ n. Follows-refl r)

awaiting_note-Follows : (ms : List String) (r : RunReport) → Follows r (awaiting_note ms r)
unfolding awaiting_note
awaiting_note-Follows [] r = Follows-refl r
awaiting_note-Follows (m ∷ ms) r = warn-Follows _ r

with_references-Follows : (s : Resolver) (r : RunReport) → Follows r (with_references s r)
unfolding with_references
with_references-Follows s r =
    Follows-trans r _ _
      (same-Follows r
        (record r {
          unresolved_references = unresolved s;
          warnings = r.warnings ++ s.blank_creations;
        })
        refl refl refl refl refl refl (λ d. d))
      (awaiting_note-Follows _ _)

module _ (now location : String) (store : Option (Stored → Result (Unit {0}))) where
  abbrev after_save : Retirement → SyncState × Result (Option Stored) → Run
  after_save = saved_by now location store

  saved_by-Follows :
      (t : Retirement) (a : SyncState × Result (Option Stored))
      → Follows t.report (after_save t a).report
  unfolding saved_by
  saved_by-Follows t (s, ok stored) = Follows-refl t.report
  saved_by-Follows t (s, err e) = degrade-Follows (save_message location e) t.report

  saved_by-degraded :
      (t : Retirement) (s : SyncState) (stored : Stored) (a : Result (Unit {0}))
      → (after_save t (s, a >>= λ _. ok (some stored))).saved ≡ none
      → (after_save t (s, a >>= λ _. ok (some stored))).report.degraded ≢ []
  unfolding saved_by
  saved_by-degraded t s stored (ok u) h = absurd (cc)
  saved_by-degraded t s stored (err e) h = degraded-degrade (save_message location e) t.report

  -- The end of a run, after a retirement.
  record Ends (dry_run : Bool) (t : Retirement) (r : Run) : Type 0 where
    follows : Follows t.report r.report
    dry : dry_run ≡ true → (r.saved ≡ none) × (r.sent ≡ t.sent)
    storeless : store ≡ none → (r.saved ≡ none) × (r.state ≡ t.state) × (r.report ≡ t.report)
    wet : dry_run ≡ false → store ≢ none → r.saved ≡ none → r.report.degraded ≢ []

  keep_state-Ends_wet :
      (o : Option (Stored → Result (Unit {0}))) (t : Retirement)
      → o ≢ none
      → (after_save t (save_state now o t.state)).saved ≡ none
      → (after_save t (save_state now o t.state)).report.degraded ≢ []
  unfolding save_state
  keep_state-Ends_wet none t h s = absurd (h refl)
  keep_state-Ends_wet (some w) t h s =
      saved_by-degraded t (save now t.state).0 (save now t.state).1 (w (save now t.state).1) s

  without_store :
      (o : Option (Stored → Result (Unit {0}))) (t : Retirement)
      → o ≡ none
      → ((after_save t (save_state now o t.state)).saved ≡ none)
        × ((after_save t (save_state now o t.state)).state ≡ t.state)
        × ((after_save t (save_state now o t.state)).report ≡ t.report)
  unfolding save_state saved_by
  without_store none t h = (refl, refl, refl)
  without_store (some w) t h = absurd (cc)

  keep_state-Ends :
      (dry_run : Bool) (t : Retirement) → Ends dry_run t (keep_state now location store dry_run t)
  unfolding keep_state
  keep_state-Ends true t = record {
    follows = Follows-refl t.report;
    dry = λ d. (refl, refl);
    storeless = λ n. (refl, refl, refl);
    wet = λ w. absurd (cc);
  }
  keep_state-Ends false t = record {
    follows = saved_by-Follows t (save_state now store t.state);
    dry = λ d. absurd (cc);
    storeless = without_store store t;
    wet = λ w. keep_state-Ends_wet store t;
  }

  -- What a run has done that wrote these payloads and then had this progress.
  pub record Concludes (dry_run : Bool) (payloads : List CiPayload) (p : Progress) (r : Run)
      : Type 0 where
    pub follows : Follows p.report r.report
    pub dry : dry_run ≡ true → (r.saved ≡ none) × (r.sent ≡ [])
    pub storeless : store ≡ none → r.saved ≡ none
    pub wet : dry_run ≡ false → store ≢ none → r.saved ≡ none → r.report.degraded ≢ []
    pub written :
        payloads ≢ []
        → p.report.inserted + p.report.updated + p.report.unchanged ≡ 0
        → r.report.degraded ≢ []

  module _ (retire : Retire.Settings) (percent : ℕ → ℕ → String)
      (patch : Update → Result (Unit {0})) (aborted : Option String) (devices : List Device) where
    unless_raised :
        (P : Run → Type 0) (o : Option Error) (r : Run)
        → P r
        → Gives P (elim o [ some e ↦ err e | none ↦ ok r ])
    unless_raised P none r h = h
    unless_raised P (some e) r h = tt

    -- When the part of a run behind the batches returns: the outcomes and the counters of the report
    -- stand, a dry run has saved nothing and sent no update, a run without a store has saved nothing,
    -- any other run without a saved state is degraded, and so is a run that had payloads and inserted,
    -- updated or left unchanged no device.
    pub conclude-Concludes :
        (payloads : List CiPayload) (resolver : Resolver) (p : Progress)
        → Gives
            (Concludes retire.dry_run payloads p)
            (conclude now location store retire percent patch aborted devices payloads resolver p)
    unfolding conclude
    conclude-Concludes payloads resolver p =
        let written = unless_written payloads p.report in
        let stopped = if_aborted aborted written in
        let report = with_references resolver stopped in
        let ids = current_ids devices in
        let t = retire_missing percent retire patch ids p.state report in
        let e = keep_state-Ends retire.dry_run t in
        let end = keep_state now location store retire.dry_run t in
        let later : Follows written end.report =
          Follows-trans written stopped end.report (if_aborted-Follows aborted written) (
            Follows-trans stopped report end.report (with_references-Follows resolver stopped) (
              Follows-trans report t.report end.report
                (retire_missing-Follows retire patch percent ids p.state report) e.follows)) in
        unless_raised (Concludes retire.dry_run payloads p) t.raised end (record {
          follows =
              Follows-trans p.report written end.report (unless_written-Follows payloads p.report)
                later;
          dry = λ d.
              let s = e.dry d in
              (
                s.0,
                s.1
                    ∙ (retire_missing-guards retire patch percent ids p.state report
                        (inr (inr (inl d)))).0,
              );
          storeless = λ n. (e.storeless n).0;
          wet = e.wet;
          written = λ h z. later.degraded (unless_written-degraded payloads p.report h z);
        })
