-- ===== src/Sync/Write/Accounts.antt =====
-- Each device of a batch is reported once, with what its result says, and the report stays accounted
-- for.
use mac_service_now_cmdb.Base.{
  append_nothing, String, ◌≡◌, refl, sym, ap, ◌∙◌, false, some, List, [], ◌∷◌, ◌++◌, map, All, ◌==◌,
  Bool-cases, inl, inr, eq_iff, arith,
}
use mathlib.Core.Path.{subst}
use mac_service_now_cmdb.Dict.{Dict, lookup, insert, mem}
use mac_service_now_cmdb.Dict.Laws.{lookup-insert}
use mac_service_now_cmdb.Errors.{service_now, Result, ok, err}
use mac_service_now_cmdb.Models.{DeviceOutcome}
use mac_service_now_cmdb.Models.Accounts.{
  IsAccounted, record_outcome-IsAccounted, outcomes-record_outcome,
}
use mac_service_now_cmdb.Query.Injection.{Distinct}
use mac_service_now_cmdb.Writers.Types.{CiPayload, WriteResult}
use mac_service_now_cmdb.Sync.Write.{
  Progress, outcome_of, record_changed, changed, settle, apply_result, apply_results, failed,
  fail_one, fail_batch, write_batch,
}
use mac_service_now_cmdb.Sync.Write.Told.{AllTell, AllFailed, Told, outcome_of-Tells}

abbrev pub ids_of : List CiPayload → List String
ids_of = map (λ b. b.intune_id)

abbrev pub result_ids : List WriteResult → List String
result_ids = map (λ r. r.intune_id)

-- The index has an outcome of the device.
abbrev pub HasOutcome : Dict DeviceOutcome → String → Type 0
HasOutcome d id = (o : DeviceOutcome) × (lookup id d ≡ some o) × (o.intune_id ≡ id)

-- The devices have their outcomes, no id stands twice, and none is listed by the batches so far.
pub record Ready (p : Progress) (ids : List String) : Type 0 where
  pub indexed : All (HasOutcome p.outcomes) ids
  pub distinct : Distinct ids
  pub fresh : All (λ id. mem id p.held ≡ false) ids

HasOutcome-insert :
    (k : String) (o : DeviceOutcome) (d : Dict DeviceOutcome) (ids : List String)
    → o.intune_id ≡ k
    → All (HasOutcome d) ids
    → All (HasOutcome (insert k o d)) ids
HasOutcome-insert k o d [] e h = tt
HasOutcome-insert k o d (j ∷ ids) e ((u, f, g), h) = (
  elim (Bool-cases (k == j)) [
    | inl y ↦ (o, lookup-insert k j o d ∙ rw y refl, e ∙ (eq_iff k j).0 y)
    | inr n ↦ (u, lookup-insert k j o d ∙ rw n f, g)
  ],
  HasOutcome-insert k o d ids e h,
)

stays_fresh :
    (k : String) (held ids : List String)
    → mem k ids ≡ false
    → All (λ id. mem id held ≡ false) ids
    → All (λ id. mem id (k ∷ held) ≡ false) ids
unfolding mem
stays_fresh k held [] m h = tt
stays_fresh k held (j ∷ ids) m h =
    (ground (arith, h.0, m, eq_iff k j, eq_iff j k), stays_fresh k held ids (ground (arith, m)) h.1)

module _ (id : String) (ids : List String) (o : DeviceOutcome) (p : Progress)
    (own : o.intune_id ≡ id) (ready : Ready p (id ∷ ids)) where
  record_changed-Ready : Ready (record_changed id o p) ids
  unfolding record_changed
  record_changed-Ready = record {
    indexed = HasOutcome-insert id o p.outcomes ids own ready.indexed.1;
    distinct = ready.distinct.1;
    fresh = stays_fresh id p.held ids ready.distinct.0 ready.fresh.1;
  }

  changed-idle : changed id o p ≡ p.report
  unfolding changed
  changed-idle = rw (ready.fresh.0, changed) refl

  outcomes-record_changed : (record_changed id o p).report.outcomes ≡ p.report.outcomes ++ o ∷ []
  unfolding record_changed
  outcomes-record_changed =
      outcomes-record_outcome o (changed id o p) ∙ ap (λ r. r.outcomes ++ o ∷ []) changed-idle

  record_changed-IsAccounted : IsAccounted p.report → IsAccounted (record_changed id o p).report
  unfolding record_changed
  record_changed-IsAccounted a =
      record_outcome-IsAccounted o (changed id o p) (subst IsAccounted (sym changed-idle) a)

-- What is added to the report, with the devices that are ready behind it.
pub record Adds (Said : List DeviceOutcome → Type 0) (later : List String) (p p' : Progress)
    : Type 0 where
  pub added : List DeviceOutcome
  pub listed : p'.report.outcomes ≡ p.report.outcomes ++ added
  pub said : Said added
  pub accounted : IsAccounted p.report → IsAccounted p'.report
  pub ready : Ready p' later

append_one :
    (xs : List DeviceOutcome) (o : DeviceOutcome) (ys : List DeviceOutcome)
    → (xs ++ o ∷ []) ++ ys ≡ xs ++ (o ∷ ys)
append_one [] o ys = refl
append_one (x ∷ xs) o ys = ap (λ l. x ∷ l) (append_one xs o ys)

-- One more outcome before what is added.
Adds-first :
    (Said More : List DeviceOutcome → Type 0) (later : List String) (p q p' : Progress)
    (o : DeviceOutcome)
    → q.report.outcomes ≡ p.report.outcomes ++ o ∷ []
    → (IsAccounted p.report → IsAccounted q.report)
    → ((os : List DeviceOutcome) → Said os → More (o ∷ os))
    → Adds Said later q p'
    → Adds More later p p'
Adds-first Said More later p q p' o e a f h = record {
  added = o ∷ h.added;
  listed = h.listed ∙ ap (λ l. l ++ h.added) e ∙ append_one p.report.outcomes o h.added;
  said = f h.added h.said;
  accounted = λ b. h.accounted (a b);
  ready = h.ready;
}

pub Adds-none :
    (Said : List DeviceOutcome → Type 0) (later : List String) (p : Progress)
    → Said []
    → Ready p later
    → Adds Said later p p
Adds-none Said later p s ready = record {
  added = [];
  listed = sym (append_nothing p.report.outcomes);
  said = s;
  accounted = λ a. a;
  ready = ready;
}

module _ (now : String) where
  apply_results-Adds :
      (rs : List WriteResult) (later : List String) (p : Progress)
      → Ready p (result_ids rs ++ later)
      → Adds (AllTell rs) later p (apply_results now rs p)
  unfolding apply_results apply_result settle
  apply_results-Adds [] later p ready = Adds-none (AllTell []) later p tt ready
  apply_results-Adds (r ∷ rs) later p ready =
      let (o, e, own) = ready.indexed.0 in
      let o' = outcome_of r o in
      let told = outcome_of-Tells r o own in
      let ids = result_ids rs ++ later in
      let q = settle now r (some o) p in
      let next = record_changed-Ready r.intune_id ids o' p told.device ready in
      let q-Ready : Ready q ids = record {
        indexed = next.indexed;
        distinct = next.distinct;
        fresh = next.fresh;
      } in
      subst (λ x. Adds (AllTell (r ∷ rs)) later p (apply_results now rs (settle now r x p))) (sym e)
        (Adds-first (AllTell rs) (AllTell (r ∷ rs)) later p q (apply_results now rs q) o'
          (outcomes-record_changed r.intune_id ids o' p told.device ready)
          (record_changed-IsAccounted r.intune_id ids o' p told.device ready)
          (λ os said. (told, said)) (apply_results-Adds rs later q q-Ready))

  fail_batch-Adds :
      (m : String) (batch : List CiPayload) (later : List String) (p : Progress)
      → Ready p (ids_of batch ++ later)
      → Adds (AllFailed m batch) later p (fail_batch m batch p)
  unfolding fail_batch fail_one
  fail_batch-Adds m [] later p ready = Adds-none (AllFailed m []) later p tt ready
  fail_batch-Adds m (b ∷ bs) later p ready =
      let (o, e, own) = ready.indexed.0 in
      let o' = failed m o in
      let ids = ids_of bs ++ later in
      let q = fail_one m b (some o) p in
      subst (λ x. Adds (AllFailed m (b ∷ bs)) later p (fail_batch m bs (fail_one m b x p))) (sym e)
        (Adds-first (AllFailed m bs) (AllFailed m (b ∷ bs)) later p q (fail_batch m bs q) o'
          (outcomes-record_changed b.intune_id ids o' p own ready)
          (record_changed-IsAccounted b.intune_id ids o' p own ready)
          (λ os said. ((own, refl, refl), said))
          (fail_batch-Adds m bs later q (record_changed-Ready b.intune_id ids o' p own ready)))

-- What the writer answers: one result for each device in order, or a `ServiceNowError`.
abbrev pub Fits : List CiPayload → Result (List WriteResult) → Type 0
Fits batch (ok rs) = result_ids rs ≡ ids_of batch
Fits batch (err (service_now _)) = Unit
Fits batch (err _) = ⊥

-- When the writer answers with one result for each device or with a `ServiceNowError`, every device of
-- the batch and of what comes later has its outcome, and no id stands twice or was listed by an
-- earlier batch, then `_write_batch` goes on. It adds to the report exactly one outcome for each
-- device of the batch, in order, which tells what its result says, or is the error with the message;
-- it keeps the counters in agreement with the outcomes, and the later devices ready.
pub write_batch_reports :
    (now : String) (batch : List CiPayload) (later : List String)
    (answer : Result (List WriteResult)) (p : Progress)
    → Fits batch answer
    → Ready p (ids_of batch ++ later)
    → (p' : Progress) × (write_batch now batch answer p ≡ ok p')
      × Adds (Told batch answer) later p p'
unfolding write_batch
write_batch_reports now batch later (ok rs) p f ready = (
  apply_results now rs p,
  refl,
  apply_results-Adds now rs later p (subst (λ ids. Ready p (ids ++ later)) (sym f) ready),
)
write_batch_reports now batch later (err (service_now m)) p f ready =
    (fail_batch m batch p, refl, fail_batch-Adds now m batch later p ready)
write_batch_reports now batch later (err e) p f ready = absurd f
