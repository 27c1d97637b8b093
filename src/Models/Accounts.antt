-- ===== src/Models/Accounts.antt =====
-- The counters of a report agree with the outcomes that it lists.
use mac_service_now_cmdb.Base.{
  ℕ, ◌+◌, ◌≤◌, String, ◌≡◌, refl, List, [], ◌∷◌, ◌++◌, ◌==◌, count, count-append, length,
  length-append, arith, if◌then◌else◌,
}
use mac_service_now_cmdb.Dict.Laws.{apart}
use mac_service_now_cmdb.Models.{DeviceOutcome, RunReport, record_outcome, sample}

-- How many outcomes ended with an action.
abbrev pub ended : String → List DeviceOutcome → ℕ
ended a = count (λ o. o.action == a)

pub record IsAccounted (r : RunReport) : Type 0 where
  pub inserted : r.inserted ≡ ended "inserted" r.outcomes
  pub updated : r.updated ≡ ended "updated" r.outcomes
  pub unchanged : r.unchanged ≡ ended "unchanged" r.outcomes
  pub errors : r.errors ≡ ended "error" r.outcomes
  pub samples : length r.error_samples ≤ 20

ended-append :
    (a : String) (os : List DeviceOutcome) (o : DeviceOutcome)
    → ended a (os ++ o ∷ []) ≡ ended a os + (if o.action == a then 1 else 0)
ended-append a os o = rw (count-append (λ o. o.action == a) os (o ∷ [])) (ground arith)

length-sample :
    (o : DeviceOutcome) (r : RunReport) → length r.error_samples ≤ 20 → length (sample o r) ≤ 20
unfolding sample
length-sample o r h = grind (arith, length-append)

pub outcomes-record_outcome :
    (o : DeviceOutcome) (r : RunReport) → (record_outcome o r).outcomes ≡ r.outcomes ++ o ∷ []
unfolding record_outcome
outcomes-record_outcome o r = ground arith

module _ (o : DeviceOutcome) (r : RunReport) where
  inserted-record_outcome :
      (record_outcome o r).inserted ≡ r.inserted + (if o.action == "inserted" then 1 else 0)
  unfolding record_outcome
  inserted-record_outcome = ground arith

  updated-record_outcome :
      (record_outcome o r).updated ≡ r.updated + (if o.action == "updated" then 1 else 0)
  unfolding record_outcome
  updated-record_outcome = ground (arith, apart o.action "inserted" "updated" refl)

  unchanged-record_outcome :
      (record_outcome o r).unchanged ≡ r.unchanged + (if o.action == "unchanged" then 1 else 0)
  unfolding record_outcome
  unchanged-record_outcome =
      ground (
        arith,
        apart o.action "inserted" "unchanged" refl,
        apart o.action "updated" "unchanged" refl,
      )

  errors-record_outcome :
      (record_outcome o r).errors ≡ r.errors + (if o.action == "error" then 1 else 0)
  unfolding record_outcome
  errors-record_outcome = ground (
    arith,
    apart o.action "inserted" "error" refl,
    apart o.action "updated" "error" refl,
    apart o.action "unchanged" "error" refl,
  )

  samples-record_outcome :
      length r.error_samples ≤ 20 → length (record_outcome o r).error_samples ≤ 20
  unfolding record_outcome
  samples-record_outcome h = ground (arith, length-sample o r h)

-- Recording an outcome keeps every counter equal to the number of outcomes that ended so, and at
-- most 20 error samples.
pub record_outcome-IsAccounted :
    (o : DeviceOutcome) (r : RunReport) → IsAccounted r → IsAccounted (record_outcome o r)
record_outcome-IsAccounted o r h = record {
  inserted =
      rw
        (
          inserted-record_outcome o r,
          outcomes-record_outcome o r,
          ended-append "inserted" r.outcomes o,
        )
        (omega arith);
  updated =
      rw
        (
          updated-record_outcome o r,
          outcomes-record_outcome o r,
          ended-append "updated" r.outcomes o,
        )
        (omega arith);
  unchanged =
      rw
        (
          unchanged-record_outcome o r,
          outcomes-record_outcome o r,
          ended-append "unchanged" r.outcomes o,
        )
        (omega arith);
  errors =
      rw (errors-record_outcome o r, outcomes-record_outcome o r, ended-append "error" r.outcomes o)
        (omega arith);
  samples = samples-record_outcome o r h.samples;
}
