-- ===== src/Sync/Write/Batches.antt =====
-- All batches of a run.
use mac_service_now_cmdb.Base.{
  append-append, ℕ, ◌<◌, String, ◌≡◌, refl, sym, ap, ap₂, ◌∙◌, none, List, [], ◌∷◌, ◌++◌, map,
}
use mathlib.Core.Path.{subst}
use mathlib.Core.List.{flatten}
use mac_service_now_cmdb.Errors.{service_now, Result, ok, err}
use mac_service_now_cmdb.Models.{DeviceOutcome}
use mac_service_now_cmdb.Query.{chunked}
use mac_service_now_cmdb.Query.Chunks.{flatten-chunked}
use mac_service_now_cmdb.Sync.Write.{Progress, write_batches}
use mac_service_now_cmdb.Sync.Write.Told.{AllTell, AllFailed, Told}
use mac_service_now_cmdb.Sync.Write.Accounts.{
  ids_of, result_ids, Ready, Adds, Adds-none, Fits, write_batch_reports,
}
use mac_service_now_cmdb.Writers.Types.{CiPayload, WriteResult}

abbrev pub outcome_ids : List DeviceOutcome → List String
outcome_ids = map (λ o. o.intune_id)

pub ids_of-append : (b c : List CiPayload) → ids_of (b ++ c) ≡ ids_of b ++ ids_of c
ids_of-append [] c = refl
ids_of-append (x ∷ b) c = ap (λ l. x.intune_id ∷ l) (ids_of-append b c)

outcome_ids-append :
    (xs ys : List DeviceOutcome) → outcome_ids (xs ++ ys) ≡ outcome_ids xs ++ outcome_ids ys
outcome_ids-append [] ys = refl
outcome_ids-append (x ∷ xs) ys = ap (λ l. x.intune_id ∷ l) (outcome_ids-append xs ys)

ids-AllTell :
    (rs : List WriteResult) (os : List DeviceOutcome)
    → AllTell rs os
    → outcome_ids os ≡ result_ids rs
ids-AllTell [] [] h = refl
ids-AllTell [] (o ∷ os) h = absurd h
ids-AllTell (r ∷ rs) [] h = absurd h
ids-AllTell (r ∷ rs) (o ∷ os) (t, h) = ap₂ (λ i l. i ∷ l) t.device (ids-AllTell rs os h)

ids-AllFailed :
    (m : String) (b : List CiPayload) (os : List DeviceOutcome)
    → AllFailed m b os
    → outcome_ids os ≡ ids_of b
ids-AllFailed m [] [] h = refl
ids-AllFailed m [] (o ∷ os) h = absurd h
ids-AllFailed m (x ∷ b) [] h = absurd h
ids-AllFailed m (x ∷ b) (o ∷ os) (t, h) = ap₂ (λ i l. i ∷ l) t.0 (ids-AllFailed m b os h)

ids-Told :
    (b : List CiPayload) (answer : Result (List WriteResult)) (os : List DeviceOutcome)
    → Fits b answer
    → Told b answer os
    → outcome_ids os ≡ ids_of b
ids-Told b (ok rs) os f h = ids-AllTell rs os h ∙ f
ids-Told b (err (service_now m)) os f h = ids-AllFailed m b os h
ids-Told b (err e) os f h = absurd f

module _ (now : String) (writer : List CiPayload → Result (List WriteResult)) where
  -- The outcomes of the batches, one batch after the other
  abbrev pub Written : List (List CiPayload) → List DeviceOutcome → Type 0
  Written [] os = os ≡ []
  Written (b ∷ bs) os =
      (xs : List DeviceOutcome) × (ys : List DeviceOutcome) × (os ≡ xs ++ ys)
      × Told b (writer b) xs
      × Written bs ys

  -- They are those of the payloads, one each and in order.
  abbrev pub WrittenAs : List (List CiPayload) → List CiPayload → List DeviceOutcome → Type 0
  WrittenAs bs payloads os = Written bs os × (outcome_ids os ≡ ids_of payloads)

  module _ (fits : (b : List CiPayload) → Fits b (writer b)) where
    Adds-both :
        (b : List CiPayload) (bs : List (List CiPayload)) (p p' q : Progress)
        → Adds (Told b (writer b)) (ids_of (flatten bs)) p p'
        → Adds (WrittenAs bs (flatten bs)) [] p' q
        → Adds (WrittenAs (b ∷ bs) (b ++ flatten bs)) [] p q
    Adds-both b bs p p' q h k = record {
      added = h.added ++ k.added;
      listed =
          k.listed
          ∙ ap (λ l. l ++ k.added) h.listed
          ∙ append-append p.report.outcomes h.added k.added;
      said = (
        (h.added, k.added, refl, h.said, k.said.0),
        outcome_ids-append h.added k.added
            ∙ ap₂ (λ x y. x ++ y) (ids-Told b (writer b) h.added (fits b) h.said) k.said.1
            ∙ sym (ids_of-append b (flatten bs)),
      );
      accounted = λ a. k.accounted (h.accounted a);
      ready = k.ready;
    }

    flattened-Written :
        (bs : List (List CiPayload)) (p : Progress)
        → Ready p (ids_of (flatten bs))
        → ((write_batches now writer bs p).1 ≡ none)
          × Adds (WrittenAs bs (flatten bs)) [] p (write_batches now writer bs p).0
    unfolding write_batches flatten
    flattened-Written [] p ready = (refl, Adds-none (WrittenAs [] []) [] p (refl, refl) ready)
    flattened-Written (b ∷ bs) p ready =
        let (p', e, h) =
          write_batch_reports now b (ids_of (flatten bs)) (writer b) p (fits b)
            (subst (Ready p) (ids_of-append b (flatten bs)) ready) in
        let rest = flattened-Written bs p' h.ready in
        rw (e, write_batches)
          (rest.0, Adds-both b bs p p' (write_batches now writer bs p').0 h rest.1)

    -- When the writer answers every batch with one result for each device or with a
    -- `ServiceNowError`, every payload has its outcome, and no id stands twice, the loop over the
    -- batches ends without an error. It adds to the report exactly one outcome for each payload, in
    -- order, which tells what the writer said of it, and keeps the counters in agreement with the
    -- outcomes.
    pub write_batches_reports :
        (payloads : List CiPayload) (size : ℕ) (p : Progress)
        → 0 < size
        → Ready p (ids_of payloads)
        → ((write_batches now writer (chunked payloads size) p).1 ≡ none)
          × Adds
              (WrittenAs (chunked payloads size) payloads)
              []
              p
              (write_batches now writer (chunked payloads size) p).0
    write_batches_reports payloads size p pos ready =
        let whole = flatten-chunked payloads size pos in
        subst
          (λ ps.
            ((write_batches now writer (chunked payloads size) p).1 ≡ none)
            × Adds (WrittenAs (chunked payloads size) ps) [] p
                (write_batches now writer (chunked payloads size) p).0)
          whole
          (flattened-Written (chunked payloads size) p
            (subst (λ ps. Ready p (ids_of ps)) (sym whole) ready))
