-- ===== src/Sync/Write/Told.antt =====
-- What an outcome tells after a result or a failure, described apart from the code.
use mac_service_now_cmdb.Base.{
  String, ◌≡◌, refl, ◌∙◌, Option, none, some, List, [], ◌∷◌, ◌==◌, if◌then◌else◌, if-elim,
  Option-cases, arith, true, inl, inr,
}
use mac_service_now_cmdb.Text.{truthy, after_prefix}
use mac_service_now_cmdb.Errors.{Result, ok, err, service_now}
use mac_service_now_cmdb.Models.{DeviceOutcome}
use mac_service_now_cmdb.Writers.Types.{CiPayload, WriteResult, result_message}
use mac_service_now_cmdb.Sync.Write.{simulated, acted, with_message, outcome_of}

-- The outcome tells what the result says: of its device, with its CI and its detail, its own action,
-- of a dry run the simulated one, and its message if it has one.
pub record Tells (r : WriteResult) (o : DeviceOutcome) : Type 0 where
  pub device : o.intune_id ≡ r.intune_id
  pub ci : o.ci_sys_id ≡ r.sys_id
  pub detail : o.ire_detail ≡ r.detail
  pub plain : after_prefix "dry_run:" r.action ≡ none → o.action ≡ r.action
  pub dry :
      (a : String)
      → after_prefix "dry_run:" r.action ≡ some a
      → o.action ≡ (if a == "pending" then "skipped" else a)
  pub message : (m : String) → result_message r ≡ some m → truthy m ≡ true → o.message ≡ some m

abbrev pub AllTell : List WriteResult → List DeviceOutcome → Type 0
AllTell [] [] = Unit
AllTell [] (o ∷ os) = ⊥
AllTell (r ∷ rs) [] = ⊥
AllTell (r ∷ rs) (o ∷ os) = Tells r o × AllTell rs os

-- The outcome is the error with the message, of this device.
abbrev Failed : String → CiPayload → DeviceOutcome → Type 0
Failed m b o = (o.intune_id ≡ b.intune_id) × (o.action ≡ "error") × (o.message ≡ some m)

abbrev pub AllFailed : String → List CiPayload → List DeviceOutcome → Type 0
AllFailed m [] [] = Unit
AllFailed m [] (o ∷ os) = ⊥
AllFailed m (b ∷ bs) [] = ⊥
AllFailed m (b ∷ bs) (o ∷ os) = Failed m b o × AllFailed m bs os

-- The outcomes of a batch by the writer's answer, in the order of its devices
abbrev pub Told : List CiPayload → Result (List WriteResult) → List DeviceOutcome → Type 0
Told batch (ok rs) os = AllTell rs os
Told batch (err (service_now m)) os = AllFailed m batch os
Told batch (err _) os = ⊥

-- What the last message leaves
abbrev Same : DeviceOutcome → DeviceOutcome → Type 0
Same o o' =
    (o'.intune_id ≡ o.intune_id)
    × (o'.action ≡ o.action)
    × (o'.ci_sys_id ≡ o.ci_sys_id)
    × (o'.ire_detail ≡ o.ire_detail)

with_message-Same : (m : Option String) (o : DeviceOutcome) → Same o (with_message m o)
unfolding with_message
with_message-Same none o = (refl, refl, refl, refl)
with_message-Same (some m) o =
    if-elim (Same o) (truthy m) (record o { message = some m }) o (λ _. (refl, refl, refl, refl))
      (λ _. (refl, refl, refl, refl))

with_message-message :
    (n : Option String) (o : DeviceOutcome) (m : String)
    → n ≡ some m
    → truthy m ≡ true
    → (with_message n o).message ≡ some m
unfolding with_message
with_message-message n o m e t = rw (e, with_message, t) refl

simulated-id : (a : String) (o : DeviceOutcome) → (simulated a o).intune_id ≡ o.intune_id
simulated-id a o =
    if-elim (λ (x : DeviceOutcome). x.intune_id ≡ o.intune_id) (a == "pending") _ _ (λ _. refl)
      (λ _. refl)

acted-id : (a : String) (o : DeviceOutcome) → (acted a o).intune_id ≡ o.intune_id
unfolding acted
acted-id a o = elim (Option-cases (after_prefix "dry_run:" a)) [
  | inl n ↦ rw (n, acted) refl
  | inr (b, n) ↦ rw (n, acted) (simulated-id b o)
]

acted-plain :
    (a : String) (o : DeviceOutcome) → after_prefix "dry_run:" a ≡ none → (acted a o).action ≡ a
unfolding acted
acted-plain a o n = rw (n, acted) refl

simulated-action :
    (b : String) (o : DeviceOutcome)
    → (simulated b o).action ≡ (if b == "pending" then "skipped" else b)
simulated-action b o = ground arith

acted-dry :
    (a : String) (o : DeviceOutcome) (b : String)
    → after_prefix "dry_run:" a ≡ some b
    → (acted a o).action ≡ (if b == "pending" then "skipped" else b)
unfolding acted
acted-dry a o b n = rw (n, acted) (simulated-action b o)

pub outcome_of-Tells :
    (r : WriteResult) (o : DeviceOutcome) → o.intune_id ≡ r.intune_id → Tells r (outcome_of r o)
unfolding outcome_of
outcome_of-Tells r o e =
    let o' : DeviceOutcome = record (acted r.action o) {
      ci_sys_id = r.sys_id;
      ire_detail = r.detail;
    } in
    let s = with_message-Same (result_message r) o' in
    record {
      device = s.0 ∙ acted-id r.action o ∙ e;
      ci = s.2;
      detail = s.3;
      plain = λ n. s.1 ∙ acted-plain r.action o n;
      dry = λ a n. s.1 ∙ acted-dry r.action o a n;
      message = λ m n t. with_message-message (result_message r) o' m n t;
    }
