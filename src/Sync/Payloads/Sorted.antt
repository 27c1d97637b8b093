-- ===== src/Sync/Payloads/Sorted.antt =====
-- How the devices of a run are sorted: into the skipped ones and into payloads whose outcomes wait.
use mac_service_now_cmdb.Base.{
  true, Bool-cases, inl, inr, eq_iff, ◌==◌, String, ◌≡◌, refl, ◌∙◌, some, List, [], ◌∷◌, ◌++◌, All,
}
use mac_service_now_cmdb.Text.{truthy}
use mac_service_now_cmdb.Dict.{Dict, lookup, insert}
use mac_service_now_cmdb.Dict.Laws.{lookup-insert}
use mac_service_now_cmdb.Models.{DeviceOutcome}
use mac_service_now_cmdb.Sync.Collect.{Device}
use mac_service_now_cmdb.Sync.Payloads.{device_id, device_name}
use mac_service_now_cmdb.Writers.Types.{CiPayload}

-- The outcome of a device that is skipped: its own, with the reason.
pub record IsSkipped (d : Device) (o : DeviceOutcome) : Type 0 where
  pub device : o.intune_id ≡ device_id d
  pub name : o.device_name ≡ device_name d
  pub action : o.action ≡ "skipped"
  pub reason : (m : String) × (o.message ≡ some m)

-- The payload of a device that has an id
pub record IsQueued (d : Device) (p : CiPayload) : Type 0 where
  pub has_id : truthy (device_id d) ≡ true
  pub device : p.intune_id ≡ device_id d
  pub name : p.device_name ≡ device_name d

-- The devices in order, each with the outcome that it is skipped by or with its payload
pub data Sorts : List Device → List DeviceOutcome → List CiPayload → Type 0 where
  all_sorted : Sorts [] [] []
  skip :
      {d : Device} {ds : List Device} {o : DeviceOutcome} {os : List DeviceOutcome}
      {ps : List CiPayload}
      → IsSkipped d o
      → Sorts ds os ps
      → Sorts (d ∷ ds) (o ∷ os) ps
  queue :
      {d : Device} {ds : List Device} {os : List DeviceOutcome} {p : CiPayload}
      {ps : List CiPayload}
      → IsQueued d p
      → Sorts ds os ps
      → Sorts (d ∷ ds) os (p ∷ ps)

pub Sorts-append :
    {ds es : List Device} {os us : List DeviceOutcome} {ps qs : List CiPayload}
    → Sorts ds os ps
    → Sorts es us qs
    → Sorts (ds ++ es) (os ++ us) (ps ++ qs)
Sorts-append all_sorted t = t
Sorts-append (skip i s) t = skip i (Sorts-append s t)
Sorts-append (queue i s) t = queue i (Sorts-append s t)

-- The index has an outcome of the device that waits for its result.
abbrev pub Pending : Dict DeviceOutcome → String → Type 0
Pending d id =
    (o : DeviceOutcome) × (lookup id d ≡ some o) × (o.intune_id ≡ id) × (o.action ≡ "pending")

-- Every payload has its outcome.
abbrev pub Waiting : Dict DeviceOutcome → List CiPayload → Type 0
Waiting d = All (λ p. Pending d p.intune_id)

pub Waiting-insert :
    (k : String) (o : DeviceOutcome) (d : Dict DeviceOutcome) (ps : List CiPayload)
    → o.intune_id ≡ k
    → o.action ≡ "pending"
    → Waiting d ps
    → Waiting (insert k o d) ps
Waiting-insert k o d [] e a h = tt
Waiting-insert k o d (p ∷ ps) e a ((u, f, g, i), h) = (
  elim (Bool-cases (k == p.intune_id)) [
    | inl y ↦ (o, lookup-insert k p.intune_id o d ∙ rw y refl, e ∙ (eq_iff k p.intune_id).0 y, a)
    | inr n ↦ (u, lookup-insert k p.intune_id o d ∙ rw n f, g, i)
  ],
  Waiting-insert k o d ps e a h,
)
