-- ===== src/Sync/Run/Ready.antt =====
-- The devices of a run are ready to be written when no two of them have one id.
use mathlib.Core.Path.{subst}
use mac_service_now_cmdb.Base.{
  String, ◌≡◌, refl, true, false, inl, inr, Bool-cases, List, [], ◌∷◌, All, if◌then◌else◌, arith,
}
use mac_service_now_cmdb.Text.{truthy}
use mac_service_now_cmdb.Dict.{Dict, mem}
use mac_service_now_cmdb.Models.{DeviceOutcome, RunReport}
use mac_service_now_cmdb.State.{SyncState}
use mac_service_now_cmdb.Query.Injection.{Distinct}
use mac_service_now_cmdb.Sync.Collect.{Device}
use mac_service_now_cmdb.Sync.Payloads.{device_id}
use mac_service_now_cmdb.Sync.Payloads.Sorted.{Sorts, all_sorted, skip, queue, Waiting}
use mac_service_now_cmdb.Sync.Write.{start_writing}
use mac_service_now_cmdb.Sync.Write.Accounts.{ids_of, HasOutcome, Ready}
use mac_service_now_cmdb.Writers.Types.{CiPayload}

-- The ids of the devices that have one
unfoldable pub device_ids : List Device → List String
device_ids [] = []
device_ids (d ∷ ds) = if truthy (device_id d) then device_id d ∷ device_ids ds else device_ids ds

device_ids-first :
    (d : Device) (ds : List Device)
    → truthy (device_id d) ≡ true
    → device_ids (d ∷ ds) ≡ device_id d ∷ device_ids ds
unfolding device_ids
device_ids-first d ds t = rw t refl

device_ids-rest :
    (d : Device) (ds : List Device)
    → truthy (device_id d) ≡ false
    → device_ids (d ∷ ds) ≡ device_ids ds
unfolding device_ids
device_ids-rest d ds t = rw t refl

mem_rest : (x y : String) (ys : List String) → mem x (y ∷ ys) ≡ false → mem x ys ≡ false
unfolding mem
mem_rest x y ys h = ground (arith, h)

mem-later :
    (x : String) (d : Device) (ds : List Device)
    → mem x (device_ids (d ∷ ds)) ≡ false
    → mem x (device_ids ds) ≡ false
mem-later x d ds h = elim (Bool-cases (truthy (device_id d))) [
  | inl y ↦
      mem_rest x (device_id d) (device_ids ds)
        (subst (λ l. mem x l ≡ false) (device_ids-first d ds y) h)
  | inr n ↦ subst (λ l. mem x l ≡ false) (device_ids-rest d ds n) h
]

mem-queued :
    (x : String) {ds : List Device} {os : List DeviceOutcome} {ps : List CiPayload}
    → Sorts ds os ps
    → mem x (device_ids ds) ≡ false
    → mem x (ids_of ps) ≡ false
unfolding mem
mem-queued x all_sorted h = refl
mem-queued x (skip {d} {ds} i s) h = mem-queued x s (mem-later x d ds h)
mem-queued x (queue {d} {ds} {os} {p} {ps} i s) h =
    let rest = mem-queued x s (mem-later x d ds h) in
    let g = subst (λ l. mem x l ≡ false) (device_ids-first d ds i.has_id) h in
    rw i.device (ground (arith, g, rest))

Distinct-later :
    (d : Device) (ds : List Device) → Distinct (device_ids (d ∷ ds)) → Distinct (device_ids ds)
Distinct-later d ds h = elim (Bool-cases (truthy (device_id d))) [
  | inl y ↦ (subst Distinct (device_ids-first d ds y) h).1
  | inr n ↦ subst Distinct (device_ids-rest d ds n) h
]

pub Sorts-Distinct :
    {ds : List Device} {os : List DeviceOutcome} {ps : List CiPayload}
    → Sorts ds os ps
    → Distinct (device_ids ds)
    → Distinct (ids_of ps)
Sorts-Distinct all_sorted h = tt
Sorts-Distinct (skip {d} {ds} i s) h = Sorts-Distinct s (Distinct-later d ds h)
Sorts-Distinct (queue {d} {ds} {os} {p} {ps} i s) h =
    let g = subst Distinct (device_ids-first d ds i.has_id) h in
    (rw i.device (mem-queued (device_id d) s g.0), Sorts-Distinct s g.1)

waits :
    (d : Dict DeviceOutcome) (ps : List CiPayload) → Waiting d ps → All (HasOutcome d) (ids_of ps)
waits d [] h = tt
waits d (p ∷ ps) ((o, e, own, _), h) = ((o, e, own), waits d ps h)

none_held : (ids : List String) → All (λ id. mem id [] ≡ false) ids
unfolding mem
none_held [] = tt
none_held (id ∷ ids) = (refl, none_held ids)

pub start-Ready :
    (outcomes : Dict DeviceOutcome) (report : RunReport) (state : SyncState) (ps : List CiPayload)
    → Waiting outcomes ps
    → Distinct (ids_of ps)
    → Ready (start_writing outcomes report state) (ids_of ps)
start-Ready outcomes report state ps w d = record {
  indexed = waits outcomes ps w;
  distinct = d;
  fresh = none_held (ids_of ps);
}
