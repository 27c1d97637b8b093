-- ===== src/Sync/Write/Known.antt =====
-- What the state learns from the results of a batch.
use mac_service_now_cmdb.Base.{
  String, ◌≡◌, ◌≢◌, refl, ◌∙◌, Option, none, some, ◌⊎◌, inl, inr, List, [], ◌∷◌, All, ◌==◌, ◌&&◌,
  not, Bool-cases,
}
use mac_service_now_cmdb.Text.{truthy}
use mac_service_now_cmdb.Dict.{lookup}
use mac_service_now_cmdb.Dict.Laws.{IsDict}
use mac_service_now_cmdb.Models.{DeviceOutcome}
use mac_service_now_cmdb.State.{SyncState}
use mac_service_now_cmdb.State.Memory.{observe_ne, observe-IsDict}
use mac_service_now_cmdb.Writers.Types.{WriteResult}
use mac_service_now_cmdb.Sync.Write.{
  Progress, outcome_of, learn, learned, settle, apply_result, apply_results,
}

-- A result that tells nothing of a device: it is of another device, or it has no CI.
abbrev pub IsSilent : String → WriteResult → Type 0
IsSilent id r = (r.intune_id ≢ id) ⊎ (r.sys_id ≡ none)

learn-lookup :
    (now id : String) (r : WriteResult) (o : DeviceOutcome) (ci : Option String) (s : SyncState)
    → (r.intune_id ≢ id) ⊎ (ci ≡ none)
    → lookup id (learn now r o ci s).devices ≡ lookup id s.devices
unfolding learn
learn-lookup now id r o none s h = refl
learn-lookup now id r o (some ci) s (inr e) = absurd (cc)
learn-lookup now id r o (some ci) s (inl ne) =
    elim (Bool-cases (truthy ci && not (o.action == "error"))) [
      | inl y ↦ rw y (observe_ne now r.intune_id (some ci) o.device_name o.class_name s id ne)
      | inr n ↦ rw n refl
    ]

learn-IsDict :
    (now : String) (r : WriteResult) (o : DeviceOutcome) (ci : Option String) (s : SyncState)
    → IsDict s.devices
    → IsDict (learn now r o ci s).devices
unfolding learn
learn-IsDict now r o none s h = h
learn-IsDict now r o (some ci) s h = elim (Bool-cases (truthy ci && not (o.action == "error"))) [
  | inl y ↦ rw y (observe-IsDict now r.intune_id (some ci) o.device_name o.class_name s h)
  | inr n ↦ rw n h
]

settle-lookup :
    (now id : String) (r : WriteResult) (o : Option DeviceOutcome) (p : Progress)
    → IsSilent id r
    → lookup id (settle now r o p).state.devices ≡ lookup id p.state.devices
unfolding settle learned
settle-lookup now id r none p h = refl
settle-lookup now id r (some o) p h = learn-lookup now id r (outcome_of r o) r.sys_id p.state h

-- The state keeps what it knew of a device that no result tells of: results without a CI, such as
-- every error of the bulk writer, and results of other devices leave it as it was.
apply_results-silent :
    (now id : String) (rs : List WriteResult) (p : Progress)
    → All (IsSilent id) rs
    → lookup id (apply_results now rs p).state.devices ≡ lookup id p.state.devices
unfolding apply_results apply_result
apply_results-silent now id [] p h = refl
apply_results-silent now id (r ∷ rs) p h =
    apply_results-silent now id rs (apply_result now r p) h.1
    ∙ settle-lookup now id r (lookup r.intune_id p.outcomes) p h.0
