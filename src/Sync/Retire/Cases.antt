-- ===== src/Sync/Retire/Cases.antt =====
-- What a retirement can come to.
use mac_service_now_cmdb.Base.{
  ℕ, String, ◌≡◌, refl, true, false, Option, none, some, List, [], ◌∷◌, length, if-elim,
}
use mac_service_now_cmdb.Dict.{Dict}
use mac_service_now_cmdb.Errors.{Result, ok, err}
use mac_service_now_cmdb.Models.{RunReport}
use mac_service_now_cmdb.State.{SyncState, Entry, missing_since_last_run}
use mac_service_now_cmdb.Sync.Retire.{
  Settings, Update, sweep, Retirement, untouched, finish, known_total, exceeds, guarded,
  unless_empty, unless_limited, retire_missing,
}
use mac_service_now_cmdb.Models.Follows.{
  Follows, Follows-refl, same-Follows, warn-Follows, degrade-Follows,
}

module _ (cfg : Settings) (patch : Update → Result (Unit {0})) (percent : ℕ → ℕ → String)
    (current : List String) (state : SyncState) (report : RunReport) where
  -- What allows the retirement of these devices.
  pub record Allowed (m : Dict Entry) : Type 0 where
    pub missing : m ≡ missing_since_last_run current state
    pub enabled : cfg.retire_missing ≡ true
    pub unlimited : cfg.device_limit ≡ none
    pub wet : cfg.dry_run ≡ false
    pub within : exceeds cfg.retire_max_fraction (length m) (known_total state) ≡ false

  -- All that a retirement can come to: nothing is written and the state stays, or the sweep over the
  -- missing devices is carried out.
  module _ (P : Retirement → Type 0)
      (idle : (r : RunReport) → Follows report r → P (untouched r state))
      (swept : (m : Dict Entry)
        → Allowed m
        → P (finish (sweep cfg patch m).sent (sweep cfg patch m).retired report state)) where
    guarded-cases :
        (m : Dict Entry)
        → m ≡ missing_since_last_run current state
        → cfg.retire_missing ≡ true
        → cfg.device_limit ≡ none
        → P (guarded percent cfg patch m state report)
    unfolding guarded
    guarded-cases m e on u =
        if-elim P (exceeds cfg.retire_max_fraction (length m) (known_total state)) _ _
          (λ y. idle _ (degrade-Follows _ report))
          (λ n.
            if-elim P cfg.dry_run _ _ (λ y. idle _ (warn-Follows _ report))
              (λ d.
                swept m (record { missing = e; enabled = on; unlimited = u; wet = d; within = n })))

    empty-cases :
        (m : Dict Entry)
        → m ≡ missing_since_last_run current state
        → cfg.retire_missing ≡ true
        → cfg.device_limit ≡ none
        → P (unless_empty percent cfg patch m state report)
    unfolding unless_empty
    empty-cases [] e on u = idle report (Follows-refl report)
    empty-cases (x ∷ m) e on u = guarded-cases (x ∷ m) e on u

    limited-cases :
        (limit : Option ℕ)
        → cfg.retire_missing ≡ true
        → cfg.device_limit ≡ limit
        → P (unless_limited percent cfg patch limit current state report)
    unfolding unless_limited
    limited-cases none on u = empty-cases (missing_since_last_run current state) refl on u
    limited-cases (some n) on u = idle _ (warn-Follows _ report)

    pub retire-cases : P (retire_missing percent cfg patch current state report)
    unfolding retire_missing
    retire-cases =
        if-elim P cfg.retire_missing _ _ (λ y. limited-cases cfg.device_limit y refl)
          (λ n. idle report (Follows-refl report))

  finish-Follows :
      (sent : List Update) (r : Result (List String))
      → Follows report (finish sent r report state).report
  unfolding finish
  finish-Follows sent (err e) = Follows-refl report
  finish-Follows sent (ok ids) =
      same-Follows report (record report { retired = length ids }) refl refl refl refl refl refl
        (λ d. d)

  -- A retirement keeps the outcomes of the report, and what had degraded it.
  pub retire_missing-Follows :
      Follows report (retire_missing percent cfg patch current state report).report
  retire_missing-Follows =
      retire-cases (λ t. Follows report t.report) (λ r f. f)
        (λ m a. finish-Follows (sweep cfg patch m).sent (sweep cfg patch m).retired)
