-- ===== src/Sync/Retire/Safety.antt =====
-- What the retirement cannot do: touch a device that Intune still reports, or write anything when a
-- guard holds it back.
use mac_service_now_cmdb.Base.{
  ℕ, String, ◌≡◌, ◌≢◌, refl, sym, ap, ◌∙◌, Bool, true, false, Option, none, some, ◌⊎◌, inl, inr,
  List, [], ◌∷◌, length, All, arith, ◌==◌, if◌then◌else◌, eq_iff, not, ◌&&◌,
}
use mathlib.Core.Path.{subst}
use mac_service_now_cmdb.Sync.Retire.Cases.{Allowed, retire-cases}
use mathlib.Core.Bool.{true≢false}
use mac_service_now_cmdb.Dict.{Dict, lookup, mem}
use mac_service_now_cmdb.Dict.Laws.{IsDict}
use mac_service_now_cmdb.Json.Value.{get, is_true}
use mac_service_now_cmdb.Errors.{service_now, Result, ok, err}
use mac_service_now_cmdb.Models.{RunReport}
use mac_service_now_cmdb.State.{SyncState, Entry, found_or_new, missing_since_last_run}
use mac_service_now_cmdb.State.Memory.{
  absent, missing_since_last_run_lem, missing_since_last_run-IsDict, lookup-forget,
}
use mac_service_now_cmdb.Sync.Retire.{
  Settings, Update, update_of, Sweep, after_update, sweep, finish, known_total, exceeds,
  retire_missing,
}

-- The ids of a sweep do not hold this one.
abbrev pub Spares : String → Result (List String) → Type 0
Spares id (ok ids) = mem id ids ≡ false
Spares id (err _) = Unit

module _ (cfg : Settings) (patch : Update → Result (Unit {0})) where
  Spares-cons :
      (id j : String) (r : Result (List String))
      → (j == id) ≡ false
      → Spares id r
      → Spares id (elim r [ ok ids ↦ ok (j ∷ ids) | err e ↦ err e ])
  unfolding mem
  Spares-cons id j (ok ids) ne h = ground arith
  Spares-cons id j (err e) ne h = tt

  after_update-Spares :
      (u : Update) (id j : String) (a : Result (Unit {0})) (s : Sweep)
      → (j == id) ≡ false
      → Spares id s.retired
      → Spares id (after_update u j a s).retired
  unfolding after_update
  after_update-Spares u id j (ok _) s ne h = Spares-cons id j s.retired ne h
  after_update-Spares u id j (err (service_now m)) s ne h = h
  after_update-Spares u id j (err e) s ne h = tt

  sweep-Spares :
      (id : String) (missing : Dict Entry)
      → lookup id missing ≡ none
      → Spares id (sweep cfg patch missing).retired
  unfolding sweep lookup mem
  sweep-Spares id [] h = refl
  sweep-Spares id ((j, e) ∷ missing) h =
      let ne : (j == id) ≡ false = ground arith in
      after_update-Spares (update_of cfg e) id j (patch (update_of cfg e)) (sweep cfg patch missing)
        ne (sweep-Spares id missing (rw ne at h))

  -- An update for an entry of the dictionary.
  abbrev pub IsFor : Dict Entry → Update → Type 0
  IsFor missing u =
      (id : String) × (e : Entry) × (lookup id missing ≡ some e) × (u ≡ update_of cfg e)

  after_update-All :
      (P : Update → Type 0) (u : Update) (j : String) (a : Result (Unit {0})) (s : Sweep)
      → P u
      → All P s.sent
      → All P (after_update u j a s).sent
  unfolding after_update
  after_update-All P u j (ok _) s pu h = (pu, h)
  after_update-All P u j (err (service_now m)) s pu h = (pu, h)
  after_update-All P u j (err e) s pu h = (pu, tt)

  IsFor-cons :
      (j : String) (e : Entry) (missing : Dict Entry)
      → lookup j missing ≡ none
      → (us : List Update) → All (IsFor missing) us
      → All (IsFor ((j, e) ∷ missing)) us
  unfolding lookup
  IsFor-cons j e missing fresh [] h = tt
  IsFor-cons j e missing fresh (u ∷ us) ((id, f, l, p), h) =
      ((id, f, ground (arith, eq_iff j id), p), IsFor-cons j e missing fresh us h)

  sweep-IsFor :
      (missing : Dict Entry) → IsDict missing → All (IsFor missing) (sweep cfg patch missing).sent
  unfolding sweep lookup
  sweep-IsFor [] h = tt
  sweep-IsFor ((j, e) ∷ missing) h =
      after_update-All (IsFor ((j, e) ∷ missing)) (update_of cfg e) j (patch (update_of cfg e))
        (sweep cfg patch missing) (j, e, ground (arith, eq_iff j j), refl)
        (IsFor-cons j e missing h.0 (sweep cfg patch missing).sent (sweep-IsFor missing h.1))

  finish-lookup :
      (id : String) (sent : List Update) (r : Result (List String)) (report : RunReport)
      (state : SyncState)
      → Spares id r
      → lookup id (finish sent r report state).state.devices ≡ lookup id state.devices
  unfolding finish
  finish-lookup id sent (err e) report state h = refl
  finish-lookup id sent (ok ids) report state h = lookup-forget ids id state ∙ rw h refl

  sent-finish :
      (sent : List Update) (r : Result (List String)) (report : RunReport) (state : SyncState)
      → (finish sent r report state).sent ≡ sent
  unfolding finish
  sent-finish sent (err e) report state = refl
  sent-finish sent (ok ids) report state = refl

  module _ (percent : ℕ → ℕ → String) (current : List String) (state : SyncState)
      (report : RunReport) where
    absent-current :
        (id : String) (o : Option Entry) → mem id current ≡ true → absent current id o ≡ none
    absent-current id none h = refl
    absent-current id (some e) h = rw h refl

    -- In a state in which no id stands twice, a retirement leaves what is remembered of a device that
    -- Intune still reports, whatever the service answers.
    pub retire_missing-current :
        (id : String)
        → IsDict state.devices
        → mem id current ≡ true
        → lookup id (retire_missing percent cfg patch current state report).state.devices
          ≡ lookup id state.devices
    retire_missing-current id dict h =
        retire-cases cfg patch percent current state report
          (λ r. lookup id r.state.devices ≡ lookup id state.devices) (λ r f. refl)
          (λ m a.
            finish-lookup id (sweep cfg patch m).sent (sweep cfg patch m).retired report state (
              sweep-Spares id m (
                ap (lookup id) a.missing
                ∙ missing_since_last_run_lem current id state dict
                ∙ absent-current id (lookup id state.devices) h)))

    -- An update of a device that is remembered with a true `sys_id` and that Intune does not report.
    abbrev pub IsForMissing : Update → Type 0
    IsForMissing u =
        (id : String) × (e : Entry) × (lookup id state.devices ≡ some e)
        × (mem id current ≡ false)
        × (is_true (get "sys_id" e) ≡ true)
        × (u ≡ update_of cfg e)

    kept-some :
        (b c : Bool) (f e : Entry)
        → (if not b && c then some f else none) ≡ some e
        → (some f ≡ some e) × (b ≡ false) × (c ≡ true)
    kept-some true c f e h = absurd (cc)
    kept-some false true f e h = (h, refl, refl)
    kept-some false false f e h = absurd (cc)

    absent-some :
        (id : String) (o : Option Entry) (e : Entry)
        → absent current id o ≡ some e
        → (o ≡ some e) × (mem id current ≡ false) × (is_true (get "sys_id" e) ≡ true)
    absent-some id none e h = absurd (cc)
    absent-some id (some f) e h =
        let k = kept-some (mem id current) (is_true (get "sys_id" f)) f e h in
        (k.0, k.1, ap (λ o. is_true (get "sys_id" (found_or_new o))) (sym k.0) ∙ k.2)

    for-missing :
        (m : Dict Entry)
        → IsDict state.devices
        → Allowed cfg patch percent current state report m
        → (us : List Update) → All (IsFor m) us
        → All IsForMissing us
    for-missing m dict a [] h = tt
    for-missing m dict a (u ∷ us) ((id, e, l, p), h) =
        let known = absent-some id (lookup id state.devices) e (
          sym (missing_since_last_run_lem current id state dict)
          ∙ ap (lookup id) (sym a.missing)
          ∙ l) in
        ((id, e, known.0, known.1, known.2, p), for-missing m dict a us h)

    -- In a state in which no id stands twice, the updates that a retirement sends are all for devices
    -- that are remembered with a true `sys_id` and that Intune no longer reports, with the class and
    -- the `sys_id` that are remembered for them.
    pub retire_missing-targets :
        IsDict state.devices
        → All IsForMissing (retire_missing percent cfg patch current state report).sent
    retire_missing-targets dict =
        retire-cases cfg patch percent current state report (λ r. All IsForMissing r.sent)
          (λ r f. tt)
          (λ m a.
            rw (sent-finish (sweep cfg patch m).sent (sweep cfg patch m).retired report state) (
              for-missing m dict a (sweep cfg patch m).sent (
                sweep-IsFor m (
                  subst IsDict (sym a.missing)
                    (missing_since_last_run-IsDict current state dict)))))

    denied :
        (m : Dict Entry)
        → Allowed cfg patch percent current state report m
        → (cfg.retire_missing ≡ false)
          ⊎ (cfg.device_limit ≢ none)
          ⊎ (cfg.dry_run ≡ true)
          ⊎ (exceeds cfg.retire_max_fraction
                (length (missing_since_last_run current state))
                (known_total state)
              ≡ true)
        → ⊥
    denied m a (inl off) = cc
    denied m a (inr (inl limited)) = limited a.unlimited
    denied m a (inr (inr (inl dry))) = cc
    denied m a (inr (inr (inr over))) = true≢false (
        sym over
        ∙ ap (λ d. exceeds cfg.retire_max_fraction (length d) (known_total state)) (sym a.missing)
        ∙ a.within)

    -- A run that does not retire, that has a device limit, that is a dry run or whose missing devices
    -- are more than the fraction allowed sends no update, keeps the state and raises nothing.
    pub retire_missing-guards :
        (cfg.retire_missing ≡ false)
          ⊎ (cfg.device_limit ≢ none)
          ⊎ (cfg.dry_run ≡ true)
          ⊎ (exceeds cfg.retire_max_fraction
                (length (missing_since_last_run current state))
                (known_total state)
              ≡ true)
        → ((retire_missing percent cfg patch current state report).sent ≡ [])
          × ((retire_missing percent cfg patch current state report).state ≡ state)
          × ((retire_missing percent cfg patch current state report).raised ≡ none)
    retire_missing-guards g =
        retire-cases cfg patch percent current state report
          (λ r. (r.sent ≡ []) × (r.state ≡ state) × (r.raised ≡ none)) (λ r f. (refl, refl, refl))
          (λ m a. absurd (denied m a g))
