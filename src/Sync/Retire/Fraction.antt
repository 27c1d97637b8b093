-- ===== src/Sync/Retire/Fraction.antt =====
-- How many devices one run can retire.
use mac_service_now_cmdb.Base.{
  ℕ, suc, ◌*◌, ◌^◌, ◌≤◌, ◌<◌, String, ◌≡◌, refl, ap, false, true, none, ◌⊎◌, inl, inr, List, [],
  ◌∷◌, length, arith,
}
use mathlib.Core.Path.{subst}
use mac_service_now_cmdb.Dict.{Dict}
use mac_service_now_cmdb.Json.Value.{pos}
use mac_service_now_cmdb.Errors.{service_now, Result, ok, err}
use mac_service_now_cmdb.Config.Floats.{Float, finite}
use mac_service_now_cmdb.Models.{RunReport}
use mac_service_now_cmdb.State.{SyncState, Entry, missing_since_last_run}
use mac_service_now_cmdb.Sync.Retire.Cases.{Allowed, retire-cases}
use mac_service_now_cmdb.Sync.Retire.{
  Settings, Update, update_of, Sweep, after_update, sweep, finish, known_total, exceeds, Retirement,
  retire_missing,
}

within_fraction :
    (f : Float) (n k missing known : ℕ)
    → f ≡ finite (pos n) k
    → exceeds f missing known ≡ false
    → missing * 10 ^ k ≤ n * known
unfolding exceeds
within_fraction f n k missing known e h =
    let g = subst (λ x. exceeds x missing known ≡ false) e h in ground (arith, g)

after_update-length :
    (u : Update) (j : String) (a : Result (Unit {0})) (s : Sweep) (n : ℕ)
    → length s.sent ≤ n
    → length (after_update u j a s).sent ≤ suc n
unfolding after_update
after_update-length u j (ok _) s n h = omega arith
after_update-length u j (err (service_now m)) s n h = omega arith
after_update-length u j (err e) s n h = omega arith

sweep-length :
    (cfg : Settings) (patch : Update → Result (Unit {0})) (missing : Dict Entry)
    → length (sweep cfg patch missing).sent ≤ length missing
unfolding sweep
sweep-length cfg patch [] = omega arith
sweep-length cfg patch ((j, e) ∷ missing) =
    after_update-length (update_of cfg e) j (patch (update_of cfg e)) (sweep cfg patch missing)
      (length missing) (sweep-length cfg patch missing)

finish-length :
    (sent : List Update) (r : Result (List String)) (report : RunReport) (state : SyncState) (n : ℕ)
    → length sent ≤ n
    → length (finish sent r report state).sent ≤ n
unfolding finish
finish-length sent (err e) report state n h = h
finish-length sent (ok ids) report state n h = h

module _ (cfg : Settings) (patch : Update → Result (Unit {0})) (percent : ℕ → ℕ → String)
    (current : List String) (state : SyncState) (report : RunReport) where
  -- Nothing is written and the state stays; or the configuration retires, sees the whole fleet and is
  -- no dry run, the missing devices are at most the fraction n / 10 ^ k of those that are remembered,
  -- and there is at most one update for each of them.
  abbrev pub IsBounded : ℕ → ℕ → Retirement → Type 0
  IsBounded n k r =
      ((r.sent ≡ []) × (r.state ≡ state) × (r.raised ≡ none))
      ⊎ ((cfg.retire_missing ≡ true)
          × (cfg.device_limit ≡ none)
          × (cfg.dry_run ≡ false)
          × (length (missing_since_last_run current state) * 10 ^ k ≤ n * known_total state)
          × (length r.sent ≤ length (missing_since_last_run current state)))

  Allowed-IsBounded :
      (n k : ℕ)
      → cfg.retire_max_fraction ≡ finite (pos n) k
      → (m : Dict Entry) → Allowed cfg patch percent current state report m
      → IsBounded n k (finish (sweep cfg patch m).sent (sweep cfg patch m).retired report state)
  Allowed-IsBounded n k e m a =
      let s = sweep cfg patch m in
      let total = ap (λ (x : Dict Entry). length x) a.missing in
      let bound =
        within_fraction cfg.retire_max_fraction n k (length m) (known_total state) e a.within in
      let swept =
        finish-length s.sent s.retired report state (length m) (sweep-length cfg patch m) in
      inr (
        a.enabled,
        a.unlimited,
        a.wet,
        subst (λ l. l * 10 ^ k ≤ n * known_total state) total bound,
        subst (λ l. length (finish s.sent s.retired report state).sent ≤ l) total swept,
      )

  -- When the fraction of the configuration is the number n / 10 ^ k, and the number of remembered
  -- devices times 10 ^ k is below 2 ^ 53, so that floats compare as the numbers do, a retirement either
  -- writes nothing, keeps the state and raises nothing; or the configuration retires, has no device
  -- limit and is no dry run, the missing devices are at most that fraction of the devices that are
  -- remembered (of one, if there is none), and it sends at most one update for each of them, whatever
  -- the service answers.
  pub retire_missing-IsBounded :
      (n k : ℕ)
      → cfg.retire_max_fraction ≡ finite (pos n) k
      → known_total state * 10 ^ k < 9007199254740992
      → IsBounded n k (retire_missing percent cfg patch current state report)
  retire_missing-IsBounded n k e exact =
      retire-cases cfg patch percent current state report (IsBounded n k)
        (λ r f. inl (refl, refl, refl)) (Allowed-IsBounded n k e)
