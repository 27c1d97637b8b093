-- ===== src/Sync/Collect/Limit.antt =====
-- The devices that a run keeps: the corporate ones in order, up to the limit.
use mac_service_now_cmdb.Base.{
  ℕ, zero, suc, ◌+◌, ◌-◌, ◌≤◌, ◌<◌, ◌≡◌, refl, sym, ap, String, true, false, Option, none, some,
  ◌⊎◌, inl, inr, List, [], ◌∷◌, ◌++◌, length, length-append, take, keep, arith, Bool-cases,
}
use mathlib.Core.List.{append-nil}
use mathlib.Core.Path.{subst}
use native.Mathlib.Nat.{zero-add}
use mac_service_now_cmdb.Errors.{Result, ok, err}
use mac_service_now_cmdb.Models.{RunReport}
use mac_service_now_cmdb.Sync.Collect.{
  Device, is_corporate, Stream, finished, yielded, all_of, reached, collect, noted, collect_devices,
  corporate,
}

-- The devices that a result has, if it has any.
abbrev pub Kept {ℓ} : {A : Type ℓ} → Result (List Device × A) → List Device → Type 0
Kept (ok (kept, _)) ds = kept ≡ ds
Kept (err _) ds = ⊥

append_cons :
    (ds : List Device) (d : Device) (es : List Device) → (ds ++ d ∷ []) ++ es ≡ ds ++ d ∷ es
append_cons [] d es = refl
append_cons (e ∷ ds) d es = ap (λ r. e ∷ r) (append_cons ds d es)

take-nil : (k : ℕ) → take {A = Device} k [] ≡ []
take-nil zero = refl
take-nil (suc k) = refl

module _ (ownership : String) where
  abbrev run : Option ℕ → Stream → List Device → ℕ → Result (List Device × ℕ)
  run = collect ownership

  module _ (d : Device) (ds : List Device) where
    corporate-out :
        is_corporate d ownership ≡ false → corporate ownership (d ∷ ds) ≡ corporate ownership ds
    corporate-out h = rw (h, corporate, keep) refl

    corporate-in :
        is_corporate d ownership ≡ true → corporate ownership (d ∷ ds) ≡ d ∷ corporate ownership ds
    corporate-in h = rw (h, corporate, keep) refl

  module _ (limit : Option ℕ) (d : Device) (s : Stream) (kept : List Device) (m : ℕ) where
    step_out :
        is_corporate d ownership ≡ false → run limit (yielded d s) kept m ≡ run limit s kept (m + 1)
    unfolding collect
    step_out h = rw (h, collect) refl

    step_in :
        is_corporate d ownership ≡ true
        → reached limit (kept ++ d ∷ []) ≡ false
        → run limit (yielded d s) kept m ≡ run limit s (kept ++ d ∷ []) (m + 1)
    unfolding collect
    step_in h r = rw (h, r, collect) refl

    step_stop :
        is_corporate d ownership ≡ true
        → reached limit (kept ++ d ∷ []) ≡ true
        → run limit (yielded d s) kept m ≡ ok (kept ++ d ∷ [], m + 1)
    unfolding collect
    step_stop h r = rw (h, r, collect) refl

  collect_all :
      (ds kept : List Device) (m : ℕ)
      → Kept (run none (all_of ds finished) kept m) (kept ++ corporate ownership ds)
  unfolding collect
  collect_all [] kept m = sym (append-nil kept)
  collect_all (d ∷ ds) kept m = elim (Bool-cases (is_corporate d ownership)) [
    | inl y ↦
        rw (step_in none d (all_of ds finished) kept m y refl, corporate-in d ds y)
          (subst (Kept (run none (all_of ds finished) (kept ++ d ∷ []) (m + 1)))
            (append_cons kept d (corporate ownership ds)) (collect_all ds (kept ++ d ∷ []) (m + 1)))
    | inr n ↦
        rw (step_out none d (all_of ds finished) kept m n, corporate-out d ds n)
          (collect_all ds kept (m + 1))
  ]

  -- One device less is wanted once one is kept.
  room :
      (tail : Stream) (n : ℕ) (kept : List Device) (d : Device) (c : List Device)
      → (tail ≡ finished) ⊎ (n ≤ length kept + length (d ∷ c))
      → (tail ≡ finished) ⊎ (n ≤ length (kept ++ d ∷ []) + length c)
  room tail n kept d c (inl e) = inl e
  room tail n kept d c (inr b) = inr (omega (arith, length-append kept (d ∷ [])))

  collect_some :
      (n : ℕ) (tail : Stream) (ds kept : List Device) (m : ℕ)
      → length kept < n
      → (tail ≡ finished) ⊎ (n ≤ length kept + length (corporate ownership ds))
      → Kept
          (run (some n) (all_of ds tail) kept m)
          (kept ++ take (n - length kept) (corporate ownership ds))
  unfolding collect
  collect_some n tail [] kept m b (inl e) =
      rw (e, take-nil (n - length kept)) (sym (append-nil kept))
  collect_some n tail [] kept m b (inr e) = absurd (omega arith)
  collect_some n tail (d ∷ ds) kept m b h = elim (Bool-cases (is_corporate d ownership)) [
    | inr out ↦
        rw (step_out (some n) d (all_of ds tail) kept m out, corporate-out d ds out)
          (collect_some n tail ds kept (m + 1) b (rw (corporate-out d ds out) at h))
    | inl y ↦
        let more = length-append kept (d ∷ []) in
        let step : n - length kept ≡ suc (n - length (kept ++ d ∷ [])) = omega (arith, more) in
        elim (Bool-cases (reached (some n) (kept ++ d ∷ []))) [
          | inl r ↦
              let last : n - length (kept ++ d ∷ []) ≡ zero = ground (arith, more) in
              rw (step_stop (some n) d (all_of ds tail) kept m y r, corporate-in d ds y, step, last)
                refl
          | inr r ↦
              rw (step_in (some n) d (all_of ds tail) kept m y r, corporate-in d ds y, step)
                (subst (Kept (run (some n) (all_of ds tail) (kept ++ d ∷ []) (m + 1)))
                  (append_cons kept d (take (n - length (kept ++ d ∷ [])) (corporate ownership ds)))
                  (collect_some n tail ds (kept ++ d ∷ []) (m + 1) (ground (arith, more))
                    (room tail n kept d (corporate ownership ds) (rw (corporate-in d ds y) at h))))
        ]
  ]

  noted-Kept :
      (limit : Option ℕ) (r : RunReport) (o : Result (List Device × ℕ)) (ds : List Device)
      → Kept o ds
      → Kept (noted limit r o) ds
  unfolding noted
  noted-Kept limit r (ok (kept, m)) ds h = h
  noted-Kept limit r (err e) ds h = h

  -- Without a limit a run keeps exactly the corporate devices that Graph lists, in order.
  pub collect_devices-all :
      (ds : List Device) (r : RunReport)
      → Kept (collect_devices ownership none (all_of ds finished) r) (corporate ownership ds)
  unfolding collect_devices
  collect_devices-all ds r =
      noted-Kept none r (run none (all_of ds finished) [] 0) (corporate ownership ds)
        (collect_all ds [] 0)

  -- With a limit that is not 0, a run over devices after which the list ends, or of which enough are
  -- corporate, keeps the first corporate ones up to the limit: with enough, it does not matter what
  -- follows them, not even an error.
  pub collect_devices-limit :
      (n : ℕ) (tail : Stream) (ds : List Device) (r : RunReport)
      → 0 < n
      → (tail ≡ finished) ⊎ (n ≤ length (corporate ownership ds))
      → Kept
          (collect_devices ownership (some n) (all_of ds tail) r)
          (take n (corporate ownership ds))
  unfolding collect_devices
  collect_devices-limit n tail ds r pos h =
      let whole : n - 0 ≡ n = omega arith in
      noted-Kept (some n) r (run (some n) (all_of ds tail) [] 0) (take n (corporate ownership ds))
        (rw whole at (collect_some n tail ds [] 0 pos (rw zero-add h)))
