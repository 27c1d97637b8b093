-- ===== src/Http/Request/Retries.antt =====
-- How a call ends: with the first answer that settles it, within `max_retries` + 1 attempts, or with
-- the error of the last attempt.
use mac_service_now_cmdb.Base.{
  ℕ, zero, suc, ◌+◌, ◌≤◌, ◌<◌, ◌≡◌, refl, true, false, ◌⊎◌, inl, inr, Option, none, List, [], ◌∷◌,
  ◌++◌, ltb, length, length-append, All, All-append, arith,
}
use native.Mathlib.Decide.{dec_le}
use mac_service_now_cmdb.Errors.{Error, retryable, Result, ok, err}
use mac_service_now_cmdb.Http.Response.{Response}
use mac_service_now_cmdb.Http.Backoff.{max_single_backoff, backoff_seconds, backoff_seconds-le}
use mac_service_now_cmdb.Http.Request.{
  Attempt, Call, Verdict, settled, transient, judge, attempts, request,
}

Verdict-cases :
    (v : Verdict)
    → ((r : Response) × (v ≡ settled r))
      ⊎ ((e : Error) × (after : Option ℕ) × (v ≡ transient e after))
Verdict-cases (settled r) = inl (r, refl)
Verdict-cases (transient e after) = inr (e, after, refl)

module _ (c : Call) (max_retries : ℕ) (now : ℕ → ℕ) (jitter : ℕ → ℕ) (send : ℕ → Attempt) where
  abbrev verdict : ℕ → Verdict
  verdict attempt = judge c (now attempt) (send attempt)

  -- After `k` errors to retry, from an attempt on, the answer `r` settles the call.
  abbrev pub Settles : ℕ → ℕ → Response → Type 0
  Settles zero attempt r = judge c (now attempt) (send attempt) ≡ settled r
  Settles (suc k) attempt r =
      ((e : Error) × (after : Option ℕ) × (judge c (now attempt) (send attempt)
          ≡ transient e after))
      × Settles k (attempt + 1) r

  -- From an attempt on, `k` more and then one more meet errors to retry, and the last error is `e`.
  abbrev pub Exhausts : ℕ → ℕ → Error → Type 0
  Exhausts zero attempt e =
      (after : Option ℕ) × (judge c (now attempt) (send attempt) ≡ transient e after)
  Exhausts (suc k) attempt e =
      ((e' : Error) × (after : Option ℕ) × (judge c (now attempt) (send attempt)
          ≡ transient e' after))
      × Exhausts k (attempt + 1) e

  abbrev run : ℕ → ℕ → Error → List ℕ → Result Response × List ℕ
  run = attempts c max_retries now jitter send

  module _ (rounds attempt : ℕ) (last : Error) (waits : List ℕ) where
    step-settled :
        (r : Response)
        → judge c (now attempt) (send attempt) ≡ settled r
        → run (suc rounds) attempt last waits ≡ (ok r, waits)
    unfolding attempts
    step-settled r h = rw (h, attempts) refl

    step-last :
        (e : Error) (after : Option ℕ)
        → judge c (now attempt) (send attempt) ≡ transient e after
        → max_retries < attempt
        → run (suc rounds) attempt last waits ≡ (err e, waits)
    unfolding attempts
    step-last e after h b =
        let stop : ltb max_retries attempt ≡ true = ground arith in rw (h, stop, attempts) refl

    step-again :
        (e : Error) (after : Option ℕ)
        → judge c (now attempt) (send attempt) ≡ transient e after
        → attempt ≤ max_retries
        → run (suc rounds) attempt last waits
          ≡ run rounds (attempt + 1) e (waits ++ backoff_seconds jitter attempt after 1000 ∷ [])
    unfolding attempts
    step-again e after h b =
        let again : ltb max_retries attempt ≡ false = ground arith in rw (h, again, attempts) refl

  attempts-Settles :
      (rounds k attempt : ℕ) (last : Error) (waits : List ℕ) (r : Response)
      → k + 1 ≤ rounds
      → attempt + k ≤ max_retries + 1
      → Settles k attempt r
      → ((run rounds attempt last waits).0 ≡ ok r)
        × (length (run rounds attempt last waits).1 ≡ length waits + k)
  attempts-Settles zero k attempt last waits r f b h = absurd (omega arith)
  attempts-Settles (suc rounds) zero attempt last waits r f b h =
      rw (step-settled rounds attempt last waits r h) (refl, omega arith)
  attempts-Settles (suc rounds) (suc k) attempt last waits r f b ((e, after, t), h) =
      let w = backoff_seconds jitter attempt after 1000 in
      let ih =
        attempts-Settles rounds k (attempt + 1) e (waits ++ w ∷ []) r (omega arith) (omega arith)
          h in
      rw (step-again rounds attempt last waits e after t (omega arith))
        (ih.0, omega (arith, ih.1, length-append waits (w ∷ [])))

  attempts-Exhausts :
      (k attempt : ℕ) (last : Error) (waits : List ℕ) (e : Error)
      → attempt + k ≡ max_retries + 1
      → Exhausts k attempt e
      → ((run (suc k) attempt last waits).0 ≡ err e)
        × (length (run (suc k) attempt last waits).1 ≡ length waits + k)
  attempts-Exhausts zero attempt last waits e b (after, t) =
      rw (step-last 0 attempt last waits e after t (omega arith)) (refl, omega arith)
  attempts-Exhausts (suc k) attempt last waits e b ((e', after, t), h) =
      let w = backoff_seconds jitter attempt after 1000 in
      let ih = attempts-Exhausts k (attempt + 1) e' (waits ++ w ∷ []) e (omega arith) h in
      rw (step-again (suc k) attempt last waits e' after t (omega arith))
        (ih.0, omega (arith, ih.1, length-append waits (w ∷ [])))

  -- At most `max_retries` waits, each within the bound.
  abbrev pub Waits : List ℕ → Type 0
  Waits waits = (length waits ≤ max_retries) × All (λ w. w ≤ max_single_backoff) waits

  attempts_bounds :
      (rounds attempt : ℕ) (last : Error) (waits : List ℕ)
      → ((m : ℕ) → jitter m ≤ m)
      → length waits + 1 ≡ attempt
      → Waits waits
      → Waits (run rounds attempt last waits).1
  unfolding attempts
  attempts_bounds zero attempt last waits j l a = a
  attempts_bounds (suc rounds) attempt last waits j l a =
      elim (Verdict-cases (judge c (now attempt) (send attempt))) [
        | inl (r, s) ↦ rw (step-settled rounds attempt last waits r s) a
        | inr (e, after, t) ↦ elim (dec_le attempt max_retries) [
          | no stop ↦ rw (step-last rounds attempt last waits e after t (omega arith)) a
          | yes again ↦
              let w = backoff_seconds jitter attempt after 1000 in
              rw (step-again rounds attempt last waits e after t again) (
                attempts_bounds rounds (attempt + 1) e (waits ++ w ∷ []) j
                  (omega (arith, length-append waits (w ∷ [])))
                  (
                    omega (arith, length-append waits (w ∷ [])),
                    All-append (λ x. x ≤ max_single_backoff) waits (w ∷ []) a.1
                        (backoff_seconds-le jitter attempt after 1000 j, tt),
                  ))
        ]
      ]

  -- A call whose first `k` attempts meet errors to retry and whose next is answered for good returns
  -- that answer after `k` waits, if `k` is not above `max_retries`.
  pub request-Settles :
      (k : ℕ) (r : Response)
      → k ≤ max_retries
      → Settles k 1 r
      → ((request c max_retries now jitter send).0 ≡ ok r)
        × (length (request c max_retries now jitter send).1 ≡ k)
  unfolding request
  request-Settles k r b h =
      let s =
        attempts-Settles (max_retries + 1) k 1 (retryable "" 0 none) [] r (omega arith)
          (omega arith) h in
      (s.0, omega (arith, s.1))

  -- If all `max_retries` + 1 attempts meet errors to retry, the call raises the last one, after
  -- `max_retries` waits.
  pub request-Exhausts :
      (e : Error)
      → Exhausts max_retries 1 e
      → ((request c max_retries now jitter send).0 ≡ err e)
        × (length (request c max_retries now jitter send).1 ≡ max_retries)
  unfolding request
  request-Exhausts e h =
      let rounds : max_retries + 1 ≡ suc max_retries = omega arith in
      let s = attempts-Exhausts max_retries 1 (retryable "" 0 none) [] e (omega arith) h in
      rw rounds (s.0, omega (arith, s.1))

  -- If the jitter stays below its ceiling, then whatever the network does a call waits at most
  -- `max_retries` times, and never longer than two minutes at once.
  pub request_bounds : ((m : ℕ) → jitter m ≤ m) → Waits (request c max_retries now jitter send).1
  unfolding request
  request_bounds j =
      attempts_bounds (max_retries + 1) 1 (retryable "" 0 none) [] j (omega arith) (omega arith, tt)
