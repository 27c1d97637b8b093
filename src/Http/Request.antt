-- ===== src/Http/Request.antt =====
-- `RetryingClient.request`
pub mod Retries
use Prim.Native.String
use mac_service_now_cmdb.Base.{
  ℕ, zero, suc, ◌+◌, String, Bool, true, false, Option, none, some, List, [], ◌∷◌, ◌++◌, eqb, ltb,
  ◌||◌, any, if◌then◌else◌,
}
use mac_service_now_cmdb.Text.{join}
use mac_service_now_cmdb.Json.Show.{show_nat}
use mac_service_now_cmdb.Errors.{Error, retryable, Result, ok, err}
use mac_service_now_cmdb.Http.Response.{Response, is_success, snippet}
use mac_service_now_cmdb.Http.Backoff.{parse_retry_after, parse_rate_limit_reset, backoff_seconds}

-- `RETRYABLE_STATUS`
unfoldable pub is_retryable : ℕ → Bool
is_retryable s = any (eqb s) (408 ∷ 429 ∷ 500 ∷ 502 ∷ 503 ∷ 504 ∷ [])

-- What one attempt meets: an answer, or a `TimeoutException` or `TransportError`.
pub data Attempt : Type 0 where
  failed : String → Attempt
  answered : Response → Attempt

-- The call: the method and the URL for messages, the statuses that are expected, if any are named.
pub record Call : Type 0 where
  pub method : String
  pub url : String
  pub expected : Option (List ℕ)

unfoldable pub is_expected : Call → Response → Bool
unfolding is_success
is_expected c r = elim c.expected [ none ↦ is_success r | some codes ↦ any (eqb r.status) codes ]

-- Either the call ends with this response, or there is an error to retry.
pub data Verdict : Type 0 where
  settled : Response → Verdict
  transient : Error → Option ℕ → Verdict

hint : ℕ → Response → Option ℕ
hint now r = elim (parse_retry_after now r.retry_after) [
  | none ↦ parse_rate_limit_reset now r.rate_limit_reset
  | some t ↦ some t
]

unfoldable pub judge : Call → ℕ → Attempt → Verdict
unfolding hint is_expected is_retryable snippet join show_nat
judge c now (failed m) =
    transient (retryable (join "" (c.method ∷ " " ∷ c.url ∷ " failed: " ∷ m ∷ [])) 0 none) none
judge c now (answered r) =
    if is_expected c r
    then settled r
    else if is_retryable r.status
    then transient
        (retryable
          (join ""
            (c.method ∷ " " ∷ c.url ∷ " -> " ∷ show_nat r.status ∷ ": " ∷ snippet 400 r ∷ []))
          r.status (hint now r))
        (hint now r)
    else settled r

module _ (c : Call) (max_retries : ℕ) (now : ℕ → ℕ) (jitter : ℕ → ℕ) (send : ℕ → Attempt) where
  -- The rounds left of `range(1, max_retries + 2)`, the attempt, the last error and the waits so far.
  attempts : ℕ → ℕ → Error → List ℕ → Result Response × List ℕ
  attempts zero attempt last waits = (err last, waits)
  attempts (suc rounds) attempt last waits = elim (judge c (now attempt) (send attempt)) [
    | settled r ↦ (ok r, waits)
    | transient e after ↦ elim (ltb max_retries attempt) [
      | true ↦ (err e, waits)
      | false ↦
          attempts rounds (attempt + 1) e (waits ++ backoff_seconds jitter attempt after 1000 ∷ [])
    ]
  ]

  -- The response or the error, and the waits in order. The error that the loop starts with is never
  -- raised: the first round settles or replaces it.
  unfoldable pub request : Result Response × List ℕ
  unfolding attempts
  request = attempts (max_retries + 1) 1 (retryable "" 0 none) []
