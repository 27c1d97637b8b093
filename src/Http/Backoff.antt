-- ===== src/Http/Backoff.antt =====
-- http.py: how long a retry waits. Headers that give numbers give milliseconds here.
use mac_service_now_cmdb.Base.{
  ℕ, zero, suc, ◌-◌, ◌*◌, ◌^◌, ◌≤◌, Option, none, some, min, ltb, if◌then◌else◌, arith,
}
use mac_service_now_cmdb.Json.Value.{ℤ, pos, negsuc}
use mac_service_now_cmdb.Http.Response.{RetryAfter, absent, malformed, seconds, date}

-- `MAX_SINGLE_BACKOFF_SECONDS`
abbrev pub max_single_backoff : ℕ
max_single_backoff = 120000

-- `max(0, n)`
abbrev pub at_least_zero : ℤ → ℕ
at_least_zero (pos n) = n
at_least_zero (negsuc n) = 0

-- A date in the past is no wait.
unfoldable pub parse_retry_after : ℕ → RetryAfter → Option ℕ
parse_retry_after now absent = none
parse_retry_after now malformed = none
parse_retry_after now (seconds n) = some (at_least_zero n)
parse_retry_after now (date t) = some (t - now)

-- More than 1,000,000,000 seconds is a date.
unfoldable pub parse_rate_limit_reset : ℕ → Option ℤ → Option ℕ
parse_rate_limit_reset now none = none
parse_rate_limit_reset now (some (negsuc n)) = none
parse_rate_limit_reset now (some (pos zero)) = none
parse_rate_limit_reset now (some (pos (suc n))) =
    some (if ltb 1000000000000 (suc n) then suc n - now else suc n)

-- The hint of the server wins; otherwise `jitter c` is `random.uniform(0, c)`. `attempt` is 1-based.
unfoldable pub backoff_seconds : (ℕ → ℕ) → ℕ → Option ℕ → ℕ → ℕ
backoff_seconds jitter attempt (some r) base = min r max_single_backoff
backoff_seconds jitter attempt none base =
    jitter (min (base * 2 ^ (attempt - 1)) max_single_backoff)

-- No single wait is longer than two minutes, if the jitter stays below its ceiling.
pub backoff_seconds-le :
    (jitter : ℕ → ℕ) (attempt : ℕ) (retry_after : Option ℕ) (base : ℕ)
    → ((c : ℕ) → jitter c ≤ c)
    → backoff_seconds jitter attempt retry_after base ≤ max_single_backoff
unfolding backoff_seconds
backoff_seconds-le jitter attempt (some r) base h = omega arith
backoff_seconds-le jitter attempt none base h =
    omega (arith, h (min (base * 2 ^ (attempt - 1)) max_single_backoff))
