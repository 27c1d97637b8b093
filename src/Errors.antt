-- ===== src/Errors.antt =====
-- errors.py: the exceptions of the connector as values. `SyncError` is the base of all but
-- `other`, which stands for a Python exception that is none of these.
pub mod Gives
use mac_service_now_cmdb.Base.{ℕ, String, Bool, true, false, Option, ◌≡◌}

pub data Error : Type 0 where
  config auth graph graph_bad_request service_now value_error safety_limit : String → Error
  retryable : String → ℕ → Option ℕ → Error
  other : String → Error

pub data Result {ℓ} (A : Type ℓ) : Type ℓ where
  ok : A → Result A
  err : Error → Result A

infixl 5 ◌>>=◌
abbrev pub ◌>>=◌ {ℓ κ} : {A : Type ℓ} {B : Type κ} → Result A → (A → Result B) → Result B
ok a >>= f = f a
err e >>= f = err e

-- `except SyncError`
unfoldable pub is_sync_error : Error → Bool
is_sync_error (value_error _) = false
is_sync_error (other _) = false
is_sync_error _ = true

-- `str(exc)`
abbrev pub text_of : Error → String
text_of (config s) = s
text_of (auth s) = s
text_of (graph s) = s
text_of (graph_bad_request s) = s
text_of (service_now s) = s
text_of (value_error s) = s
text_of (safety_limit s) = s
text_of (retryable s _ _) = s
text_of (other s) = s

pub ok-injective {ℓ} : {A : Type ℓ} {a b : A} → ok a ≡ ok b → a ≡ b
ok-injective h = cc
