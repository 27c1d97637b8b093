-- ===== src/Mapping/Sizes.antt =====
-- Sizes in bytes become megabytes and gigabytes. Python divides as floats of 53 bits, rounded half to
-- even; a division by a power of 2 rounds as the size itself does. `round` rounds half to even. A size
-- of 2 ^ 1044 bytes or more, where Python raises an `OverflowError`, is not modelled.
use native.Mathlib.Nat.{mod-lt, add-mul, mul_comm}
use native.Mathlib.Omega.{div_any}
use mac_service_now_cmdb.Base.{
  ℕ, zero, suc, ◌+◌, ◌*◌, ◌/◌, ◌%◌, ◌^◌, ◌≤◌, ◌<◌, ◌≡◌, refl, true, false, Option, none, some, ltb,
  eqb, if◌then◌else◌, if-elim, arith,
}
use mac_service_now_cmdb.Json.Value.{ℤ, pos, Value, null, int, decimal}
use mac_service_now_cmdb.Json.Number.{int_of}

-- A whole number that is positive.
abbrev pub if_positive : Option ℤ → Option ℕ
if_positive (some (pos (suc n))) = some (suc n)
if_positive _ = none

-- `_as_int`: what it refuses before, `int` refuses too or makes 0.
unfoldable pub as_int : Value → Option ℕ
as_int raw = if_positive (int_of raw)

-- `round(n / d)` from the quotient and the rest
unfoldable pub rounded : ℕ → ℕ → ℕ → ℕ
rounded q r d =
    if ltb (2 * r) d then q else if ltb d (2 * r) then q + 1 else if eqb (q % 2) 0 then q else q + 1

abbrev pub round_ratio : ℕ → ℕ → ℕ
round_ratio n d = rounded (n / d) (n % d) d

-- 2 ^ 53
abbrev pub float_limit : ℕ
float_limit = 9007199254740992

-- How many bits above 53 the number has, up to the fuel.
scale_of : ℕ → ℕ → ℕ
scale_of zero n = 0
scale_of (suc fuel) n = elim (ltb n float_limit) [ true ↦ 0 | false ↦ suc (scale_of fuel (n / 2)) ]

-- The float that is nearest to the number. A float has less than 1024 bits.
unfoldable pub as_float : ℕ → ℕ
unfolding scale_of rounded
as_float n = elim (ltb n float_limit) [
  | true ↦ n
  | false ↦ (let unit = 2 ^ scale_of 1044 n in rounded (n / unit) (n % unit) unit * unit)
]

pub as_float-small : (n : ℕ) → n < float_limit → as_float n ≡ n
unfolding as_float
as_float-small n h =
    let below : ltb n float_limit ≡ true = ground (arith, h) in rw (below, as_float) refl

abbrev pub bytes_per_mb : ℕ
bytes_per_mb = 1048576

abbrev pub bytes_per_gb : ℕ
bytes_per_gb = 1073741824

-- `bytes_to_mb`
unfoldable pub bytes_to_mb : Value → Option ℕ
unfolding as_int as_float rounded
bytes_to_mb raw = elim (as_int raw) [
  | none ↦ none
  | some n ↦ some (round_ratio (as_float n) bytes_per_mb)
]

-- `bytes_to_gb`, in hundredths
unfoldable pub bytes_to_gb : Value → Option ℕ
unfolding as_int as_float rounded
bytes_to_gb raw = elim (as_int raw) [
  | none ↦ none
  | some n ↦ some (round_ratio (as_float n * 100) bytes_per_gb)
]

abbrev pub whole_value : Option ℕ → Value
whole_value none = null
whole_value (some n) = int (pos n)

abbrev pub hundredths_value : Option ℕ → Value
hundredths_value none = null
hundredths_value (some n) = decimal (pos n) 2

-- A multiple of `d` that is off from q * d + r by half of `d` at most.
abbrev pub Near : ℕ → ℕ → ℕ → ℕ → Type 0
Near q r d m = (2 * (q * d + r) ≤ 2 * (m * d) + d) × (2 * (m * d) ≤ 2 * (q * d + r) + d)

module _ (q r d : ℕ) (h : r < d) where
  Near-down : 2 * r ≤ d → Near q r d q
  Near-down b = (omega arith, omega arith)

  Near-up : d ≤ 2 * r → Near q r d (q + 1)
  Near-up b = (omega (arith, add-mul q 1 d), omega (arith, add-mul q 1 d))

  rounded-Near : Near q r d (rounded q r d)
  unfolding rounded
  rounded-Near =
      if-elim (Near q r d) (ltb (2 * r) d) _ _ (λ y. Near-down (ground arith))
        (λ n.
          if-elim (Near q r d) (ltb d (2 * r)) _ _ (λ y. Near-up (ground arith))
            (λ n'.
              if-elim (Near q r d) (eqb (q % 2) 0) _ _ (λ e. Near-down (ground arith))
                (λ e. Near-up (ground arith))))

-- Rounding is off by half the divisor at most.
pub round_ratio-near :
    (n d : ℕ)
    → 0 < d
    → (2 * n ≤ 2 * (round_ratio n d * d) + d) × (2 * (round_ratio n d * d) ≤ 2 * n + d)
round_ratio-near n d h =
    let r = rounded-Near (n / d) (n % d) d (mod-lt n h) in
    let whole : n / d * d + n % d ≡ n = omega (arith, div_any n d, mul_comm (n / d) d) in
    rw whole at r

-- A number of units of `d` that is off from `n` by half a unit at most.
abbrev pub Close : ℕ → ℕ → ℕ → Type 0
Close n d m = (2 * n ≤ 2 * (m * d) + d) × (2 * (m * d) ≤ 2 * n + d)

-- A positive size below 2 ^ 53 has its megabytes, off by half a megabyte at most, and its gigabytes, off by half a
-- hundredth of a gigabyte at most.
sizes-Close :
    (raw : Value) (n : ℕ)
    → as_int raw ≡ some n
    → n < float_limit
    → ((m : ℕ) × (bytes_to_mb raw ≡ some m) × Close n bytes_per_mb m)
      × ((g : ℕ) × (bytes_to_gb raw ≡ some g) × Close (n * 100) bytes_per_gb g)
unfolding bytes_to_mb bytes_to_gb
sizes-Close raw n h l = (
  (
    round_ratio n bytes_per_mb,
    rw (h, bytes_to_mb, as_float-small n l) refl,
    round_ratio-near n bytes_per_mb (omega arith),
  ),
  (
    round_ratio (n * 100) bytes_per_gb,
    rw (h, bytes_to_gb, as_float-small n l) refl,
    round_ratio-near (n * 100) bytes_per_gb (omega arith),
  ),
)
