-- ===== src/Json/Number.antt =====
-- `int(x)` for the values of JSON: a text may have spaces around it, a sign, and single underscores
-- between its digits (the ASCII ones). Nothing that is no number is one.
use Prim.Native.Char.{Char, code}
use Prim.Native.String.{[], ◌∷◌}
use mac_service_now_cmdb.Base.{
  ℕ, zero, suc, ◌+◌, ◌-◌, ◌*◌, ◌/◌, ◌^◌, ◌≡◌, refl, String, Bool, true, false, Option, none, some,
  leb, eqb, ◌&&◌, if◌then◌else◌,
}
use mac_service_now_cmdb.Text.{strip}
use mac_service_now_cmdb.Json.Value.{ℤ, pos, negsuc, Value, bool, int, decimal, str}

abbrev pub is_digit : Char → Bool
is_digit c = leb 48 (code c) && leb (code c) 57

-- The digits so far, and whether the last character was a digit.
digits_of : ℕ → Bool → String → Option ℕ
digits_of n last [] = if last then some n else none
digits_of n last (c ∷ s) = elim (is_digit c) [
  | true ↦ digits_of (n * 10 + (code c - 48)) true s
  | false ↦ elim (last && eqb (code c) 95) [ true ↦ digits_of n false s | false ↦ none ]
]

abbrev negated : ℕ → ℤ
negated zero = pos zero
negated (suc n) = negsuc n

abbrev pub ℤ_of : Bool → Option ℕ → Option ℤ
ℤ_of minus none = none
ℤ_of minus (some n) = some (if minus then negated n else pos n)

signed : String → Option ℤ
signed [] = none
signed (c ∷ s) =
    if eqb (code c) 45
    then ℤ_of true (digits_of 0 false s)
    else if eqb (code c) 43
    then ℤ_of false (digits_of 0 false s)
    else ℤ_of false (digits_of 0 false (c ∷ s))

-- `int(s)` for a text; `none` is the `ValueError`.
unfoldable pub parse_int : String → Option ℤ
unfolding signed digits_of strip
parse_int s = signed (strip s)

-- `int(v)`; `none` is the `ValueError` or `TypeError`. A float is cut towards zero.
unfoldable pub int_of : Value → Option ℤ
unfolding parse_int
int_of (bool true) = some (pos 1)
int_of (bool false) = some (pos 0)
int_of (int n) = some n
int_of (decimal (pos n) k) = some (pos (n / 10 ^ k))
int_of (decimal (negsuc n) k) = some (negated (suc n / 10 ^ k))
int_of (str s) = parse_int s
int_of _ = none

parse_int_test : parse_int " -1_024 " ≡ some (negsuc 1023)
unfolding parse_int
parse_int_test = refl

parse_int_refused : parse_int "12x" ≡ none
unfolding parse_int
parse_int_refused = refl
