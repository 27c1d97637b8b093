-- ===== src/Text.antt =====
-- Python's `str` methods as the sources use them, over native texts.
pub mod Laws
pub mod Tidy
pub mod Order
use Prim.Native.Char.{Char, char, code, IsScalar}
use Prim.Native.Nat.{compare, Ordering}
use Prim.Native.String
use Prim.Native.String.{[], ◌∷◌, ◌++◌}
use mathlib.Core.Option.{Option, none, some}
use mathlib.Core.List
use mac_service_now_cmdb.Base.{
  ℕ, suc, ◌+◌, ◌-◌, ◌<◌, String, ◌≡◌, refl, Bool, true, false, ◌&&◌, ◌||◌, not, List, ltb, leb, eqb,
  if◌then◌else◌, arith, ◌==◌, Option, none, some, Bool-cases, inl, inr,
}

-- `str.isspace`, which is also `\s` of `re`.
abbrev pub is_space : Char → Bool
is_space c =
    let n = code c in
    (leb 9 n && leb n 13)
    || (leb 28 n && leb n 32)
    || eqb n 133
    || eqb n 160
    || eqb n 5760
    || (leb 8192 n && leb n 8202)
    || eqb n 8232
    || eqb n 8233
    || eqb n 8239
    || eqb n 8287
    || eqb n 12288

low-IsScalar : (n : ℕ) → n < 55296 → IsScalar n
low-IsScalar n h = let below : compare n 55296 ≡ Ordering.lt = ground arith in rw below tt

-- Capital letters of ASCII and of Latin-1 are 32 below their small letters.
abbrev pub is_capital : ℕ → Bool
is_capital n = (leb 65 n && leb n 90) || (leb 192 n && leb n 222 && not (eqb n 215))

pub shift-IsScalar : (n : ℕ) → is_capital n ≡ true → IsScalar (n + 32)
shift-IsScalar n h = low-IsScalar (n + 32) (ground arith)

lower_by : (c : Char) (b : Bool) → is_capital (code c) ≡ b → Char
lower_by c true h = char (code c + 32) (shift-IsScalar (code c) h)
lower_by c false h = c

lower_char : Char → Char
unfolding lower_by
lower_char c = lower_by c (is_capital (code c)) refl

-- `s.lower()`: exact on ASCII and Latin-1, other characters are left as they are.
unfoldable pub lower : String → String
unfolding lower_char
lower [] = []
lower (c ∷ s) = lower_char c ∷ lower s

-- Small letters of ASCII and of Latin-1 whose capital is 32 below.
abbrev pub is_small : ℕ → Bool
is_small n = (leb 97 n && leb n 122) || (leb 224 n && leb n 254 && not (eqb n 247))

pub raise-IsScalar : (n : ℕ) → is_small n ≡ true → IsScalar (n - 32)
raise-IsScalar n h = low-IsScalar (n - 32) (ground arith)

upper_by : (c : Char) (b : Bool) → is_small (code c) ≡ b → Char
upper_by c true h = char (code c - 32) (raise-IsScalar (code c) h)
upper_by c false h = c

upper_char : Char → Char
unfolding upper_by
upper_char c = upper_by c (is_small (code c)) refl

-- `s.upper()`: exact on ASCII, and on the letters of Latin-1 that have a capital there.
unfoldable pub upper : String → String
unfolding upper_char
upper [] = []
upper (c ∷ s) = upper_char c ∷ upper s

lstrip : (Char → Bool) → String → String
lstrip p [] = []
lstrip p (c ∷ s) = elim (p c) [ true ↦ lstrip p s | false ↦ c ∷ s ]

-- A character goes only if nothing but such characters follows it.
trim_onto : (Char → Bool) → Char → String → String
trim_onto p c [] = if p c then [] else c ∷ []
trim_onto p c (d ∷ s) = c ∷ d ∷ s

-- `s.rstrip(chars)`
unfoldable pub rstrip : (Char → Bool) → String → String
unfolding trim_onto
rstrip p [] = []
rstrip p (c ∷ s) = trim_onto p c (rstrip p s)

-- `s.strip(chars)`
unfoldable pub strip_of : (Char → Bool) → String → String
unfolding lstrip rstrip
strip_of p s = rstrip p (lstrip p s)

-- `s.strip()`
unfoldable pub strip : String → String
unfolding strip_of
strip s = strip_of is_space s

-- `re.sub(r"\s+", " ", s)`, after a space or not
collapse_from : Bool → String → String
collapse_from b [] = []
collapse_from b (c ∷ s) = elim (is_space c) [
  | true ↦ if b then collapse_from true s else " " ∷ collapse_from true s
  | false ↦ c ∷ collapse_from false s
]

unfoldable pub collapse : String → String
unfolding collapse_from
collapse s = collapse_from false s

-- A text is true in a Boolean test if it is not empty.
abbrev pub truthy : String → Bool
truthy [] = false
truthy (c ∷ s) = true

-- `len(s)`
abbrev pub len : String → ℕ
len [] = 0
len (c ∷ s) = suc (len s)

-- `c in s` for a character
abbrev pub has_char : ℕ → String → Bool
has_char n [] = false
has_char n (c ∷ s) = eqb (code c) n || has_char n s

-- What follows a prefix, if the text begins with it.
abbrev pub after_prefix : String → String → Option String
after_prefix [] s = some s
after_prefix (c ∷ p) [] = none
after_prefix (c ∷ p) (d ∷ s) = if eqb (code c) (code d) then after_prefix p s else none

-- `sep.join(items)`
unfoldable pub join : String → List String → String
join sep List.[] = []
join sep (List.◌∷◌ s List.[]) = s
join sep (List.◌∷◌ s (List.◌∷◌ t rest)) = s ++ sep ++ join sep (List.◌∷◌ t rest)

lower_test : lower "MacOS É" ≡ "macos é"
unfolding lower
lower_test = refl

strip_test : strip (collapse "  To be   filled\tby O.E.M. ") ≡ "To be filled by O.E.M."
unfolding strip collapse
strip_test = refl

upper_test : upper "No_Change" ≡ "NO_CHANGE"
unfolding upper
upper_test = refl
