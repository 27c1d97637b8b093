-- ===== src/Mapping/Fields.antt =====
-- The single fields: serial numbers, MAC addresses, names of classes and systems. Where Graph
-- documents a text, a value of another kind reads as no text.
pub mod Stable
use Prim.Native.Char.{Char, code}
use Prim.Native.String.{[], ◌∷◌, ◌++◌}
use mac_service_now_cmdb.Base.{
  ℕ, zero, suc, String, Bool, true, false, Option, none, some, List, ◌&&◌, ◌||◌, not, ◌==◌, eqb,
  leb, ltb, if◌then◌else◌, ◌≡◌, refl,
}
use mac_service_now_cmdb.Text.{is_space, truthy, lower, upper, strip, collapse, len, after_prefix}
use mac_service_now_cmdb.Dict.{Dict, lookup, insert, update, mem}
use mac_service_now_cmdb.Json.Value.{Value, null, str, get, get_or_empty}
use mac_service_now_cmdb.Json.Number.{is_digit}
use mac_service_now_cmdb.Json.Show.{show}

abbrev pub min_serial_length : ℕ
min_serial_length = 3

-- `text.replace("-", "").replace(" ", "")`
unfoldable pub unpunctuated : String → String
unpunctuated [] = []
unpunctuated (c ∷ s) =
    let rest = unpunctuated s in if eqb (code c) 45 || eqb (code c) 32 then rest else c ∷ rest

-- All characters are this one.
abbrev pub only : Char → String → Bool
only c [] = true
only c (d ∷ s) = eqb (code d) (code c) && only c s

-- `stripped and len(set(stripped)) == 1`
abbrev pub is_uniform : String → Bool
is_uniform [] = false
is_uniform (c ∷ s) = only c s

-- `_WHITESPACE.sub(" ", text.strip())`
unfoldable pub tidy : String → String
tidy s = collapse (strip s)

-- The tests of a serial number that is tidy.
unfoldable pub accept_serial : List String → String → Option String
unfolding unpunctuated
accept_serial blocklist value =
    if not (truthy value)
    then none
    else if mem (lower value) blocklist
    then none
    else if ltb (len value) min_serial_length
    then none
    else if is_uniform (unpunctuated value)
    then none
    else some value

-- `normalize_serial`
unfoldable pub normalize_serial : Option String → List String → Option String
unfolding accept_serial tidy
normalize_serial none blocklist = none
normalize_serial (some raw) blocklist =
    if truthy raw then accept_serial blocklist (tidy raw) else none

-- `_clean`
unfoldable pub clean : Value → Value
unfolding tidy
clean (str s) = if truthy (tidy s) then str (tidy s) else null
clean v = v

abbrev pub text_or_none : Value → Option String
text_or_none (str s) = some s
text_or_none _ = none

abbrev pub value_or_null : Option String → Value
value_or_null none = null
value_or_null (some s) = str s

abbrev pub is_hex : Char → Bool
is_hex c =
    let n = code c in (leb 48 n && leb n 57) || (leb 65 n && leb n 70) || (leb 97 n && leb n 102)

-- `re.sub(r"[^0-9A-Fa-f]", "", raw)`
unfoldable pub hex_only : String → String
hex_only [] = []
hex_only (c ∷ s) = let rest = hex_only s in if is_hex c then c ∷ rest else rest

abbrev is_zero : Char → Bool
is_zero c = eqb (code c) 48

abbrev pub all_zero : String → Bool
all_zero [] = true
all_zero (c ∷ s) = is_zero c && all_zero s

-- `":".join(upper[i : i + 2] for i in range(0, 12, 2))`
unfoldable pub in_pairs : String → String
in_pairs [] = []
in_pairs (a ∷ []) = a ∷ []
in_pairs (a ∷ b ∷ []) = a ∷ b ∷ []
in_pairs (a ∷ b ∷ c ∷ s) = a ∷ b ∷ ":" ++ in_pairs (c ∷ s)

-- `_normalize_mac`
unfoldable pub normalize_mac : Option String → Option String
unfolding hex_only in_pairs
normalize_mac none = none
normalize_mac (some raw) =
    let digits = hex_only raw in
    if not (eqb (len digits) 12) || all_zero digits then none else some (in_pairs (upper digits))

-- `str(device.get("operatingSystem") or "").strip()`
abbrev pub system_of : Dict Value → String
system_of device = strip (show (get_or_empty "operatingSystem" device))

-- A mapped class that is true, or the default
abbrev pub mapped_or : Option String → Option String → Option String
mapped_or default none = default
mapped_or default (some c) = if truthy c then some c else default

-- `resolve_class_name`, with the class map and the default class of the configuration
unfoldable pub resolve_class_name : Dict String → Option String → Dict Value → Option String
resolve_class_name class_map default device =
    mapped_or default (lookup (lower (system_of device)) class_map)

-- `DEFAULT_OS_NAMES`
abbrev pub default_os_names : Dict String
default_os_names =
    List.◌∷◌ ("windows", "Windows")
      (List.◌∷◌ ("macos", "Mac OS X")
        (List.◌∷◌ ("ios", "iOS")
          (List.◌∷◌ ("ipados", "iPadOS")
            (List.◌∷◌ ("android", "Android")
              (List.◌∷◌ ("linux", "Linux") (List.◌∷◌ ("chromeos", "ChromeOS") List.[]))))))

unfoldable pub lowered_keys : Dict String → Dict String → Dict String
lowered_keys acc List.[] = acc
lowered_keys acc (List.◌∷◌ (k, v) d) = lowered_keys (insert (lower k) v acc) d

-- `os_display_name`
unfoldable pub os_display_name : Dict Value → Dict String → Option String
unfolding lowered_keys
os_display_name device overrides =
    let raw = system_of device in
    if not (truthy raw)
    then none
    else elim (lookup (lower raw) (update default_os_names (lowered_keys List.[] overrides))) [
      | none ↦ some raw
      | some name ↦ some name
    ]

-- A pattern in which `d` stands for any digit; the text may go on.
abbrev begins_like : String → String → Bool
begins_like [] s = true
begins_like (p ∷ ps) [] = false
begins_like (p ∷ ps) (c ∷ s) =
    (if eqb (code p) 100 then is_digit c else eqb (code p) (code c)) && begins_like ps s

-- `_looks_like_timestamp`, with the digits of ASCII
unfoldable pub looks_like_timestamp : String → Bool
looks_like_timestamp s = begins_like "dddd-dd-ddTdd:dd:dd" s

serial_test : normalize_serial (some "  C02 \t XYZ12 ") List.[] ≡ some "C02 XYZ12"
unfolding normalize_serial strip collapse mem
serial_test = refl

mac_test : normalize_mac (some "00-1a-2b-3c-4d-5e") ≡ some "00:1A:2B:3C:4D:5E"
unfolding normalize_mac upper
mac_test = refl

timestamp_test : looks_like_timestamp "2026-09-04T10:00:00Z" ≡ true
unfolding looks_like_timestamp
timestamp_test = refl
