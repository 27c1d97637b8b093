-- ===== src/Config/Env.antt =====
-- The readers of environment variables, and `resolve_secret`.
pub mod Bounds
use Prim.Native.Char.{code}
use Prim.Native.String
use mac_service_now_cmdb.Base.{
  ℕ, ◌+◌, ◌-◌, ◌*◌, ◌^◌, String, Bool, true, false, Option, none, some, List, [], ◌∷◌, ◌++◌, map,
  ltb, eqb, not, if◌then◌else◌,
}
use mac_service_now_cmdb.Text.{truthy, lower, strip, has_char, join}
use mac_service_now_cmdb.Dict.{Dict, lookup, insert, mem}
use mac_service_now_cmdb.Json.Value.{ℤ, pos, negsuc, Value, obj, to_dict}
use mac_service_now_cmdb.Json.Number.{parse_int}
use mac_service_now_cmdb.Json.Show.{show_nat, show_int, show_float, repr}
use mac_service_now_cmdb.Errors.{Error, config, other, Result, ok, err, ◌>>=◌}

abbrev pub Env : Type 0
Env = Dict String

-- `_env(name, default)`: a variable that is blank counts as missing.
unfoldable pub env : Env → String → Option String → Option String
unfolding strip
env e name default = elim (lookup name e) [
  | none ↦ default
  | some v ↦ if truthy (strip v) then some (strip v) else default
]

abbrev pub or_blank : Option String → String
or_blank none = ""
or_blank (some s) = s

-- `_env(name, default) or ""`
abbrev pub env_text : Env → String → String → String
env_text e name default = or_blank (env e name (some default))

-- `_env(a) or _env(b)`
abbrev pub first_given : Option String → Option String → Option String
first_given none o = o
first_given (some s) o = some s

-- `bool(x)` for a text that may be missing
abbrev pub given : Option String → Bool
given none = false
given (some s) = truthy s

abbrev pub fail {ℓ} : {A : Type ℓ} → String → List String → Result A
fail name parts = err (config (join "" (name ∷ parts)))

abbrev pub true_words : List String
true_words = "1" ∷ "true" ∷ "yes" ∷ "on" ∷ "y" ∷ "t" ∷ []

abbrev pub false_words : List String
false_words = "0" ∷ "false" ∷ "no" ∷ "off" ∷ "n" ∷ "f" ∷ []

unfoldable bool_of : String → Bool → Option String → Result Bool
bool_of name default none = ok default
bool_of name default (some raw) =
    if mem (lower raw) true_words
    then ok true
    else if mem (lower raw) false_words
    then ok false
    else fail name (" must be a boolean (got " ∷ repr raw ∷ ")" ∷ [])

-- `_env_bool`
unfoldable pub env_bool : Env → String → Bool → Result Bool
unfolding bool_of env
env_bool e name default = bool_of name default (env e name none)

abbrev above : ℕ → Option ℕ → Bool
above n none = false
above n (some maximum) = ltb maximum n

abbrev bound : Option ℕ → String
bound none = ""
bound (some n) = show_nat n

-- The bounds of a whole number
unfoldable pub bounded : String → ℕ → Option ℕ → ℤ → Result ℕ
bounded name minimum maximum (negsuc n) =
    fail name (" must be >= " ∷ show_nat minimum ∷ " (got " ∷ show_int (negsuc n) ∷ ")" ∷ [])
bounded name minimum maximum (pos n) =
    if ltb n minimum
    then fail name (" must be >= " ∷ show_nat minimum ∷ " (got " ∷ show_nat n ∷ ")" ∷ [])
    else if above n maximum
    then fail name (" must be <= " ∷ bound maximum ∷ " (got " ∷ show_nat n ∷ ")" ∷ [])
    else ok n

unfoldable int_of_text : String → ℕ → Option ℕ → String → Result ℕ
unfolding bounded
int_of_text name minimum maximum raw = elim (parse_int raw) [
  | none ↦ fail name (" must be an integer (got " ∷ repr raw ∷ ")" ∷ [])
  | some v ↦ bounded name minimum maximum v
]

unfoldable int_from : String → ℕ → ℕ → Option ℕ → Option String → Result ℕ
unfolding int_of_text
int_from name default minimum maximum none = ok default
int_from name default minimum maximum (some raw) = int_of_text name minimum maximum raw

-- `_env_int`; every caller gives a minimum, and none a negative one.
unfoldable pub env_int : Env → String → ℕ → ℕ → Option ℕ → Result ℕ
unfolding int_from env
env_int e name default minimum maximum = int_from name default minimum maximum (env e name none)

-- `text.split(c)`, with the part that is read
split_from : ℕ → String → String → List String
split_from c part String.[] = part ∷ []
split_from c part (String.◌∷◌ d s) =
    let rest = split_from c "" s in
    let more = split_from c (String.◌++◌ part (String.◌∷◌ d "")) s in
    if eqb (code d) c then part ∷ rest else more

unfoldable pub split : ℕ → String → List String
unfolding split_from
split c s = split_from c "" s

unfoldable pub parts_of : List String → List String
parts_of [] = []
parts_of (part ∷ parts) =
    let rest = parts_of parts in if truthy (strip part) then strip part ∷ rest else rest

csv_of : List String → Option String → List String
unfolding parts_of split
csv_of default none = default
csv_of default (some raw) = parts_of (split 44 raw)

-- `_env_csv`
unfoldable pub env_csv : Env → String → List String → List String
unfolding csv_of env
env_csv e name default = csv_of default (env e name none)

-- `pair.partition("=")`, if there is an equals sign
abbrev pub at_equals : String → String → Option (String × String)
at_equals key String.[] = none
at_equals key (String.◌∷◌ c s) =
    if eqb (code c) 61 then some (key, s) else at_equals (String.◌++◌ key (String.◌∷◌ c "")) s

abbrev not_a_pair {ℓ} : {A : Type ℓ} → String → String → Result A
not_a_pair name pair = fail name (" entries must look like key=value (got " ∷ repr pair ∷ ")" ∷ [])

unfoldable keep_pair :
    String → String → Option (String × String) → Dict String → Result (Dict String)
keep_pair name pair none d = not_a_pair name pair
keep_pair name pair (some (key, value)) d =
    if not (truthy (strip key))
    then not_a_pair name pair
    else if not (truthy (strip value))
    then not_a_pair name pair
    else ok (insert (lower (strip key)) (strip value) d)

unfoldable pub read_pairs : String → List String → Dict String → Result (Dict String)
unfolding keep_pair
read_pairs name [] d = ok d
read_pairs name (part ∷ parts) d =
    (if truthy (strip part)
      then keep_pair name (strip part) (at_equals "" (strip part)) d
      else ok d)
    >>= λ d'. read_pairs name parts d'

unfoldable map_of : String → Dict String → Option String → Result (Dict String)
unfolding read_pairs split
map_of name default none = ok default
map_of name default (some raw) = read_pairs name (split (if has_char 59 raw then 59 else 44) raw) []

-- `_env_kv_map`
unfoldable pub env_kv_map : Env → String → Dict String → Result (Dict String)
unfolding map_of env
env_kv_map e name default = map_of name default (env e name none)

-- What `json.loads` gives: the text of its `JSONDecodeError`, the class of any other error (a number of
-- too many digits, too deep a nesting), or a value.
pub data Parsed : Type 0 where
  invalid : String → Parsed
  raises : String → Parsed
  parsed : Value → Parsed

unfoldable object_of : String → Parsed → Result (Dict Value)
object_of name (invalid m) = fail name (" must be valid JSON (" ∷ m ∷ ")" ∷ [])
object_of name (raises kind) = err (other kind)
object_of name (parsed (obj fs)) = ok (to_dict fs)
object_of name (parsed v) = fail name (" must be a JSON object" ∷ [])

unfoldable object_from : (String → Parsed) → String → Option String → Result (Dict Value)
unfolding object_of
object_from parse_json name none = ok []
object_from parse_json name (some raw) = object_of name (parse_json raw)

-- `_env_json_object`, which no caller gives a default
unfoldable pub env_json_object : (String → Parsed) → Env → String → Result (Dict Value)
unfolding object_from env
env_json_object parse_json e name = object_from parse_json name (env e name none)

-- `text.strip() or None`
abbrev pub unless_blank : Option String → Option String
unless_blank none = none
unless_blank (some s) = if truthy (strip s) then some (strip s) else none

-- Where a secret may stand besides the environment; `none` is an error that is logged. A file holds
-- UTF-8: in the source one that does not raises a `UnicodeDecodeError`, which is not modelled.
pub record Places : Type 0 where
  pub file : String → Option String
  pub parameter : String → Option String

unfoldable pub indirect : Places → Option String → Option String → Option String
indirect places (some path) parameter = unless_blank (places.file path)
indirect places none (some name) = unless_blank (places.parameter name)
indirect places none none = none

-- `resolve_secret`: the value itself, or the first of the places that is named.
unfoldable pub resolve_secret : Places → Env → String → Option String
unfolding env indirect
resolve_secret places e name = elim (env e name none) [
  | some direct ↦ some direct
  | none ↦
      indirect places (env e (String.◌++◌ name "_FILE") none)
        (env e (String.◌++◌ name "_PARAMETER") none)
]
