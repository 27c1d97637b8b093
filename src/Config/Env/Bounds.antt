-- ===== src/Config/Env/Bounds.antt =====
-- What the readers give: a value within its bounds, a `ConfigError`, or an error of the JSON parser or
-- of the file system that the code does not catch.
use mac_service_now_cmdb.Base.{
  Option-cases, inl, inr, ℕ, ◌≤◌, String, Bool, Option, none, some, List, [], ◌∷◌, ltb, if-elim,
  arith, if◌then◌else◌, not,
}
use mac_service_now_cmdb.Text.{lower, strip, has_char, truthy}
use mac_service_now_cmdb.Dict.{Dict, mem}
use mac_service_now_cmdb.Json.Value.{ℤ, pos, negsuc, obj}
use mac_service_now_cmdb.Json.Number.{parse_int}
use mac_service_now_cmdb.Errors.{config, other, Result, ok, err, ◌>>=◌}
use mac_service_now_cmdb.Config.Env.{
  Env, env, env_bool, bounded, env_int, split, at_equals, keep_pair, read_pairs, env_kv_map, Parsed,
  invalid, raises, parsed, env_json_object, true_words, false_words, bool_of, int_of_text, int_from,
  map_of, object_of, object_from,
}

-- Every value satisfies the predicate. Every error is a `ConfigError` or, as `other`, one that
-- the JSON parser or the file system raised.
abbrev pub Reads {ℓ} : {A : Type ℓ} → (A → Type 0) → Result A → Type 0
Reads P (ok a) = P a
Reads P (err (config m)) = Unit
Reads P (err (other kind)) = Unit
Reads P (err e) = ⊥

pub Reads-bind {ℓ κ} :
    {A : Type ℓ} {B : Type κ} (P : A → Type 0) (Q : B → Type 0) (r : Result A) (f : A → Result B)
    → Reads P r
    → ((a : A) → P a → Reads Q (f a))
    → Reads Q (r >>= f)
Reads-bind P Q (ok a) f h g = g a h
Reads-bind P Q (err (config m)) f h g = tt
Reads-bind P Q (err (other kind)) f h g = tt
Reads-bind P Q (err e) f h g = h

pub Reads-map {ℓ} :
    {A : Type ℓ} (P Q : A → Type 0) (r : Result A) → ((a : A) → P a → Q a) → Reads P r → Reads Q r
Reads-map P Q (ok a) f h = f a h
Reads-map P Q (err (config m)) f h = tt
Reads-map P Q (err (other kind)) f h = tt
Reads-map P Q (err e) f h = h

abbrev pub Any {ℓ} : {A : Type ℓ} → A → Type 0
Any a = Unit

abbrev AtMost : ℕ → Option ℕ → Type 0
AtMost n none = Unit
AtMost n (some maximum) = n ≤ maximum

abbrev pub Within : ℕ → Option ℕ → ℕ → Type 0
Within minimum maximum n = (minimum ≤ n) × AtMost n maximum

module _ (name : String) (minimum : ℕ) where
  bounded-Within :
      (maximum : Option ℕ) (v : ℤ) → Reads (Within minimum maximum) (bounded name minimum maximum v)
  unfolding bounded
  bounded-Within maximum (negsuc n) = tt
  bounded-Within none (pos n) =
      if-elim (Reads (Within minimum none)) (ltb n minimum) _ _ (λ h. tt) (λ h. (ground arith, tt))
  bounded-Within (some m) (pos n) =
      if-elim (Reads (Within minimum (some m))) (ltb n minimum) _ _ (λ h. tt)
        (λ h.
          if-elim (Reads (Within minimum (some m))) (ltb m n) _ _ (λ g. tt)
            (λ g. (ground arith, ground arith)))

  int_from-Within :
      (default : ℕ) (maximum : Option ℕ) (o : Option String)
      → Within minimum maximum default
      → Reads (Within minimum maximum) (int_from name default minimum maximum o)
  unfolding int_from int_of_text
  int_from-Within default maximum none h = h
  int_from-Within default maximum (some raw) h = elim (Option-cases (parse_int raw)) [
    | inl n ↦ rw (n, int_of_text) tt
    | inr (v, n) ↦ rw (n, int_of_text) (bounded-Within maximum v)
  ]

  pub env_int-Within :
      (e : Env) (default : ℕ) (maximum : Option ℕ)
      → Within minimum maximum default
      → Reads (Within minimum maximum) (env_int e name default minimum maximum)
  unfolding env_int
  env_int-Within e default maximum h = int_from-Within default maximum (env e name none) h

bool_of-Any :
    (name : String) (default : Bool) (o : Option String) → Reads Any (bool_of name default o)
unfolding bool_of
bool_of-Any name default none = tt
bool_of-Any name default (some raw) =
    if-elim (Reads Any) (mem (lower raw) true_words) _ _ (λ h. tt)
      (λ h. if-elim (Reads Any) (mem (lower raw) false_words) _ _ (λ g. tt) (λ g. tt))

pub env_bool-Any : (e : Env) (name : String) (default : Bool) → Reads Any (env_bool e name default)
unfolding env_bool
env_bool-Any e name default = bool_of-Any name default (env e name none)

keep_pair-Any :
    (name pair : String) (o : Option (String × String)) (d : Dict String)
    → Reads Any (keep_pair name pair o d)
unfolding keep_pair
keep_pair-Any name pair none d = tt
keep_pair-Any name pair (some (key, value)) d =
    if-elim (Reads Any) (not (truthy (strip key))) _ _ (λ h. tt)
      (λ h. if-elim (Reads Any) (not (truthy (strip value))) _ _ (λ g. tt) (λ g. tt))

read_pairs-Any :
    (name : String) (parts : List String) (d : Dict String) → Reads Any (read_pairs name parts d)
unfolding read_pairs
read_pairs-Any name [] d = tt
read_pairs-Any name (part ∷ parts) d =
    Reads-bind Any Any _ _
      (if-elim (Reads Any) (truthy (strip part)) _ _
        (λ h. keep_pair-Any name (strip part) (at_equals "" (strip part)) d) (λ h. tt))
      (λ d' h. read_pairs-Any name parts d')

map_of-Any :
    (name : String) (default : Dict String) (o : Option String) → Reads Any (map_of name default o)
unfolding map_of
map_of-Any name default none = tt
map_of-Any name default (some raw) =
    read_pairs-Any name (split (if has_char 59 raw then 59 else 44) raw) []

pub env_kv_map-Any :
    (e : Env) (name : String) (default : Dict String) → Reads Any (env_kv_map e name default)
unfolding env_kv_map
env_kv_map-Any e name default = map_of-Any name default (env e name none)

object_of-Any : (name : String) (p : Parsed) → Reads Any (object_of name p)
unfolding object_of
object_of-Any name (invalid m) = tt
object_of-Any name (raises kind) = tt
object_of-Any name (parsed (obj fs)) = tt
object_of-Any name (parsed v) = tt

object_from-Any :
    (parse_json : String → Parsed) (name : String) (o : Option String)
    → Reads Any (object_from parse_json name o)
unfolding object_from
object_from-Any parse_json name none = tt
object_from-Any parse_json name (some raw) = object_of-Any name (parse_json raw)

pub env_json_object-Any :
    (parse_json : String → Parsed) (e : Env) (name : String)
    → Reads Any (env_json_object parse_json e name)
unfolding env_json_object
env_json_object-Any parse_json e name = object_from-Any parse_json name (env e name none)
