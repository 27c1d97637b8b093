-- ===== src/Query.antt =====
-- snow_query.py: encoded queries of the ServiceNow Table API, and the chunks in which they are sent.
pub mod Chunks
pub mod Injection
use Prim.Native.String
use mac_service_now_cmdb.Base.{
  ℕ, zero, suc, String, Bool, true, false, Option, none, some, List, [], ◌∷◌, ◌++◌, ◌&&◌, not,
  length, take, drop, map, if◌then◌else◌,
}
use mac_service_now_cmdb.Text.{truthy, has_char, strip, join}
use mac_service_now_cmdb.Dict.{mem}
use mac_service_now_cmdb.Errors.{Result, ok, err, value_error}

-- The code of `^`, which separates the conditions of a query.
abbrev pub caret : ℕ
caret = 94

unfoldable pub is_query_safe : String → Bool
is_query_safe value = truthy value && not (has_char caret value)

-- The keys of `seen`, in the order of their first writes.
usable_from : List String → List String → List String
unfolding is_query_safe
usable_from seen [] = seen
usable_from seen (value ∷ values) =
    let text = strip value in
    usable_from (if is_query_safe text && not (mem text seen) then seen ++ text ∷ [] else seen)
      values

unfoldable pub usable_values : List String → List String
unfolding usable_from
usable_values values = usable_from [] values

-- `f"{field}={value}"`
abbrev pub equals : String → String → String
equals field value = String.◌++◌ field (String.◌++◌ "=" value)

unfoldable pub build_or_query : String → List String → Option String → Result String
build_or_query field [] and_clause = err (value_error "build_or_query requires at least one value")
build_or_query field (v ∷ vs) and_clause =
    let query = join "^OR" (map (equals field) (v ∷ vs)) in
    elim and_clause [
      | none ↦ ok query
      | some c ↦ if truthy c then ok (String.◌++◌ query (String.◌++◌ "^" c)) else ok query
    ]

module _ {ℓ} {A : Type ℓ} where
  -- As many rounds as there are items are enough, since no chunk is empty.
  chunked_from : ℕ → ℕ → List A → List (List A)
  chunked_from zero size items = []
  chunked_from (suc rounds) size [] = []
  chunked_from (suc rounds) size (x ∷ items) =
      take size (x ∷ items) ∷ chunked_from rounds size (drop size (x ∷ items))

  -- `items[start : start + size] for start in range(0, len(items), size)`, at a size that is not 0
  unfoldable pub chunked : List A → ℕ → List (List A)
  unfolding chunked_from
  chunked items size = chunked_from (length items) size items
