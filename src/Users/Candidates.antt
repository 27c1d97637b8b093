-- ===== src/Users/Candidates.antt =====
-- `_values_for` and `_candidate_values`: the values of a key by which users are looked for.
pub mod Sound
use Prim.Native.Char.{code}
use Prim.Native.String
use mac_service_now_cmdb.Base.{
  String, Bool, true, false, Option, none, some, List, [], ◌∷◌, ◌++◌, ◌==◌, eqb, if◌then◌else◌,
}
use mac_service_now_cmdb.Text.{truthy, lower, strip, has_char}
use mac_service_now_cmdb.Dict.{Dict, lookup, insert}
use mac_service_now_cmdb.Json.Value.{Value, null, str, arr, obj, is_true}
use mac_service_now_cmdb.Errors.{Result, ok, err, other, ◌>>=◌}
use mac_service_now_cmdb.Models.People.{EntraUser, primary_email}
use mac_service_now_cmdb.Query.{is_query_safe}

-- `s.split("@", 1)[0]`
abbrev pub before_at : String → String
before_at String.[] = ""
before_at (String.◌∷◌ c s) = if eqb (code c) 64 then "" else String.◌∷◌ c (before_at s)

-- The local part of a principal name, if it has one. `"@" in upn` raises for what is no text, or,
-- for a list or a dictionary, one of the methods of texts does that the code calls next.
unfoldable pub local_part : Value → Result Value
local_part upn =
    if is_true upn
    then elim upn [
      | str s ↦ ok (if has_char 64 s then str (before_at s) else null)
      | arr _ ↦ err (other "AttributeError")
      | obj _ ↦ err (other "AttributeError")
      | _ ↦ err (other "TypeError")
    ]
    else ok null

-- `_values_for`
unfoldable pub values_for : String → EntraUser → Result (List Value)
unfolding local_part
values_for key user =
    if key == "employee_number"
    then ok (user.employee_id ∷ [])
    else if key == "email"
    then ok (primary_email user ∷ [])
    else if key == "user_name"
    then (local_part user.user_principal_name
        >>= (λ local. ok (user.user_principal_name ∷ local ∷ [])))
    else if key == "entra_id"
    then ok (str user.object_id ∷ [])
    else ok []

-- `(raw or "").strip()`
unfoldable pub stripped : Value → Result String
unfolding strip
stripped raw =
    if is_true raw
    then elim raw [ str s ↦ ok (strip s) | _ ↦ err (other "AttributeError") ]
    else ok ""

-- The value as it is, and the ids of the users that have it.
pub record Candidate : Type 0 where
  pub original : String
  pub object_ids : List String

abbrev pub Candidates : Type 0
Candidates = Dict Candidate

abbrev pub joined : String → Candidate → Candidate
joined id c = record c { object_ids = c.object_ids ++ id ∷ [] }

-- `candidates.setdefault(value.lower(), (value, []))`, to which the id is appended
unfoldable pub add_candidate : String → String → Candidates → Candidates
unfolding lower
add_candidate id value c = elim (lookup (lower value) c) [
  | none ↦ insert (lower value) (record { original = value; object_ids = id ∷ [] }) c
  | some found ↦ insert (lower value) (joined id found) c
]

-- A value that a query cannot hold is left out.
unfoldable pub add_value : String → String → Candidates → Candidates
unfolding add_candidate is_query_safe
add_value id value c = if is_query_safe value then add_candidate id value c else c

unfoldable pub add_values : String → List Value → Candidates → Result Candidates
unfolding add_value stripped
add_values id [] c = ok c
add_values id (raw ∷ raws) c = stripped raw >>= λ value. add_values id raws (add_value id value c)

unfoldable pub add_users : String → List EntraUser → Candidates → Result Candidates
unfolding add_values values_for
add_users key [] c = ok c
add_users key (u ∷ us) c =
    values_for key u >>= λ raws. add_values u.object_id raws c >>= λ c'. add_users key us c'

-- `_candidate_values`
abbrev pub candidate_values : String → List EntraUser → Result Candidates
candidate_values key users = add_users key users []
