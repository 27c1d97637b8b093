-- ===== src/Users/Match.antt =====
-- `_resolve_by_key`: the records that carry the value of a key, of which exactly one may.
pub mod Unambiguous
use mac_service_now_cmdb.Base.{
  ℕ, ◌*◌, String, Bool, true, false, Option, none, some, List, [], ◌∷◌, ◌++◌, ◌==◌, map, length,
  if◌then◌else◌,
}
use mac_service_now_cmdb.Text.{truthy, lower, strip}
use mac_service_now_cmdb.Dict.{Dict, lookup, insert, setdefault, mem}
use mac_service_now_cmdb.Dict.Groups.{items_at, group}
use mac_service_now_cmdb.Json.Value.{Value, get, get_or_empty}
use mac_service_now_cmdb.Json.Show.{show}
use mac_service_now_cmdb.Errors.{Result, ok, ◌>>=◌}
use mac_service_now_cmdb.Models.People.{EntraUser, SysUserRef}
use mac_service_now_cmdb.Client.{Send, entries_of, query_table}
use mac_service_now_cmdb.Query.{build_or_query, chunked}
use mac_service_now_cmdb.Users.Candidates.{Candidate, Candidates, candidate_values}

pub record Settings : Type 0 where
  pub user_match_order : List String
  pub user_entra_id_field : Option String
  pub user_active_only : Bool

abbrev pub lookup_chunk_size : ℕ
lookup_chunk_size = 50

abbrev base_user_fields : List String
base_user_fields = "sys_id" ∷ "user_name" ∷ "email" ∷ "employee_number" ∷ "active" ∷ []

abbrev with_field : Option String → List String → List String
with_field none names = names
with_field (some f) names =
    if truthy f then (if mem f names then names else names ++ f ∷ []) else names

-- `_fields`
abbrev pub fields : Settings → List String
fields cfg = with_field cfg.user_entra_id_field base_user_fields

-- `_snow_field_for`
unfoldable pub snow_field_for : Settings → String → Option String
snow_field_for cfg key =
    if key == "employee_number"
    then some "employee_number"
    else if key == "email"
    then some "email"
    else if key == "user_name"
    then some "user_name"
    else if key == "entra_id"
    then cfg.user_entra_id_field
    else none

abbrev active_only : Bool → Option String
active_only true = some "active=true"
active_only false = none

unfoldable pub query_chunks : Settings → Send → String → List (List String) → Result (List Value)
query_chunks cfg send field [] = ok []
query_chunks cfg send field (chunk ∷ chunks) =
    build_or_query field chunk (active_only cfg.user_active_only) >>= λ query.
    query_table send "sys_user" query (fields cfg) (length chunk * 4) >>= λ rows.
    query_chunks cfg send field chunks >>= λ rest. ok (rows ++ rest)

-- `_query_users`
unfoldable pub query_users : Settings → Send → String → List String → Result (List Value)
unfolding query_chunks chunked
query_users cfg send field values = query_chunks cfg send field (chunked values lookup_chunk_size)

abbrev pub Row : Type 0
Row = Dict Value

-- `str(row.get(field) or "").strip().lower()`
abbrev pub value_of : String → Row → String
value_of field row = lower (strip (show (get_or_empty field row)))

unfoldable pub read_rows : List Value → Result (List Row)
read_rows [] = ok []
read_rows (v ∷ vs) = entries_of v >>= λ row. read_rows vs >>= λ rows. ok (row ∷ rows)

-- `by_value.setdefault(value, []).append(row)`, for each row with a value
unfoldable pub group_rows : String → List Row → Dict (List Row)
unfolding group
group_rows field rows = group (value_of field) (λ row. row) rows []

abbrev pub ref_of : String → Row → SysUserRef
ref_of key row = record {
  sys_id = show (get_or_empty "sys_id" row);
  user_name = get "user_name" row;
  email = get "email" row;
  employee_number = get "employee_number" row;
  matched_on = key;
}

unfoldable pub set_all : List String → SysUserRef → Dict SysUserRef → Dict SysUserRef
set_all [] ref matched = matched
set_all (id ∷ ids) ref matched = set_all ids ref (setdefault id ref matched)

-- Only a value that exactly one record carries is a match, and only if the record has a sys_id.
unfoldable pub match_candidate : String → List Row → List String → Dict SysUserRef → Dict SysUserRef
unfolding set_all
match_candidate key [] ids matched = matched
match_candidate key (row ∷ []) ids matched =
    if truthy (ref_of key row).sys_id then set_all ids (ref_of key row) matched else matched
match_candidate key (row ∷ other ∷ rows) ids matched = matched

unfoldable pub match_candidates :
    String → Dict (List Row) → Candidates → Dict SysUserRef → Dict SysUserRef
unfolding match_candidate
match_candidates key groups [] matched = matched
match_candidates key groups ((value, c) ∷ cs) matched =
    match_candidates key groups cs
      (match_candidate key (items_at value groups) c.object_ids matched)

unfoldable pub match_rows : String → String → Candidates → List Row → Dict SysUserRef
unfolding match_candidates group_rows
match_rows key field candidates rows = match_candidates key (group_rows field rows) candidates []

in_field : Settings → Send → String → Candidates → Option String → Result (Dict SysUserRef)
unfolding query_users match_rows read_rows
in_field cfg send key candidates none = ok []
in_field cfg send key candidates (some field) =
    query_users cfg send field (map (λ e. e.1.original) candidates) >>= λ found.
    read_rows found >>= λ rows. ok (match_rows key field candidates rows)

unless_none : Candidates → Result (Dict SysUserRef) → Result (Dict SysUserRef)
unless_none [] rest = ok []
unless_none (c ∷ cs) rest = rest

-- `_resolve_by_key`
unfoldable pub resolve_by_key : Settings → Send → String → List EntraUser → Result (Dict SysUserRef)
unfolding unless_none in_field snow_field_for
resolve_by_key cfg send key users = candidate_values key users >>= λ candidates.
    unless_none candidates (in_field cfg send key candidates (snow_field_for cfg key))
