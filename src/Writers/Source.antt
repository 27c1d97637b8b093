-- ===== src/Writers/Source.antt =====
-- servicenow/writers/discovery_source.py: the choice value that every write names. The n-th request of
-- `register_discovery_source` is answered by `send n`, since its own insert changes the answers.
pub mod Registered
use Prim.Native.String
use mac_service_now_cmdb.Base.{
  ℕ, String, Bool, true, false, Option, none, some, List, [], ◌∷◌, ◌++◌, keep, map, take, not, ◌==◌,
  ◌||◌, if◌then◌else◌,
}
use mac_service_now_cmdb.Text.{truthy, lower, strip, join}
use mac_service_now_cmdb.Dict.{Dict, mem}
use mac_service_now_cmdb.Json.Value.{Value, str, arr, obj, of_list, of_dict, get, get_or_empty}
use mac_service_now_cmdb.Json.Show.{show, repr, repr_value}
use mac_service_now_cmdb.Errors.{Error, service_now, value_error, Result, ok, err, ◌>>=◌, text_of}
use mac_service_now_cmdb.Http.Response.{Response, is_success, describe_error}
use mac_service_now_cmdb.Client.{Request, Send, entries_of, or_empty, result_of, query_table}
use mac_service_now_cmdb.Writers.Errors.{unscoped_api_suffix}

abbrev pub choice_query : String → String
choice_query source = String.◌++◌ "name=cmdb_ci^element=discovery_source^valueLIKE" source

-- `str(row.get("value") or "")`
abbrev pub choice_value : Dict Value → String
choice_value row = show (get_or_empty "value" row)

abbrev pub is_inactive : Dict Value → Bool
is_inactive row = mem (lower (show (get_or_empty "inactive" row))) ("true" ∷ "1" ∷ [])

-- One row: a value that is active, and not there already
unfoldable pub add_choice : Dict Value → List String → List String
add_choice row values =
    if not (truthy (choice_value row)) || is_inactive row
    then values
    else if mem (choice_value row) values
    then values
    else values ++ (choice_value row ∷ [])

unfoldable pub read_choices : List Value → List String → Result (List String)
unfolding add_choice
read_choices [] values = ok values
read_choices (row ∷ rows) values = entries_of row >>= λ d. read_choices rows (add_choice d values)

abbrev pub choice_rows : Send → String → Result (List Value)
choice_rows send source =
    query_table send "sys_choice" (choice_query source) ("value" ∷ "inactive" ∷ []) 100

-- `similar_discovery_sources`
unfoldable pub similar_discovery_sources : Send → String → Result (List String)
unfolding read_choices
similar_discovery_sources send source = choice_rows send source >>= λ rows. read_choices rows []

abbrev pub choice_record : String → Dict String
choice_record source =
    ("name", "cmdb_ci")
    ∷ ("element", "discovery_source")
    ∷ ("value", source)
    ∷ ("label", source)
    ∷ ("inactive", "false")
    ∷ ("language", "en")
    ∷ []

abbrev pub choice_path : String
choice_path = "/api/now/table/sys_choice"

abbrev pub insert_request : String → Request
insert_request source = record {
  method = "POST";
  path = choice_path;
  params = [];
  json_body = obj (of_dict (map (λ e. (e.0, str e.1)) (choice_record source)));
}

-- `f"{k}={v!r}"` of each entry
abbrev pairs_shown : Dict String → String
pairs_shown d = join ", " (map (λ e. join "" (e.0 ∷ "=" ∷ repr e.1 ∷ [])) d)

refused_insert : String → Response → String
unfolding describe_error unscoped_api_suffix
refused_insert source r = join "" (
    "could not create the choice value: "
    ∷ describe_error r
    ∷ unscoped_api_suffix (describe_error r) "POST" choice_path
    ∷ " Writing sys_choice usually needs the 'admin' or 'personalize_choices' role, which an integration user does not normally carry. Ask a ServiceNow admin to create exactly this record (System Definition > Choice Lists > New): "
    ∷ pairs_shown (choice_record source)
    ∷ [])

abbrev texts : List String → String
texts values = repr_value (arr (of_list (map str values)))

abbrev found : List String → String
found [] = "nothing similar"
found (v ∷ vs) = texts (v ∷ vs)

unconfirmed : String → List String → String
unconfirmed source values = join "" (
    "the choice value was submitted but "
    ∷ repr source
    ∷ " is still not readable on cmdb_ci.discovery_source (found: "
    ∷ found values
    ∷ "). Check for a business rule or data policy on sys_choice before writing devices."
    ∷ [])

-- `((response.json() or {}).get("result") or {}).get("sys_id")`
inserted_id : Response → Result Value
inserted_id r = elim r.body [
  | none ↦ err (value_error "the response is not JSON")
  | some payload ↦ result_of payload >>= or_empty >>= λ d. ok (get "sys_id" d)
]

already_registered : String → String
already_registered source =
    String.◌++◌ (repr source) " is already a registered choice value; nothing to do"

newly_registered : String → Value → String
newly_registered source id = join "" (
    "registered "
    ∷ repr source
    ∷ " as a choice value on cmdb_ci.discovery_source (sys_choice sys_id="
    ∷ show id
    ∷ "); writes will now be accepted"
    ∷ [])

-- The insert and the second read
unfoldable pub insert_choice : (ℕ → Send) → String → Result String
unfolding is_success refused_insert unconfirmed inserted_id newly_registered
    similar_discovery_sources
insert_choice send source = send 1 (insert_request source) >>= λ r.
    if not (is_success r)
    then err (service_now (refused_insert source r))
    else similar_discovery_sources (send 2) source >>= λ confirmed.
        if not (mem source confirmed)
        then err (service_now (unconfirmed source confirmed))
        else inserted_id r >>= λ id. ok (newly_registered source id)

-- `register_discovery_source`
unfoldable pub register_discovery_source : (ℕ → Send) → String → Result String
unfolding insert_choice similar_discovery_sources already_registered
register_discovery_source send source = similar_discovery_sources (send 0) source >>= λ known.
    if mem source known then ok (already_registered source) else insert_choice send source

abbrev setting : String → String
setting source = String.◌++◌ "SNOW_DISCOVERY_SOURCE=" (repr source)

unregistered : String → String
unregistered source =
    String.◌++◌ (setting source)
      " is not a choice value on cmdb_ci.discovery_source, so every write will be rejected with INVALID_INPUT_DATA (docs/servicenow-setup.md section 5)."

case_only : String → List String → List String
unfolding strip lower
case_only source candidates = keep (λ v. lower (strip v) == lower (strip source)) candidates

-- Why a value that is no candidate itself is refused: by one that differs in case or spacing, by ones
-- that contain it, or by none.
refusal_of : String → List String → List String → String
unfolding unregistered
refusal_of source (v ∷ vs) candidates = join "" (
    unregistered source
    ∷ " "
    ∷ repr v
    ∷ " IS registered and differs only by case or spacing — set SNOW_DISCOVERY_SOURCE to exactly that."
    ∷ [])
refusal_of source [] (v ∷ vs) = join "" (
    unregistered source
    ∷ " These registered values resemble it: "
    ∷ join ", " (map repr (take 10 (v ∷ vs)))
    ∷ ". Use one of them, or have the configured value registered."
    ∷ [])
refusal_of source [] [] = join "" (
    unregistered source
    ∷ " No registered value contains "
    ∷ repr source
    ∷ " either, so it needs adding under System Definition > Choice Lists (table cmdb_ci, element discovery_source) — a ServiceNow admin action."
    ∷ [])

unreadable : String → String → String
unreadable source message = join "" (
    "could not read sys_choice to confirm "
    ∷ setting source
    ∷ " is registered ("
    ∷ message
    ∷ "); an unregistered value is rejected on every write"
    ∷ [])

caveats_of : String → Result (List String) → Result (List String)
unfolding unreadable refusal_of case_only
caveats_of source (err (service_now m)) = ok (unreadable source m ∷ [])
caveats_of source (err e) = err e
caveats_of source (ok candidates) =
    if mem source candidates
    then ok []
    else err (service_now (refusal_of source (case_only source candidates) candidates))

-- `_discovery_source_caveats`
unfoldable pub discovery_source_caveats : Send → String → Result (List String)
unfolding caveats_of similar_discovery_sources
discovery_source_caveats send source = caveats_of source (similar_discovery_sources send source)
