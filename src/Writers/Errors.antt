-- ===== src/Writers/Errors.antt =====
-- servicenow/writers/errors.py: what a refused write says.
use Prim.Native.Char.{Char, code}
use mac_service_now_cmdb.Base.{
  String, Bool, true, false, Option, none, some, List, [], ◌∷◌, ◌||◌, ◌&&◌, not, eqb, map, keep,
  if◌then◌else◌, ◌≡◌, refl,
}
use mac_service_now_cmdb.Text.{truthy, strip, strip_of, lower, join, has_char}
use mac_service_now_cmdb.Dict.{lookup}
use mac_service_now_cmdb.Json.Value.{
  Value, str, arr, obj, nil, cons, field, end, get, get_or_empty, is_true, is_dict, to_list,
  as_dict, to_dict,
}
use mac_service_now_cmdb.Json.Show.{show, show_nat, repr}
use mac_service_now_cmdb.Errors.{other, Result, ok, err, ◌>>=◌}
use mac_service_now_cmdb.Http.Response.{Response, describe_error}

-- `needle in s`
abbrev begins : String → String → Bool
begins String.[] s = true
begins (String.◌∷◌ c n) String.[] = false
begins (String.◌∷◌ c n) (String.◌∷◌ d s) = eqb (code c) (code d) && begins n s

unfoldable pub has_part : String → String → Bool
has_part needle String.[] = begins needle ""
has_part needle (String.◌∷◌ c s) = begins needle (String.◌∷◌ c s) || has_part needle s

-- The characters of `": "`.
abbrev is_colon_or_space : Char → Bool
is_colon_or_space c = eqb (code c) 58 || eqb (code c) 32

-- The message of one error: the label and the detail of a dictionary, or the text of anything else.
unfoldable pub error_message : Value → String
unfolding strip strip_of join show
error_message (obj fs) =
    let d = to_dict fs in
    strip (
      strip_of is_colon_or_space
        (join "" (show (get_or_empty "error" d) ∷ ": " ∷ show (get_or_empty "message" d) ∷ [])))
error_message v = show v

unfoldable pub collect_item_errors : List Value → List String
unfolding error_message
collect_item_errors errors = keep truthy (map error_message errors)

-- The characters of a text, which a loop over it takes one by one.
unfoldable pub characters : String → List Value
characters String.[] = []
characters (String.◌∷◌ c s) = str (String.◌∷◌ c "") ∷ characters s

-- `for err in item.get("errors") or []`: what is true and cannot be iterated raises a `TypeError`.
unfoldable pub errors_in : Value → Result (List Value)
unfolding characters
errors_in (arr xs) = ok (to_list xs)
errors_in (obj fs) = ok (map (λ e. str e.0) (to_dict fs))
errors_in (str s) = ok (characters s)
errors_in v = if is_true v then err (other "TypeError") else ok []

-- `_collect_item_errors`
unfoldable pub item_errors : Value → Result (List String)
unfolding errors_in collect_item_errors
item_errors item =
    errors_in (get "errors" (as_dict item)) >>= λ errors. ok (collect_item_errors errors)

-- The first item of a result, if it is a dictionary.
first_item : Value → Option Value
first_item (obj fs) = elim (get "items" (to_dict fs)) [
  | arr xs ↦ elim xs [ nil ↦ none | cons x _ ↦ if is_dict x then some x else none ]
  | _ ↦ none
]
first_item _ = none

joined_errors : Response → List String → Option String
unfolding join show_nat
joined_errors r [] = none
joined_errors r (e ∷ es) =
    some (join "" ("HTTP " ∷ show_nat r.status ∷ ": " ∷ join "; " (e ∷ es) ∷ []))

-- `_ire_item_error`
unfoldable pub ire_item_error : Response → Result (Option String)
unfolding first_item item_errors joined_errors
ire_item_error r = elim r.body [
  | none ↦ ok none
  | some payload ↦ elim (first_item (get "result" (as_dict payload))) [
    | none ↦ ok none
    | some item ↦ item_errors item >>= λ errors. ok (joined_errors r errors)
  ]
]

-- `_ire_item_error(response) or describe_error(response)`
unfoldable pub refusal_detail : Response → Result String
unfolding ire_item_error
refusal_detail r = ire_item_error r >>= λ d. ok (elim d [ none ↦ describe_error r | some s ↦ s ])

-- `_query_safe`
unfoldable pub query_safe : Option String → Option String
unfolding strip
query_safe none = none
query_safe (some value) =
    let cleaned = strip value in
    if not (truthy cleaned) || has_char 44 cleaned || has_char 94 cleaned
    then none
    else some cleaned

unfoldable pub unscoped_api_refusal : String → Bool
unfolding has_part lower
unscoped_api_refusal detail = has_part "unscoped api" (lower detail)

-- `_data_source_hint`, with the configured discovery source
unfoldable pub data_source_hint : String → String → String
unfolding has_part lower join repr
data_source_hint detail source =
    if not (has_part "data source" (lower detail))
      && not (has_part "discovery_source" (lower detail))
    then ""
    else join "" (
        " SNOW_DISCOVERY_SOURCE="
        ∷ repr source
        ∷ " must exist as a choice value on "
        ∷ "cmdb_ci.discovery_source before any write is accepted, matching exactly including "
        ∷ "case. Add it under System Definition > Choice Lists (table cmdb_ci, element "
        ∷ "discovery_source), or set SNOW_DISCOVERY_SOURCE to a value already registered — "
        ∷ "`intune-cmdb-sync --check` lists the registered ones. See "
        ∷ "docs/servicenow-setup.md section 5."
        ∷ [])

-- `_unscoped_api_suffix`, for a method and a path
unfoldable pub unscoped_api_suffix : String → String → String → String
unfolding unscoped_api_refusal join
unscoped_api_suffix detail method path =
    if not (unscoped_api_refusal detail)
    then ""
    else join "" (
        " This is the OAuth client being refused " ∷ method ∷ " " ∷ path
        ∷ " at the REST gate, before "
        ∷ "any role or ACL is consulted, so it is not a missing role: the Application Registry "
        ∷ "entry is Securely Scoped and has no REST API Auth Scope linked for " ∷ method ∷ " on "
        ∷ path ∷ ". Adding 'itil' will not change it. Whether "
        ∷ "SNOW_WRITE_MODE=cmdb_instance is refused too depends on which auth scopes exist — "
        ∷ "it is a separate API and has been observed allowed on an instance that refuses "
        ∷ "identifyreconcile. Run `intune-cmdb-sync --check-api` for a per-endpoint, "
        ∷ "per-method breakdown of what this credential may call. See "
        ∷ "docs/servicenow-setup.md." ∷ [])

-- `_log_context_id`: from the result, or else from the payload.
unfoldable pub log_context_id : Response → Option String
unfolding show
log_context_id r = elim r.body [
  | none ↦ none
  | some payload ↦
      let inner = get "logContextId" (as_dict (get "result" (as_dict payload))) in
      let outer = get "logContextId" (as_dict payload) in
      if is_true inner then some (show inner) else if is_true outer then some (show outer) else none
]

-- `_log_context_suffix`
unfoldable pub log_context_suffix : Option String → String
unfolding join
log_context_suffix none = ""
log_context_suffix (some id) =
    if truthy id then join "" (" [IRE logContextId=" ∷ id ∷ "]" ∷ []) else ""

error_message_test :
    error_message
      (obj (field "error" (str "INVALID_INPUT_DATA") (field "message" (str "bad source") end)))
    ≡ "INVALID_INPUT_DATA: bad source"
unfolding error_message lookup
error_message_test = refl
