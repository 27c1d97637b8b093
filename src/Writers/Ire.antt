-- ===== src/Writers/Ire.antt =====
-- servicenow/writers/ire.py: `IdentifyReconcileWriter`, one request for a batch.
pub mod Results
pub mod Served
use Prim.Native.String
use mac_service_now_cmdb.Base.{
  ℕ, zero, suc, String, Bool, true, false, Option, none, some, List, [], ◌∷◌, ◌++◌, ◌||◌, ◌&&◌, not,
  ◌==◌, map, length, if◌then◌else◌,
}
use mac_service_now_cmdb.Text.{truthy, upper, join}
use mac_service_now_cmdb.Dict.{Dict, lookup, mem}
use mac_service_now_cmdb.Json.Value.{
  Value, str, arr, obj, of_dict, of_list, get, get_or_empty, is_true, as_dict, to_list,
}
use mac_service_now_cmdb.Json.Show.{show, show_nat, repr}
use mac_service_now_cmdb.Errors.{Error, service_now, value_error, other, Result, ok, err, ◌>>=◌}
use mac_service_now_cmdb.Http.Response.{Response, is_success}
use mac_service_now_cmdb.Writers.Errors.{
  item_errors, refusal_detail, unscoped_api_suffix, log_context_id, log_context_suffix,
}
use mac_service_now_cmdb.Client.{Request, Send, or_empty}
use mac_service_now_cmdb.Writers.Types.{CiPayload, WriteResult, failure}

-- The settings of `ServiceNowConfig` that this writer reads, and whether the run is dry.
pub record Settings : Type 0 where
  pub discovery_source : String
  pub source_feed : String
  pub use_enhanced_ire : Bool
  pub enhanced_ire_options : String
  pub dry_run : Bool

unfoldable pub endpoint : Settings → String
endpoint s =
    if s.dry_run
    then "/api/now/identifyreconcile/query"
    else if s.use_enhanced_ire
    then "/api/now/identifyreconcile/enhanced"
    else "/api/now/identifyreconcile"

-- `_OPERATION_TO_ACTION`
abbrev pub operations : Dict String
operations =
    ("INSERT", "inserted")
    ∷ ("UPDATE", "updated")
    ∷ ("UPDATE_WITH_UPGRADE", "updated")
    ∷ ("UPDATE_WITH_DOWNGRADE", "updated")
    ∷ ("UPDATE_WITH_SWITCH", "updated")
    ∷ ("NO_CHANGE", "unchanged")
    ∷ ("DELETE", "updated")
    ∷ []

abbrev optional : String → String → Dict Value
optional k v = if truthy v then (k, str v) ∷ [] else []

abbrev recency : Option String → Dict Value
recency none = []
recency (some t) = optional "source_recency_timestamp" t

-- The entry of one device in the body.
unfoldable pub payload_item : Settings → CiPayload → Value
payload_item s item = obj (
    of_dict (
      ("className", str item.class_name)
      ∷ ("internal_id", str item.intune_id)
      ∷ ("values", obj (of_dict item.values))
      ∷ (
        "sys_object_source_info",
        obj (
            of_dict (
              (("source_native_key", str item.intune_id)
                ∷ ("source_name", str s.discovery_source)
                ∷ [])
              ++ optional "source_feed" s.source_feed
              ++ recency item.source_recency)),
      )
      ∷ []))

unfoldable pub build_payload : Settings → List CiPayload → Value
unfolding payload_item
build_payload s batch = obj (
    of_dict (
      ("items", arr (of_list (map (payload_item s) batch))) ∷ ("relations", arr (of_list [])) ∷ []))

-- `errors[-1] += suffix`
abbrev pub append_last : String → List String → List String
append_last suffix [] = []
append_last suffix (e ∷ []) = String.◌++◌ e suffix ∷ []
append_last suffix (e ∷ f ∷ es) = e ∷ append_last suffix (f ∷ es)

-- The entries of an item that the report does not carry elsewhere.
unreported : Dict Value → Dict Value
unreported [] = []
unreported ((k, v) ∷ d) =
    let rest = unreported d in
    if k == "className" || k == "operation" || k == "sysId" then rest else (k, v) ∷ rest

abbrev pub some_if_any : Dict Value → Option (Dict Value)
some_if_any [] = none
some_if_any (e ∷ d) = some (e ∷ d)

-- `d.get(k) or None`, for a text
abbrev pub text_or_none : Value → Option String
text_or_none v = if is_true v then some (show v) else none

-- `str(item.get("operation") or "").upper()`
unfoldable pub operation_of : Value → String
unfolding upper show
operation_of item = upper (show (get_or_empty "operation" (as_dict item)))

-- The result of an item without errors, by the action of its operation.
from_action : Bool → String → String → Value → Option String → WriteResult
unfolding unreported
from_action dry_run suffix id item none =
    failure id
      (join "" ("unrecognised IRE operation " ∷ repr (operation_of item) ∷ suffix ∷ []) ∷ [])
from_action dry_run suffix id item (some action) = record {
  intune_id = id;
  action = if dry_run then String.◌++◌ "dry_run:" action else action;
  sys_id = text_or_none (get "sysId" (as_dict item));
  errors = [];
  detail = some_if_any (unreported (as_dict item));
}

from_errors : Bool → String → String → Value → List String → WriteResult
unfolding from_action
from_errors dry_run suffix id item (e ∷ es) = failure id (append_last suffix (e ∷ es))
from_errors dry_run suffix id item [] =
    from_action dry_run suffix id item (lookup (operation_of item) operations)

-- The result of one device from its item, `items[index] or {}`.
unfoldable pub parse_item : Bool → String → String → Value → Result WriteResult
unfolding from_errors
parse_item dry_run suffix id item = or_empty item >>= λ d.
    item_errors item >>= λ errors. ok (from_errors dry_run suffix id item errors)

-- `_parse_results`: by position; a device beyond the items that came back is an error. What an item
-- raises ends the batch.
unfoldable pub parse_results :
    Bool → String → List CiPayload → List Value → Result (List WriteResult)
parse_results dry_run suffix [] items = ok []
parse_results dry_run suffix (p ∷ batch) [] = parse_results dry_run suffix batch [] >>= λ rs.
    ok (failure p.intune_id (String.◌++◌ "no IRE result returned for this item" suffix ∷ []) ∷ rs)
parse_results dry_run suffix (p ∷ batch) (item ∷ items) =
    parse_item dry_run suffix p.intune_id item >>= λ r.
    parse_results dry_run suffix batch items >>= λ rs. ok (r ∷ rs)

abbrev pub enhanced_options : Settings → Dict Value
enhanced_options s =
    if s.use_enhanced_ire && not s.dry_run && truthy s.enhanced_ire_options
    then ("options", str s.enhanced_ire_options) ∷ []
    else []

abbrev pub write_request : Settings → List CiPayload → Request
write_request s batch = record {
  method = "POST";
  path = endpoint s;
  params = ("sysparm_data_source", str s.discovery_source) ∷ enhanced_options s;
  json_body = build_payload s batch;
}

-- The error of a batch that was refused, or the one that reading its body raises
unfoldable pub refusal_from : Settings → List CiPayload → Response → Result String → Error
unfolding endpoint
refusal_from s batch r (err e) = e
refusal_from s batch r (ok detail) = service_now (
    join "" (
      "identifyreconcile ("
      ∷ show_nat (length batch)
      ∷ " items) failed: "
      ∷ detail
      ∷ unscoped_api_suffix detail "POST" (endpoint s)
      ∷ log_context_suffix (log_context_id r)
      ∷ []))

abbrev pub refusal : Settings → List CiPayload → Response → Error
refusal s batch r = refusal_from s batch r (refusal_detail r)

-- `(response.json() or {}).get("result") or {}`
unfoldable pub envelope : Value → Result (Dict Value)
envelope payload = or_empty payload >>= λ p. or_empty (get "result" p)

-- `result.get("items") or []`, read by `len(items)` and `items[0]` for a batch that is not empty: a
-- text has characters, which have no `get`; a dictionary has no key 0; anything else has no length.
unfoldable pub items_of : Value → Result (List Value)
items_of (arr xs) = ok (to_list xs)
items_of (str s) = if truthy s then err (other "AttributeError") else ok []
items_of (obj fs) = if is_true (obj fs) then err (other "KeyError") else ok []
items_of v = if is_true v then err (other "TypeError") else ok []

-- The results from an accepted response; a body that is not JSON raises `ValueError`.
accepted : Settings → List CiPayload → Option Value → Result (List WriteResult)
unfolding envelope items_of parse_results
accepted s batch none = err (value_error "the response is not JSON")
accepted s batch (some payload) = envelope payload >>= λ result.
    items_of (get "items" result) >>= λ items.
    parse_results s.dry_run (log_context_suffix (text_or_none (get "logContextId" result))) batch
      items

answered : Settings → List CiPayload → Result Response → Result (List WriteResult)
unfolding accepted refusal_from is_success
answered s batch (err e) = err e
answered s batch (ok r) = if is_success r then accepted s batch r.body else err (refusal s batch r)

-- `IdentifyReconcileWriter.write`
unfoldable pub write : Settings → Send → List CiPayload → Result (List WriteResult)
unfolding answered
write s send [] = ok []
write s send (p ∷ batch) = answered s (p ∷ batch) (send (write_request s (p ∷ batch)))
