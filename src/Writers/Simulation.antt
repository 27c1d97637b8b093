-- ===== src/Writers/Simulation.antt =====
-- servicenow/writers/access.py: the simulation of a write by the API of identification, and what its
-- answer says.
use mac_service_now_cmdb.Base.{
  String, Bool, true, false, Option, none, some, List, [], ◌∷◌, not, ◌||◌, eqb, if◌then◌else◌,
}
use mac_service_now_cmdb.Text.{truthy, lower, join}
use mac_service_now_cmdb.Json.Value.{Value, str, arr, obj, nil, cons, of_dict, get, is_true}
use mac_service_now_cmdb.Json.Show.{show, repr}
use mac_service_now_cmdb.Errors.{service_now, value_error, other, Result, ok, err, ◌>>=◌}
use mac_service_now_cmdb.Http.Response.{Response, is_success, describe_error}
use mac_service_now_cmdb.Client.{Request, or_empty, result_of}
use mac_service_now_cmdb.Config.Snow.{ServiceNowConfig}
use mac_service_now_cmdb.Writers.Errors.{
  has_part, item_errors, unscoped_api_suffix, log_context_id, log_context_suffix,
}

pub record WriteAccessCheck : Type 0 where
  pub verified : Bool
  pub detail : String
  pub caveats : List String

abbrev pub query_api : String
query_api = "/api/now/identifyreconcile/query"

-- `cfg.default_class or "cmdb_ci_computer"`
unfoldable pub class_or_default : Option String → String
class_or_default none = "cmdb_ci_computer"
class_or_default (some s) = if truthy s then s else "cmdb_ci_computer"

abbrev pub unverified : String → WriteAccessCheck
unverified detail = record { verified = false; detail = detail; caveats = [] }

unfoldable pub refuse : List String → Result WriteAccessCheck
refuse parts = err (service_now (join "" parts))

abbrev pub is_refusal : Response → Bool
is_refusal r = eqb r.status 401 || eqb r.status 403

unfoldable pub query_probe : ServiceNowConfig → Request
unfolding class_or_default
query_probe cfg = record {
  method = "POST";
  path = query_api;
  params = ("sysparm_data_source", str cfg.discovery_source) ∷ [];
  json_body = obj (
      of_dict (
        (
          "items",
          arr (
              cons
                (obj (
                  of_dict (
                    ("className", str (class_or_default cfg.default_class))
                    ∷ (
                      "values",
                      obj (
                          of_dict (
                            ("name", str "intune-cmdb-sync-write-access-probe")
                            ∷ ("serial_number", str "INTUNE-CMDB-SYNC-PROBE")
                            ∷ [])),
                    )
                    ∷ (
                      "sys_object_source_info",
                      obj (
                          of_dict (
                            ("source_native_key", str "intune-cmdb-sync:write-access-probe")
                            ∷ ("source_name", str cfg.discovery_source)
                            ∷ [])),
                    )
                    ∷ [])))
                nil),
        )
        ∷ ("relations", arr nil)
        ∷ []));
}

-- `_collect_item_errors(items[0]) if items else []`
first_errors : Value → Result (List String)
first_errors (arr (cons item rest)) = item_errors item
first_errors items = if is_true items then err (other "KeyError") else ok []

abbrev text_or_none : Value → Option String
text_or_none v = if is_true v then some (show v) else none

simulation : ServiceNowConfig → WriteAccessCheck
unfolding class_or_default
simulation cfg = record {
  verified = true;
  detail = join "" (
      "IRE simulated a write as "
      ∷ repr cfg.discovery_source
      ∷ " into "
      ∷ class_or_default cfg.default_class
      ∷ "; nothing was committed"
      ∷ []);
  caveats = [];
}

unless_errors : ServiceNowConfig → Value → List String → Result WriteAccessCheck
unfolding refuse simulation log_context_suffix
unless_errors cfg id [] = ok (simulation cfg)
unless_errors cfg id (e ∷ es) = refuse (
    "IRE accepted the request but rejected the probe item: "
    ∷ join "; " (e ∷ es)
    ∷ log_context_suffix (text_or_none id)
    ∷ [])

-- The item of an answer that was accepted
probed_item : ServiceNowConfig → Response → Result WriteAccessCheck
unfolding first_errors unless_errors
probed_item cfg r = elim r.body [
  | none ↦ err (value_error "the response is not JSON")
  | some payload ↦ result_of payload >>= or_empty >>= λ result.
      first_errors (get "items" result) >>= unless_errors cfg (get "logContextId" result)
]

source_hint : String → String → String
unfolding has_part lower repr
source_hint detail source =
    if has_part "data source" (lower detail)
    then join "" (
        " SNOW_DISCOVERY_SOURCE="
        ∷ repr source
        ∷ " must exist as a choice value on cmdb_ci.discovery_source, matching exactly including case (docs/servicenow-setup.md section 5)."
        ∷ [])
    else ""

unfoldable pub query_answer : ServiceNowConfig → Response → Result WriteAccessCheck
unfolding refuse source_hint probed_item is_success describe_error unscoped_api_suffix
    log_context_id log_context_suffix
query_answer cfg r =
    if eqb r.status 404
    then ok (
        unverified
          "this instance has no /api/now/identifyreconcile/query endpoint, so write access could not be simulated. If the release predates the IRE API, use SNOW_WRITE_MODE=cmdb_instance.")
    else if is_refusal r
    then (if truthy (unscoped_api_suffix (describe_error r) "POST" "this API")
        then refuse (
            "the Identification and Reconciliation API is not available to these credentials: "
            ∷ describe_error r
            ∷ "."
            ∷ unscoped_api_suffix (describe_error r) "POST" query_api
            ∷ [])
        else refuse (
            "the integration user cannot use the Identification and Reconciliation API: "
            ∷ describe_error r
            ∷ ". It needs the 'itil' or 'asset' role."
            ∷ []))
    else if not (is_success r)
    then refuse (
        "IRE rejected a write-access probe: "
        ∷ describe_error r
        ∷ log_context_suffix (log_context_id r)
        ∷ source_hint (describe_error r) cfg.discovery_source
        ∷ [])
    else probed_item cfg r
