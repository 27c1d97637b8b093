-- ===== src/Writers/Access.antt =====
-- servicenow/writers/access.py: whether the way to write is open, asked without writing.
pub mod Harmless
use Prim.Native.String
use mac_service_now_cmdb.Base.{
  String, Bool, true, false, Option, none, some, List, [], ◌∷◌, ◌++◌, not, ◌==◌, ◌&&◌, ◌||◌, eqb,
  if◌then◌else◌,
}
use mac_service_now_cmdb.Text.{truthy, lower, join}
use mac_service_now_cmdb.Json.Value.{
  Value, null, str, arr, obj, nil, cons, of_list, of_dict, get, is_true,
}
use mac_service_now_cmdb.Json.Show.{show, show_nat, repr}
use mac_service_now_cmdb.Errors.{service_now, value_error, other, Result, ok, err, ◌>>=◌}
use mac_service_now_cmdb.Http.Response.{Response, is_success, describe_error}
use mac_service_now_cmdb.Client.{Request, Send, or_empty, result_of}
use mac_service_now_cmdb.Config.Env.{given}
use mac_service_now_cmdb.Config.Snow.{ServiceNowConfig}
use mac_service_now_cmdb.Writers.Errors.{
  has_part, item_errors, unscoped_api_refusal, unscoped_api_suffix, log_context_id,
  log_context_suffix,
}
use mac_service_now_cmdb.Writers.Simulation.{
  WriteAccessCheck, unverified, class_or_default, refuse, is_refusal, query_probe, query_answer,
}
use mac_service_now_cmdb.Writers.Source.{discovery_source_caveats}

abbrev pub instance_api : String
instance_api = "/api/now/cmdb/instance"

-- `f"{CMDB_INSTANCE_API}/{PROBE_CLASS}"`
abbrev pub probe_path : String
probe_path = "/api/now/cmdb/instance/cmdb_ci_intune_cmdb_sync_probe_no_such_class"

abbrev any_class : String
any_class = "/api/now/cmdb/instance/{className}"

abbrev pub instance_probe : Request
instance_probe = record {
  method = "POST";
  path = probe_path;
  params = [];
  json_body = obj (of_dict []);
}

abbrev when : Bool → String → List String
when true caveat = caveat ∷ []
when false caveat = []

instance_caveats : ServiceNowConfig → List String
unfolding class_or_default
instance_caveats cfg =
    (join "" (
        "the CMDB Instance API has no simulation endpoint, so whether the identification rules for "
        ∷ class_or_default cfg.default_class
        ∷ " accept these attributes is only knowable from a real write. Run with --limit 1 first."
        ∷ [])
      ∷ [])
    ++ when cfg.retire_missing
        "SNOW_RETIRE_MISSING is on: retirement PATCHes the Table API, which is a separate API from this one and separately scoped. Confirm it with `intune-cmdb-sync --check-api` (the table_update row)."
    ++ when (not (cfg.set_correlation && given cfg.correlation_field))
        "SNOW_SET_CORRELATION is off. This write mode cannot send sys_object_source_info, so with no correlation field there is nothing on the CI recording which Intune device it came from."

callable : ServiceNowConfig → Response → List String → WriteAccessCheck
unfolding instance_caveats show_nat
callable cfg r caveats = record {
  verified = true;
  detail = join "" (
      "POST "
      ∷ any_class
      ∷ " is callable by these credentials (probed with a class that does not exist: HTTP "
      ∷ show_nat r.status
      ∷ "); nothing was created"
      ∷ []);
  caveats = caveats ++ instance_caveats cfg;
}

unfoldable pub instance_answer : Send → ServiceNowConfig → Response → Result WriteAccessCheck
unfolding refuse callable describe_error unscoped_api_refusal unscoped_api_suffix has_part lower
    discovery_source_caveats
instance_answer send cfg r =
    if is_refusal r
    then (if unscoped_api_refusal (describe_error r)
        then refuse (
            "the CMDB Instance API is not available to these credentials: "
            ∷ describe_error r
            ∷ "."
            ∷ unscoped_api_suffix (describe_error r) "POST" any_class
            ∷ [])
        else refuse (
            "the integration user cannot write through the CMDB Instance API: "
            ∷ describe_error r
            ∷ ". It needs the 'itil' or 'asset' role."
            ∷ []))
    else if eqb r.status 404 && has_part "does not represent any resource" (lower r.content)
    then ok (
        unverified
          "this instance has no /api/now/cmdb/instance endpoint, so SNOW_WRITE_MODE=cmdb_instance cannot run here.")
    else discovery_source_caveats send cfg.discovery_source >>= λ caveats.
        ok (callable cfg r caveats)

-- `_verify_cmdb_instance_access`
unfoldable pub verify_cmdb_instance_access : Send → ServiceNowConfig → Result WriteAccessCheck
unfolding instance_answer
verify_cmdb_instance_access send cfg = send instance_probe >>= instance_answer send cfg

-- `verify_write_access`
unfoldable pub verify_write_access : Send → ServiceNowConfig → Result WriteAccessCheck
unfolding verify_cmdb_instance_access query_answer query_probe
verify_write_access send cfg =
    if cfg.write_mode == "cmdb_instance"
    then verify_cmdb_instance_access send cfg
    else if not (cfg.write_mode == "identify_reconcile")
    then ok (
        unverified (
          join "" (
            "SNOW_WRITE_MODE=" ∷ cfg.write_mode
            ∷ " has no simulation endpoint, so write access cannot be checked without creating a CI. Verify it manually before the first run."
            ∷ [])))
    else send (query_probe cfg) >>= query_answer cfg
