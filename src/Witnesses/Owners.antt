-- ===== src/Witnesses/Owners.antt =====
-- Concrete runs of the resolution of owners.
use mac_service_now_cmdb.Base.{String, ◌≡◌, ◌≢◌, refl, true, false, none, some, List, [], ◌∷◌, map}
use mac_service_now_cmdb.Text.{lower, strip}
use mac_service_now_cmdb.Dict.{Dict, lookup, insert, erase}
use mac_service_now_cmdb.Dict.Groups.{group}
use mac_service_now_cmdb.Json.Value.{null, str, arr, obj, of_dict, of_list}
use mac_service_now_cmdb.Json.Show.{show}
use mac_service_now_cmdb.Errors.{Result, ok}
use mac_service_now_cmdb.Errors.Gives.{Gives}
use mac_service_now_cmdb.Http.Response.{Response, absent}
use mac_service_now_cmdb.Models.{RunReport, new_report}
use mac_service_now_cmdb.Models.People.{EntraUser, from_device}
use mac_service_now_cmdb.Client.{Send, query_table, request_json}
use mac_service_now_cmdb.Query.{is_query_safe, build_or_query, chunked}
use mac_service_now_cmdb.Graph.Devices.{Device}
use mac_service_now_cmdb.Users.Candidates.{add_users}
use mac_service_now_cmdb.Users.Match
use mac_service_now_cmdb.Users.Match.{resolve_by_key, ref_of, Row}
use mac_service_now_cmdb.Users.Resolve.{Cache, resolve_many}
use mac_service_now_cmdb.Users.Resolve.Owners.{Owners, resolve_many-Owners}
use mac_service_now_cmdb.Users.Resolve.Settled.{resolve_many-again}
use mac_service_now_cmdb.Sync.Owners.{Settings, user_ids, resolve_users}
use mac_service_now_cmdb.Sync.Owners.Counted.{IsResolved, resolve_users-IsResolved}

abbrev cfg : Match.Settings
cfg = record {
  user_match_order = "email" ∷ "user_name" ∷ [];
  user_entra_id_field = none;
  user_active_only = true;
}

abbrev record_of_ada : Row
record_of_ada = ("sys_id", str "s1") ∷ ("email", str "Ada@x.org") ∷ ("user_name", str "ada") ∷ []

abbrev answer : List Row → Response
answer rows = record {
  status = 200;
  reason = "OK";
  content = "{}";
  body = some (obj (of_dict (("result", arr (of_list (map (λ r. obj (of_dict r)) rows))) ∷ [])));
  request = none;
  is_logged_in = none;
  retry_after = absent;
  rate_limit_reset = none;
}

-- A service that knows Ada only
abbrev snow : Send
snow q = ok (answer (record_of_ada ∷ []))

-- A service that knows Ada twice
abbrev doubled : Send
doubled q = ok (answer (record_of_ada ∷ record_of_ada ∷ []))

abbrev ada : EntraUser
ada = from_device "u1" (str "ada@x.org") null null

abbrev ben : EntraUser
ben = from_device "u2" (str "ben@x.org") null null

abbrev found : Cache
found = ("u1", some (ref_of "email" record_of_ada)) ∷ ("u2", none) ∷ []

resolves : resolve_many cfg snow (ada ∷ ben ∷ []) [] ≡ ok (found, found)
unfolding resolve_many resolve_by_key lookup insert erase group is_query_safe build_or_query chunked
    query_table lower strip show add_users request_json
resolves = refl

-- Two records with the address leave a user without one.
leaves_out : resolve_many cfg doubled (ada ∷ []) [] ≡ ok (("u1", none) ∷ [], ("u1", none) ∷ [])
unfolding resolve_many resolve_by_key lookup insert erase group is_query_safe build_or_query chunked
    query_table lower strip show add_users request_json
leaves_out = refl

resolve_many-Owners_example :
    Owners cfg snow (ada ∷ ben ∷ []) found × Owners cfg snow (ada ∷ ben ∷ []) found
resolve_many-Owners_example = resolve_many-Owners cfg snow (ada ∷ ben ∷ []) found found resolves

resolve_many-again_example : resolve_many cfg doubled (ada ∷ ben ∷ []) found ≡ ok (found, found)
resolve_many-again_example =
    resolve_many-again cfg snow doubled (ada ∷ ben ∷ []) [] found found resolves

abbrev settings : Settings
settings = record { assign_user = true; enrich_users = false; matching = cfg }

abbrev report : RunReport
report = new_report "r" 0 false "identify_reconcile" false

abbrev laptop : Device
laptop = ("id", str "d1") ∷ ("userId", str "u1") ∷ ("userPrincipalName", str "ada@x.org") ∷ []

abbrev no_users : List String → Result (Dict EntraUser)
no_users ids = ok []

has_owner : user_ids (laptop ∷ []) ≢ []
unfolding lookup show
has_owner = λ e. cc

resolve_users-IsResolved_example :
    Gives
      (IsResolved settings no_users snow (laptop ∷ []))
      (resolve_users settings no_users snow [] report (laptop ∷ []))
resolve_users-IsResolved_example =
    resolve_users-IsResolved settings no_users snow report (laptop ∷ []) refl has_owner
