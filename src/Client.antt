-- ===== src/Client.antt =====
-- servicenow/client.py: the Table API of ServiceNow over a client that answers requests. Where the
-- code reads a key of what is no dictionary, Python raises `AttributeError`.
use Prim.Native.String
use mac_service_now_cmdb.Base.{ℕ, String, none, some, List, [], ◌∷◌, ◌++◌, not, eqb, if◌then◌else◌}
use mac_service_now_cmdb.Text.{truthy, join}
use mac_service_now_cmdb.Dict.{Dict}
use mac_service_now_cmdb.Json.Value.{
  pos, Value, null, int, str, arr, obj, of_dict, to_dict, to_list, get, is_true, or_else,
}
use mac_service_now_cmdb.Json.Show.{show_nat}
use mac_service_now_cmdb.Errors.{service_now, value_error, other, Result, ok, err, ◌>>=◌}
use mac_service_now_cmdb.Http.Response.{Response, is_success, describe_error}

-- A request to ServiceNow; the client answers with a response or raises.
pub record Request : Type 0 where
  pub method : String
  pub path : String
  pub params : Dict Value
  pub json_body : Value

abbrev pub Send : Type 0
Send = Request → Result Response

-- The entries of what a key is read of.
abbrev pub entries_of : Value → Result (Dict Value)
entries_of (obj fs) = ok (to_dict fs)
entries_of _ = err (other "AttributeError")

-- `v or {}`, of which a key is read
abbrev pub or_empty : Value → Result (Dict Value)
or_empty v = if is_true v then entries_of v else ok []

-- `ServiceNowClient.request_json`
unfoldable pub request_json_body : String → Response → Result Value
unfolding is_success describe_error show_nat
request_json_body context r =
    if not (is_success r)
    then err (service_now (join "" (context ∷ " failed: " ∷ describe_error r ∷ [])))
    else if not (truthy r.content)
    then ok null
    else elim r.body [
      | some v ↦ ok v
      | none ↦ err (
          service_now
            (join "" (context ∷ " returned a non-JSON body (HTTP " ∷ show_nat r.status ∷ ")" ∷ [])))
    ]

unfoldable pub request_json : Send → String → Request → Result Value
unfolding request_json_body
request_json send context q = send q >>= request_json_body context

abbrev pub table_path : String → String
table_path table = String.◌++◌ "/api/now/table/" table

abbrev raw_values : Dict Value
raw_values =
    ("sysparm_display_value", str "false") ∷ ("sysparm_exclude_reference_link", str "true") ∷ []

-- `(payload or {}).get("result")`
abbrev pub result_of : Value → Result Value
result_of payload = or_empty payload >>= λ d. ok (get "result" d)

rows_of : String → Value → Result (List Value)
rows_of table v =
    if is_true v
    then elim v [
      | arr xs ↦ ok (to_list xs)
      | _ ↦
          err
            (service_now (join "" ("query " ∷ table ∷ " returned an unexpected result shape" ∷ [])))
    ]
    else ok []

abbrev pub query_request : String → String → List String → ℕ → Request
query_request table query fields limit = record {
  method = "GET";
  path = table_path table;
  params =
      ("sysparm_query", str query)
      ∷ ("sysparm_fields", str (join "," fields))
      ∷ ("sysparm_limit", int (pos limit))
      ∷ raw_values;
  json_body = null;
}

-- `ServiceNowClient.query_table`: the rows, or an error
unfoldable pub query_table : Send → String → String → List String → ℕ → Result (List Value)
unfolding rows_of
query_table send table query fields limit =
    request_json send (String.◌++◌ "query " table) (query_request table query fields limit)
    >>= result_of
    >>= rows_of table

abbrev record_path : String → String → String
record_path table sys_id = String.◌++◌ (table_path table) (String.◌++◌ "/" sys_id)

-- `ServiceNowClient.update_record`
unfoldable pub update_record : Send → String → String → Dict Value → Result Value
update_record send table sys_id values =
    request_json send (join "" ("update " ∷ table ∷ "/" ∷ sys_id ∷ [])) (record {
      method = "PATCH";
      path = record_path table sys_id;
      params = raw_values;
      json_body = obj (of_dict values);
    })
    >>= result_of
    >>= λ v. ok (or_else v (obj (of_dict [])))

abbrev field_list : List String → Dict Value
field_list [] = []
field_list (f ∷ fs) = ("sysparm_fields", str (join "," (f ∷ fs))) ∷ []

get_record_body : String → String → Response → Result Value
unfolding is_success describe_error
get_record_body table sys_id r =
    if eqb r.status 404
    then ok null
    else if not (is_success r)
    then err (
        service_now (join "" ("get " ∷ table ∷ "/" ∷ sys_id ∷ " failed: " ∷ describe_error r ∷ [])))
    else elim r.body [ none ↦ err (value_error "the response is not JSON") | some v ↦ result_of v ]

-- `ServiceNowClient.get_record`: a record that is not there is `None`
unfoldable pub get_record : Send → String → String → List String → Result Value
unfolding get_record_body
get_record send table sys_id fields =
    send (record {
      method = "GET";
      path = record_path table sys_id;
      params = raw_values ++ field_list fields;
      json_body = null;
    })
    >>= get_record_body table sys_id

first_value : Value → Result Value
first_value v =
    if is_true v
    then elim v [
      | arr xs ↦ elim (to_list xs) [
        | [] ↦ ok null
        | x ∷ _ ↦ entries_of x >>= λ d. ok (get "value" d)
      ]
      | obj _ ↦ err (other "KeyError")
      | str _ ↦ err (other "AttributeError")
      | _ ↦ err (other "TypeError")
    ]
    else ok null

-- `ServiceNowClient.verify_connectivity`: the name of the instance, if it tells it
unfoldable pub verify_connectivity : Send → Result Value
unfolding first_value
verify_connectivity send =
    request_json send "connectivity check" (record {
      method = "GET";
      path = table_path "sys_properties";
      params =
          ("sysparm_query", str "name=instance_name")
          ∷ ("sysparm_fields", str "name,value")
          ∷ ("sysparm_limit", int (pos 1))
          ∷ [];
      json_body = null;
    })
    >>= result_of
    >>= first_value
