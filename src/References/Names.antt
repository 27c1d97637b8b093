-- ===== src/References/Names.antt =====
-- `_resolve` and `_create_record`. A cache and its set of missing names are one record.
pub mod Settled
use Prim.Native.String
use mac_service_now_cmdb.Base.{
  ℕ, zero, suc, ◌+◌, ◌*◌, String, Bool, true, false, Option, none, some, List, [], ◌∷◌, ◌++◌, map,
  ◌&&◌, ◌||◌, not, ◌==◌, length, keep, if◌then◌else◌,
}
use mac_service_now_cmdb.Text.{truthy, strip, lower, join}
use mac_service_now_cmdb.Dict.{Dict, lookup, insert, setdefault, update, mem}
use mac_service_now_cmdb.Json.Value.{Value, str, obj, of_dict, get, get_or_empty, is_true}
use mac_service_now_cmdb.Json.Show.{show, repr}
use mac_service_now_cmdb.Errors.{Error, service_now, Result, ok, err, ◌>>=◌}
use mac_service_now_cmdb.Client.{
  Request, Send, entries_of, or_empty, request_json, table_path, query_table, result_of,
}
use mac_service_now_cmdb.Query.{usable_values, build_or_query, chunked}
use mac_service_now_cmdb.References.Lookup.{folded}

-- The names that are known, folded, with their sys_ids, and those that are missing, as they stand.
pub record Names : Type 0 where
  pub cache : Dict String
  pub missing : List String

abbrev pub no_names : Names
no_names = record { cache = []; missing = [] }

-- `s.add(x)` of a set in any order
abbrev pub add : String → List String → List String
add x xs = if mem x xs then xs else xs ++ x ∷ []

blank_message : String → String → String → String → String
blank_message table sys_id stored name = join "" (
    table
    ∷ " record "
    ∷ sys_id
    ∷ " was created but ServiceNow stored name "
    ∷ repr stored
    ∷ " instead of "
    ∷ repr name
    ∷ ": the integration account cannot write "
    ∷ table
    ∷ ".name. Not linking CIs to it; turn off record creation or grant that write, and delete the blank record."
    ∷ [])

-- What a create came to: the sys_id to link, and the messages of blank records.
abbrev pub Created : Type 0
Created = Option String × List String

created_from : String → String → Dict Value → Created
unfolding blank_message
created_from table name result =
    let stored = strip (show (get_or_empty "name" result)) in
    let sys_id = show (get "sys_id" result) in
    if not (is_true (get "sys_id" result))
    then (none, [])
    else if lower stored == folded name
    then (some sys_id, [])
    else (none, blank_message table sys_id stored name ∷ [])

abbrev pub create_request : String → String → Dict Value → Request
create_request table name extra = record {
  method = "POST";
  path = table_path table;
  params = ("sysparm_fields", str "sys_id,name") ∷ [];
  json_body = obj (of_dict (update (("name", str name) ∷ []) extra));
}

-- `ServiceNowError` alone is handled.
created_by : String → String → Result Value → Result Created
unfolding created_from
created_by table name (err (service_now m)) = ok (none, [])
created_by table name (err e) = err e
created_by table name (ok payload) =
    result_of payload >>= λ v. or_empty v >>= λ result. ok (created_from table name result)

-- `_create_record`
unfoldable pub create_record : Send → String → String → Dict Value → Result Created
unfolding created_by
create_record send table name extra =
    created_by table name
      (request_json send (String.◌++◌ "create " table) (create_request table name extra))

-- A resolved name: its sys_id, the names after it, and the messages of blank records.
pub record Resolved : Type 0 where
  pub sys_id : Option String
  pub names : Names
  pub blank : List String

abbrev pub given_up : String → Names → Names
given_up key n = record n { missing = add key n.missing }

-- `if sys_id: ...`, after a create
unfoldable pub keep_created : String → Names → Created → Resolved
keep_created key n (none, blank) = record { sys_id = none; names = given_up key n; blank = blank }
keep_created key n (some id, blank) =
    if truthy id
    then record {
      sys_id = some id;
      names = record n { cache = insert (lower key) id n.cache };
      blank = blank;
    }
    else record { sys_id = none; names = given_up key n; blank = blank }

-- The part of `_resolve` behind the caches
unfoldable pub resolve_unknown :
    Bool → Send → String → Dict Value → String → Names → Result Resolved
unfolding create_record keep_created
resolve_unknown create send table extra key n =
    if create
    then (create_record send table key extra >>= λ c. ok (keep_created key n c))
    else ok (record { sys_id = none; names = given_up key n; blank = [] })

-- `if lowered in cache: return cache[lowered]`
abbrev pub cached_or : Names → Option String → Result Resolved → Result Resolved
cached_or n (some id) rest = ok (record { sys_id = some id; names = n; blank = [] })
cached_or n none rest = rest

unfoldable pub resolve_key : Bool → Send → String → Dict Value → String → Names → Result Resolved
unfolding resolve_unknown
resolve_key create send table extra key n =
    if not (truthy key)
    then ok (record { sys_id = none; names = n; blank = [] })
    else cached_or n (lookup (lower key) n.cache) (
        if mem (lower key) (map lower n.missing)
        then ok (record { sys_id = none; names = n; blank = [] })
        else resolve_unknown create send table extra key n)

-- `name or ""`
abbrev pub text_or_empty : Option String → String
text_or_empty none = ""
text_or_empty (some s) = s

-- `_resolve`, with `create` true if records may be created and this is no dry run
unfoldable pub resolve : Bool → Send → String → Dict Value → Option String → Names → Result Resolved
unfolding resolve_key
resolve create send table extra name n =
    resolve_key create send table extra (strip (text_or_empty name)) n
