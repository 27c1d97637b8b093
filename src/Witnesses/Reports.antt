-- ===== src/Witnesses/Reports.antt =====
-- Concrete runs of the token cache and of the report on the CMDB.
use mac_service_now_cmdb.Base.{
  ℕ, String, ◌≡◌, ◌≢◌, ◌↔◌, refl, true, none, some, List, [], ◌∷◌, In, take, drop, leb, length, map,
}
use mac_service_now_cmdb.Text.{lower}
use mac_service_now_cmdb.Dict.{Dict, lookup, insert, mem, keys}
use mac_service_now_cmdb.Dict.Groups.{group}
use mac_service_now_cmdb.Json.Value.{ℤ, pos, Value, int, str, arr, obj, of_dict, of_list, get}
use mac_service_now_cmdb.Json.Show.{show}
use mac_service_now_cmdb.Errors.{Result, ok, err, other}
use mac_service_now_cmdb.Errors.Gives.{Gives}
use mac_service_now_cmdb.Http.Response.{Response, absent, is_success}
use mac_service_now_cmdb.Client.{Send}
use mac_service_now_cmdb.Auth
use mac_service_now_cmdb.Auth.{TokenCache, Call, token, new_cache}
use mac_service_now_cmdb.Auth.Fresh.{start, call, IsFresh, token-IsFresh}
use mac_service_now_cmdb.Report.Fetch.{Row, fetch, row_of}
use mac_service_now_cmdb.Report.Fetch.Whole.{fetch-total, fetch-first, HoldsTable, dictionaries}
use mac_service_now_cmdb.Report.Analyze.{Finding, duplicate_of, duplicate_findings}
use mac_service_now_cmdb.Report.Analyze.Shared.{IsShared, duplicate_findings-IsShared}

abbrev cfg : Auth.Settings
cfg = record {
  auth_mode = "oauth_client_credentials";
  client_id = some "c";
  client_secret = some "s";
  username = none;
  password = none;
}

-- The lifetime of every grant is half an hour.
abbrev half_hour : Value → Result ℤ
half_hour v = ok (pos 1800000000)

abbrev answer : Dict Value → Response
answer d = record {
  status = 200;
  reason = "OK";
  content = "{}";
  body = some (obj (of_dict d));
  request = none;
  is_logged_in = none;
  retry_after = absent;
  rate_limit_reset = none;
}

abbrev first_call : Call
first_call = record {
  now = 0;
  fetched_at = 1000000;
  answer = ok (answer (("access_token", str "t1") ∷ []));
}

-- The endpoint is down, and the token of the first call is still good.
abbrev second_call : Call
second_call = record { now = 60000000; fetched_at = 61000000; answer = err (other "down") }

abbrev filled : TokenCache
filled = record { current = some "t1"; expires_at = 1741000000 }

fills : filled ≡ (token cfg half_hour first_call new_cache).1
unfolding token is_success lookup show
fills = refl

reuses : token cfg half_hour second_call filled ≡ (ok "t1", filled)
unfolding token
reuses = refl

token-IsFresh_example :
    Gives
      (IsFresh cfg half_hour (first_call ∷ []) second_call)
      (token cfg half_hour second_call filled).0
token-IsFresh_example =
    token-IsFresh cfg half_hour (first_call ∷ []) filled (call first_call start fills) second_call

abbrev fields : List String
fields = "sys_id" ∷ "serial_number" ∷ []

abbrev records : List (Dict Value)
records =
    (("sys_id", str "a") ∷ ("serial_number", str "C02") ∷ [])
    ∷ (("sys_id", str "b") ∷ ("serial_number", str "c02") ∷ [])
    ∷ []

fetch-total_example :
    fetch "cmdb_ci_computer" fields (λ q. err (other "down")) "active=true" 10 ≢ none
fetch-total_example =
    fetch-total "cmdb_ci_computer" fields (λ q. err (other "down")) "active=true" 10

abbrev number_of : Value → ℕ
number_of (int (pos n)) = n
number_of v = 0

-- A service that holds the records and reads the offset and the limit.
abbrev table : Send
table q = ok (
    answer (
      (
        "result",
        arr (
            of_list (
              dictionaries (
                take (number_of (get "sysparm_limit" q.params))
                  (drop (number_of (get "sysparm_offset" q.params)) records)))),
      )
      ∷ []))

holds : HoldsTable "cmdb_ci_computer" fields table "active=true" records
unfolding lookup is_success
holds size offset = (
  answer (("result", arr (of_list (dictionaries (take size (drop offset records))))) ∷ []),
  refl,
  record { success = refl; has_content = refl; body = refl },
)

fetch-first_example :
    fetch "cmdb_ci_computer" fields table "active=true" 1
    ≡ some (ok (map (row_of "cmdb_ci_computer" fields) (take 1 records), leb 1 (length records)))
fetch-first_example = fetch-first "cmdb_ci_computer" fields table "active=true" 1 records holds

abbrev row : String → String → Row
row id serial =
    ("sys_id", record { value = id; display = "" })
    ∷ ("serial_number", record { value = serial; display = "" })
    ∷ []

abbrev rows : List Row
rows = row "a" "C02" ∷ row "b" "c02" ∷ row "c" "" ∷ []

finds_pair : map (λ f. f.sys_ids) (duplicate_findings rows "serial_number") ≡ ("a" ∷ "b" ∷ []) ∷ []
unfolding duplicate_findings mem group lookup insert lower
finds_pair = refl

has_serial : mem "serial_number" (keys (row "a" "C02")) ≡ true
unfolding mem
has_serial = refl

abbrev shared : Finding
shared = duplicate_of "serial_number" "c02" ("a" ∷ "b" ∷ [])

duplicate_findings-IsShared_example :
    In shared (duplicate_findings rows "serial_number") ↔ IsShared "serial_number" rows shared
duplicate_findings-IsShared_example =
    duplicate_findings-IsShared "serial_number" rows has_serial shared
