-- ===== src/Witnesses/Requests.antt =====
-- Concrete runs of the retries and of the writers.
use mac_service_now_cmdb.Base.{
  ℕ, ◌+◌, ◌≤◌, ◌≡◌, refl, true, none, some, [], ◌∷◌, length, arith, ltb, if◌then◌else◌,
}
use mac_service_now_cmdb.Dict.{lookup}
use mac_service_now_cmdb.Json.Value.{Value, str, obj, of_dict, arr, of_list}
use mac_service_now_cmdb.Errors.{Error, retryable, ok, err}
use mac_service_now_cmdb.Http.Response.{Response, absent, is_success}
use mac_service_now_cmdb.Http.Request.{Attempt, failed, answered, Call, judge, request}
use mac_service_now_cmdb.Http.Request.Retries.{Settles, Exhausts, request-Settles, request-Exhausts}
use mac_service_now_cmdb.Client.{Send}
use mac_service_now_cmdb.Writers.Types.{CiPayload, WriteResult}
use mac_service_now_cmdb.Writers.Ire
use mac_service_now_cmdb.Writers.Ire.{
  write, envelope, items_of, parse_results, parse_item, operation_of,
}
use mac_service_now_cmdb.Writers.Errors.{collect_item_errors, item_errors, errors_in}
use mac_service_now_cmdb.Writers.Ire.Results.{Answers, write-Answers, dry_run-write}
use mac_service_now_cmdb.Writers.Instance.{fresh}
use mac_service_now_cmdb.Writers.Instance.Threads.{Pool, idle, send, Reach, here, next, sent-le}

abbrev call : Call
call = record { method = "GET"; url = "/api/now/table/cmdb_ci"; expected = none }

abbrev fine : Response
fine = record {
  status = 200;
  reason = "OK";
  content = "{}";
  body = some (obj (of_dict []));
  request = none;
  is_logged_in = none;
  retry_after = absent;
  rate_limit_reset = none;
}

abbrev half : ℕ → ℕ
half m = 0

half-le : (m : ℕ) → half m ≤ m
half-le m = omega arith

abbrev clock : ℕ → ℕ
clock n = 0

-- The network fails once and then answers.
abbrev network : ℕ → Attempt
network n = if ltb n 2 then failed "reset" else answered fine

abbrev down : ℕ → Attempt
down n = failed "reset"

abbrev down_error : Error
down_error = retryable "GET /api/now/table/cmdb_ci failed: reset" 0 none

second-Settles : Settles call 3 clock half network 1 1 fine
unfolding judge
second-Settles = ((down_error, none, refl), refl)

request-Settles_example :
    ((request call 3 clock half network).0 ≡ ok fine)
    × (length (request call 3 clock half network).1 ≡ 1)
request-Settles_example =
    request-Settles call 3 clock half network 1 fine (omega arith) second-Settles

one-Exhausts : Exhausts call 1 clock half down 1 1 down_error
unfolding judge
one-Exhausts = ((down_error, none, refl), (none, refl))

request-Exhausts_example :
    ((request call 1 clock half down).0 ≡ err down_error)
    × (length (request call 1 clock half down).1 ≡ 1)
request-Exhausts_example = request-Exhausts call 1 clock half down down_error one-Exhausts

abbrev settings : Ire.Settings
settings = record {
  discovery_source = "Intune";
  source_feed = "feed";
  use_enhanced_ire = true;
  enhanced_ire_options = "";
  dry_run = true;
}

abbrev payload : CiPayload
payload = record {
  intune_id = "d1";
  class_name = "cmdb_ci_computer";
  values = [];
  device_name = "laptop";
  serial_number = none;
  source_recency = none;
}

abbrev items : Value
items = obj (of_dict (("operation", str "INSERT") ∷ ("sysId", str "c1") ∷ []))

abbrev service : Send
service q = ok (record fine {
  body =
      some (
        obj
          (of_dict (("result", obj (of_dict (("items", arr (of_list (items ∷ []))) ∷ []))) ∷ [])));
})

abbrev inserted : WriteResult
inserted = record {
  intune_id = "d1";
  action = "dry_run:inserted";
  sys_id = some "c1";
  errors = [];
  detail = none;
}

writes_one : write settings service (payload ∷ []) ≡ ok (inserted ∷ [])
unfolding write lookup is_success envelope items_of parse_results parse_item item_errors errors_in
    collect_item_errors operation_of
writes_one = refl

write-Answers_example : Answers settings service (payload ∷ []) (inserted ∷ [])
write-Answers_example = write-Answers settings service (payload ∷ []) (inserted ∷ []) writes_one

dry_run-write_example :
    write settings service (payload ∷ []) ≡ write settings service (payload ∷ [])
dry_run-write_example = dry_run-write settings service service (payload ∷ []) refl (λ q e. refl)

abbrev busy : Pool
busy = record { guard = fresh; in_flight = 1; sent = 1; crashed = 0 }

one_sent : Reach 2 3 idle busy
one_sent = next here (send refl (omega arith) refl)

sent-le_example : 1 + 1 ≤ 3 + 2 + 0
sent-le_example = sent-le 2 3 (omega arith) busy one_sent refl

abbrev half_done : Pool
half_done = record {
  guard = record { aborted = none; failures = 0; successes = 1 };
  in_flight = 0;
  sent = 1;
  crashed = 0;
}
