-- ===== src/Writers/Instance.antt =====
-- servicenow/writers/cmdb_instance.py: `CmdbInstanceWriter`, one request for each device.
pub mod Threads
use Prim.Native.String
use mac_service_now_cmdb.Base.{
  ℕ, zero, suc, ◌+◌, ◌/◌, ◌%◌, ◌^◌, String, Bool, true, false, Option, none, some, List, [], ◌∷◌,
  ◌++◌, ◌||◌, ◌&&◌, not, ◌==◌, eqb, leb, ltb, length, if◌then◌else◌,
}
use mac_service_now_cmdb.Text.{truthy, join}
use mac_service_now_cmdb.Dict.{Dict, lookup}
use mac_service_now_cmdb.Json.Value.{
  ℤ, pos, negsuc, Value, null, bool, decimal, str, obj, of_dict, get, is_true,
}
use mac_service_now_cmdb.Json.Show.{show, show_nat, show_int, show_float}
use mac_service_now_cmdb.Errors.{Error, Result, ok, err, text_of, ◌>>=◌}
use mac_service_now_cmdb.Http.Response.{Response, is_success}
use mac_service_now_cmdb.Writers.Errors.{refusal_detail, unscoped_api_suffix, data_source_hint}
use mac_service_now_cmdb.Client.{Request, Send, or_empty}
use mac_service_now_cmdb.Writers.Types.{CiPayload, WriteResult, failure, result_message}

-- What the writer counts under its lock, and the reason once it has stopped.
pub record Guard : Type 0 where
  pub aborted : Option String
  pub failures : ℕ
  pub successes : ℕ

abbrev pub fresh : Guard
fresh = record { aborted = none; failures = 0; successes = 0 }

-- The reason of an abort; an f-string writes `None` for no message.
abort_reason : ℕ → WriteResult → String
abort_reason failures r = join "" (
    "stopped after "
    ∷ show_nat failures
    ∷ " consecutive write failures with no "
    ∷ "successes; the first "
    ∷ show_nat failures
    ∷ " devices all failed the same "
    ∷ "way, so this is a configuration problem rather than bad data. Last "
    ∷ "error: "
    ∷ elim (result_message r) [ none ↦ "None" | some m ↦ m ]
    ∷ ". Raise SNOW_ABORT_AFTER_ERRORS or set it to "
    ∷ "0 to write the whole batch anyway."
    ∷ [])

-- The counters after one result.
unfoldable pub tally : WriteResult → Guard → Guard
tally r g =
    if r.action == "error"
    then record g { failures = g.failures + 1 }
    else record g { successes = g.successes + 1 }

abbrev pub is_none : Option String → Bool
is_none none = true
is_none (some s) = false

unfoldable pub trips : ℕ → Guard → Bool
trips threshold g =
    ltb 0 threshold && is_none g.aborted && eqb g.successes 0 && leb threshold g.failures

-- `_record`, with `abort_after_errors` as threshold; 0 turns the guard off.
unfoldable pub record_result : ℕ → WriteResult → Guard → Guard
unfolding tally trips abort_reason
record_result threshold r g =
    let g' = tally r g in
    if trips threshold g' then record g' { aborted = some (abort_reason g'.failures r) } else g'

-- One attribute as this API wants it: everything is a text.
unfoldable pub stringify : Value → String
unfolding show show_float show_int show_nat
stringify (bool true) = "true"
stringify (bool false) = "false"
stringify (decimal (pos n) k) =
    if eqb (n % 10 ^ k) 0 then show_nat (n / 10 ^ k) else show_float (pos n) k
stringify (decimal (negsuc n) k) =
    if eqb (suc n % 10 ^ k) 0
    then String.◌++◌ "-" (show_nat (suc n / 10 ^ k))
    else show_float (negsuc n) k
stringify v = show v

abbrev pub is_null : Value → Bool
is_null null = true
is_null _ = false

-- `stringify_attributes`: a field without a value is left out.
unfoldable pub stringify_attributes : Dict Value → Dict Value
unfolding stringify
stringify_attributes [] = []
stringify_attributes ((k, v) ∷ d) =
    let rest = stringify_attributes d in if is_null v then rest else (k, str (stringify v)) ∷ rest

abbrev pub instance_path : String → String
instance_path class_name = String.◌++◌ "/api/now/cmdb/instance/" class_name

abbrev pub instance_request : String → CiPayload → Request
instance_request source item = record {
  method = "POST";
  path = instance_path item.class_name;
  params = [];
  json_body = obj (
      of_dict (
        ("attributes", obj (of_dict (stringify_attributes item.values)))
        ∷ ("source", str source)
        ∷ []));
}

-- Two values that are both texts and equal: `created and created == updated`.
same_time : Value → Value → Bool
same_time (str s) (str t) = truthy s && s == t
same_time _ _ = false

-- An error that is no dictionary raises an `AttributeError`.
error_detail : Value → Result String
error_detail e = or_empty e >>= λ d.
    let m = get "message" d in
    let detail = get "detail" d in
    ok (if is_true m then show m else if is_true detail then show detail else show e)

-- The result for the attributes of a CI in a response without an error.
accepted_instance : String → Dict Value → WriteResult
unfolding same_time
accepted_instance id attributes =
    let sys_id = get "sys_id" attributes in
    if not (is_true sys_id)
    then failure id ("CMDB Instance API response contained no sys_id" ∷ [])
    else record {
      intune_id = id;
      action =
          if same_time (get "sys_created_on" attributes) (get "sys_updated_on" attributes)
          then "inserted"
          else "updated";
      sys_id = some (show sys_id);
      errors = [];
      detail = none;
    }

-- The result of one device from the `result` of an accepted response.
unfoldable pub instance_result : String → Dict Value → Result WriteResult
unfolding error_detail accepted_instance
instance_result id result =
    let error = get "error" result in
    or_empty (get "attributes" result) >>= λ attributes.
    if is_true error
    then (error_detail error >>= (λ detail. ok (failure id (detail ∷ []))))
    else ok (accepted_instance id attributes)

-- The result of one request: what the request raises is an error of this device alone. A response
-- that is accepted and is not JSON, that has no dictionary where one is read, or whose errors cannot be
-- iterated, raises in the caller's thread, and ends the batch.
unfoldable pub post_result : String → CiPayload → Result Response → Result WriteResult
unfolding instance_result is_success
post_result source item (err e) = ok (failure item.intune_id (text_of e ∷ []))
post_result source item (ok r) =
    if not (is_success r)
    then (refusal_detail r >>= λ detail.
        let path = instance_path item.class_name in
        ok (
          failure item.intune_id (
            join "" (
              detail ∷ unscoped_api_suffix detail "POST" path ∷ data_source_hint detail source ∷ [])
            ∷ [])))
    else elim r.body [
      | none ↦ err (Error.value_error "the response is not JSON")
      | some payload ↦ or_empty payload >>= λ p.
          or_empty (get "result" p) >>= λ result. instance_result item.intune_id result
    ]

-- The result of a device that is not attempted any more.
abbrev pub not_attempted : String → CiPayload → WriteResult
not_attempted reason item = failure item.intune_id (String.◌++◌ "not attempted: " reason ∷ [])

-- `_write_one` without interleaving: the result and the guard after it.
unfoldable pub write_one : String → ℕ → Send → CiPayload → Guard → Result (WriteResult × Guard)
unfolding post_result record_result
write_one source threshold send item g = elim g.aborted [
  | some reason ↦ ok (not_attempted reason item, g)
  | none ↦ elim (post_result source item (send (instance_request source item))) [
    | err e ↦ err e
    | ok r ↦ ok (r, record_result threshold r g)
  ]
]
