-- ===== src/Witnesses/Checks.antt =====
-- The checks of the way to write, at concrete servers.
use mac_service_now_cmdb.Base.{
  ℕ, zero, suc, true, false, none, some, List, [], ◌∷◌, ◌≡◌, refl, ◌⊎◌, inl, inr, ◌==◌, ◌&&◌,
  Bool-cases, if◌then◌else◌,
}
use mac_service_now_cmdb.Dict.{lookup, mem}
use mac_service_now_cmdb.Json.Value.{Value, pos, str, arr, obj, nil, cons, field, end}
use mac_service_now_cmdb.Json.Show.{show}
use mac_service_now_cmdb.Errors.{ok, err, service_now}
use mac_service_now_cmdb.Http.Response.{Response, absent}
use mac_service_now_cmdb.Client.{Request, Send, request_json, query_table}
use mac_service_now_cmdb.Config.Env.{invalid}
use mac_service_now_cmdb.Config.Floats.{finite}
use mac_service_now_cmdb.Config.Snow.{ServiceNowConfig, snow_config}
use mac_service_now_cmdb.Writers.Source.{register_discovery_source}
use mac_service_now_cmdb.Writers.Source.Registered.{
  IsRegistered, register_discovery_source-IsRegistered,
}
use mac_service_now_cmdb.Writers.Access.{verify_write_access}
use mac_service_now_cmdb.Writers.Access.Harmless.{IsHarmless, verify_write_access-IsHarmless}
use mac_service_now_cmdb.Errors.Gives.{Gives}

abbrev answer : ℕ → Value → Response
answer status body = record {
  status = status;
  reason = "";
  content = "{}";
  body = some body;
  request = none;
  is_logged_in = none;
  retry_after = absent;
  rate_limit_reset = none;
}

abbrev choices_with : List Value → Value
choices_with [] = obj (field "result" (arr nil) end)
choices_with (v ∷ vs) = obj (
    field "result" (arr (cons (obj (field "value" v (field "inactive" (str "false") end))) nil))
      end)

-- Nothing is there at first, the insert is accepted, and then the value is there.
abbrev served : ℕ → Send
served zero q = ok (answer 200 (choices_with []))
served (suc zero) q =
    ok (answer 201 (obj (field "result" (obj (field "sys_id" (str "c1") end)) end)))
served (suc (suc n)) q = ok (answer 200 (choices_with (str "Intune" ∷ [])))

register_test :
    register_discovery_source served "Intune"
    ≡ ok
        "registered 'Intune' as a choice value on cmdb_ci.discovery_source (sys_choice sys_id=c1); writes will now be accepted"
unfolding register_discovery_source query_table request_json lookup mem show
register_test = refl

register_discovery_source-IsRegistered_example :
    Gives
      (λ message. IsRegistered (served 0) "Intune" ⊎ IsRegistered (served 2) "Intune")
      (register_discovery_source served "Intune")
register_discovery_source-IsRegistered_example =
    register_discovery_source-IsRegistered served "Intune"

abbrev settings : ServiceNowConfig
settings =
    snow_config (λ s. none) (λ s. invalid "no value")
      (record { file = λ path. none; parameter = λ name. none }) (("SNOW_INSTANCE", "acme") ∷ []) []
      false
      (record {
        batch_size = 100;
        concurrency = 4;
        abort_after_errors = 10;
        request_timeout = finite (pos 60) 0;
        max_retries = 5;
      })
      (record {
        extra_attributes = [];
        assign_user = true;
        user_active_only = true;
        retire_missing = false;
        retire_max_fraction = finite (pos 1) 1;
        set_correlation = true;
        fetch_hardware_detail = false;
        create_missing_manufacturers = false;
        create_missing_models = false;
      })

abbrev ready : Send
ready q = ok (answer 200 (obj end))

-- What writes is refused.
abbrev read_only : Send
read_only q =
    if q.path == "/api/now/identifyreconcile" && q.method == "POST"
    then err (service_now "a write")
    else ready q

ready_alike : (q : Request) → IsHarmless q → ready q ≡ read_only q
ready_alike q (inl get) = elim (Bool-cases (q.path == "/api/now/identifyreconcile")) [
  | inl t ↦ rw (t, get) refl
  | inr f ↦ rw f refl
]
ready_alike q (inr (inl path)) = rw path refl
ready_alike q (inr (inr path)) = rw path refl

verify_write_access-IsHarmless_example :
    verify_write_access ready settings ≡ verify_write_access read_only settings
verify_write_access-IsHarmless_example =
    verify_write_access-IsHarmless ready read_only ready_alike settings
