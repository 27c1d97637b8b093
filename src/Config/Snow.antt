-- ===== src/Config/Snow.antt =====
-- The second part of `_build_config`: the connection to ServiceNow and what is written there.
pub mod Limits
pub mod Valid
use Prim.Native.String
use Prim.Native.Char.{code}
use mac_service_now_cmdb.Base.{
  ℕ, String, Bool, true, false, Option, none, some, List, [], ◌∷◌, ◌++◌, map, keep, not, ◌==◌, ◌&&◌,
  ◌||◌, eqb, is_some, if◌then◌else◌,
}
use mac_service_now_cmdb.Text.{lower, strip, rstrip, join, has_char, truthy, after_prefix}
use mac_service_now_cmdb.Dict.{Dict, mem}
use mac_service_now_cmdb.Json.Value.{pos, Value, str, arr, of_list}
use mac_service_now_cmdb.Json.Show.{repr, repr_value}
use mac_service_now_cmdb.Errors.{Result, ok, ◌>>=◌}
use mac_service_now_cmdb.Config.Env.{
  Env, env, env_text, given, or_blank, env_bool, env_int, env_csv, env_kv_map, Parsed,
  env_json_object, Places, resolve_secret,
}
use mac_service_now_cmdb.Config.Floats.{Float, finite, env_float}
use mac_service_now_cmdb.Config.Checks.{
  snow_credential_problems, match_problems, is_nonempty, together, url_of, normalize_instance_url,
}
use mac_service_now_cmdb.Config.Graph.{expect, options, one_of, seconds}

-- `VALID_SNOW_AUTH_MODES`
abbrev pub snow_auth_modes : List String
snow_auth_modes = "oauth_client_credentials" ∷ "oauth_password" ∷ "basic" ∷ []

-- `VALID_WRITE_MODES`
abbrev pub write_modes : List String
write_modes = "identify_reconcile" ∷ "cmdb_instance" ∷ []

-- `VALID_SOURCE_RECENCY`
abbrev pub source_recencies : List String
source_recencies = "last_sync" ∷ "run_time" ∷ []

-- `DEFAULT_CLASS_MAP`
abbrev pub default_class_map : Dict String
default_class_map = ("windows", "cmdb_ci_computer") ∷ ("macos", "cmdb_ci_computer") ∷ []

pub record ServiceNowConfig : Type 0 where
  pub base_url : String
  pub auth_mode : String
  pub client_id : Option String
  pub client_secret : Option String
  pub username : Option String
  pub password : Option String
  pub write_mode : String
  pub use_enhanced_ire : Bool
  pub enhanced_ire_options : String
  pub discovery_source : String
  pub source_feed : String
  pub class_map : Dict String
  pub default_class : Option String
  pub batch_size : ℕ
  pub concurrency : ℕ
  pub abort_after_errors : ℕ
  pub request_timeout : Float
  pub max_retries : ℕ
  pub extra_attributes : Dict Value
  pub assign_user : Bool
  pub user_match_order : List String
  pub user_entra_id_field : Option String
  pub user_active_only : Bool
  pub retire_missing : Bool
  pub retire_install_status : String
  pub retire_max_fraction : Float
  pub install_status_active : Option String
  pub correlation_field : Option String
  pub set_correlation : Bool
  pub fetch_hardware_detail : Bool
  pub source_recency : String
  pub create_missing_manufacturers : Bool
  pub create_missing_models : Bool

-- The whole numbers and the timeout
pub record SnowLimits : Type 0 where
  pub batch_size : ℕ
  pub concurrency : ℕ
  pub abort_after_errors : ℕ
  pub request_timeout : Float
  pub max_retries : ℕ

-- What is read behind them
pub record SnowChoices : Type 0 where
  pub extra_attributes : Dict Value
  pub assign_user : Bool
  pub user_active_only : Bool
  pub retire_missing : Bool
  pub retire_max_fraction : Float
  pub set_correlation : Bool
  pub fetch_hardware_detail : Bool
  pub create_missing_manufacturers : Bool
  pub create_missing_models : Bool

module _ (parse_float : String → Option Float) (parse_json : String → Parsed) (places : Places)
    (e : Env) where
  unfoldable pub snow_limits : Result SnowLimits
  unfolding env_int env_float
  snow_limits = env_int e "SNOW_BATCH_SIZE" 100 1 (some 1000) >>= λ batch_size.
      env_int e "SNOW_CONCURRENCY" 4 1 (some 32) >>= λ concurrency.
      env_int e "SNOW_ABORT_AFTER_ERRORS" 10 0 (some 10000) >>= λ abort.
      env_float parse_float e "SNOW_TIMEOUT_SECONDS" (seconds 60) (seconds 1) none >>= λ timeout.
      env_int e "SNOW_MAX_RETRIES" 5 0 (some 10) >>= λ retries. ok (record {
        batch_size = batch_size;
        concurrency = concurrency;
        abort_after_errors = abort;
        request_timeout = timeout;
        max_retries = retries;
      })

  unfoldable pub snow_choices : Result SnowChoices
  unfolding env_json_object env_bool env_float
  snow_choices = env_json_object parse_json e "SNOW_EXTRA_ATTRIBUTES" >>= λ extra.
      env_bool e "SNOW_ASSIGN_USER" true >>= λ assign.
      env_bool e "SNOW_USER_ACTIVE_ONLY" true >>= λ active.
      env_bool e "SNOW_RETIRE_MISSING" false >>= λ retire.
      env_float parse_float e "SNOW_RETIRE_MAX_FRACTION" (finite (pos 1) 1) (seconds 0)
        (some (seconds 1))
      >>= λ fraction. env_bool e "SNOW_SET_CORRELATION" true >>= λ correlation.
          env_bool e "INTUNE_FETCH_HARDWARE_DETAIL" false >>= λ detail.
          env_bool e "SNOW_CREATE_MISSING_MANUFACTURERS" false >>= λ manufacturers.
          env_bool e "SNOW_CREATE_MISSING_MODELS" false >>= λ models. ok (record {
            extra_attributes = extra;
            assign_user = assign;
            user_active_only = active;
            retire_missing = retire;
            retire_max_fraction = fraction;
            set_correlation = correlation;
            fetch_hardware_detail = detail;
            create_missing_manufacturers = manufacturers;
            create_missing_models = models;
          })

  abbrev pub instance_of : Option String
  instance_of = env e "SNOW_INSTANCE" none

  abbrev pub snow_mode : String
  snow_mode = lower (env_text e "SNOW_AUTH_MODE" "oauth_client_credentials")

  abbrev pub write_mode_of : String
  write_mode_of = lower (env_text e "SNOW_WRITE_MODE" "identify_reconcile")

  abbrev pub recency_of : String
  recency_of = lower (env_text e "SNOW_SOURCE_RECENCY" "last_sync")

  abbrev pub match_order : List String
  match_order = env_csv e "SNOW_USER_MATCH_ORDER" ("employee_number" ∷ "email" ∷ "user_name" ∷ [])

  abbrev pub entra_id_field : Option String
  entra_id_field = env e "SNOW_USER_ENTRA_ID_FIELD" none

  abbrev pub fallback_class : Option String
  fallback_class = env e "SNOW_DEFAULT_CLASS" none

  -- The checks in their order, each with its problems
  unfoldable pub snow_checks : Dict String → List (List String)
  unfolding one_of snow_credential_problems match_problems
  snow_checks class_map =
      expect (given instance_of)
        "SNOW_INSTANCE is required (e.g. 'acme' or 'https://acme.service-now.com')"
      ∷ one_of "SNOW_AUTH_MODE" snow_auth_modes snow_mode
      ∷ snow_credential_problems snow_mode (env e "SNOW_CLIENT_ID" none)
          (resolve_secret places e "SNOW_CLIENT_SECRET") (env e "SNOW_USERNAME" none)
          (resolve_secret places e "SNOW_PASSWORD")
      ∷ one_of "SNOW_WRITE_MODE" write_modes write_mode_of
      ∷ one_of "SNOW_SOURCE_RECENCY" source_recencies recency_of
      ∷ match_problems match_order entra_id_field
      ∷ expect (is_nonempty class_map || given fallback_class)
          "SNOW_CLASS_MAP is empty and SNOW_DEFAULT_CLASS is unset; nothing to write"
      ∷ []

  unfoldable pub snow_problems : Dict String → List String
  unfolding snow_checks together
  snow_problems class_map = together (snow_checks class_map)

  unfoldable pub snow_config : Dict String → Bool → SnowLimits → SnowChoices → ServiceNowConfig
  unfolding url_of env resolve_secret
  snow_config class_map enhanced limits choices = record {
    base_url = url_of instance_of;
    auth_mode = snow_mode;
    client_id = env e "SNOW_CLIENT_ID" none;
    client_secret = resolve_secret places e "SNOW_CLIENT_SECRET";
    username = env e "SNOW_USERNAME" none;
    password = resolve_secret places e "SNOW_PASSWORD";
    write_mode = write_mode_of;
    use_enhanced_ire = enhanced;
    enhanced_ire_options =
        env_text e "SNOW_ENHANCED_IRE_OPTIONS" "partial_payloads:true,generate_summary:true";
    discovery_source = env_text e "SNOW_DISCOVERY_SOURCE" "Intune";
    source_feed = env_text e "SNOW_SOURCE_FEED" "Intune Managed Devices";
    class_map = class_map;
    default_class = fallback_class;
    batch_size = limits.batch_size;
    concurrency = limits.concurrency;
    abort_after_errors = limits.abort_after_errors;
    request_timeout = limits.request_timeout;
    max_retries = limits.max_retries;
    extra_attributes = choices.extra_attributes;
    assign_user = choices.assign_user;
    user_match_order = match_order;
    user_entra_id_field = entra_id_field;
    user_active_only = choices.user_active_only;
    retire_missing = choices.retire_missing;
    retire_install_status = env_text e "SNOW_RETIRE_INSTALL_STATUS" "7";
    retire_max_fraction = choices.retire_max_fraction;
    install_status_active = env e "SNOW_INSTALL_STATUS_ACTIVE" none;
    correlation_field = env e "SNOW_CORRELATION_FIELD" (some "correlation_id");
    set_correlation = choices.set_correlation;
    fetch_hardware_detail = choices.fetch_hardware_detail;
    source_recency = recency_of;
    create_missing_manufacturers = choices.create_missing_manufacturers;
    create_missing_models = choices.create_missing_models;
  }
