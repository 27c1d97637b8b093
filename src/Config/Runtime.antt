-- ===== src/Config/Runtime.antt =====
-- The third part of `_build_config`: the process itself, with the overrides of the mapping.
pub mod Valid
use Prim.Native.String
use mac_service_now_cmdb.Base.{
  ℕ, zero, suc, String, Bool, true, false, Option, none, some, List, [], ◌∷◌, ◌++◌, map, not, ◌==◌,
  ◌&&◌, ◌||◌, if◌then◌else◌,
}
use mac_service_now_cmdb.Text.{lower, upper, join, truthy}
use mac_service_now_cmdb.Dict.{Dict, lookup, mem}
use mac_service_now_cmdb.Json.Value.{Value, null, str, obj, to_dict, get}
use mac_service_now_cmdb.Json.Show.{repr}
use mac_service_now_cmdb.Errors.{Result, ok, err, other, ◌>>=◌}
use mac_service_now_cmdb.Config.Env.{
  Env, env, env_text, given, env_bool, env_int, env_csv, Parsed, invalid, raises, parsed,
}
use mac_service_now_cmdb.Config.Graph.{expect}

-- `DEFAULT_SERIAL_BLOCKLIST`
abbrev pub default_serial_blocklist : List String
default_serial_blocklist =
    "0" ∷ "00000000" ∷ "123456789" ∷ "default string" ∷ "empty" ∷ "invalid" ∷ "n/a" ∷ "na" ∷ "none"
    ∷ "not applicable" ∷ "not available" ∷ "not specified" ∷ "o.e.m." ∷ "system serial number"
    ∷ "to be filled by o.e.m." ∷ "filled by o.e.m." ∷ "unknown" ∷ "chassis serial number"
    ∷ "base board serial number" ∷ "not present" ∷ "0123456789" ∷ "1234567890" ∷ []

pub record RuntimeConfig : Type 0 where
  pub dry_run : Bool
  pub log_level : String
  pub log_format : String
  pub run_report_path : Option String
  pub report_devices : Bool
  pub fail_on_error : Bool
  pub state_path : Option String
  pub serial_blocklist : List String
  pub mapping_overrides : Dict Value
  pub device_limit : Option ℕ

-- What was loaded, and the problems on the way
pub record Loaded : Type 0 where
  pub overrides : Dict Value
  pub problems : List String

abbrev refused : String → Result Loaded
refused problem = ok (record { overrides = []; problems = problem ∷ [] })

-- `REFERENCE_ALIAS_KEYS`
abbrev pub reference_alias_keys : List String
reference_alias_keys = "manufacturer_aliases" ∷ "model_aliases" ∷ []

abbrev pub is_text : Value → Bool
is_text (str s) = true
is_text v = false

abbrev pub all_texts : Dict Value → Bool
all_texts [] = true
all_texts ((k, v) ∷ d) = is_text v && all_texts d

-- `aliases is None`, or a dictionary of texts
abbrev pub are_aliases : Value → Bool
are_aliases null = true
are_aliases (obj fs) = all_texts (to_dict fs)
are_aliases v = false

unfoldable alias_problems : Dict Value → List String → List String
unfolding expect
alias_problems d [] = []
alias_problems d (key ∷ keys) =
    expect (are_aliases (get key d)) (
      join "" (
        "mapping overrides '" ∷ key
        ∷ "' must be an object of Intune name -> ServiceNow record name, e.g. {\"LENOVO\": \"Lenovo\"}"
        ∷ []))
    ++ alias_problems d keys

-- `if isinstance(loaded, dict)`, with the problem that it is none
unfoldable pub loaded_from : String → Value → Result Loaded
unfolding alias_problems
loaded_from problem (obj fs) =
    ok (record {
      overrides = to_dict fs;
      problems = alias_problems (to_dict fs) reference_alias_keys;
    })
loaded_from problem v = refused problem

-- A file that is missing is `none`; one that cannot be read is invalid. The test whether there is one,
-- the decoding and the parser may raise what the code does not catch.
unfoldable from_file : String → Option Parsed → Result Loaded
unfolding loaded_from
from_file path none = refused (String.◌++◌ "MAPPING_OVERRIDES_FILE does not exist: " path)
from_file path (some (invalid m)) =
    refused (String.◌++◌ "MAPPING_OVERRIDES_FILE could not be read: " m)
from_file path (some (raises kind)) = err (other kind)
from_file path (some (parsed v)) = loaded_from "MAPPING_OVERRIDES_FILE must contain a JSON object" v

unfoldable from_text : Parsed → Result Loaded
unfolding loaded_from
from_text (invalid m) = refused (String.◌++◌ "MAPPING_OVERRIDES_JSON is not valid JSON: " m)
from_text (raises kind) = err (other kind)
from_text (parsed v) = loaded_from "MAPPING_OVERRIDES_JSON must be a JSON object" v

unfoldable pub load_overrides :
    (String → Option Parsed) → (String → Parsed) → Option String → Option String → Result Loaded
unfolding from_file from_text
load_overrides read_file parse_json (some path) (some text) =
    refused "set MAPPING_OVERRIDES_FILE or MAPPING_OVERRIDES_JSON, not both"
load_overrides read_file parse_json (some path) none = from_file path (read_file path)
load_overrides read_file parse_json none (some text) = from_text (parse_json text)
load_overrides read_file parse_json none none = ok (record { overrides = []; problems = [] })

-- The values whose readers may raise
pub record RuntimeChoices : Type 0 where
  pub device_limit : ℕ
  pub dry_run : Bool
  pub report_devices : Bool
  pub fail_on_error : Bool

-- `n or None`
abbrev pub unless_zero : ℕ → Option ℕ
unless_zero zero = none
unless_zero (suc n) = some (suc n)

abbrev pub log_formats : List String
log_formats = "json" ∷ "text" ∷ []

-- `if s`
abbrev pub nonblank : List String → List String
nonblank [] = []
nonblank (s ∷ ss) = if truthy s then s ∷ nonblank ss else nonblank ss

module _ (read_file : String → Option Parsed) (parse_json : String → Parsed) (e : Env) where
  -- `device_limit` is read before the record is made.
  unfoldable pub runtime_choices : Result RuntimeChoices
  unfolding env_int env_bool
  runtime_choices = env_int e "INTUNE_DEVICE_LIMIT" 0 0 none >>= λ limit.
      env_bool e "DRY_RUN" false >>= λ dry_run. env_bool e "RUN_REPORT_DEVICES" false >>= λ devices.
      env_bool e "FAIL_ON_ERROR" false >>= λ fail_on_error. ok (record {
        device_limit = limit;
        dry_run = dry_run;
        report_devices = devices;
        fail_on_error = fail_on_error;
      })

  abbrev pub format_of : String
  format_of = lower (env_text e "LOG_FORMAT" "json")

  abbrev pub state_path_of : Option String
  state_path_of = env e "STATE_PATH" none

  unfoldable pub loaded : Result Loaded
  unfolding load_overrides env
  loaded =
      load_overrides read_file parse_json (env e "MAPPING_OVERRIDES_FILE" none)
        (env e "MAPPING_OVERRIDES_JSON" none)

  unfoldable pub runtime_problems : Loaded → Bool → List String
  unfolding expect
  runtime_problems found retire_missing =
      expect (mem format_of log_formats)
        (join "" ("LOG_FORMAT must be 'json' or 'text' (got " ∷ repr format_of ∷ ")" ∷ []))
      ++ found.problems
      ++ expect (not retire_missing || given state_path_of)
          "SNOW_RETIRE_MISSING=true requires STATE_PATH (a local path or an s3://bucket/key URL) so previously-synced devices can be compared against the current Intune inventory"

  unfoldable pub runtime_config : Loaded → RuntimeChoices → RuntimeConfig
  unfolding env
  runtime_config found choices = record {
    dry_run = choices.dry_run;
    log_level = upper (env_text e "LOG_LEVEL" "INFO");
    log_format = format_of;
    run_report_path = env e "RUN_REPORT_PATH" none;
    report_devices = choices.report_devices;
    fail_on_error = choices.fail_on_error;
    state_path = state_path_of;
    serial_blocklist =
        map lower (nonblank (default_serial_blocklist ++ env_csv e "SERIAL_BLOCKLIST_EXTRA" []));
    mapping_overrides = found.overrides;
    device_limit = unless_zero choices.device_limit;
  }
