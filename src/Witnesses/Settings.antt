-- ===== src/Witnesses/Settings.antt =====
-- The configuration of a run, read of small environments.
use mac_service_now_cmdb.Base.{String, Bool, true, false, none, some, [], ◌∷◌, ◌≡◌, refl}
use mac_service_now_cmdb.Errors.{Result, ok, err}
use mac_service_now_cmdb.Text.{lower}
use mac_service_now_cmdb.Dict.{lookup, mem}
use mac_service_now_cmdb.Json.Number.{parse_int}
use mac_service_now_cmdb.Config.Env.{Env, env_csv, invalid}
use mac_service_now_cmdb.Config.Floats.{below, nan}
use mac_service_now_cmdb.Config.Checks.{unknown_keys}
use mac_service_now_cmdb.Config.Build.{Readers, Config, build_config}
use mac_service_now_cmdb.Writers.Types.{CiPayload}
use mac_service_now_cmdb.Config.Build.Batches.{Batches}

abbrev environment : Env
environment =
    ("GRAPH_TENANT_ID", "contoso")
    ∷ ("GRAPH_CLIENT_ID", "reader")
    ∷ ("GRAPH_CLIENT_SECRET", "s1")
    ∷ ("GRAPH_PAGE_SIZE", "500")
    ∷ ("SNOW_INSTANCE", "acme")
    ∷ ("SNOW_CLIENT_ID", "writer")
    ∷ ("SNOW_CLIENT_SECRET", "s2")
    ∷ ("SNOW_RETIRE_MISSING", "true")
    ∷ ("STATE_PATH", "state.json")
    ∷ []

abbrev readers : Readers
readers = record {
  parse_float = λ s. some nan;
  parse_json = λ s. invalid "no value";
  places = record { file = λ path. none; parameter = λ name. none };
  read_file = λ path. none;
}

abbrev is_ok : Result Config → Bool
is_ok (ok cfg) = true
is_ok (err e) = false

abbrev address : Result Config → String
address (ok cfg) = cfg.servicenow.base_url
address (err e) = ""

built_test : is_ok (build_config readers environment) ≡ true
unfolding build_config lookup mem parse_int lower unknown_keys env_csv
built_test = refl

built_address_test : address (build_config readers environment) ≡ "https://acme.service-now.com"
unfolding build_config lookup mem parse_int lower unknown_keys env_csv
built_address_test = refl

-- What is no number passes for a fraction between 0 and 1.
no_number_test :
    is_ok (build_config readers (("SNOW_RETIRE_MAX_FRACTION", "nan") ∷ environment)) ≡ true
unfolding build_config lookup mem parse_int lower unknown_keys env_csv below
no_number_test = refl

refused_test : is_ok (build_config readers (("GRAPH_PAGE_SIZE", "1001") ∷ environment)) ≡ false
unfolding build_config lookup parse_int
refused_test = refl

abbrev payload : CiPayload
payload = record {
  intune_id = "d1";
  class_name = "cmdb_ci_computer";
  values = [];
  device_name = "laptop";
  serial_number = none;
  source_recency = none;
}
