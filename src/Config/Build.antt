-- ===== src/Config/Build.antt =====
-- `_build_config`: the parts, and all their problems in one error.
pub mod Valid
pub mod Batches
use Prim.Native.String
use mac_service_now_cmdb.Base.{String, Bool, true, false, Option, none, some, List, [], ◌∷◌, ◌++◌}
use mac_service_now_cmdb.Text.{join}
use mac_service_now_cmdb.Errors.{Error, config, Result, ok, err, ◌>>=◌}
use mac_service_now_cmdb.Config.Env.{Env, Parsed, Places, env_bool, env_kv_map}
use mac_service_now_cmdb.Config.Floats.{Float}
use mac_service_now_cmdb.Config.Graph.{GraphConfig, graph_limits, graph_problems, graph_config}
use mac_service_now_cmdb.Config.Snow.{
  ServiceNowConfig, default_class_map, snow_limits, snow_choices, snow_problems, snow_config,
}
use mac_service_now_cmdb.Config.Runtime.{
  RuntimeConfig, loaded, runtime_choices, runtime_problems, runtime_config,
}

pub record Config : Type 0 where
  pub graph : GraphConfig
  pub servicenow : ServiceNowConfig
  pub runtime : RuntimeConfig

-- What the code reads besides the environment: files, secrets, numbers and JSON.
pub record Readers : Type 0 where
  pub parse_float : String → Option Float
  pub parse_json : String → Parsed
  pub places : Places
  pub read_file : String → Option Parsed

-- `if problems: raise ConfigError(...)`
unfoldable pub unless_problems : List String → Config → Result Config
unless_problems [] cfg = ok cfg
unless_problems (p ∷ ps) cfg =
    err (config (String.◌++◌ "Invalid configuration:\n  - " (join "\n  - " (p ∷ ps))))

-- `_build_config`. The readers raise where they stand in the source; the problems are collected.
unfoldable pub build_config : Readers → Env → Result Config
unfolding unless_problems graph_limits graph_problems graph_config snow_limits snow_choices
    snow_problems snow_config loaded runtime_choices runtime_problems runtime_config env_kv_map
    env_bool
build_config r e = graph_limits r.parse_float r.places e >>= λ graph.
    env_kv_map e "SNOW_CLASS_MAP" default_class_map >>= λ class_map.
    env_bool e "SNOW_USE_ENHANCED_IRE" false >>= λ enhanced.
    snow_limits r.parse_float r.parse_json r.places e >>= λ limits.
    snow_choices r.parse_float r.parse_json r.places e >>= λ choices.
    loaded r.read_file r.parse_json e >>= λ found.
    runtime_choices r.read_file r.parse_json e >>= λ runtime.
    unless_problems
      (graph_problems r.parse_float r.places e
        ++ snow_problems r.parse_float r.parse_json r.places e class_map
        ++ runtime_problems r.read_file r.parse_json e found choices.retire_missing)
      (record {
        graph = graph_config r.parse_float r.places e graph;
        servicenow =
            snow_config r.parse_float r.parse_json r.places e class_map enhanced limits choices;
        runtime = runtime_config r.read_file r.parse_json e found runtime;
      })
