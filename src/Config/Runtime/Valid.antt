-- ===== src/Config/Runtime/Valid.antt =====
-- What holds of the process's own settings when there is no problem with them.
use mac_service_now_cmdb.Base.{
  ℕ, zero, suc, ◌≤◌, String, ◌≡◌, refl, Bool, true, false, Option, none, some, List, [], ◌∷◌,
  nil_of_append, All, arith, some-injective,
}
use mac_service_now_cmdb.Dict.{Dict, lookup, mem}
use mac_service_now_cmdb.Json.Value.{Value, obj, to_dict, get}
use mac_service_now_cmdb.Config.Env.{Env, env, Parsed, invalid, raises, parsed, given}
use mac_service_now_cmdb.Config.Env.Bounds.{
  Reads, Reads-bind, Any, Within, env_int-Within, env_bool-Any,
}
use mac_service_now_cmdb.Config.Graph.Valid.{expect-holds}
use mac_service_now_cmdb.Config.Snow.Valid.{implied}
use mac_service_now_cmdb.Config.Runtime.{
  RuntimeConfig, RuntimeChoices, Loaded, log_formats, reference_alias_keys, are_aliases,
  alias_problems, loaded_from, from_file, from_text, load_overrides, loaded, unless_zero,
  runtime_choices, runtime_problems, runtime_config,
}

abbrev pub HasAliases : Dict Value → Type 0
HasAliases d = All (λ key. are_aliases (get key d) ≡ true) reference_alias_keys

pub record IsRuntimeValid (cfg : RuntimeConfig) (retire_missing : Bool) : Type 0 where
  pub format : mem cfg.log_format log_formats ≡ true
  pub aliases : HasAliases cfg.mapping_overrides
  pub state : retire_missing ≡ true → given cfg.state_path ≡ true
  pub limit : (n : ℕ) → cfg.device_limit ≡ some n → 1 ≤ n

alias_problems-none :
    (d : Dict Value) (keys : List String)
    → alias_problems d keys ≡ []
    → All (λ key. are_aliases (get key d) ≡ true) keys
unfolding alias_problems
alias_problems-none d [] h = tt
alias_problems-none d (key ∷ keys) h =
    let (a, b) = nil_of_append _ _ h in (expect-holds _ _ a, alias_problems-none d keys b)

abbrev pub IsGood : Loaded → Type 0
IsGood l = l.problems ≡ [] → HasAliases l.overrides

loaded_from-IsGood : (problem : String) (v : Value) → Reads IsGood (loaded_from problem v)
unfolding loaded_from
loaded_from-IsGood problem (obj fs) = λ h. alias_problems-none (to_dict fs) reference_alias_keys h
loaded_from-IsGood problem v = λ h. absurd (cc)

from_file-IsGood : (path : String) (o : Option Parsed) → Reads IsGood (from_file path o)
unfolding from_file
from_file-IsGood path none = λ h. absurd (cc)
from_file-IsGood path (some (invalid m)) = λ h. absurd (cc)
from_file-IsGood path (some (raises kind)) = tt
from_file-IsGood path (some (parsed v)) = loaded_from-IsGood _ v

from_text-IsGood : (p : Parsed) → Reads IsGood (from_text p)
unfolding from_text
from_text-IsGood (invalid m) = λ h. absurd (cc)
from_text-IsGood (raises kind) = tt
from_text-IsGood (parsed v) = loaded_from-IsGood _ v

module _ (read_file : String → Option Parsed) (parse_json : String → Parsed) where
  load_overrides-IsGood :
      (path text : Option String) → Reads IsGood (load_overrides read_file parse_json path text)
  unfolding load_overrides lookup
  load_overrides-IsGood (some path) (some text) = λ h. absurd (cc)
  load_overrides-IsGood (some path) none = from_file-IsGood path (read_file path)
  load_overrides-IsGood none (some text) = from_text-IsGood (parse_json text)
  load_overrides-IsGood none none = λ h. (refl, (refl, tt))

  pub loaded-IsGood : (e : Env) → Reads IsGood (loaded read_file parse_json e)
  unfolding loaded
  loaded-IsGood e =
      load_overrides-IsGood (env e "MAPPING_OVERRIDES_FILE" none)
        (env e "MAPPING_OVERRIDES_JSON" none)

  unless_zero-pos : (n k : ℕ) → unless_zero n ≡ some k → 1 ≤ k
  unless_zero-pos zero k h = absurd (let e = h in cc)
  unless_zero-pos (suc n) k h = omega (arith, some-injective h)

  pub runtime_choices-Any : (e : Env) → Reads Any (runtime_choices read_file parse_json e)
  unfolding runtime_choices
  runtime_choices-Any e =
      Reads-bind (Within 0 none) Any _ _
        (env_int-Within "INTUNE_DEVICE_LIMIT" 0 e 0 none (omega arith, tt))
        (λ limit _. Reads-bind Any Any _ _ (env_bool-Any e "DRY_RUN" false) (λ dry_run _.
          Reads-bind Any Any _ _ (env_bool-Any e "RUN_REPORT_DEVICES" false) (λ devices _.
            Reads-bind Any Any _ _ (env_bool-Any e "FAIL_ON_ERROR" false) (λ fail_on_error _. tt))))

  pub runtime_problems-IsRuntimeValid :
      (e : Env) (found : Loaded) (retire_missing : Bool) (choices : RuntimeChoices)
      → IsGood found
      → runtime_problems read_file parse_json e found retire_missing ≡ []
      → IsRuntimeValid (runtime_config read_file parse_json e found choices) retire_missing
  unfolding runtime_problems runtime_config
  runtime_problems-IsRuntimeValid e found retire_missing choices good h =
      let (h', state) = nil_of_append _ _ h in
      let (format, aliases) = nil_of_append _ _ h' in
      record {
        format = expect-holds _ _ format;
        aliases = good aliases;
        state = implied _ _ (expect-holds _ _ state);
        limit = λ n. unless_zero-pos choices.device_limit n;
      }
