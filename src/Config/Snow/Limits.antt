-- ===== src/Config/Snow/Limits.antt =====
-- The numbers that are read for ServiceNow are within their bounds.
use mac_service_now_cmdb.Base.{String, refl, Bool, true, false, Option, none, some, arith}
use mac_service_now_cmdb.Json.Value.{pos}
use mac_service_now_cmdb.Errors.{Result, ◌>>=◌}
use mac_service_now_cmdb.Config.Env.{Env, Parsed, Places, env_bool}
use mac_service_now_cmdb.Config.Floats.{Float, finite, below}
use mac_service_now_cmdb.Config.Env.Bounds.{
  Reads, Reads-bind, Any, Within, env_int-Within, env_bool-Any, env_json_object-Any,
}
use mac_service_now_cmdb.Config.Floats.Ranges.{InRange, env_float-InRange}
use mac_service_now_cmdb.Config.Graph.{seconds}
use mac_service_now_cmdb.Config.Snow.{SnowLimits, SnowChoices, snow_limits, snow_choices}

abbrev pub InSnowLimits : SnowLimits → Type 0
InSnowLimits limits =
    Within 1 (some 1000) limits.batch_size
    × Within 1 (some 32) limits.concurrency
    × Within 0 (some 10000) limits.abort_after_errors
    × Within 0 (some 10) limits.max_retries
    × InRange (seconds 1) none limits.request_timeout

abbrev pub HasFraction : SnowChoices → Type 0
HasFraction choices = InRange (seconds 0) (some (seconds 1)) choices.retire_max_fraction

module _ (parse_float : String → Option Float) (parse_json : String → Parsed) (places : Places)
    (e : Env) where
  pub snow_limits-InSnowLimits : Reads InSnowLimits (snow_limits parse_float parse_json places e)
  unfolding snow_limits below
  snow_limits-InSnowLimits =
      Reads-bind (Within 1 (some 1000)) InSnowLimits _ _
        (env_int-Within "SNOW_BATCH_SIZE" 1 e 100 (some 1000) (omega arith, omega arith))
        (λ batch_size b.
          Reads-bind (Within 1 (some 32)) InSnowLimits _ _
            (env_int-Within "SNOW_CONCURRENCY" 1 e 4 (some 32) (omega arith, omega arith))
            (λ concurrency c.
              Reads-bind (Within 0 (some 10000)) InSnowLimits _ _
                (env_int-Within "SNOW_ABORT_AFTER_ERRORS" 0 e 10 (some 10000)
                  (omega arith, omega arith))
                (λ abort a.
                  Reads-bind (InRange (seconds 1) none) InSnowLimits _ _
                    (env_float-InRange parse_float "SNOW_TIMEOUT_SECONDS" (seconds 1) none e
                      (seconds 60) (refl, refl))
                    (λ timeout t.
                      Reads-bind (Within 0 (some 10)) InSnowLimits _ _
                        (env_int-Within "SNOW_MAX_RETRIES" 0 e 5 (some 10)
                          (omega arith, omega arith))
                        (λ retries r. (b, c, a, r, t))))))

  read_bool :
      {B : Type 0} (name : String) (default : Bool) (f : Bool → Result B) (Q : B → Type 0)
      → ((b : Bool) → Reads Q (f b))
      → Reads Q (env_bool e name default >>= f)
  read_bool name default f Q h =
      Reads-bind Any Q (env_bool e name default) f (env_bool-Any e name default) (λ b _. h b)

  pub snow_choices-HasFraction : Reads HasFraction (snow_choices parse_float parse_json places e)
  unfolding snow_choices below
  snow_choices-HasFraction =
      Reads-bind Any HasFraction _ _ (env_json_object-Any parse_json e "SNOW_EXTRA_ATTRIBUTES")
        (λ extra _. read_bool "SNOW_ASSIGN_USER" true _ HasFraction (λ assign.
          read_bool "SNOW_USER_ACTIVE_ONLY" true _ HasFraction (λ active.
            read_bool "SNOW_RETIRE_MISSING" false _ HasFraction (λ retire.
              Reads-bind (InRange (seconds 0) (some (seconds 1))) HasFraction _ _
                (env_float-InRange parse_float "SNOW_RETIRE_MAX_FRACTION" (seconds 0)
                  (some (seconds 1)) e (finite (pos 1) 1) (refl, refl))
                (λ fraction h. read_bool "SNOW_SET_CORRELATION" true _ HasFraction (λ correlation.
                  read_bool "INTUNE_FETCH_HARDWARE_DETAIL" false _ HasFraction (λ detail.
                    read_bool "SNOW_CREATE_MISSING_MANUFACTURERS" false _ HasFraction
                      (λ manufacturers.
                        read_bool "SNOW_CREATE_MISSING_MODELS" false _ HasFraction
                          (λ models. h)))))))))
