-- ===== src/Config/Build/Valid.antt =====
-- A configuration that is built is valid.
use mac_service_now_cmdb.Config.Env.{Env}
use mac_service_now_cmdb.Config.Graph.Valid.{IsGraphValid}
use mac_service_now_cmdb.Config.Snow.Valid.{IsSnowValid}
use mac_service_now_cmdb.Config.Runtime.Valid.{IsRuntimeValid}
use mac_service_now_cmdb.Config.Build.{Config}

pub record IsValid (cfg : Config) : Type 0 where
  pub graph : IsGraphValid cfg.graph
  pub servicenow : IsSnowValid cfg.servicenow
  pub runtime : IsRuntimeValid cfg.runtime cfg.servicenow.retire_missing
