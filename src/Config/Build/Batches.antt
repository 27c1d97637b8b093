-- ===== src/Config/Build/Batches.antt =====
-- The batches that a run of a built configuration writes.
use mac_service_now_cmdb.Base.{◌≡◌, List, All}
use mathlib.Core.List.{flatten}
use mac_service_now_cmdb.Query.{chunked}
use mac_service_now_cmdb.Query.Chunks.{Fits}
use mac_service_now_cmdb.Config.Env.{Env}
use mac_service_now_cmdb.Config.Build.{Config}
use mac_service_now_cmdb.Writers.Types.{CiPayload}

-- The batches in order are the payloads, and each holds 1 to 1000.
abbrev pub Batches : List CiPayload → Config → Type 0
Batches payloads cfg =
    (flatten (chunked payloads cfg.servicenow.batch_size) ≡ payloads)
    × All (Fits 1000) (chunked payloads cfg.servicenow.batch_size)
