-- ===== src/Writers/Types.antt =====
-- servicenow/writers/ire.py: what a writer takes and gives, and what it posts.
use mac_service_now_cmdb.Base.{String, Option, none, some, List, [], ◌∷◌}
use mac_service_now_cmdb.Text.{join}
use mac_service_now_cmdb.Dict.{Dict}
use mac_service_now_cmdb.Json.Value.{Value}

-- One device, mapped to the shape of the CMDB.
pub record CiPayload : Type 0 where
  pub intune_id : String
  pub class_name : String
  pub values : Dict Value
  pub device_name : String
  pub serial_number : Option String
  pub source_recency : Option String

pub record WriteResult : Type 0 where
  pub intune_id : String
  pub action : String
  pub sys_id : Option String
  pub errors : List String
  pub detail : Option (Dict Value)

-- `WriteResult.message`
unfoldable pub result_message : WriteResult → Option String
unfolding join
result_message r = elim r.errors [ [] ↦ none | e ∷ es ↦ some (join "; " (e ∷ es)) ]

-- `WriteResult(intune_id=..., action="error", errors=...)`
abbrev pub failure : String → List String → WriteResult
failure id errors = record {
  intune_id = id;
  action = "error";
  sys_id = none;
  errors = errors;
  detail = none;
}
