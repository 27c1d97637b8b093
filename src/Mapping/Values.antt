-- ===== src/Mapping/Values.antt =====
-- `DeviceMapper.build_values`. `to_snow_datetime`, which reads dates, is a parameter, and so are the
-- attributes of the Entra user, by `getattr`.
pub mod Written
use Prim.Native.String.{String}
use mac_service_now_cmdb.Base.{
  ℕ, Bool, true, false, Option, none, some, List, [], ◌∷◌, ◌&&◌, not, ◌==◌, if◌then◌else◌,
}
use mac_service_now_cmdb.Text.{truthy, lower, after_prefix}
use mac_service_now_cmdb.Dict.{Dict, lookup, insert, update, erase}
use mac_service_now_cmdb.Json.Value.{
  Value, null, bool, str, get, get_or_empty, is_true, or_else, or_null,
}
use mac_service_now_cmdb.Json.Show.{show}
use mac_service_now_cmdb.Mapping.Fields.{
  normalize_serial, clean, text_or_none, value_or_null, normalize_mac, os_display_name,
  looks_like_timestamp,
}
use mac_service_now_cmdb.Mapping.Sizes.{bytes_to_mb, bytes_to_gb, whole_value, hundredths_value}

-- The configuration that the mapping reads, with the overrides of the mapping file.
pub record Settings : Type 0 where
  pub serial_blocklist : List String
  pub set_correlation : Bool
  pub correlation_field : String
  pub assign_user : Bool
  pub install_status_active : String
  pub os_names : Dict String
  pub extra_fields : Dict String
  pub static : Dict Value
  pub drop : List String

-- `CPU_TYPES`
abbrev pub cpu_types : Dict String
cpu_types = ("x86", "x86") ∷ ("x64", "x64") ∷ ("arm", "ARM") ∷ ("arm64", "ARM64") ∷ []

abbrev text_value : Option String → Value
text_value none = null
text_value (some s) = str s

-- The attributes of an Entra user; a missing one is `None`.
abbrev pub User : Type 0
User = String → Value

unfoldable pub map_extra_field : (Value → Option String) → Dict Value → String → Option User → Value
unfolding clean looks_like_timestamp
map_extra_field to_snow_datetime device graph_field user = elim (after_prefix "user." graph_field) [
  | some attribute ↦ elim user [ none ↦ null | some u ↦ clean (u attribute) ]
  | none ↦
      let raw = get graph_field device in
      elim (text_or_none raw) [
        | none ↦ clean raw
        | some s ↦ if looks_like_timestamp s then text_value (to_snow_datetime raw) else clean raw
      ]
]

module _ (to_snow_datetime : Value → Option String) (cfg : Settings) (device : Dict Value) where
  abbrev pub serial_for : Option String
  serial_for = normalize_serial (text_or_none (get "serialNumber" device)) cfg.serial_blocklist

  unfoldable pub base_values : Dict Value
  base_values =
      ("name", or_else (clean (get "deviceName" device)) (clean (get "managedDeviceName" device)))
      ∷ ("serial_number", text_value serial_for)
      ∷ ("os", text_value (os_display_name device cfg.os_names))
      ∷ ("os_version", clean (get "osVersion" device))
      ∷ (
        "mac_address",
        text_value (
            normalize_mac (
              text_or_none
                (or_else (get "ethernetMacAddress" device) (get "wiFiMacAddress" device)))),
      )
      ∷ ("ram", whole_value (bytes_to_mb (get "physicalMemoryInBytes" device)))
      ∷ (
        "cpu_type",
        text_value (lookup (lower (show (get_or_empty "processorArchitecture" device))) cpu_types),
      )
      ∷ ("cpu_name", clean (get "_cpuNameFromCustomAttribute" device))
      ∷ ("disk_space", hundredths_value (bytes_to_gb (get "totalStorageSpaceInBytes" device)))
      ∷ ("first_discovered", text_value (to_snow_datetime (get "enrolledDateTime" device)))
      ∷ ("last_discovered", text_value (to_snow_datetime (get "lastSyncDateTime" device)))
      ∷ ("virtual", bool false)
      ∷ []

  -- `if sys_id: values[field_name] = sys_id`
  abbrev put_reference : String → Dict String → Dict Value → Dict Value
  put_reference name references values = elim (lookup name references) [
    | none ↦ values
    | some id ↦ if truthy id then insert name (str id) values else values
  ]

  abbrev put_user : Option String → Dict Value → Dict Value
  put_user none values = values
  put_user (some sys_id) values =
      if cfg.assign_user then insert "assigned_to" (str sys_id) values else values

  put_extra : Option User → Dict String → Dict Value → Dict Value
  put_extra user [] values = values
  put_extra user ((cmdb_field, graph_field) ∷ fields) values =
      put_extra user fields
        (insert cmdb_field (map_extra_field to_snow_datetime device graph_field user) values)

  abbrev put_correlation : Dict Value → Dict Value
  put_correlation values =
      if cfg.set_correlation && truthy cfg.correlation_field
      then insert cfg.correlation_field (get "id" device) values
      else values

  abbrev put_status : Dict Value → Dict Value
  put_status values =
      if truthy cfg.install_status_active
      then insert "install_status" (str cfg.install_status_active) values
      else values

  -- The values before the static ones
  unfoldable pub own_values : Option String → Option User → Dict String → Dict Value
  unfolding base_values put_extra
  own_values sys_user user references = put_extra user cfg.extra_fields (
      put_status (
        put_user sys_user (
          put_correlation (
            put_reference "model_id" references
              (put_reference "manufacturer" references base_values)))))

abbrev pub drop_all : List String → Dict Value → Dict Value
drop_all [] d = d
drop_all (k ∷ ks) d = drop_all ks (erase k d)

-- `v is not None and v != ""`
abbrev pub is_kept : Value → Bool
is_kept null = false
is_kept (str s) = truthy s
is_kept _ = true

unfoldable pub without_blanks : Dict Value → Dict Value
without_blanks [] = []
without_blanks ((k, v) ∷ d) =
    let rest = without_blanks d in if is_kept v then (k, v) ∷ rest else rest

-- `build_values`, with the sys_id of the user and the references that were resolved
unfoldable pub build_values :
    (Value → Option String)
    → Settings
    → Dict Value
    → Option String
    → Option User
    → Dict String
    → Dict Value
unfolding own_values without_blanks
build_values to_snow_datetime cfg device sys_user user references = without_blanks (
    drop_all cfg.drop
      (update (own_values to_snow_datetime cfg device sys_user user references) cfg.static))
