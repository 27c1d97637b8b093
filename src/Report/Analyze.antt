-- ===== src/Report/Analyze.antt =====
-- `analyze`: the conditions of CIs that come from a mapping gone wrong.
pub mod Shared
use Prim.Native.Char.{code}
use Prim.Native.String
use mac_service_now_cmdb.Base.{
  ℕ, String, Bool, true, false, Option, none, some, List, [], ◌∷◌, ◌++◌, map, keep, not, ◌==◌, ◌&&◌,
  ◌||◌, ltb, eqb, length, if◌then◌else◌,
}
use mac_service_now_cmdb.Text.{truthy, lower, join}
use mac_service_now_cmdb.Dict.{Dict, lookup, contains, keys, mem}
use mac_service_now_cmdb.Dict.Groups.{group}
use mac_service_now_cmdb.Json.Show.{repr, show_nat}
use mac_service_now_cmdb.Text.Order.{text_before}
use mac_service_now_cmdb.Report.Fetch.{Cell, Row, is_empty}

pub record Finding : Type 0 where
  pub kind : String
  pub detail : String
  pub sys_ids : List String

-- `_cell`
abbrev pub cell : Row → String → Cell
cell row name = elim (lookup name row) [ none ↦ record { value = ""; display = "" } | some c ↦ c ]

abbrev pub sys_id : Row → String
sys_id row = (cell row "sys_id").value

-- `_field_names`
abbrev pub field_names : List Row → List String
field_names [] = []
field_names (row ∷ rows) = keys row

-- `flag`: a finding, if any row matches.
unfoldable pub flag : String → String → List Row → List Finding
flag kind detail [] = []
flag kind detail (row ∷ rows) =
    record { kind = kind; detail = detail; sys_ids = map sys_id (row ∷ rows) } ∷ []

abbrev pub lacking : String → List Row → List Row
lacking name rows = keep (λ row. is_empty (cell row name)) rows

abbrev pub if_named : List Row → String → List Finding → List Finding
if_named rows name findings = if mem name (field_names rows) then findings else []

-- An entry in a list that is sorted by the keys
unfoldable pub sort_entry {ℓ} : {V : Type ℓ} → String × V → List (String × V) → List (String × V)
unfolding text_before
sort_entry e [] = e ∷ []
sort_entry e (f ∷ fs) =
    let rest = sort_entry e fs in if text_before e.0 f.0 then e ∷ f ∷ fs else f ∷ rest

-- `sorted(groups.items())`, of which the keys differ
unfoldable pub sort_entries {ℓ} : {V : Type ℓ} → Dict V → List (String × V)
unfolding sort_entry
sort_entries [] = []
sort_entries (e ∷ d) = sort_entry e (sort_entries d)

abbrev pub duplicate_of : String → String → List String → Finding
duplicate_of name key ids = record {
  kind = String.◌++◌ "duplicate_" name;
  detail = join "" (show_nat (length ids) ∷ " CIs share " ∷ name ∷ "=" ∷ repr key ∷ []);
  sys_ids = ids;
}

unfoldable pub duplicates_among : String → List (String × List String) → List Finding
duplicates_among name [] = []
duplicates_among name ((key, ids) ∷ groups) =
    let rest = duplicates_among name groups in
    if ltb 1 (length ids) then duplicate_of name key ids ∷ rest else rest

-- `key.lower()`
abbrev pub key_of : String → Row → String
key_of name row = lower (cell row name).value

-- `_duplicate_findings`
unfoldable pub duplicate_findings : List Row → String → List Finding
unfolding duplicates_among sort_entries group
duplicate_findings rows name =
    if_named rows name (duplicates_among name (sort_entries (group (key_of name) sys_id rows [])))

pub record Settings : Type 0 where
  pub assign_user : Bool
  pub install_status_active : Option String
  pub retire_install_status : String

abbrev unresolved : List Row → String → List Finding
unresolved rows name = if_named rows name (
    flag (String.◌++◌ "unresolved_" name)
      (join "" (
        "empty " ∷ name
        ∷ ": the reference lookup found no match, so the connector omitted the field rather than blanking it"
        ∷ []))
      (lacking name rows))

abbrev unassigned : Settings → List Row → List Finding
unassigned cfg rows =
    if cfg.assign_user
    then if_named rows "assigned_to" (
        flag "unassigned"
          "empty assigned_to with SNOW_ASSIGN_USER enabled: no sys_user matched the device's Entra user"
          (lacking "assigned_to" rows))
    else []

abbrev pub other_status : String → Row → Bool
other_status active row =
    let status = (cell row "install_status").value in truthy status && not (status == active)

abbrev unexpected_status : Settings → List Row → List Finding
unexpected_status cfg rows = elim cfg.install_status_active [
  | none ↦ []
  | some active ↦
      if truthy active
      then flag "unexpected_install_status"
          (join "" (
            "install_status is not SNOW_INSTALL_STATUS_ACTIVE="
            ∷ repr active
            ∷ "; "
            ∷ repr cfg.retire_install_status
            ∷ " means the connector retired it"
            ∷ []))
          (keep (other_status active) rows)
      else []
]

abbrev if_given : Option String → (String → List Finding) → List Finding
if_given none f = []
if_given (some name) f = if truthy name then f name else []

abbrev uncorrelated : List Row → String → List Finding
uncorrelated rows name = if_named rows name (
    flag "missing_correlation"
      (join "" (
        "empty " ∷ name
        ∷ ": this CI carries no Intune device id, so it was matched on serial alone or predates the connector"
        ∷ []))
      (lacking name rows))

-- `analyze`
unfoldable pub analyze : List Row → Settings → Option String → List Finding
unfolding flag duplicate_findings
analyze rows cfg correlation =
    flag "missing_serial"
      "no serial_number: IRE cannot identify these by hardware, so a re-run may insert duplicates rather than update them"
      (lacking "serial_number" rows)
    ++ flag "missing_name" "no name: the CI is effectively unreadable in the UI"
        (lacking "name" rows)
    ++ unresolved rows "manufacturer"
    ++ unresolved rows "model_id"
    ++ unassigned cfg rows
    ++ unexpected_status cfg rows
    ++ if_given correlation (uncorrelated rows)
    ++ duplicate_findings rows "serial_number"
    ++ if_given correlation (duplicate_findings rows)
