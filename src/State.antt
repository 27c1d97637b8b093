-- ===== src/State.antt =====
-- state.py: what a run remembers of the devices that it wrote. An entry is a dictionary with
-- `sys_id`, `name`, `class_name` and `last_seen`; times are texts that the caller formats.
pub mod Memory
use mac_service_now_cmdb.Base.{
  ℕ, String, Bool, true, false, Option, none, some, List, [], ◌∷◌, ◌&&◌, not, if◌then◌else◌,
}
use mac_service_now_cmdb.Text.{truthy}
use mac_service_now_cmdb.Dict.{Dict, lookup, insert, erase, mem}
use mac_service_now_cmdb.Json.Value.{
  ℤ, pos, Value, null, int, str, obj, Fields, to_dict, of_dict, or_else, get, is_true, or_null,
}
use mac_service_now_cmdb.Json.Number.{int_of}
use mac_service_now_cmdb.Errors.{Result, ok, err, Error, value_error, ◌>>=◌}

abbrev pub state_version : ℕ
state_version = 1

abbrev pub Entry : Type 0
Entry = Dict Value

pub record SyncState : Type 0 where
  pub version : ℤ
  pub last_run_at : Value
  pub devices : Dict Entry

abbrev pub new_state : SyncState
new_state = record { version = pos state_version; last_run_at = null; devices = [] }

-- `if v: entry[k] = v`
abbrev put_true : String → Option String → Entry → Entry
put_true k none e = e
put_true k (some v) e = if truthy v then insert k (str v) e else e

-- `observe`: the entry is made on the first sight, its name and time are written anew, and the ids
-- only when they are known.
observed : String → Option String → String → Option String → Entry → Entry
observed now sys_id name class_name entry =
    put_true "class_name" class_name
      (put_true "sys_id" sys_id (insert "last_seen" (str now) (insert "name" (str name) entry)))

-- `devices.setdefault(id, {})`
abbrev pub found_or_new : Option Entry → Entry
found_or_new none = []
found_or_new (some e) = e

abbrev pub entry_of : String → SyncState → Entry
entry_of id s = found_or_new (lookup id s.devices)

unfoldable pub observe :
    String → String → Option String → String → Option String → SyncState → SyncState
unfolding observed
observe now id sys_id name class_name s = record s {
  devices = insert id (observed now sys_id name class_name (entry_of id s)) s.devices;
}

-- The entries that `missing_since_last_run` keeps.
unfoldable pub missing_from : List String → Dict Entry → Dict Entry
missing_from current [] = []
missing_from current ((id, e) ∷ d) = elim (not (mem id current) && is_true (get "sys_id" e)) [
  | true ↦ (id, e) ∷ missing_from current d
  | false ↦ missing_from current d
]

unfoldable pub missing_since_last_run : List String → SyncState → Dict Entry
unfolding missing_from
missing_since_last_run current s = missing_from current s.devices

erase_all : List String → Dict Entry → Dict Entry
erase_all [] d = d
erase_all (id ∷ ids) d = erase_all ids (erase id d)

-- `forget`
unfoldable pub forget : List String → SyncState → SyncState
unfolding erase_all
forget ids s = record s { devices = erase_all ids s.devices }

-- What a store holds, read as `json.loads` reads it; no text and the empty text are `none`.
pub data Stored : Type 0 where
  not_json : Stored
  json : Value → Stored

abbrev entry_of_value : Value → Entry
entry_of_value (obj fs) = to_dict fs
entry_of_value _ = []

entries : Dict Value → Dict Entry
entries [] = []
entries ((id, v) ∷ d) = (id, entry_of_value v) ∷ entries d

abbrev devices_of : Value → Dict Entry
unfolding entries
devices_of (obj fs) = entries (to_dict fs)
devices_of _ = []

abbrev load_object : Fields → Result SyncState
unfolding entries int_of
load_object fs = elim (int_of (or_else (get "version" (to_dict fs)) (int (pos state_version)))) [
  | none ↦ err (value_error "version")
  | some n ↦ ok (record {
    version = n;
    last_run_at = get "last_run_at" (to_dict fs);
    devices = devices_of (get "devices" (to_dict fs));
  })
]

-- `SyncState.load`: without a readable object the state is empty.
unfoldable pub load : Option Stored → Result SyncState
unfolding entries int_of
load (some (json (obj fs))) = load_object fs
load _ = ok new_state

saved_entries : Dict Entry → Dict Value
saved_entries [] = []
saved_entries ((id, e) ∷ d) = (id, obj (of_dict e)) ∷ saved_entries d

-- `save` to a store: the state with the time of this run, and what the store then holds.
unfoldable pub save : String → SyncState → SyncState × Stored
unfolding saved_entries
save now s =
    let s' : SyncState = record s { last_run_at = str now } in
    (
      s',
      json (
          obj (
            of_dict (
              ("version", int s.version)
              ∷ ("last_run_at", str now)
              ∷ ("devices", obj (of_dict (saved_entries s.devices)))
              ∷ []))),
    )

-- `SyncState.save`: without a store nothing happens. The store's answer is the parameter.
unfoldable pub save_state :
    String → Option (Stored → Result (Unit {0})) → SyncState → SyncState × Result (Option Stored)
unfolding save
save_state now none s = (s, ok none)
save_state now (some store_write) s =
    let (s', stored) = save now s in (s', store_write stored >>= λ _. ok (some stored))
