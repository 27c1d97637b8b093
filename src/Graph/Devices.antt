-- ===== src/Graph/Devices.antt =====
-- The devices that Graph lists, as the generator yields them, and `is_corporate`.
use mac_service_now_cmdb.Base.{String, Bool, true, List, [], ◌∷◌, keep, ◌==◌, if◌then◌else◌}
use mac_service_now_cmdb.Text.{lower}
use mac_service_now_cmdb.Dict.{Dict}
use mac_service_now_cmdb.Json.Value.{Value, get_or_empty}
use mac_service_now_cmdb.Json.Show.{show}
use mac_service_now_cmdb.Errors.{Error}

abbrev pub Device : Type 0
Device = Dict Value

-- `is_corporate`
unfoldable pub is_corporate : Device → String → Bool
unfolding lower show
is_corporate device ownership =
    if ownership == "any"
    then true
    else lower (show (get_or_empty "managedDeviceOwnerType" device)) == ownership

-- What a generator yields: a device and what follows, its end, or an error.
pub data Stream : Type 0 where
  finished : Stream
  failed : Error → Stream
  yielded : Device → Stream → Stream

-- The stream of a list of devices.
abbrev pub all_of : List Device → Stream → Stream
all_of [] s = s
all_of (d ∷ ds) s = yielded d (all_of ds s)

abbrev pub corporate : String → List Device → List Device
corporate ownership = keep (λ d. is_corporate d ownership)
