-- ===== src/Graph/Users.antt =====
-- The reads of many objects by `$batch`: `get_users` and `get_hardware_details`.
use Prim.Native.String
use mac_service_now_cmdb.Base.{String, true, false, List, [], ◌∷◌, if◌then◌else◌}
use mac_service_now_cmdb.Text.{truthy, join}
use mac_service_now_cmdb.Dict.{Dict, insert}
use mac_service_now_cmdb.Errors.{Result, ok, ◌>>=◌}
use mac_service_now_cmdb.Models.People.{EntraUser, from_graph}
use mac_service_now_cmdb.Client.{Send}
use mac_service_now_cmdb.Graph.Pages.{Settings}
use mac_service_now_cmdb.Graph.Batch.{Bodies, batch_get}

-- `{oid: url(oid) for oid in ids if oid}`
unfoldable pub urls_of : (String → String) → List String → Dict String → Dict String
urls_of url [] d = d
urls_of url (id ∷ ids) d = urls_of url ids (if truthy id then insert id (url id) d else d)

-- `{oid: EntraUser.from_graph(body) for oid, body in bodies.items()}`
unfoldable pub users_of : Bodies → Dict EntraUser
users_of [] = []
users_of ((id, body) ∷ bodies) = (id, from_graph body) ∷ users_of bodies

abbrev user_url : Settings → String → String
user_url cfg id = join "" ("/users/" ∷ id ∷ "?$select=" ∷ join "," cfg.user_select_fields ∷ [])

-- `get_users`: who is missing or deleted is absent.
unfoldable pub get_users : Settings → Send → List String → Result (Dict EntraUser)
unfolding urls_of users_of batch_get
get_users cfg send ids =
    batch_get "user" "/$batch" true (urls_of (user_url cfg) ids []) send cfg.max_retries >>= λ o.
    ok (users_of o.0)

-- `NON_DEFAULT_DEVICE_FIELDS`
abbrev pub non_default_device_fields : List String
non_default_device_fields =
    "id" ∷ "ethernetMacAddress" ∷ "physicalMemoryInBytes" ∷ "processorArchitecture" ∷ "udid" ∷ []

abbrev device_url : String → String
device_url id = join "" (
    "/deviceManagement/managedDevices/"
    ∷ id
    ∷ "?$select="
    ∷ join "," non_default_device_fields
    ∷ [])

-- `get_hardware_details`: a device whose lookup fails is absent.
unfoldable pub get_hardware_details : Settings → Send → String → List String → Result Bodies
unfolding urls_of batch_get
get_hardware_details cfg send beta_base ids =
    batch_get "hardware detail" (String.◌++◌ beta_base "/$batch") false (urls_of device_url ids [])
      send cfg.max_retries
    >>= λ o. ok o.0
