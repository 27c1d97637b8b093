-- ===== src/Graph/Pages.antt =====
-- Listings in pages: `iter_managed_devices` and `_iter_pages`. A page may name the next one for ever,
-- so the model takes the number of pages that it follows, and has no result if there are more.
pub mod Listed
use Prim.Native.String
use mac_service_now_cmdb.Base.{
  ℕ, zero, suc, String, Bool, true, false, Option, none, some, List, [], ◌∷◌, ◌++◌, ◌||◌, not, ◌==◌,
  eqb, if◌then◌else◌,
}
use mathlib.Core.Option
use mac_service_now_cmdb.Text.{join}
use mac_service_now_cmdb.Dict.{Dict}
use mac_service_now_cmdb.Json.Value.{
  Value, null, int, pos, str, obj, to_dict, get, is_true, iterate,
}
use mac_service_now_cmdb.Errors.{
  Error, Result, ok, err, ◌>>=◌, graph, graph_bad_request, value_error, other,
}
use mac_service_now_cmdb.Http.Response.{Response, is_success, describe_error}
use mac_service_now_cmdb.Client.{Request, Send, entries_of}
use mac_service_now_cmdb.Graph.Devices.{Device, Stream, finished, failed, yielded}

pub record Settings : Type 0 where
  pub page_size : ℕ
  pub ownership : String
  pub server_side_filter : Bool
  pub user_select_fields : List String
  pub max_retries : ℕ

-- `DEVICE_SELECT_FIELDS`
abbrev pub device_select_fields : List String
device_select_fields =
    "id" ∷ "deviceName" ∷ "managedDeviceName" ∷ "managedDeviceOwnerType" ∷ "operatingSystem"
    ∷ "osVersion" ∷ "manufacturer" ∷ "model" ∷ "serialNumber" ∷ "imei" ∷ "meid" ∷ "wiFiMacAddress"
    ∷ "complianceState" ∷ "managementAgent" ∷ "managementState" ∷ "deviceEnrollmentType"
    ∷ "deviceRegistrationState" ∷ "enrolledDateTime" ∷ "lastSyncDateTime" ∷ "isEncrypted"
    ∷ "isSupervised" ∷ "jailBroken" ∷ "azureADDeviceId" ∷ "azureADRegistered"
    ∷ "deviceCategoryDisplayName" ∷ "enrollmentProfileName" ∷ "totalStorageSpaceInBytes"
    ∷ "freeStorageSpaceInBytes" ∷ "userId" ∷ "userPrincipalName" ∷ "userDisplayName"
    ∷ "emailAddress" ∷ []

abbrev pub read_request : String → Dict Value → Request
read_request url params = record { method = "GET"; path = url; params = params; json_body = null }

pub record Page : Type 0 where
  pub items : List Value
  pub next_link : Value

-- `payload.get("value") or []` and `payload.get("@odata.nextLink")`
unfoldable pub read_page : Option Value → Result Page
read_page none = err (value_error "the response is not JSON")
read_page (some payload) = entries_of payload >>= λ d.
    ok (record { items = iterate (get "value" d); next_link = get "@odata.nextLink" d })

-- `yield from devices`; an item that is no dictionary is refused here already.
unfoldable pub yield_all : List Value → Stream → Stream
yield_all [] s = s
yield_all (v ∷ vs) s = elim v [
  | obj fs ↦ yielded (to_dict fs) (yield_all vs s)
  | _ ↦ failed (other "AttributeError")
]

-- `while url`: the next page, if a link to it is there. A link that is no text raises in `httpx`.
unfoldable pub follow : Value → (String → Option Stream) → Option Stream
follow link next =
    if is_true link
    then elim link [ str url ↦ next url | _ ↦ some (failed (other "TypeError")) ]
    else some finished

paged : Result Page → (String → Option Stream) → Option Stream
unfolding yield_all follow
paged (err e) next = some (failed e)
paged (ok page) next = Option.map (yield_all page.items) (follow page.next_link next)

-- What one answer yields, and what follows it.
unfoldable pub listed : Result Response → (String → Option Stream) → Option Stream
unfolding paged read_page is_success describe_error
listed (err e) next = some (failed e)
listed (ok r) next =
    if not (is_success r)
    then some (failed (graph (String.◌++◌ "listing managed devices failed: " (describe_error r))))
    else paged (read_page r.body) next

-- A link carries its parameters.
unfoldable pub pages_from : ℕ → Send → String → Option Stream
unfolding listed
pages_from zero send url = none
pages_from (suc pages) send url = listed (send (read_request url [])) (pages_from pages send)

-- `_ownership_filter`
unfoldable pub ownership_filter : Settings → Option String
ownership_filter cfg =
    if not cfg.server_side_filter || cfg.ownership == "any"
    then none
    else some (join "" ("managedDeviceOwnerType eq '" ∷ cfg.ownership ∷ "'" ∷ []))

filter_param : Option String → Dict Value
filter_param none = []
filter_param (some f) = ("$filter", str f) ∷ []

unfoldable pub devices_request : Settings → Option String → Request
unfolding filter_param
devices_request cfg filter = read_request "/deviceManagement/managedDevices" (
    ("$select", str (join "," device_select_fields))
    ∷ ("$top", int (pos cfg.page_size))
    ∷ filter_param filter)

-- A filter that Graph rejects is left out, once.
unfoldable pub without_filter : Result Response → Result Response → Result Response
without_filter (err e) again = err e
without_filter (ok r) again = if eqb r.status 400 then again else ok r

first_answer : Settings → Send → Option String → Result Response
unfolding without_filter devices_request
first_answer cfg send none = send (devices_request cfg none)
first_answer cfg send (some f) =
    without_filter (send (devices_request cfg (some f))) (send (devices_request cfg none))

-- `iter_managed_devices`
unfoldable pub iter_managed_devices : ℕ → Settings → Send → Option Stream
unfolding first_answer ownership_filter pages_from
iter_managed_devices pages cfg send =
    listed (first_answer cfg send (ownership_filter cfg)) (pages_from pages send)

rest_of :
    List Value → Value → (String → Option (Result (List Value))) → Option (Result (List Value))
rest_of items link next =
    if is_true link
    then elim link [
      | str url ↦ Option.map (λ r. r >>= λ rest. ok (items ++ rest)) (next url)
      | _ ↦ some (err (other "TypeError"))
    ]
    else some (ok items)

pages_of : Result Page → (String → Option (Result (List Value))) → Option (Result (List Value))
unfolding rest_of
pages_of (err e) next = some (err e)
pages_of (ok page) next = rest_of page.items page.next_link next

-- One answer of `_iter_pages`: a 400 is an error of its own.
gathered :
    String
    → Result Response
    → (String → Option (Result (List Value)))
    → Option (Result (List Value))
unfolding pages_of read_page is_success describe_error
gathered what (err e) next = some (err e)
gathered what (ok r) next =
    if eqb r.status 400
    then some (err (graph_bad_request (join "" (what ∷ " failed: " ∷ describe_error r ∷ []))))
    else if not (is_success r)
    then some (err (graph (join "" (what ∷ " failed: " ∷ describe_error r ∷ []))))
    else pages_of (read_page r.body) next

-- `_iter_pages`, of which all callers read every item
unfoldable pub iter_pages : ℕ → Send → String → String → Dict Value → Option (Result (List Value))
unfolding gathered
iter_pages zero send what url params = none
iter_pages (suc pages) send what url params =
    gathered what (send (read_request url params)) (λ next. iter_pages pages send what next [])
