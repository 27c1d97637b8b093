-- ===== src/Witnesses/Reads.antt =====
-- Concrete runs of the reads of Graph.
use mac_service_now_cmdb.Base.{
  ◌≤◌, String, ◌≡◌, refl, true, false, Option, none, some, [], ◌∷◌, ◌==◌, arith, if◌then◌else◌,
}
use mac_service_now_cmdb.Text.{lower, strip}
use mac_service_now_cmdb.Dict.{Dict, lookup, insert}
use mac_service_now_cmdb.Json.Value.{pos, Value, int, str, arr, obj, of_dict, of_list}
use mac_service_now_cmdb.Json.Number.{int_of, parse_int}
use mac_service_now_cmdb.Json.Show.{show}
use mac_service_now_cmdb.Models.{RunReport, new_report}
use mac_service_now_cmdb.Errors.{ok}
use mac_service_now_cmdb.Http.Response.{Response, absent, is_success}
use mac_service_now_cmdb.Client.{Send}
use mac_service_now_cmdb.Query.{chunked}
use mac_service_now_cmdb.Errors.Gives.{Gives}
use mac_service_now_cmdb.Graph.Devices.{Device, corporate}
use mac_service_now_cmdb.Graph.Pages.{Settings, Page, read_page, devices_request}
use mac_service_now_cmdb.Graph.Pages.Listed.{Lists, last, more, page_count, answered}
use mac_service_now_cmdb.Graph.Attributes.{get_custom_attribute_values}
use mac_service_now_cmdb.Graph.Attributes.Unique.{
  Yields, IsRead, get_custom_attribute_values-IsRead,
}
use mac_service_now_cmdb.Sync.Collect.Filtered.{Keeps, iter_managed_devices-Keeps}
use mac_service_now_cmdb.Sync.Enrich.{with_memory, fill_memory, positive_int}
use mac_service_now_cmdb.Graph.Batch.{batch_get}
use mac_service_now_cmdb.Graph.Batch.Asked.{IsAsked, batch_get-IsAsked}

abbrev urls : Dict String
urls = ("u1", "/users/u1") ∷ ("u2", "/users/u2") ∷ []

abbrev found : Value
found = obj (
    of_dict (
      ("id", str "1")
      ∷ ("status", int (pos 200))
      ∷ ("body", obj (of_dict (("mail", str "a@b.c") ∷ [])))
      ∷ []))

abbrev graph : Send
graph q = ok (record {
  status = 200;
  reason = "OK";
  content = "{}";
  body = some (obj (of_dict (("responses", arr (of_list (found ∷ []))) ∷ [])));
  request = none;
  is_logged_in = none;
  retry_after = absent;
  rate_limit_reset = none;
})

finds_second :
    batch_get "user" "/$batch" true urls graph 3 ≡ ok (("u2", ("mail", str "a@b.c") ∷ []) ∷ [], [])
unfolding batch_get chunked lookup int_of insert
finds_second = refl

batch_get-IsAsked_example : Gives (IsAsked urls 3) (batch_get "user" "/$batch" true urls graph 3)
batch_get-IsAsked_example = batch_get-IsAsked "user" "/$batch" true urls graph 3

abbrev settings : Settings
settings = record {
  page_size = 200;
  ownership = "company";
  server_side_filter = true;
  user_select_fields = "id" ∷ [];
  max_retries = 3;
}

abbrev mac : Device
mac = ("id", str "d1") ∷ ("managedDeviceOwnerType", str "company") ∷ []

abbrev phone : Device
phone = ("id", str "d2") ∷ ("managedDeviceOwnerType", str "personal") ∷ []

-- A tenant that ignores the filter, in two pages.
abbrev page : String → Value → Response
page link v = record {
  status = 200;
  reason = "OK";
  content = "{}";
  body =
      some (obj (of_dict (("value", arr (of_list (v ∷ []))) ∷ ("@odata.nextLink", str link) ∷ [])));
  request = none;
  is_logged_in = none;
  retry_after = absent;
  rate_limit_reset = none;
}

abbrev tenant : Send
tenant q =
    if q.path == "next"
    then ok (page "" (obj (of_dict phone)))
    else ok (page "next" (obj (of_dict mac)))

abbrev first_page : Page
first_page = record { items = obj (of_dict mac) ∷ []; next_link = str "next" }

abbrev last_page : Page
last_page = record { items = obj (of_dict phone) ∷ []; next_link = str "" }

lists : (o : Option String) → Lists tenant (devices_request settings o) (mac ∷ phone ∷ [])
unfolding is_success read_page lookup devices_request
lists o =
    more (mac ∷ []) (phone ∷ []) (page "next" (obj (of_dict mac))) first_page "next" refl
      (record { success = refl; is_read = refl; holds = refl }) refl refl
      (last (page "" (obj (of_dict phone))) last_page refl
        (record { success = refl; is_read = refl; holds = refl }) refl)
      refl

two_pages : (o : Option String) → page_count (lists o) ≤ 2
unfolding lists
two_pages o = omega arith

abbrev report : RunReport
report = new_report "r" 0 false "identify_reconcile" false

iter_managed_devices-Keeps_example :
    Keeps 1 settings tenant report (corporate "company" (mac ∷ phone ∷ []))
iter_managed_devices-Keeps_example =
    iter_managed_devices-Keeps tenant settings 1 report (mac ∷ phone ∷ []) (lists none)
      (two_pages none)
      (λ f e. answered (mac ∷ phone ∷ []) (lists (some f)) (two_pages (some f)) refl)

-- One object that is the script and its run state.
abbrev memory_script : Value
memory_script = obj (
    of_dict (
      ("id", str "a1")
      ∷ ("customAttributeName", str "Mac RAM")
      ∷ ("runState", str "success")
      ∷ ("resultMessage", str "16384")
      ∷ ("managedDevice", obj (of_dict (("id", str "d1") ∷ [])))
      ∷ []))

abbrev scripted : Send
scripted q = ok (page "" memory_script)

reads_memory :
    get_custom_attribute_values 3 scripted "https://graph.microsoft.com/beta" "mac ram"
    ≡ some (ok (("d1", "16384") ∷ []))
unfolding get_custom_attribute_values lookup insert lower strip show is_success
reads_memory = refl

get_custom_attribute_values-IsRead_example :
    Yields
      (IsRead 3 scripted "https://graph.microsoft.com/beta" "mac ram")
      (get_custom_attribute_values 3 scripted "https://graph.microsoft.com/beta" "mac ram")
get_custom_attribute_values-IsRead_example =
    get_custom_attribute_values-IsRead 3 scripted "https://graph.microsoft.com/beta" "mac ram"

abbrev outputs : Dict String
outputs = ("d1", "16384") ∷ []

fills_mac : fill_memory outputs (mac ∷ phone ∷ []) ≡ (with_memory 16384 mac ∷ phone ∷ [], 1)
unfolding fill_memory lookup insert positive_int show parse_int
fills_mac = refl
