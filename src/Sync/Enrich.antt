-- ===== src/Sync/Enrich.antt =====
-- sync.py: the stages that complete the devices before they are mapped. `_enrich_hardware` takes what
-- Graph gives per device only, and the others take RAM and CPU name from macOS custom attributes.
pub mod Memory
use Prim.Native.Char.{Char, code}
use Prim.Native.String
use mac_service_now_cmdb.Base.{
  ℕ, suc, ◌+◌, ◌*◌, String, Bool, true, false, Option, none, some, List, [], ◌∷◌, ◌++◌, map, not,
  ◌==◌, ◌&&◌, ◌||◌, leb, eqb, if◌then◌else◌,
}
use mac_service_now_cmdb.Text.{truthy, strip, join}
use mac_service_now_cmdb.Dict.{Dict, lookup, insert}
use mac_service_now_cmdb.Json.Value.{ℤ, pos, Value, null, int, str, get, get_or_empty, is_true}
use mac_service_now_cmdb.Json.Number.{parse_int}
use mac_service_now_cmdb.Json.Show.{show, repr}
use mac_service_now_cmdb.Errors.{
  Error, graph, graph_bad_request, retryable, value_error, other, Result, ok, err, ◌>>=◌, text_of,
}
use mac_service_now_cmdb.Http.Response.{prefix}
use mac_service_now_cmdb.Models.{RunReport, warn}
use mac_service_now_cmdb.Graph.Batch.{Bodies}
use mac_service_now_cmdb.Graph.Devices.{Device}
use mac_service_now_cmdb.Mapping.Sizes.{if_positive}

-- `str(device.get("id") or "")`
abbrev pub id_text : Device → String
id_text device = show (get_or_empty "id" device)

-- `key != "id" and value not in (None, "")`
abbrev pub is_detail : String → Value → Bool
is_detail key null = false
is_detail key (str s) = not (key == "id") && truthy s
is_detail key v = not (key == "id")

unfoldable pub put_details : Dict Value → Device → Device
put_details [] device = device
put_details ((key, value) ∷ detail) device =
    put_details detail (if is_detail key value then insert key value device else device)

abbrev detail_of : Bodies → Device → Dict Value
detail_of details device = elim (lookup (id_text device) details) [ none ↦ [] | some d ↦ d ]

-- `_enrich_hardware`, with the details that were read of Graph
unfoldable pub enrich_hardware : Bodies → List Device → List Device
unfolding put_details show
enrich_hardware details devices = map (λ d. put_details (detail_of details d) d) devices

-- `except (GraphError, RetryableHTTPError, ValueError)`
unfoldable pub is_tolerated : Error → Bool
is_tolerated (graph _) = true
is_tolerated (graph_bad_request _) = true
is_tolerated (retryable _ _ _) = true
is_tolerated (value_error _) = true
is_tolerated _ = false

-- `_read_custom_attribute`: the outputs, or `none` and a warning
unfoldable pub read_custom_attribute :
    String → String → Result (Dict String) → RunReport → Result (Option (Dict String) × RunReport)
unfolding is_tolerated
read_custom_attribute attribute purpose (ok outputs) r = ok (some outputs, r)
read_custom_attribute attribute purpose (err e) r =
    if is_tolerated e
    then ok (
      none,
      warn
          (join "" (
            purpose
            ∷ " custom attribute "
            ∷ repr attribute
            ∷ " could not be read: "
            ∷ text_of e
            ∷ []))
          r,
    )
    else err e

-- `_positive_int`
unfoldable pub positive_int : Value → Option ℕ
unfolding parse_int show
positive_int raw = if_positive (parse_int (show raw))

abbrev pub memory_key : String
memory_key = "physicalMemoryInBytes"

abbrev pub with_memory : ℕ → Device → Device
with_memory megabytes = insert memory_key (int (pos (megabytes * 1048576)))

-- The memory that the attribute gives, where Graph has none.
unfoldable pub memory_from : Option ℕ → Option String → Option ℕ
memory_from (some n) output = none
memory_from none none = none
memory_from none (some output) = positive_int (str output)

unfoldable pub memory_for : Dict String → Device → Option ℕ
unfolding memory_from
memory_for outputs device =
    memory_from (positive_int (get memory_key device)) (lookup (id_text device) outputs)

abbrev pub filled_memory : Option ℕ → Device → Device
filled_memory none device = device
filled_memory (some megabytes) device = with_memory megabytes device

abbrev pub one_if {ℓ} : {A : Type ℓ} → Option A → ℕ
one_if none = 0
one_if (some a) = 1

-- The devices, and how many were filled
unfoldable pub fill_memory : Dict String → List Device → List Device × ℕ
unfolding memory_for
fill_memory outputs [] = ([], 0)
fill_memory outputs (device ∷ devices) =
    let rest = fill_memory outputs devices in
    let m = memory_for outputs device in (filled_memory m device ∷ rest.0, one_if m + rest.1)

counted_memory : Option (Dict String) → List Device → RunReport → List Device × RunReport
unfolding fill_memory
counted_memory none devices r = (devices, r)
counted_memory (some outputs) devices r =
    let filled = fill_memory outputs devices in
    (filled.0, record r { ram_from_custom_attribute = filled.1 })

-- `_fill_ram_from_attribute`, with what the read of the attribute gave
unfoldable pub fill_ram_from_attribute :
    String → Result (Dict String) → List Device → RunReport → Result (List Device × RunReport)
unfolding read_custom_attribute counted_memory
fill_ram_from_attribute attribute outputs devices r =
    read_custom_attribute attribute "RAM" outputs r >>= λ o. ok (counted_memory o.0 devices o.1)

-- The characters at which `splitlines` splits.
abbrev pub is_line_end : Char → Bool
is_line_end c =
    let n = code c in
    (leb 10 n && leb n 13) || (leb 28 n && leb n 30) || eqb n 133 || eqb n 8232 || eqb n 8233

abbrev pub before_line_end : String → String
before_line_end String.[] = ""
before_line_end (String.◌∷◌ c s) = if is_line_end c then "" else String.◌∷◌ c (before_line_end s)

-- `s.splitlines()[0]`
abbrev pub first_line : String → Result String
first_line String.[] = err (other "IndexError")
first_line (String.◌∷◌ c s) = ok (before_line_end (String.◌∷◌ c s))

-- The name that an output gives: the first line, without the spaces around it.
unfoldable pub cpu_name_of : Option String → Result String
unfolding strip
cpu_name_of none = ok ""
cpu_name_of (some output) =
    if truthy output then (first_line (strip output) >>= (λ line. ok (strip line))) else ok ""

abbrev pub cpu_name_key : String
cpu_name_key = "_cpuNameFromCustomAttribute"

abbrev pub named_cpu : String → List Device × ℕ → Device → List Device × ℕ
named_cpu name rest device =
    if truthy name
    then (insert cpu_name_key (str (prefix 100 name)) device ∷ rest.0, rest.1 + 1)
    else (device ∷ rest.0, rest.1)

unfoldable pub fill_cpu_names : Dict String → List Device → Result (List Device × ℕ)
unfolding cpu_name_of
fill_cpu_names outputs [] = ok ([], 0)
fill_cpu_names outputs (device ∷ devices) =
    cpu_name_of (lookup (id_text device) outputs) >>= λ name.
    fill_cpu_names outputs devices >>= λ rest. ok (named_cpu name rest device)

counted_names : Option (Dict String) → List Device → RunReport → Result (List Device × RunReport)
unfolding fill_cpu_names
counted_names none devices r = ok (devices, r)
counted_names (some outputs) devices r = fill_cpu_names outputs devices >>= λ filled.
    ok (filled.0, record r { cpu_name_from_custom_attribute = filled.1 })

-- `_fill_cpu_name_from_attribute`
unfoldable pub fill_cpu_name_from_attribute :
    String → Result (Dict String) → List Device → RunReport → Result (List Device × RunReport)
unfolding read_custom_attribute counted_names
fill_cpu_name_from_attribute attribute outputs devices r =
    read_custom_attribute attribute "CPU name" outputs r >>= λ o. counted_names o.0 devices o.1
