-- ===== src/Sync/Collect.antt =====
-- sync.py: `_collect_devices`, over the devices that Graph yields one by one, with `is_corporate` of
-- graph.py. The generator is lazy: what stands behind the limit is never asked for.
pub mod Filtered
pub mod Limit
use Prim.Native.String
use mac_service_now_cmdb.Base.{
  ℕ, ◌+◌, String, Bool, true, false, Option, none, some, List, [], ◌∷◌, ◌++◌, ◌==◌, leb, length,
  length-append, take, keep, if◌then◌else◌, arith, inl, inr, Bool-cases,
}
use mac_service_now_cmdb.Text.{lower, join}
use mac_service_now_cmdb.Dict.{Dict}
use mac_service_now_cmdb.Json.Value.{Value, get_or_empty}
use mac_service_now_cmdb.Json.Show.{show, show_nat}
use mac_service_now_cmdb.Errors.{Error, Result, ok, err}
unfoldable pub use mac_service_now_cmdb.Graph.Devices.{is_corporate}
pub use mac_service_now_cmdb.Graph.Devices.{
  Device, Stream, finished, failed, yielded, all_of, corporate,
}
use mac_service_now_cmdb.Models.{RunReport, warn}

abbrev pub reached : Option ℕ → List Device → Bool
reached none kept = false
reached (some n) kept = leb n (length kept)

-- The loop, with the devices kept so far and the number fetched.
collect : String → Option ℕ → Stream → List Device → ℕ → Result (List Device × ℕ)
collect ownership limit finished kept fetched = ok (kept, fetched)
collect ownership limit (failed e) kept fetched = err e
collect ownership limit (yielded d s) kept fetched = elim (is_corporate d ownership) [
  | false ↦ collect ownership limit s kept (fetched + 1)
  | true ↦ elim (reached limit (kept ++ d ∷ [])) [
    | true ↦ ok (kept ++ d ∷ [], fetched + 1)
    | false ↦ collect ownership limit s (kept ++ d ∷ []) (fetched + 1)
  ]
]

abbrev limit_warning : ℕ → String
limit_warning n = join "" (
    "INTUNE_DEVICE_LIMIT="
    ∷ show_nat n
    ∷ " was in effect: this run processed at most "
    ∷ show_nat n
    ∷ " device(s) and is not a full inventory pass"
    ∷ [])

abbrev limit_note : Option ℕ → RunReport → RunReport
limit_note none r = r
limit_note (some n) r = warn (limit_warning n) r

noted : Option ℕ → RunReport → Result (List Device × ℕ) → Result (List Device × RunReport)
noted limit r (err e) = err e
noted limit r (ok (kept, fetched)) = ok (
  kept,
  limit_note limit (record r {
    devices_fetched = r.devices_fetched + fetched;
    devices_after_ownership_filter = length kept;
  }),
)

-- `_collect_devices`
unfoldable pub collect_devices :
    String → Option ℕ → Stream → RunReport → Result (List Device × RunReport)
unfolding collect noted
collect_devices ownership limit s r = noted limit r (collect ownership limit s [] 0)
