-- ===== src/Sync/Collect/Filtered.antt =====
-- What a run keeps does not depend on what Graph makes of the ownership filter.
use mathlib.Core.Path.{subst}
use mac_service_now_cmdb.Base.{ℕ, suc, ◌≤◌, String, ◌≡◌, none, some, List}
use mac_service_now_cmdb.Models.{RunReport}
use mac_service_now_cmdb.Client.{Send}
use mac_service_now_cmdb.Graph.Pages.{
  Settings, ownership_filter, devices_request, iter_managed_devices,
}
use mac_service_now_cmdb.Graph.Pages.Listed.{
  Lists, page_count, Filters, Yields, iter_managed_devices-Yields,
}
use mac_service_now_cmdb.Sync.Collect.{Device, Stream, finished, all_of, corporate, collect_devices}
use mac_service_now_cmdb.Sync.Collect.Limit.{Kept, collect_devices-all}

-- The generator yields a stream from which the run keeps the devices.
abbrev pub Keeps : ℕ → Settings → Send → RunReport → List Device → Type 0
Keeps pages cfg send r kept =
    (s : Stream) × (iter_managed_devices pages cfg send ≡ some s)
    × Kept (collect_devices cfg.ownership none s r) kept

yielded-Keeps :
    (pages : ℕ) (cfg : Settings) (send : Send) (r : RunReport) (all : List Device)
    → Yields cfg.ownership all (iter_managed_devices pages cfg send)
    → Keeps pages cfg send r (corporate cfg.ownership all)
yielded-Keeps pages cfg send r all (ds, e, c) = (
  all_of ds finished,
  e,
  subst (Kept (collect_devices cfg.ownership none (all_of ds finished) r)) c
      (collect_devices-all cfg.ownership ds r),
)

-- When Graph lists all devices in pages, as many at most as are followed, and answers the ownership
-- filter, if one is sent, by a listing with the same corporate devices or by a 400, a run without a
-- limit keeps exactly the corporate devices of the unfiltered listing, in order.
pub iter_managed_devices-Keeps :
    (send : Send) (cfg : Settings) (pages : ℕ) (r : RunReport) (all : List Device)
    (s : Lists send (devices_request cfg none) all)
    → page_count s ≤ suc pages
    → ((f : String) → ownership_filter cfg ≡ some f → Filters send cfg pages all f)
    → Keeps pages cfg send r (corporate cfg.ownership all)
iter_managed_devices-Keeps send cfg pages r all s b h =
    yielded-Keeps pages cfg send r all (iter_managed_devices-Yields send cfg pages all s b h)
