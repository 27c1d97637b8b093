-- ===== src/Witnesses/Stores.antt =====
-- Concrete runs of the state file and of the encoded queries.
use mac_service_now_cmdb.Base.{String, ◌≡◌, ◌≢◌, refl, none, some, List, [], ◌∷◌, ◌++◌}
use mac_service_now_cmdb.Dict.{lookup}
use mac_service_now_cmdb.Dict.Laws.{IsDict}
use mac_service_now_cmdb.Json.Value.{pos, null, str}
use mac_service_now_cmdb.Errors.{ok}
use mac_service_now_cmdb.State.{SyncState, load, save}
use mac_service_now_cmdb.State.Memory.{load-save}
use mac_service_now_cmdb.Query.{build_or_query}
use mac_service_now_cmdb.Query.Injection.{Reads, terms, extra, build_or_query-conditions}

abbrev remembered : SyncState
remembered = record {
  version = pos 1;
  last_run_at = null;
  devices = ("d1", ("sys_id", str "c1") ∷ []) ∷ ("d2", []) ∷ [];
}

remembered-IsDict : IsDict remembered.devices
unfolding lookup
remembered-IsDict = (refl, (refl, tt))

one-ne-zero : remembered.version ≢ pos 0
one-ne-zero e = absurd (cc)

load-save_example : load (some (save "now" remembered).1) ≡ ok (save "now" remembered).0
load-save_example = load-save "now" remembered one-ne-zero

abbrev names : List String
names = "a" ∷ "b" ∷ "c" ∷ []

build_or_query-conditions_example :
    Reads (build_or_query "name" names none) (terms "name" "a" ("b" ∷ "c" ∷ []) ++ extra none)
build_or_query-conditions_example =
    build_or_query-conditions "name" "a" ("b" ∷ "c" ∷ []) refl refl (refl, (refl, tt)) none

abbrev raw : List String
raw = " a " ∷ "x^y" ∷ "a" ∷ []
