-- ===== src/Sync/Enrich/Memory.antt =====
-- The attribute fills the memory of exactly the devices for which Graph has none.
use mac_service_now_cmdb.Base.{ℕ, ◌<◌, String, ◌≡◌, ◌≢◌, none, some, List, [], ◌∷◌}
use mac_service_now_cmdb.Dict.{Dict, lookup}
use mac_service_now_cmdb.Json.Value.{str, get}
use mac_service_now_cmdb.Graph.Devices.{Device}
use mac_service_now_cmdb.Mapping.Sizes.{bytes_to_mb}
use mac_service_now_cmdb.Sync.Enrich.{id_text, positive_int, memory_key}

-- The number of megabytes that the output is, if it is one, is below 2 ^ 33.
abbrev pub IsExact : String → Type 0
IsExact output = (m : ℕ) → positive_int (str output) ≡ some m → m < 8589934592

-- Graph has no memory for the device, and the output for it is a number of megabytes.
pub record Gains (outputs : Dict String) (d : Device) (megabytes : ℕ) : Type 0 where
  pub unknown : positive_int (get memory_key d) ≡ none
  pub output : String
  pub has_output : lookup (id_text d) outputs ≡ some output
  pub is_number : positive_int (str output) ≡ some megabytes

-- What becomes of a device: its RAM, as the mapping reads it, is what the attribute says if Graph has
-- none, and otherwise nothing changes. All other properties stay.
pub record Filled (outputs : Dict String) (d d' : Device) : Type 0 where
  pub gains : (m : ℕ) → Gains outputs d m → bytes_to_mb (get memory_key d') ≡ some m
  pub keeps : ((m : ℕ) → ¬ Gains outputs d m) → d' ≡ d
  pub others : (k : String) → memory_key ≢ k → lookup k d' ≡ lookup k d

abbrev pub AllFilled : Dict String → List Device → List Device → Type 0
AllFilled outputs [] [] = Unit
AllFilled outputs (d ∷ ds) (e ∷ es) = Filled outputs d e × AllFilled outputs ds es
AllFilled outputs _ _ = ⊥
