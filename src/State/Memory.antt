-- ===== src/State/Memory.antt =====
-- What the state remembers after each operation, and that a saved state is loaded again.
use mac_service_now_cmdb.Base.{
  zero, suc, String, ◌≡◌, ◌≢◌, refl, ap, ◌∙◌, true, false, Option, none, some, List, [], ◌∷◌, ◌&&◌,
  not, if◌then◌else◌, arith, eq_iff, inl, inr, Bool-cases,
}
use mac_service_now_cmdb.Text.{truthy}
use mac_service_now_cmdb.Dict.{Dict, lookup, erase, mem}
use mac_service_now_cmdb.Dict.Laws.{
  lookup-insert, lookup-insert_self, lookup-insert_ne, lookup-erase, IsDict, insert-IsDict,
  erase-IsDict,
}
use mac_service_now_cmdb.Json.Value.{ℤ, pos, negsuc, int, to_dict-of_dict, get, is_true, or_else}
use mac_service_now_cmdb.Json.Number.{int_of}
use mac_service_now_cmdb.Errors.{ok}
use mac_service_now_cmdb.State.{
  SyncState, Entry, observed, observe, entry_of, missing_from, missing_since_last_run, erase_all,
  forget, load, save, entries, saved_entries,
}

entries-saved_entries : (d : Dict Entry) → entries (saved_entries d) ≡ d
unfolding entries saved_entries
entries-saved_entries [] = refl
entries-saved_entries ((id, e) ∷ d) =
    rw (to_dict-of_dict e) (ap (λ r. (id, e) ∷ r) (entries-saved_entries d))

version-kept : (n : ℤ) → n ≢ pos 0 → int_of (or_else (int n) (int (pos 1))) ≡ some n
unfolding int_of
version-kept (pos zero) h = absurd (h refl)
version-kept (pos (suc n)) h = refl
version-kept (negsuc n) h = refl

-- A state whose version is not 0 is loaded from a store as it was saved there, with the time of the
-- run that saved it.
pub load-save :
    (now : String) (s : SyncState)
    → s.version ≢ pos 0
    → load (some (save now s).1) ≡ ok (save now s).0
unfolding load save lookup
load-save now s h = simp (version-kept s.version h, to_dict-of_dict, entries-saved_entries)

-- What `missing_since_last_run` gives for an entry.
abbrev pub absent : List String → String → Option Entry → Option Entry
absent current id none = none
absent current id (some e) =
    if not (mem id current) && is_true (get "sys_id" e) then some e else none

missing_from-lookup :
    (current : List String) (id : String) (d : Dict Entry)
    → IsDict d
    → lookup id (missing_from current d) ≡ absent current id (lookup id d)
unfolding missing_from lookup
missing_from-lookup current id [] h = refl
missing_from-lookup current id ((j, e) ∷ d) h =
    ground (arith, missing_from-lookup current id d h.1, eq_iff j id)

missing_from-in :
    (current : List String) (j : String) (e : Entry) (d : Dict Entry)
    → (not (mem j current) && is_true (get "sys_id" e)) ≡ true
    → missing_from current ((j, e) ∷ d) ≡ (j, e) ∷ missing_from current d
unfolding missing_from
missing_from-in current j e d y = rw (y, missing_from) refl

missing_from-out :
    (current : List String) (j : String) (e : Entry) (d : Dict Entry)
    → (not (mem j current) && is_true (get "sys_id" e)) ≡ false
    → missing_from current ((j, e) ∷ d) ≡ missing_from current d
unfolding missing_from
missing_from-out current j e d n = rw (n, missing_from) refl

missing_from-IsDict :
    (current : List String) (d : Dict Entry) → IsDict d → IsDict (missing_from current d)
unfolding missing_from
missing_from-IsDict current [] h = tt
missing_from-IsDict current ((j, e) ∷ d) h =
    elim (Bool-cases (not (mem j current) && is_true (get "sys_id" e))) [
      | inl y ↦ rw (missing_from-in current j e d y) (
        missing_from-lookup current j d h.1 ∙ ap (absent current j) h.0,
        missing_from-IsDict current d h.1,
      )
      | inr n ↦ rw (missing_from-out current j e d n) (missing_from-IsDict current d h.1)
    ]

pub missing_since_last_run-IsDict :
    (current : List String) (s : SyncState)
    → IsDict s.devices
    → IsDict (missing_since_last_run current s)
unfolding missing_since_last_run
missing_since_last_run-IsDict current s h = missing_from-IsDict current s.devices h

-- In a state without repeated ids, a device is missing exactly if it is remembered with a true
-- `sys_id` and is not among the current ids, and the entry is the remembered one.
pub missing_since_last_run_lem :
    (current : List String) (id : String) (s : SyncState)
    → IsDict s.devices
    → lookup id (missing_since_last_run current s) ≡ absent current id (lookup id s.devices)
unfolding missing_since_last_run
missing_since_last_run_lem current id s h = missing_from-lookup current id s.devices h

lookup-erase_all :
    (ids : List String) (id : String) (d : Dict Entry)
    → lookup id (erase_all ids d) ≡ (if mem id ids then none else lookup id d)
unfolding erase_all mem
lookup-erase_all [] id d = refl
lookup-erase_all (i ∷ ids) id d =
    ground (arith, lookup-erase_all ids id (erase i d), lookup-erase i id d)

-- `forget` drops the given ids and no other.
pub lookup-forget :
    (ids : List String) (id : String) (s : SyncState)
    → lookup id (forget ids s).devices ≡ (if mem id ids then none else lookup id s.devices)
unfolding forget
lookup-forget ids id s = lookup-erase_all ids id s.devices

erase_all-IsDict : (ids : List String) (d : Dict Entry) → IsDict d → IsDict (erase_all ids d)
unfolding erase_all
erase_all-IsDict [] d h = h
erase_all-IsDict (i ∷ ids) d h = erase_all-IsDict ids (erase i d) (erase-IsDict i d h)

pub forget-IsDict :
    (ids : List String) (s : SyncState) → IsDict s.devices → IsDict (forget ids s).devices
unfolding forget
forget-IsDict ids s h = erase_all-IsDict ids s.devices h

module _ (now id : String) (sys_id : Option String) (name : String) (class_name : Option String)
    (s : SyncState) where
  pub observe-IsDict : IsDict s.devices → IsDict (observe now id sys_id name class_name s).devices
  unfolding observe
  observe-IsDict h = insert-IsDict id _ s.devices h

  -- `observe` of one device leaves the entries of the others.
  pub observe_ne :
      (j : String)
      → id ≢ j
      → lookup j (observe now id sys_id name class_name s).devices ≡ lookup j s.devices
  unfolding observe
  observe_ne j h = lookup-insert_ne id j _ s.devices h

  entry_of-observe :
      entry_of id (observe now id sys_id name class_name s)
      ≡ observed now sys_id name class_name (entry_of id s)
  unfolding observe
  entry_of-observe =
      rw (lookup-insert_self id (observed now sys_id name class_name (entry_of id s)) s.devices)
        refl

sys_id-observed :
    (now name : String) (class_name : Option String) (e : Entry)
    → get "sys_id" (observed now none name class_name e) ≡ get "sys_id" e
unfolding observed
sys_id-observed now name none e = simp lookup-insert
sys_id-observed now name (some c) e = elim (Bool-cases (truthy c)) [
  | inl y ↦ rw y (simp lookup-insert)
  | inr n ↦ rw n (simp lookup-insert)
]

-- Seen without a `sys_id`, a device keeps the one that was remembered.
pub sys_id-observe :
    (now id name : String) (class_name : Option String) (s : SyncState)
    → get "sys_id" (entry_of id (observe now id none name class_name s))
      ≡ get "sys_id" (entry_of id s)
sys_id-observe now id name class_name s =
    rw (entry_of-observe now id none name class_name s)
      (sys_id-observed now name class_name (entry_of id s))
