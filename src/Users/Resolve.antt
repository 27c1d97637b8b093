-- ===== src/Users/Resolve.antt =====
-- `resolve_many`: the keys in their order, each for the users that no earlier key has matched.
pub mod Owners
pub mod Settled
use mac_service_now_cmdb.Base.{
  String, Bool, true, false, Option, none, some, List, [], ◌∷◌, ◌&&◌, not, map, keep, if◌then◌else◌,
}
use mac_service_now_cmdb.Text.{truthy}
use mac_service_now_cmdb.Dict.{Dict, lookup, contains, insert, erase}
use mac_service_now_cmdb.Errors.{Result, ok, ◌>>=◌}
use mac_service_now_cmdb.Models.People.{EntraUser, SysUserRef}
use mac_service_now_cmdb.Client.{Send}
use mac_service_now_cmdb.Users.Match.{Settings, resolve_by_key}

-- `_cache`: a user for whom no record was found is there too.
abbrev pub Cache : Type 0
Cache = Dict (Option SysUserRef)

-- The users that are left, and what is known of the others.
pub record Search : Type 0 where
  pub cache : Cache
  pub unresolved : Dict EntraUser

abbrev pub is_pending : Cache → EntraUser → Bool
is_pending cache u = truthy u.object_id && not (contains u.object_id cache)

-- `{u.object_id: u for u in pending}`
unfoldable pub by_id : List EntraUser → Dict EntraUser → Dict EntraUser
by_id [] d = d
by_id (u ∷ us) d = by_id us (insert u.object_id u d)

-- What one key matched
unfoldable pub settle : Dict SysUserRef → Search → Search
settle [] s = s
settle ((id, ref) ∷ matched) s =
    settle matched
      (record { cache = insert id (some ref) s.cache; unresolved = erase id s.unresolved })

-- `if not unresolved: break`
unfoldable pub unless_settled : Dict EntraUser → Search → Result Search → Result Search
unless_settled [] s rest = ok s
unless_settled (e ∷ es) s rest = rest

-- The loop over the keys
unfoldable pub search_keys : Settings → Send → List String → Search → Result Search
unfolding settle unless_settled
search_keys cfg send [] s = ok s
search_keys cfg send (key ∷ keys) s = unless_settled s.unresolved s (
    resolve_by_key cfg send key (map (λ x. x.1) s.unresolved) >>= λ matched.
    search_keys cfg send keys (settle matched s))

-- Who is left has no record.
unfoldable pub give_up : Dict EntraUser → Cache → Cache
give_up [] cache = cache
give_up ((id, u) ∷ rest) cache = give_up rest (insert id none cache)

abbrev pub flat {ℓ} : {A : Type ℓ} → Option (Option A) → Option A
flat none = none
flat (some o) = o

-- `{u.object_id: self._cache.get(u.object_id) for u in users if u.object_id}`
unfoldable pub answers : Cache → List EntraUser → Cache → Cache
answers cache [] d = d
answers cache (u ∷ us) d =
    answers cache us
      (if truthy u.object_id then insert u.object_id (flat (lookup u.object_id cache)) d else d)

-- `resolve_many`: the answers, and the cache from then on
unfoldable pub resolve_many : Settings → Send → List EntraUser → Cache → Result (Cache × Cache)
unfolding by_id search_keys give_up answers
resolve_many cfg send users cache =
    search_keys cfg send cfg.user_match_order
      (record { cache = cache; unresolved = by_id (keep (is_pending cache) users) [] })
    >>= λ s. let known = give_up s.unresolved s.cache in ok (answers known users [], known)
