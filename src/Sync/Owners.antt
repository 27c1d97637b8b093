-- ===== src/Sync/Owners.antt =====
-- sync.py: `_resolve_users`, the owners of the devices.
pub mod Counted
use mac_service_now_cmdb.Base.{
  ℕ, String, Bool, true, false, Option, none, some, List, [], ◌∷◌, map, keep, count, is_some,
  is_none, if◌then◌else◌,
}
use mac_service_now_cmdb.Dict.{Dict, insert}
use mac_service_now_cmdb.Json.Value.{Value, get, is_true}
use mac_service_now_cmdb.Json.Show.{show}
use mac_service_now_cmdb.Errors.{Result, ok, ◌>>=◌}
use mac_service_now_cmdb.Models.{RunReport}
use mac_service_now_cmdb.Models.People.{EntraUser, SysUserRef, from_device}
use mac_service_now_cmdb.Client.{Send}
use mac_service_now_cmdb.Graph.Devices.{Device}
use mac_service_now_cmdb.Users.Match
use mac_service_now_cmdb.Users.Resolve.{Cache, resolve_many}

pub record Settings : Type 0 where
  pub assign_user : Bool
  pub enrich_users : Bool
  pub matching : Match.Settings

abbrev pub has_user : Device → Bool
has_user device = is_true (get "userId" device)

abbrev pub user_id : Device → String
user_id device = show (get "userId" device)

-- `[str(d.get("userId")) for d in devices if d.get("userId")]`
abbrev pub user_ids : List Device → List String
user_ids devices = map user_id (keep has_user devices)

-- The identity fields of the devices: the last device of a user counts.
unfoldable pub users_on : List Device → Dict EntraUser → Dict EntraUser
users_on [] users = users
users_on (d ∷ devices) users = users_on devices (
    if has_user d
    then insert (user_id d)
        (from_device (user_id d) (get "userPrincipalName" d) (get "emailAddress" d)
          (get "userDisplayName" d))
        users
    else users)

-- The records, the users, the cache of the resolver and the report
pub record Owners : Type 0 where
  pub sys_users : Cache
  pub entra_users : Dict EntraUser
  pub cache : Cache
  pub report : RunReport

abbrev nobody : Cache → RunReport → Owners
nobody cache r = record { sys_users = []; entra_users = []; cache = cache; report = r }

abbrev pub reported : Dict EntraUser → Cache × Cache → RunReport → Owners
reported users (answered, known) r = record {
  sys_users = answered;
  entra_users = users;
  cache = known;
  report = record r {
    users_resolved = count (λ e. is_some e.1) answered;
    users_unresolved = count (λ e. is_none e.1) answered;
  };
}

module _ (cfg : Settings) (get_users : List String → Result (Dict EntraUser)) (send : Send)
    (cache : Cache) (r : RunReport) where
  -- `_resolve_users` for the ids of the owners that the devices name
  pub owners_of : List Device → List String → Result Owners
  unfolding users_on resolve_many
  owners_of devices [] = ok (nobody cache r)
  owners_of devices (id ∷ ids) =
      (if cfg.enrich_users then get_users (id ∷ ids) else ok (users_on devices [])) >>= λ users.
      resolve_many cfg.matching send (map (λ e. e.1) users) cache >>= λ o. ok (reported users o r)

  -- `_resolve_users`
  unfoldable pub resolve_users : List Device → Result Owners
  unfolding owners_of
  resolve_users devices =
      if cfg.assign_user then owners_of devices (user_ids devices) else ok (nobody cache r)
