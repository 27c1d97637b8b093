-- ===== src/Sync/Owners/Counted.antt =====
-- Whom a run assigns, and how the report counts the owners.
use mathlib.Core.Path.{subst}
use mac_service_now_cmdb.Base.{
  suc, String, ◌≡◌, ◌≢◌, refl, sym, ap, Bool, true, false, List, [], ◌∷◌, map, length, keep, count,
  is_some, is_none, All, In, In-all, if-elim, Bool-cases, inl, inr, arith, if◌then◌else◌,
}
use mac_service_now_cmdb.Text.{truthy}
use mac_service_now_cmdb.Dict.{Dict, contains}
use mac_service_now_cmdb.Dict.Laws.{insert-All}
use mac_service_now_cmdb.Json.Value.{get, is_true}
use mac_service_now_cmdb.Json.Show.{show}
use mac_service_now_cmdb.Errors.{Result, ok}
use mac_service_now_cmdb.Errors.Gives.{Gives, Gives-bind, Gives-self}
use mac_service_now_cmdb.Models.{RunReport}
use mac_service_now_cmdb.Models.People.{EntraUser}
use mac_service_now_cmdb.Client.{Send}
use mac_service_now_cmdb.Graph.Devices.{Device}
use mac_service_now_cmdb.Users.Resolve.{resolve_many}
use mac_service_now_cmdb.Users.Resolve.Owners
use mac_service_now_cmdb.Users.Resolve.Owners.{resolve_many-Owners}
use mac_service_now_cmdb.Users.Resolve.Settled.{resolve_many-contains}
use mac_service_now_cmdb.Sync.Owners.{
  Settings, has_user, user_id, user_ids, users_on, Owners, owners_of, resolve_users,
}

count-keep : {A : Type 0} (p : A → Bool) (xs : List A) → count p xs ≡ length (keep p xs)
count-keep p [] = refl
count-keep p (x ∷ xs) = elim (Bool-cases (p x)) [
  | inl y ↦ rw (y, count, keep) (ap suc (count-keep p xs))
  | inr n ↦ rw (n, count, keep) (count-keep p xs)
]

-- A user with what one of the devices says of its owner.
pub record IsNamed (devices : List Device) (id : String) (u : EntraUser) : Type 0 where
  pub device : Device
  pub listed : In device devices
  pub owned : is_true (get "userId" device) ≡ true
  pub key : id ≡ show (get "userId" device)
  pub own : u.object_id ≡ id
  pub principal : u.user_principal_name ≡ get "userPrincipalName" device
  pub address : u.mail ≡ get "emailAddress" device
  pub name : u.display_name ≡ get "userDisplayName" device

module _ (all : List Device) where
  users_on-IsNamed :
      (devices : List Device) (users : Dict EntraUser)
      → ((d : Device) → In d devices → In d all)
      → All (λ e. IsNamed all e.0 e.1) users
      → All (λ e. IsNamed all e.0 e.1) (users_on devices users)
  unfolding users_on
  users_on-IsNamed [] users i h = h
  users_on-IsNamed (d ∷ devices) users i h =
      users_on-IsNamed devices _ (λ x m. i x (inr m))
        (if-elim (All (λ e. IsNamed all e.0 e.1)) (has_user d) _ users
          (λ y.
            insert-All (IsNamed all) (user_id d) _ users
              (record {
                device = d;
                listed = i d (inl refl);
                owned = y;
                key = refl;
                own = refl;
                principal = refl;
                address = refl;
                name = refl;
              })
              h)
          (λ n. h))

abbrev Source : Bool → Result (Dict EntraUser) → List Device → Dict EntraUser → Type 0
Source true got devices users = got ≡ ok users
Source false got devices users = All (λ e. IsNamed devices e.0 e.1) users

source :
    (b : Bool) (got : Result (Dict EntraUser)) (devices : List Device)
    → Gives (Source b got devices) (if b then got else ok (users_on devices []))
source true got devices = Gives-self got
source false got devices = users_on-IsNamed devices devices [] (λ d m. m) tt

-- The users are those of the devices, and each has one answer, with a record or without.
pub record IsResolved (cfg : Settings) (get_users : List String → Result (Dict EntraUser))
    (send : Send) (devices : List Device) (o : Owners) : Type 0 where
  pub users : Source cfg.enrich_users (get_users (user_ids devices)) devices o.entra_users
  pub matched : Owners.Owners cfg.matching send (map (λ e. e.1) o.entra_users) o.sys_users
  pub covered :
      All
        (λ u. truthy u.object_id ≡ true → contains u.object_id o.sys_users ≡ true)
        (map (λ e. e.1) o.entra_users)
  pub resolved : o.report.users_resolved ≡ length (keep (λ e. is_some e.1) o.sys_users)
  pub unresolved : o.report.users_unresolved ≡ length (keep (λ e. is_none e.1) o.sys_users)

module _ (cfg : Settings) (get_users : List String → Result (Dict EntraUser)) (send : Send)
    (r : RunReport) where
  owners_of-IsResolved :
      (devices : List Device) (ids : List String)
      → user_ids devices ≡ ids
      → ids ≢ []
      → Gives
          (IsResolved cfg get_users send devices)
          (owners_of cfg get_users send [] r devices ids)
  unfolding owners_of
  owners_of-IsResolved devices [] e n = absurd (n refl)
  owners_of-IsResolved devices (id ∷ ids) e n =
      let us = if cfg.enrich_users then get_users (id ∷ ids) else ok (users_on devices []) in
      Gives-bind (Source cfg.enrich_users (get_users (id ∷ ids)) devices)
        (IsResolved cfg get_users send devices) us _
        (source cfg.enrich_users (get_users (id ∷ ids)) devices)
        (λ users u.
          let asked = map (λ e. e.1) users in
          let m = resolve_many cfg.matching send asked [] in
          Gives-bind (λ o. m ≡ ok o) (IsResolved cfg get_users send devices) m _ (Gives-self m)
            (λ o a. record {
              users = subst (λ l. Source cfg.enrich_users (get_users l) devices users) (sym e) u;
              matched = (resolve_many-Owners cfg.matching send asked o.0 o.1 a).0;
              covered =
                  In-all _ asked
                    (λ x i t. (resolve_many-contains cfg.matching send asked [] o.0 o.1 a x i t).0);
              resolved = count-keep _ o.0;
              unresolved = count-keep _ o.0;
            }))

  -- When owners are assigned and a device names one, what `resolve_users` returns has as users those
  -- that Graph gives for the named ids or, without enrichment, users that each have the id and the
  -- three fields of a device that names them. Every user with an id has an answer. Whoever is assigned
  -- a record was matched by a key of the order: a value of a user asked for is in exactly one of the
  -- records found for that key. The report counts as resolved the answers with a record and as
  -- unresolved those without.
  pub resolve_users-IsResolved :
      (devices : List Device)
      → cfg.assign_user ≡ true
      → user_ids devices ≢ []
      → Gives
          (IsResolved cfg get_users send devices)
          (resolve_users cfg get_users send [] r devices)
  unfolding resolve_users
  resolve_users-IsResolved devices a n =
      if-elim (Gives (IsResolved cfg get_users send devices)) cfg.assign_user _ _
        (λ y. owners_of-IsResolved devices (user_ids devices) refl n)
        (λ f. absurd (ground (arith, a, f)))
