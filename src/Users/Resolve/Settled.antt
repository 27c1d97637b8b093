-- ===== src/Users/Resolve/Settled.antt =====
-- Every user that `resolve_many` is asked for has an answer, and is not looked up again.
use mathlib.Core.Path.{subst}
use mac_service_now_cmdb.Base.{
  String, ◌≡◌, refl, sym, ap, ◌∙◌, true, none, some, inl, inr, List, [], ◌∷◌, map, keep, All, In,
  In-all, if-elim, ◌||◌, arith,
}
use mac_service_now_cmdb.Text.{truthy}
use mac_service_now_cmdb.Dict.{Dict, lookup, contains, insert, erase}
use mac_service_now_cmdb.Dict.Laws.{lookup-insert, lookup-insert_self, lookup-erase}
use mac_service_now_cmdb.Errors.{Result, ok}
use mac_service_now_cmdb.Errors.Gives.{Gives, Gives-bind, Gives-self, Gives-any, returned}
use mac_service_now_cmdb.Models.People.{EntraUser, SysUserRef}
use mac_service_now_cmdb.Client.{Send}
use mac_service_now_cmdb.Users.Match.{Settings, resolve_by_key}
use mac_service_now_cmdb.Users.Resolve.{
  Cache, Search, is_pending, by_id, settle, unless_settled, search_keys, give_up, flat, answers,
  resolve_many,
}

-- The user is known or still looked for.
abbrev Tracked : Search → String → Type 0
Tracked s id = (contains id s.cache || contains id s.unresolved) ≡ true

settle-Tracked :
    (id : String) (matched : Dict SysUserRef) (s : Search)
    → Tracked s id
    → Tracked (settle matched s) id
unfolding settle
settle-Tracked id [] s h = h
settle-Tracked id ((k, ref) ∷ matched) s h =
    settle-Tracked id matched
      (record { cache = insert k (some ref) s.cache; unresolved = erase k s.unresolved })
      (ground (arith, h, lookup-insert k id (some ref) s.cache, lookup-erase k id s.unresolved))

unless_settled-Gives :
    (P : Search → Type 0) (left : Dict EntraUser) (s : Search) (rest : Result Search)
    → P s
    → Gives P rest
    → Gives P (unless_settled left s rest)
unfolding unless_settled
unless_settled-Gives P [] s rest h r = h
unless_settled-Gives P (e ∷ es) s rest h r = r

search_keys-Tracked :
    (cfg : Settings) (send : Send) (id : String) (keys : List String) (s : Search)
    → Tracked s id
    → Gives (λ t. Tracked t id) (search_keys cfg send keys s)
unfolding search_keys
search_keys-Tracked cfg send id [] s h = h
search_keys-Tracked cfg send id (key ∷ keys) s h =
    let r = resolve_by_key cfg send key (map (λ e. e.1) s.unresolved) in
    unless_settled-Gives (λ t. Tracked t id) s.unresolved s _ h
      (Gives-bind (λ m. r ≡ ok m) (λ t. Tracked t id) r _ (Gives-self r)
        (λ m e. search_keys-Tracked cfg send id keys (settle m s) (settle-Tracked id m s h)))

give_up-contains :
    (id : String) (left : Dict EntraUser) (cache : Cache)
    → (contains id cache || contains id left) ≡ true
    → contains id (give_up left cache) ≡ true
unfolding give_up lookup
give_up-contains id [] cache h = ground (arith, h)
give_up-contains id ((k, u) ∷ left) cache h =
    give_up-contains id left (insert k none cache)
      (ground (arith, h, lookup-insert k id none cache))

by_id-contains :
    (id : String) (us : List EntraUser) (d : Dict EntraUser)
    → contains id d ≡ true
    → contains id (by_id us d) ≡ true
unfolding by_id
by_id-contains id [] d h = h
by_id-contains id (u ∷ us) d h =
    by_id-contains id us (insert u.object_id u d)
      (ground (arith, h, lookup-insert u.object_id id u d))

-- Whoever is asked for is known already, or looked for.
pending-Tracked :
    (cache : Cache) (u : EntraUser) (us : List EntraUser) (d : Dict EntraUser)
    → truthy u.object_id ≡ true
    → In u us
    → (contains u.object_id cache || contains u.object_id (by_id (keep (is_pending cache) us) d))
      ≡ true
unfolding by_id
pending-Tracked cache u [] d t m = elim m [ ]
pending-Tracked cache u (v ∷ us) d t (inl e) =
    subst
      (λ w.
        (contains w.object_id cache
          || contains w.object_id (by_id (keep (is_pending cache) (v ∷ us)) d))
        ≡ true)
      e
      (ground (
        arith,
        ap (λ w. truthy w.object_id) e,
        t,
        by_id-contains v.object_id (keep (is_pending cache) us) (insert v.object_id v d),
        lookup-insert_self v.object_id v d,
      ))
pending-Tracked cache u (v ∷ us) d t (inr m) = ground (
  arith,
  pending-Tracked cache u us d t m,
  pending-Tracked cache u us (insert v.object_id v d) t m,
)

answers-contains :
    (cache : Cache) (us : List EntraUser) (d : Cache) (id : String)
    → contains id d ≡ true
    → contains id (answers cache us d) ≡ true
unfolding answers
answers-contains cache [] d id h = h
answers-contains cache (u ∷ us) d id h = answers-contains cache us _ id (
    if-elim (λ x. contains id x ≡ true) (truthy u.object_id) _ d
      (λ y. ground (arith, h, lookup-insert u.object_id id (flat (lookup u.object_id cache)) d))
      (λ n. h))

answers-In :
    (cache : Cache) (u : EntraUser) (us : List EntraUser) (d : Cache)
    → truthy u.object_id ≡ true
    → In u us
    → contains u.object_id (answers cache us d) ≡ true
unfolding answers
answers-In cache u [] d t m = elim m [ ]
answers-In cache u (v ∷ us) d t (inl e) =
    subst (λ w. contains w.object_id (answers cache (v ∷ us) d) ≡ true) e
      (answers-contains cache us _ v.object_id (
        ground (
          arith,
          ap (λ w. truthy w.object_id) e,
          t,
          lookup-insert_self v.object_id (flat (lookup v.object_id cache)) d,
        )))
answers-In cache u (v ∷ us) d t (inr m) = answers-In cache u us _ t m

-- Every user with an id that is asked for has an answer, also one for whom no record was found, and is
-- in the cache from then on.
pub resolve_many-contains :
    (cfg : Settings) (send : Send) (users : List EntraUser) (cache answered known : Cache)
    → resolve_many cfg send users cache ≡ ok (answered, known)
    → (u : EntraUser) → In u users
    → truthy u.object_id ≡ true
    → (contains u.object_id answered ≡ true) × (contains u.object_id known ≡ true)
unfolding resolve_many
resolve_many-contains cfg send users cache answered known e u m t =
    returned (λ p. (contains u.object_id p.0 ≡ true) × (contains u.object_id p.1 ≡ true))
      (resolve_many cfg send users cache) (answered, known)
      (Gives-bind (λ s. Tracked s u.object_id)
        (λ p. (contains u.object_id p.0 ≡ true) × (contains u.object_id p.1 ≡ true))
        (search_keys cfg send cfg.user_match_order
          (record { cache = cache; unresolved = by_id (keep (is_pending cache) users) [] }))
        _
        (search_keys-Tracked cfg send u.object_id cfg.user_match_order _
          (pending-Tracked cache u users [] t m))
        (λ s h. (
          answers-In (give_up s.unresolved s.cache) u users [] t m,
          give_up-contains u.object_id s.unresolved s.cache h,
        )))
      e

none_pending :
    (cache : Cache) (us : List EntraUser)
    → All (λ u. truthy u.object_id ≡ true → contains u.object_id cache ≡ true) us
    → keep (is_pending cache) us ≡ []
none_pending cache [] h = refl
none_pending cache (u ∷ us) h = ground (arith, h.0, none_pending cache us h.1)

search_keys-none :
    (cfg : Settings) (send : Send) (keys : List String) (cache : Cache)
    → search_keys cfg send keys (record { cache = cache; unresolved = [] })
      ≡ ok (record { cache = cache; unresolved = [] })
unfolding search_keys unless_settled
search_keys-none cfg send [] cache = refl
search_keys-none cfg send (k ∷ ks) cache = refl

resolve_many-known :
    (cfg : Settings) (send : Send) (users : List EntraUser) (cache : Cache)
    → keep (is_pending cache) users ≡ []
    → resolve_many cfg send users cache ≡ ok (answers cache users [], cache)
unfolding resolve_many by_id give_up
resolve_many-known cfg send users cache h =
    rw (h, search_keys-none cfg send cfg.user_match_order cache) refl

resolve_many-answers :
    (cfg : Settings) (send : Send) (users : List EntraUser) (cache : Cache)
    → Gives (λ p. p.0 ≡ answers p.1 users []) (resolve_many cfg send users cache)
unfolding resolve_many
resolve_many-answers cfg send users cache =
    Gives-bind (λ s. Unit {0}) (λ p. p.0 ≡ answers p.1 users [])
      (search_keys cfg send cfg.user_match_order
        (record { cache = cache; unresolved = by_id (keep (is_pending cache) users) [] }))
      _ (Gives-any _) (λ s u. refl)

-- The same users again have the same answers, whatever the service does then, and the cache stays.
pub resolve_many-again :
    (cfg : Settings) (send send' : Send) (users : List EntraUser) (cache answered known : Cache)
    → resolve_many cfg send users cache ≡ ok (answered, known)
    → resolve_many cfg send' users known ≡ ok (answered, known)
resolve_many-again cfg send send' users cache answered known e =
    resolve_many-known cfg send' users known (
      none_pending known users (
        In-all _ users
          (λ u m t. (resolve_many-contains cfg send users cache answered known e u m t).1)))
    ∙ ap (λ a. ok (a, known))
        (sym (
          returned (λ p. p.0 ≡ answers p.1 users []) (resolve_many cfg send users cache)
            (answered, known) (resolve_many-answers cfg send users cache) e))
