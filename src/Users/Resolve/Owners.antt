-- ===== src/Users/Resolve/Owners.antt =====
-- Whoever `resolve_many` assigns was matched by one of the keys, among users that it was asked for.
use mac_service_now_cmdb.Base.{
  String, ◌≡◌, Bool, Option, none, some, inl, inr, List, [], ◌∷◌, map, keep, All, All-imp, In,
  In-all, Bool-cases, if-elim, Option-cases, ◌==◌,
}
use mac_service_now_cmdb.Text.{truthy}
use mac_service_now_cmdb.Dict.{Dict, lookup, insert, erase}
use mac_service_now_cmdb.Dict.Laws.{insert-All, lookup-All}
use mac_service_now_cmdb.Errors.{Result, ok}
use mac_service_now_cmdb.Errors.Gives.{Gives, Gives-bind, returned}
use mac_service_now_cmdb.Models.People.{EntraUser, SysUserRef}
use mac_service_now_cmdb.Client.{Send}
use mac_service_now_cmdb.Users.Match.{Settings, resolve_by_key}
use mac_service_now_cmdb.Users.Match.Unambiguous.{IsMatch, Matches, resolve_by_key-Matches}
use mac_service_now_cmdb.Users.Resolve.{
  Cache, Search, is_pending, by_id, settle, unless_settled, search_keys, give_up, flat, answers,
  resolve_many,
}

-- What a user is assigned: nothing, or a match by one of the keys, among some of the users asked for.
pub record IsOwner (cfg : Settings) (send : Send) (users : List EntraUser) (id : String)
    (ref : SysUserRef) : Type 0 where
  pub key : String
  pub is_key : In key cfg.user_match_order
  pub asked : List EntraUser
  pub are_users : All (λ u. In u users) asked
  pub is_match : IsMatch cfg send key asked id ref

abbrev pub Owned : Settings → Send → List EntraUser → String → Option SysUserRef → Type 0
Owned cfg send users id none = Unit
Owned cfg send users id (some ref) = IsOwner cfg send users id ref

erase-All :
    {V : Type 0} (P : V → Type 0) (k : String) (d : Dict V)
    → All (λ e. P e.1) d
    → All (λ e. P e.1) (erase k d)
unfolding erase
erase-All P k [] h = tt
erase-All P k ((j, v) ∷ d) h =
    if-elim (All (λ e. P e.1)) (j == k) (erase k d) ((j, v) ∷ erase k d) (λ y. erase-All P k d h.1)
      (λ n. (h.0, erase-All P k d h.1))

map-All : {V : Type 0} (P : V → Type 0) (d : Dict V) → All (λ e. P e.1) d → All P (map (λ e. e.1) d)
map-All P [] h = tt
map-All P (e ∷ d) h = (h.0, map-All P d h.1)

keep-All : {A : Type 0} (P : A → Type 0) (p : A → Bool) (xs : List A) → All P xs → All P (keep p xs)
keep-All P p [] h = tt
keep-All P p (x ∷ xs) h = elim (Bool-cases (p x)) [
  | inl y ↦ rw (y, keep) (h.0, keep-All P p xs h.1)
  | inr n ↦ rw (n, keep) (keep-All P p xs h.1)
]

by_id-All :
    (P : EntraUser → Type 0) (us : List EntraUser) (d : Dict EntraUser)
    → All P us
    → All (λ e. P e.1) d
    → All (λ e. P e.1) (by_id us d)
unfolding by_id
by_id-All P [] d p h = h
by_id-All P (u ∷ us) d p h =
    by_id-All P us (insert u.object_id u d) p.1 (insert-All (λ i v. P v) u.object_id u d p.0 h)

module _ (cfg : Settings) (send : Send) (users : List EntraUser) where
  abbrev pub Owners : Cache → Type 0
  Owners = All (λ e. Owned cfg send users e.0 e.1)

  -- Who is known was matched, and who is left is one of the users.
  abbrev Searched : Search → Type 0
  Searched s = Owners s.cache × All (λ e. In e.1 users) s.unresolved

  settle-Searched :
      (matched : Dict SysUserRef) (s : Search)
      → All (λ e. IsOwner cfg send users e.0 e.1) matched
      → Searched s
      → Searched (settle matched s)
  unfolding settle
  settle-Searched [] s m h = h
  settle-Searched ((id, ref) ∷ matched) s m h =
      settle-Searched matched
        (record { cache = insert id (some ref) s.cache; unresolved = erase id s.unresolved }) m.1
        (
          insert-All (Owned cfg send users) id (some ref) s.cache m.0 h.0,
          erase-All (λ u. In u users) id s.unresolved h.1,
        )

  owners_of :
      (key : String) (asked : List EntraUser) (matched : Dict SysUserRef)
      → In key cfg.user_match_order
      → All (λ u. In u users) asked
      → Matches cfg send key asked matched
      → All (λ e. IsOwner cfg send users e.0 e.1) matched
  owners_of key asked matched k a m =
      All-imp _ _ matched
        (λ e i. record { key = key; is_key = k; asked = asked; are_users = a; is_match = i }) m

  unless_settled-Searched :
      (left : Dict EntraUser) (s : Search) (rest : Result Search)
      → Searched s
      → Gives Searched rest
      → Gives Searched (unless_settled left s rest)
  unfolding unless_settled
  unless_settled-Searched [] s rest h r = h
  unless_settled-Searched (e ∷ es) s rest h r = r

  search_keys-Searched :
      (keys : List String) (s : Search)
      → All (λ k. In k cfg.user_match_order) keys
      → Searched s
      → Gives Searched (search_keys cfg send keys s)
  unfolding search_keys
  search_keys-Searched [] s k h = h
  search_keys-Searched (key ∷ keys) s k h =
      let asked = map (λ e. e.1) s.unresolved in
      let are_users = map-All (λ u. In u users) s.unresolved h.1 in
      unless_settled-Searched s.unresolved s _ h (
        Gives-bind (Matches cfg send key asked) Searched (resolve_by_key cfg send key asked) _
          (resolve_by_key-Matches cfg send key asked)
          (λ matched m.
            search_keys-Searched keys (settle matched s) k.1
              (settle-Searched matched s (owners_of key asked matched k.0 are_users m) h)))

  give_up-Owners :
      (left : Dict EntraUser) (cache : Cache) → Owners cache → Owners (give_up left cache)
  unfolding give_up
  give_up-Owners [] cache h = h
  give_up-Owners ((id, u) ∷ left) cache h =
      give_up-Owners left (insert id none cache)
        (insert-All (Owned cfg send users) id none cache tt h)

  known_owner :
      (id : String) (cache : Cache)
      → Owners cache
      → Owned cfg send users id (flat (lookup id cache))
  known_owner id cache h = elim (Option-cases (lookup id cache)) [
    | inl n ↦ rw n tt
    | inr (o, e) ↦ rw e (lookup-All (Owned cfg send users) id o cache h e)
  ]

  answers-Owners :
      (cache : Cache) (us : List EntraUser) (d : Cache)
      → Owners cache
      → Owners d
      → Owners (answers cache us d)
  unfolding answers
  answers-Owners cache [] d c h = h
  answers-Owners cache (u ∷ us) d c h = answers-Owners cache us _ c (
      if-elim Owners (truthy u.object_id) _ d
        (λ y.
          insert-All (Owned cfg send users) u.object_id (flat (lookup u.object_id cache)) d
            (known_owner u.object_id cache c) h)
        (λ n. h))

  -- From an empty cache, every user that `resolve_many` assigns is matched by a key of the order: a
  -- value of a user with this id, one of those asked for, is in exactly one of the records found for
  -- the key, and the reference is to this record, which has a sys_id.
  pub resolve_many-Owners :
      (answered known : Cache)
      → resolve_many cfg send users [] ≡ ok (answered, known)
      → Owners answered × Owners known
  unfolding resolve_many
  resolve_many-Owners answered known e =
      returned (λ p. Owners p.0 × Owners p.1) (resolve_many cfg send users []) (answered, known)
        (Gives-bind Searched (λ p. Owners p.0 × Owners p.1)
          (search_keys cfg send cfg.user_match_order
            (record { cache = []; unresolved = by_id (keep (is_pending []) users) [] }))
          _
          (search_keys-Searched cfg.user_match_order _ (In-all _ cfg.user_match_order (λ k m. m)) (
            tt,
            by_id-All (λ u. In u users) (keep (is_pending []) users) []
                (keep-All (λ u. In u users) (is_pending []) users (In-all _ users (λ u m. m))) tt,
          ))
          (λ s h.
            let known' = give_up-Owners s.unresolved s.cache h.0 in
            (answers-Owners (give_up s.unresolved s.cache) users [] known' tt, known')))
        e
