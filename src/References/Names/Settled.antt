-- ===== src/References/Names/Settled.antt =====
-- A name is resolved once: what it came to is what it comes to again.
use mac_service_now_cmdb.Base.{
  String, ◌≡◌, refl, sym, ap, ◌∙◌, Bool, true, false, Option, none, some, inl, inr, List, [], ◌∷◌,
  ◌++◌, map, Bool-cases, Option-cases, arith, eq_iff, eq_refl, ◌==◌, if-elim,
}
use mathlib.Core.Path.{subst}
use mac_service_now_cmdb.Text.{truthy, lower, strip}
use mac_service_now_cmdb.Dict.{Dict, lookup, insert, mem}
use mac_service_now_cmdb.Dict.Laws.{lookup-insert, lookup-insert_self, mem-append}
use mac_service_now_cmdb.Json.Value.{Value}
use mac_service_now_cmdb.Errors.{ok, ok-injective}
use mac_service_now_cmdb.Errors.Gives.{Gives, Gives-any, Gives-bind, returned}
use mac_service_now_cmdb.Client.{Send}
use mac_service_now_cmdb.References.Names.{
  Names, add, given_up, Created, create_record, Resolved, keep_created, resolve_unknown,
  resolve_key, resolve, text_or_empty,
}

-- Whatever may be created and whatever the service answers, the key resolves to this.
abbrev pub Settles : String → Names → Option String → Type 0
Settles key n id =
    (create : Bool) (send : Send) (table : String) (extra : Dict Value)
    → resolve_key create send table extra key n ≡ ok (record { sys_id = id; names = n; blank = [] })

-- What is known of a key: it is blank, its sys_id is in the cache, or it is among the missing names.
pub data Known (key : String) (n : Names) : Option String → Type 0 where
  blank : truthy key ≡ false → Known key n none
  cached :
      (id : String)
      → truthy key ≡ true
      → lookup (lower key) n.cache ≡ some id
      → Known key n (some id)
  absent :
      truthy key ≡ true
      → lookup (lower key) n.cache ≡ none
      → mem (lower key) (map lower n.missing) ≡ true
      → Known key n none

Known-Settles : (key : String) (n : Names) (id : Option String) → Known key n id → Settles key n id
unfolding resolve_key
Known-Settles key n id (blank t) create send table extra = rw (t, resolve_key) refl
Known-Settles key n id (cached i t l) create send table extra = rw (t, l, resolve_key) refl
Known-Settles key n id (absent t l m) create send table extra = rw (t, l, m, resolve_key) refl

mem-map : (x : String) (xs : List String) → mem x xs ≡ true → mem (lower x) (map lower xs) ≡ true
unfolding mem
mem-map x [] h = cc
mem-map x (y ∷ xs) h = elim (Bool-cases (y == x)) [
  | inl e ↦ rw ((eq_iff y x).0 e, eq_refl (lower x)) refl
  | inr ne ↦ let m = mem-map x xs (rw ne at h) in ground arith
]

mem-add : (x : String) (xs : List String) → mem x (add x xs) ≡ true
unfolding mem
mem-add x xs =
    if-elim (λ r. mem x r ≡ true) (mem x xs) xs (xs ++ x ∷ []) (λ h. h)
      (λ h. ground (arith, mem-append x xs (x ∷ []), eq_refl x))

mem-snoc :
    (x o : String) (xs : List String)
    → mem x (map lower xs) ≡ true
    → mem x (map lower (xs ++ o ∷ [])) ≡ true
unfolding mem
mem-snoc x o [] h = cc
mem-snoc x o (y ∷ xs) h = elim (Bool-cases (lower y == x)) [
  | inl e ↦ rw e refl
  | inr ne ↦ let m = mem-snoc x o xs (rw ne at h) in rw (ne, m) refl
]

mem-add-lower :
    (x o : String) (xs : List String)
    → mem x (map lower xs) ≡ true
    → mem x (map lower (add o xs)) ≡ true
mem-add-lower x o xs h =
    if-elim (λ r. mem x (map lower r) ≡ true) (mem o xs) xs (xs ++ o ∷ []) (λ y. h)
      (λ n. mem-snoc x o xs h)

-- How the names change when a key is resolved: not at all, or a key that is neither cached nor missing
-- becomes missing or cached.
pub data Changed (key : String) (n n' : Names) : Type 0 where
  same : n' ≡ n → Changed key n n'
  missed :
      lookup (lower key) n.cache ≡ none
      → mem (lower key) (map lower n.missing) ≡ false
      → n' ≡ given_up key n
      → Changed key n n'
  found :
      (id : String)
      → lookup (lower key) n.cache ≡ none
      → mem (lower key) (map lower n.missing) ≡ false
      → n' ≡ record n { cache = insert (lower key) id n.cache }
      → Changed key n n'

module _ (key : String) (n : Names) (t : truthy key ≡ true) (l : lookup (lower key) n.cache ≡ none)
    (m : mem (lower key) (map lower n.missing) ≡ false) where
  given_up-Known : Known key (given_up key n) none
  given_up-Known = absent t l (mem-map key (add key n.missing) (mem-add key n.missing))

  -- What is known of the key, and how the names changed
  abbrev Learned : Resolved → Type 0
  Learned r = Known key r.names r.sys_id × Changed key n r.names

  given_up-Learned :
      (b : List String) → Learned (record { sys_id = none; names = given_up key n; blank = b })
  given_up-Learned b = (given_up-Known, missed l m refl)

  keep_created-Learned : (c : Created) → Learned (keep_created key n c)
  unfolding keep_created
  keep_created-Learned (none, b) = given_up-Learned b
  keep_created-Learned (some id, b) =
      if-elim Learned (truthy id) _ _
        (λ y. (cached id t (lookup-insert_self (lower key) id n.cache), found id l m refl))
        (λ y. given_up-Learned b)

  resolve_unknown-Learned :
      (create : Bool) (send : Send) (table : String) (extra : Dict Value)
      → Gives Learned (resolve_unknown create send table extra key n)
  unfolding resolve_unknown
  resolve_unknown-Learned true send table extra =
      Gives-bind (λ c. Unit {0}) Learned (create_record send table key extra) _
        (Gives-any (create_record send table key extra)) (λ c u. keep_created-Learned c)
  resolve_unknown-Learned false send table extra = given_up-Learned []

module _ (create : Bool) (send : Send) (table : String) (extra : Dict Value) (key : String)
    (n : Names) (r : Resolved) where
  unknown :
      truthy key ≡ true
      → lookup (lower key) n.cache ≡ none
      → mem (lower key) (map lower n.missing) ≡ false
      → resolve_key create send table extra key n ≡ resolve_unknown create send table extra key n
  unfolding resolve_key
  unknown t l m = rw (t, l, m, resolve_key) refl

  abbrev AllLearned : Resolved → Type 0
  AllLearned x = Known key x.names x.sys_id × Changed key n x.names

  known_before :
      (id : Option String)
      → resolve_key create send table extra key n ≡ ok r
      → Known key n id
      → AllLearned r
  known_before id h k =
      subst AllLearned (ok-injective (sym (Known-Settles key n id k create send table extra) ∙ h))
        (k, same refl)

  resolve_key-Learned : resolve_key create send table extra key n ≡ ok r → AllLearned r
  resolve_key-Learned h = elim (Bool-cases (truthy key)) [
    | inr b ↦ known_before none h (blank b)
    | inl t ↦ elim (Option-cases (lookup (lower key) n.cache)) [
      | inr (id, l) ↦ known_before (some id) h (cached id t l)
      | inl l ↦ elim (Bool-cases (mem (lower key) (map lower n.missing))) [
        | inl m ↦ known_before none h (absent t l m)
        | inr m ↦
            returned AllLearned (resolve_unknown create send table extra key n) r
              (resolve_unknown-Learned key n t l m create send table extra)
              (sym (unknown t l m) ∙ h)
      ]
    ]
  ]

-- What is known of a key stays known when another is resolved.
kept_lookup :
    (k o id v : String) (d : Dict String)
    → lookup o d ≡ none
    → lookup k d ≡ some id
    → lookup k (insert o v d) ≡ some id
kept_lookup k o id v d a b = elim (Bool-cases (o == k)) [
  | inl y ↦ absurd (
      let e : lookup o d ≡ lookup k d = ap (λ x. lookup x d) ((eq_iff o k).0 y) in
      let c = sym a ∙ e ∙ b in cc)
  | inr ne ↦ lookup-insert o k v d ∙ rw ne b
]

kept_absence :
    (k o v : String) (missing : List String) (d : Dict String)
    → mem o missing ≡ false
    → mem k missing ≡ true
    → lookup k d ≡ none
    → lookup k (insert o v d) ≡ none
kept_absence k o v missing d a b l = elim (Bool-cases (o == k)) [
  | inl y ↦ absurd (
      let e : mem o missing ≡ mem k missing = ap (λ x. mem x missing) ((eq_iff o k).0 y) in
      let c = sym a ∙ e ∙ b in cc)
  | inr ne ↦ lookup-insert o k v d ∙ rw ne l
]

Known-Changed :
    (key other : String) (n n' : Names) (id : Option String)
    → Known key n id
    → Changed other n n'
    → Known key n' id
Known-Changed key other n n' id (blank t) c = blank t
Known-Changed key other n n' id k (same e) = subst (λ x. Known key x id) (sym e) k
Known-Changed key other n n' id (cached i t l) (missed a m e) =
    subst (λ x. Known key x (some i)) (sym e) (cached i t l)
Known-Changed key other n n' id (cached i t l) (found v a m e) =
    subst (λ x. Known key x (some i)) (sym e)
      (cached i t (kept_lookup (lower key) (lower other) i v n.cache a l))
Known-Changed key other n n' id (absent t l i) (missed a m e) =
    subst (λ x. Known key x none) (sym e) (absent t l (mem-add-lower (lower key) other n.missing i))
Known-Changed key other n n' id (absent t l i) (found v a m e) =
    subst (λ x. Known key x none) (sym e)
      (absent t (kept_absence (lower key) (lower other) v (map lower n.missing) n.cache m i l) i)

-- The names after any number of names were resolved, with whatever answers.
pub data Later (n : Names) : Names → Type 0 where
  here : Later n n
  next :
      {m : Names} (create : Bool) (send : Send) (table : String) (extra : Dict Value)
      (name : Option String) (r : Resolved)
      → Later n m
      → resolve create send table extra name m ≡ ok r
      → Later n r.names

Known-Later :
    (key : String) (n m : Names) (id : Option String) → Known key n id → Later n m → Known key m id
unfolding resolve
Known-Later key n m id k here = k
Known-Later key n m id k (next {m = p} create send table extra name r l h) =
    let other = strip (text_or_empty name) in
    Known-Changed key other p r.names id (Known-Later key n p id k l)
      (resolve_key-Learned create send table extra other p r h).1

-- After a name was resolved, with a sys_id or without, and then any number of names, with whatever
-- answers, resolving it again comes to the same and leaves the names as they are, whatever the
-- service answers this time and whether or not this call may create records. (Between the calls
-- nothing is taken off the names, as `_retry_model_awaiting_manufacturer` does with a model.)
pub resolve-again :
    (create create' : Bool) (send send' : Send) (table table' : String) (extra extra' : Dict Value)
    (name : Option String) (n m : Names) (r : Resolved)
    → resolve create send table extra name n ≡ ok r
    → Later r.names m
    → resolve create' send' table' extra' name m
      ≡ ok (record { sys_id = r.sys_id; names = m; blank = [] })
unfolding resolve
resolve-again create create' send send' table table' extra extra' name n m r h l =
    let key = strip (text_or_empty name) in
    Known-Settles key m r.sys_id
      (Known-Later key r.names m r.sys_id (resolve_key-Learned create send table extra key n r h).0
        l)
      create' send' table' extra'
