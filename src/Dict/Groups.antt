-- ===== src/Dict/Groups.antt =====
-- Items grouped by a text: `groups.setdefault(key, []).append(value)` for the keys that are not empty.
use mathlib.Core.List.{append_assoc, append-nil}
use mac_service_now_cmdb.Base.{
  String, ◌≡◌, refl, sym, ap, ◌∙◌, true, Option, none, some, List, [], ◌∷◌, ◌++◌, map, keep, ◌==◌,
  All, All-imp, arith, eq_iff, eq_refl, if-elim, if◌then◌else◌,
}
use mac_service_now_cmdb.Text.{truthy}
use mac_service_now_cmdb.Dict.{Dict, lookup, insert}
use mac_service_now_cmdb.Dict.Laws.{lookup-insert, IsDict, insert-IsDict, insert-All}

abbrev pub items_at {ℓ} : {B : Type ℓ} → String → Dict (List B) → List B
items_at key groups = elim (lookup key groups) [ none ↦ [] | some items ↦ items ]

lookup-cons {ℓ} :
    {V : Type ℓ} (k j : String) (v w : V) (d : Dict V)
    → lookup j d ≡ some w
    → lookup k d ≡ none
    → lookup j ((k, v) ∷ d) ≡ some w
unfolding lookup
lookup-cons k j v w d e n = ground (arith, e, n, eq_iff k j)

-- In a dictionary every entry is what its key looks up.
pub entries-lookup {ℓ} : {V : Type ℓ} (d : Dict V) → IsDict d → All (λ e. lookup e.0 d ≡ some e.1) d
unfolding lookup
entries-lookup [] h = tt
entries-lookup ((k, v) ∷ d) h = (
  rw (eq_refl k) refl,
  All-imp _ _ d (λ e l. lookup-cons k e.0 v e.1 d l h.0) (entries-lookup d h.1),
)

All-both :
    {V : Type 0} (P Q R : String × V → Type 0) (d : Dict V)
    → All P d
    → All Q d
    → ((k : String) (v : V) → P (k, v) → Q (k, v) → R (k, v))
    → All (λ e. P e × R e) d
All-both P Q R [] p q f = tt
All-both P Q R ((k, v) ∷ d) p q f = ((p.0, f k v p.0 q.0), All-both P Q R d p.1 q.1 f)

module _ {A B : Type 0} (key : A → String) (value : A → B) where
  unfoldable pub group_item : A → Dict (List B) → Dict (List B)
  group_item x groups =
      if truthy (key x)
      then insert (key x) (items_at (key x) groups ++ value x ∷ []) groups
      else groups

  unfoldable pub group : List A → Dict (List B) → Dict (List B)
  unfolding group_item
  group [] groups = groups
  group (x ∷ xs) groups = group xs (group_item x groups)

  -- The values of the items that have the key.
  abbrev pub having : String → List A → List B
  having k xs = map value (keep (λ x. key x == k) xs)

  items_at-group_item :
      (k : String) (x : A) (groups : Dict (List B))
      → truthy k ≡ true
      → items_at k (group_item x groups) ≡ items_at k groups ++ having k (x ∷ [])
  unfolding group_item
  items_at-group_item k x groups t = ground (
    arith,
    lookup-insert (key x) k (items_at (key x) groups ++ value x ∷ []) groups,
    eq_iff (key x) k,
    append-nil (items_at k groups),
  )

  having-cons :
      (k : String) (x : A) (xs : List A) → having k (x ∷ []) ++ having k xs ≡ having k (x ∷ xs)
  having-cons k x xs = ground arith

  -- A group holds the values of the items with its key, in order.
  pub items_at-group :
      (k : String) (xs : List A) (groups : Dict (List B))
      → truthy k ≡ true
      → items_at k (group xs groups) ≡ items_at k groups ++ having k xs
  unfolding group
  items_at-group k [] groups t = sym (append-nil (items_at k groups))
  items_at-group k (x ∷ xs) groups t =
      items_at-group k xs (group_item x groups) t
      ∙ ap (λ l. l ++ having k xs) (items_at-group_item k x groups t)
      ∙ append_assoc (items_at k groups) (having k (x ∷ [])) (having k xs)
      ∙ ap (λ l. items_at k groups ++ l) (having-cons k x xs)

  group-IsDict : (xs : List A) (groups : Dict (List B)) → IsDict groups → IsDict (group xs groups)
  unfolding group group_item
  group-IsDict [] groups h = h
  group-IsDict (x ∷ xs) groups h = group-IsDict xs (group_item x groups) (
      if-elim IsDict (truthy (key x)) _ groups
        (λ y. insert-IsDict (key x) (items_at (key x) groups ++ value x ∷ []) groups h) (λ n. h))

  group-truthy :
      (xs : List A) (groups : Dict (List B))
      → All (λ e. truthy e.0 ≡ true) groups
      → All (λ e. truthy e.0 ≡ true) (group xs groups)
  unfolding group group_item
  group-truthy [] groups h = h
  group-truthy (x ∷ xs) groups h = group-truthy xs (group_item x groups) (
      if-elim (All (λ e. truthy e.0 ≡ true)) (truthy (key x)) _ groups
        (λ y.
          insert-All (λ k v. truthy k ≡ true) (key x) (items_at (key x) groups ++ value x ∷ [])
            groups y h)
        (λ n. h))

  -- What the entries of the groups are.
  pub group-All :
      (xs : List A) → All (λ e. (truthy e.0 ≡ true) × (e.1 ≡ having e.0 xs)) (group xs [])
  unfolding lookup
  group-All xs =
      All-both (λ e. truthy e.0 ≡ true) (λ e. lookup e.0 (group xs []) ≡ some e.1)
        (λ e. e.1 ≡ having e.0 xs) (group xs []) (group-truthy xs [] tt)
        (entries-lookup (group xs []) (group-IsDict xs [] tt))
        (λ k v t e.
          sym (ap (λ (o : Option (List B)). elim o [ none ↦ [] | some l ↦ l ]) e)
          ∙ items_at-group k xs [] t)
