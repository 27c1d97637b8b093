-- ===== src/Report/Analyze/Shared.antt =====
-- Duplicates are exactly the keys that several CIs share.
use mathlib.Core.Path.{subst}
use mac_service_now_cmdb.Base.{
  ◌≤◌, String, ◌≡◌, refl, sym, ap, ap₂, ◌∙◌, ◌==◌, ◌↔◌, true, none, some, inl, inr, List, [], ◌∷◌,
  map, keep, length, ltb, In, In-All, Bool-cases, Option-cases, if-elim, arith,
}
use mac_service_now_cmdb.Text.{truthy}
use mac_service_now_cmdb.Text.Order.{text_before}
use mac_service_now_cmdb.Dict.{Dict, lookup, mem}
use mac_service_now_cmdb.Dict.Laws.{eq_of_eqb}
use mac_service_now_cmdb.Dict.Groups.{items_at, group, items_at-group, group-All}
use mac_service_now_cmdb.Report.Fetch.{Row}
use mac_service_now_cmdb.Report.Analyze.{
  Finding, sys_id, key_of, field_names, sort_entry, sort_entries, duplicate_of, duplicates_among,
  duplicate_findings,
}

module _ {V : Type 0} where
  In-sort_entry : (x e : String × V) (fs : Dict V) → In x (sort_entry e fs) ↔ In x (e ∷ fs)
  unfolding sort_entry
  In-sort_entry x e [] = (λ i. i, λ i. i)
  In-sort_entry x e (f ∷ fs) =
      if-elim (λ l. In x l ↔ In x (e ∷ f ∷ fs)) (text_before e.0 f.0) (e ∷ f ∷ fs)
        (f ∷ sort_entry e fs) (λ y. (λ i. i, λ i. i)) (λ n. swapped (In-sort_entry x e fs))
    where
      swapped :
          In x (sort_entry e fs) ↔ In x (e ∷ fs) → In x (f ∷ sort_entry e fs) ↔ In x (e ∷ f ∷ fs)
      swapped (to, from) = (
        λ i. elim i [
          | inl p ↦ inr (inl p)
          | inr q ↦ elim (to q) [ inl p ↦ inl p | inr r ↦ inr (inr r) ]
        ],
        λ i. elim i [
          | inl p ↦ inr (from (inl p))
          | inr q ↦ elim q [ inl p ↦ inl p | inr r ↦ inr (from (inr r)) ]
        ],
      )

  In-sort_entries : (x : String × V) (d : Dict V) → In x (sort_entries d) ↔ In x d
  unfolding sort_entries
  In-sort_entries x [] = (λ i. i, λ i. i)
  In-sort_entries x (e ∷ d) =
      let first = In-sort_entry x e (sort_entries d) in
      let more = In-sort_entries x d in
      (
        λ i. elim (first.0 i) [ inl p ↦ inl p | inr q ↦ inr (more.0 q) ],
        λ i. first.1 (elim i [ inl p ↦ inl p | inr q ↦ inr (more.1 q) ]),
      )

  In-lookup : (k : String) (v : V) (d : Dict V) → lookup k d ≡ some v → In (k, v) d
  unfolding lookup
  In-lookup k v [] h = absurd (ground (arith, h))
  In-lookup k v ((j, w) ∷ d) h = elim (Bool-cases (j == k)) [
    | inl y ↦ inl (ap₂ (λ (a : String) (b : V). (a, b)) (eq_of_eqb j k y) (ground (arith, h, y)))
    | inr n ↦ inr (In-lookup k v d (ground (arith, h, n)))
  ]

-- The finding for a group of several CIs
abbrev Group : String → Dict (List String) → Finding → Type 0
Group name gs f =
    (e : String × List String) × In e gs × (2 ≤ length e.1) × (f ≡ duplicate_of name e.0 e.1)

later :
    (name : String) (e : String × List String) (gs : Dict (List String)) (f : Finding)
    → Group name gs f
    → Group name (e ∷ gs) f
later name e gs f (d, i, b, p) = (d, inr i, b, p)

duplicates_among-Group :
    (name : String) (gs : Dict (List String)) (f : Finding)
    → In f (duplicates_among name gs)
    → Group name gs f
unfolding duplicates_among
duplicates_among-Group name [] f i = elim i [ ]
duplicates_among-Group name ((key, ids) ∷ gs) f m =
    if-elim (λ l. In f l → Group name ((key, ids) ∷ gs) f) (ltb 1 (length ids)) _
      (duplicates_among name gs)
      (λ y i. elim i [
        | inl p ↦ ((key, ids), inl refl, ground (arith, y), sym p)
        | inr q ↦ later name (key, ids) gs f (duplicates_among-Group name gs f q)
      ])
      (λ n i. later name (key, ids) gs f (duplicates_among-Group name gs f i)) m

Group-duplicates_among :
    (name : String) (gs : Dict (List String)) (e : String × List String)
    → In e gs
    → 2 ≤ length e.1
    → In (duplicate_of name e.0 e.1) (duplicates_among name gs)
unfolding duplicates_among
Group-duplicates_among name [] e i b = elim i [ ]
Group-duplicates_among name ((key, ids) ∷ gs) e (inl p) b =
    let same : ids ≡ e.1 = ap (λ x. x.1) p in
    if-elim (In (duplicate_of name e.0 e.1)) (ltb 1 (length ids)) _ (duplicates_among name gs)
      (λ y. inl (ap (λ x. duplicate_of name x.0 x.1) p))
      (λ n. absurd (ground (arith, n, b, ap (λ l. length l) same)))
Group-duplicates_among name ((key, ids) ∷ gs) e (inr i) b =
    if-elim (In (duplicate_of name e.0 e.1)) (ltb 1 (length ids)) _ (duplicates_among name gs)
      (λ y. inr (Group-duplicates_among name gs e i b)) (λ n. Group-duplicates_among name gs e i b)

-- The sys_ids of the CIs that have the key, in order
abbrev pub sharing : String → List Row → String → List String
sharing name rows key = map sys_id (keep (λ row. key_of name row == key) rows)

-- Several CIs share a key, and the finding names them.
abbrev pub IsShared : String → List Row → Finding → Type 0
IsShared name rows f =
    (key : String) × (truthy key ≡ true)
    × (2 ≤ length (sharing name rows key))
    × (f ≡ duplicate_of name key (sharing name rows key))

module _ (name : String) (rows : List Row) where
  abbrev groups : Dict (List String)
  groups = group (key_of name) sys_id rows []

  Group-IsShared : (f : Finding) → Group name (sort_entries groups) f → IsShared name rows f
  Group-IsShared f ((key, ids), i, b, p) =
      let e =
        In-All (λ e. (truthy e.0 ≡ true) × (e.1 ≡ sharing name rows e.0)) groups
          (group-All (key_of name) sys_id rows) (key, ids)
          ((In-sort_entries (key, ids) groups).0 i) in
      (
        key,
        e.0,
        subst (λ (l : List String). 2 ≤ length l) e.1 b,
        p ∙ ap (duplicate_of name key) e.1,
      )

  empty_at : (key : String) → lookup key groups ≡ none → [] ≡ items_at key groups
  empty_at key n = rw (n, items_at) refl

  some_at :
      (key : String) (ids : List String) → lookup key groups ≡ some ids → items_at key groups ≡ ids
  some_at key ids s = rw (s, items_at) refl

  group-In :
      (key : String)
      → truthy key ≡ true
      → 2 ≤ length (sharing name rows key)
      → In (key, sharing name rows key) groups
  unfolding lookup
  group-In key t b =
      let at = items_at-group (key_of name) sys_id key rows [] t in
      elim (Option-cases (lookup key groups)) [
        | inl n ↦ absurd (omega (arith, ap (λ (l : List String). length l) (empty_at key n ∙ at)))
        | inr (ids, s) ↦
            subst (λ (l : List String). In (key, l) groups) (sym (some_at key ids s) ∙ at)
              (In-lookup key ids groups s)
      ]

  IsShared-In :
      (f : Finding) → IsShared name rows f → In f (duplicates_among name (sort_entries groups))
  IsShared-In f (key, t, b, p) =
      subst (λ g. In g (duplicates_among name (sort_entries groups))) (sym p)
        (Group-duplicates_among name (sort_entries groups) (key, sharing name rows key)
          ((In-sort_entries (key, sharing name rows key) groups).1 (group-In key t b)) b)

  -- Where the rows have the field, the findings are exactly one kind: each is for a value, up to its
  -- case, that at least two of the CIs have, and names all of these in order; and each such value has
  -- its finding.
  pub duplicate_findings-IsShared :
      mem name (field_names rows) ≡ true
      → (f : Finding) → In f (duplicate_findings rows name) ↔ IsShared name rows f
  unfolding duplicate_findings
  duplicate_findings-IsShared m f = rw m (
    λ i. Group-IsShared f (duplicates_among-Group name (sort_entries groups) f i),
    λ s. IsShared-In f s,
  )
