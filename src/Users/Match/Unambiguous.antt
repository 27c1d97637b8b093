-- ===== src/Users/Match/Unambiguous.antt =====
-- A user is matched only by a value of theirs that exactly one of the records found carries.
use mathlib.Core.Path.{subst}
use mac_service_now_cmdb.Base.{
  String, ◌≡◌, refl, sym, ap, ◌∙◌, true, Option, none, some, inl, inr, List, [], ◌∷◌, ◌==◌, map,
  keep, All, All-imp, Option-cases, if-elim, arith,
}
use mac_service_now_cmdb.Text.Laws.{truthy-lower}
use mac_service_now_cmdb.Query.{is_query_safe}
use mac_service_now_cmdb.Text.{truthy}
use mac_service_now_cmdb.Dict.{Dict, lookup, setdefault}
use mac_service_now_cmdb.Dict.Laws.{insert-All}
use mac_service_now_cmdb.Dict.Groups.{items_at, items_at-group}
use mac_service_now_cmdb.Json.Value.{Value}
use mac_service_now_cmdb.Errors.{Result, ok}
use mac_service_now_cmdb.Errors.Gives.{Gives, Gives-bind, Gives-self, Gives-both}
use mac_service_now_cmdb.Models.People.{EntraUser, SysUserRef}
use mac_service_now_cmdb.Client.{Send}
use mac_service_now_cmdb.Users.Candidates.{Candidates, candidate_values}
use mac_service_now_cmdb.Users.Candidates.Sound.{Has, Named, Sound, candidate_values-Sound}
use mac_service_now_cmdb.Users.Match.{
  Settings, Row, value_of, group_rows, ref_of, set_all, match_candidate, match_candidates,
  match_rows, snow_field_for, query_users, read_rows, in_field, unless_none, resolve_by_key,
}

-- The records that carry the value.
abbrev pub carriers : String → String → List Row → List Row
carriers field value = keep (λ r. value_of field r == value)

map_self : {A : Type 0} (xs : List A) → map (λ x. x) xs ≡ xs
map_self [] = refl
map_self (x ∷ xs) = ap (λ l. x ∷ l) (map_self xs)

items_at-group_rows :
    (field value : String) (rows : List Row)
    → truthy value ≡ true
    → items_at value (group_rows field rows) ≡ carriers field value rows
unfolding group_rows lookup
items_at-group_rows field value rows t =
    items_at-group (value_of field) (λ row. row) value rows [] t
    ∙ map_self (carriers field value rows)

-- What makes a match of a user with a record by a key: a value of the user that exactly one of the
-- records carries which the service found for the values of all users.
pub record IsMatch (cfg : Settings) (send : Send) (key : String) (users : List EntraUser)
    (id : String) (ref : SysUserRef) : Type 0 where
  pub column : String
  pub of_key : snow_field_for cfg key ≡ some column
  pub value : String
  pub named : Named key users id value
  pub candidates : Candidates
  pub offered : candidate_values key users ≡ ok candidates
  pub found : List Value
  pub answered : query_users cfg send column (map (λ e. e.1.original) candidates) ≡ ok found
  pub rows : List Row
  pub are_rows : read_rows found ≡ ok rows
  pub row : Row
  pub alone : carriers column value rows ≡ row ∷ []
  pub taken : ref ≡ ref_of key row
  pub identified : truthy ref.sys_id ≡ true

module _ (P : String → SysUserRef → Type 0) where
  setdefault-All :
      (id : String) (ref : SysUserRef) (d : Dict SysUserRef)
      → P id ref
      → All (λ e. P e.0 e.1) d
      → All (λ e. P e.0 e.1) (setdefault id ref d)
  setdefault-All id ref d p h = elim (Option-cases (lookup id d)) [
    | inl n ↦ rw (n, setdefault) (insert-All P id ref d p h)
    | inr (w, s) ↦ rw (s, setdefault) h
  ]

  set_all-All :
      (ids : List String) (ref : SysUserRef) (d : Dict SysUserRef)
      → All (λ id. P id ref) ids
      → All (λ e. P e.0 e.1) d
      → All (λ e. P e.0 e.1) (set_all ids ref d)
  unfolding set_all
  set_all-All [] ref d p h = h
  set_all-All (id ∷ ids) ref d p h =
      set_all-All ids ref (setdefault id ref d) p.1 (setdefault-All id ref d p.0 h)

  match_candidate-All :
      (key : String) (rows : List Row) (ids : List String) (d : Dict SysUserRef)
      → ((row : Row)
          → rows ≡ row ∷ []
          → truthy (ref_of key row).sys_id ≡ true
          → All (λ id. P id (ref_of key row)) ids)
      → All (λ e. P e.0 e.1) d
      → All (λ e. P e.0 e.1) (match_candidate key rows ids d)
  unfolding match_candidate
  match_candidate-All key [] ids d p h = h
  match_candidate-All key (row ∷ []) ids d p h =
      if-elim (All (λ e. P e.0 e.1)) (truthy (ref_of key row).sys_id) _ d
        (λ y. set_all-All ids (ref_of key row) d (p row refl y) h) (λ n. h)
  match_candidate-All key (row ∷ other ∷ rows) ids d p h = h

  match_candidates-All :
      (key : String) (groups : Dict (List Row)) (cs : Candidates) (d : Dict SysUserRef)
      → All
          (λ e.
            (row : Row)
            → items_at e.0 groups ≡ row ∷ []
            → truthy (ref_of key row).sys_id ≡ true
            → All (λ id. P id (ref_of key row)) e.1.object_ids)
          cs
      → All (λ e. P e.0 e.1) d
      → All (λ e. P e.0 e.1) (match_candidates key groups cs d)
  unfolding match_candidates
  match_candidates-All key groups [] d p h = h
  match_candidates-All key groups ((value, c) ∷ cs) d p h =
      match_candidates-All key groups cs
        (match_candidate key (items_at value groups) c.object_ids d) p.1
        (match_candidate-All key (items_at value groups) c.object_ids d p.0 h)

safe-truthy : (text : String) → is_query_safe text ≡ true → truthy text ≡ true
unfolding is_query_safe
safe-truthy text h = ground (arith, h)

Has-truthy : (key : String) (u : EntraUser) (value : String) → Has key u value → truthy value ≡ true
Has-truthy key u value h =
    subst (λ v. truthy v ≡ true) (sym h.folds) (truthy-lower h.text ∙ safe-truthy h.text h.is_safe)

module _ (cfg : Settings) (send : Send) (key : String) (users : List EntraUser) where
  abbrev pub Matches : Dict SysUserRef → Type 0
  Matches = All (λ e. IsMatch cfg send key users e.0 e.1)

  module _ (column : String) (of_key : snow_field_for cfg key ≡ some column) (cs : Candidates)
      (offered : candidate_values key users ≡ ok cs) (found : List Value)
      (answered : query_users cfg send column (map (λ e. e.1.original) cs) ≡ ok found)
      (rows : List Row) (are_rows : read_rows found ≡ ok rows) where
    named-IsMatch :
        (value id : String) (row : Row)
        → items_at value (group_rows column rows) ≡ row ∷ []
        → truthy (ref_of key row).sys_id ≡ true
        → Named key users id value
        → IsMatch cfg send key users id (ref_of key row)
    unfolding lookup
    named-IsMatch value id row e t n = record {
      column = column;
      of_key = of_key;
      value = value;
      named = n;
      candidates = cs;
      offered = offered;
      found = found;
      answered = answered;
      rows = rows;
      are_rows = are_rows;
      row = row;
      alone =
          sym (items_at-group_rows column value rows (Has-truthy key n.user value n.has_value)) ∙ e;
      taken = refl;
      identified = t;
    }

    match_rows-Matches : Sound key users cs → Matches (match_rows key column cs rows)
    unfolding match_rows
    match_rows-Matches h =
        match_candidates-All (IsMatch cfg send key users) key (group_rows column rows) cs []
          (All-imp _ _ cs
            (λ e named row alone t.
              All-imp _ _ e.1.object_ids (λ id n. named-IsMatch e.0 id row alone t n) named)
            h)
          tt

  in_field-Matches :
      (cs : Candidates) (o : Option String)
      → candidate_values key users ≡ ok cs
      → snow_field_for cfg key ≡ o
      → Sound key users cs
      → Gives Matches (in_field cfg send key cs o)
  unfolding in_field
  in_field-Matches cs none offered k h = tt
  in_field-Matches cs (some column) offered k h =
      let q = query_users cfg send column (map (λ e. e.1.original) cs) in
      Gives-bind (λ found. q ≡ ok found) Matches q _ (Gives-self q)
        (λ found answered.
          Gives-bind (λ rows. read_rows found ≡ ok rows) Matches (read_rows found) _
            (Gives-self (read_rows found))
            (λ rows are_rows.
              match_rows-Matches column k cs offered found answered rows are_rows h))

  unless_none-Matches :
      (cs : Candidates) (r : Result (Dict SysUserRef))
      → Gives Matches r
      → Gives Matches (unless_none cs r)
  unfolding unless_none
  unless_none-Matches [] r h = tt
  unless_none-Matches (c ∷ cs) r h = h

  -- Whatever a key matches is a match: the user has a value for the key that is in exactly one of the
  -- records found, this record has a sys_id, and the reference is to it.
  pub resolve_by_key-Matches : Gives Matches (resolve_by_key cfg send key users)
  unfolding resolve_by_key
  resolve_by_key-Matches =
      let c = candidate_values key users in
      Gives-bind (λ cs. (c ≡ ok cs) × Sound key users cs) Matches c _
        (Gives-both (λ cs. c ≡ ok cs) (Sound key users) c (Gives-self c)
          (candidate_values-Sound key users))
        (λ cs h.
          unless_none-Matches cs _ (in_field-Matches cs (snow_field_for cfg key) h.0 refl h.1))
