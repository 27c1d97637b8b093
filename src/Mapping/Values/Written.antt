-- ===== src/Mapping/Values/Written.antt =====
-- Which values are written: the dropped fields are not, static values win, and nothing is blank.
use Prim.Native.String.{String}
use mathlib.Core.Path.{subst}
use mac_service_now_cmdb.Base.{
  ◌≡◌, refl, ap, ◌∙◌, Bool, true, false, Option, none, some, List, [], ◌∷◌, ◌&&◌, ◌==◌, All, arith,
  Option-cases, if◌then◌else◌, if-elim, eq_iff, Bool-cases, inl, inr,
}
use mac_service_now_cmdb.Text.{truthy}
use mac_service_now_cmdb.Dict.{Dict, lookup, insert, update, erase, mem}
use mac_service_now_cmdb.Dict.Laws.{
  IsDict, insert-IsDict, erase-IsDict, lookup-insert, lookup-erase,
}
use mac_service_now_cmdb.Json.Value.{Value, str, get}
use mac_service_now_cmdb.Mapping.Values.{
  Settings, User, map_extra_field, base_values, put_reference, put_user, put_correlation,
  put_status, put_extra, own_values, drop_all, is_kept, without_blanks, build_values,
}

-- A value, unless it is blank.
abbrev pub kept : Option Value → Option Value
kept none = none
kept (some v) = if is_kept v then some v else none

-- The first of two, if there is one.
abbrev pub first_of : Option Value → Option Value → Option Value
first_of none o = o
first_of (some v) o = some v

lookup-without_blanks :
    (k : String) (d : Dict Value) → IsDict d → lookup k (without_blanks d) ≡ kept (lookup k d)
unfolding lookup without_blanks
lookup-without_blanks k [] h = refl
lookup-without_blanks k ((j, v) ∷ d) h =
    let rest = lookup-without_blanks k d h.1 in ground (arith, eq_iff j k)

without_blanks-All : (d : Dict Value) → All (λ e. is_kept e.1 ≡ true) (without_blanks d)
unfolding without_blanks
without_blanks-All [] = tt
without_blanks-All ((k, v) ∷ d) =
    if-elim (All (λ e. is_kept e.1 ≡ true)) (is_kept v) ((k, v) ∷ without_blanks d)
      (without_blanks d) (λ y. (y, without_blanks-All d)) (λ n. without_blanks-All d)

lookup-drop_all :
    (k : String) (ks : List String) (d : Dict Value)
    → lookup k (drop_all ks d) ≡ (if mem k ks then none else lookup k d)
unfolding mem
lookup-drop_all k [] d = refl
lookup-drop_all k (j ∷ ks) d = ground (arith, lookup-drop_all k ks (erase j d), lookup-erase j k d)

drop_all-IsDict : (ks : List String) (d : Dict Value) → IsDict d → IsDict (drop_all ks d)
drop_all-IsDict [] d h = h
drop_all-IsDict (k ∷ ks) d h = drop_all-IsDict ks (erase k d) (erase-IsDict k d h)

update-IsDict : (d e : Dict Value) → IsDict d → IsDict (update d e)
unfolding update
update-IsDict d [] h = h
update-IsDict d ((k, v) ∷ e) h = update-IsDict (insert k v d) e (insert-IsDict k v d h)

lookup-update_first :
    (k : String) (d e : Dict Value)
    → IsDict e
    → lookup k (update d e) ≡ first_of (lookup k e) (lookup k d)
unfolding lookup update
lookup-update_first k d [] h = refl
lookup-update_first k d ((j, v) ∷ e) h =
    lookup-update_first k (insert j v d) e h.1 ∙ elim (Bool-cases (j == k)) [
      | inl y ↦
          let fresh : lookup k e ≡ none = subst (λ i. lookup i e ≡ none) ((eq_iff j k).0 y) h.0 in
          rw (lookup-insert j k v d, y, fresh) refl
      | inr n ↦ rw (lookup-insert j k v d, n) refl
    ]

kept-if :
    (b : Bool) (o : Option Value) → kept (if b then none else o) ≡ (if b then none else kept o)
kept-if true o = refl
kept-if false o = refl

module _ (to_snow_datetime : Value → Option String) (cfg : Settings) (device : Dict Value) where
  base_values-IsDict : IsDict (base_values to_snow_datetime cfg device)
  unfolding base_values lookup
  base_values-IsDict = (
    refl,
    (refl, (refl, (refl, (refl, (refl, (refl, (refl, (refl, (refl, (refl, (refl, tt))))))))))),
  )

  put_extra-IsDict :
      (user : Option User) (fields : Dict String) (d : Dict Value)
      → IsDict d
      → IsDict (put_extra to_snow_datetime cfg device user fields d)
  unfolding put_extra
  put_extra-IsDict user [] d h = h
  put_extra-IsDict user ((c, g) ∷ fields) d h =
      put_extra-IsDict user fields (insert c (map_extra_field to_snow_datetime device g user) d)
        (insert-IsDict c (map_extra_field to_snow_datetime device g user) d h)

  put_reference-IsDict :
      (name : String) (references : Dict String) (d : Dict Value)
      → IsDict d
      → IsDict (put_reference to_snow_datetime cfg device name references d)
  put_reference-IsDict name references d h = elim (Option-cases (lookup name references)) [
    | inl n ↦ rw (n, put_reference) h
    | inr (id, s) ↦
        rw (s, put_reference)
          (if-elim IsDict (truthy id) (insert name (str id) d) d
            (λ y. insert-IsDict name (str id) d h) (λ n. h))
  ]

  put_user-IsDict :
      (user : Option String) (d : Dict Value)
      → IsDict d
      → IsDict (put_user to_snow_datetime cfg device user d)
  put_user-IsDict none d h = h
  put_user-IsDict (some id) d h =
      if-elim IsDict cfg.assign_user _ d (λ y. insert-IsDict "assigned_to" (str id) d h) (λ n. h)

  put_correlation-IsDict :
      (d : Dict Value) → IsDict d → IsDict (put_correlation to_snow_datetime cfg device d)
  put_correlation-IsDict d h =
      if-elim IsDict (cfg.set_correlation && truthy cfg.correlation_field) _ d
        (λ y. insert-IsDict cfg.correlation_field (get "id" device) d h) (λ n. h)

  put_status-IsDict :
      (d : Dict Value) → IsDict d → IsDict (put_status to_snow_datetime cfg device d)
  put_status-IsDict d h =
      if-elim IsDict (truthy cfg.install_status_active) _ d
        (λ y. insert-IsDict "install_status" (str cfg.install_status_active) d h) (λ n. h)

  own_values-IsDict :
      (sys_user : Option String) (user : Option User) (references : Dict String)
      → IsDict (own_values to_snow_datetime cfg device sys_user user references)
  unfolding own_values
  own_values-IsDict sys_user user references =
      let base = base_values to_snow_datetime cfg device in
      let put = put_reference to_snow_datetime cfg device in
      let made = put "manufacturer" references base in
      let linked = put "model_id" references made in
      let correlated = put_correlation to_snow_datetime cfg device linked in
      let assigned = put_user to_snow_datetime cfg device sys_user correlated in
      put_extra-IsDict user cfg.extra_fields (put_status to_snow_datetime cfg device assigned) (
        put_status-IsDict assigned (
          put_user-IsDict sys_user correlated (
            put_correlation-IsDict linked (
              put_reference-IsDict "model_id" references made
                (put_reference-IsDict "manufacturer" references base base_values-IsDict)))))

  -- With static values that hold no key twice, a field is written exactly so: not if it is dropped;
  -- otherwise with its static value, or else with the value of the device; and not if that is blank.
  pub build_values_lem :
      (sys_user : Option String) (user : Option User) (references : Dict String) (k : String)
      → IsDict cfg.static
      → lookup k (build_values to_snow_datetime cfg device sys_user user references) ≡ (
          if mem k cfg.drop
          then none
          else kept (
              first_of
                (lookup k cfg.static)
                (lookup k (own_values to_snow_datetime cfg device sys_user user references))))
  unfolding build_values
  build_values_lem sys_user user references k h =
      let own = own_values to_snow_datetime cfg device sys_user user references in
      let whole = update own cfg.static in
      let dict = update-IsDict own cfg.static (own_values-IsDict sys_user user references) in
      lookup-without_blanks k (drop_all cfg.drop whole) (drop_all-IsDict cfg.drop whole dict)
      ∙ ap kept (lookup-drop_all k cfg.drop whole)
      ∙ kept-if (mem k cfg.drop) (lookup k whole)
      ∙ ap (λ o. if mem k cfg.drop then none else kept o) (lookup-update_first k own cfg.static h)

  -- No value that is written is blank.
  pub build_values-All :
      (sys_user : Option String) (user : Option User) (references : Dict String)
      → All
          (λ e. is_kept e.1 ≡ true)
          (build_values to_snow_datetime cfg device sys_user user references)
  unfolding build_values
  build_values-All sys_user user references = without_blanks-All (
      drop_all cfg.drop
        (update (own_values to_snow_datetime cfg device sys_user user references) cfg.static))
