-- ===== src/Writers/Source/Registered.antt =====
-- What is registered when `register_discovery_source` says so.
use mac_service_now_cmdb.Base.{
  ℕ, String, ◌≡◌, refl, Bool, true, false, List, [], ◌∷◌, ◌++◌, ◌⊎◌, inl, inr, In, not, ◌||◌, ◌==◌,
  if-elim, eq_iff, Bool-cases,
}
use mac_service_now_cmdb.Text.{truthy}
use mac_service_now_cmdb.Dict.{Dict, mem}
use mac_service_now_cmdb.Dict.Laws.{mem-append}
use mac_service_now_cmdb.Json.Value.{Value}
use mac_service_now_cmdb.Errors.{ok}
use mac_service_now_cmdb.Errors.Gives.{Gives, Gives-bind, Gives-map, Gives-self, Gives-any}
use mac_service_now_cmdb.Http.Response.{is_success}
use mac_service_now_cmdb.Client.{Send, entries_of}
use mac_service_now_cmdb.Writers.Source.{
  choice_value, is_inactive, add_choice, read_choices, choice_rows, similar_discovery_sources,
  insert_request, inserted_id, insert_choice, register_discovery_source,
}

-- The row holds the value, and is not switched off.
abbrev IsChoice : String → Value → Type 0
IsChoice source row =
    (d : Dict Value) × (entries_of row ≡ ok d) × (choice_value d ≡ source) × (is_inactive d ≡ false)

abbrev Chosen : String → List Value → Type 0
Chosen source rows = (row : Value) × In row rows × IsChoice source row

-- The table of choices lists an active row with the value.
abbrev pub IsRegistered : Send → String → Type 0
IsRegistered send source =
    (rows : List Value) × (choice_rows send source ≡ ok rows) × Chosen source rows

or_false : (a b : Bool) → (a || b) ≡ false → b ≡ false
or_false true b h = absurd (let e = h in cc)
or_false false b h = h

true_of : (b : Bool) → not b ≡ false → b ≡ true
true_of true h = refl
true_of false h = absurd (let e = h in cc)

or_cases : (a b : Bool) → (a || b) ≡ true → (a ≡ true) ⊎ (b ≡ true)
or_cases true b h = inl refl
or_cases false b h = inr h

mem-single : (v x : String) → mem v (x ∷ []) ≡ true → x ≡ v
unfolding mem
mem-single v x h = elim (Bool-cases (x == v)) [
  | inl t ↦ (eq_iff x v).0 t
  | inr f ↦ absurd (let e = rw f at h in cc)
]

add_choice-mem :
    (v : String) (d : Dict Value) (values : List String)
    → mem v (add_choice d values) ≡ true
    → (mem v values ≡ true) ⊎ ((choice_value d ≡ v) × (is_inactive d ≡ false))
unfolding add_choice
add_choice-mem v d values =
    if-elim
      (λ vs.
        mem v vs ≡ true → (mem v values ≡ true) ⊎ ((choice_value d ≡ v) × (is_inactive d ≡ false)))
      (not (truthy (choice_value d)) || is_inactive d) values _ (λ _ h. inl h)
      (λ active.
        if-elim
          (λ vs.
            mem v vs ≡ true
            → (mem v values ≡ true) ⊎ ((choice_value d ≡ v) × (is_inactive d ≡ false)))
          (mem (choice_value d) values) values (values ++ (choice_value d ∷ [])) (λ _ h. inl h)
          (λ _ h.
            elim (or_cases (mem v values) (mem v (choice_value d ∷ []))
              (rw (mem-append v values (choice_value d ∷ [])) at h)) [
                | inl m ↦ inl m
                | inr m ↦ inr (mem-single v (choice_value d) m, or_false _ _ active)
              ]))

abbrev AllChosen : List Value → List String → List String → Type 0
AllChosen rows before after =
    (v : String) → mem v after ≡ true → (mem v before ≡ true) ⊎ Chosen v rows

one_more :
    (row : Value) (rows : List Value) (d : Dict Value) (values after : List String)
    → entries_of row ≡ ok d
    → AllChosen rows (add_choice d values) after
    → AllChosen (row ∷ rows) values after
one_more row rows d values after e h v m = elim (h v m) [
  | inr (r, i, c) ↦ inr (r, inr i, c)
  | inl before ↦ elim (add_choice-mem v d values before) [
    | inl old ↦ inl old
    | inr (same, active) ↦ inr (row, inl refl, (d, e, same, active))
  ]
]

read_choices-AllChosen :
    (rows : List Value) (values : List String)
    → Gives (AllChosen rows values) (read_choices rows values)
unfolding read_choices
read_choices-AllChosen [] values = λ v h. inl h
read_choices-AllChosen (row ∷ rows) values =
    Gives-bind (λ d. entries_of row ≡ ok d) (AllChosen (row ∷ rows) values) (entries_of row) _
      (Gives-self (entries_of row))
      (λ d e.
        Gives-map (AllChosen rows (add_choice d values)) (AllChosen (row ∷ rows) values) _
          (λ after. one_more row rows d values after e)
          (read_choices-AllChosen rows (add_choice d values)))

similar-IsRegistered :
    (send : Send) (source : String)
    → Gives
        (λ vs. mem source vs ≡ true → IsRegistered send source)
        (similar_discovery_sources send source)
unfolding similar_discovery_sources mem
similar-IsRegistered send source =
    Gives-bind (λ rows. choice_rows send source ≡ ok rows)
      (λ vs. mem source vs ≡ true → IsRegistered send source) (choice_rows send source)
      (λ rows. read_choices rows []) (Gives-self (choice_rows send source))
      (λ rows e.
        Gives-map (AllChosen rows []) (λ vs. mem source vs ≡ true → IsRegistered send source)
          (read_choices rows [])
          (λ vs h m. elim (h source m) [
            | inl none_yet ↦ absurd (let b = none_yet in cc)
            | inr chosen ↦ (rows, e, chosen)
          ])
          (read_choices-AllChosen rows []))

abbrev Either : (ℕ → Send) → String → String → Type 0
Either send source message = IsRegistered (send 0) source ⊎ IsRegistered (send 2) source

insert_choice-IsRegistered :
    (send : ℕ → Send) (source : String) → Gives (Either send source) (insert_choice send source)
unfolding insert_choice
insert_choice-IsRegistered send source =
    Gives-bind (λ r. Unit) (Either send source) (send 1 (insert_request source)) _ (Gives-any _)
      (λ r _.
        if-elim (Gives (Either send source)) (not (is_success r)) _ _ (λ _. tt)
          (λ _.
            Gives-bind (λ vs. mem source vs ≡ true → IsRegistered (send 2) source)
              (Either send source) (similar_discovery_sources (send 2) source) _
              (similar-IsRegistered (send 2) source)
              (λ vs h.
                if-elim (Gives (Either send source)) (not (mem source vs)) _ _ (λ _. tt)
                  (λ m.
                    Gives-bind (λ id. Unit) (Either send source) (inserted_id r) _ (Gives-any _)
                      (λ id _. inr (h (true_of (mem source vs) m)))))))

-- When `register_discovery_source` returns, the table of choices lists an active row with the value,
-- either when it is first read, or when it is read back after the insert.
pub register_discovery_source-IsRegistered :
    (send : ℕ → Send) (source : String)
    → Gives
        (λ message. IsRegistered (send 0) source ⊎ IsRegistered (send 2) source)
        (register_discovery_source send source)
unfolding register_discovery_source
register_discovery_source-IsRegistered send source =
    Gives-bind (λ vs. mem source vs ≡ true → IsRegistered (send 0) source) (Either send source)
      (similar_discovery_sources (send 0) source) _ (similar-IsRegistered (send 0) source)
      (λ vs h.
        if-elim (Gives (Either send source)) (mem source vs) _ _ (λ t. inl (h t))
          (λ _. insert_choice-IsRegistered send source))
