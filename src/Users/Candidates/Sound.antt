-- ===== src/Users/Candidates/Sound.antt =====
-- Every id among the candidates is that of a user who has the value.
use mac_service_now_cmdb.Base.{
  String, ◌≡◌, refl, true, inl, inr, List, [], ◌∷◌, All, In, In-all, All-append, Option-cases,
  if-elim,
}
use mac_service_now_cmdb.Text.{lower}
use mac_service_now_cmdb.Dict.{lookup}
use mac_service_now_cmdb.Dict.Laws.{insert-All, lookup-All}
use mac_service_now_cmdb.Json.Value.{Value}
use mac_service_now_cmdb.Errors.{ok}
use mac_service_now_cmdb.Errors.Gives.{Gives, Gives-bind, Gives-self}
use mac_service_now_cmdb.Models.People.{EntraUser}
use mac_service_now_cmdb.Query.{is_query_safe}
use mac_service_now_cmdb.Users.Candidates.{
  Candidate, Candidates, candidate_values, values_for, stripped, add_candidate, add_value,
  add_values, add_users, joined,
}

-- The value folds one of the texts that the user has for the key.
pub record Has (key : String) (u : EntraUser) (value : String) : Type 0 where
  pub raws : List Value
  pub listed : values_for key u ≡ ok raws
  pub raw : Value
  pub is_raw : In raw raws
  pub text : String
  pub stripped_to : stripped raw ≡ ok text
  pub is_safe : is_query_safe text ≡ true
  pub folds : value ≡ lower text

-- One of the users has the id and the value.
pub record Named (key : String) (users : List EntraUser) (id value : String) : Type 0 where
  pub user : EntraUser
  pub is_user : In user users
  pub same_id : user.object_id ≡ id
  pub has_value : Has key user value

module _ (key : String) (users : List EntraUser) where
  abbrev pub OfUsers : String → Candidate → Type 0
  OfUsers value c = All (λ id. Named key users id value) c.object_ids

  abbrev pub Sound : Candidates → Type 0
  Sound = All (λ e. OfUsers e.0 e.1)

  add_candidate-Sound :
      (id text : String) (c : Candidates)
      → Named key users id (lower text)
      → Sound c
      → Sound (add_candidate id text c)
  unfolding add_candidate
  add_candidate-Sound id text c n h = elim (Option-cases (lookup (lower text) c)) [
    | inl e ↦
        rw (e, add_candidate)
          (insert-All OfUsers (lower text) (record { original = text; object_ids = id ∷ [] }) c
            (n, tt) h)
    | inr (found, e) ↦
        rw (e, add_candidate)
          (insert-All OfUsers (lower text) (joined id found) c
            (All-append (λ i. Named key users i (lower text)) found.object_ids (id ∷ [])
              (lookup-All OfUsers (lower text) found c h e) (n, tt))
            h)
  ]

  add_value-Sound :
      (u : EntraUser) (raws : List Value) (raw : Value) (text : String) (c : Candidates)
      → In u users
      → values_for key u ≡ ok raws
      → In raw raws
      → stripped raw ≡ ok text
      → Sound c
      → Sound (add_value u.object_id text c)
  unfolding add_value
  add_value-Sound u raws raw text c m l r s h =
      if-elim Sound (is_query_safe text) (add_candidate u.object_id text c) c
        (λ y.
          add_candidate-Sound u.object_id text c
            (record {
              user = u;
              is_user = m;
              same_id = refl;
              has_value = record {
                raws = raws;
                listed = l;
                raw = raw;
                is_raw = r;
                text = text;
                stripped_to = s;
                is_safe = y;
                folds = refl;
              };
            })
            h)
        (λ n. h)

  add_values-Sound :
      (u : EntraUser) (raws : List Value)
      → In u users
      → values_for key u ≡ ok raws
      → (rest : List Value) (c : Candidates) → All (λ raw. In raw raws) rest
      → Sound c
      → Gives Sound (add_values u.object_id rest c)
  unfolding add_values
  add_values-Sound u raws m l [] c r h = h
  add_values-Sound u raws m l (raw ∷ rest) c r h =
      Gives-bind (λ text. stripped raw ≡ ok text) Sound (stripped raw) _ (Gives-self (stripped raw))
        (λ text s.
          add_values-Sound u raws m l rest (add_value u.object_id text c) r.1
            (add_value-Sound u raws raw text c m l r.0 s h))

  add_users-Sound :
      (us : List EntraUser) (c : Candidates)
      → All (λ u. In u users) us
      → Sound c
      → Gives Sound (add_users key us c)
  unfolding add_users
  add_users-Sound [] c m h = h
  add_users-Sound (u ∷ us) c m h =
      Gives-bind (λ raws. values_for key u ≡ ok raws) Sound (values_for key u) _
        (Gives-self (values_for key u))
        (λ raws l.
          Gives-bind Sound Sound (add_values u.object_id raws c) _
            (add_values-Sound u raws m.0 l raws c (In-all _ raws (λ x i. i)) h)
            (λ c' h'. add_users-Sound us c' m.1 h'))

  pub candidate_values-Sound : Gives Sound (candidate_values key users)
  candidate_values-Sound = add_users-Sound users [] (In-all _ users (λ u m. m)) tt
