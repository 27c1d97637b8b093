-- ===== src/Graph/Attributes/Unique.antt =====
-- Outputs are read of the one script that is wanted, and of successful runs only.
use mac_service_now_cmdb.Base.{
  ℕ, String, ◌≡◌, refl, ap, ◌∙◌, true, Option, none, some, List, [], ◌∷◌, not, ◌&&◌, All, In,
  In-all, some-injective, if-elim, arith,
}
use mac_service_now_cmdb.Text.{truthy, lower, strip}
use mac_service_now_cmdb.Dict.{Dict}
use mac_service_now_cmdb.Dict.Laws.{insert-All}
use mac_service_now_cmdb.Json.Value.{Value, get, is_true}
use mac_service_now_cmdb.Json.Show.{show}
use mac_service_now_cmdb.Errors.{Result, ok, err, ◌>>=◌}
use mac_service_now_cmdb.Errors.Gives.{Gives, Gives-bind, Gives-self, Gives-map, returned}
use mac_service_now_cmdb.Client.{Send, entries_of, or_empty}
use mac_service_now_cmdb.Graph.Attributes.{
  Script, matches_of, only, output_of, succeeded, read_state, read_states, id_of, ◌>=>◌, states_of,
  scripts, get_custom_attribute_values,
}

-- One of the run states is of a run that succeeded on the device and printed the output.
pub record IsOutput (states : List Value) (id output : String) : Type 0 where
  pub item : Value
  pub is_state : In item states
  pub state : Script
  pub entries : entries_of item ≡ ok state
  pub success : succeeded state ≡ true
  pub device : Dict Value
  pub of_device : or_empty (get "managedDevice" state) ≡ ok device
  pub same_id : show (get "id" device) ≡ id
  pub printed : output_of state ≡ output
  pub is_text : truthy output ≡ true

module _ (states : List Value) where
  abbrev pub Outputs : Dict String → Type 0
  Outputs = All (λ e. IsOutput states e.0 e.1)

  read_state-Outputs :
      (v : Value) (values : Dict String)
      → In v states
      → Outputs values
      → Gives Outputs (read_state v values)
  unfolding read_state
  read_state-Outputs v values m h =
      Gives-bind (λ state. entries_of v ≡ ok state) Outputs (entries_of v) _
        (Gives-self (entries_of v))
        (λ state e.
          if-elim (Gives Outputs) (not (succeeded state)) (ok values) _ (λ y. h)
            (λ s.
              let d = or_empty (get "managedDevice" state) in
              Gives-bind (λ device. d ≡ ok device) Outputs d _ (Gives-self d)
                (λ device o.
                  if-elim Outputs (is_true (get "id" device) && truthy (output_of state)) _ values
                    (λ t.
                      insert-All (IsOutput states) (show (get "id" device)) (output_of state) values
                        (record {
                          item = v;
                          is_state = m;
                          state = state;
                          entries = e;
                          success = ground (arith, s);
                          device = device;
                          of_device = o;
                          same_id = refl;
                          printed = refl;
                          is_text = ground (arith, t);
                        })
                        h)
                    (λ n. h))))

  read_states-Outputs :
      (vs : List Value) (values : Dict String)
      → All (λ v. In v states) vs
      → Outputs values
      → Gives Outputs (read_states vs values)
  unfolding read_states
  read_states-Outputs [] values m h = h
  read_states-Outputs (v ∷ vs) values m h =
      Gives-bind Outputs Outputs (read_state v values) _ (read_state-Outputs v values m.0 h)
        (λ values' h'. read_states-Outputs vs values' m.1 h')

abbrev pub Yields : {A : Type 0} → (A → Type 0) → Option (Result A) → Type 0
Yields P none = Unit
Yields P (some r) = Gives P r

Yields-bind :
    {A B : Type 0} (Q : B → Type 0) (r : Option (Result A)) (f : A → Option (Result B))
    → ((a : A) → r ≡ some (ok a) → Yields Q (f a))
    → Yields Q (r >=> f)
Yields-bind Q none f g = tt
Yields-bind Q (some (ok a)) f g = g a refl
Yields-bind Q (some (err e)) f g = tt

only-alone : (attribute : String) (ss : List Script) → Gives (λ s. ss ≡ s ∷ []) (only attribute ss)
unfolding only
only-alone attribute [] = tt
only-alone attribute (s ∷ []) = refl
only-alone attribute (s ∷ t ∷ rest) = tt

-- The outputs are those of successful runs of the one script that is wanted.
pub record IsRead (pages : ℕ) (send : Send) (beta_base attribute : String) (values : Dict String)
    : Type 0 where
  pub listed : List Value
  pub are_scripts : scripts pages send beta_base ≡ some (ok listed)
  pub script : Script
  pub alone : matches_of (lower (strip attribute)) listed ≡ ok (script ∷ [])
  pub script_id : String
  pub has_id : id_of script ≡ ok script_id
  pub states : List Value
  pub are_states : states_of pages send beta_base attribute script_id ≡ some (ok states)
  pub outputs : Outputs states values

-- The script that has the id, if it is the only one that is wanted.
abbrev Chosen : String → List Value → String → Type 0
Chosen attribute listed id =
    (s : Script) × (matches_of (lower (strip attribute)) listed ≡ ok (s ∷ [])) × (id_of s ≡ ok id)

choose :
    (attribute : String) (listed : List Value)
    → Gives
        (Chosen attribute listed)
        (matches_of (lower (strip attribute)) listed >>= only attribute >>= id_of)
choose attribute listed =
    let m = matches_of (lower (strip attribute)) listed in
    Gives-bind (λ s. m ≡ ok (s ∷ [])) (Chosen attribute listed) (m >>= only attribute) id_of
      (Gives-bind (λ ss. m ≡ ok ss) (λ s. m ≡ ok (s ∷ [])) m (only attribute) (Gives-self m)
        (λ ss e.
          Gives-map (λ s. ss ≡ s ∷ []) (λ s. m ≡ ok (s ∷ [])) (only attribute ss)
            (λ s a. e ∙ ap ok a) (only-alone attribute ss)))
      (λ s e.
        Gives-map (λ id. id_of s ≡ ok id) (Chosen attribute listed) (id_of s) (λ id i. (s, e, i))
          (Gives-self (id_of s)))

module _ (pages : ℕ) (send : Send) (beta_base attribute : String) where
  -- Values that are read of a custom attribute are of exactly one script, that whose id, name or
  -- display name is the wanted one: each was printed by a run of it that succeeded on the device.
  pub get_custom_attribute_values-IsRead :
      Yields
        (IsRead pages send beta_base attribute)
        (get_custom_attribute_values pages send beta_base attribute)
  unfolding get_custom_attribute_values
  get_custom_attribute_values-IsRead =
      Yields-bind (IsRead pages send beta_base attribute) (scripts pages send beta_base) _
        (λ listed l.
          Yields-bind (IsRead pages send beta_base attribute)
            (some (matches_of (lower (strip attribute)) listed >>= only attribute >>= id_of)) _
            (λ id c.
              let chosen =
                returned (Chosen attribute listed) _ id (choose attribute listed)
                  (some-injective c) in
              Yields-bind (IsRead pages send beta_base attribute)
                (states_of pages send beta_base attribute id) _
                (λ states s.
                  Gives-map (Outputs states) (IsRead pages send beta_base attribute)
                    (read_states states [])
                    (λ values o. record {
                      listed = listed;
                      are_scripts = l;
                      script = chosen.0;
                      alone = chosen.1;
                      script_id = id;
                      has_id = chosen.2;
                      states = states;
                      are_states = s;
                      outputs = o;
                    })
                    (read_states-Outputs states states [] (In-all _ states (λ v m. m)) tt))))
