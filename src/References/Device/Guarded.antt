-- ===== src/References/Device/Guarded.antt =====
-- When records are created for a device.
use mac_service_now_cmdb.Base.{
  is_some, String, ◌≡◌, ◌≢◌, refl, sym, ap, ◌∙◌, Bool, true, false, Option, none, some, ◌⊎◌, inl,
  inr, [], ◌∷◌, not, ◌&&◌, arith, if-elim,
}
use mathlib.Core.Path.{subst}
use mac_service_now_cmdb.Text.{truthy, strip}
use mac_service_now_cmdb.Dict.{Dict, lookup, insert}
use mac_service_now_cmdb.Dict.Laws.{unequal}
use mac_service_now_cmdb.Json.Value.{Value, str}
use mac_service_now_cmdb.Errors.{Result, ok, err, ◌>>=◌}
use mac_service_now_cmdb.Client.{Request, Send, table_path, request_json}
use mac_service_now_cmdb.References.Lookup.{company_table, model_table, folded}
use mac_service_now_cmdb.References.Names.{
  Names, create_record, create_request, Resolved, resolve_unknown, resolve_key, resolve,
  text_or_empty,
}
use mac_service_now_cmdb.Errors.Gives.{Gives, Gives-any, Gives-bind}
use mac_service_now_cmdb.References.Ids.{Ids, IsId, IsResolved, resolve-IsResolved}
use mac_service_now_cmdb.References.Device.{
  Settings, Resolver, aliased, linked, model_extra, resolve_manufacturer, before_model, after_model,
  resolve_model, references_for,
}

-- What may not create asks nothing.
resolve-idle :
    (create : Bool) (send send' : Send) (table : String) (extra : Dict Value) (name : Option String)
    (n : Names)
    → create ≡ false
    → resolve create send table extra name n ≡ resolve create send' table extra name n
unfolding resolve resolve_key resolve_unknown
resolve-idle true send send' table extra name n h = absurd (cc)
resolve-idle false send send' table extra name n h = refl

module _ (send send' : Send) (table : String)
    (same : (q : Request) → q.path ≡ table_path table → send q ≡ send' q) where
  create_record-same :
      (name : String) (extra : Dict Value)
      → create_record send table name extra ≡ create_record send' table name extra
  unfolding create_record request_json
  create_record-same name extra = rw (same (create_request table name extra) refl) refl

  resolve_unknown-same :
      (create : Bool) (extra : Dict Value) (key : String) (n : Names)
      → resolve_unknown create send table extra key n
        ≡ resolve_unknown create send' table extra key n
  unfolding resolve_unknown
  resolve_unknown-same create extra key n = rw (create_record-same key extra) refl

  -- The clients agree on what a create asks.
  resolve-same :
      (create : Bool) (extra : Dict Value) (name : Option String) (n : Names)
      → resolve create send table extra name n ≡ resolve create send' table extra name n
  unfolding resolve resolve_key
  resolve-same create extra name n =
      rw (resolve_unknown-same create extra (strip (text_or_empty name)) n) refl

module _ (cfg : Settings) (send send' : Send) (model : Option String) (r : Resolver) where
  no_model :
      (company : Resolved)
      → (cfg.create_models && is_some company.sys_id && not cfg.dry_run) ≡ false
      → resolve_model cfg send model company r ≡ resolve_model cfg send' model company r
  unfolding resolve_model
  no_model company h =
      rw
        (resolve-idle (cfg.create_models && is_some company.sys_id && not cfg.dry_run) send send'
          model_table (model_extra company.sys_id) model
          (before_model cfg (folded (text_or_empty model)) company r).models h)
        refl

  no_manufacturer :
      (manufacturer : Option String)
      → (cfg.create_manufacturers && not cfg.dry_run) ≡ false
      → resolve_manufacturer cfg send manufacturer r ≡ resolve_manufacturer cfg send' manufacturer r
  unfolding resolve_manufacturer
  no_manufacturer manufacturer h =
      resolve-idle (cfg.create_manufacturers && not cfg.dry_run) send send' company_table
        (("manufacturer", str "true") ∷ []) (aliased cfg.manufacturer_aliases manufacturer)
        r.manufacturers h

bind-cong :
    {A B : Type 0} (x : Result A) (f g : A → Result B)
    → ((a : A) → f a ≡ g a)
    → (x >>= f) ≡ (x >>= g)
bind-cong (ok a) f g h = h a
bind-cong (err e) f g h = refl

and_middle : (a b c : Bool) → (a && c) ≡ false → (a && b && c) ≡ false
and_middle true true c h = h
and_middle true false c h = refl
and_middle false b c h = refl

and_dry : (a b : Bool) → (b ≡ true) ⊎ (a ≡ false) → (a && not b) ≡ false
and_dry a b h = ground arith

and_off : (a b c : Bool) → b ≡ false → (a && b && c) ≡ false
and_off a b c h = ground arith

Gives-eq : {A : Type 0} (P : A → Type 0) (x y : Result A) → x ≡ y → Gives (λ o. P o → y ≡ ok o) x
Gives-eq P (ok a) y e = λ p. sym e
Gives-eq P (err x) y e = tt

has_manufacturer :
    (m : Option String) (id : String)
    → truthy id ≡ true
    → lookup "manufacturer" (linked "model_id" m (linked "manufacturer" (some id) [])) ≡ some id
unfolding lookup insert
has_manufacturer none id t = rw t refl
has_manufacturer (some j) id t =
    rw t (if-elim (λ d. lookup "manufacturer" d ≡ some id) (truthy j) _ _ (λ y. refl) (λ n. refl))

module _ (cfg : Settings) (send send' : Send) (manufacturer model : Option String)
    (r : Resolver) where
  idle :
      (cfg.create_manufacturers && not cfg.dry_run) ≡ false
      → (cfg.create_models && not cfg.dry_run) ≡ false
      → references_for cfg send manufacturer model r ≡ references_for cfg send' manufacturer model r
  unfolding references_for
  idle c m =
      let model' = aliased cfg.model_aliases model in
      rw (no_manufacturer cfg send send' model r manufacturer c) (
        bind-cong (resolve_manufacturer cfg send' manufacturer r)
          (λ company. resolve_model cfg send model' company r)
          (λ company. resolve_model cfg send' model' company r)
          (λ company.
            no_model cfg send send' model' r company
              (and_middle cfg.create_models (is_some company.sys_id) (not cfg.dry_run) m)))

  -- In a dry run, and where no kind of record may be created, a device gets its references without
  -- any request: they do not depend on the service.
  references_for-idle :
      (cfg.dry_run ≡ true) ⊎ ((cfg.create_manufacturers ≡ false) × (cfg.create_models ≡ false))
      → references_for cfg send manufacturer model r ≡ references_for cfg send' manufacturer model r
  references_for-idle (inl d) =
      idle (and_dry cfg.create_manufacturers cfg.dry_run (inl d))
        (and_dry cfg.create_models cfg.dry_run (inl d))
  references_for-idle (inr (c, m)) =
      idle (and_dry cfg.create_manufacturers cfg.dry_run (inr c))
        (and_dry cfg.create_models cfg.dry_run (inr m))

  abbrev pub Uncompanied : Dict String × Resolver → Type 0
  Uncompanied o =
      lookup "manufacturer" o.0 ≡ none → references_for cfg send' manufacturer model r ≡ ok o

  abbrev model_with : Send → Resolved → Result (Dict String × Resolver)
  model_with s company = resolve_model cfg s (aliased cfg.model_aliases model) company r

  model_step :
      (company : Resolved) (id : Option String)
      → company.sys_id ≡ id
      → IsId id
      → Gives
          (λ o. lookup "manufacturer" o.0 ≡ none → model_with send' company ≡ ok o)
          (model_with send company)
  unfolding resolve_model after_model
  model_step company none e h =
      Gives-eq (λ o. lookup "manufacturer" o.0 ≡ none) (model_with send company)
        (model_with send' company)
        (no_model cfg send send' (aliased cfg.model_aliases model) r company
          (and_off cfg.create_models (is_some company.sys_id) (not cfg.dry_run) (ap is_some e)))
  model_step company (some id) e h =
      let model' = aliased cfg.model_aliases model in
      let found =
        resolve (cfg.create_models && is_some company.sys_id && not cfg.dry_run) send model_table
          (model_extra company.sys_id) model'
          (before_model cfg (folded (text_or_empty model')) company r).models in
      Gives-bind (λ m. Unit {0})
        (λ o. lookup "manufacturer" o.0 ≡ none → model_with send' company ≡ ok o) found _
        (Gives-any found)
        (λ m u l.
          let clash : none ≡ some id =
            sym l
            ∙ ap
                (λ c.
                  lookup "manufacturer" (linked "model_id" m.sys_id (linked "manufacturer" c [])))
                e
            ∙ has_manufacturer m.sys_id id h in
          absurd (cc))

  companied :
      (x : Result Resolved)
      → Gives IsResolved x
      → Gives
          (λ o. lookup "manufacturer" o.0 ≡ none → (x >>= model_with send') ≡ ok o)
          (x >>= model_with send)
  companied (ok company) g = model_step company company.sys_id refl g.0
  companied (err e) g = tt

  same_company :
      ((q : Request) → q.path ≢ table_path model_table → send q ≡ send' q)
      → resolve_manufacturer cfg send manufacturer r ≡ resolve_manufacturer cfg send' manufacturer r
  unfolding resolve_manufacturer
  same_company same =
      resolve-same send send' company_table
        (λ q e.
          same q
            (λ f. unequal (table_path company_table) (table_path model_table) refl (sym e ∙ f)))
        (cfg.create_manufacturers && not cfg.dry_run) (("manufacturer", str "true") ∷ [])
        (aliased cfg.manufacturer_aliases manufacturer) r.manufacturers

  pub resolve_manufacturer-IsResolved :
      Ids r.manufacturers.cache → Gives IsResolved (resolve_manufacturer cfg send manufacturer r)
  unfolding resolve_manufacturer
  resolve_manufacturer-IsResolved h =
      resolve-IsResolved (cfg.create_manufacturers && not cfg.dry_run) send company_table
        (("manufacturer", str "true") ∷ []) (aliased cfg.manufacturer_aliases manufacturer)
        r.manufacturers h

  -- A device without a manufacturer has no model created for it: with the ids of the cache not empty,
  -- its references do not depend on what the service answers at the table of models.
  pub references_for-companyless :
      Ids r.manufacturers.cache
      → ((q : Request) → q.path ≢ table_path model_table → send q ≡ send' q)
      → Gives Uncompanied (references_for cfg send manufacturer model r)
  unfolding references_for
  references_for-companyless h same =
      subst
        (λ x.
          Gives (λ o. lookup "manufacturer" o.0 ≡ none → (x >>= model_with send') ≡ ok o)
            (references_for cfg send manufacturer model r))
        (same_company same)
        (companied (resolve_manufacturer cfg send manufacturer r)
          (resolve_manufacturer-IsResolved h))
