-- ===== src/References/Device/Linked.antt =====
-- What devices are linked to is never empty.
use mac_service_now_cmdb.Base.{String, Option, none, some, List, [], ◌++◌, map, not, ◌&&◌, if-elim}
use mac_service_now_cmdb.Text.{truthy}
use mac_service_now_cmdb.Dict.{Dict, insert, mem}
use mac_service_now_cmdb.Query.{usable_values}
use mac_service_now_cmdb.Client.{Send}
use mac_service_now_cmdb.References.Lookup.{company_table, model_table, alias, folded, look_up}
use mac_service_now_cmdb.References.Names.{Resolved, resolve, text_or_empty}
use mac_service_now_cmdb.Errors.Gives.{Gives, Gives-bind}
use mac_service_now_cmdb.References.Ids.{
  Ids, look_up-Ids, Ids-update, Ids-insert, IsResolved, resolve-IsResolved,
}
use mac_service_now_cmdb.References.Device.{
  Settings, Resolver, prime, aliased, linked, is_some, model_extra, resolve_manufacturer,
  retry_model, true_text, before_model, after_model, resolve_model, references_for,
}
use mac_service_now_cmdb.References.Device.Guarded.{resolve_manufacturer-IsResolved}

-- No cache of a resolver holds an empty sys_id.
abbrev pub HasIds : Resolver → Type 0
HasIds r = Ids r.manufacturers.cache × Ids r.models.cache

-- Nothing empty is linked, and the caches hold nothing empty.
abbrev pub IsLinked : Dict String × Resolver → Type 0
IsLinked o = Ids o.0 × HasIds o.1

linked-Ids : (key : String) (id : Option String) (d : Dict String) → Ids d → Ids (linked key id d)
linked-Ids key none d h = h
linked-Ids key (some id) d h =
    if-elim Ids (truthy id) (insert key id d) d (λ y. Ids-insert key id d y h) (λ n. h)

retry_model-HasIds : (key : String) (r : Resolver) → HasIds r → HasIds (retry_model key r)
unfolding retry_model
retry_model-HasIds key r h = if-elim HasIds (mem key r.awaiting) _ r (λ y. h) (λ n. h)

before_model-HasIds :
    (cfg : Settings) (key : String) (c : Resolved) (r : Resolver)
    → Ids c.names.cache
    → HasIds r
    → HasIds (before_model cfg key c r)
unfolding before_model
before_model-HasIds cfg key c r hc h =
    let r' : Resolver = record r {
      manufacturers = c.names;
      blank_creations = r.blank_creations ++ c.blank;
    } in
    if-elim HasIds (cfg.create_models && truthy key && true_text c.sys_id) (retry_model key r') r'
      (λ y. retry_model-HasIds key r' (hc, h.1)) (λ n. (hc, h.1))

module _ (cfg : Settings) (send : Send) (r : Resolver) where
  resolve_model-IsLinked :
      (model : Option String) (c : Resolved)
      → IsResolved c
      → HasIds r
      → Gives IsLinked (resolve_model cfg send model c r)
  unfolding resolve_model after_model
  resolve_model-IsLinked model c hc h =
      let r' = before_model cfg (folded (text_or_empty model)) c r in
      let h' = before_model-HasIds cfg (folded (text_or_empty model)) c r hc.1 h in
      let found =
        resolve (cfg.create_models && is_some c.sys_id && not cfg.dry_run) send model_table
          (model_extra c.sys_id) model r'.models in
      Gives-bind IsResolved IsLinked found _
        (resolve-IsResolved (cfg.create_models && is_some c.sys_id && not cfg.dry_run) send
          model_table (model_extra c.sys_id) model r'.models h'.1)
        (λ m hm. (
          linked-Ids "model_id" m.sys_id (linked "manufacturer" c.sys_id [])
              (linked-Ids "manufacturer" c.sys_id [] tt),
          (h'.0, hm.1),
        ))

  -- From caches without an empty sys_id and whatever the service answers, no device is linked to an
  -- empty sys_id, and the caches keep none.
  pub references_for-IsLinked :
      (manufacturer model : Option String)
      → HasIds r
      → Gives IsLinked (references_for cfg send manufacturer model r)
  unfolding references_for
  references_for-IsLinked manufacturer model h =
      Gives-bind IsResolved IsLinked (resolve_manufacturer cfg send manufacturer r) _
        (resolve_manufacturer-IsResolved cfg send send manufacturer model r h.0)
        (λ c hc. resolve_model-IsLinked (aliased cfg.model_aliases model) c hc h)

  -- Priming adds no empty sys_id to caches that hold none.
  pub prime-HasIds :
      (manufacturers models : List String)
      → HasIds r
      → Gives HasIds (prime cfg send manufacturers models r)
  unfolding prime
  prime-HasIds manufacturers models h =
      let companies = usable_values (map (alias cfg.manufacturer_aliases) manufacturers) in
      let names = usable_values (map (alias cfg.model_aliases) models) in
      Gives-bind Ids HasIds (look_up send company_table companies) _
        (look_up-Ids send company_table companies)
        (λ found hc.
          Gives-bind Ids HasIds (look_up send model_table names) _
            (look_up-Ids send model_table names)
            (λ found' hm. (
              Ids-update r.manufacturers.cache found h.0 hc,
              Ids-update r.models.cache found' h.1 hm,
            )))
