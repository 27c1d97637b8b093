-- ===== src/References/Device.antt =====
-- `prime` and `references_for`
pub mod Guarded
pub mod Linked
use Prim.Native.String
use mac_service_now_cmdb.Base.{
  is_some, ℕ, zero, suc, ◌+◌, ◌*◌, String, Bool, true, false, Option, none, some, List, [], ◌∷◌,
  ◌++◌, map, ◌&&◌, ◌||◌, not, ◌==◌, length, keep, if◌then◌else◌,
}
use mac_service_now_cmdb.Text.{truthy, strip, lower, join}
use mac_service_now_cmdb.Dict.{Dict, lookup, insert, setdefault, update, mem}
use mac_service_now_cmdb.Json.Value.{Value, str, obj, of_dict, get, get_or_empty, is_true}
use mac_service_now_cmdb.Json.Show.{show, repr}
use mac_service_now_cmdb.Errors.{Error, service_now, Result, ok, err, ◌>>=◌}
use mac_service_now_cmdb.Client.{
  Request, Send, entries_of, or_empty, request_json, table_path, query_table, result_of,
}
use mac_service_now_cmdb.Query.{usable_values, build_or_query, chunked}
use mac_service_now_cmdb.References.Lookup.{
  company_table, model_table, folded, fold, alias, look_up,
}
use mac_service_now_cmdb.References.Names.{Names, no_names, add, Resolved, resolve, text_or_empty}

pub record Settings : Type 0 where
  pub create_manufacturers : Bool
  pub create_models : Bool
  pub dry_run : Bool
  pub manufacturer_aliases : Dict String
  pub model_aliases : Dict String

pub record Resolver : Type 0 where
  pub manufacturers : Names
  pub models : Names
  pub awaiting : List String
  pub blank_creations : List String

abbrev pub new_resolver : Resolver
new_resolver = record {
  manufacturers = no_names;
  models = no_names;
  awaiting = [];
  blank_creations = [];
}

-- `prime`
unfoldable pub prime : Settings → Send → List String → List String → Resolver → Result Resolver
unfolding alias look_up
prime cfg send manufacturers models r =
    look_up send company_table (usable_values (map (alias cfg.manufacturer_aliases) manufacturers))
    >>= λ companies.
        look_up send model_table (usable_values (map (alias cfg.model_aliases) models)) >>= λ found.
        ok (record r {
          manufacturers = record (r.manufacturers) {
            cache = update r.manufacturers.cache companies;
          };
          models = record (r.models) { cache = update r.models.cache found };
        })

-- `if name: name = _alias(...)`
abbrev pub aliased : Dict String → Option String → Option String
aliased aliases none = none
aliased aliases (some s) = if truthy s then some (alias aliases s) else some s

-- `_retry_model_awaiting_manufacturer`
unfoldable pub retry_model : String → Resolver → Resolver
retry_model key r =
    if mem key r.awaiting
    then record r {
      awaiting = keep (λ m. not (m == key)) r.awaiting;
      models = record (r.models) { missing = keep (λ m. not (lower m == key)) r.models.missing };
    }
    else r

abbrev true_text : Option String → Bool
true_text none = false
true_text (some s) = truthy s

-- `out[key] = sys_id` if there is one
abbrev pub linked : String → Option String → Dict String → Dict String
linked key none d = d
linked key (some id) d = if truthy id then insert key id d else d

abbrev model_extra : Option String → Dict Value
model_extra none = []
model_extra (some id) = if truthy id then ("manufacturer", str id) ∷ [] else []

-- The manufacturer of a device
unfoldable pub resolve_manufacturer : Settings → Send → Option String → Resolver → Result Resolved
unfolding resolve
resolve_manufacturer cfg send manufacturer r =
    resolve (cfg.create_manufacturers && not cfg.dry_run) send company_table
      (("manufacturer", str "true") ∷ []) (aliased cfg.manufacturer_aliases manufacturer)
      r.manufacturers

-- The resolver after the manufacturer, before the model.
unfoldable pub before_model : Settings → String → Resolved → Resolver → Resolver
unfolding retry_model
before_model cfg key company r =
    let r' : Resolver = record r {
      manufacturers = company.names;
      blank_creations = r.blank_creations ++ company.blank;
    } in
    if cfg.create_models && truthy key && true_text company.sys_id then retry_model key r' else r'

unfoldable pub awaits : Settings → String → Resolved → Resolved → Resolver → Bool
awaits cfg key company model r =
    not (true_text model.sys_id)
    && truthy key
    && cfg.create_models
    && not (true_text company.sys_id)
    && not (mem key (map lower r.models.missing))

-- What a device gets, and the resolver after its model.
after_model : Settings → String → Resolved → Resolver → Resolved → Dict String × Resolver
unfolding awaits
after_model cfg key company r model = (
  linked "model_id" model.sys_id (linked "manufacturer" company.sys_id []),
  record r {
    models = model.names;
    blank_creations = r.blank_creations ++ model.blank;
    awaiting = if awaits cfg key company model r then add key r.awaiting else r.awaiting;
  },
)

resolve_model :
    Settings → Send → Option String → Resolved → Resolver → Result (Dict String × Resolver)
unfolding before_model after_model
resolve_model cfg send model company r =
    let key = folded (text_or_empty model) in
    let r' = before_model cfg key company r in
    resolve (cfg.create_models && is_some company.sys_id && not cfg.dry_run) send model_table
      (model_extra company.sys_id) model r'.models
    >>= λ m. ok (after_model cfg key company r' m)

-- `references_for`
unfoldable pub references_for :
    Settings → Send → Option String → Option String → Resolver → Result (Dict String × Resolver)
unfolding resolve_manufacturer resolve_model
references_for cfg send manufacturer model r =
    resolve_manufacturer cfg send manufacturer r >>= λ company.
    resolve_model cfg send (aliased cfg.model_aliases model) company r
