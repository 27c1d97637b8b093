-- ===== src/Witnesses/Fields.antt =====
-- Concrete runs of the mapping of a device and of its references.
use mac_service_now_cmdb.Base.{
  String, ◌≡◌, refl, true, false, Option, none, some, List, [], ◌∷◌, if◌then◌else◌,
}
use mac_service_now_cmdb.Text.{lower, strip, collapse}
use mac_service_now_cmdb.Dict.{Dict, lookup, mem}
use mac_service_now_cmdb.Json.Value.{pos, Value, int, str}
use mac_service_now_cmdb.Json.Number.{int_of}
use mac_service_now_cmdb.Errors.{Error, retryable, ok, err}
use mac_service_now_cmdb.Client.{Send}
use mac_service_now_cmdb.Mapping.Fields.{normalize_serial}
use mac_service_now_cmdb.Mapping.Fields.Stable.{IsSerial, normalize_serial-IsSerial}
use mac_service_now_cmdb.Mapping.Sizes.{as_int}
use mac_service_now_cmdb.Mapping.Values
use mac_service_now_cmdb.Mapping.Values.{User, own_values, build_values, is_kept}
use mac_service_now_cmdb.Mapping.Values.Written.{kept, first_of, build_values_lem}
use mac_service_now_cmdb.References.Device
use mac_service_now_cmdb.References.Device.{Resolver, new_resolver, references_for, prime}
use mac_service_now_cmdb.References.Device.Guarded.{Uncompanied, references_for-companyless}
use mac_service_now_cmdb.References.Device.Linked.{IsLinked, references_for-IsLinked}
use mac_service_now_cmdb.Errors.Gives.{Gives}
use mac_service_now_cmdb.References.Names.{
  Names, no_names, given_up, resolve, resolve_key, resolve_unknown,
}
use mac_service_now_cmdb.References.Names.Settled.{here, next, resolve-again}

abbrev blocklist : List String
blocklist = "to be filled by o.e.m." ∷ []

serial_accepted : normalize_serial (some "  C02  XYZ12 ") blocklist ≡ some "C02 XYZ12"
unfolding normalize_serial strip collapse mem lower
serial_accepted = refl

normalize_serial-IsSerial_example :
    IsSerial blocklist "C02 XYZ12"
    × (normalize_serial (some "C02 XYZ12") blocklist ≡ some "C02 XYZ12")
normalize_serial-IsSerial_example =
    normalize_serial-IsSerial "  C02  XYZ12 " "C02 XYZ12" blocklist serial_accepted

abbrev memory : Value
memory = int (pos 17179869184)

memory_read : as_int memory ≡ some 17179869184
unfolding as_int int_of
memory_read = refl

abbrev settings : Values.Settings
settings = record {
  serial_blocklist = blocklist;
  set_correlation = true;
  correlation_field = "correlation_id";
  assign_user = true;
  install_status_active = "1";
  os_names = [];
  extra_fields = ("u_compliance", "complianceState") ∷ [];
  static = ("location", str "HQ") ∷ [];
  drop = "ram" ∷ [];
}

abbrev no_date : Value → Option String
no_date v = none

abbrev laptop : Dict Value
laptop = ("deviceName", str "laptop") ∷ ("id", str "d1") ∷ []

abbrev own : Dict Value
own = own_values no_date settings laptop (some "u1") none []

build_values_lem_example :
    lookup "location" (build_values no_date settings laptop (some "u1") none []) ≡ (
      if mem "location" settings.drop
      then none
      else kept (first_of (lookup "location" settings.static) (lookup "location" own)))
unfolding lookup
build_values_lem_example =
    build_values_lem no_date settings laptop (some "u1") none [] "location" (refl, tt)

abbrev creating : Device.Settings
creating = record {
  create_manufacturers = false;
  create_models = true;
  dry_run = false;
  manufacturer_aliases = [];
  model_aliases = [];
}

abbrev down : Send
down q = err (retryable "503" 503 none)

abbrev refusing : Send
refusing q = err (Error.service_now "403")

apple_missing :
    resolve false down "core_company" [] (some "Apple") no_names
    ≡ ok (record { sys_id = none; names = given_up "Apple" no_names; blank = [] })
unfolding resolve resolve_key resolve_unknown lookup mem strip
apple_missing = refl

abbrev apple_and_dell : Names
apple_and_dell = given_up "Dell" (given_up "Apple" no_names)

dell_missing :
    resolve false down "core_company" [] (some "Dell") (given_up "Apple" no_names)
    ≡ ok (record { sys_id = none; names = apple_and_dell; blank = [] })
unfolding resolve resolve_key resolve_unknown lookup mem strip lower
dell_missing = refl

resolve-again_example :
    resolve true down "core_company" [] (some "Apple") apple_and_dell
    ≡ ok (record { sys_id = none; names = apple_and_dell; blank = [] })
resolve-again_example =
    resolve-again false true down down "core_company" "core_company" [] [] (some "Apple") no_names
      apple_and_dell (record { sys_id = none; names = given_up "Apple" no_names; blank = [] })
      apple_missing
      (next false down "core_company" [] (some "Dell")
        (record { sys_id = none; names = apple_and_dell; blank = [] }) here dell_missing)

references_for-companyless_example :
    Gives
      (Uncompanied creating refusing refusing (some "Apple") (some "Mac") new_resolver)
      (references_for creating refusing (some "Apple") (some "Mac") new_resolver)
references_for-companyless_example =
    references_for-companyless creating refusing refusing (some "Apple") (some "Mac") new_resolver
      tt (λ q e. refl)

references_for-IsLinked_example :
    Gives IsLinked (references_for creating refusing (some "Apple") (some "Mac") new_resolver)
references_for-IsLinked_example =
    references_for-IsLinked creating refusing new_resolver (some "Apple") (some "Mac") (tt, tt)
