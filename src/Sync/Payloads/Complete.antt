-- ===== src/Sync/Payloads/Complete.antt =====
-- No device is lost: each is reported as skipped or waits as a payload.
use mathlib.Core.Path.{subst}
use mac_service_now_cmdb.Base.{
  true, ℕ, ◌+◌, String, ◌≡◌, refl, sym, ap, ◌∙◌, Option, none, some, List, [], ◌∷◌, ◌++◌,
  All-append, if-elim, append_nothing, append-append,
}
use mac_service_now_cmdb.Text.{truthy}
use mac_service_now_cmdb.Dict.{Dict, insert}
use mac_service_now_cmdb.Dict.Laws.{lookup-insert_self}
use mac_service_now_cmdb.Json.Value.{Value, get}
use mac_service_now_cmdb.Models.{DeviceOutcome, RunReport, record_outcome}
use mac_service_now_cmdb.Models.Accounts.{
  IsAccounted, record_outcome-IsAccounted, outcomes-record_outcome,
}
use mac_service_now_cmdb.Client.{Send}
use mac_service_now_cmdb.Mapping.Fields.{resolve_class_name, text_or_none}
use mac_service_now_cmdb.Mapping.Values.{User, build_values}
use mac_service_now_cmdb.References.Device.{Resolver, references_for}
use mac_service_now_cmdb.Errors.Gives.{Gives, Gives-any, Gives-bind, Gives-map}
use mac_service_now_cmdb.Sync.Collect.{Device}
use mac_service_now_cmdb.Models.People.{SysUserRef}
use mac_service_now_cmdb.Sync.Payloads.{
  Settings, Built, device_id, device_name, skipped, without_id, without_class, without_name, owned,
  owner_of, person_of, sys_id_of, payload_of, identified, add_values, add_classed, add_class,
  fresh_outcome, add_device, add_devices, build_payloads,
}
use mac_service_now_cmdb.Sync.Payloads.Sorted.{
  Sorts, all_sorted, skip, queue, Sorts-append, Pending, Waiting, Waiting-insert,
}
use mac_service_now_cmdb.Writers.Types.{CiPayload}

-- From one to the other, these devices are accounted for.
pub record Covers (ds : List Device) (b b' : Built) : Type 0 where
  pub skipped_ones : List DeviceOutcome
  pub queued : List CiPayload
  pub listed : b'.report.outcomes ≡ b.report.outcomes ++ skipped_ones
  pub payloads : b'.payloads ≡ b.payloads ++ queued
  pub sorts : Sorts ds skipped_ones queued
  pub waiting : Waiting b.outcomes b.payloads → Waiting b'.outcomes b'.payloads
  pub accounted : IsAccounted b.report → IsAccounted b'.report

-- A report that differs only in what the outcomes do not count.
abbrev Counts : RunReport → RunReport → Type 0
Counts r r' = (r'.outcomes ≡ r.outcomes) × (IsAccounted r → IsAccounted r')

-- The outcome of this device, before anything is known of it
pub record IsNew (d : Device) (o : DeviceOutcome) : Type 0 where
  pub device : o.intune_id ≡ device_id d
  pub name : o.device_name ≡ device_name d
  pub action : o.action ≡ "pending"

owned-IsNew :
    (d : Device) (u : Option SysUserRef) (o : DeviceOutcome) → IsNew d o → IsNew d (owned u o)
owned-IsNew d none o h = h
owned-IsNew d (some u) o h = record { device = h.device; name = h.name; action = h.action }

skip-Covers :
    (d : Device) (m : String) (o : DeviceOutcome) (b b' : Built) (r : RunReport)
    → IsNew d o
    → Counts b.report r
    → b'.report ≡ record_outcome (skipped m o) r
    → b'.payloads ≡ b.payloads
    → b'.outcomes ≡ b.outcomes
    → Covers (d ∷ []) b b'
skip-Covers d m o b b' r n c er ep eo = record {
  skipped_ones = skipped m o ∷ [];
  queued = [];
  listed =
      ap (λ x. x.outcomes) er
      ∙ outcomes-record_outcome (skipped m o) r
      ∙ ap (λ l. l ++ skipped m o ∷ []) c.0;
  payloads = ep ∙ sym (append_nothing b.payloads);
  sorts =
      skip (record { device = n.device; name = n.name; action = refl; reason = (m, refl) })
        all_sorted;
  waiting = λ w. rw (eo, ep) w;
  accounted = λ a. rw er (record_outcome-IsAccounted (skipped m o) r (c.1 a));
}

module _ (to_snow_datetime : Value → Option String) (run_time : String) (cfg : Settings)
    (send : Send) (sys_users : Dict (Option SysUserRef)) (users : Dict User) where
  recount :
      (r : RunReport) (n m : ℕ)
      → Counts r (record r { devices_skipped_no_identifier = n; devices_skipped_no_class = m })
  recount r n m = (
    refl,
    λ a. record {
      inserted = a.inserted;
      updated = a.updated;
      unchanged = a.unchanged;
      errors = a.errors;
      samples = a.samples;
    },
  )

  module _ (d : Device) (b : Built) where
    without_id-Covers : (o : DeviceOutcome) → IsNew d o → Covers (d ∷ []) b (without_id o b)
    without_id-Covers o n =
        skip-Covers d "device has no Intune id" o b (without_id o b) _ n
          (recount b.report (b.report.devices_skipped_no_identifier + 1)
            b.report.devices_skipped_no_class)
          refl refl refl

    without_class-Covers : (o : DeviceOutcome) → IsNew d o → Covers (d ∷ []) b (without_class d o b)
    without_class-Covers o n =
        skip-Covers d _ o b (without_class d o b) _ n
          (recount b.report b.report.devices_skipped_no_identifier
            (b.report.devices_skipped_no_class + 1))
          refl refl refl

    without_name-Covers :
        (r : Resolver) (o : DeviceOutcome) → IsNew d o → Covers (d ∷ []) b (without_name r o b)
    without_name-Covers r o n =
        skip-Covers d "no usable serial number or device name to identify the CI" o b
          (without_name r o b) _ n
          (recount b.report (b.report.devices_skipped_no_identifier + 1)
            b.report.devices_skipped_no_class)
          refl refl refl

    abbrev payload : String → Dict Value → CiPayload
    payload = payload_of to_snow_datetime run_time cfg send sys_users users d

    queued-Covers :
        (c : String) (o : DeviceOutcome) (values : Dict Value) (r : Resolver)
        → truthy (device_id d) ≡ true
        → IsNew d o
        → Covers (d ∷ []) b (record {
          payloads = b.payloads ++ payload c values ∷ [];
          outcomes = insert (device_id d) o b.outcomes;
          report = b.report;
          resolver = r;
        })
    queued-Covers c o values r t n = record {
      skipped_ones = [];
      queued = payload c values ∷ [];
      listed = sym (append_nothing b.report.outcomes);
      payloads = refl;
      sorts = queue (record { has_id = t; device = refl; name = refl }) all_sorted;
      waiting = λ w.
          All-append (λ p. Pending (insert (device_id d) o b.outcomes) p.intune_id) b.payloads
            (payload c values ∷ [])
            (Waiting-insert (device_id d) o b.outcomes b.payloads n.device n.action w)
            ((o, lookup-insert_self (device_id d) o b.outcomes, n.device, n.action), tt);
      accounted = λ a. a;
    }

    add_values-Covers :
        (c : String) (o : DeviceOutcome) (values : Dict Value) (r : Resolver)
        → truthy (device_id d) ≡ true
        → IsNew d o
        → Covers
            (d ∷ [])
            b
            (add_values to_snow_datetime run_time cfg send sys_users users d c o b values r)
    unfolding add_values
    add_values-Covers c o values r t n =
        if-elim (Covers (d ∷ []) b)
          (identified to_snow_datetime run_time cfg send sys_users users values) _
          (without_name r o b)
          (λ y.
            queued-Covers c (record o { sent_values = some values }) values r t
              (record { device = n.device; name = n.name; action = n.action }))
          (λ _. without_name-Covers r o n)

    add_classed-Covers :
        (c : String) (o : DeviceOutcome)
        → truthy (device_id d) ≡ true
        → IsNew d o
        → Gives
            (Covers (d ∷ []) b)
            (add_classed to_snow_datetime run_time cfg send sys_users users d c o b)
    unfolding add_classed
    add_classed-Covers c o t n =
        let found =
          references_for cfg.references send (text_or_none (get "manufacturer" d))
            (text_or_none (get "model" d)) b.resolver in
        let owner = owner_of sys_users d in
        let o' : DeviceOutcome = record o { class_name = some c } in
        Gives-bind (λ x. Unit {0}) (Covers (d ∷ []) b) found _ (Gives-any found)
          (λ x u.
            add_values-Covers c (owned owner o')
              (build_values to_snow_datetime cfg.mapping d (sys_id_of owner) (person_of users d)
                x.0)
              x.1 t
              (owned-IsNew d owner o'
                (record { device = n.device; name = n.name; action = n.action })))

    add_class-Covers :
        (c : Option String) (o : DeviceOutcome)
        → truthy (device_id d) ≡ true
        → IsNew d o
        → Gives
            (Covers (d ∷ []) b)
            (add_class to_snow_datetime run_time cfg send sys_users users d c o b)
    unfolding add_class
    add_class-Covers none o t n = without_class-Covers o n
    add_class-Covers (some c) o t n =
        if-elim (Gives (Covers (d ∷ []) b)) (truthy c) _ _ (λ y. add_classed-Covers c o t n)
          (λ _. without_class-Covers o n)

    add_device-Covers :
        Gives
          (Covers (d ∷ []) b)
          (add_device to_snow_datetime run_time cfg send sys_users users d b)
    unfolding add_device
    add_device-Covers =
        let o = fresh_outcome to_snow_datetime run_time cfg send sys_users users d in
        let n : IsNew d o = record { device = refl; name = refl; action = refl } in
        if-elim (Gives (Covers (d ∷ []) b)) (truthy (device_id d)) _ _
          (λ y. add_class-Covers (resolve_class_name cfg.class_map cfg.default_class d) o y n)
          (λ _. without_id-Covers o n)

  Covers-trans :
      (d : Device) (ds : List Device) (b c e : Built)
      → Covers (d ∷ []) b c
      → Covers ds c e
      → Covers (d ∷ ds) b e
  Covers-trans d ds b c e h k = record {
    skipped_ones = h.skipped_ones ++ k.skipped_ones;
    queued = h.queued ++ k.queued;
    listed =
        k.listed
        ∙ ap (λ l. l ++ k.skipped_ones) h.listed
        ∙ append-append b.report.outcomes h.skipped_ones k.skipped_ones;
    payloads =
        k.payloads
        ∙ ap (λ l. l ++ k.queued) h.payloads
        ∙ append-append b.payloads h.queued k.queued;
    sorts = Sorts-append h.sorts k.sorts;
    waiting = λ w. k.waiting (h.waiting w);
    accounted = λ a. k.accounted (h.accounted a);
  }

  add_devices-Covers :
      (ds : List Device) (b : Built)
      → Gives (Covers ds b) (add_devices to_snow_datetime run_time cfg send sys_users users ds b)
  unfolding add_devices
  add_devices-Covers [] b = record {
    skipped_ones = [];
    queued = [];
    listed = sym (append_nothing b.report.outcomes);
    payloads = sym (append_nothing b.payloads);
    sorts = all_sorted;
    waiting = λ w. w;
    accounted = λ a. a;
  }
  add_devices-Covers (d ∷ ds) b =
      Gives-bind (Covers (d ∷ []) b) (Covers (d ∷ ds) b)
        (add_device to_snow_datetime run_time cfg send sys_users users d b) _
        (add_device-Covers d b)
        (λ c h.
          Gives-map (Covers ds c) (Covers (d ∷ ds) b)
            (add_devices to_snow_datetime run_time cfg send sys_users users ds c)
            (λ e k. Covers-trans d ds b c e h k) (add_devices-Covers ds c))

  -- What is true of the payloads of these devices.
  pub record IsComplete (devices : List Device) (report : RunReport) (b : Built) : Type 0 where
    pub skipped_ones : List DeviceOutcome
    pub listed : b.report.outcomes ≡ report.outcomes ++ skipped_ones
    pub sorts : Sorts devices skipped_ones b.payloads
    pub waiting : Waiting b.outcomes b.payloads
    pub accounted : IsAccounted report → IsAccounted b.report

  -- Whatever the service answers: when `_build_payloads` returns, the devices in order are split into
  -- those that are skipped and those that have a payload. For each skipped device, and for no other,
  -- the report lists its own outcome, with the action "skipped" and a reason; each payload is that of
  -- its device, which has an id, and the index has a pending outcome of that id; and the counters of
  -- the report agree with its outcomes if they did before.
  pub build_payloads-IsComplete :
      (devices : List Device) (report : RunReport) (resolver : Resolver)
      → Gives (IsComplete devices report) (
          build_payloads to_snow_datetime run_time cfg send sys_users users devices report resolver)
  unfolding build_payloads
  build_payloads-IsComplete devices report resolver =
      let b : Built = record {
        payloads = [];
        outcomes = [];
        report = report;
        resolver = resolver;
      } in
      Gives-map (Covers devices b) (IsComplete devices report)
        (add_devices to_snow_datetime run_time cfg send sys_users users devices b)
        (λ e k. record {
          skipped_ones = k.skipped_ones;
          listed = k.listed;
          sorts = subst (Sorts devices k.skipped_ones) (sym k.payloads) k.sorts;
          waiting = k.waiting tt;
          accounted = k.accounted;
        })
        (add_devices-Covers devices b)
