-- ===== src/Zone/Update.antt =====
-- `createOrUpdateZoneCM` of internal/controller/dnszone_controller.go, with the updates of a zone's
-- status. Logging is left out.
pub mod Writes
pub mod Refusals
pub mod Honest
pub mod Published
use coredns_manager_operator.Common.{
  ℕ, Bool, true, false, not, ◌&&◌, Option, none, some, List, [], ◌∷◌, ◌++◌, map, if◌then◌else◌,
}
use coredns_manager_operator.Common.Text.{Text, text}
use coredns_manager_operator.Common.Dict.{Dict}
use coredns_manager_operator.Errors.{Error, Result, ok, err, is_not_found, is_already_exists}
use coredns_manager_operator.Api.Meta.{
  NamespacedName, Condition, ConditionStatus, condition_false, ConfigMap, empty_meta, key_of,
}
use coredns_manager_operator.Api.DnsRecord.{condition_reason_record_degraded}
use coredns_manager_operator.Api.DnsZone.{
  DnsZone, DnsZoneStatus, dns_zone_generate_serial, condition_zone_type_ready,
  condition_reason_zone_pending, condition_reason_zone_update_err, dns_zones_finalizer_name,
}
use coredns_manager_operator.Kube.{
  Kind, config_maps, dns_zones, Client, Library, ZoneParser, Exec, pure, lift, raise, gets, ◌>>=◌,
  ◌>>◌, wrapped,
}
use coredns_manager_operator.Kube.Finalizers.{get_obj_from_k8s, add_finalizer}
use coredns_manager_operator.Record.Validation.{validate_records}
use coredns_manager_operator.Zone.Construction.{
  BakedRecords, construct_zone_file, construct_zone_config_map,
}
use coredns_manager_operator.Zone.Compare.{compare_zonefile_config_maps}

-- `dnsZone.Spec.CMPrefix + dnsZone.Name`
unfoldable pub cm_name : DnsZone → Text
cm_name zone = zone.spec.cm_prefix ++ zone.meta.name

-- `cmConnObj`
unfoldable pub cm_conn_obj : DnsZone → NamespacedName
cm_conn_obj zone = record { name = cm_name zone; namespace = zone.meta.namespace }

-- `upcomingCMAnnotations`
unfoldable pub upcoming_cm_annotations : DnsZone → Text → Dict Text
upcoming_cm_annotations zone serial =
    (text "SerialNumber", serial)
    ∷ (text "DomainName", zone.spec.domain)
    ∷ (text "DNSZoneRef", zone.meta.name)
    ∷ []

-- The zero value that `currentCM` keeps where there is no config map.
abbrev pub no_config_map : ConfigMap
no_config_map = record { meta = empty_meta; contents = [] }

-- The status without the times of its conditions.
unfoldable pub without_times : DnsZoneStatus → DnsZoneStatus
without_times status = record status {
  conditions = map (λ (d : Condition). record d { last_transition_time = 0 }) status.conditions;
}

module _ (c : Client) (l : Library) (z : ZoneParser) where
  -- `setDnsZoneCondition`, at the time `now`
  unfoldable pub set_dns_zone_condition : ℕ → DnsZone → ConditionStatus → Text → Text → DnsZone
  set_dns_zone_condition now zone status reason message =
      let condition : Condition = record {
        type_name = condition_zone_type_ready;
        status = status;
        last_transition_time = now;
        reason = reason;
        message = message;
        observed_generation = zone.meta.generation;
      } in
      record zone {
        status = record zone.status {
          conditions = l.set_status_condition zone.status.conditions condition;
        };
      }

  -- `refreshDNSZoneResource`: the object that it fetches is a copy, and is not used
  unfoldable pub refresh_dns_zone_resource : DnsZone → Exec c.State Unit
  refresh_dns_zone_resource zone = do
    _ ←
        wrapped (text "failed to refresh DNSZone resource: ")
          (get_obj_from_k8s c dns_zones (key_of zone.meta))
    pure tt

  -- `dnsZoneUpdateStatus`
  unfoldable pub dns_zone_update_status : DnsZone → DnsZone → Exec c.State Unit
  dns_zone_update_status previous current =
      if not (l.equal_zone_status (without_times previous.status) (without_times current.status))
      then (do
        _ ←
            wrapped (text "failed to update status and condition: ")
              (c.update_status dns_zones current)
        pure tt)
      else pure tt

  -- A status update with a condition that is false.
  unfoldable pub report : DnsZone → DnsZone → Text → Text → Exec c.State Unit
  report previous zone reason message = do
    now ← gets c.now
    wrapped (text "failed to update status and condition: ") (
        dns_zone_update_status previous
          (set_dns_zone_condition now zone condition_false reason message))

  -- The zone as it is reported behind a failed validation.
  unfoldable pub refused : DnsZone → DnsZone
  refused zone = record zone { status = record zone.status { validation_passed = false } }

  -- `if err := validateRecords(zone); err != nil`: the status is updated, and no error returned
  unfoldable pub refuse_zone : DnsZone → Error → Exec c.State Unit
  refuse_zone zone e = do
    wrapped (text "failed to refresh DNSZone resource: ") (refresh_dns_zone_resource zone)
    report zone (refused zone) condition_reason_zone_update_err
        (text "Zone validation failure. Preserving the previous version. Error: " ++ e.message)

  -- The zone as it is reported behind a write.
  unfoldable pub written : DnsZone → BakedRecords → Text → DnsZone
  written zone baked serial = record zone {
    status = record zone.status {
      current_zone_serial = serial;
      record_count = baked.count;
      validation_passed = true;
      checkpoint = true;
      zone_configmap = cm_name zone;
    };
  }

  -- From `r.Update` to the end.
  unfoldable pub write_zone_cm : DnsZone → BakedRecords → Text → ConfigMap → Exec c.State Unit
  write_zone_cm zone baked serial upcoming = do
    _ ← c.update config_maps upcoming
    wrapped (text "failed to refresh DNSRecord resource: ") (refresh_dns_zone_resource zone)
    report zone (written zone baked serial) condition_reason_zone_pending
        (text "Zone ConfigMap has been created: " ++ cm_name zone)
    add_finalizer c l config_maps (cm_conn_obj zone) dns_zones_finalizer_name

  -- `r.Create`, where `r.Get` has found nothing
  unfoldable pub create_missing : Bool → ConfigMap → Exec c.State ConfigMap
  create_missing missing upcoming = if missing then c.create config_maps upcoming else pure upcoming

  -- From the construction of the zone config map on, for its result.
  unfoldable pub apply_zone_cm :
      DnsZone → BakedRecords → Text → Bool → ConfigMap → Result ConfigMap → Exec c.State Unit
  apply_zone_cm zone baked serial missing current (ok upcoming) = do
    stored ← create_missing missing upcoming
    if compare_zonefile_config_maps l.equal_data current stored
        then pure tt
        else write_zone_cm zone baked serial stored
  apply_zone_cm zone baked serial missing current (err e) = do
    wrapped (text "failed to refresh DNSZone resource: ") (refresh_dns_zone_resource zone)
    report zone zone condition_reason_zone_update_err
        (text "Zone ConfigMap creation failure: " ++ e.message)
    raise e

  -- From the validation on, for its outcome.
  unfoldable pub judge_zone :
      DnsZone → BakedRecords → Text → Bool → ConfigMap → Text → Option Error → Exec c.State Unit
  judge_zone zone baked serial missing current zonefile (some e) = refuse_zone zone e
  judge_zone zone baked serial missing current zonefile none =
      apply_zone_cm zone baked serial missing current (
        construct_zone_config_map (cm_name zone) zone zonefile
          (upcoming_cm_annotations zone serial))

  -- From the construction of the zone file on, for its result.
  unfoldable pub build_zone :
      DnsZone → BakedRecords → Text → Bool → ConfigMap → Result Text → Exec c.State Unit
  build_zone zone baked serial missing current (ok zonefile) =
      judge_zone zone baked serial missing current zonefile (validate_records z zonefile)
  build_zone zone baked serial missing current (err e) = do
    report zone zone condition_reason_record_degraded
        (text "Zone construction failure: " ++ e.message)
    raise e

  -- From the serial number on. `missing` says that `r.Get` has found nothing.
  unfoldable pub renew_zone_cm : DnsZone → BakedRecords → Bool → ConfigMap → Exec c.State Unit
  renew_zone_cm zone baked missing current = do
    time ← gets c.local_time
    let serial = dns_zone_generate_serial time
    build_zone zone baked serial missing current
        (construct_zone_file zone baked.records_string serial)

  -- `createOrUpdateZoneCM`, for what `r.Get` returns
  unfoldable pub zone_cm_fetched : DnsZone → BakedRecords → Result ConfigMap → Exec c.State Unit
  zone_cm_fetched zone baked (ok current) = renew_zone_cm zone baked false current
  zone_cm_fetched zone baked (err e) =
      if not (is_not_found e) && not (is_already_exists e)
      then raise e
      else renew_zone_cm zone baked (is_not_found e) no_config_map

  -- `createOrUpdateZoneCM`
  unfoldable pub create_or_update_zone_cm : DnsZone → BakedRecords → Exec c.State Unit
  create_or_update_zone_cm zone baked s =
      zone_cm_fetched zone baked (c.get config_maps (cm_conn_obj zone) s) s
