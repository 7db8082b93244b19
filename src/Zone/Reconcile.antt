-- ===== src/Zone/Reconcile.antt =====
-- The reconciler of internal/controller/dnszone_controller.go. Logging is left out.
pub mod Lifecycle
use coredns_manager_operator.Common.{
  ℕ, Bool, true, false, not, Option, none, some, is_some, List, [], ◌∷◌, ◌++◌, if◌then◌else◌,
}
use coredns_manager_operator.Common.Text.{Text, text}
use coredns_manager_operator.Errors.{Error, Result, ok, err, is_not_found, errorf, wrap}
use coredns_manager_operator.Api.Meta.{
  NamespacedName, ConditionStatus, condition_true, condition_false, ConfigMap, key_of,
}
use coredns_manager_operator.Api.DnsRecord.{
  DnsRecord, condition_reason_record_ready, condition_reason_record_pending,
}
use coredns_manager_operator.Api.DnsZone.{
  DnsZone, condition_reason_zone_update_err, dns_zones_finalizer_name,
}
use coredns_manager_operator.Kube.{
  config_maps, dns_zones, dns_records, Client, Library, ZoneParser, Exec, pure, lift, raise, gets,
  ◌>>=◌, ◌>>◌, wrapped,
}
use coredns_manager_operator.Kube.Finalizers.{get_obj_from_k8s, add_finalizer, remove_finalizer}
use coredns_manager_operator.Record.Reconcile.{
  ReconcileResult, done, once_more, set_dns_record_condition,
}
use coredns_manager_operator.Zone.Construction.{good_dns_records, records_of}
use coredns_manager_operator.Zone.Update.{cm_conn_obj, report, create_or_update_zone_cm}

module _ (c : Client) (l : Library) (z : ZoneParser) where
  -- `getGoodDnsRecords`
  unfoldable pub get_good_dns_records : DnsZone → c.State → Result (List DnsRecord)
  get_good_dns_records zone s = elim (c.list_records zone.meta.name zone.meta.namespace s) [
    | ok items ↦ ok (good_dns_records items)
    | err e ↦ err (errorf (text "could not list DNSRecords: ") e)
  ]

  -- The body of both loops over the records: it fetches the record and writes its condition.
  unfoldable pub mark_record : ConditionStatus → Text → Text → DnsRecord → Exec c.State Unit
  mark_record status reason message r = do
    current ←
        wrapped (text "failed to refresh DNSRecord resource: ")
          (get_obj_from_k8s c dns_records (key_of r.meta))
    now ← gets c.now
    _ ← wrapped (text "failed to update status and condition: ") (
        c.update_status dns_records
          (set_dns_record_condition c l z now current status reason message))
    pure tt

  unfoldable pub mark_records : ConditionStatus → Text → Text → List DnsRecord → Exec c.State Unit
  mark_records status reason message [] = pure tt
  mark_records status reason message (r ∷ rs) =
      mark_record status reason message r >> mark_records status reason message rs

  -- The branch of both handlers in which the records could not be listed.
  unfoldable pub report_list_failure : DnsZone → Error → Exec c.State ReconcileResult
  report_list_failure zone e = do
    report c l z zone zone condition_reason_zone_update_err (
        text
          "Update dnsrecords failure. Preserving the previous version. Failed to get dnsrecords: "
        ++ e.message)
    raise e

  -- `reconcileDelete`, up to the records: the finalizer of the config map, if there is one
  unfoldable pub release_zone_cm : DnsZone → Result ConfigMap → Exec c.State Unit
  release_zone_cm zone (ok current) =
      remove_finalizer c l config_maps (cm_conn_obj zone) dns_zones_finalizer_name
  release_zone_cm zone (err e) = if not (is_not_found e) then raise e else pure tt

  -- `reconcileDelete`, from the records on
  unfoldable pub release_zone : DnsZone → Result (List DnsRecord) → Exec c.State ReconcileResult
  release_zone zone (err e) = report_list_failure zone e
  release_zone zone (ok rs) = do
    mark_records condition_false condition_reason_record_pending
        (text "DNSZone has been removed: " ++ zone.meta.name) rs
    remove_finalizer c l dns_zones (key_of zone.meta) dns_zones_finalizer_name
    pure done

  -- `reconcileDelete`
  unfoldable pub reconcile_delete : DnsZone → Exec c.State ReconcileResult
  reconcile_delete zone = do
    fetched ← gets (c.get config_maps (cm_conn_obj zone))
    release_zone_cm zone fetched
    listed ← gets (get_good_dns_records zone)
    release_zone zone listed

  -- `reconcileCreateOrUpdate`, for the records listed
  unfoldable pub renew_zone : DnsZone → Result (List DnsRecord) → Exec c.State ReconcileResult
  renew_zone zone (err e) = report_list_failure zone e
  renew_zone zone (ok rs) = do
    baked ← lift (records_of rs)
    create_or_update_zone_cm c l z zone baked
    mark_records condition_true condition_reason_record_ready
        (text "Record has joined to the DNSZone: " ++ zone.meta.name) rs
    pure done

  -- `reconcileCreateOrUpdate`
  unfoldable pub reconcile_create_or_update : DnsZone → Exec c.State ReconcileResult
  reconcile_create_or_update zone s = renew_zone zone (get_good_dns_records zone s) s

  -- `Reconcile`, behind the call of `r.Get`
  unfoldable pub reconcile_found : DnsZone → Exec c.State ReconcileResult
  reconcile_found zone =
      if not (l.contains_finalizer zone.meta.finalizers dns_zones_finalizer_name)
      then (do
        add_finalizer c l dns_zones (key_of zone.meta) dns_zones_finalizer_name
        pure once_more)
      else if is_some zone.meta.deletion_timestamp
      then reconcile_delete zone
      else reconcile_create_or_update zone

  -- `Reconcile`, on what `r.Get` returns
  unfoldable pub reconcile_fetched : Result DnsZone → Exec c.State ReconcileResult
  reconcile_fetched (ok zone) s = reconcile_found zone s
  reconcile_fetched (err e) s = if is_not_found e then (ok done, s) else (err e, s)

  -- `Reconcile`
  unfoldable pub reconcile : NamespacedName → Exec c.State ReconcileResult
  reconcile req s = reconcile_fetched (c.get dns_zones req s) s
