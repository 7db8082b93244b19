-- ===== src/Connector/Reconcile.antt =====
-- The reconciler of internal/controller/dnsconnector_controller.go. Logging is left out.
use coredns_manager_operator.Common.{
  not, Option, none, some, is_some, List, [], ◌∷◌, ◌++◌, if◌then◌else◌,
}
use coredns_manager_operator.Common.Text.{Text, text}
use coredns_manager_operator.Common.Dict.{Dict, lookup}
use coredns_manager_operator.Errors.{Error, Result, ok, err, is_not_found, new_error}
use coredns_manager_operator.Api.Meta.{
  NamespacedName, condition_true, condition_false, ConfigMap, key_of,
}
use coredns_manager_operator.Api.DnsZone.{
  DnsZone, condition_reason_zone_active, condition_reason_zone_pending,
}
use coredns_manager_operator.Api.DnsConnector.{
  DnsConnector, ProvisionedDnsZone, Workload, WorkloadKind, condition_reason_connector_active,
  condition_reason_connector_error, condition_reason_connector_updating,
  condition_reason_connector_update_err, dns_connectors_finalizer_name,
}
use coredns_manager_operator.Kube.{
  config_maps, workloads, dns_connectors, Client, Library, ZoneParser, Exec, pure, lift, gets,
  ◌>>=◌, ◌>>◌,
}
use coredns_manager_operator.Kube.Finalizers.{add_finalizer, remove_finalizer}
use coredns_manager_operator.Record.Reconcile.{ReconcileResult, done, once_more}
use coredns_manager_operator.Connector.Corefile.{generate_corefile_cm}
use coredns_manager_operator.Connector.Volumes.{DesiredVolume, set_zone_file_config_maps}
use coredns_manager_operator.Connector.Fetch.{
  fetch_coredns_conf_cm, fetch_coredns_deployment, fetch_good_zones, fetch_good_zonefile_cm,
}
use coredns_manager_operator.Connector.Backup.{
  backup_original_corefile_cm, restore_original_corefile_cm, failing_with,
}
use coredns_manager_operator.Connector.Health.{Waiting, coredns_is_healthy}
use coredns_manager_operator.Connector.Status.{
  refresh_dns_connector_resource, show_condition, give_up, or_give_up, notify_good_dns_zones,
}

-- The orders in which the two ranges over maps visit their entries.
pub record RangeOrders : Type 0 where
  pub blocks : Dict Text → Dict Text
  pub volumes : Dict DesiredVolume → Dict DesiredVolume

-- What is to be written, with the zones that it is made of.
pub record Changes : Type 0 where
  pub zones : List DnsZone
  pub zone_cms : List ConfigMap
  pub corefile_cm : ConfigMap
  pub kind : WorkloadKind
  pub deployment : Workload

-- The body of the loop that makes `dnsZoneStats`: the three annotations of a zone config map.
unfoldable pub provisioned : ConfigMap → Option ProvisionedDnsZone
provisioned cm = elim (lookup (text "DNSZoneRef") cm.meta.annotations) [
  | none ↦ none
  | some name ↦ elim (lookup (text "DomainName") cm.meta.annotations) [
    | none ↦ none
    | some domain ↦ elim (lookup (text "SerialNumber") cm.meta.annotations) [
      | none ↦ none
      | some serial ↦ some (record { name = name; domain = domain; serial_number = serial })
    ]
  ]
]

unfoldable pub missing_annotation : Error
missing_annotation = new_error (text "missing required annotation")

-- A pass of the loop, before the later ones: the first config map that lacks an annotation ends it.
unfoldable pub add_stat :
    Option ProvisionedDnsZone → Result (List ProvisionedDnsZone) → Result (List ProvisionedDnsZone)
add_stat none rest = err missing_annotation
add_stat (some stat) (ok stats) = ok (stat ∷ stats)
add_stat (some stat) (err e) = err e

-- The loop itself
unfoldable pub dns_zone_stats : List ConfigMap → Result (List ProvisionedDnsZone)
dns_zone_stats [] = ok []
dns_zone_stats (cm ∷ cms) = add_stat (provisioned cm) (dns_zone_stats cms)

unfoldable pub unhealthy : Error
unhealthy = new_error (text "coredns is not healthy. Check coredns deployment log")

module _ (c : Client) (l : Library) (z : ZoneParser) (wait : Waiting c) (orders : RangeOrders) where
  -- `_, ok := corednsConfCM.Data[…]`: where the key is missing, there is no refresh
  unfoldable pub require_key : DnsConnector → Option Text → Exec c.State Unit
  require_key conn (some corefile) = pure tt
  require_key conn none =
      give_up c l conn conn condition_reason_connector_error (text "could not detect corefile: ") (
        new_error (
          text "key "
          ++ (conn.spec.coredns_cm.corefile_key ++ text " not found in CoreDNS ConfigMap")))

  -- `reconcileDNSConnector`, up to the backup of the Corefile's config map, which it gives
  unfoldable pub original_corefile : DnsConnector → Exec c.State ConfigMap
  original_corefile conn = do
    cm ←
        or_give_up c l conn conn condition_reason_connector_error
          (text "could not detect corefile: ") (fetch_coredns_conf_cm c conn)
    require_key conn (lookup conn.spec.coredns_cm.corefile_key cm.contents)
    or_give_up c l conn conn condition_reason_connector_error
        (text "could not backup the original corefile: ") (backup_original_corefile_cm c l cm)
    pure cm

  -- The new Corefile and the new workload, of what was read
  unfoldable pub make_changes :
      DnsConnector
      → ConfigMap
      → WorkloadKind × Workload
      → List DnsZone × List ConfigMap
      → Exec c.State Changes
  make_changes conn cm deployment zones = do
    corefile_cm ←
        or_give_up c l conn conn condition_reason_connector_update_err
          (text "could not generate a new corefile: ")
          (lift (generate_corefile_cm orders.blocks conn.spec cm zones.1))
    now ← gets c.now
    updated ←
        or_give_up c l conn conn condition_reason_connector_update_err
          (text "could not attach zone file config maps to deployment: ")
          (lift (set_zone_file_config_maps orders.volumes now conn.spec deployment.1 zones.1))
    pure (record {
      zones = zones.0;
      zone_cms = zones.1;
      corefile_cm = corefile_cm;
      kind = deployment.0;
      deployment = updated;
    })

  -- `reconcileDNSConnector`, up to the writes
  unfoldable pub prepare : DnsConnector → Exec c.State Changes
  prepare conn = do
    cm ← original_corefile conn
    deployment ←
        or_give_up c l conn conn condition_reason_connector_error
          (text "could not find coredns deployment: ") (fetch_coredns_deployment c conn)
    zones ← fetch_good_zonefile_cm c conn
    make_changes conn cm deployment zones

  -- The two writes
  unfoldable pub apply_changes : DnsConnector → Changes → Exec c.State Unit
  apply_changes conn changes = do
    _ ←
        or_give_up c l conn conn condition_reason_connector_update_err
          (text "could not attach zone file config maps: ")
          (c.update (workloads changes.kind) changes.deployment)
    _ ←
        or_give_up c l conn conn condition_reason_connector_update_err
          (text "could not update corefile cm: ") (c.update config_maps changes.corefile_cm)
    pure tt

  -- The status behind the writes, and the wait for the workload; the connector is as the status
  -- update gives it back
  unfoldable pub await_coredns : DnsConnector → Exec c.State DnsConnector
  await_coredns conn = do
    refresh_dns_connector_resource c l conn
    updating ←
        show_condition c l conn conn condition_false condition_reason_connector_updating
          (text "coredns is being updated")
    or_give_up c l conn updating condition_reason_connector_update_err
        (text "healthcheck failure: ") (failing_with unhealthy (coredns_is_healthy c wait updating))
    pure updating

  -- From the notification of the zones to the end
  unfoldable pub announce : DnsConnector → DnsConnector → Changes → Exec c.State ReconcileResult
  announce conn updating changes = do
    notify_good_dns_zones c l z condition_true condition_reason_zone_active
        (text "Picked up by DNSConnector.") changes.zones
    stats ← lift (dns_zone_stats changes.zone_cms)
    refresh_dns_connector_resource c l conn
    _ ←
        show_condition c l conn
          (record updating { status = record updating.status { provisioned_dns_zones = stats } })
          condition_true condition_reason_connector_active (text "CoreDNS Ready")
    pure done

  -- `reconcileDNSConnector`
  unfoldable pub reconcile_dns_connector : DnsConnector → Exec c.State ReconcileResult
  reconcile_dns_connector conn = do
    changes ← prepare conn
    apply_changes conn changes
    updating ← await_coredns conn
    announce conn updating changes

  -- `reconcileDelete`
  unfoldable pub reconcile_delete : DnsConnector → Exec c.State ReconcileResult
  reconcile_delete conn = do
    restore_original_corefile_cm c conn
    remove_finalizer c l dns_connectors (key_of conn.meta) dns_connectors_finalizer_name
    zones ← fetch_good_zones c conn
    notify_good_dns_zones c l z condition_false condition_reason_zone_pending
        (text "DNSConnector has been removed") zones
    pure done

  -- `Reconcile`, behind the call of `r.Get`
  unfoldable pub reconcile_found : DnsConnector → Exec c.State ReconcileResult
  reconcile_found conn =
      if not (l.contains_finalizer conn.meta.finalizers dns_connectors_finalizer_name)
      then (do
        add_finalizer c l dns_connectors (key_of conn.meta) dns_connectors_finalizer_name
        pure once_more)
      else if is_some conn.meta.deletion_timestamp
      then reconcile_delete conn
      else reconcile_dns_connector conn

  -- `Reconcile`, on what `r.Get` returns
  unfoldable pub reconcile_fetched : Result DnsConnector → Exec c.State ReconcileResult
  reconcile_fetched (ok conn) s = reconcile_found conn s
  reconcile_fetched (err e) s = if is_not_found e then (ok done, s) else (err e, s)

  -- `Reconcile`
  unfoldable pub reconcile : NamespacedName → Exec c.State ReconcileResult
  reconcile req s = reconcile_fetched (c.get dns_connectors req s) s
