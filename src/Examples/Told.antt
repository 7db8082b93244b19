-- ===== src/Examples/Told.antt =====
-- A connector with one zone, and its deletion, on an API server in memory.
use coredns_manager_operator.Common.{◌≡◌, refl, [], ◌∷◌, All, List, exists, keep}
use coredns_manager_operator.Common.Text.{text, eqb, has_suffix, replace_all, trim_suffix}
use coredns_manager_operator.Errors.{ok}
use coredns_manager_operator.Api.Meta.{key_of}
use coredns_manager_operator.Api.DnsZone.{DnsZone, condition_zone_type_ready}
use coredns_manager_operator.Api.DnsConnector.{
  assert_coredns_deployment_type, coredns_original_conf_bkp_suffix, dns_connectors_finalizer_name,
}
use coredns_manager_operator.Kube.{dns_connectors}
use coredns_manager_operator.Kube.Memory.{helpers, strict_parser}
use coredns_manager_operator.Kube.Store.{Store, store, created, newest_of, rewritten}
use coredns_manager_operator.Kube.Store.Laws.{impatient}
use coredns_manager_operator.Kube.Store.Separate.{store-IsSeparate}
use coredns_manager_operator.Kube.Store.Zones.{store-IsStored, store-StoresZoneStatus}
use coredns_manager_operator.Record.Reconcile.{done}
use coredns_manager_operator.Connector.Reconcile.{
  Changes, add_stat, announce, apply_changes, await_coredns, dns_zone_stats, make_changes,
  original_corefile, prepare, provisioned, reconcile_delete, reconcile_dns_connector, require_key,
}
use coredns_manager_operator.Connector.Told.Outcome.{
  IsActive, IsPending, reconcile_dns_connector-tells, reconcile_delete-tells,
}
use coredns_manager_operator.Examples.Workloads.{coredns}
use coredns_manager_operator.Examples.Connectors.{conn, orders, ready_zone, map_of_zone}
use coredns_manager_operator.Examples.Backups.{corefile_map, backed_up}
use coredns_manager_operator.Connector.Backup.{
  backup_fetched, backup_key, backup_of, backup_original_corefile_cm, create_backup, failing_with,
  instead, restore_fetched, restore_original_corefile_cm, restored, with_finalizer,
}
use coredns_manager_operator.Connector.Fetch.{
  deployment_key, conf_cm_key, fetch_asserted, fetch_coredns_conf_cm, fetch_coredns_deployment,
  fetch_good_zonefile_cm, fetch_good_zones, fetch_zone_cms, good_zones, is_good_zone, is_picked,
  is_true, zone_cm_key,
}
use coredns_manager_operator.Connector.Health.{
  coredns_is_healthy, coredns_is_ready, fetched_is_ready,
}
use coredns_manager_operator.Connector.Corefile.{
  corefile_blocks, domain_annotation, generate_corefile_cm, zonefile_name,
}
use coredns_manager_operator.Connector.Volumes.{
  desired_volume, desired_volumes, set_zone_file_config_maps, sole_key, volume_name,
  zone_volume_prefix,
}
use coredns_manager_operator.Connector.Status.{
  dns_connector_update_status, notify_fetched, notify_good_dns_zones, or_give_up, recover,
  refresh_dns_connector_resource, set_dns_connector_condition, show_condition,
}
use coredns_manager_operator.Api.DnsRecord.{ensure_fqdn}
use coredns_manager_operator.Kube.Finalizers.{
  get_obj_from_k8s, is_ready, remove_finalizer, update_finalizers,
}
use coredns_manager_operator.Kube.{gets, lift, pure, wrapped, ◌>>=◌, ◌>>◌}
use coredns_manager_operator.Common.Dict.{insert, lookup}
use coredns_manager_operator.Common.Sort.{insert_sorted, sort_by}
use coredns_manager_operator.Zone.Update.{set_dns_zone_condition}

abbrev zone_here : DnsZone
zone_here = record ready_zone { meta = record ready_zone.meta { namespace = text "dns" } }

abbrev serving : Store
serving = record {
  records = [];
  zones = zone_here ∷ [];
  connectors = conn ∷ [];
  maps =
      corefile_map
      ∷ record map_of_zone {
        meta = record map_of_zone.meta { name = text "zone-a"; namespace = text "dns" };
      }
      ∷ [];
  works =
      record coredns {
        meta = record coredns.meta {
          name = conn.spec.coredns_deployment.name;
          namespace = text "dns";
        };
      }
      ∷ [];
}

finished :
    (t : Store) × (reconcile_dns_connector store helpers strict_parser
        (impatient store)
        orders
        conn
        serving
      ≡ (ok done, t))
unfolding reconcile_dns_connector prepare original_corefile make_changes or_give_up recover
    require_key fetch_coredns_conf_cm get_obj_from_k8s conf_cm_key backup_original_corefile_cm
    backup_fetched backup_of coredns_original_conf_bkp_suffix fetch_coredns_deployment
    deployment_key fetch_asserted assert_coredns_deployment_type fetch_good_zonefile_cm
    fetch_good_zones good_zones keep is_good_zone is_picked is_true condition_zone_type_ready
    fetch_zone_cms zone_cm_key sort_by insert_sorted generate_corefile_cm corefile_blocks lookup
    insert domain_annotation zonefile_name ensure_fqdn has_suffix eqb set_zone_file_config_maps
    desired_volumes desired_volume sole_key volume_name zone_volume_prefix trim_suffix replace_all
    apply_changes await_coredns refresh_dns_connector_resource show_condition
    dns_connector_update_status failing_with instead coredns_is_healthy coredns_is_ready
    fetched_is_ready is_ready announce notify_good_dns_zones notify_fetched dns_zone_stats add_stat
    provisioned set_dns_connector_condition pure lift gets ◌>>=◌ ◌>>◌ wrapped newest_of created
    rewritten create_backup with_finalizer set_dns_zone_condition exists
finished = (_, refl)

reconcile_dns_connector-tells_example :
    (changes : Changes) × (u : Store) × (prepare store helpers strict_parser
        (impatient store)
        orders
        conn
        serving
      ≡ (ok changes, u))
    × All
        (IsActive store helpers strict_parser
          (impatient store)
          orders
          store-IsStored
          store-StoresZoneStatus
          store-IsSeparate
          conn
          finished.0)
        changes.zones
reconcile_dns_connector-tells_example =
    reconcile_dns_connector-tells store helpers strict_parser (impatient store) orders
      store-IsStored store-StoresZoneStatus store-IsSeparate conn serving finished.0 done finished.1

abbrev leaving : Store
leaving = record backed_up { zones = zone_here ∷ [] }

left :
    (t : Store) × (reconcile_delete store helpers strict_parser
        (impatient store)
        orders
        conn
        leaving
      ≡ (ok done, t))
unfolding reconcile_delete restore_original_corefile_cm restore_fetched restored get_obj_from_k8s
    newest_of rewritten eqb backup_key backup_of coredns_original_conf_bkp_suffix conf_cm_key
    remove_finalizer update_finalizers exists fetch_good_zones good_zones keep notify_good_dns_zones
    pure gets lift ◌>>=◌ ◌>>◌ wrapped notify_fetched is_good_zone is_picked is_true
    condition_zone_type_ready set_dns_zone_condition
left = (_, refl)

reconcile_delete-tells_example :
    (zones : List DnsZone) × (a : Store) × (u : Store) × (v : Store) × (restore_original_corefile_cm
        store conn leaving
      ≡ (ok tt, a))
    × (remove_finalizer store helpers dns_connectors
          (key_of conn.meta)
          dns_connectors_finalizer_name
          a
        ≡ (ok tt, u))
    × (fetch_good_zones store conn u ≡ (ok zones, v))
    × All
        (IsPending store helpers strict_parser
          (impatient store)
          orders
          store-IsStored
          store-StoresZoneStatus
          store-IsSeparate
          conn
          left.0)
        zones
reconcile_delete-tells_example =
    reconcile_delete-tells store helpers strict_parser (impatient store) orders store-IsStored
      store-StoresZoneStatus store-IsSeparate conn leaving left.0 done left.1
