-- ===== src/Examples/Backups.antt =====
-- The backup and the restoration of a Corefile, on an API server in memory.
use coredns_manager_operator.Common.{◌≡◌, refl, [], ◌∷◌, keep, exists}
use coredns_manager_operator.Common.Text.{text, eqb}
use coredns_manager_operator.Errors.{Error, ok, err}
use coredns_manager_operator.Api.Meta.{NamespacedName, ConfigMap, empty_meta, key_of}
use coredns_manager_operator.Api.DnsConnector.{coredns_original_conf_bkp_suffix}
use coredns_manager_operator.Kube.{
  meta_of, dns_connectors, config_maps, pure, lift, raise, gets, ◌>>=◌, ◌>>◌, wrapped,
}
use coredns_manager_operator.Kube.Memory.{helpers, strict_parser}
use coredns_manager_operator.Kube.Finalizers.{remove_finalizer, update_finalizers, get_obj_from_k8s}
use coredns_manager_operator.Kube.Store.{Store, store, newest_of, created, rewritten}
use coredns_manager_operator.Kube.Store.Laws.{
  store-KeepsConfigMaps, store-KeepsOthers, store-StoresConfigMaps, impatient,
}
use coredns_manager_operator.Record.Reconcile.{done}
use coredns_manager_operator.Connector.Fetch.{good_zones, fetch_good_zones, conf_cm_key}
use coredns_manager_operator.Connector.Failures.{reconcile_delete-waits}
use coredns_manager_operator.Connector.Backup.{
  backup_of, backup_key, backup_fetched, create_backup, failing_with, instead, with_finalizer,
  backup_original_corefile_cm, restored, restore_fetched, restore_original_corefile_cm,
  missing_backup,
}
use coredns_manager_operator.Connector.Deleted.{reconcile_delete-restores}
use coredns_manager_operator.Connector.Restored.{restore-backup}
use coredns_manager_operator.Connector.Status.{notify_good_dns_zones}
use coredns_manager_operator.Connector.Reconcile.{reconcile_delete}
use coredns_manager_operator.Examples.Corefiles.{base}
use coredns_manager_operator.Examples.Connectors.{conn, orders}

abbrev bare : Store
bare = record { records = []; zones = []; connectors = conn ∷ []; maps = []; works = [] }

no_backup : (e : Error) × (restore_original_corefile_cm store conn bare ≡ (err e, bare))
unfolding restore_original_corefile_cm restore_fetched raise get_obj_from_k8s newest_of
    missing_backup
no_backup = (_, refl)

reconcile_delete-waits_example :
    (reconcile_delete store helpers strict_parser (impatient store) orders conn bare
      ≡ (err no_backup.0, bare))
    × ((key : NamespacedName)
        → newest_of (meta_of dns_connectors) key (conn ∷ [])
          ≡ newest_of (meta_of dns_connectors) key (conn ∷ []))
reconcile_delete-waits_example =
    reconcile_delete-waits store helpers strict_parser (impatient store) orders store-KeepsOthers
      conn bare bare no_backup.0 no_backup.1

abbrev pub corefile_map : ConfigMap
corefile_map = record base {
  meta = record empty_meta { name = text "coredns"; namespace = text "dns" };
}

abbrev holding : Store
holding = record bare { maps = corefile_map ∷ [] }

lacks_backup : (e : Error) × (store.get config_maps (backup_key conn) holding ≡ err e)
unfolding newest_of eqb backup_key coredns_original_conf_bkp_suffix
lacks_backup = (_, refl)

made : (t : Store) × (backup_original_corefile_cm store helpers corefile_map holding ≡ (ok tt, t))
unfolding backup_original_corefile_cm backup_fetched backup_of create_backup failing_with instead
    created newest_of eqb coredns_original_conf_bkp_suffix pure gets ◌>>=◌ with_finalizer
made = (_, refl)

brought : (v : Store) × (restore_original_corefile_cm store conn made.0 ≡ (ok tt, v))
unfolding made restore_original_corefile_cm restore_fetched get_obj_from_k8s newest_of eqb rewritten
    backup_of with_finalizer backup_key conf_cm_key coredns_original_conf_bkp_suffix pure ◌>>=◌
    wrapped restored
brought = (_, refl)

names_corefile : key_of corefile_map.meta ≡ conf_cm_key conn
unfolding conf_cm_key
names_corefile = refl

restore-backup_example :
    (o : ConfigMap) × (store.get config_maps (conf_cm_key conn) brought.0 ≡ ok o)
    × (o.contents ≡ corefile_map.contents)
restore-backup_example =
    restore-backup store store-StoresConfigMaps helpers conn corefile_map holding made.0 made.0
      brought.0 lacks_backup.0 names_corefile lacks_backup.1 made.1 refl brought.1

abbrev pub backed_up : Store
backed_up = record holding {
  maps = record corefile_map { contents = [] } ∷ backup_of corefile_map ∷ [];
}

deleted :
    (t : Store) × (reconcile_delete store helpers strict_parser
        (impatient store)
        orders
        conn
        backed_up
      ≡ (ok done, t))
unfolding reconcile_delete restore_original_corefile_cm restore_fetched restored get_obj_from_k8s
    newest_of rewritten eqb backup_key backup_of coredns_original_conf_bkp_suffix conf_cm_key
    remove_finalizer update_finalizers exists fetch_good_zones good_zones keep notify_good_dns_zones
    pure gets lift ◌>>=◌ ◌>>◌ wrapped
deleted = (_, refl)

reconcile_delete-restores_example :
    (backup : ConfigMap) × (o : ConfigMap) × (store.get config_maps (backup_key conn) backed_up
      ≡ ok backup)
    × (store.get config_maps (conf_cm_key conn) deleted.0 ≡ ok o)
    × (o.contents ≡ backup.contents)
reconcile_delete-restores_example =
    reconcile_delete-restores store helpers strict_parser (impatient store) orders
      store-StoresConfigMaps store-KeepsConfigMaps conn backed_up deleted.0 done deleted.1
