-- ===== src/Connector/Backup.antt =====
-- `backupOriginalCorefileCM` and `restoreOriginalCorefileCM` of
-- internal/controller/dnsconnector_controller.go
use coredns_manager_operator.Common.{◌++◌, [], if◌then◌else◌}
use coredns_manager_operator.Common.Text.{text}
use coredns_manager_operator.Errors.{Error, Result, ok, err, errorf, is_not_found}
use coredns_manager_operator.Api.Meta.{NamespacedName, ConfigMap, key_of}
use coredns_manager_operator.Api.DnsConnector.{
  DnsConnector, coredns_original_conf_bkp_suffix, dns_connectors_finalizer_name,
}
use coredns_manager_operator.Kube.{
  config_maps, Client, Library, Exec, pure, raise, gets, ◌>>=◌, wrapped,
}
use coredns_manager_operator.Kube.Finalizers.{get_obj_from_k8s}
use coredns_manager_operator.Connector.Fetch.{conf_cm_key}

-- The copy of the config map that is kept. Where there is none yet, `r.Get` leaves it as it is.
unfoldable pub backup_of : ConfigMap → ConfigMap
backup_of cm = record cm {
  meta = record cm.meta {
    resource_version = [];
    name = cm.meta.name ++ coredns_original_conf_bkp_suffix;
  };
}

unfoldable pub backup_key : DnsConnector → NamespacedName
backup_key conn = record {
  name = conn.spec.coredns_cm.name ++ coredns_original_conf_bkp_suffix;
  namespace = conn.meta.namespace;
}

unfoldable pub instead : {A : Type 0} → Error → Result A → Result A
instead e (ok a) = ok a
instead e (err e') = err e

-- `if err := m; err != nil { return e }`, where `e` is another error than `err`
unfoldable pub failing_with : {S A : Type 0} → Error → Exec S A → Exec S A
failing_with e m s = let (r, s') = m s in (instead e r, s')

module _ (c : Client) where
  module _ (l : Library) where
    unfoldable pub with_finalizer : ConfigMap → ConfigMap
    with_finalizer cm = record cm {
      meta = record cm.meta {
        finalizers = l.add_finalizer cm.meta.finalizers dns_connectors_finalizer_name;
      };
    }

    -- `r.Create` of the backup; its error return holds the error of the lookup
    unfoldable pub create_backup : ConfigMap → Error → Exec c.State Unit
    create_backup bkp fetch_err = do
      _ ←
          failing_with (errorf (text "failed to create coredns backup configmap: ") fetch_err)
            (c.create config_maps (with_finalizer bkp))
      pure tt

    -- What follows `r.Get`
    unfoldable pub backup_fetched : ConfigMap → Result ConfigMap → Exec c.State Unit
    backup_fetched bkp (ok held) = pure tt
    backup_fetched bkp (err e) =
        if is_not_found e
        then create_backup bkp e
        else raise (errorf (text "failure during getting the object from k8s: ") e)

    -- `backupOriginalCorefileCM`
    unfoldable pub backup_original_corefile_cm : ConfigMap → Exec c.State Unit
    backup_original_corefile_cm cm = do
      fetched ← gets (c.get config_maps (key_of (backup_of cm).meta))
      backup_fetched (backup_of cm) fetched

  -- The original config map with the data of the backup.
  unfoldable pub restored : ConfigMap → ConfigMap → ConfigMap
  restored backup original = record {
    meta = record original.meta { resource_version = [] };
    contents = backup.contents;
  }

  unfoldable pub missing_backup : Error → Error
  missing_backup e =
      if is_not_found e
      then errorf (text "backup configmap not found: ") e
      else errorf (text "failure during getting the backup configmap from k8s: ") e

  -- What follows the lookup of the backup
  unfoldable pub restore_fetched : DnsConnector → Result ConfigMap → Exec c.State Unit
  restore_fetched conn (err e) = raise (missing_backup e)
  restore_fetched conn (ok backup) = do
    original ←
        wrapped (text "failure during getting the original configmap from k8s: ")
          (get_obj_from_k8s c config_maps (conf_cm_key conn))
    _ ←
        wrapped (text "failed to restore original coredns configmap: ")
          (c.update config_maps (restored backup original))
    pure tt

  -- `restoreOriginalCorefileCM`
  unfoldable pub restore_original_corefile_cm : DnsConnector → Exec c.State Unit
  restore_original_corefile_cm conn s =
      let (r, s') = get_obj_from_k8s c config_maps (backup_key conn) s in restore_fetched conn r s'
