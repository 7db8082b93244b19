-- ===== src/Connector/Deleted.antt =====
-- `reconcileDelete` of internal/controller/dnsconnector_controller.go
use coredns_manager_operator.Common.{◌≡◌, ap, ◌∙◌, subst}
use coredns_manager_operator.Errors.{ok}
use coredns_manager_operator.Api.Meta.{NamespacedName, ConfigMap, key_of}
use coredns_manager_operator.Api.DnsZone.{DnsZone}
use coredns_manager_operator.Api.DnsConnector.{DnsConnector}
use coredns_manager_operator.Kube.{
  StoresConfigMaps, config_maps, dns_connectors, dns_zones, Client, Library, ZoneParser,
}
use coredns_manager_operator.Kube.Preserve.{pure-Preserves, bind-Preserves, then-Preserves}
use coredns_manager_operator.Kube.Outcome.{then-ok}
use coredns_manager_operator.Kube.Finalizers.Safety.{remove_finalizer-Preserves}
use coredns_manager_operator.Record.Reconcile.{ReconcileResult}
use coredns_manager_operator.Connector.Fetch.{conf_cm_key}
use coredns_manager_operator.Connector.Backup.{backup_key, restore_original_corefile_cm}
use coredns_manager_operator.Connector.Health.{Waiting}
use coredns_manager_operator.Connector.Restored.{restore-stores, restore-found}
use coredns_manager_operator.Connector.Safety.{
  fetch_good_zones-Preserves, notify_good_dns_zones-Preserves,
}
use coredns_manager_operator.Connector.Reconcile.{RangeOrders, reconcile_delete}

-- What the documentation of the API server says of writes of connectors and of the statuses of zones:
-- they change no config map.
pub record KeepsConfigMaps (c : Client) : Type 0 where
  pub get-update :
      (o : DnsConnector) (key : NamespacedName) (s : c.State)
      → c.get config_maps key (c.update dns_connectors o s).1 ≡ c.get config_maps key s
  pub get-update_status :
      (o : DnsZone) (key : NamespacedName) (s : c.State)
      → c.get config_maps key (c.update_status dns_zones o s).1 ≡ c.get config_maps key s

module _ (c : Client) (l : Library) (z : ZoneParser) (wait : Waiting c) (orders : RangeOrders)
    (stores : StoresConfigMaps c) (keeps : KeepsConfigMaps c) (conn : DnsConnector) where
  -- Where the reconciliation of a connector that is being deleted succeeds, there was a backup, and
  -- the config map of the Corefile has the data of that backup at the end. A write of a config map
  -- stores it, and writes of connectors and of the statuses of zones change no config map.
  pub reconcile_delete-restores :
      (s t : c.State) (r : ReconcileResult)
      → reconcile_delete c l z wait orders conn s ≡ (ok r, t)
      → (backup : ConfigMap) × (o : ConfigMap) × (c.get config_maps (backup_key conn) s ≡ ok backup)
        × (c.get config_maps (conf_cm_key conn) t ≡ ok o)
        × (o.contents ≡ backup.contents)
  unfolding reconcile_delete
  reconcile_delete-restores s t r h =
      let (u, back, rest) = then-ok (restore_original_corefile_cm c conn) _ s r t h in
      let (backup, held) = restore-found c stores conn s u back in
      let (o, found, same) = restore-stores c stores conn backup s u held back in
      (
        backup,
        o,
        held,
        subst (λ v. c.get config_maps (conf_cm_key conn) v ≡ ok o) (ap (λ x. x.1) rest)
            ((then-Preserves {P = λ v. c.get config_maps (conf_cm_key conn) v ≡ ok o}
                (remove_finalizer-Preserves c dns_connectors (key_of conn.meta) l _
                  (λ x. record { run = λ v kept. keeps.get-update x (conf_cm_key conn) v ∙ kept }))
                (bind-Preserves (fetch_good_zones-Preserves c conn) (λ zones.
                  then-Preserves
                    (notify_good_dns_zones-Preserves c l z
                      (λ x. record {
                        run = λ v kept. keeps.get-update_status x (conf_cm_key conn) v ∙ kept;
                      })
                      _ _ _ zones)
                    (pure-Preserves _)))).run
              u found),
        same,
      )
