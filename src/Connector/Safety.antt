-- ===== src/Connector/Safety.antt =====
-- internal/controller/dnsconnector_controller.go under an invariant of the API server's state: which
-- writes each method makes, whether it succeeds or fails.
use coredns_manager_operator.Common.{Option, none, some, List, [], ◌∷◌}
use coredns_manager_operator.Common.Text.{Text}
use coredns_manager_operator.Errors.{Error, Result, ok, err}
use coredns_manager_operator.Api.Meta.{ConditionStatus, ConfigMap}
use coredns_manager_operator.Api.DnsZone.{DnsZone}
use coredns_manager_operator.Api.DnsConnector.{DnsConnector, Workload, WorkloadKind}
use coredns_manager_operator.Kube.{
  config_maps, workloads, dns_connectors, dns_zones, Client, Library, ZoneParser, Exec,
}
use coredns_manager_operator.Kube.Preserve.{
  Preserves, pure-Preserves, raise-Preserves, lift-Preserves, gets-Preserves, wrapped-Preserves,
  bind-Preserves, then-Preserves, if-Preserves,
}
use coredns_manager_operator.Kube.Finalizers.{get_obj_from_k8s}
use coredns_manager_operator.Kube.Finalizers.Safety.{get_obj_from_k8s-Preserves}
use coredns_manager_operator.Connector.Fetch.{
  fetch_coredns_conf_cm, fetch_asserted, fetch_coredns_deployment, fetch_good_zones, fetch_zone_cms,
  fetch_good_zonefile_cm,
}
use coredns_manager_operator.Connector.Backup.{
  failing_with, create_backup, backup_fetched, backup_original_corefile_cm, restore_fetched,
  restore_original_corefile_cm,
}
use coredns_manager_operator.Connector.Status.{
  refresh_dns_connector_resource, dns_connector_update_status, show_condition, give_up, recover,
  or_give_up, notify_fetched, notify_good_dns_zones,
}
use coredns_manager_operator.Connector.Reconcile.{
  RangeOrders, require_key, original_corefile, make_changes, prepare,
}
use coredns_manager_operator.Connector.Health.{Waiting}

module _ (c : Client) {P : c.State → Type 0} where
  pub failing_with-Preserves :
      {A : Type 0} (e : Error) {m : Exec c.State A} → Preserves P m → Preserves P (failing_with e m)
  failing_with-Preserves e h = record { run = λ s p. unfold failing_with in h.run s p }

  fetch_asserted-Preserves :
      (conn : DnsConnector) (k : Option WorkloadKind) → Preserves P (fetch_asserted c conn k)
  fetch_asserted-Preserves conn none = unfold fetch_asserted in raise-Preserves _
  fetch_asserted-Preserves conn (some k) =
      unfold fetch_asserted in
      bind-Preserves (wrapped-Preserves _ (get_obj_from_k8s-Preserves c (workloads k) _))
        (λ w. pure-Preserves _)

  pub fetch_coredns_deployment-Preserves :
      (conn : DnsConnector) → Preserves P (fetch_coredns_deployment c conn)
  fetch_coredns_deployment-Preserves conn =
      unfold fetch_coredns_deployment in fetch_asserted-Preserves conn _

  fetch_coredns_conf_cm-Preserves :
      (conn : DnsConnector) → Preserves P (fetch_coredns_conf_cm c conn)
  fetch_coredns_conf_cm-Preserves conn =
      unfold fetch_coredns_conf_cm in
      wrapped-Preserves _ (get_obj_from_k8s-Preserves c config_maps _)

  pub fetch_good_zones-Preserves : (conn : DnsConnector) → Preserves P (fetch_good_zones c conn)
  fetch_good_zones-Preserves conn =
      unfold fetch_good_zones in
      bind-Preserves (gets-Preserves _)
        (λ listed. bind-Preserves (lift-Preserves _) (λ items. pure-Preserves _))

  fetch_zone_cms-Preserves : (zones : List DnsZone) → Preserves P (fetch_zone_cms c zones)
  unfolding fetch_zone_cms
  fetch_zone_cms-Preserves [] = pure-Preserves _
  fetch_zone_cms-Preserves (zone ∷ zones) =
      bind-Preserves (wrapped-Preserves _ (get_obj_from_k8s-Preserves c config_maps _))
        (λ cm. bind-Preserves (fetch_zone_cms-Preserves zones) (λ cms. pure-Preserves _))

  fetch_good_zonefile_cm-Preserves :
      (conn : DnsConnector) → Preserves P (fetch_good_zonefile_cm c conn)
  fetch_good_zonefile_cm-Preserves conn =
      unfold fetch_good_zonefile_cm in
      bind-Preserves (wrapped-Preserves _ (fetch_good_zones-Preserves conn))
        (λ zones. bind-Preserves (fetch_zone_cms-Preserves zones) (λ cms. pure-Preserves _))

  pub refresh_dns_connector_resource-Preserves :
      (l : Library) (conn : DnsConnector) → Preserves P (refresh_dns_connector_resource c l conn)
  refresh_dns_connector_resource-Preserves l conn =
      unfold refresh_dns_connector_resource in
      bind-Preserves (wrapped-Preserves _ (get_obj_from_k8s-Preserves c dns_connectors _))
        (λ fetched. pure-Preserves _)

  module _ (updates : (o : ConfigMap) → Preserves P (c.update config_maps o)) where
    restore_fetched-Preserves :
        (conn : DnsConnector) (r : Result ConfigMap) → Preserves P (restore_fetched c conn r)
    restore_fetched-Preserves conn (err e) = unfold restore_fetched in raise-Preserves _
    restore_fetched-Preserves conn (ok backup) =
        unfold restore_fetched in
        bind-Preserves (wrapped-Preserves _ (get_obj_from_k8s-Preserves c config_maps _))
          (λ original.
            bind-Preserves (wrapped-Preserves _ (updates _)) (λ stored. pure-Preserves _))

    pub restore_original_corefile_cm-Preserves :
        (conn : DnsConnector) → Preserves P (restore_original_corefile_cm c conn)
    unfolding restore_original_corefile_cm get_obj_from_k8s
    restore_original_corefile_cm-Preserves conn = record {
      run = λ s h. (restore_fetched-Preserves conn _).run s h;
    }

  module _ (l : Library) (creates : (o : ConfigMap) → Preserves P (c.create config_maps o)) where
    backup_fetched-Preserves :
        (cm : ConfigMap) (r : Result ConfigMap) → Preserves P (backup_fetched c l cm r)
    backup_fetched-Preserves cm (ok held) = unfold backup_fetched in pure-Preserves _
    backup_fetched-Preserves cm (err e) =
        unfold backup_fetched create_backup in
        if-Preserves _
          (bind-Preserves (failing_with-Preserves _ (creates _)) (λ stored. pure-Preserves _))
          (raise-Preserves _)

    pub backup_original_corefile_cm-Preserves :
        (cm : ConfigMap) → Preserves P (backup_original_corefile_cm c l cm)
    backup_original_corefile_cm-Preserves cm =
        unfold backup_original_corefile_cm in
        bind-Preserves (gets-Preserves _) (λ fetched. backup_fetched-Preserves _ fetched)

  module _ (l : Library) (z : ZoneParser)
      (shows : (o : DnsZone) → Preserves P (c.update_status dns_zones o)) where
    notify_fetched-Preserves :
        (st : ConditionStatus) (reason message : Text) (zone : DnsZone)
        → Preserves P (notify_fetched c l z st reason message zone)
    notify_fetched-Preserves st reason message zone =
        unfold notify_fetched in
        if-Preserves _
          (bind-Preserves (gets-Preserves _)
            (λ now. bind-Preserves (wrapped-Preserves _ (shows _)) (λ stored. pure-Preserves _)))
          (pure-Preserves _)

    pub notify_good_dns_zones-Preserves :
        (st : ConditionStatus) (reason message : Text) (zones : List DnsZone)
        → Preserves P (notify_good_dns_zones c l z st reason message zones)
    unfolding notify_good_dns_zones
    notify_good_dns_zones-Preserves st reason message [] = pure-Preserves _
    notify_good_dns_zones-Preserves st reason message (zone ∷ zones) =
        bind-Preserves (wrapped-Preserves _ (get_obj_from_k8s-Preserves c dns_zones _)) (λ current.
          then-Preserves (notify_fetched-Preserves st reason message current)
            (notify_good_dns_zones-Preserves st reason message zones))

  module _ (l : Library)
      (shows : (o : DnsConnector) → Preserves P (c.update_status dns_connectors o)) where
    pub show_condition-Preserves :
        (previous current : DnsConnector) (st : ConditionStatus) (reason message : Text)
        → Preserves P (show_condition c l previous current st reason message)
    show_condition-Preserves previous current st reason message =
        unfold show_condition dns_connector_update_status in
        bind-Preserves (gets-Preserves _)
          (λ now. if-Preserves _ (wrapped-Preserves _ (shows _)) (pure-Preserves _))

    give_up-Preserves :
        {A : Type 0} (previous current : DnsConnector) (reason message : Text) (e : Error)
        → Preserves {A = A} P (give_up c l previous current reason message e)
    give_up-Preserves previous current reason message e =
        unfold give_up in
        bind-Preserves (show_condition-Preserves previous current _ reason _)
          (λ shown. raise-Preserves e)

    recover-Preserves :
        {A : Type 0} (previous current : DnsConnector) (reason message : Text) (r : Result A)
        → Preserves P (recover c l previous current reason message r)
    recover-Preserves previous current reason message (ok a) = unfold recover in pure-Preserves a
    recover-Preserves previous current reason message (err e) =
        unfold recover in
        then-Preserves (refresh_dns_connector_resource-Preserves l previous)
          (give_up-Preserves previous current reason message e)

    pub or_give_up-Preserves :
        {A : Type 0} (previous current : DnsConnector) (reason message : Text) {m : Exec c.State A}
        → Preserves P m
        → Preserves P (or_give_up c l previous current reason message m)
    unfolding or_give_up
    or_give_up-Preserves previous current reason message {m = m} h = record {
      run = λ s p.
          (recover-Preserves previous current reason message (m s).0).run (m s).1 (h.run s p);
    }

    require_key-Preserves :
        (z : ZoneParser) (wait : Waiting c) (orders : RangeOrders) (conn : DnsConnector)
        (o : Option Text)
        → Preserves P (require_key c l z wait orders conn o)
    require_key-Preserves z wait orders conn (some corefile) =
        unfold require_key in pure-Preserves _
    require_key-Preserves z wait orders conn none =
        unfold require_key in give_up-Preserves conn conn _ _ _

    original_corefile-Preserves :
        (z : ZoneParser) (wait : Waiting c) (orders : RangeOrders)
        → ((o : ConfigMap) → Preserves P (c.create config_maps o))
        → (conn : DnsConnector) → Preserves P (original_corefile c l z wait orders conn)
    original_corefile-Preserves z wait orders creates conn =
        unfold original_corefile in
        bind-Preserves (or_give_up-Preserves _ _ _ _ (fetch_coredns_conf_cm-Preserves conn)) (λ cm.
          then-Preserves (require_key-Preserves z wait orders conn _) (
            then-Preserves
              (or_give_up-Preserves _ _ _ _ (backup_original_corefile_cm-Preserves l creates cm))
              (pure-Preserves _)))

    make_changes-Preserves :
        (z : ZoneParser) (wait : Waiting c) (orders : RangeOrders) (conn : DnsConnector)
        (cm : ConfigMap) (w : WorkloadKind × Workload) (zones : List DnsZone × List ConfigMap)
        → Preserves P (make_changes c l z wait orders conn cm w zones)
    make_changes-Preserves z wait orders conn cm w zones =
        unfold make_changes in
        bind-Preserves (or_give_up-Preserves _ _ _ _ (lift-Preserves _)) (λ corefile_cm.
          bind-Preserves (gets-Preserves _) (λ now.
            bind-Preserves (or_give_up-Preserves _ _ _ _ (lift-Preserves _))
              (λ updated. pure-Preserves _)))

    -- Before the writes, only the backup is created and the connector's status written.
    pub prepare-Preserves :
        (z : ZoneParser) (wait : Waiting c) (orders : RangeOrders)
        → ((o : ConfigMap) → Preserves P (c.create config_maps o))
        → (conn : DnsConnector) → Preserves P (prepare c l z wait orders conn)
    prepare-Preserves z wait orders creates conn =
        unfold prepare in
        bind-Preserves (original_corefile-Preserves z wait orders creates conn) (λ cm.
          bind-Preserves (or_give_up-Preserves _ _ _ _ (fetch_coredns_deployment-Preserves conn))
            (λ w.
              bind-Preserves (fetch_good_zonefile_cm-Preserves conn)
                (λ zones. make_changes-Preserves z wait orders conn cm w zones)))
