-- ===== src/Connector/Honest.antt =====
-- The statuses of DNSRecords under the reconciler of
-- internal/controller/dnsconnector_controller.go
use coredns_manager_operator.Common.{◌≢◌, subst, ap, arith, Bool, List}
use coredns_manager_operator.Common.Text.{Text}
use coredns_manager_operator.Errors.{Result, ok, err, is_not_found}
use coredns_manager_operator.Api.Meta.{NamespacedName, ConditionStatus}
use coredns_manager_operator.Api.DnsZone.{DnsZone}
use coredns_manager_operator.Api.DnsConnector.{DnsConnector}
use coredns_manager_operator.Kube.{
  dns_records, dns_zones, dns_connectors, config_maps, workloads, Client, Library, ZoneParser, Exec,
}
use coredns_manager_operator.Kube.Preserve.{
  Preserves, pure-Preserves, lift-Preserves, bind-Preserves, then-Preserves, if-Preserves,
  either_way,
}
use coredns_manager_operator.Kube.Finalizers.Safety.{
  add_finalizer-Preserves, remove_finalizer-Preserves,
}
use coredns_manager_operator.Record.Reconcile.{done}
use coredns_manager_operator.Record.Honest.{
  SeparatesStatus, IsHonest, update_status_other-Preserves, update-Preserves, create-Preserves,
}
use coredns_manager_operator.Zone.Update.Honest.{dns_zones-ne-dns_records}
use coredns_manager_operator.Connector.Health.{
  Waiting, Polled, ready, failed, timed_out, again, IsWaiting, fetched_is_ready, coredns_is_ready,
  coredns_is_healthy,
}
use coredns_manager_operator.Connector.Status.{notify_good_dns_zones}
use coredns_manager_operator.Connector.Safety.{
  failing_with-Preserves, fetch_coredns_deployment-Preserves, fetch_good_zones-Preserves,
  refresh_dns_connector_resource-Preserves, restore_original_corefile_cm-Preserves,
  notify_good_dns_zones-Preserves, show_condition-Preserves, or_give_up-Preserves,
  prepare-Preserves,
}
use coredns_manager_operator.Connector.Reconcile.{
  RangeOrders, Changes, apply_changes, await_coredns, announce, reconcile_dns_connector,
  reconcile_delete, reconcile_found, reconcile_fetched, reconcile,
}
use coredns_manager_operator.System.Meanwhile.{Meanwhile, Meanwhile-IsHonest}

dns_connectors-ne-dns_records : dns_connectors ≢ dns_records
dns_connectors-ne-dns_records e = ground arith

-- What holds before a poll, and is kept by its condition and by what passes, holds behind it.
Polled-run :
    {S : Type 0} {P : S → Type 0} {passes : S → S → Type 0} {condition : Exec S Bool}
    {r : Result (Unit {0})} {t s : S}
    → Preserves P condition
    → ((u v : S) → passes u v → P u → P v)
    → Polled passes condition r t s
    → P s
    → P t
Polled-run {P = P} keeps waits (ready s e _) h = subst P (ap (λ x. x.1) e) (keeps.run s h)
Polled-run {P = P} keeps waits (failed s e' e _) h = subst P (ap (λ x. x.1) e) (keeps.run s h)
Polled-run {P = P} {t = t} keeps waits (timed_out s u e' e gone _) h =
    waits u t gone (subst P (ap (λ x. x.1) e) (keeps.run s h))
Polled-run {P = P} keeps waits (again s u v e gone rest) h =
    Polled-run keeps waits rest (waits u v gone (subst P (ap (λ x. x.1) e) (keeps.run s h)))

module _ (c : Client) (l : Library) (z : ZoneParser) (wait : Waiting c) (orders : RangeOrders)
    (separates : SeparatesStatus c) (waits : IsWaiting c wait (Meanwhile c l z)) where
  fetched_is_ready-Preserves :
      (conn : DnsConnector) → Preserves (IsHonest c z) (fetched_is_ready c conn)
  fetched_is_ready-Preserves conn =
      unfold fetched_is_ready in
      bind-Preserves (fetch_coredns_deployment-Preserves c conn) (λ w. pure-Preserves _)

  coredns_is_ready-Preserves :
      (conn : DnsConnector) → Preserves (IsHonest c z) (coredns_is_ready c wait conn)
  coredns_is_ready-Preserves conn = record {
    run = λ s h.
        unfold coredns_is_ready in
        (fetched_is_ready-Preserves conn).run (wait.sleep 6 s)
          (Meanwhile-IsHonest c l z separates (waits.slept 6 s) h);
  }

  coredns_is_healthy-Preserves :
      (conn : DnsConnector) → Preserves (IsHonest c z) (coredns_is_healthy c wait conn)
  unfolding coredns_is_healthy
  coredns_is_healthy-Preserves conn = record {
    run = λ s h.
        Polled-run (coredns_is_ready-Preserves conn) (λ u v. Meanwhile-IsHonest c l z separates)
          (waits.polled 3 conn.spec.wait_for_update_timeout (coredns_is_ready c wait conn) s) h;
  }

  shows : (o : DnsConnector) → Preserves (IsHonest c z) (c.update_status dns_connectors o)
  shows o =
      update_status_other-Preserves c l z separates dns_connectors o dns_connectors-ne-dns_records

  notifies :
      (st : ConditionStatus) (reason message : Text) (zones : List DnsZone)
      → Preserves (IsHonest c z) (notify_good_dns_zones c l z st reason message zones)
  notifies st reason message zones =
      notify_good_dns_zones-Preserves c l z
        (λ zone.
          update_status_other-Preserves c l z separates dns_zones zone dns_zones-ne-dns_records)
        st reason message zones

  apply_changes-Preserves :
      (conn : DnsConnector) (changes : Changes)
      → Preserves (IsHonest c z) (apply_changes c l z wait orders conn changes)
  apply_changes-Preserves conn changes =
      unfold apply_changes in
      bind-Preserves
        (or_give_up-Preserves c l shows _ _ _ _
          (update-Preserves c l z separates (workloads changes.kind) _))
        (λ stored.
          bind-Preserves
            (or_give_up-Preserves c l shows _ _ _ _
              (update-Preserves c l z separates config_maps _))
            (λ stored'. pure-Preserves _))

  await_coredns-Preserves :
      (conn : DnsConnector) → Preserves (IsHonest c z) (await_coredns c l z wait orders conn)
  await_coredns-Preserves conn =
      unfold await_coredns in
      then-Preserves (refresh_dns_connector_resource-Preserves c l conn) (
        bind-Preserves (show_condition-Preserves c l shows _ _ _ _ _) (λ updating.
          then-Preserves
            (or_give_up-Preserves c l shows _ _ _ _
              (failing_with-Preserves c _ (coredns_is_healthy-Preserves updating)))
            (pure-Preserves _)))

  announce-Preserves :
      (conn updating : DnsConnector) (changes : Changes)
      → Preserves (IsHonest c z) (announce c l z wait orders conn updating changes)
  announce-Preserves conn updating changes =
      unfold announce in
      then-Preserves (notifies _ _ _ _) (
        bind-Preserves (lift-Preserves _) (λ stats.
          then-Preserves (refresh_dns_connector_resource-Preserves c l conn) (
            bind-Preserves (show_condition-Preserves c l shows _ _ _ _ _)
              (λ active. pure-Preserves _))))

  reconcile_dns_connector-Preserves :
      (conn : DnsConnector)
      → Preserves (IsHonest c z) (reconcile_dns_connector c l z wait orders conn)
  reconcile_dns_connector-Preserves conn =
      unfold reconcile_dns_connector in
      bind-Preserves
        (prepare-Preserves c l shows z wait orders (create-Preserves c l z separates) conn)
        (λ changes. then-Preserves (apply_changes-Preserves conn changes) (
          bind-Preserves (await_coredns-Preserves conn)
            (λ updating. announce-Preserves conn updating changes)))

  reconcile_delete-Preserves :
      (conn : DnsConnector) → Preserves (IsHonest c z) (reconcile_delete c l z wait orders conn)
  reconcile_delete-Preserves conn =
      unfold reconcile_delete in
      then-Preserves
        (restore_original_corefile_cm-Preserves c (update-Preserves c l z separates config_maps)
          conn)
        (then-Preserves
          (remove_finalizer-Preserves c dns_connectors _ l _
            (update-Preserves c l z separates dns_connectors))
          (bind-Preserves (fetch_good_zones-Preserves c conn)
            (λ zones. then-Preserves (notifies _ _ _ zones) (pure-Preserves _))))

  reconcile_found-Preserves :
      (conn : DnsConnector) → Preserves (IsHonest c z) (reconcile_found c l z wait orders conn)
  reconcile_found-Preserves conn =
      unfold reconcile_found in
      if-Preserves _
        (then-Preserves
          (add_finalizer-Preserves c dns_connectors _ l _
            (update-Preserves c l z separates dns_connectors))
          (pure-Preserves _))
        (if-Preserves _ (reconcile_delete-Preserves conn) (reconcile_dns_connector-Preserves conn))

  reconcile_run :
      (f : Result DnsConnector) (s : c.State)
      → IsHonest c z s
      → IsHonest c z (reconcile_fetched c l z wait orders f s).1
  unfolding reconcile_fetched
  reconcile_run (ok conn) s h = (reconcile_found-Preserves conn).run s h
  reconcile_run (err e) s h = rw (either_way (is_not_found e) (ok done) (err e) s) h

  pub reconcile_connector-Preserves :
      (req : NamespacedName) → Preserves (IsHonest c z) (reconcile c l z wait orders req)
  reconcile_connector-Preserves req = record {
    run = λ s h. unfold reconcile in reconcile_run (c.get dns_connectors req s) s h;
  }
