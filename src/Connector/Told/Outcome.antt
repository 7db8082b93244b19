-- ===== src/Connector/Told/Outcome.antt =====
-- The zones behind a reconciliation of a connector, in
-- internal/controller/dnsconnector_controller.go.
use coredns_manager_operator.Common.{
  ◌≡◌, ◌≢◌, ap, sym, ◌∙◌, subst, inl, inr, arith, not, List, All, All-map,
}
use coredns_manager_operator.Common.Text.{Text, text}
use coredns_manager_operator.Errors.{ok}
use coredns_manager_operator.Api.Meta.{
  NamespacedName, ConditionStatus, condition_true, condition_false, key_of,
}
use coredns_manager_operator.Api.DnsZone.{
  DnsZone, condition_reason_zone_active, condition_reason_zone_pending,
}
use coredns_manager_operator.Api.DnsConnector.{DnsConnector, dns_connectors_finalizer_name}
use coredns_manager_operator.Kube.{
  dns_zones, dns_connectors, Client, Library, ZoneParser, IsStored, IsSeparate, StoresZoneStatus,
  pure, lift, gets,
}
use coredns_manager_operator.Kube.Outcome.{bind-ok, then-ok, wrapped-ok, get_obj-ok}
use coredns_manager_operator.Kube.Finalizers.{get_obj_from_k8s, remove_finalizer}
use coredns_manager_operator.Record.Reconcile.{ReconcileResult}
use coredns_manager_operator.Connector.Fetch.{fetch_good_zones}
use coredns_manager_operator.Connector.Health.{Waiting}
use coredns_manager_operator.Connector.Status.{
  notify_good_dns_zones, show_condition, dns_connector_update_status,
  refresh_dns_connector_resource, set_dns_connector_condition,
}
use coredns_manager_operator.Connector.Reconcile.{
  RangeOrders, Changes, dns_zone_stats, prepare, apply_changes, await_coredns, announce,
  reconcile_dns_connector, reconcile_delete,
}
use coredns_manager_operator.Connector.Backup.{restore_original_corefile_cm}
use coredns_manager_operator.Connector.Told.{IsTold, branch-ok, notify_good_dns_zones-IsTold}

dns_zones-ne-dns_connectors : dns_zones ≢ dns_connectors
dns_zones-ne-dns_connectors e = ground arith

pub refresh-ok :
    (c : Client) (l : Library) (conn : DnsConnector) (s t : c.State)
    → refresh_dns_connector_resource c l conn s ≡ (ok tt, t)
    → t ≡ s
unfolding refresh_dns_connector_resource pure
refresh-ok c l conn s t h =
    let (o, u, got, ends) = bind-ok _ _ s tt t h in
    let (_, stays) =
      get_obj-ok c dns_connectors (key_of conn.meta) s u o
        (wrapped-ok _ (get_obj_from_k8s c dns_connectors (key_of conn.meta)) s o u got) in
    sym (ap (λ x. x.1) ends) ∙ stays

module _ (c : Client) (l : Library) (separate : IsSeparate c) (key : NamespacedName) where
  update_status-keeps :
      (previous current o : DnsConnector) (s t : c.State)
      → dns_connector_update_status c l previous current s ≡ (ok o, t)
      → c.get dns_zones key t ≡ c.get dns_zones key s
  unfolding dns_connector_update_status pure
  update_status-keeps previous current o s t h =
      elim (branch-ok (not (l.equal_connector_status previous.status current.status)) _ _ s t o h) [
        | inl ran ↦
            subst (λ x. c.get dns_zones key x ≡ c.get dns_zones key s)
              (ap (λ x. x.1) (wrapped-ok _ (c.update_status dns_connectors current) s o t ran))
              (separate.get-update_status_other dns_connectors dns_zones current key s
                (inl dns_zones-ne-dns_connectors))
        | inr (_, ran) ↦ ap (c.get dns_zones key) (sym (ap (λ x. x.1) ran))
      ]

  show_condition-keeps :
      (previous current o : DnsConnector) (st : ConditionStatus) (reason message : Text)
      (s t : c.State)
      → show_condition c l previous current st reason message s ≡ (ok o, t)
      → c.get dns_zones key t ≡ c.get dns_zones key s
  unfolding show_condition gets
  show_condition-keeps previous current o st reason message s t h =
      let (now, u, timed, rest) = bind-ok _ _ s o t h in
      update_status-keeps previous (set_dns_connector_condition c l now current st reason message) o
        u t rest
      ∙ ap (c.get dns_zones key) (sym (ap (λ x. x.1) timed))

module _ (c : Client) (l : Library) (z : ZoneParser) (wait : Waiting c) (orders : RangeOrders)
    (stores : IsStored c dns_zones) (statuses : StoresZoneStatus c) (separate : IsSeparate c)
    (conn : DnsConnector) where
  -- The zone has been told that the connector has picked it up, and that the connector is gone.
  abbrev pub IsActive : c.State → DnsZone → Type 0
  IsActive t zone =
      IsTold c l z condition_true condition_reason_zone_active (text "Picked up by DNSConnector.") t
        (key_of zone.meta)

  abbrev pub IsPending : c.State → DnsZone → Type 0
  IsPending t zone =
      IsTold c l z condition_false condition_reason_zone_pending
        (text "DNSConnector has been removed") t (key_of zone.meta)

  IsActive-kept :
      (zone : DnsZone) (s t : c.State)
      → ((key : NamespacedName) → c.get dns_zones key t ≡ c.get dns_zones key s)
      → IsActive s zone
      → IsActive t zone
  IsActive-kept zone s t keeps active = record {
    stored = active.stored;
    found = keeps (key_of zone.meta) ∙ active.found;
    told = active.told;
  }

  announce-tells :
      (updating : DnsConnector) (changes : Changes) (s t : c.State) (d : ReconcileResult)
      → announce c l z wait orders conn updating changes s ≡ (ok d, t)
      → All (IsActive t) changes.zones
  unfolding announce lift pure
  announce-tells updating changes s t d h =
      let (u, notified, rest) =
        then-ok (notify_good_dns_zones c l z _ _ _ changes.zones) _ s d t h in
      let (stats, u₁, collected, rest₁) =
        bind-ok (lift (dns_zone_stats changes.zone_cms)) _ u d t rest in
      let (u₂, refreshed, rest₂) =
        then-ok (refresh_dns_connector_resource c l conn) _ u₁ d t rest₁ in
      let (o, u₃, shown, ends) = bind-ok _ _ u₂ d t rest₂ in
      let from : u₂ ≡ u = refresh-ok c l conn u₁ u₂ refreshed ∙ sym (ap (λ x. x.1) collected) in
      let keeps : (key : NamespacedName) → c.get dns_zones key t ≡ c.get dns_zones key u = λ key.
        ap (c.get dns_zones key) (sym (ap (λ x. x.1) ends))
        ∙ (show_condition-keeps c l separate key conn
              (record updating {
                status = record updating.status { provisioned_dns_zones = stats };
              })
              o _ _ _ u₂ u₃ shown
            ∙ ap (c.get dns_zones key) from) in
      All-map (IsActive u) (IsActive t) changes.zones
        (λ zone told. IsActive-kept zone u t keeps told)
        (notify_good_dns_zones-IsTold c l z _ _ _ stores statuses separate changes.zones s u
          notified)

  -- A reconciliation of a connector that returns no error tells every zone that it serves: behind
  -- it, each of these zones is on the API server, and it has the condition that the connector has
  -- picked it up, or the stored status says that its zone file has failed the validation. A write
  -- of a zone's status stores it, and a write of a status leaves other objects alone.
  pub reconcile_dns_connector-tells :
      (s t : c.State) (d : ReconcileResult)
      → reconcile_dns_connector c l z wait orders conn s ≡ (ok d, t)
      → (changes : Changes) × (u : c.State) × (prepare c l z wait orders conn s ≡ (ok changes, u))
        × All (IsActive t) changes.zones
  unfolding reconcile_dns_connector
  reconcile_dns_connector-tells s t d h =
      let (changes, a, prepared, applied) = bind-ok (prepare c l z wait orders conn) _ s d t h in
      let (b, _, awaited) =
        then-ok (apply_changes c l z wait orders conn changes) _ a d t applied in
      let (updating, e, _, announced) =
        bind-ok (await_coredns c l z wait orders conn) _ b d t awaited in
      (changes, a, prepared, announce-tells updating changes e t d announced)

  -- A deletion of a connector that returns no error has restored the Corefile config map, has then
  -- removed the finalizer, and has then fetched the zones of the connector; and, behind it, each of
  -- the zones that it has fetched so is on the API server, and it has the condition that the
  -- connector has been removed, or the stored status says that its zone file has failed the
  -- validation. A write of a zone's status stores it and leaves other objects alone.
  pub reconcile_delete-tells :
      (s t : c.State) (d : ReconcileResult)
      → reconcile_delete c l z wait orders conn s ≡ (ok d, t)
      → (zones : List DnsZone) × (a : c.State) × (u : c.State) × (v : c.State)
        × (restore_original_corefile_cm c conn s ≡ (ok tt, a))
        × (remove_finalizer c l dns_connectors (key_of conn.meta) dns_connectors_finalizer_name a
            ≡ (ok tt, u))
        × (fetch_good_zones c conn u ≡ (ok zones, v))
        × All (IsPending t) zones
  unfolding reconcile_delete pure
  reconcile_delete-tells s t d h =
      let (a, back, restored) = then-ok (restore_original_corefile_cm c conn) _ s d t h in
      let (b, removed, released) =
        then-ok
          (remove_finalizer c l dns_connectors (key_of conn.meta) dns_connectors_finalizer_name) _ a
          d t restored in
      let (zones, e, fetched, rest) = bind-ok (fetch_good_zones c conn) _ b d t released in
      let (f, notified, ends) = then-ok (notify_good_dns_zones c l z _ _ _ zones) _ e d t rest in
      (
        zones,
        a,
        b,
        e,
        back,
        removed,
        fetched,
        subst (λ x. All (IsPending x) zones) (ap (λ x. x.1) ends)
            (notify_good_dns_zones-IsTold c l z _ _ _ stores statuses separate zones e f notified),
      )
