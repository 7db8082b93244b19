-- ===== src/Connector/Outcome.antt =====
-- What the reconciler of internal/controller/dnsconnector_controller.go has done when it reports
-- success.
use coredns_manager_operator.Common.{◌≡◌, ap, ◌∙◌, inl, inr, List, ◌++◌}
use coredns_manager_operator.Common.Text.{Text, text}
use coredns_manager_operator.Errors.{Error, Result, ok, err, Result-cases}
use coredns_manager_operator.Api.DnsConnector.{
  DnsConnector, ProvisionedDnsZone, condition_reason_connector_active,
}
use coredns_manager_operator.Kube.{Client, Library, ZoneParser, Exec, pure, raise}
use coredns_manager_operator.Kube.Outcome.{err-ne-ok, bind-ok, then-ok}
use coredns_manager_operator.Connector.Backup.{failing_with, instead}
use coredns_manager_operator.Connector.Health.{Waiting, IsWaiting}
use coredns_manager_operator.Connector.Status.{
  refresh_dns_connector_resource, show_condition, give_up, recover, or_give_up,
  notify_good_dns_zones,
}
use coredns_manager_operator.Api.Meta.{condition_true, condition_false}
use coredns_manager_operator.Api.DnsZone.{condition_reason_zone_active}
use coredns_manager_operator.Connector.Reconcile.{RangeOrders, Changes}
use coredns_manager_operator.Connector.Stats.{AreProvisioned}

module _ {S A : Type 0} (e : Error) (m : Exec S A) (s : S) where
  pub failing_with-ok : (a : A) (t : S) → failing_with e m s ≡ (ok a, t) → m s ≡ (ok a, t)
  unfolding failing_with instead
  failing_with-ok a t h = elim (Result-cases (m s).0) [
    | inl (b, q) ↦ (λ i. (q i, (m s).1)) ∙ (rw q at h)
    | inr (e', q) ↦ err-ne-ok (rw q at h)
  ]

module _ (c : Client) (l : Library) where
  pub give_up-fails :
      {A : Type 0} (previous current : DnsConnector) (reason message : Text) (e : Error)
      (s t : c.State) (a : A)
      → give_up c l previous current reason message e s ≡ (ok a, t)
      → ⊥
  unfolding give_up raise
  give_up-fails previous current reason message e s t a h =
      let (shown, u, _, raised) =
        bind-ok (show_condition c l previous current condition_false reason (message ++ e.message))
          (λ x. raise e) s a t h in
      err-ne-ok raised

  recover-ok :
      {A : Type 0} (previous current : DnsConnector) (reason message : Text) (r : Result A)
      (s t : c.State) (a : A)
      → recover c l previous current reason message r s ≡ (ok a, t)
      → (r ≡ ok a) × (s ≡ t)
  unfolding recover pure
  recover-ok previous current reason message (ok b) s t a h = (ap (λ x. x.0) h, ap (λ x. x.1) h)
  recover-ok previous current reason message (err e) s t a h =
      let (u, _, gave_up) =
        then-ok (refresh_dns_connector_resource c l previous)
          (give_up c l previous current reason message e) s a t h in
      absurd (give_up-fails previous current reason message e u t a gave_up)

  pub or_give_up-ok :
      {A : Type 0} (previous current : DnsConnector) (reason message : Text) (m : Exec c.State A)
      (s t : c.State) (a : A)
      → or_give_up c l previous current reason message m s ≡ (ok a, t)
      → m s ≡ (ok a, t)
  unfolding or_give_up
  or_give_up-ok previous current reason message m s t a h =
      let (first, second) = recover-ok previous current reason message (m s).0 (m s).1 t a h in
      λ i. (first i, second i)

module _ (c : Client) (l : Library) (z : ZoneParser) (wait : Waiting c) (orders : RangeOrders)
    (passes : c.State → c.State → Type 0) (waits : IsWaiting c wait passes)
    (conn : DnsConnector) where
  -- What a reconciliation reports at its end: stats that say what the annotations of the config maps
  -- say, in the status of its last update, with the condition that CoreDNS is ready, in the state behind
  -- the notification of the zones.
  abbrev pub IsReported : DnsConnector → Changes → c.State → c.State → Type 0
  IsReported updating changes d t =
      (stats : List ProvisionedDnsZone) × (o : DnsConnector) × (e : c.State) × AreProvisioned
        changes.zone_cms stats
      × (notify_good_dns_zones c l z condition_true condition_reason_zone_active
            (text "Picked up by DNSConnector.") changes.zones d
          ≡ (ok tt, e))
      × (show_condition c l conn
            (record updating { status = record updating.status { provisioned_dns_zones = stats } })
            condition_true condition_reason_connector_active (text "CoreDNS Ready") e
          ≡ (ok o, t))
