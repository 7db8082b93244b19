-- ===== src/Connector/Status.antt =====
-- The conditions and status updates of internal/controller/dnsconnector_controller.go
use coredns_manager_operator.Common.{ℕ, not, List, [], ◌∷◌, ◌++◌, if◌then◌else◌}
use coredns_manager_operator.Common.Text.{Text, text}
use coredns_manager_operator.Errors.{Error, Result, ok, err}
use coredns_manager_operator.Api.Meta.{Condition, ConditionStatus, condition_false, key_of}
use coredns_manager_operator.Api.DnsZone.{DnsZone}
use coredns_manager_operator.Api.DnsConnector.{DnsConnector, condition_connector_type_ready}
use coredns_manager_operator.Kube.{
  dns_connectors, dns_zones, Client, Library, ZoneParser, Exec, pure, raise, gets, ◌>>=◌, ◌>>◌,
  wrapped,
}
use coredns_manager_operator.Kube.Finalizers.{get_obj_from_k8s}
use coredns_manager_operator.Zone.Update.{set_dns_zone_condition}

module _ (c : Client) (l : Library) where
  -- `setDnsConnectorCondition`, at the time `now`
  unfoldable pub set_dns_connector_condition :
      ℕ → DnsConnector → ConditionStatus → Text → Text → DnsConnector
  set_dns_connector_condition now conn status reason message =
      let condition : Condition = record {
        type_name = condition_connector_type_ready;
        status = status;
        last_transition_time = now;
        reason = reason;
        message = message;
        observed_generation = conn.meta.generation;
      } in
      record conn {
        status = record conn.status {
          conditions = l.set_status_condition conn.status.conditions condition;
        };
      }

  -- `refreshDNSConnectorResource`: the object that it fetches is a copy, and is not used
  unfoldable pub refresh_dns_connector_resource : DnsConnector → Exec c.State Unit
  refresh_dns_connector_resource conn = do
    _ ←
        wrapped (text "failed to refresh DNSConnector resource: ")
          (get_obj_from_k8s c dns_connectors (key_of conn.meta))
    pure tt

  -- `dnsConnectorUpdateStatus`. The update overwrites the object by what the server has stored, so
  -- the object is given back.
  unfoldable pub dns_connector_update_status :
      DnsConnector → DnsConnector → Exec c.State DnsConnector
  dns_connector_update_status previous current =
      if not (l.equal_connector_status previous.status current.status)
      then wrapped (text "failed to update status and condition: ")
          (c.update_status dns_connectors current)
      else pure current

  -- A condition is set and the status updated.
  unfoldable pub show_condition :
      DnsConnector → DnsConnector → ConditionStatus → Text → Text → Exec c.State DnsConnector
  show_condition previous current status reason message = do
    now ← gets c.now
    dns_connector_update_status previous
        (set_dns_connector_condition now current status reason message)

  -- The status tells the error, which is returned.
  unfoldable pub give_up :
      {A : Type 0} → DnsConnector → DnsConnector → Text → Text → Error → Exec c.State A
  give_up previous current reason message e = do
    _ ← show_condition previous current condition_false reason (message ++ e.message)
    raise e

  -- `if err != nil` in `reconcileDNSConnector`: a refresh before the status is updated
  unfoldable pub recover :
      {A : Type 0} → DnsConnector → DnsConnector → Text → Text → Result A → Exec c.State A
  recover previous current reason message (ok a) = pure a
  recover previous current reason message (err e) = do
    refresh_dns_connector_resource previous
    give_up previous current reason message e

  unfoldable pub or_give_up :
      {A : Type 0} → DnsConnector → DnsConnector → Text → Text → Exec c.State A → Exec c.State A
  or_give_up previous current reason message m s =
      let (r, s') = m s in recover previous current reason message r s'

  module _ (z : ZoneParser) where
    -- The body of the loop of `notifyGoodDNSZones`, for the zone that was fetched
    unfoldable pub notify_fetched : ConditionStatus → Text → Text → DnsZone → Exec c.State Unit
    notify_fetched status reason message zone =
        if zone.status.validation_passed
        then (do
          now ← gets c.now
          _ ← wrapped (text "failed to update status and condition: ") (
              c.update_status dns_zones
                (set_dns_zone_condition c l z now zone status reason message))
          pure tt)
        else pure tt

    -- `notifyGoodDNSZones`
    unfoldable pub notify_good_dns_zones :
        ConditionStatus → Text → Text → List DnsZone → Exec c.State Unit
    notify_good_dns_zones status reason message [] = pure tt
    notify_good_dns_zones status reason message (zone ∷ zones) = do
      current ←
          wrapped (text "failed to refresh DNSRecord resource: ")
            (get_obj_from_k8s c dns_zones (key_of zone.meta))
      notify_fetched status reason message current
      notify_good_dns_zones status reason message zones
