-- ===== src/Watch/Setup.antt =====
-- The controllers that the three SetupWithManager functions of internal/controller build.
use coredns_manager_operator.Common.{[], ◌∷◌}
use coredns_manager_operator.Kube.{dns_records, dns_zones, dns_connectors}
use coredns_manager_operator.Watch.{
  dns_record_changed_reconcile_request, dns_zone_changed_reconcile_request,
}
use coredns_manager_operator.Watch.Events.{Predicates, Controller}

module _ (p : Predicates) where
  unfoldable pub dns_record_controller : Controller
  dns_record_controller = record {
    for_kind = dns_records;
    for_predicates = [];
    event_filters = p.generation_changed ∷ [];
    watches = [];
  }

  unfoldable pub dns_zone_controller : Controller
  unfolding dns_record_changed_reconcile_request
  dns_zone_controller = record {
    for_kind = dns_zones;
    for_predicates = [];
    event_filters = p.generation_changed ∷ [];
    watches =
        record {
          kind = dns_records;
          map_func = dns_record_changed_reconcile_request;
          predicates = p.generation_changed ∷ [];
        }
        ∷ [];
  }

  unfoldable pub dns_connector_controller : Controller
  unfolding dns_zone_changed_reconcile_request
  dns_connector_controller = record {
    for_kind = dns_connectors;
    for_predicates = p.generation_changed ∷ [];
    event_filters = [];
    watches =
        record {
          kind = dns_zones;
          map_func = dns_zone_changed_reconcile_request;
          predicates = p.resource_version_changed ∷ [];
        }
        ∷ [];
  }
