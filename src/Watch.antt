-- ===== src/Watch.antt =====
-- The field indexes and the mapping of watched objects to requests in `SetupWithManager`,
-- `dnsRecordChangedReconcileRequest` and `dnsZoneChangedReconcileRequest` of
-- internal/controller/dnszone_controller.go and internal/controller/dnsconnector_controller.go. The
-- delay before a request is left out.
pub mod Events
pub mod Setup
pub mod Requests
use coredns_manager_operator.Common.{
  ◌≡◌, refl, List, [], ◌∷◌, map, keep, not, Bool-cases, inl, inr, if◌then◌else◌,
}
use coredns_manager_operator.Common.Text.{Text, eqb}
use coredns_manager_operator.Api.Meta.{NamespacedName}
use coredns_manager_operator.Api.DnsRecord.{DnsRecord}
use coredns_manager_operator.Api.DnsZone.{DnsZone}
use coredns_manager_operator.Kube.{
  Kind, Object, dns_records, dns_zones, dns_connectors, config_maps, workloads,
}

-- The values of the index `DnsRecordIndex` for a record.
unfoldable pub dns_record_index : DnsRecord → List Text
dns_record_index r = if eqb r.spec.dns_zone_ref [] then [] else r.spec.dns_zone_ref ∷ []

-- The values of the index `DnsZoneConnectorIndex` for a zone.
unfoldable pub dns_zone_connector_index : DnsZone → List Text
dns_zone_connector_index zone =
    if eqb zone.spec.connector_name [] then [] else zone.spec.connector_name ∷ []

-- `dnsRecordChangedReconcileRequest`: an object of another kind cannot be cast
unfoldable pub dns_record_changed_reconcile_request : (k : Kind) → Object k → List NamespacedName
dns_record_changed_reconcile_request dns_records r =
    record { name = r.spec.dns_zone_ref; namespace = r.meta.namespace } ∷ []
dns_record_changed_reconcile_request dns_zones o = []
dns_record_changed_reconcile_request dns_connectors o = []
dns_record_changed_reconcile_request config_maps o = []
dns_record_changed_reconcile_request (workloads k) o = []

-- `dnsZoneChangedReconcileRequest`
unfoldable pub dns_zone_changed_reconcile_request : (k : Kind) → Object k → List NamespacedName
dns_zone_changed_reconcile_request dns_zones zone =
    record { name = zone.spec.connector_name; namespace = zone.meta.namespace } ∷ []
dns_zone_changed_reconcile_request dns_records o = []
dns_zone_changed_reconcile_request dns_connectors o = []
dns_zone_changed_reconcile_request config_maps o = []
dns_zone_changed_reconcile_request (workloads k) o = []

-- The names that requests name.
names : List NamespacedName → List Text
unfolding keep
names keys = keep (λ name. not (eqb name [])) (map (λ (key : NamespacedName). key.name) keys)

index_lem :
    (name : Text) (namespace : Text)
    → names (record { name = name; namespace = namespace } ∷ [])
      ≡ (if eqb name [] then [] else name ∷ [])
unfolding names keep
index_lem name namespace = elim (Bool-cases (eqb name [])) [
  | inl none ↦ rw none refl
  | inr some ↦ rw some refl
]

-- The watches and the field indexes agree: a change of a record asks for the zone, and a change of a
-- zone for the connector, under whose name the index lists the object, and for no other one, except that
-- an object that names none gives a request without a name.
changed_reconcile_request-index :
    (r : DnsRecord) (zone : DnsZone)
    → (names (dns_record_changed_reconcile_request dns_records r) ≡ dns_record_index r)
      × (names (dns_zone_changed_reconcile_request dns_zones zone) ≡ dns_zone_connector_index zone)
unfolding dns_record_changed_reconcile_request dns_zone_changed_reconcile_request dns_record_index
    dns_zone_connector_index
changed_reconcile_request-index r zone = (
  index_lem r.spec.dns_zone_ref r.meta.namespace,
  index_lem zone.spec.connector_name zone.meta.namespace,
)
