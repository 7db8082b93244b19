-- ===== src/Copies/DeepCopy.antt =====
-- The `DeepCopy` methods of api/v1alpha1/zz_generated.deepcopy.go. A pointer is `none` for nil, or
-- stands for the struct that it points at.
use coredns_manager_operator.Common.{Option, none, some}
use coredns_manager_operator.Api.DnsRecord.{RecordData}
use coredns_manager_operator.Api.DnsZone.{PrimaryNs, DnsZoneHeader}
use coredns_manager_operator.Api.DnsConnector.{
  CorednsConfigMap, CorednsDeploymentType, ProvisionedDnsZone,
}
use coredns_manager_operator.Copies.Memory.{
  Address, Slice, Memory, DnsRecordSpecLayout, DnsRecordStatusLayout, DnsRecordLayout,
  DnsZoneSpecLayout, DnsZoneStatusLayout, DnsZoneLayout, DnsConnectorSpecLayout,
  DnsConnectorStatusLayout, DnsConnectorLayout, DnsListLayout,
}
use coredns_manager_operator.Copies.DeepCopyInto
use coredns_manager_operator.Copies.DeepCopyInto.{MetaCopies}

-- `if in == nil { return nil }; out := new(T); in.DeepCopyInto(out); return out`
abbrev pub copy_unless_nil :
    {A : Type 0} → (A → Memory → A × Memory) → Option A → Memory → Option A × Memory
copy_unless_nil into none h = (none, h)
copy_unless_nil into (some x) h = let (out, h') = into x h in (some out, h')

unfoldable pub coredns_config_map :
    Option CorednsConfigMap → Memory → Option CorednsConfigMap × Memory
unfolding DeepCopyInto.coredns_config_map
coredns_config_map = copy_unless_nil DeepCopyInto.coredns_config_map

unfoldable pub coredns_deployment_type :
    Option CorednsDeploymentType → Memory → Option CorednsDeploymentType × Memory
unfolding DeepCopyInto.coredns_deployment_type
coredns_deployment_type = copy_unless_nil DeepCopyInto.coredns_deployment_type

unfoldable pub dns_zone_header : Option DnsZoneHeader → Memory → Option DnsZoneHeader × Memory
unfolding DeepCopyInto.dns_zone_header
dns_zone_header = copy_unless_nil DeepCopyInto.dns_zone_header

unfoldable pub primary_ns : Option PrimaryNs → Memory → Option PrimaryNs × Memory
unfolding DeepCopyInto.primary_ns
primary_ns = copy_unless_nil DeepCopyInto.primary_ns

unfoldable pub provisioned_dns_zone :
    Option ProvisionedDnsZone → Memory → Option ProvisionedDnsZone × Memory
unfolding DeepCopyInto.provisioned_dns_zone
provisioned_dns_zone = copy_unless_nil DeepCopyInto.provisioned_dns_zone

unfoldable pub record_data : Option RecordData → Memory → Option RecordData × Memory
unfolding DeepCopyInto.record_data
record_data = copy_unless_nil DeepCopyInto.record_data

unfoldable pub dns_record_spec :
    Option (DnsRecordSpecLayout Address Address)
    → Memory
    → Option (DnsRecordSpecLayout Address Address) × Memory
unfolding DeepCopyInto.dns_record_spec
dns_record_spec = copy_unless_nil DeepCopyInto.dns_record_spec

unfoldable pub dns_zone_spec :
    Option (DnsZoneSpecLayout Address) → Memory → Option (DnsZoneSpecLayout Address) × Memory
unfolding DeepCopyInto.dns_zone_spec
dns_zone_spec = copy_unless_nil DeepCopyInto.dns_zone_spec

unfoldable pub dns_connector_spec :
    Option (DnsConnectorSpecLayout Slice) → Memory → Option (DnsConnectorSpecLayout Slice) × Memory
unfolding DeepCopyInto.dns_connector_spec
dns_connector_spec = copy_unless_nil DeepCopyInto.dns_connector_spec

module _ (c : MetaCopies) where
  unfoldable pub dns_record_status :
      Option (DnsRecordStatusLayout Slice) → Memory → Option (DnsRecordStatusLayout Slice) × Memory
  unfolding DeepCopyInto.dns_record_status
  dns_record_status = copy_unless_nil (DeepCopyInto.dns_record_status c)

  unfoldable pub dns_zone_status :
      Option (DnsZoneStatusLayout Slice) → Memory → Option (DnsZoneStatusLayout Slice) × Memory
  unfolding DeepCopyInto.dns_zone_status
  dns_zone_status = copy_unless_nil (DeepCopyInto.dns_zone_status c)

  unfoldable pub dns_connector_status :
      Option (DnsConnectorStatusLayout Slice Slice)
      → Memory
      → Option (DnsConnectorStatusLayout Slice Slice) × Memory
  unfolding DeepCopyInto.dns_connector_status
  dns_connector_status = copy_unless_nil (DeepCopyInto.dns_connector_status c)

  unfoldable pub dns_record : Option DnsRecordLayout → Memory → Option DnsRecordLayout × Memory
  unfolding DeepCopyInto.dns_record
  dns_record = copy_unless_nil (DeepCopyInto.dns_record c)

  unfoldable pub dns_zone : Option DnsZoneLayout → Memory → Option DnsZoneLayout × Memory
  unfolding DeepCopyInto.dns_zone
  dns_zone = copy_unless_nil (DeepCopyInto.dns_zone c)

  unfoldable pub dns_connector :
      Option DnsConnectorLayout → Memory → Option DnsConnectorLayout × Memory
  unfolding DeepCopyInto.dns_connector
  dns_connector = copy_unless_nil (DeepCopyInto.dns_connector c)

  unfoldable pub dns_record_list : Option DnsListLayout → Memory → Option DnsListLayout × Memory
  unfolding DeepCopyInto.dns_record_list
  dns_record_list = copy_unless_nil (DeepCopyInto.dns_record_list c)

  unfoldable pub dns_zone_list : Option DnsListLayout → Memory → Option DnsListLayout × Memory
  unfolding DeepCopyInto.dns_zone_list
  dns_zone_list = copy_unless_nil (DeepCopyInto.dns_zone_list c)

  unfoldable pub dns_connector_list : Option DnsListLayout → Memory → Option DnsListLayout × Memory
  unfolding DeepCopyInto.dns_connector_list
  dns_connector_list = copy_unless_nil (DeepCopyInto.dns_connector_list c)
