-- ===== src/Copies/DeepCopyInto.antt =====
-- The `DeepCopyInto` methods of api/v1alpha1/zz_generated.deepcopy.go, each as the struct that it
-- writes into `out` and the memory behind it. A struct is passed as a value: a method writes `*out`
-- from `*in`.
pub mod Laws
use coredns_manager_operator.Common.{◌≡◌, Option}
use coredns_manager_operator.Common.Text.{Text}
use coredns_manager_operator.Api.Meta.{Condition}
use coredns_manager_operator.Api.DnsRecord.{RecordData}
use coredns_manager_operator.Api.DnsZone.{PrimaryNs, DnsZoneHeader}
use coredns_manager_operator.Api.DnsConnector.{
  CorednsConfigMap, CorednsDeploymentType, ProvisionedDnsZone,
}
use coredns_manager_operator.Copies.Memory.{
  Address, Slice, Memory, DnsRecordSpecLayout, DnsRecordStatusLayout, DnsRecordLayout,
  DnsZoneSpecLayout, DnsZoneStatusLayout, DnsZoneLayout, DnsConnectorSpecLayout,
  DnsConnectorStatusLayout, DnsConnectorLayout, ListMetaLayout, ObjectMetaLayout, DnsListLayout,
}
use coredns_manager_operator.Copies.Memory.Types.{
  record_cells, reference_cells, primary_ns_cells, condition_cells, text_cells, provisioned_cells,
  dns_record_cells, dns_zone_cells, dns_connector_cells,
}
use coredns_manager_operator.Copies.References.{copy_pointer, copy_slice, copy_plain}
use coredns_manager_operator.Copies.References.Laws.{IsDeepCopy}
use coredns_manager_operator.Copies.Seen.{see_meta, IsLiveMeta, see_list_meta, IsLiveListMeta}

-- The `DeepCopyInto` of `metav1.ObjectMeta`, `metav1.ListMeta` and `metav1.Condition` of
-- apimachinery. A condition has no references.
pub record MetaCopies : Type 0 where
  pub copy_meta : ObjectMetaLayout → Memory → ObjectMetaLayout × Memory
  pub copy_list_meta : ListMetaLayout Address → Memory → ListMetaLayout Address × Memory
  pub copy_condition : Condition → Condition

-- As it is documented, they are deep copies of the receiver.
pub record IsCopying (c : MetaCopies) : Type 0 where
  pub meta_deep : IsDeepCopy see_meta IsLiveMeta c.copy_meta
  pub list_meta_deep : IsDeepCopy see_list_meta IsLiveListMeta c.copy_list_meta
  pub condition_same : (d : Condition) → c.copy_condition d ≡ d

unfoldable pub coredns_config_map : CorednsConfigMap → Memory → CorednsConfigMap × Memory
unfolding copy_plain
coredns_config_map = copy_plain

unfoldable pub coredns_deployment_type :
    CorednsDeploymentType → Memory → CorednsDeploymentType × Memory
unfolding copy_plain
coredns_deployment_type = copy_plain

unfoldable pub dns_zone_header : DnsZoneHeader → Memory → DnsZoneHeader × Memory
unfolding copy_plain
dns_zone_header = copy_plain

unfoldable pub primary_ns : PrimaryNs → Memory → PrimaryNs × Memory
unfolding copy_plain
primary_ns = copy_plain

unfoldable pub provisioned_dns_zone : ProvisionedDnsZone → Memory → ProvisionedDnsZone × Memory
unfolding copy_plain
provisioned_dns_zone = copy_plain

unfoldable pub record_data : RecordData → Memory → RecordData × Memory
unfolding copy_plain
record_data = copy_plain

unfoldable pub dns_record_spec :
    DnsRecordSpecLayout Address Address → Memory → DnsRecordSpecLayout Address Address × Memory
unfolding copy_pointer
dns_record_spec s h =
    let (entry, h') = copy_pointer record_cells s.entry h in
    let (zone, h'') = copy_pointer reference_cells s.dns_zone_ref h' in
    (record s { entry = entry; dns_zone_ref = zone }, h'')

unfoldable pub dns_zone_spec :
    DnsZoneSpecLayout Address → Memory → DnsZoneSpecLayout Address × Memory
unfolding copy_pointer
dns_zone_spec s h =
    let (ns, h') = copy_pointer primary_ns_cells s.primary_ns h in
    (record s { primary_ns = ns }, h')

-- `copy(*out, *in)` for the texts
unfoldable pub dns_connector_spec :
    DnsConnectorSpecLayout Slice → Memory → DnsConnectorSpecLayout Slice × Memory
unfolding copy_slice copy_plain
dns_connector_spec s h =
    let (plugins, h') = copy_slice text_cells copy_plain s.coredns_zone_enabled_plugins h in
    (record s { coredns_zone_enabled_plugins = plugins }, h')

module _ (c : MetaCopies) where
  -- The loop over the conditions of a status.
  unfoldable pub conditions : Option Slice → Memory → Option Slice × Memory
  unfolding copy_slice
  conditions = copy_slice condition_cells (λ d h. (c.copy_condition d, h))

  unfoldable pub dns_record_status :
      DnsRecordStatusLayout Slice → Memory → DnsRecordStatusLayout Slice × Memory
  unfolding conditions
  dns_record_status s h =
      let (copies, h') = conditions s.conditions h in (record s { conditions = copies }, h')

  unfoldable pub dns_zone_status :
      DnsZoneStatusLayout Slice → Memory → DnsZoneStatusLayout Slice × Memory
  unfolding conditions
  dns_zone_status s h =
      let (copies, h') = conditions s.conditions h in (record s { conditions = copies }, h')

  unfoldable pub dns_connector_status :
      DnsConnectorStatusLayout Slice Slice → Memory → DnsConnectorStatusLayout Slice Slice × Memory
  unfolding conditions copy_slice copy_plain
  dns_connector_status s h =
      let (copies, h') = conditions s.conditions h in
      let (zones, h'') = copy_slice provisioned_cells copy_plain s.provisioned_dns_zones h' in
      (record s { conditions = copies; provisioned_dns_zones = zones }, h'')

  -- `out.TypeMeta = in.TypeMeta`, `in.ObjectMeta.DeepCopyInto(&out.ObjectMeta)`, and the spec and the
  -- status
  unfoldable pub dns_record : DnsRecordLayout → Memory → DnsRecordLayout × Memory
  unfolding dns_record_spec dns_record_status
  dns_record o h =
      let (meta, h₁) = c.copy_meta o.meta h in
      let (spec, h₂) = dns_record_spec o.spec h₁ in
      let (status, h₃) = dns_record_status o.status h₂ in
      (record { type_meta = o.type_meta; meta = meta; spec = spec; status = status }, h₃)

  unfoldable pub dns_zone : DnsZoneLayout → Memory → DnsZoneLayout × Memory
  unfolding dns_zone_spec dns_zone_status
  dns_zone o h =
      let (meta, h₁) = c.copy_meta o.meta h in
      let (spec, h₂) = dns_zone_spec o.spec h₁ in
      let (status, h₃) = dns_zone_status o.status h₂ in
      (record { type_meta = o.type_meta; meta = meta; spec = spec; status = status }, h₃)

  unfoldable pub dns_connector : DnsConnectorLayout → Memory → DnsConnectorLayout × Memory
  unfolding dns_connector_spec dns_connector_status
  dns_connector o h =
      let (meta, h₁) = c.copy_meta o.meta h in
      let (spec, h₂) = dns_connector_spec o.spec h₁ in
      let (status, h₃) = dns_connector_status o.status h₂ in
      (record { type_meta = o.type_meta; meta = meta; spec = spec; status = status }, h₃)

  unfoldable pub dns_record_list : DnsListLayout → Memory → DnsListLayout × Memory
  unfolding copy_slice dns_record
  dns_record_list o h =
      let (meta, h₁) = c.copy_list_meta o.meta h in
      let (items, h₂) = copy_slice dns_record_cells dns_record o.items h₁ in
      (record { type_meta = o.type_meta; meta = meta; items = items }, h₂)

  unfoldable pub dns_zone_list : DnsListLayout → Memory → DnsListLayout × Memory
  unfolding copy_slice dns_zone
  dns_zone_list o h =
      let (meta, h₁) = c.copy_list_meta o.meta h in
      let (items, h₂) = copy_slice dns_zone_cells dns_zone o.items h₁ in
      (record { type_meta = o.type_meta; meta = meta; items = items }, h₂)

  unfoldable pub dns_connector_list : DnsListLayout → Memory → DnsListLayout × Memory
  unfolding copy_slice dns_connector
  dns_connector_list o h =
      let (meta, h₁) = c.copy_list_meta o.meta h in
      let (items, h₂) = copy_slice dns_connector_cells dns_connector o.items h₁ in
      (record { type_meta = o.type_meta; meta = meta; items = items }, h₂)
