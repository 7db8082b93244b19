-- ===== src/Copies/Seen.antt =====
-- What is seen of an API object in memory, as a tree without references, and when all of its
-- references are live.
use coredns_manager_operator.Common.{ℕ, Option, List}
use coredns_manager_operator.Common.Text.{Text}
use coredns_manager_operator.Common.Dict.{Dict}
use coredns_manager_operator.Api.Meta.{OwnerReference, Condition}
use coredns_manager_operator.Api.DnsRecord.{RecordData}
use coredns_manager_operator.Api.DnsZone.{PrimaryNs}
use coredns_manager_operator.Api.DnsConnector.{ProvisionedDnsZone}
use coredns_manager_operator.Copies.Memory.{
  Address, Slice, Memory, ObjectReference, DnsRecordSpecLayout, DnsRecordStatusLayout,
  DnsRecordLayout, DnsZoneSpecLayout, DnsZoneStatusLayout, DnsZoneLayout, DnsConnectorSpecLayout,
  DnsConnectorStatusLayout, DnsConnectorLayout, ListLayout, ObjectLayout, MetaLayout,
  ListMetaLayout, ObjectMetaLayout, DnsListLayout,
}
use coredns_manager_operator.Copies.Memory.Types.{
  number_cells, map_cells, owner_cells, record_cells, reference_cells, primary_ns_cells,
  condition_cells, text_cells, provisioned_cells, dns_record_cells, dns_zone_cells,
  dns_connector_cells,
}
use coredns_manager_operator.Copies.References.{
  see_pointer, IsLivePointer, see_slice, IsLiveSlice, see_plain, IsLivePlain,
}

-- The metadata
abbrev pub SeenMeta : Type 0
SeenMeta = MetaLayout ℕ (Dict Text) (List OwnerReference) (List Text)

abbrev pub see_meta : ObjectMetaLayout → Memory → SeenMeta
see_meta m h = record {
  name = m.name;
  namespace = m.namespace;
  uid = m.uid;
  resource_version = m.resource_version;
  generation = m.generation;
  deletion_timestamp = see_pointer number_cells m.deletion_timestamp h;
  labels = see_pointer map_cells m.labels h;
  annotations = see_pointer map_cells m.annotations h;
  owner_references = see_slice owner_cells see_plain m.owner_references h;
  finalizers = see_slice text_cells see_plain m.finalizers h;
}

abbrev pub IsLiveMeta : ObjectMetaLayout → Memory → Type 0
IsLiveMeta m h =
    IsLivePointer number_cells m.deletion_timestamp h
    × (IsLivePointer map_cells m.labels h
        × (IsLivePointer map_cells m.annotations h
            × (IsLiveSlice owner_cells IsLivePlain m.owner_references h
                × IsLiveSlice text_cells IsLivePlain m.finalizers h)))

abbrev pub see_list_meta : ListMetaLayout Address → Memory → ListMetaLayout ℕ
see_list_meta m h = record {
  resource_version = m.resource_version;
  continue_token = m.continue_token;
  remaining_item_count = see_pointer number_cells m.remaining_item_count h;
}

abbrev pub IsLiveListMeta : ListMetaLayout Address → Memory → Type 0
IsLiveListMeta m h = IsLivePointer number_cells m.remaining_item_count h

abbrev pub see_record_spec :
    DnsRecordSpecLayout Address Address → Memory → DnsRecordSpecLayout RecordData ObjectReference
see_record_spec s h = record {
  entry = see_pointer record_cells s.entry h;
  dns_zone_ref = see_pointer reference_cells s.dns_zone_ref h;
}

abbrev pub IsLiveRecordSpec : DnsRecordSpecLayout Address Address → Memory → Type 0
IsLiveRecordSpec s h =
    IsLivePointer record_cells s.entry h × IsLivePointer reference_cells s.dns_zone_ref h

abbrev pub see_conditions : Option Slice → Memory → Option (List Condition)
see_conditions = see_slice condition_cells see_plain

abbrev pub IsLiveConditions : Option Slice → Memory → Type 0
IsLiveConditions = IsLiveSlice condition_cells IsLivePlain

abbrev pub see_record_status :
    DnsRecordStatusLayout Slice → Memory → DnsRecordStatusLayout (List Condition)
see_record_status s h = record {
  conditions = see_conditions s.conditions h;
  validation_passed = s.validation_passed;
  generated_record = s.generated_record;
}

abbrev pub see_zone_spec : DnsZoneSpecLayout Address → Memory → DnsZoneSpecLayout PrimaryNs
see_zone_spec s h = record {
  cm_prefix = s.cm_prefix;
  domain = s.domain;
  primary_ns = see_pointer primary_ns_cells s.primary_ns h;
  resp_person_email = s.resp_person_email;
  ttl = s.ttl;
  refresh_rate = s.refresh_rate;
  retry_interval = s.retry_interval;
  expire_time = s.expire_time;
  minimum_ttl = s.minimum_ttl;
  connector_name = s.connector_name;
}

abbrev pub see_zone_status :
    DnsZoneStatusLayout Slice → Memory → DnsZoneStatusLayout (List Condition)
see_zone_status s h = record {
  conditions = see_conditions s.conditions h;
  current_zone_serial = s.current_zone_serial;
  record_count = s.record_count;
  validation_passed = s.validation_passed;
  zone_configmap = s.zone_configmap;
  checkpoint = s.checkpoint;
}

abbrev pub see_connector_spec :
    DnsConnectorSpecLayout Slice → Memory → DnsConnectorSpecLayout (List Text)
see_connector_spec s h = record {
  wait_for_update_timeout = s.wait_for_update_timeout;
  coredns_cm = s.coredns_cm;
  coredns_deployment = s.coredns_deployment;
  coredns_zone_enabled_plugins = see_slice text_cells see_plain s.coredns_zone_enabled_plugins h;
}

abbrev pub see_connector_status :
    DnsConnectorStatusLayout Slice Slice
    → Memory
    → DnsConnectorStatusLayout (List Condition) (List ProvisionedDnsZone)
see_connector_status s h = record {
  conditions = see_conditions s.conditions h;
  provisioned_dns_zones = see_slice provisioned_cells see_plain s.provisioned_dns_zones h;
}

abbrev pub SeenRecord : Type 0
SeenRecord =
    ObjectLayout SeenMeta (DnsRecordSpecLayout RecordData ObjectReference)
      (DnsRecordStatusLayout (List Condition))

abbrev pub see_record : DnsRecordLayout → Memory → SeenRecord
see_record o h = record {
  type_meta = o.type_meta;
  meta = see_meta o.meta h;
  spec = see_record_spec o.spec h;
  status = see_record_status o.status h;
}

abbrev pub IsLiveRecord : DnsRecordLayout → Memory → Type 0
IsLiveRecord o h =
    IsLiveMeta o.meta h × (IsLiveRecordSpec o.spec h × IsLiveConditions o.status.conditions h)

abbrev pub SeenZone : Type 0
SeenZone =
    ObjectLayout SeenMeta (DnsZoneSpecLayout PrimaryNs) (DnsZoneStatusLayout (List Condition))

abbrev pub see_zone : DnsZoneLayout → Memory → SeenZone
see_zone o h = record {
  type_meta = o.type_meta;
  meta = see_meta o.meta h;
  spec = see_zone_spec o.spec h;
  status = see_zone_status o.status h;
}

abbrev pub IsLiveZone : DnsZoneLayout → Memory → Type 0
IsLiveZone o h =
    IsLiveMeta o.meta h
    × (IsLivePointer primary_ns_cells o.spec.primary_ns h × IsLiveConditions o.status.conditions h)

abbrev pub SeenConnector : Type 0
SeenConnector =
    ObjectLayout SeenMeta (DnsConnectorSpecLayout (List Text))
      (DnsConnectorStatusLayout (List Condition) (List ProvisionedDnsZone))

abbrev pub see_connector : DnsConnectorLayout → Memory → SeenConnector
see_connector o h = record {
  type_meta = o.type_meta;
  meta = see_meta o.meta h;
  spec = see_connector_spec o.spec h;
  status = see_connector_status o.status h;
}

abbrev pub IsLiveConnector : DnsConnectorLayout → Memory → Type 0
IsLiveConnector o h =
    IsLiveMeta o.meta h
    × (IsLiveSlice text_cells IsLivePlain o.spec.coredns_zone_enabled_plugins h
        × (IsLiveConditions o.status.conditions h
            × IsLiveSlice provisioned_cells IsLivePlain o.status.provisioned_dns_zones h))

abbrev pub SeenList : Type 0 → Type 0
SeenList V = ListLayout (ListMetaLayout ℕ) (List V)

abbrev pub see_record_list : DnsListLayout → Memory → SeenList SeenRecord
see_record_list o h = record {
  type_meta = o.type_meta;
  meta = see_list_meta o.meta h;
  items = see_slice dns_record_cells see_record o.items h;
}

abbrev pub IsLiveRecordList : DnsListLayout → Memory → Type 0
IsLiveRecordList o h = IsLiveListMeta o.meta h × IsLiveSlice dns_record_cells IsLiveRecord o.items h

abbrev pub see_zone_list : DnsListLayout → Memory → SeenList SeenZone
see_zone_list o h = record {
  type_meta = o.type_meta;
  meta = see_list_meta o.meta h;
  items = see_slice dns_zone_cells see_zone o.items h;
}

abbrev pub IsLiveZoneList : DnsListLayout → Memory → Type 0
IsLiveZoneList o h = IsLiveListMeta o.meta h × IsLiveSlice dns_zone_cells IsLiveZone o.items h

abbrev pub see_connector_list : DnsListLayout → Memory → SeenList SeenConnector
see_connector_list o h = record {
  type_meta = o.type_meta;
  meta = see_list_meta o.meta h;
  items = see_slice dns_connector_cells see_connector o.items h;
}

abbrev pub IsLiveConnectorList : DnsListLayout → Memory → Type 0
IsLiveConnectorList o h =
    IsLiveListMeta o.meta h × IsLiveSlice dns_connector_cells IsLiveConnector o.items h
