-- ===== src/Copies/Memory/Types.antt =====
-- The types of the cells.
use coredns_manager_operator.Common.{ℕ, none, some, List}
use coredns_manager_operator.Common.Text.{Text}
use coredns_manager_operator.Common.Dict.{Dict}
use coredns_manager_operator.Api.Meta.{OwnerReference, Condition}
use coredns_manager_operator.Api.DnsRecord.{RecordData}
use coredns_manager_operator.Api.DnsZone.{PrimaryNs}
use coredns_manager_operator.Api.DnsConnector.{ProvisionedDnsZone}
use coredns_manager_operator.Copies.Memory.{
  ObjectReference, DnsRecordLayout, DnsZoneLayout, DnsConnectorLayout, CellType, Cell, a_number,
  a_map, some_owners, a_record, a_reference, a_primary_ns, some_conditions, some_texts,
  some_provisioned, some_records, some_zones, some_connectors,
}

abbrev pub number_cells : CellType ℕ
number_cells = record {
  to_cell = a_number;
  of_cell = λ (c : Cell). elim c [ a_number x ↦ some x | _ ↦ none ];
}

abbrev pub map_cells : CellType (Dict Text)
map_cells = record {
  to_cell = a_map;
  of_cell = λ (c : Cell). elim c [ a_map x ↦ some x | _ ↦ none ];
}

abbrev pub owner_cells : CellType (List OwnerReference)
owner_cells = record {
  to_cell = some_owners;
  of_cell = λ (c : Cell). elim c [ some_owners x ↦ some x | _ ↦ none ];
}

abbrev pub record_cells : CellType RecordData
record_cells = record {
  to_cell = a_record;
  of_cell = λ (c : Cell). elim c [ a_record x ↦ some x | _ ↦ none ];
}

abbrev pub reference_cells : CellType ObjectReference
reference_cells = record {
  to_cell = a_reference;
  of_cell = λ (c : Cell). elim c [ a_reference x ↦ some x | _ ↦ none ];
}

abbrev pub primary_ns_cells : CellType PrimaryNs
primary_ns_cells = record {
  to_cell = a_primary_ns;
  of_cell = λ (c : Cell). elim c [ a_primary_ns x ↦ some x | _ ↦ none ];
}

abbrev pub condition_cells : CellType (List Condition)
condition_cells = record {
  to_cell = some_conditions;
  of_cell = λ (c : Cell). elim c [ some_conditions x ↦ some x | _ ↦ none ];
}

abbrev pub text_cells : CellType (List Text)
text_cells = record {
  to_cell = some_texts;
  of_cell = λ (c : Cell). elim c [ some_texts x ↦ some x | _ ↦ none ];
}

abbrev pub provisioned_cells : CellType (List ProvisionedDnsZone)
provisioned_cells = record {
  to_cell = some_provisioned;
  of_cell = λ (c : Cell). elim c [ some_provisioned x ↦ some x | _ ↦ none ];
}

abbrev pub dns_record_cells : CellType (List DnsRecordLayout)
dns_record_cells = record {
  to_cell = some_records;
  of_cell = λ (c : Cell). elim c [ some_records x ↦ some x | _ ↦ none ];
}

abbrev pub dns_zone_cells : CellType (List DnsZoneLayout)
dns_zone_cells = record {
  to_cell = some_zones;
  of_cell = λ (c : Cell). elim c [ some_zones x ↦ some x | _ ↦ none ];
}

abbrev pub dns_connector_cells : CellType (List DnsConnectorLayout)
dns_connector_cells = record {
  to_cell = some_connectors;
  of_cell = λ (c : Cell). elim c [ some_connectors x ↦ some x | _ ↦ none ];
}
