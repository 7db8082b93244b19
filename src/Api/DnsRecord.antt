-- ===== src/Api/DnsRecord.antt =====
-- api/v1alpha1/dnsrecord_types.go
use coredns_manager_operator.Common.{Bool, not, List, ◌++◌, if◌then◌else◌}
use coredns_manager_operator.Common.Text.{Text, text, has_suffix}
use coredns_manager_operator.Api.Meta.{ObjectMeta, Condition}

-- Shut, so that proofs see names and not long lists of characters.
pub condition_record_type_ready : Text
condition_record_type_ready = text "Ready"

pub condition_reason_record_ready : Text
condition_reason_record_ready = text "Ready"

pub condition_reason_record_pending : Text
condition_reason_record_pending = text "Pending"

pub condition_reason_record_degraded : Text
condition_reason_record_degraded = text "Degraded"

pub dns_records_finalizer_name : Text
dns_records_finalizer_name = text "dnsrecords/finalizers"

-- `Record`; the name `Record` of the source is `RecordData` here
pub record RecordData : Type 0 where
  pub name : Text
  pub value : Text
  pub type_name : Text
  pub ttl : Text

-- `DNSRecordSpec`. The CRD requires both pointers; of the reference the code uses the name.
pub record DnsRecordSpec : Type 0 where
  pub entry : RecordData
  pub dns_zone_ref : Text

-- `DNSRecordStatus`
pub record DnsRecordStatus : Type 0 where
  pub conditions : List Condition
  pub validation_passed : Bool
  pub generated_record : Text

-- `DNSRecord`
pub record DnsRecord : Type 0 where
  pub meta : ObjectMeta
  pub spec : DnsRecordSpec
  pub status : DnsRecordStatus

abbrev pub dot : Text
dot = text "."

-- `EnsureFQDN`
unfoldable pub ensure_fqdn : Text → Text
ensure_fqdn name = if not (has_suffix name dot) then name ++ dot else name
