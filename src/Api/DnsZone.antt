-- ===== src/Api/DnsZone.antt =====
-- api/v1alpha1/dnszone_types.go
use coredns_manager_operator.Common.{ℕ, ◌+◌, ◌/◌, ◌%◌, Bool, List, [], ◌∷◌, ◌++◌}
use coredns_manager_operator.Common.Text.{Text, text}
use coredns_manager_operator.Api.Meta.{ObjectMeta, Condition}

unfoldable pub condition_zone_type_ready : Text
condition_zone_type_ready = text "Ready"

pub condition_reason_zone_active : Text
condition_reason_zone_active = text "Active"

pub condition_reason_zone_pending : Text
condition_reason_zone_pending = text "Pending"

pub condition_reason_zone_update_err : Text
condition_reason_zone_update_err = text "UpdateError"

pub dns_zones_finalizer_name : Text
dns_zones_finalizer_name = text "dnszones/finalizers"

pub record PrimaryNs : Type 0 where
  pub hostname : Text
  pub ip_address : Text
  pub record_type : Text

-- `DNSZoneSpec`. The CRD requires `primaryNS`. A Go `uint` has 64 bits; the code only prints it.
pub record DnsZoneSpec : Type 0 where
  pub cm_prefix : Text
  pub domain : Text
  pub primary_ns : PrimaryNs
  pub resp_person_email : Text
  pub ttl : ℕ
  pub refresh_rate : ℕ
  pub retry_interval : ℕ
  pub expire_time : ℕ
  pub minimum_ttl : ℕ
  pub connector_name : Text

-- `DNSZoneStatus`
pub record DnsZoneStatus : Type 0 where
  pub conditions : List Condition
  pub current_zone_serial : Text
  pub record_count : ℕ
  pub validation_passed : Bool
  pub zone_configmap : Text
  pub checkpoint : Bool

-- `DNSZone`
pub record DnsZone : Type 0 where
  pub meta : ObjectMeta
  pub spec : DnsZoneSpec
  pub status : DnsZoneStatus

-- `DNSZoneHeader`
pub record DnsZoneHeader : Type 0 where
  pub domain_name : Text
  pub primary_ns_hostname : Text
  pub primary_ns_ip : Text
  pub primary_ns_type : Text
  pub resp_person : Text
  pub serial : Text
  pub zone_ttl : ℕ
  pub refresh : ℕ
  pub retry : ℕ
  pub expire : ℕ
  pub minimum_ttl : ℕ

-- The local time that `time.Now()` gives, in the parts that the code formats.
pub record Time : Type 0 where
  pub month : ℕ
  pub day : ℕ
  pub hour : ℕ
  pub minute : ℕ
  pub second : ℕ

-- A number below 100 in two digits.
unfoldable pub two_digits : ℕ → Text
two_digits n = (48 + n / 10) ∷ (48 + n % 10) ∷ []

-- `DNSZoneGenerateSerial`: `now.Format("0102150405")`; the error that it returns is always nil
unfoldable pub dns_zone_generate_serial : Time → Text
unfolding two_digits
dns_zone_generate_serial now =
    two_digits now.month
    ++ (two_digits now.day
        ++ (two_digits now.hour ++ (two_digits now.minute ++ two_digits now.second)))
