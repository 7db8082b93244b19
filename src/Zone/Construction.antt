-- ===== src/Zone/Construction.antt =====
-- internal/controller/dnszone_construction.go
pub mod Contents
use coredns_manager_operator.Common.{
  ℕ, zero, suc, ◌+◌, ◌-◌, Bool, List, [], ◌∷◌, ◌++◌, length, keep, ltb, if◌then◌else◌,
}
use coredns_manager_operator.Common.Text.{Text, text, newline, tab, split}
use coredns_manager_operator.Common.Text.Lines.{unlines}
use coredns_manager_operator.Common.Decimal.{decimal}
use coredns_manager_operator.Common.Dict.{Dict}
use coredns_manager_operator.Common.Sort.{sort_by}
use coredns_manager_operator.Errors.{Result, ok, err, ◌>>=◌, wrap}
use coredns_manager_operator.Api.Meta.{ObjectMeta, OwnerReference, ConfigMap, empty_meta}
use coredns_manager_operator.Api.DnsRecord.{DnsRecord, ensure_fqdn, dot}
use coredns_manager_operator.Api.DnsZone.{DnsZone, DnsZoneHeader}

-- `bakedRecords`
pub record BakedRecords : Type 0 where
  pub count : ℕ
  pub records_string : Text

-- The line of the SOA record that holds the serial number.
unfoldable pub serial_line : Text → Text
serial_line serial = tab ∷ (serial ++ text "     ; Serial")

-- The lines of the template in front of the serial number, and those behind it.
unfoldable pub lines_before_serial : DnsZoneHeader → List Text
lines_before_serial h =
    (text "$ORIGIN " ++ h.domain_name)
    ∷ (text "$TTL " ++ (decimal h.zone_ttl ++ text "s"))
    ∷ (text "@ IN SOA "
        ++ (h.primary_ns_hostname
            ++ (dot ++ (h.domain_name ++ (text " " ++ (h.resp_person ++ text ". ("))))))
    ∷ []

unfoldable pub lines_after_serial : DnsZoneHeader → List Text
lines_after_serial h =
    (tab ∷ (decimal h.refresh ++ text "    ; Refresh"))
    ∷ (tab ∷ (decimal h.retry ++ text "      ; Retry"))
    ∷ (tab ∷ (decimal h.expire ++ text "     ; Expire"))
    ∷ (tab ∷ (decimal h.minimum_ttl ++ text " ; Minimum TTL"))
    ∷ text ")"
    ∷ (text "@ IN NS " ++ (h.primary_ns_hostname ++ (dot ++ h.domain_name)))
    ∷ (h.primary_ns_hostname
        ++ (text " IN " ++ (h.primary_ns_type ++ (text " " ++ h.primary_ns_ip))))
    ∷ []

unfoldable pub header_lines : DnsZoneHeader → List Text
header_lines h = lines_before_serial h ++ serial_line h.serial ∷ lines_after_serial h

-- `templateZoneHeader`. The template is a constant that parses, and it is executed on a value
-- with all its fields into a buffer, so both error returns stay unused.
unfoldable pub template_zone_header : DnsZoneHeader → Result Text
unfolding header_lines lines_before_serial lines_after_serial serial_line decimal
template_zone_header h = ok (unlines (header_lines h))

-- The values that `constructZoneFile` puts into the header.
unfoldable pub zone_header : DnsZone → Text → DnsZoneHeader
zone_header zone serial_number = record {
  domain_name = ensure_fqdn zone.spec.domain;
  primary_ns_hostname = zone.spec.primary_ns.hostname;
  primary_ns_ip = zone.spec.primary_ns.ip_address;
  primary_ns_type = zone.spec.primary_ns.record_type;
  resp_person = zone.spec.resp_person_email;
  serial = serial_number;
  zone_ttl = zone.spec.ttl;
  refresh = zone.spec.refresh_rate;
  retry = zone.spec.retry_interval;
  expire = zone.spec.expire_time;
  minimum_ttl = zone.spec.minimum_ttl;
}

-- `constructZoneFile`
unfoldable pub construct_zone_file : DnsZone → Text → Text → Result Text
unfolding template_zone_header zone_header ensure_fqdn
construct_zone_file zone records serial_number = do
  header ←
      wrap (text "unable to template the zoneHeader: ")
        (template_zone_header (zone_header zone serial_number))
  ok (header ++ records)

-- `constructZoneConfigMap`; the error that it returns is always nil
unfoldable pub construct_zone_config_map : Text → DnsZone → Text → Dict Text → Result ConfigMap
unfolding ensure_fqdn
construct_zone_config_map cm_obj zone zonefile_content upcoming_cm_annotations = ok (record {
  meta = record empty_meta {
    name = cm_obj;
    namespace = zone.meta.namespace;
    labels = (text "app", text "coredns-addon-operator") ∷ [];
    annotations = upcoming_cm_annotations;
    owner_references =
        record {
          api_version = zone.meta.api_version;
          kind = zone.meta.kind;
          name = zone.meta.name;
          uid = zone.meta.uid;
        }
        ∷ [];
  };
  contents = (ensure_fqdn zone.spec.domain ++ text "zone", zonefile_content) ∷ [];
})

-- `getGoodDnsRecords`, behind the call of `r.List`: the filter and the sort
unfoldable pub good_dns_records : List DnsRecord → List DnsRecord
unfolding keep sort_by
good_dns_records items = sort_by (λ r. r.meta.name) (keep (λ r. r.status.validation_passed) items)

-- The loop of `bakeRecords` at index `i`, over the records left of `n`; `sb` is what was written.
bake_loop : List DnsRecord → ℕ → ℕ → Text → Text
bake_loop [] i n sb = sb
bake_loop (r ∷ rest) i n sb =
    let written = sb ++ r.status.generated_record in
    bake_loop rest (i + 1) n (if ltb i (n - 1) then written ++ newline ∷ [] else written)

-- `bakeRecords`; the error that it returns is always nil
unfoldable pub bake_records : List DnsRecord → Result BakedRecords
unfolding bake_loop split
bake_records records =
    let baked = bake_loop records 0 (length records) [] in
    ok (record { count = length (split baked newline); records_string = baked })

-- The records that `reconcileCreateOrUpdate` puts into the zone: none, or the baked ones.
unfoldable pub records_of : List DnsRecord → Result BakedRecords
unfolding bake_records
records_of [] = ok (record { count = 0; records_string = [] })
records_of (r ∷ rs) = bake_records (r ∷ rs)
