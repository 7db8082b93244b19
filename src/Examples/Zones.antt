-- ===== src/Examples/Zones.antt =====
-- The zone a.org with two records, and the comparison of its zone files.
use mathlib.Core.List.{Permᴰ}
use coredns_manager_operator.Common.{◌≡◌, ◌≢◌, refl, true, false, some, [], ◌∷◌, ◌++◌, arith}
use coredns_manager_operator.Common.Text.{Text, text, newline, split, eqb, contains, has_prefix}
use coredns_manager_operator.Common.Text.Equality.{eqb_iff}
use coredns_manager_operator.Common.Sort.Laws.{Distinct}
use coredns_manager_operator.Common.Dict.{lookup}
use coredns_manager_operator.Common.Dict.Agreement.{same_map, same_map_iff}
use coredns_manager_operator.Errors.{ok}
use coredns_manager_operator.Api.Meta.{ConfigMap, empty_meta}
use coredns_manager_operator.Api.DnsRecord.{DnsRecord}
use coredns_manager_operator.Api.DnsZone.{DnsZone}
use coredns_manager_operator.Zone.Construction.{
  BakedRecords, zone_header, header_lines, construct_zone_file, construct_zone_config_map,
  good_dns_records, bake_records, records_of,
}
use coredns_manager_operator.Zone.Construction.Contents.{
  IsOneLine, construct_zone_file-lines, records_of-order, bake_records-count,
}
use coredns_manager_operator.Zone.Compare.{
  has_serial, serial_word, remove_serial_number, compare_zonefile_config_maps,
}
use coredns_manager_operator.Zone.Compare.Masks.{plain_lines}
use coredns_manager_operator.Zone.Compare.Laws.{
  remove_serial_number_blind, compare-plain_lines, compare-construct_again,
}

abbrev pub zone : DnsZone
zone = record {
  meta = record empty_meta { name = text "zone-a" };
  spec = record {
    cm_prefix = text "coredns-zone-";
    domain = text "a.org";
    primary_ns = record {
      hostname = text "ns";
      ip_address = text "10.0.0.1";
      record_type = text "A";
    };
    resp_person_email = text "admin.a.org";
    ttl = 86400;
    refresh_rate = 7200;
    retry_interval = 3600;
    expire_time = 1209600;
    minimum_ttl = 86400;
    connector_name = text "coredns";
  };
  status = record {
    conditions = [];
    current_zone_serial = [];
    record_count = 0;
    validation_passed = false;
    zone_configmap = [];
    checkpoint = false;
  };
}

abbrev entry : Text → Text → DnsRecord
entry name line = record {
  meta = record empty_meta { name = name };
  spec = record {
    entry = record { name = name; value = []; type_name = text "A"; ttl = [] };
    dns_zone_ref = text "zone-a";
  };
  status = record { conditions = []; validation_passed = true; generated_record = line };
}

abbrev www : DnsRecord
www = entry (text "www") (text "www IN A 10.0.0.2")

abbrev api : DnsRecord
api = entry (text "api") (text "api IN A 10.0.0.3")

abbrev serial : Text
serial = text "0102030405"

zone-IsOneLine : IsOneLine zone
zone-IsOneLine = omega arith

construct_zone_file-lines_example :
    (b : BakedRecords) × (z : Text) × (records_of (api ∷ www ∷ []) ≡ ok b)
    × (construct_zone_file zone b.records_string serial ≡ ok z)
    × (split z newline
        ≡ header_lines (zone_header zone serial)
          ++ text "api IN A 10.0.0.3" ∷ text "www IN A 10.0.0.2" ∷ [])
construct_zone_file-lines_example =
    construct_zone_file-lines zone serial api (www ∷ []) zone-IsOneLine (omega arith) (omega arith)

bake_records-count_example :
    (b : BakedRecords) × (bake_records (api ∷ www ∷ []) ≡ ok b) × (b.count ≡ 2)
bake_records-count_example = bake_records-count api (www ∷ []) (omega arith)

names_apart : text "www" ≢ text "api"
unfolding eqb
names_apart e =
    let h : false ≡ true = (eqb_iff (text "www") (text "api")).1 e in absurd (ground arith)

names_differ : Distinct (λ r. r.meta.name) (www ∷ api ∷ [])
names_differ = ((names_apart, tt), (tt, tt))

records_of-order_example :
    records_of (good_dns_records (www ∷ api ∷ [])) ≡ records_of (good_dns_records (api ∷ www ∷ []))
records_of-order_example = records_of-order (Permᴰ.swap refl refl) names_differ

compare-construct_again_example :
    (z z' : Text) × (cm cm' : ConfigMap) × (construct_zone_file zone
        (text "www IN A 10.0.0.2")
        serial
      ≡ ok z)
    × (construct_zone_file zone (text "www IN A 10.0.0.2") (text "0102030406") ≡ ok z')
    × (construct_zone_config_map (text "zone-a") zone z [] ≡ ok cm)
    × (construct_zone_config_map (text "zone-a") zone z' [] ≡ ok cm')
    × (compare_zonefile_config_maps same_map cm cm' ≡ true)
compare-construct_again_example =
    compare-construct_again same_map same_map_iff zone (text "zone-a") (text "www IN A 10.0.0.2")
      serial (text "0102030406") [] [] (omega arith) (omega arith)

abbrev small : Text → ConfigMap
small z = record { meta = empty_meta; contents = (text "a.org.zone", z) ∷ [] }

abbrev earlier : Text
earlier = text "$TTL 60s\n\t1    ; Serial"

abbrev later : Text
later = text "$TTL 60s\n\t2    ; Serial"

small-compare : compare_zonefile_config_maps same_map (small earlier) (small later) ≡ true
unfolding compare_zonefile_config_maps
small-compare = (same_map_iff _ _).1 (λ k. refl)

compare-plain_lines_example :
    (z' : Text) × (lookup (text "a.org.zone") (small later).contents ≡ some z')
    × (plain_lines earlier ≡ plain_lines z')
compare-plain_lines_example =
    compare-plain_lines same_map same_map_iff (small earlier) (small later) (text "a.org.zone")
      earlier small-compare (unfold lookup eqb in refl)

remove_serial_number_blind_example :
    remove_serial_number (text "mail\t IN TXT Serial-1")
    ≡ remove_serial_number (text "mail\t IN TXT Serial-2")
remove_serial_number_blind_example =
    remove_serial_number_blind (text "mail") (text " IN TXT Serial-1") (text " IN TXT Serial-2")
      (omega arith) (omega arith) (omega arith) (omega arith)
      (unfold has_serial serial_word contains has_prefix in refl)
      (unfold has_serial serial_word contains has_prefix in refl)
