-- ===== src/Examples/Updates.antt =====
-- The zone a.org and its config map, on an API server that holds the config map and takes no
-- writes, with parsers that accept or refuse every text.
use coredns_manager_operator.Common.{
  ◌∷◌, ◌≡◌, refl, true, exists, keep, true, false, exists, keep, Option, none, some, [], arith,
}
use coredns_manager_operator.Common.Text.{Text, text}
use coredns_manager_operator.Common.Dict.Agreement.{same_map, same_map_iff}
use coredns_manager_operator.Errors.{Error, Result, ok, err, errorf, new_error}
use coredns_manager_operator.Api.Meta.{ConfigMap}
use coredns_manager_operator.Api.DnsZone.{
  DnsZone, dns_zone_generate_serial, dns_zones_finalizer_name,
}
use coredns_manager_operator.Kube.{
  Kind, Object, dns_records, dns_zones, dns_connectors, config_maps, workloads, Client, Library,
  ZoneParser, IsSeparate,
}
use coredns_manager_operator.Kube.Memory.{helpers}
use coredns_manager_operator.Record.Validation.{validate_records, validate_loop, final_error}
use coredns_manager_operator.Zone.Construction.{
  BakedRecords, records_of, good_dns_records, construct_zone_file, construct_zone_config_map,
}
use coredns_manager_operator.Zone.Reconcile.{reconcile}
use coredns_manager_operator.Zone.Reconcile.Lifecycle.{reconcile-refuses}
use coredns_manager_operator.Common.Text.Equality.{eqb_refl}
use coredns_manager_operator.Common.Sort.{sort_by}
use coredns_manager_operator.Zone.Update.{cm_name, create_or_update_zone_cm}
use coredns_manager_operator.Zone.Update.Writes.{create_or_update_zone_cm-same}
use coredns_manager_operator.Zone.Update.Refusals.{create_or_update_zone_cm-refuses}
use coredns_manager_operator.Examples.Zones.{zone}

abbrev pub refusal : Error
refusal = new_error (text "no")

abbrev pub held_zone : DnsZone
held_zone = record zone { meta = record zone.meta { finalizers = dns_zones_finalizer_name ∷ [] } }

abbrev get_one : ConfigMap → (k : Kind) → Result (Object k)
get_one cm dns_records = err refusal
get_one cm dns_zones = ok held_zone
get_one cm dns_connectors = err refusal
get_one cm config_maps = ok cm
get_one cm (workloads k) = err refusal

abbrev frozen : ConfigMap → Client
frozen cm = record {
  State = Unit;
  get = λ k key s. get_one cm k;
  create = λ k o s. (err refusal, s);
  update = λ k o s. (err refusal, s);
  update_status = λ k o s. (err refusal, s);
  list_records = λ zone namespace s. ok [];
  list_zones = λ connector namespace s. ok [];
  now = λ s. 0;
  local_time = λ s. record { month = 1; day = 2; hour = 3; minute = 4; second = 5 };
}

frozen-IsSeparate : (cm : ConfigMap) → IsSeparate (frozen cm)
frozen-IsSeparate cm = record { get-update_status_other = λ k j o key s h. refl }

abbrev pub comparing : Library
comparing = record helpers { equal_data = same_map }

-- A parser that reads nothing and then has the given error or none.
abbrev pub parser_of : Option Error → ZoneParser
parser_of o = record {
  Parser = Unit;
  new_zone_parser = λ t. tt;
  next = λ p. (false, p);
  parse_error = λ p. o;
  remaining = λ p. 0;
}

pub accepts : (t : Text) → validate_records (parser_of none) t ≡ none
unfolding validate_records validate_loop final_error
accepts t = refl

refuses :
    (t : Text)
    → validate_records (parser_of (some refusal)) t
      ≡ some (errorf (text "error parsing records: ") refusal)
unfolding validate_records validate_loop final_error
refuses t = refl

abbrev baked : BakedRecords
baked = record { count = 1; records_string = text "www IN A 10.0.0.2" }

built : (serial : Text) → (z : Text) × (construct_zone_file zone baked.records_string serial ≡ ok z)
unfolding construct_zone_file
built serial = (_, refl)

abbrev earlier : Text
earlier = text "0101000000"

held_map :
    (cm : ConfigMap) × (construct_zone_config_map (cm_name zone) zone (built earlier).0 [] ≡ ok cm)
unfolding construct_zone_config_map
held_map = (_, refl)

abbrev now_serial : Text
now_serial =
    dns_zone_generate_serial (record { month = 1; day = 2; hour = 3; minute = 4; second = 5 })

-- The config map as the API server gives it back, behind the write of its finalizer
abbrev served_map : ConfigMap
served_map = record held_map.0 {
  meta = record held_map.0.meta {
    uid = text "7f3a";
    resource_version = text "42";
    finalizers = dns_zones_finalizer_name ∷ [];
  };
}

create_or_update_zone_cm-same_example :
    create_or_update_zone_cm (frozen served_map) comparing (parser_of none) zone baked tt
    ≡ (ok tt, tt)
create_or_update_zone_cm-same_example =
    create_or_update_zone_cm-same (frozen served_map) comparing (parser_of none) same_map_iff zone
      baked tt earlier (built earlier).0 (built now_serial).0 [] held_map.0 served_map (omega arith)
      (built earlier).1 held_map.1 refl refl (built now_serial).1 (accepts (built now_serial).0)

create_or_update_zone_cm-refuses_example :
    (frozen held_map.0).get config_maps
      (record { name = text "zone-a"; namespace = text "dns" })
      (create_or_update_zone_cm
        (frozen held_map.0)
        comparing
        (parser_of (some refusal))
        zone
        baked
        tt).1
    ≡ ok held_map.0
create_or_update_zone_cm-refuses_example =
    create_or_update_zone_cm-refuses (frozen held_map.0)
      (record { name = text "zone-a"; namespace = text "dns" }) comparing (parser_of (some refusal))
      (frozen-IsSeparate held_map.0) zone baked tt (built now_serial).0
      (errorf (text "error parsing records: ") refusal) (built now_serial).1
      (refuses (built now_serial).0)

pub has_finalizer :
    helpers.contains_finalizer (dns_zones_finalizer_name ∷ []) dns_zones_finalizer_name ≡ true
unfolding exists
has_finalizer = rw (eqb_refl dns_zones_finalizer_name)

abbrev no_records : BakedRecords
no_records = record { count = 0; records_string = [] }

none_listed : records_of (good_dns_records []) ≡ ok no_records
unfolding records_of good_dns_records sort_by keep
none_listed = refl

built_empty :
    (z : Text) × (construct_zone_file held_zone no_records.records_string now_serial ≡ ok z)
unfolding construct_zone_file
built_empty = (_, refl)

reconcile-refuses_example :
    (frozen held_map.0).get config_maps
      (record { name = text "zone-a"; namespace = text "dns" })
      (reconcile
        (frozen held_map.0)
        comparing
        (parser_of (some refusal))
        (record { name = text "zone-a"; namespace = [] })
        tt).1
    ≡ ok held_map.0
reconcile-refuses_example =
    reconcile-refuses (frozen held_map.0) (record { name = text "zone-a"; namespace = text "dns" })
      comparing (parser_of (some refusal)) (frozen-IsSeparate held_map.0)
      (record { name = text "zone-a"; namespace = [] }) held_zone [] no_records built_empty.0
      (errorf (text "error parsing records: ") refusal) tt refl has_finalizer refl refl none_listed
      built_empty.1 (refuses built_empty.0)
