-- ===== src/Examples/Joined.antt =====
-- A zone with one good record, on an API server in memory.
use coredns_manager_operator.Common.{◌≡◌, ◌⊎◌, refl, true, none, some, keep, List, [], ◌∷◌, All}
use coredns_manager_operator.Common.Text.{Text, text}
use coredns_manager_operator.Errors.{ok}
use coredns_manager_operator.Api.DnsRecord.{DnsRecord}
use coredns_manager_operator.Kube.Memory.{helpers}
use coredns_manager_operator.Kube.Store.{Store, store}
use coredns_manager_operator.Kube.Store.Records.{
  store-IsStored, store-StoresRecordStatus, store-KeepsOtherRecords,
}
use coredns_manager_operator.Record.Reconcile.{done}
use coredns_manager_operator.Common.Sort.{sort_by, insert_sorted}
use coredns_manager_operator.Zone.Reconcile.{renew_zone, mark_record, mark_records}
use coredns_manager_operator.Kube.{◌>>=◌, lift, ◌>>◌, gets, pure, raise, wrapped}
use coredns_manager_operator.Zone.Construction.{
  records_of, good_dns_records, construct_zone_file, bake_records, template_zone_header,
  zone_header,
}
use coredns_manager_operator.Kube.Store.{listed, newest_of, rewritten}
use coredns_manager_operator.Zone.Update.{
  create_or_update_zone_cm, zone_cm_fetched, renew_zone_cm, build_zone, judge_zone, cm_conn_obj,
  cm_name, dns_zone_update_status, refresh_dns_zone_resource, refuse_zone, refused, report,
  set_dns_zone_condition, without_times,
}
use coredns_manager_operator.Record.Validation.{validate_records, validate_loop, final_error}
use coredns_manager_operator.Api.DnsRecord.{ensure_fqdn}
use coredns_manager_operator.Common.Text.{has_suffix, eqb}
use coredns_manager_operator.Kube.Finalizers.{get_obj_from_k8s}
use coredns_manager_operator.Record.Reconcile.{set_dns_record_condition}
use coredns_manager_operator.Zone.Reconcile.{get_good_dns_records, reconcile_create_or_update}
use coredns_manager_operator.Zone.Told.{HasJoined}
use coredns_manager_operator.Zone.Joined.{IsZoneFile, IsRefused, reconcile_create_or_update-joins}
use coredns_manager_operator.Kube.Store.Separate.{store-IsSeparate}
use coredns_manager_operator.Examples.Records.{held}
use coredns_manager_operator.Examples.Updates.{refusal, parser_of}
use coredns_manager_operator.Examples.Zones.{zone}

abbrev pub good : DnsRecord
good = record held {
  status = record held.status {
    validation_passed = true;
    generated_record = text "www IN A 10.0.0.2";
  };
}

abbrev pub before : Store
before = record { records = good ∷ []; zones = zone ∷ []; connectors = []; maps = []; works = [] }

joined :
    (t : Store) × (reconcile_create_or_update store helpers (parser_of (some refusal)) zone before
      ≡ (ok done, t))
unfolding reconcile_create_or_update get_good_dns_records keep sort_by insert_sorted renew_zone
    ◌>>=◌ lift records_of good_dns_records listed ◌>>◌ create_or_update_zone_cm zone_cm_fetched
    newest_of renew_zone_cm gets build_zone construct_zone_file judge_zone validate_records
    validate_loop final_error ensure_fqdn has_suffix eqb get_obj_from_k8s pure raise wrapped
    set_dns_record_condition bake_records template_zone_header zone_header mark_record mark_records
    cm_conn_obj cm_name dns_zone_update_status refresh_dns_zone_resource refuse_zone refused report
    set_dns_zone_condition without_times rewritten
joined = (_, refl)

reconcile_create_or_update-joins_example :
    (rs : List DnsRecord) × (zonefile : Text) × (get_good_dns_records store helpers
        (parser_of (some refusal))
        zone
        before
      ≡ ok rs)
    × IsZoneFile store helpers (parser_of (some refusal)) zone rs before zonefile
    × ((validate_records (parser_of (some refusal)) zonefile ≡ none)
        ⊎ IsRefused store helpers (parser_of (some refusal)) zone before joined.0 zonefile)
    × All
        (HasJoined store helpers
          (parser_of (some refusal))
          store-IsStored
          store-StoresRecordStatus
          store-KeepsOtherRecords
          zone
          joined.0)
        rs
reconcile_create_or_update-joins_example =
    reconcile_create_or_update-joins store helpers (parser_of (some refusal)) zone store-IsStored
      store-StoresRecordStatus store-KeepsOtherRecords store-IsSeparate before joined.0 done
      joined.1
