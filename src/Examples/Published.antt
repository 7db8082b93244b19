-- ===== src/Examples/Published.antt =====
-- A zone with one good record and no config map, on an API server in memory.
use coredns_manager_operator.Common.{◌≡◌, ◌∙◌, refl, none, keep, exists, [], ◌∷◌, arith}
use coredns_manager_operator.Common.Dict.Agreement.{same_map, same_map_iff}
use coredns_manager_operator.Common.Sort.{sort_by, insert_sorted}
use coredns_manager_operator.Common.Text.{has_suffix, eqb, split, join, contains}
use coredns_manager_operator.Common.Dict.{lookup}
use coredns_manager_operator.Errors.{ok}
use coredns_manager_operator.Api.DnsRecord.{ensure_fqdn}
use coredns_manager_operator.Kube.{dns_zones, ◌>>=◌, lift, ◌>>◌, gets, pure, raise, wrapped}
use coredns_manager_operator.Kube.Store.{Store, store, listed, newest_of, rewritten, created}
use coredns_manager_operator.Kube.Store.Laws.{store-StoresConfigMaps}
use coredns_manager_operator.Kube.Store.Separate.{store-IsSeparate}
use coredns_manager_operator.Kube.Finalizers.{get_obj_from_k8s, add_finalizer, update_finalizers}
use coredns_manager_operator.Record.Validation.{validate_records, validate_loop, final_error}
use coredns_manager_operator.Record.Reconcile.{done, set_dns_record_condition}
use coredns_manager_operator.Zone.Construction.{
  records_of, good_dns_records, construct_zone_file, construct_zone_config_map, bake_records,
  template_zone_header, zone_header,
}
use coredns_manager_operator.Zone.Compare.{
  compare_zonefile_config_maps, map_values, remove_serial_number, mask_line, has_serial,
  first_piece, serial_word, masked_end,
}
use coredns_manager_operator.Zone.Update.{
  create_or_update_zone_cm, zone_cm_fetched, renew_zone_cm, build_zone, judge_zone, cm_conn_obj,
  cm_name, dns_zone_update_status, refresh_dns_zone_resource, report, written, write_zone_cm,
  create_missing, apply_zone_cm, upcoming_cm_annotations, set_dns_zone_condition, without_times,
}
use coredns_manager_operator.Zone.Reconcile.{
  get_good_dns_records, mark_record, mark_records, renew_zone, reconcile_create_or_update,
}
use coredns_manager_operator.Api.Meta.{key_of}
use coredns_manager_operator.Zone.Construction.Contents.{IsOneLine}
use coredns_manager_operator.Zone.Reconcile.Lifecycle.{reconcile-held}
use coredns_manager_operator.Zone.Published.{IsCurrent, reconcile_create_or_update-IsCurrent}
use coredns_manager_operator.Zone.Published.Lines.{Serves, reconcile-Serves}
use coredns_manager_operator.Api.DnsZone.{dns_zone_generate_serial}
use coredns_manager_operator.Examples.Joined.{good, before}
use coredns_manager_operator.Examples.Updates.{
  held_zone, has_finalizer, comparing, parser_of, accepts,
}
use coredns_manager_operator.Examples.Zones.{zone}

published :
    (t : Store) × (reconcile_create_or_update store comparing (parser_of none) zone before
      ≡ (ok done, t))
unfolding reconcile_create_or_update get_good_dns_records keep sort_by insert_sorted renew_zone
    ◌>>=◌ lift records_of good_dns_records listed ◌>>◌ create_or_update_zone_cm zone_cm_fetched
    newest_of renew_zone_cm gets build_zone construct_zone_file judge_zone validate_records
    validate_loop final_error ensure_fqdn has_suffix eqb get_obj_from_k8s pure raise wrapped
    set_dns_record_condition bake_records template_zone_header zone_header mark_record mark_records
    cm_conn_obj cm_name dns_zone_update_status refresh_dns_zone_resource report written
    write_zone_cm create_missing apply_zone_cm upcoming_cm_annotations set_dns_zone_condition
    without_times rewritten created construct_zone_config_map add_finalizer update_finalizers exists
    compare_zonefile_config_maps map_values remove_serial_number mask_line has_serial first_piece
    serial_word masked_end split join contains same_map lookup
published = (_, refl)

reconcile_create_or_update-IsCurrent_example :
    IsCurrent store store-StoresConfigMaps comparing
      (parser_of none)
      store-IsSeparate
      same_map_iff
      zone
      before
      published.0
reconcile_create_or_update-IsCurrent_example =
    reconcile_create_or_update-IsCurrent store store-StoresConfigMaps comparing (parser_of none)
      store-IsSeparate same_map_iff zone before published.0 done published.1

-- The zone has the finalizer.
abbrev adopted : Store
adopted = record before { zones = held_zone ∷ [] }

republished :
    (t : Store) × (reconcile_create_or_update store comparing (parser_of none) held_zone adopted
      ≡ (ok done, t))
unfolding reconcile_create_or_update get_good_dns_records keep sort_by insert_sorted renew_zone
    ◌>>=◌ lift records_of good_dns_records listed ◌>>◌ create_or_update_zone_cm zone_cm_fetched
    newest_of renew_zone_cm gets build_zone construct_zone_file judge_zone validate_records
    validate_loop final_error ensure_fqdn has_suffix eqb get_obj_from_k8s pure raise wrapped
    set_dns_record_condition bake_records template_zone_header zone_header mark_record mark_records
    cm_conn_obj cm_name dns_zone_update_status refresh_dns_zone_resource report written
    write_zone_cm create_missing apply_zone_cm upcoming_cm_annotations set_dns_zone_condition
    without_times rewritten created construct_zone_config_map add_finalizer update_finalizers exists
    compare_zonefile_config_maps map_values remove_serial_number mask_line has_serial first_piece
    serial_word masked_end split join contains same_map lookup
republished = (_, refl)

lists_good :
    get_good_dns_records store comparing (parser_of none) held_zone adopted ≡ ok (good ∷ [])
unfolding get_good_dns_records good_dns_records listed keep sort_by insert_sorted
lists_good = refl

held_zone_found : store.get dns_zones (key_of held_zone.meta) adopted ≡ ok held_zone
unfolding newest_of eqb
held_zone_found = refl

held_zone-IsOneLine : IsOneLine held_zone
held_zone-IsOneLine = omega arith

reconcile-Serves_example :
    Serves store store-StoresConfigMaps comparing
      (parser_of none)
      store-IsSeparate
      same_map_iff
      held_zone
      (good ∷ [])
      (dns_zone_generate_serial (store.local_time adopted))
      republished.0
reconcile-Serves_example =
    reconcile-Serves store store-StoresConfigMaps comparing (parser_of none) store-IsSeparate
      same_map_iff held_zone (key_of held_zone.meta) adopted republished.0 done good []
      held_zone_found has_finalizer refl held_zone-IsOneLine (omega arith) lists_good
      (λ baked file made built. accepts file)
      (reconcile-held store (key_of held_zone.meta) comparing (parser_of none) store-IsSeparate
          (key_of held_zone.meta) held_zone adopted held_zone_found has_finalizer refl
        ∙ republished.1)
