-- ===== src/Zone/Update/Writes.antt =====
-- When `createOrUpdateZoneCM` of internal/controller/dnszone_controller.go writes.
use coredns_manager_operator.Common.{◌≡◌, refl, ◌∙◌, true, false, none, ◌↔◌}
use coredns_manager_operator.Common.Text.{Text, newline}
use coredns_manager_operator.Common.Text.Lines.{Lacks}
use coredns_manager_operator.Common.Dict.{Dict, SameMap}
use coredns_manager_operator.Errors.{ok}
use coredns_manager_operator.Api.Meta.{ConfigMap}
use coredns_manager_operator.Api.DnsZone.{DnsZone, dns_zone_generate_serial}
use coredns_manager_operator.Kube.{
  config_maps, Client, Library, ZoneParser, pure, lift, raise, gets, ◌>>=◌, ◌>>◌, wrapped,
}
use coredns_manager_operator.Record.Validation.{validate_records}
use coredns_manager_operator.Zone.Construction.{
  BakedRecords, construct_zone_file, construct_zone_config_map,
}
use coredns_manager_operator.Zone.Construction.Contents.{dns_zone_generate_serial-Lacks}
use coredns_manager_operator.Zone.Compare.{compare_zonefile_config_maps}
use coredns_manager_operator.Zone.Compare.Laws.{compare-construct}
use coredns_manager_operator.Zone.Update.{
  cm_name, cm_conn_obj, upcoming_cm_annotations, create_missing, apply_zone_cm, judge_zone,
  build_zone, renew_zone_cm, zone_cm_fetched, create_or_update_zone_cm,
}

config_map_of :
    (name : Text) (zone : DnsZone) (z : Text) (annotations : Dict Text)
    → (cm : ConfigMap) × (construct_zone_config_map name zone z annotations ≡ ok cm)
unfolding construct_zone_config_map
config_map_of name zone z annotations = (_, refl)

module _ (c : Client) (l : Library) (z : ZoneParser)
    (equal_data_iff : (m n : Dict Text) → (l.equal_data m n ≡ true) ↔ SameMap m n) where
  apply_zone_cm-same :
      (zone : DnsZone) (baked : BakedRecords) (serial : Text) (cm cm' : ConfigMap) (s : c.State)
      → compare_zonefile_config_maps l.equal_data cm cm' ≡ true
      → apply_zone_cm c l z zone baked serial false cm (ok cm') s ≡ (ok tt, s)
  unfolding apply_zone_cm create_missing pure lift raise gets ◌>>=◌ ◌>>◌ wrapped
  apply_zone_cm-same zone baked serial cm cm' s same = rw same

  -- The call, where a config map is held and the zone file is built and accepted.
  accepted :
      (zone : DnsZone) (baked : BakedRecords) (s : c.State) (zonefile : Text) (cm : ConfigMap)
      → c.get config_maps (cm_conn_obj zone) s ≡ ok cm
      → let serial = dns_zone_generate_serial (c.local_time s) in
        construct_zone_file zone baked.records_string serial ≡ ok zonefile
        → validate_records z zonefile ≡ none
        → create_or_update_zone_cm c l z zone baked s
          ≡ apply_zone_cm c l z zone baked serial false cm
              (construct_zone_config_map
                (cm_name zone)
                zone
                zonefile
                (upcoming_cm_annotations zone serial))
              s
  unfolding create_or_update_zone_cm zone_cm_fetched renew_zone_cm build_zone judge_zone pure lift
      raise gets ◌>>=◌ ◌>>◌ wrapped
  accepted zone baked s zonefile cm held built valid = rw (held, built, valid)

  compare-contents :
      (cm cm' cm'' : ConfigMap)
      → cm.contents ≡ cm'.contents
      → compare_zonefile_config_maps l.equal_data cm cm''
        ≡ compare_zonefile_config_maps l.equal_data cm' cm''
  unfolding compare_zonefile_config_maps
  compare-contents cm cm' cm'' same = rw same

  -- Where the API server holds a config map whose data is that of a config map that the zone once
  -- gave with these records and a serial number of one line, whatever the metadata that it has now,
  -- and the zone parser accepts the zone file with the present serial number: the call returns no
  -- error, and writes nothing.
  pub create_or_update_zone_cm-same :
      (zone : DnsZone) (baked : BakedRecords) (s : c.State) (serial z₁ z₂ : Text)
      (annotations : Dict Text) (made cm : ConfigMap)
      → Lacks newline serial
      → construct_zone_file zone baked.records_string serial ≡ ok z₁
      → construct_zone_config_map (cm_name zone) zone z₁ annotations ≡ ok made
      → c.get config_maps (cm_conn_obj zone) s ≡ ok cm
      → cm.contents ≡ made.contents
      → construct_zone_file zone baked.records_string (dns_zone_generate_serial (c.local_time s))
        ≡ ok z₂
      → validate_records z z₂ ≡ none
      → create_or_update_zone_cm c l z zone baked s ≡ (ok tt, s)
  create_or_update_zone_cm-same zone baked s serial z₁ z₂ annotations before cm one_line built once
        held same built' valid =
      let now = dns_zone_generate_serial (c.local_time s) in
      let (cm', made) = config_map_of (cm_name zone) zone z₂ (upcoming_cm_annotations zone now) in
      accepted zone baked s z₂ cm held built' valid
      ∙ rw made (
          apply_zone_cm-same zone baked now cm cm' s (
            compare-contents cm before cm' same
            ∙ compare-construct l.equal_data equal_data_iff zone (cm_name zone) baked.records_string
                serial now annotations (upcoming_cm_annotations zone now) one_line
                (dns_zone_generate_serial-Lacks (c.local_time s)) built built' once made))
