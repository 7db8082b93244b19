-- ===== src/Zone/Update/Honest.antt =====
-- The statuses of DNSRecords under `createOrUpdateZoneCM` of
-- internal/controller/dnszone_controller.go
use coredns_manager_operator.Common.{◌≢◌, Bool, false, Option, none, some, arith}
use coredns_manager_operator.Common.Text.{Text}
use coredns_manager_operator.Errors.{Error, Result, ok, err}
use coredns_manager_operator.Api.Meta.{ConfigMap}
use coredns_manager_operator.Api.DnsZone.{DnsZone}
use coredns_manager_operator.Kube.{dns_records, dns_zones, config_maps, Client, Library, ZoneParser}
use coredns_manager_operator.Kube.Preserve.{
  Preserves, pure-Preserves, raise-Preserves, gets-Preserves, wrapped-Preserves, bind-Preserves,
  then-Preserves, if-Preserves,
}
use coredns_manager_operator.Kube.Finalizers.Safety.{
  get_obj_from_k8s-Preserves, add_finalizer-Preserves,
}
use coredns_manager_operator.Record.Honest.{
  SeparatesStatus, IsHonest, update_status_other-Preserves, update-Preserves, create-Preserves,
}
use coredns_manager_operator.Zone.Construction.{BakedRecords}
use coredns_manager_operator.Zone.Update.{
  refresh_dns_zone_resource, dns_zone_update_status, report, refuse_zone, write_zone_cm,
  create_missing, apply_zone_cm, judge_zone, build_zone, renew_zone_cm, zone_cm_fetched,
  create_or_update_zone_cm,
}

pub dns_zones-ne-dns_records : dns_zones ≢ dns_records
dns_zones-ne-dns_records e = ground arith

module _ (c : Client) (l : Library) (z : ZoneParser) (separates : SeparatesStatus c) where
  dns_zone_update_status-Preserves :
      (previous current : DnsZone)
      → Preserves (IsHonest c z) (dns_zone_update_status c l z previous current)
  dns_zone_update_status-Preserves previous current =
      unfold dns_zone_update_status in
      if-Preserves _
        (bind-Preserves
          (wrapped-Preserves _ (
            update_status_other-Preserves c l z separates dns_zones current
              dns_zones-ne-dns_records))
          (λ _. pure-Preserves _))
        (pure-Preserves _)

  pub report-Preserves :
      (previous zone : DnsZone) (reason message : Text)
      → Preserves (IsHonest c z) (report c l z previous zone reason message)
  report-Preserves previous zone reason message =
      unfold report in
      bind-Preserves (gets-Preserves _)
        (λ now. wrapped-Preserves _ (dns_zone_update_status-Preserves previous _))

  refresh_dns_zone_resource-Preserves :
      (zone : DnsZone) → Preserves (IsHonest c z) (refresh_dns_zone_resource c l z zone)
  refresh_dns_zone_resource-Preserves zone =
      unfold refresh_dns_zone_resource in
      bind-Preserves (wrapped-Preserves _ (get_obj_from_k8s-Preserves c dns_zones _))
        (λ _. pure-Preserves _)

  write_zone_cm-Preserves :
      (zone : DnsZone) (baked : BakedRecords) (serial : Text) (upcoming : ConfigMap)
      → Preserves (IsHonest c z) (write_zone_cm c l z zone baked serial upcoming)
  write_zone_cm-Preserves zone baked serial upcoming =
      unfold write_zone_cm in
      bind-Preserves (update-Preserves c l z separates config_maps upcoming) (λ _.
        then-Preserves (wrapped-Preserves _ (refresh_dns_zone_resource-Preserves zone)) (
          then-Preserves (report-Preserves zone _ _ _) (
            add_finalizer-Preserves c config_maps _ l _
              (update-Preserves c l z separates config_maps))))

  apply_zone_cm-Preserves :
      (zone : DnsZone) (baked : BakedRecords) (serial : Text) (missing : Bool) (current : ConfigMap)
      (r : Result ConfigMap)
      → Preserves (IsHonest c z) (apply_zone_cm c l z zone baked serial missing current r)
  apply_zone_cm-Preserves zone baked serial missing current (ok upcoming) =
      unfold apply_zone_cm create_missing in
      bind-Preserves (if-Preserves _ (create-Preserves c l z separates upcoming) (pure-Preserves _))
        (λ stored.
          if-Preserves _ (pure-Preserves _) (write_zone_cm-Preserves zone baked serial stored))
  apply_zone_cm-Preserves zone baked serial missing current (err e) =
      unfold apply_zone_cm in
      then-Preserves (wrapped-Preserves _ (refresh_dns_zone_resource-Preserves zone))
        (then-Preserves (report-Preserves zone zone _ _) (raise-Preserves e))

  judge_zone-Preserves :
      (zone : DnsZone) (baked : BakedRecords) (serial : Text) (missing : Bool) (current : ConfigMap)
      (zonefile : Text) (o : Option Error)
      → Preserves (IsHonest c z) (judge_zone c l z zone baked serial missing current zonefile o)
  judge_zone-Preserves zone baked serial missing current zonefile (some e) =
      unfold judge_zone refuse_zone in
      then-Preserves (wrapped-Preserves _ (refresh_dns_zone_resource-Preserves zone))
        (report-Preserves zone _ _ _)
  judge_zone-Preserves zone baked serial missing current zonefile none =
      unfold judge_zone in apply_zone_cm-Preserves zone baked serial missing current _

  build_zone-Preserves :
      (zone : DnsZone) (baked : BakedRecords) (serial : Text) (missing : Bool) (current : ConfigMap)
      (r : Result Text)
      → Preserves (IsHonest c z) (build_zone c l z zone baked serial missing current r)
  build_zone-Preserves zone baked serial missing current (ok zonefile) =
      unfold build_zone in judge_zone-Preserves zone baked serial missing current zonefile _
  build_zone-Preserves zone baked serial missing current (err e) =
      unfold build_zone in then-Preserves (report-Preserves zone zone _ _) (raise-Preserves e)

  renew_zone_cm-Preserves :
      (zone : DnsZone) (baked : BakedRecords) (missing : Bool) (current : ConfigMap)
      → Preserves (IsHonest c z) (renew_zone_cm c l z zone baked missing current)
  renew_zone_cm-Preserves zone baked missing current =
      unfold renew_zone_cm in
      bind-Preserves (gets-Preserves _)
        (λ time. build_zone-Preserves zone baked _ missing current _)

  zone_cm_fetched-Preserves :
      (zone : DnsZone) (baked : BakedRecords) (r : Result ConfigMap)
      → Preserves (IsHonest c z) (zone_cm_fetched c l z zone baked r)
  zone_cm_fetched-Preserves zone baked (ok current) =
      unfold zone_cm_fetched in renew_zone_cm-Preserves zone baked false current
  zone_cm_fetched-Preserves zone baked (err e) =
      unfold zone_cm_fetched in
      if-Preserves _ (raise-Preserves e) (renew_zone_cm-Preserves zone baked _ _)

  pub create_or_update_zone_cm-Preserves :
      (zone : DnsZone) (baked : BakedRecords)
      → Preserves (IsHonest c z) (create_or_update_zone_cm c l z zone baked)
  create_or_update_zone_cm-Preserves zone baked = record {
    run =
        λ s h. unfold create_or_update_zone_cm in (zone_cm_fetched-Preserves zone baked _).run s h;
  }
