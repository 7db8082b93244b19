-- ===== src/Zone/Reconcile/Lifecycle.antt =====
-- `Reconcile` of internal/controller/dnszone_controller.go at a zone that is kept, and the config
-- maps on the API server.
use coredns_manager_operator.Common.{
  ◌≡◌, ◌≢◌, refl, ap, ◌∙◌, true, none, some, List, [], ◌∷◌, inl, arith,
}
use coredns_manager_operator.Common.Text.{Text, text}
use coredns_manager_operator.Errors.{Error, ok}
use coredns_manager_operator.Api.Meta.{NamespacedName, ConditionStatus, key_of}
use coredns_manager_operator.Api.DnsRecord.{DnsRecord}
use coredns_manager_operator.Api.DnsZone.{
  DnsZone, dns_zone_generate_serial, dns_zones_finalizer_name,
}
use coredns_manager_operator.Kube.{
  config_maps, dns_zones, dns_records, Client, Library, ZoneParser, pure, wrapped, IsSeparate, lift,
  raise, gets, ◌>>=◌, ◌>>◌,
}
use coredns_manager_operator.Kube.Finalizers.{get_obj_from_k8s}
use coredns_manager_operator.Record.Validation.{validate_records}
use coredns_manager_operator.Record.Reconcile.{set_dns_record_condition}
use coredns_manager_operator.Zone.Construction.{
  BakedRecords, good_dns_records, records_of, construct_zone_file,
}
use coredns_manager_operator.Zone.Update.{create_or_update_zone_cm}
use coredns_manager_operator.Zone.Update.Refusals.{
  Keeps, bind-Keeps, bind-Keeps_at, create_or_update_zone_cm-refuses,
}
use coredns_manager_operator.Zone.Reconcile.{
  get_good_dns_records, mark_record, mark_records, renew_zone, reconcile_create_or_update,
  reconcile_found, reconcile_fetched, reconcile,
}

config_maps-ne-dns_records : config_maps ≢ dns_records
config_maps-ne-dns_records e = ground arith

module _ (c : Client) (key : NamespacedName) (l : Library) (z : ZoneParser)
    (separate : IsSeparate c) where
  mark_record-Keeps :
      (status : ConditionStatus) (reason message : Text) (r : DnsRecord)
      → Keeps c key (mark_record c l z status reason message r)
  unfolding mark_record get_obj_from_k8s pure lift raise gets ◌>>=◌ ◌>>◌ wrapped
  mark_record-Keeps status reason message r =
      bind-Keeps c key
        (wrapped (text "failed to refresh DNSRecord resource: ")
          (get_obj_from_k8s c dns_records (key_of r.meta)))
        _ (λ s. refl)
        (λ current s.
          bind-Keeps c key
            (wrapped (text "failed to update status and condition: ") (
              c.update_status dns_records
                (set_dns_record_condition c l z (c.now s) current status reason message)))
            (λ _. pure tt)
            (λ t.
              separate.get-update_status_other dns_records config_maps _ key t
                (inl config_maps-ne-dns_records))
            (λ _ _. refl) s)

  pub mark_records-Keeps :
      (status : ConditionStatus) (reason message : Text) (rs : List DnsRecord)
      → Keeps c key (mark_records c l z status reason message rs)
  unfolding mark_records pure lift raise gets ◌>>=◌ ◌>>◌ wrapped
  mark_records-Keeps status reason message [] s = refl
  mark_records-Keeps status reason message (r ∷ rs) s =
      bind-Keeps c key (mark_record c l z status reason message r) _
        (mark_record-Keeps status reason message r)
        (λ _. mark_records-Keeps status reason message rs) s

  pub reconcile-held :
      (req : NamespacedName) (zone : DnsZone) (s : c.State)
      → c.get dns_zones req s ≡ ok zone
      → l.contains_finalizer zone.meta.finalizers dns_zones_finalizer_name ≡ true
      → zone.meta.deletion_timestamp ≡ none
      → reconcile c l z req s ≡ reconcile_create_or_update c l z zone s
  unfolding reconcile reconcile_fetched reconcile_found
  reconcile-held req zone s held finalizer kept = rw (held, finalizer, kept)

  get_good_dns_records-listed :
      (zone : DnsZone) (items : List DnsRecord) (s : c.State)
      → c.list_records zone.meta.name zone.meta.namespace s ≡ ok items
      → get_good_dns_records c l z zone s ≡ ok (good_dns_records items)
  unfolding get_good_dns_records
  get_good_dns_records-listed zone items s listed = rw (get_good_dns_records, listed)

  pub renew_zone-refuses :
      (zone : DnsZone) (rs : List DnsRecord) (baked : BakedRecords) (zonefile : Text) (e : Error)
      (s : c.State)
      → records_of rs ≡ ok baked
      → construct_zone_file zone baked.records_string (dns_zone_generate_serial (c.local_time s))
        ≡ ok zonefile
      → validate_records z zonefile ≡ some e
      → c.get config_maps key (renew_zone c l z zone (ok rs) s).1 ≡ c.get config_maps key s
  unfolding renew_zone pure lift raise gets ◌>>=◌ ◌>>◌ wrapped
  renew_zone-refuses zone rs baked zonefile e s made built bad = rw made (
      bind-Keeps_at c key (create_or_update_zone_cm c l z zone baked) _ s
        (create_or_update_zone_cm-refuses c key l z separate zone baked s zonefile e built bad)
        (λ _.
          bind-Keeps c key (mark_records c l z _ _ _ rs) _ (mark_records-Keeps _ _ _ rs)
            (λ _ _. refl)))

  -- A reconciliation of a zone that has the finalizer and is not being deleted, in which the zone
  -- parser refuses the zone file that is built of the listed records: it leaves the config map at
  -- every key as it was, whatever the writes of the statuses return, if a write of a status leaves
  -- every other object alone.
  pub reconcile-refuses :
      (req : NamespacedName) (zone : DnsZone) (items : List DnsRecord) (baked : BakedRecords)
      (zonefile : Text) (e : Error) (s : c.State)
      → c.get dns_zones req s ≡ ok zone
      → l.contains_finalizer zone.meta.finalizers dns_zones_finalizer_name ≡ true
      → zone.meta.deletion_timestamp ≡ none
      → c.list_records zone.meta.name zone.meta.namespace s ≡ ok items
      → records_of (good_dns_records items) ≡ ok baked
      → construct_zone_file zone baked.records_string (dns_zone_generate_serial (c.local_time s))
        ≡ ok zonefile
      → validate_records z zonefile ≡ some e
      → c.get config_maps key (reconcile c l z req s).1 ≡ c.get config_maps key s
  unfolding reconcile_create_or_update
  reconcile-refuses req zone items baked zonefile e s held finalizer kept listed made built bad =
      ap (λ r. c.get config_maps key r.1) (reconcile-held req zone s held finalizer kept)
      ∙ rw (get_good_dns_records-listed zone items s listed)
          (renew_zone-refuses zone (good_dns_records items) baked zonefile e s made built bad)
