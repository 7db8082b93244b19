-- ===== src/Zone/Joined.antt =====
-- What `reconcileCreateOrUpdate` of internal/controller/dnszone_controller.go tells the records of a
-- zone, beside what it writes of the zone.
use coredns_manager_operator.Common.{
  ◌≡◌, refl, ap, sym, ◌∙◌, none, some, Option-cases, ◌⊎◌, inl, inr, List, All,
}
use coredns_manager_operator.Common.Text.{Text}
use coredns_manager_operator.Errors.{Error, ok}
use coredns_manager_operator.Api.Meta.{NamespacedName}
use coredns_manager_operator.Api.DnsRecord.{DnsRecord}
use coredns_manager_operator.Api.DnsZone.{DnsZone, dns_zone_generate_serial}
use coredns_manager_operator.Kube.{
  config_maps, dns_records, Client, Library, ZoneParser, IsStored, IsSeparate, StoresRecordStatus,
  lift,
}
use coredns_manager_operator.Kube.Outcome.{bind-ok}
use coredns_manager_operator.Record.Validation.{validate_records}
use coredns_manager_operator.Record.Reconcile.{ReconcileResult}
use coredns_manager_operator.Zone.Construction.{BakedRecords, records_of, construct_zone_file}
use coredns_manager_operator.Zone.Reconcile.{
  get_good_dns_records, renew_zone, reconcile_create_or_update,
}
use coredns_manager_operator.Zone.Reconcile.Lifecycle.{renew_zone-refuses}
use coredns_manager_operator.Zone.Told.{
  KeepsOtherRecords, HasJoined, reconcile_create_or_update-HasJoined,
}

module _ (c : Client) (l : Library) (z : ZoneParser) (zone : DnsZone) where
  zone_file_of :
      (baked : BakedRecords) (serial : Text)
      → (zonefile : Text) × (construct_zone_file zone baked.records_string serial ≡ ok zonefile)
  unfolding construct_zone_file
  zone_file_of baked serial = (_, refl)

  renew_zone-bakes :
      (rs : List DnsRecord) (s t : c.State) (d : ReconcileResult)
      → renew_zone c l z zone (ok rs) s ≡ (ok d, t)
      → (baked : BakedRecords) × (records_of rs ≡ ok baked)
  unfolding renew_zone lift
  renew_zone-bakes rs s t d h =
      let (baked, u, made, _) = bind-ok (lift (records_of rs)) _ s d t h in
      (baked, ap (λ x. x.0) made)

  -- The zone file of the records, at the time of a state.
  abbrev pub IsZoneFile : List DnsRecord → c.State → Text → Type 0
  IsZoneFile rs s zonefile =
      (baked : BakedRecords) × (records_of rs ≡ ok baked)
      × (construct_zone_file zone baked.records_string (dns_zone_generate_serial (c.local_time s))
          ≡ ok zonefile)

  -- The zone parser has refused the text, and a config map is at no key another than it was.
  abbrev pub IsRefused : c.State → c.State → Text → Type 0
  IsRefused s t zonefile =
      ((e : Error) × (validate_records z zonefile ≡ some e))
      × ((key : NamespacedName) → c.get config_maps key t ≡ c.get config_maps key s)

  module _ (stores : IsStored c dns_records) (statuses : StoresRecordStatus c)
      (others : KeepsOtherRecords c) (separate : IsSeparate c) where
    -- Where the reconciliation of a zone that is not being deleted succeeds, either the zone parser
    -- accepts the zone file of the good records that it has listed, or the parser refuses it and
    -- every config map is left as it was; and in both cases, also where nothing was written to the
    -- zone file, every one of these records is on the API server with the condition that it has
    -- joined the zone. A write of a record's status stores it, and it changes no other record and
    -- no config map.
    pub reconcile_create_or_update-joins :
        (s t : c.State) (d : ReconcileResult)
        → reconcile_create_or_update c l z zone s ≡ (ok d, t)
        → (rs : List DnsRecord) × (zonefile : Text) × (get_good_dns_records c l z zone s ≡ ok rs)
          × IsZoneFile rs s zonefile
          × ((validate_records z zonefile ≡ none) ⊎ IsRefused s t zonefile)
          × All (HasJoined c l z stores statuses others zone t) rs
    unfolding reconcile_create_or_update
    reconcile_create_or_update-joins s t d h =
        let (rs, listed, told) =
          reconcile_create_or_update-HasJoined c l z stores statuses others zone s t d h in
        let renewed : renew_zone c l z zone (ok rs) s ≡ (ok d, t) = rw listed at h in
        let (baked, made) = renew_zone-bakes rs s t d renewed in
        let (zonefile, built) = zone_file_of baked (dns_zone_generate_serial (c.local_time s)) in
        (
          rs,
          zonefile,
          listed,
          (baked, made, built),
          elim (Option-cases (validate_records z zonefile)) [
            | inl accepts ↦ inl accepts
            | inr (e, refuses) ↦ inr (
              (e, refuses),
              λ key.
                  ap (λ x. c.get config_maps key x.1) (sym renewed)
                  ∙ renew_zone-refuses c key l z separate zone rs baked zonefile e s made built
                      refuses,
            )
          ],
          told,
        )
