-- ===== src/Zone/Published/Lines.antt =====
-- The lines of the zone file that a reconciliation of internal/controller/dnszone_controller.go
-- leaves on the API server.
use coredns_manager_operator.Common.{
  ◌≡◌, refl, ap, sym, ◌∙◌, subst, inl, inr, ◌↔◌, arith, true, not, none, some, List, [], ◌∷◌, ◌++◌,
  map, keep, All,
}
use coredns_manager_operator.Common.Text.{Text, text, newline}
use coredns_manager_operator.Common.Text.Equality.{eqb_refl}
use coredns_manager_operator.Common.Text.Lines.{Lacks}
use coredns_manager_operator.Common.Dict.{Dict, lookup, SameMap}
use coredns_manager_operator.Errors.{ok, ok-injective}
use coredns_manager_operator.Api.Meta.{NamespacedName, ConfigMap}
use coredns_manager_operator.Api.DnsRecord.{DnsRecord, ensure_fqdn}
use coredns_manager_operator.Api.DnsZone.{
  DnsZone, dns_zone_generate_serial, dns_zones_finalizer_name,
}
use coredns_manager_operator.Kube.{
  config_maps, dns_zones, Client, Library, ZoneParser, IsSeparate, StoresConfigMaps,
}
use coredns_manager_operator.Record.Validation.{validate_records}
use coredns_manager_operator.Record.Reconcile.{ReconcileResult}
use coredns_manager_operator.Zone.Construction.{
  BakedRecords, records_of, construct_zone_file, header_lines, zone_header,
}
use coredns_manager_operator.Zone.Construction.Contents.{
  IsOneLine, generated, construct_zone_file-lines, dns_zone_generate_serial-Lacks,
}
use coredns_manager_operator.Zone.Compare.{map_values, remove_serial_number, has_serial}
use coredns_manager_operator.Zone.Compare.Masks.{plain_lines, remove_serial_number-plain_lines}
use coredns_manager_operator.Zone.Compare.Laws.{lookup-map_values, map-eq-some}
use coredns_manager_operator.Zone.Update.{cm_conn_obj}
use coredns_manager_operator.Zone.Reconcile.{
  get_good_dns_records, reconcile_create_or_update, reconcile,
}
use coredns_manager_operator.Zone.Reconcile.Lifecycle.{reconcile-held}
use coredns_manager_operator.Zone.Published.{reconcile_create_or_update-IsCurrent}

-- A map whose values are the one zone file without serial numbers has a zone file with its plain
-- lines.
one_file-plain_lines :
    (m : Dict Text) (k zonefile : Text)
    → SameMap (map_values remove_serial_number m) ((k, remove_serial_number zonefile) ∷ [])
    → (v : Text) × (lookup k m ≡ some v) × (plain_lines v ≡ plain_lines zonefile)
unfolding lookup
one_file-plain_lines m k zonefile same =
    let has : lookup k (map_values remove_serial_number m) ≡ some (remove_serial_number zonefile) =
      same k ∙ (rw (eqb_refl k) refl) in
    let (v, there, agree) =
      map-eq-some remove_serial_number (lookup k m) zonefile
        (sym has ∙ lookup-map_values remove_serial_number k m) in
    (v, there, sym (remove_serial_number-plain_lines zonefile v agree))

module _ (c : Client) (stores : StoresConfigMaps c) (l : Library) (z : ZoneParser)
    (separate : IsSeparate c)
    (equal_data_iff : (m n : Dict Text) → (l.equal_data m n ≡ true) ↔ SameMap m n)
    (zone : DnsZone) where
  -- The zone's config map holds a zone file in which the lines without the word "Serial" are those
  -- of the header and then the generated texts of the records.
  abbrev pub Serves : List DnsRecord → Text → c.State → Type 0
  Serves rs serial t =
      (cm : ConfigMap) × (file : Text) × (c.get config_maps (cm_conn_obj zone) t ≡ ok cm)
      × (lookup (ensure_fqdn zone.spec.domain ++ text "zone") cm.contents ≡ some file)
      × (plain_lines file
          ≡ keep (λ line. not (has_serial line))
              (header_lines (zone_header zone serial) ++ map generated rs))

  reconcile_create_or_update-Serves :
      (s t : c.State) (d : ReconcileResult) (r : DnsRecord) (rs : List DnsRecord)
      → let serial = dns_zone_generate_serial (c.local_time s) in
        IsOneLine zone
        → All (Lacks newline) (map generated (r ∷ rs))
        → get_good_dns_records c l z zone s ≡ ok (r ∷ rs)
        → ((baked : BakedRecords) (file : Text)
            → records_of (r ∷ rs) ≡ ok baked
            → construct_zone_file zone baked.records_string serial ≡ ok file
            → validate_records z file ≡ none)
        → reconcile_create_or_update c l z zone s ≡ (ok d, t)
        → Serves (r ∷ rs) serial t
  reconcile_create_or_update-Serves s t d r rs one_line generated_lines listed accepted h =
      let serial = dns_zone_generate_serial (c.local_time s) in
      let (rs', listed', baked, made, zonefile, built, does) =
        reconcile_create_or_update-IsCurrent c stores l z separate equal_data_iff zone s t d h in
      let same : rs' ≡ r ∷ rs = ok-injective (sym listed' ∙ listed) in
      let made' : records_of (r ∷ rs) ≡ ok baked = subst (λ x. records_of x ≡ ok baked) same made in
      let fine = accepted baked zonefile made' built in
      let (b, file, made₂, built₂, lines) =
        construct_zone_file-lines zone serial r rs one_line
          (dns_zone_generate_serial-Lacks (c.local_time s)) generated_lines in
      let alike : b ≡ baked = ok-injective (sym made₂ ∙ made') in
      let agree : file ≡ zonefile = ok-injective (
        sym built₂
        ∙ (ap (λ (x : BakedRecords). construct_zone_file zone x.records_string serial) alike
            ∙ built)) in
      elim does [
        | inl (e, bad, _) ↦ absurd (ground (arith, sym fine ∙ bad))
        | inr (_, (cm, held, contents)) ↦
            let (v, there, plain) = one_file-plain_lines cm.contents _ zonefile contents in
            (
              cm,
              v,
              held,
              there,
              plain
                  ∙ (ap plain_lines (sym agree) ∙ ap (keep (λ line. not (has_serial line))) lines),
            )
      ]

  -- A reconciliation that returns no error of a zone that has the finalizer and is not being
  -- deleted, with at least one good record, where the header's texts and the generated texts of the
  -- records are one line each, and the zone parser accepts the zone file that is built: behind it
  -- the API server holds the zone's config map, and its zone file has, of the lines without the word
  -- "Serial", those of the header and then the generated text of every good record, in the order of
  -- the records, and no others. A write of a status leaves other objects alone, config maps are
  -- stored as they are written, and the comparison of data is the one of maps.
  pub reconcile-Serves :
      (req : NamespacedName) (s t : c.State) (d : ReconcileResult) (r : DnsRecord)
      (rs : List DnsRecord)
      → let serial = dns_zone_generate_serial (c.local_time s) in
        c.get dns_zones req s ≡ ok zone
        → l.contains_finalizer zone.meta.finalizers dns_zones_finalizer_name ≡ true
        → zone.meta.deletion_timestamp ≡ none
        → IsOneLine zone
        → All (Lacks newline) (map generated (r ∷ rs))
        → get_good_dns_records c l z zone s ≡ ok (r ∷ rs)
        → ((baked : BakedRecords) (file : Text)
            → records_of (r ∷ rs) ≡ ok baked
            → construct_zone_file zone baked.records_string serial ≡ ok file
            → validate_records z file ≡ none)
        → reconcile c l z req s ≡ (ok d, t)
        → Serves (r ∷ rs) serial t
  reconcile-Serves req s t d r rs held finalizer kept one_line generated_lines listed accepted h =
      reconcile_create_or_update-Serves s t d r rs one_line generated_lines listed accepted
        (sym (reconcile-held c req l z separate req zone s held finalizer kept) ∙ h)
