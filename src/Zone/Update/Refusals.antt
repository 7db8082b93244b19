-- ===== src/Zone/Update/Refusals.antt =====
-- `createOrUpdateZoneCM` of internal/controller/dnszone_controller.go, where the validation fails.
use coredns_manager_operator.Common.{
  ◌≡◌, ◌≢◌, refl, ◌∙◌, Bool, false, not, ◌&&◌, some, Bool-cases, inl, inr, arith,
}
use coredns_manager_operator.Common.Text.{Text, text}
use coredns_manager_operator.Errors.{Error, ok, Result-cases, is_not_found, is_already_exists}
use coredns_manager_operator.Api.Meta.{NamespacedName, ConfigMap, key_of}
use coredns_manager_operator.Api.DnsZone.{DnsZone, dns_zone_generate_serial}
use coredns_manager_operator.Kube.{
  config_maps, dns_zones, Client, Library, ZoneParser, Exec, ◌>>=◌, pure, wrapped, IsSeparate, lift,
  raise, gets, ◌>>◌,
}
use coredns_manager_operator.Kube.Finalizers.{get_obj_from_k8s}
use coredns_manager_operator.Record.Validation.{validate_records}
use coredns_manager_operator.Zone.Construction.{BakedRecords, construct_zone_file}
use coredns_manager_operator.Zone.Update.{
  cm_conn_obj, without_times, refresh_dns_zone_resource, dns_zone_update_status, report,
  refuse_zone, judge_zone, build_zone, renew_zone_cm, zone_cm_fetched, create_or_update_zone_cm,
}

config_maps-ne-dns_zones : config_maps ≢ dns_zones
config_maps-ne-dns_zones e = ground arith

module _ (c : Client) (key : NamespacedName) where
  -- A method that leaves the config map at the key as it was.
  abbrev pub Keeps : {A : Type 0} → Exec c.State A → Type 0
  Keeps m = (s : c.State) → c.get config_maps key (m s).1 ≡ c.get config_maps key s

  -- A step that leaves it so, and then steps that do.
  pub bind-Keeps_at :
      {A B : Type 0} (m : Exec c.State A) (f : A → Exec c.State B) (s : c.State)
      → c.get config_maps key (m s).1 ≡ c.get config_maps key s
      → ((a : A) → Keeps (f a))
      → c.get config_maps key ((m >>= f) s).1 ≡ c.get config_maps key s
  unfolding pure lift raise gets ◌>>=◌ ◌>>◌ wrapped
  bind-Keeps_at m f s hm hf = elim (Result-cases (m s).0) [
    | inl (a, e) ↦ rw e (hf a (m s).1 ∙ hm)
    | inr (e', e) ↦ rw e hm
  ]

  pub bind-Keeps :
      {A B : Type 0} (m : Exec c.State A) (f : A → Exec c.State B)
      → Keeps m
      → ((a : A) → Keeps (f a))
      → Keeps (m >>= f)
  bind-Keeps m f hm hf s = bind-Keeps_at m f s (hm s) hf

  module _ (l : Library) (z : ZoneParser) (separate : IsSeparate c) where
    dns_zone_update_status-Keeps :
        (previous current : DnsZone) → Keeps (dns_zone_update_status c l z previous current)
    unfolding dns_zone_update_status pure lift raise gets ◌>>=◌ ◌>>◌ wrapped
    dns_zone_update_status-Keeps previous current s =
        elim (Bool-cases
          (l.equal_zone_status (without_times previous.status) (without_times current.status))) [
            | inl same ↦ rw same
            | inr differs ↦ rw differs (
                bind-Keeps
                  (wrapped (text "failed to update status and condition: ")
                    (c.update_status dns_zones current))
                  (λ _. pure tt)
                  (λ t.
                    separate.get-update_status_other dns_zones config_maps current key t
                      (inl config_maps-ne-dns_zones))
                  (λ _ _. refl) s)
          ]

    pub refresh_dns_zone_resource-Keeps :
        (zone : DnsZone) → Keeps (refresh_dns_zone_resource c l z zone)
    unfolding refresh_dns_zone_resource get_obj_from_k8s pure lift raise gets ◌>>=◌ ◌>>◌ wrapped
    refresh_dns_zone_resource-Keeps zone =
        bind-Keeps
          (wrapped (text "failed to refresh DNSZone resource: ")
            (get_obj_from_k8s c dns_zones (key_of zone.meta)))
          (λ _. pure tt) (λ _. refl) (λ _ _. refl)

    pub report-Keeps :
        (previous zone : DnsZone) (reason message : Text)
        → Keeps (report c l z previous zone reason message)
    unfolding report pure lift raise gets ◌>>=◌ ◌>>◌ wrapped
    report-Keeps previous zone reason message s = dns_zone_update_status-Keeps previous _ s

    pub refuse_zone-Keeps : (zone : DnsZone) (e : Error) → Keeps (refuse_zone c l z zone e)
    unfolding refuse_zone pure lift raise gets ◌>>=◌ ◌>>◌ wrapped
    refuse_zone-Keeps zone e s =
        bind-Keeps
          (wrapped (text "failed to refresh DNSZone resource: ")
            (refresh_dns_zone_resource c l z zone))
          _ (refresh_dns_zone_resource-Keeps zone) (λ _. report-Keeps zone _ _ _) s

    renew_zone_cm-Keeps :
        (zone : DnsZone) (baked : BakedRecords) (missing : Bool) (current : ConfigMap) (s : c.State)
        (zonefile : Text) (e : Error)
        → construct_zone_file zone baked.records_string (dns_zone_generate_serial (c.local_time s))
          ≡ ok zonefile
        → validate_records z zonefile ≡ some e
        → c.get config_maps key (renew_zone_cm c l z zone baked missing current s).1
          ≡ c.get config_maps key s
    unfolding renew_zone_cm build_zone judge_zone pure lift raise gets ◌>>=◌ ◌>>◌ wrapped
    renew_zone_cm-Keeps zone baked missing current s zonefile e built bad =
        rw (built, bad) (refuse_zone-Keeps zone e s)

    -- Where the zone parser refuses the zone file that is built, the call leaves the config map at
    -- every key as it was, whatever the other calls of the API server return, if a write to an object
    -- leaves every other one alone.
    pub create_or_update_zone_cm-refuses :
        (zone : DnsZone) (baked : BakedRecords) (s : c.State) (zonefile : Text) (e : Error)
        → construct_zone_file zone baked.records_string (dns_zone_generate_serial (c.local_time s))
          ≡ ok zonefile
        → validate_records z zonefile ≡ some e
        → c.get config_maps key (create_or_update_zone_cm c l z zone baked s).1
          ≡ c.get config_maps key s
    unfolding create_or_update_zone_cm zone_cm_fetched pure lift raise gets ◌>>=◌ ◌>>◌ wrapped
    create_or_update_zone_cm-refuses zone baked s zonefile e built bad =
        elim (Result-cases (c.get config_maps (cm_conn_obj zone) s)) [
          | inl (cm, held) ↦
              rw held (renew_zone_cm-Keeps zone baked false cm s zonefile e built bad)
          | inr (e', failed) ↦
              elim (Bool-cases (not (is_not_found e') && not (is_already_exists e'))) [
                | inl fatal ↦ rw (failed, fatal)
                | inr mild ↦
                    rw (failed, mild) (renew_zone_cm-Keeps zone baked _ _ s zonefile e built bad)
              ]
        ]
