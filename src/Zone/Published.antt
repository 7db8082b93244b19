-- ===== src/Zone/Published.antt =====
-- What a reconciliation of internal/controller/dnszone_controller.go that returns no error leaves
-- on the API server: `createOrUpdateZoneCM` with the records of `getGoodDnsRecords`.
pub mod Lines
use coredns_manager_operator.Common.{
  Option-cases, ◌≡◌, ◌⊎◌, ◌↔◌, refl, ap, sym, ◌∙◌, subst, inl, inr, arith, Bool, true, false, not,
  ◌&&◌, Bool-cases, none, some, List, [],
}
use coredns_manager_operator.Common.Text.{Text}
use coredns_manager_operator.Common.Dict.{Dict, SameMap}
use coredns_manager_operator.Errors.{Error, Result, ok, err, is_not_found, is_already_exists}
use coredns_manager_operator.Api.Meta.{NamespacedName, ConfigMap}
use coredns_manager_operator.Api.DnsZone.{DnsZone, dns_zone_generate_serial}
use coredns_manager_operator.Kube.{
  config_maps, Client, Library, ZoneParser, pure, lift, raise, gets, ◌>>=◌, IsSeparate,
  StoresConfigMaps,
}
use coredns_manager_operator.Kube.Outcome.{err-ne-ok, bind-ok, then-ok}
use coredns_manager_operator.Record.Validation.{validate_records}
use coredns_manager_operator.Zone.Construction.{
  BakedRecords, construct_zone_file, construct_zone_config_map,
}
use coredns_manager_operator.Zone.Update.{
  cm_conn_obj, no_config_map, refuse_zone, judge_zone, build_zone, renew_zone_cm, zone_cm_fetched,
  create_or_update_zone_cm,
}
use coredns_manager_operator.Zone.Update.Refusals.{refuse_zone-Keeps}
use coredns_manager_operator.Api.DnsRecord.{DnsRecord}
use coredns_manager_operator.Zone.Construction.{records_of}
use coredns_manager_operator.Zone.Update.Published.{Publishes, Current, apply_zone_cm-Publishes}
use coredns_manager_operator.Zone.Reconcile.{
  get_good_dns_records, renew_zone, report_list_failure, reconcile_create_or_update,
}
use coredns_manager_operator.Zone.Reconcile.Lifecycle.{mark_records-Keeps}
use coredns_manager_operator.Record.Reconcile.{ReconcileResult}

module _ (c : Client) (stores : StoresConfigMaps c) (l : Library) (z : ZoneParser)
    (separate : IsSeparate c)
    (equal_data_iff : (m n : Dict Text) → (l.equal_data m n ≡ true) ↔ SameMap m n)
    (zone : DnsZone) where
  -- The zone parser refuses the zone file and every config map is as it was, or it accepts the
  -- zone file and the zone's config map has it.
  abbrev pub RefusesOrPublishes : Text → c.State → c.State → Type 0
  RefusesOrPublishes zonefile s t =
      ((e : Error) × (validate_records z zonefile ≡ some e)
        × ((key : NamespacedName) → c.get config_maps key t ≡ c.get config_maps key s))
      ⊎ ((validate_records z zonefile ≡ none) × Publishes c zone zonefile t)

  -- The zone file of the records at the time of a state.
  abbrev pub IsZoneFile : BakedRecords → c.State → Text → Type 0
  IsZoneFile baked s zonefile =
      construct_zone_file zone baked.records_string (dns_zone_generate_serial (c.local_time s))
      ≡ ok zonefile

  refuse_zone-Refuses :
      (zonefile : Text) (e : Error) (s t : c.State)
      → validate_records z zonefile ≡ some e
      → refuse_zone c l z zone e s ≡ (ok tt, t)
      → RefusesOrPublishes zonefile s t
  refuse_zone-Refuses zonefile e s t bad h = inl (
    e,
    bad,
    λ key.
        ap (λ v. c.get config_maps key v.1) (sym h) ∙ refuse_zone-Keeps c key l z separate zone e s,
  )

  judge_zone-RefusesOrPublishes :
      (zonefile : Text) (baked : BakedRecords) (serial : Text) (missing : Bool)
      (current : ConfigMap) (s t : c.State)
      → Current c stores l z separate zone zonefile equal_data_iff current s
      → ((missing ≡ true) → current.contents ≡ [])
      → judge_zone c l z zone baked serial missing current zonefile (validate_records z zonefile) s
        ≡ (ok tt, t)
      → RefusesOrPublishes zonefile s t
  unfolding judge_zone construct_zone_config_map cm_conn_obj
  judge_zone-RefusesOrPublishes zonefile baked serial missing current s t held empty h =
      elim (Option-cases (validate_records z zonefile)) [
        | inl good ↦ inr (
          good,
          apply_zone_cm-Publishes c stores l z separate zone zonefile equal_data_iff baked serial
              missing current _ s t held empty refl refl (rw good at h),
        )
        | inr (e, bad) ↦ refuse_zone-Refuses zonefile e s t bad (rw bad at h)
      ]

  renew_zone_cm-RefusesOrPublishes :
      (baked : BakedRecords) (missing : Bool) (current : ConfigMap) (s t : c.State)
      (zonefile : Text)
      → IsZoneFile baked s zonefile
      → Current c stores l z separate zone zonefile equal_data_iff current s
      → ((missing ≡ true) → current.contents ≡ [])
      → renew_zone_cm c l z zone baked missing current s ≡ (ok tt, t)
      → RefusesOrPublishes zonefile s t
  unfolding renew_zone_cm build_zone gets ◌>>=◌
  renew_zone_cm-RefusesOrPublishes baked missing current s t zonefile built held empty h =
      judge_zone-RefusesOrPublishes zonefile baked _ missing current s t held empty (rw built at h)

  zone_cm_fetched-RefusesOrPublishes :
      (baked : BakedRecords) (fetched : Result ConfigMap) (s t : c.State) (zonefile : Text)
      → IsZoneFile baked s zonefile
      → c.get config_maps (cm_conn_obj zone) s ≡ fetched
      → zone_cm_fetched c l z zone baked fetched s ≡ (ok tt, t)
      → RefusesOrPublishes zonefile s t
  unfolding zone_cm_fetched raise
  zone_cm_fetched-RefusesOrPublishes baked (ok current) s t zonefile built held h =
      renew_zone_cm-RefusesOrPublishes baked false current s t zonefile built (inl held)
        (λ e. absurd (ground (arith, e))) h
  zone_cm_fetched-RefusesOrPublishes baked (err e) s t zonefile built held h =
      elim (Bool-cases (not (is_not_found e) && not (is_already_exists e))) [
        | inl fatal ↦ err-ne-ok (rw fatal at h)
        | inr mild ↦
            renew_zone_cm-RefusesOrPublishes baked (is_not_found e) no_config_map s t zonefile built
              (inr refl) (λ _. refl) (rw mild at h)
      ]

  zonefile_of :
      (baked : BakedRecords) (s : c.State) → (zonefile : Text) × IsZoneFile baked s zonefile
  unfolding construct_zone_file
  zonefile_of baked s = (_, refl)

  create_or_update_zone_cm-RefusesOrPublishes :
      (baked : BakedRecords) (s t : c.State)
      → create_or_update_zone_cm c l z zone baked s ≡ (ok tt, t)
      → (zonefile : Text) × IsZoneFile baked s zonefile × RefusesOrPublishes zonefile s t
  unfolding create_or_update_zone_cm
  create_or_update_zone_cm-RefusesOrPublishes baked s t h =
      let (zonefile, built) = zonefile_of baked s in
      (zonefile, built, zone_cm_fetched-RefusesOrPublishes baked _ s t zonefile built refl h)

  -- Behind a step that leaves the config maps alone.
  then_RefusesOrPublishes :
      (zonefile : Text) (s t u : c.State)
      → ((key : NamespacedName) → c.get config_maps key u ≡ c.get config_maps key t)
      → RefusesOrPublishes zonefile s t
      → RefusesOrPublishes zonefile s u
  then_RefusesOrPublishes zonefile s t u keeps (inl (e, bad, same)) =
      inl (e, bad, λ key. keeps key ∙ same key)
  then_RefusesOrPublishes zonefile s t u keeps (inr (good, (cm, held, same))) =
      inr (good, (cm, keeps (cm_conn_obj zone) ∙ held, same))

  -- How the reconciliation of a zone ended, by the zone file of its records.
  abbrev pub IsCurrent : c.State → c.State → Type 0
  IsCurrent s t =
      (rs : List DnsRecord) × (get_good_dns_records c l z zone s ≡ ok rs)
      × (baked : BakedRecords) × (records_of rs ≡ ok baked)
      × (zonefile : Text) × IsZoneFile baked s zonefile
      × RefusesOrPublishes zonefile s t

  renew_zone-IsCurrent :
      (listed : Result (List DnsRecord)) (d : ReconcileResult) (s t : c.State)
      → get_good_dns_records c l z zone s ≡ listed
      → renew_zone c l z zone listed s ≡ (ok d, t)
      → IsCurrent s t
  unfolding renew_zone report_list_failure raise lift pure
  renew_zone-IsCurrent (err e) d s t listed h =
      let (u, told, rest) = then-ok _ _ s d t h in err-ne-ok rest
  renew_zone-IsCurrent (ok rs) d s t listed h =
      let (baked, u, made, rest) = bind-ok _ _ s d t h in
      let (v, applied, rest₁) = then-ok _ _ u d t rest in
      let (w, marked, ends) = then-ok _ _ v d t rest₁ in
      let starts : u ≡ s = sym (ap (λ x. x.1) made) in
      let (zonefile, built, does) =
        create_or_update_zone_cm-RefusesOrPublishes baked s v
          (subst (λ x. create_or_update_zone_cm c l z zone baked x ≡ (ok tt, v)) starts applied) in
      (
        rs,
        listed,
        baked,
        ap (λ x. x.0) made,
        zonefile,
        built,
        then_RefusesOrPublishes zonefile s v t
            (λ key.
              ap (λ x. c.get config_maps key x) (sym (ap (λ x. x.1) marked ∙ ap (λ x. x.1) ends))
              ∙ mark_records-Keeps c key l z separate _ _ _ rs v)
            does,
      )

  -- Where a reconciliation of a zone that is not being deleted returns no error: the records were
  -- listed and baked, and a zone file was built of them with the serial number of the time of the
  -- call. Either the zone parser refuses this zone file, and every config map on the API server is
  -- as it was; or it accepts it, and the server holds the zone's config map, whose data is this zone
  -- file alone, if serial numbers are not looked at. This is so whether the config map was missing,
  -- held something else or was up to date, if a write of a status leaves other objects alone, config
  -- maps are stored as they are written, and the comparison of data is the one of maps.
  pub reconcile_create_or_update-IsCurrent :
      (s t : c.State) (d : ReconcileResult)
      → reconcile_create_or_update c l z zone s ≡ (ok d, t)
      → IsCurrent s t
  unfolding reconcile_create_or_update
  reconcile_create_or_update-IsCurrent s t d h = renew_zone-IsCurrent _ d s t refl h
