-- ===== src/Connector/Prepared.antt =====
-- What `reconcileDNSConnector` of internal/controller/dnsconnector_controller.go writes: the Corefile
-- and the workload that it has made of the zones that it has read.
use mathlib.Core.List.{Permᴰ}
use coredns_manager_operator.Common.{
  ◌≡◌, ℕ, refl, ap, sym, ◌∙◌, subst, Option, none, some, List, [], ◌∷◌, true, exists, All,
}
use coredns_manager_operator.Common.Text.{Text, text, has_prefix}
use coredns_manager_operator.Common.Dict.{Dict}
use coredns_manager_operator.Common.Sort.{sort_by}
use coredns_manager_operator.Errors.{ok, wrap, wrap-ok, ok-injective}
use coredns_manager_operator.Api.Meta.{ConfigMap}
use coredns_manager_operator.Api.DnsZone.{DnsZone}
use coredns_manager_operator.Api.DnsConnector.{DnsConnector, Workload, WorkloadKind}
use coredns_manager_operator.Kube.{config_maps, Client, Library, ZoneParser, pure, lift, gets}
use coredns_manager_operator.Kube.Outcome.{bind-ok, then-ok, wrapped-ok, get_obj-ok}
use coredns_manager_operator.Kube.Finalizers.{get_obj_from_k8s}
use coredns_manager_operator.Connector.Fetch.{
  fetch_coredns_conf_cm, conf_cm_key, good_zones, zone_cm_key, fetch_good_zones, fetch_zone_cms,
  fetch_good_zonefile_cm,
}
use coredns_manager_operator.Connector.Health.{Waiting}
use coredns_manager_operator.Connector.Corefile.{generate_corefile_cm}
use coredns_manager_operator.Connector.Volumes.{
  DesiredVolume, zone_volume_prefix, has_volume, set_zone_file_config_maps,
}
use coredns_manager_operator.Connector.Volumes.Served.{
  IsMountable, is_wanted, set_zone_file_config_maps-serves,
}
use coredns_manager_operator.Connector.Outcome.{give_up-fails, or_give_up-ok}
use coredns_manager_operator.Connector.Healthy.{fetch_coredns_deployment-reads}
use coredns_manager_operator.Connector.Backup.{backup_original_corefile_cm}
use coredns_manager_operator.Connector.Reconcile.{
  RangeOrders, Changes, require_key, original_corefile, make_changes, prepare,
}

module _ (c : Client) where
  -- The config maps that the zones name, as they are read in a state.
  abbrev pub AreMaps : c.State → List DnsZone → List ConfigMap → Type 0
  AreMaps s [] [] = Unit
  AreMaps s [] (cm ∷ cms) = ⊥
  AreMaps s (zone ∷ zones) [] = ⊥
  AreMaps s (zone ∷ zones) (cm ∷ cms) =
      (c.get config_maps (zone_cm_key zone) s ≡ ok cm) × AreMaps s zones cms

  fetch_zone_cms-AreMaps :
      (zones : List DnsZone) (cms : List ConfigMap) (s t : c.State)
      → fetch_zone_cms c zones s ≡ (ok cms, t)
      → AreMaps s zones cms
  unfolding fetch_zone_cms pure
  fetch_zone_cms-AreMaps [] cms s t h = subst (AreMaps s []) (ok-injective (ap (λ x. x.0) h)) tt
  fetch_zone_cms-AreMaps (zone ∷ zones) cms s t h =
      let (cm, u, got, later) = bind-ok _ _ s cms t h in
      let (rest, v, others, ends) = bind-ok _ _ u cms t later in
      let (found, stays) =
        get_obj-ok c config_maps (zone_cm_key zone) s u cm (wrapped-ok _ _ s cm u got) in
      subst (AreMaps s (zone ∷ zones)) (ok-injective (ap (λ x. x.0) ends)) (
        found,
        fetch_zone_cms-AreMaps zones rest s v
            (subst (λ w. fetch_zone_cms c zones w ≡ (ok rest, v)) stays others),
      )

-- What a list of the connector's zones gives, and the config maps of the zones that are good.
pub record IsRead (c : Client) (conn : DnsConnector) (zones : List DnsZone) (cms : List ConfigMap)
    (s : c.State) : Type 0 where
  pub items : List DnsZone
  pub listed : c.list_zones conn.meta.name conn.meta.namespace s ≡ ok items
  pub picked : zones ≡ good_zones items
  pub maps : List ConfigMap
  pub found : AreMaps c s zones maps
  pub sorted : cms ≡ sort_by (λ (cm : ConfigMap). cm.meta.name) maps

fetch_good_zones-ok :
    (c : Client) (conn : DnsConnector) (s t : c.State) (zones : List DnsZone)
    → fetch_good_zones c conn s ≡ (ok zones, t)
    → (items : List DnsZone) × (c.list_zones conn.meta.name conn.meta.namespace s ≡ ok items)
      × (zones ≡ good_zones items)
      × (t ≡ s)
unfolding fetch_good_zones gets lift pure
fetch_good_zones-ok c conn s t zones h =
    let (raw, u, got, later) = bind-ok _ _ s zones t h in
    let (items, v, unwrapped, ends) = bind-ok _ _ u zones t later in
    (
      items,
      wrap-ok (text "could not list DNSZones: ") (c.list_zones conn.meta.name conn.meta.namespace s)
          items
          (ap (wrap (text "could not list DNSZones: ")) (ok-injective (ap (λ x. x.0) got))
            ∙ ap (λ x. x.0) unwrapped),
      sym (ok-injective (ap (λ x. x.0) ends)),
      sym (ap (λ x. x.1) ends) ∙ (sym (ap (λ x. x.1) unwrapped) ∙ sym (ap (λ x. x.1) got)),
    )

fetch_good_zonefile_cm-IsRead :
    (c : Client) (conn : DnsConnector) (s t : c.State) (read : List DnsZone × List ConfigMap)
    → fetch_good_zonefile_cm c conn s ≡ (ok read, t)
    → IsRead c conn read.0 read.1 s
unfolding fetch_good_zonefile_cm pure
fetch_good_zonefile_cm-IsRead c conn s t read h =
    let (zones, u, got, later) = bind-ok _ _ s read t h in
    let (maps, v, fetched, ends) = bind-ok _ _ u read t later in
    let (items, listed, picked, stays) =
      fetch_good_zones-ok c conn s u zones (wrapped-ok _ _ s zones u got) in
    subst (λ (x : List DnsZone × List ConfigMap). IsRead c conn x.0 x.1 s)
      (ok-injective (ap (λ x. x.0) ends))
      (record {
        items = items;
        listed = listed;
        picked = picked;
        maps = maps;
        found =
            subst (λ w. AreMaps c w zones maps) stays
              (fetch_zone_cms-AreMaps c zones maps u v fetched);
        sorted = refl;
      })

module _ (c : Client) (l : Library) (z : ZoneParser) (wait : Waiting c) (orders : RangeOrders)
    (conn : DnsConnector) where
  -- The check of the key goes on only where it has done nothing.
  require_key-ok :
      (corefile : Option Text) (s t : c.State)
      → require_key c l z wait orders conn corefile s ≡ (ok tt, t)
      → s ≡ t
  unfolding require_key pure
  require_key-ok (some corefile) s t h = ap (λ x. x.1) h
  require_key-ok none s t h = absurd (give_up-fails c l conn conn _ _ _ s t tt h)

  original_corefile-ok :
      (s t : c.State) (cm : ConfigMap)
      → original_corefile c l z wait orders conn s ≡ (ok cm, t)
      → (c.get config_maps (conf_cm_key conn) s ≡ ok cm)
        × (backup_original_corefile_cm c l cm s ≡ (ok tt, t))
  unfolding original_corefile fetch_coredns_conf_cm pure
  original_corefile-ok s t cm h =
      let (read, s1, got, h1) = bind-ok _ _ s cm t h in
      let (s2, checked, h2) = then-ok (require_key c l z wait orders conn _) _ s1 cm t h1 in
      let (s3, backed, h3) = then-ok _ _ s2 cm t h2 in
      let (found, stays) = get_obj-ok c config_maps (conf_cm_key conn) s s1 read (
        wrapped-ok _ (get_obj_from_k8s c config_maps (conf_cm_key conn)) s read s1
          (or_give_up-ok c l conn conn _ _ _ s s1 read got)) in
      let from : s2 ≡ s = sym (require_key-ok _ s1 s2 checked) ∙ stays in
      let same : read ≡ cm = ok-injective (ap (λ x. x.0) h3) in
      let kept = or_give_up-ok c l conn conn _ _ _ s2 s3 tt backed in
      (
        found ∙ ap (λ x. x.0) h3,
        subst (λ x. backup_original_corefile_cm c l x s ≡ (ok tt, t)) same
            (subst (λ x. backup_original_corefile_cm c l read x ≡ (ok tt, t)) from
              (subst (λ x. backup_original_corefile_cm c l read s2 ≡ (ok tt, x)) (ap (λ x. x.1) h3)
                kept)),
      )

  -- What is made of what was read
  AreMadeOf : ConfigMap → WorkloadKind × Workload → List DnsZone × List ConfigMap → Changes → Type 0
  AreMadeOf cm w zones changes =
      (changes.zones ≡ zones.0)
      × (changes.zone_cms ≡ zones.1)
      × (generate_corefile_cm orders.blocks conn.spec cm zones.1 ≡ ok changes.corefile_cm)
      × ((now : ℕ) × (set_zone_file_config_maps orders.volumes now conn.spec w.1 zones.1
            ≡ ok changes.deployment))

  make_changes-AreMadeOf :
      (cm : ConfigMap) (w : WorkloadKind × Workload) (zones : List DnsZone × List ConfigMap)
      (s t : c.State) (changes : Changes)
      → make_changes c l z wait orders conn cm w zones s ≡ (ok changes, t)
      → AreMadeOf cm w zones changes
  unfolding make_changes lift pure AreMadeOf
  make_changes-AreMadeOf cm w zones s t changes h =
      let (corefile_cm, s6, generated, h6) = bind-ok _ _ s changes t h in
      let (now, s7, _, h7) = bind-ok _ _ s6 changes t h6 in
      let (updated, s8, attached, h8) = bind-ok _ _ s7 changes t h7 in
      let first = or_give_up-ok c l conn conn _ _ _ s s6 corefile_cm generated in
      let second = or_give_up-ok c l conn conn _ _ _ s7 s8 updated attached in
      subst (AreMadeOf cm w zones) (ok-injective (ap (λ x. x.0) h8))
        (refl, refl, ap (λ x. x.0) first, (now, ap (λ x. x.0) second))

  prepare-AreMadeOf :
      (s t : c.State) (changes : Changes)
      → prepare c l z wait orders conn s ≡ (ok changes, t)
      → (cm : ConfigMap) × (w : WorkloadKind × Workload) × (zones : List DnsZone × List ConfigMap)
        × (later : c.State) × (c.get config_maps (conf_cm_key conn) s ≡ ok cm)
        × (backup_original_corefile_cm c l cm s ≡ (ok tt, later))
        × IsRead c conn zones.0 zones.1 later
        × AreMadeOf cm w zones changes
  unfolding prepare
  prepare-AreMadeOf s t changes h =
      let (cm, s1, got, h1) = bind-ok _ _ s changes t h in
      let (w, s2, fetched, h2) = bind-ok _ _ s1 changes t h1 in
      let (zones, s3, read, h3) = bind-ok _ _ s2 changes t h2 in
      let (found, backed) = original_corefile-ok s s1 cm got in
      let same =
        fetch_coredns_deployment-reads c conn s1 s2 w
          (or_give_up-ok c l conn conn _ _ _ s1 s2 w fetched) in
      (
        cm,
        w,
        zones,
        s1,
        found,
        backed,
        subst (IsRead c conn zones.0 zones.1) same
            (fetch_good_zonefile_cm-IsRead c conn s2 s3 zones read),
        make_changes-AreMadeOf cm w zones s3 t changes h3,
      )

  attached-serves :
      (now : ℕ) (w w' : Workload) (cms : List ConfigMap) (name : Text)
      → ((m : Dict DesiredVolume) → Permᴰ m (orders.volumes m))
      → All IsMountable cms
      → has_prefix name zone_volume_prefix ≡ true
      → set_zone_file_config_maps orders.volumes now conn.spec w cms ≡ ok w'
      → has_volume name w'.template.volumes ≡ exists (is_wanted name) cms
  attached-serves now w w' cms name visits mountable prefixed made =
      let (w'', made', _, serves) =
        set_zone_file_config_maps-serves orders.volumes now conn.spec w cms visits mountable name
          prefixed in
      ap (λ (x : Workload). has_volume name x.template.volumes) (ok-injective (sym made ∙ made'))
      ∙ serves

  -- Where the preparation succeeds, what is to be written is made of the zones that are good: of the
  -- zones that the API server lists for the connector in the state behind the backup, those that are
  -- ready or have a checkpoint; of their config maps as they are read there, sorted by name; the Corefile
  -- is generated from the config map that the connector names, as it was read at the start; and the
  -- workload has a volume of a name for zones exactly if one of these config maps wants it. Each
  -- config map names a domain and has one key, and the range over the volumes visits each of them once.
  pub prepare-serves :
      (s t : c.State) (changes : Changes) (name : Text)
      → ((m : Dict DesiredVolume) → Permᴰ m (orders.volumes m))
      → has_prefix name zone_volume_prefix ≡ true
      → All IsMountable changes.zone_cms
      → prepare c l z wait orders conn s ≡ (ok changes, t)
      → ((cm : ConfigMap) × (later : c.State) × (c.get config_maps (conf_cm_key conn) s ≡ ok cm)
          × (backup_original_corefile_cm c l cm s ≡ (ok tt, later))
          × IsRead c conn changes.zones changes.zone_cms later
          × (generate_corefile_cm orders.blocks conn.spec cm changes.zone_cms
              ≡ ok changes.corefile_cm))
        × (has_volume name changes.deployment.template.volumes
            ≡ exists (is_wanted name) changes.zone_cms)
  unfolding AreMadeOf
  prepare-serves s t changes name visits prefixed mountable h =
      let (cm, w, zones, later, found, backed, read, made) = prepare-AreMadeOf s t changes h in
      let (same_zones, same_cms, generated, (now, attached)) = made in
      (
        (
          cm,
          later,
          found,
          backed,
          subst (λ x. IsRead c conn x changes.zone_cms later) (sym same_zones)
              (subst (λ x. IsRead c conn zones.0 x later) (sym same_cms) read),
          subst (λ x. generate_corefile_cm orders.blocks conn.spec cm x ≡ ok changes.corefile_cm)
              (sym same_cms) generated,
        ),
        attached-serves now w.1 changes.deployment changes.zone_cms name visits mountable prefixed (
            subst
              (λ x.
                set_zone_file_config_maps orders.volumes now conn.spec w.1 x
                ≡ ok changes.deployment)
              (sym same_cms) attached),
      )
