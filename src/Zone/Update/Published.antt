-- ===== src/Zone/Update/Published.antt =====
-- What `createOrUpdateZoneCM` of internal/controller/dnszone_controller.go leaves on the API server
-- where the validation passes.
use coredns_manager_operator.Common.{
  ◌≡◌, ◌⊎◌, ◌↔◌, refl, ap, sym, ◌∙◌, subst, inl, inr, arith, Bool, true, false, not, Bool-cases,
  List, [], ◌∷◌, ◌++◌,
}
use coredns_manager_operator.Common.Text.{Text, text}
use coredns_manager_operator.Common.Text.Equality.{eqb_refl}
use coredns_manager_operator.Common.Dict.{Dict, lookup, SameMap}
use coredns_manager_operator.Errors.{ok, ok-injective}
use coredns_manager_operator.Api.Meta.{NamespacedName, ConfigMap, key_of}
use coredns_manager_operator.Api.DnsRecord.{ensure_fqdn}
use coredns_manager_operator.Api.DnsZone.{DnsZone, condition_reason_zone_pending}
use coredns_manager_operator.Kube.{
  config_maps, Client, Library, ZoneParser, Exec, pure, wrapped, IsSeparate, StoresConfigMaps,
}
use coredns_manager_operator.Kube.Outcome.{bind-ok, then-ok, wrapped-ok, get_obj-ok}
use coredns_manager_operator.Kube.Finalizers.{get_obj_from_k8s, add_finalizer, update_finalizers}
use coredns_manager_operator.Zone.Construction.{BakedRecords}
use coredns_manager_operator.Zone.Compare.{
  compare_zonefile_config_maps, map_values, remove_serial_number,
}
use coredns_manager_operator.Zone.Update.{
  cm_name, cm_conn_obj, refresh_dns_zone_resource, report, written, write_zone_cm, create_missing,
  apply_zone_cm,
}
use coredns_manager_operator.Zone.Update.Refusals.{
  Keeps, refresh_dns_zone_resource-Keeps, report-Keeps,
}

-- The data of the config map of a zone
abbrev file_of : DnsZone → Text → Dict Text
file_of zone zonefile = (ensure_fqdn zone.spec.domain ++ text "zone", zonefile) ∷ []

-- The zone's config map is there and has the zone file and nothing else, if serial numbers are
-- not looked at.
abbrev pub Publishes : (c : Client) → DnsZone → Text → c.State → Type 0
Publishes c zone zonefile s =
    (cm : ConfigMap) × (c.get config_maps (cm_conn_obj zone) s ≡ ok cm)
    × SameMap (map_values remove_serial_number cm.contents)
        ((ensure_fqdn zone.spec.domain ++ text "zone", remove_serial_number zonefile) ∷ [])

nothing-differs : {P : Type 0} (k v : Text) → SameMap [] ((k, v) ∷ []) → P
unfolding lookup
nothing-differs k v same = absurd (ground (arith, same k, eqb_refl k))

module _ (c : Client) (stores : StoresConfigMaps c) (l : Library) where
  update_finalizers-contents :
      (key : NamespacedName) (f : Text) (o : ConfigMap) (fs : List Text) (s t : c.State)
      → key_of o.meta ≡ key
      → update_finalizers c config_maps key f o fs s ≡ (ok tt, t)
      → (o' : ConfigMap) × (c.get config_maps key t ≡ ok o') × (o'.contents ≡ o.contents)
  unfolding update_finalizers pure
  update_finalizers-contents key f o fs s t is h =
      let (o', u, wrote, ends) = bind-ok _ _ s tt t h in
      let (found, same) = stores.contents-update _ o' s u (wrapped-ok _ _ s o' u wrote) in
      (
        o',
        subst (λ v. c.get config_maps key v ≡ ok o') (ap (λ x. x.1) ends)
            (subst (λ k. c.get config_maps k u ≡ ok o') is found),
        same,
      )

  add_finalizer-contents :
      (key : NamespacedName) (f : Text) (o : ConfigMap) (s t : c.State)
      → c.get config_maps key s ≡ ok o
      → add_finalizer c l config_maps key f s ≡ (ok tt, t)
      → (o' : ConfigMap) × (c.get config_maps key t ≡ ok o') × (o'.contents ≡ o.contents)
  unfolding add_finalizer pure
  add_finalizer-contents key f o s t held h =
      let (read, u, got, rest) = bind-ok _ _ s tt t h in
      let (found, stays) =
        get_obj-ok c config_maps key s u read
          (wrapped-ok _ (get_obj_from_k8s c config_maps key) s read u got) in
      let same : read ≡ o = ok-injective (sym found ∙ held) in
      elim (Bool-cases (not (l.contains_finalizer read.meta.finalizers f))) [
        | inl missing ↦
            let (o', held', kept) =
              update_finalizers-contents key f read _ u t (stores.key-get key read s found)
                (rw missing at rest) in
            (o', held', kept ∙ ap (λ (x : ConfigMap). x.contents) same)
        | inr there ↦
            let ends : t ≡ s = sym (ap (λ x. x.1) (rw there at rest)) ∙ stays in
            (o, subst (λ v. c.get config_maps key v ≡ ok o) (sym ends) held, refl)
      ]

  module _ (z : ZoneParser) (separate : IsSeparate c) (zone : DnsZone) (zonefile : Text) where
    -- Behind a method that leaves the zone's config map alone, it is held as before.
    still_held :
        (m : Exec c.State Unit) (cm : ConfigMap) (s t : c.State)
        → Keeps c (cm_conn_obj zone) m
        → m s ≡ (ok tt, t)
        → c.get config_maps (cm_conn_obj zone) s ≡ ok cm
        → c.get config_maps (cm_conn_obj zone) t ≡ ok cm
    still_held m cm s t keeps ran held =
        subst (λ v. c.get config_maps (cm_conn_obj zone) v ≡ ok cm) (ap (λ x. x.1) ran)
          (keeps s ∙ held)

    Publishes-at :
        (cm : ConfigMap) (s : c.State)
        → c.get config_maps (cm_conn_obj zone) s ≡ ok cm
        → cm.contents ≡ file_of zone zonefile
        → Publishes c zone zonefile s
    unfolding map_values
    Publishes-at cm s held same =
        (cm, held, λ k. ap (λ m. lookup k (map_values remove_serial_number m)) same)

    write_zone_cm-Publishes :
        (baked : BakedRecords) (serial : Text) (upcoming : ConfigMap) (s t : c.State)
        → key_of upcoming.meta ≡ cm_conn_obj zone
        → upcoming.contents ≡ file_of zone zonefile
        → write_zone_cm c l z zone baked serial upcoming s ≡ (ok tt, t)
        → Publishes c zone zonefile t
    unfolding write_zone_cm wrapped
    write_zone_cm-Publishes baked serial upcoming s t keyed made h =
        let (o', u, wrote, rest) = bind-ok _ _ s tt t h in
        let (found, same) = stores.contents-update upcoming o' s u wrote in
        let (u₁, fresh, rest₁) = then-ok _ _ u tt t rest in
        let (u₂, told, rest₂) = then-ok _ _ u₁ tt t rest₁ in
        let key = cm_conn_obj zone in
        let held = subst (λ k. c.get config_maps k u ≡ ok o') keyed found in
        let held₁ =
          still_held (refresh_dns_zone_resource c l z zone) o' u u₁
            (refresh_dns_zone_resource-Keeps c key l z separate zone)
            (wrapped-ok (text "failed to refresh DNSRecord resource: ")
              (refresh_dns_zone_resource c l z zone) u tt u₁ fresh)
            held in
        let held₂ =
          still_held
            (report c l z zone (written c l z zone baked serial) condition_reason_zone_pending
              (text "Zone ConfigMap has been created: " ++ cm_name zone))
            o' u₁ u₂ (report-Keeps c key l z separate zone _ _ _) told held₁ in
        let (o'', held₃, kept) = add_finalizer-contents key _ o' u₂ t held₂ rest₂ in
        Publishes-at o'' t held₃ (kept ∙ (same ∙ made))

    module _ (equal_data_iff : (m n : Dict Text) → (l.equal_data m n ≡ true) ↔ SameMap m n) where
      -- What the server holds where `r.Get` returned the config map, or nothing.
      abbrev pub Current : ConfigMap → c.State → Type 0
      Current current s =
          (c.get config_maps (cm_conn_obj zone) s ≡ ok current) ⊎ (current.contents ≡ [])

      create_missing-ok :
          (missing : Bool) (upcoming stored : ConfigMap) (s u : c.State)
          → key_of upcoming.meta ≡ cm_conn_obj zone
          → create_missing c l z missing upcoming s ≡ (ok stored, u)
          → (key_of stored.meta ≡ cm_conn_obj zone)
            × (stored.contents ≡ upcoming.contents)
            × ((missing ≡ true) ⊎ (u ≡ s))
      unfolding create_missing pure
      create_missing-ok true upcoming stored s u keyed h =
          let (found, same) = stores.contents-create upcoming stored s u h in
          (
            stores.key-get _ stored u (subst (λ k. c.get config_maps k u ≡ ok stored) keyed found),
            same,
            inl refl,
          )
      create_missing-ok false upcoming stored s u keyed h =
          let is : upcoming ≡ stored = ok-injective (ap (λ x. x.0) h) in
          (
            subst (λ (o : ConfigMap). key_of o.meta ≡ cm_conn_obj zone) is keyed,
            ap (λ (o : ConfigMap). o.contents) (sym is),
            inr (sym (ap (λ x. x.1) h)),
          )

      compared-Publishes :
          (current stored : ConfigMap) (s : c.State)
          → Current current s
          → stored.contents ≡ file_of zone zonefile
          → compare_zonefile_config_maps l.equal_data current stored ≡ true
          → Publishes c zone zonefile s
      unfolding compare_zonefile_config_maps map_values
      compared-Publishes current stored s held made same =
          let alike = (equal_data_iff _ _).0 same in
          let alike' : SameMap (map_values remove_serial_number current.contents)
              (map_values remove_serial_number (file_of zone zonefile)) =
            subst
              (λ m.
                SameMap (map_values remove_serial_number current.contents)
                  (map_values remove_serial_number m))
              made alike in
          elim held [
            | inl there ↦ (current, there, alike')
            | inr empty ↦ nothing-differs _ _ (
                subst
                  (λ m.
                    SameMap (map_values remove_serial_number m)
                      (map_values remove_serial_number (file_of zone zonefile)))
                  empty alike')
          ]

      pub apply_zone_cm-Publishes :
          (baked : BakedRecords) (serial : Text) (missing : Bool) (current upcoming : ConfigMap)
          (s t : c.State)
          → Current current s
          → ((missing ≡ true) → current.contents ≡ [])
          → key_of upcoming.meta ≡ cm_conn_obj zone
          → upcoming.contents ≡ file_of zone zonefile
          → apply_zone_cm c l z zone baked serial missing current (ok upcoming) s ≡ (ok tt, t)
          → Publishes c zone zonefile t
      unfolding apply_zone_cm pure
      apply_zone_cm-Publishes baked serial missing current upcoming s t held empty keyed made h =
          let (stored, u, had, rest) = bind-ok _ _ s tt t h in
          let (keyed', same, stays) = create_missing-ok missing upcoming stored s u keyed had in
          elim (Bool-cases (compare_zonefile_config_maps l.equal_data current stored)) [
            | inl alike ↦
                let ends : u ≡ t = ap (λ x. x.1) (rw alike at rest) in
                let held' : Current current u = elim stays [
                  | inl gone ↦ inr (empty gone)
                  | inr stay ↦ subst (Current current) (sym stay) held
                ] in
                subst (Publishes c zone zonefile) ends
                  (compared-Publishes current stored u held' (same ∙ made) alike)
            | inr differs ↦
                write_zone_cm-Publishes baked serial stored u t keyed' (same ∙ made)
                  (rw differs at rest)
          ]
