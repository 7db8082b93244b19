-- ===== src/Connector/Restored.antt =====
-- `backupOriginalCorefileCM` and `restoreOriginalCorefileCM` of
-- internal/controller/dnsconnector_controller.go, one behind the other.
use coredns_manager_operator.Common.{
  ◌≡◌, refl, ap, sym, ◌∙◌, subst, inl, inr, arith, Bool-cases, ◌++◌,
}
use coredns_manager_operator.Errors.{
  Result-cases, Error, Result, ok, err, is_not_found, ok-injective,
}
use coredns_manager_operator.Api.Meta.{ConfigMap, key_of}
use coredns_manager_operator.Api.DnsConnector.{DnsConnector, coredns_original_conf_bkp_suffix}
use coredns_manager_operator.Kube.{StoresConfigMaps, config_maps, Client, Library, pure, raise}
use coredns_manager_operator.Kube.Outcome.{err-ne-ok, bind-ok, wrapped-ok, get_obj-ok}
use coredns_manager_operator.Kube.Preserve.{run-gets}
use coredns_manager_operator.Kube.Finalizers.{get_obj_from_k8s}
use coredns_manager_operator.Connector.Fetch.{conf_cm_key}
use coredns_manager_operator.Connector.Backup.{
  backup_of, backup_key, with_finalizer, create_backup, backup_fetched, backup_original_corefile_cm,
  restored, restore_fetched, restore_original_corefile_cm,
}
use coredns_manager_operator.Connector.Outcome.{failing_with-ok}

backup-key :
    (conn : DnsConnector) (cm : ConfigMap)
    → key_of cm.meta ≡ conf_cm_key conn
    → key_of (backup_of cm).meta ≡ backup_key conn
unfolding backup_of backup_key conf_cm_key
backup-key conn cm key = λ i. record {
  name = (key i).name ++ coredns_original_conf_bkp_suffix;
  namespace = (key i).namespace;
}

module _ (c : Client) (stores : StoresConfigMaps c) where
  create_backup-stores :
      (l : Library) (bkp : ConfigMap) (e : Error) (s t : c.State)
      → create_backup c l bkp e s ≡ (ok tt, t)
      → (o : ConfigMap) × (c.get config_maps (key_of bkp.meta) t ≡ ok o)
        × (o.contents ≡ bkp.contents)
  unfolding create_backup with_finalizer pure
  create_backup-stores l bkp e s t h =
      let (o, u, created, ends) = bind-ok _ _ s tt t h in
      let same : u ≡ t = ap (λ x. x.1) ends in
      let (found, same_contents) =
        stores.contents-create (with_finalizer c l bkp) o s u
          (failing_with-ok _ (c.create config_maps (with_finalizer c l bkp)) s o u created) in
      (o, subst (λ v. c.get config_maps (key_of bkp.meta) v ≡ ok o) same found, same_contents)

  fetched-stores :
      (l : Library) (bkp : ConfigMap) (r : Result ConfigMap) (s t : c.State) (e : Error)
      → r ≡ err e
      → backup_fetched c l bkp r s ≡ (ok tt, t)
      → (o : ConfigMap) × (c.get config_maps (key_of bkp.meta) t ≡ ok o)
        × (o.contents ≡ bkp.contents)
  unfolding backup_fetched raise
  fetched-stores l bkp (ok held) s t e absent h = absurd (ground (arith, absent))
  fetched-stores l bkp (err e') s t e absent h = elim (Bool-cases (is_not_found e')) [
    | inl is ↦ create_backup-stores l bkp e' s t (rw is at h)
    | inr other ↦ err-ne-ok (rw other at h)
  ]

  -- Where there is no backup yet, the backup that is made has the data of the config map.
  backup-stores :
      (l : Library) (cm : ConfigMap) (s t : c.State) (e : Error)
      → c.get config_maps (key_of (backup_of cm).meta) s ≡ err e
      → backup_original_corefile_cm c l cm s ≡ (ok tt, t)
      → (o : ConfigMap) × (c.get config_maps (key_of (backup_of cm).meta) t ≡ ok o)
        × (o.contents ≡ cm.contents)
  unfolding backup_original_corefile_cm backup_of
  backup-stores l cm s t e absent h = fetched-stores l (backup_of cm) _ s t e absent (
      sym (
        run-gets (c.get config_maps (key_of (backup_of cm).meta))
          (backup_fetched c l (backup_of cm)) s)
      ∙ h)

  -- The restoration writes the data of the backup into the config map of the Corefile.
  restore_fetched-stores :
      (conn : DnsConnector) (backup : ConfigMap) (r : Result ConfigMap) (s t : c.State)
      → r ≡ ok backup
      → restore_fetched c conn r s ≡ (ok tt, t)
      → (o : ConfigMap) × (c.get config_maps (conf_cm_key conn) t ≡ ok o)
        × (o.contents ≡ backup.contents)
  unfolding restore_fetched restored raise pure
  restore_fetched-stores conn backup (err e) s t is h = err-ne-ok h
  restore_fetched-stores conn backup (ok held) s t is h =
      let (original, u, fetched, rest) = bind-ok _ _ s tt t h in
      let found : c.get config_maps (conf_cm_key conn) s ≡ ok original =
        (get_obj-ok c config_maps (conf_cm_key conn) s u original (
          wrapped-ok _ (get_obj_from_k8s c config_maps (conf_cm_key conn)) s original u
            fetched)).0 in
      let (o, v, updated, ends) = bind-ok _ _ u tt t rest in
      let (stored, same) =
        stores.contents-update (restored c held original) o u v
          (wrapped-ok _ (c.update config_maps (restored c held original)) u o v updated) in
      let key : key_of original.meta ≡ conf_cm_key conn =
        stores.key-get (conf_cm_key conn) original s found in
      let end : v ≡ t = ap (λ x. x.1) ends in
      (
        o,
        subst (λ w. c.get config_maps (conf_cm_key conn) w ≡ ok o) end
            (subst (λ k. c.get config_maps k v ≡ ok o) key stored),
        same ∙ ap (λ (cm : ConfigMap). cm.contents) (ok-injective is),
      )

  pub restore-stores :
      (conn : DnsConnector) (backup : ConfigMap) (s t : c.State)
      → c.get config_maps (backup_key conn) s ≡ ok backup
      → restore_original_corefile_cm c conn s ≡ (ok tt, t)
      → (o : ConfigMap) × (c.get config_maps (conf_cm_key conn) t ≡ ok o)
        × (o.contents ≡ backup.contents)
  unfolding restore_original_corefile_cm get_obj_from_k8s
  restore-stores conn backup s t found h =
      restore_fetched-stores conn backup _ s t (rw found refl) h

  pub restore-found :
      (conn : DnsConnector) (s t : c.State)
      → restore_original_corefile_cm c conn s ≡ (ok tt, t)
      → (backup : ConfigMap) × (c.get config_maps (backup_key conn) s ≡ ok backup)
  unfolding restore_original_corefile_cm get_obj_from_k8s restore_fetched raise
  restore-found conn s t h = elim (Result-cases (c.get config_maps (backup_key conn) s)) [
    | inl (backup, found) ↦ (backup, found)
    | inr (e, fails) ↦ err-ne-ok (rw fails at h)
  ]

  -- The Corefile as it was before the operator first changed it comes back: a backup that is made
  -- where there was none, of the config map that the connector names, and that is still there as it
  -- was made when the connector is deleted, is what the restoration writes into that config map.
  pub restore-backup :
      (l : Library) (conn : DnsConnector) (cm : ConfigMap) (s t u v : c.State) (e : Error)
      → key_of cm.meta ≡ conf_cm_key conn
      → c.get config_maps (backup_key conn) s ≡ err e
      → backup_original_corefile_cm c l cm s ≡ (ok tt, t)
      → c.get config_maps (backup_key conn) u ≡ c.get config_maps (backup_key conn) t
      → restore_original_corefile_cm c conn u ≡ (ok tt, v)
      → (o : ConfigMap) × (c.get config_maps (conf_cm_key conn) v ≡ ok o)
        × (o.contents ≡ cm.contents)
  restore-backup l conn cm s t u v e key absent made kept back =
      let same : key_of (backup_of cm).meta ≡ backup_key conn = backup-key conn cm key in
      let (backup, found, copied) =
        backup-stores l cm s t e (ap (λ k. c.get config_maps k s) same ∙ absent) made in
      let (o, stands, equal) =
        restore-stores conn backup u v (kept ∙ (ap (λ k. c.get config_maps k t) (sym same) ∙ found))
          back in
      (o, stands, equal ∙ copied)
