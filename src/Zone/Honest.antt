-- ===== src/Zone/Honest.antt =====
-- The statuses of DNSRecords under the reconciler of internal/controller/dnszone_controller.go, and
-- the records that it puts into a zone file.
use coredns_manager_operator.Common.{◌≡◌, refl, List, [], ◌∷◌, ◌++◌}
use coredns_manager_operator.Common.Text.{Text, text}
use coredns_manager_operator.Errors.{Error, Result, ok, err, wrap, wrap-ok, is_not_found}
use coredns_manager_operator.Api.Meta.{NamespacedName, ConfigMap, ConditionStatus, key_of}
use coredns_manager_operator.Api.DnsRecord.{DnsRecord}
use coredns_manager_operator.Api.DnsZone.{DnsZone}
use coredns_manager_operator.Kube.{
  dns_records, dns_zones, config_maps, Client, Library, ZoneParser, wrapped,
}
use coredns_manager_operator.Kube.Preserve.{
  Preserves, pure-Preserves, raise-Preserves, lift-Preserves, gets-Preserves, bind-Preserves,
  then-Preserves, read-Preserves, either_way, if-Preserves, run-gets, state-wrapped,
}
use coredns_manager_operator.Kube.Finalizers.{get_obj_from_k8s}
use coredns_manager_operator.Kube.Finalizers.Safety.{
  add_finalizer-Preserves, remove_finalizer-Preserves,
}
use coredns_manager_operator.Record.Reconcile.{done, set_dns_record_condition}
use coredns_manager_operator.Record.Honest.{
  SeparatesStatus, IsHonest, update_status-IsHonest, update-Preserves,
  set_dns_record_condition-IsHonestStatus,
}
use coredns_manager_operator.Zone.Update.Honest.{
  report-Preserves, create_or_update_zone_cm-Preserves,
}
use coredns_manager_operator.Zone.Reconcile.{
  mark_record, mark_records, report_list_failure, release_zone_cm, release_zone, reconcile_delete,
  renew_zone, reconcile_create_or_update, reconcile_found, reconcile_fetched, reconcile,
}

module _ (c : Client) (l : Library) (z : ZoneParser) (separates : SeparatesStatus c) where
  fetched-get :
      (key : NamespacedName) (r : DnsRecord) (s : c.State)
      → wrap
          (text "failed to refresh DNSRecord resource: ")
          (get_obj_from_k8s c dns_records key s).0
        ≡ ok r
      → c.get dns_records key s ≡ ok r
  unfolding get_obj_from_k8s
  fetched-get key r s e =
      wrap-ok
        (text "failed to get resource " ++ (key.name ++ (text "/" ++ (key.namespace ++ text ": "))))
        (c.get dns_records key s) r
        (wrap-ok (text "failed to refresh DNSRecord resource: ")
          (get_obj_from_k8s c dns_records key s).0 r e)

  mark_fetched :
      (r : DnsRecord) (s : c.State) (st : ConditionStatus) (reason message : Text)
      (key : NamespacedName)
      → c.get dns_records key s ≡ ok r
      → IsHonest c z s
      → IsHonest c z
          (c.update_status dns_records
            (set_dns_record_condition c l z (c.now s) r st reason message)
            s).1
  mark_fetched r s st reason message key held h =
      update_status-IsHonest c l z separates _ s
        (set_dns_record_condition-IsHonestStatus c l z separates (c.now s) r st reason message
          (h.read key r held))
        h

  mark_record-Preserves :
      (st : ConditionStatus) (reason message : Text) (r : DnsRecord)
      → Preserves (IsHonest c z) (mark_record c l z st reason message r)
  mark_record-Preserves st reason message r =
      unfold mark_record in
      read-Preserves _
        (λ s.
          wrap (text "failed to refresh DNSRecord resource: ")
            (get_obj_from_k8s c dns_records (key_of r.meta) s).0)
        (λ s. unfold wrapped get_obj_from_k8s in refl)
        (λ current s e h. rw (run-gets c.now _ s) (
          rw (state-wrapped _ _ _ s) (
            mark_fetched current s st reason message (key_of r.meta)
              (fetched-get (key_of r.meta) current s e) h)))

  mark_records-Preserves :
      (st : ConditionStatus) (reason message : Text) (rs : List DnsRecord)
      → Preserves (IsHonest c z) (mark_records c l z st reason message rs)
  unfolding mark_records
  mark_records-Preserves st reason message [] = pure-Preserves _
  mark_records-Preserves st reason message (r ∷ rs) =
      then-Preserves (mark_record-Preserves st reason message r)
        (mark_records-Preserves st reason message rs)

  report_list_failure-Preserves :
      (zone : DnsZone) (e : Error) → Preserves (IsHonest c z) (report_list_failure c l z zone e)
  report_list_failure-Preserves zone e =
      unfold report_list_failure in
      then-Preserves (report-Preserves c l z separates zone zone _ _) (raise-Preserves e)

  release_zone_cm-Preserves :
      (zone : DnsZone) (r : Result ConfigMap)
      → Preserves (IsHonest c z) (release_zone_cm c l z zone r)
  release_zone_cm-Preserves zone (ok current) =
      unfold release_zone_cm in
      remove_finalizer-Preserves c config_maps _ l _ (update-Preserves c l z separates config_maps)
  release_zone_cm-Preserves zone (err e) =
      unfold release_zone_cm in if-Preserves _ (raise-Preserves e) (pure-Preserves _)

  release_zone-Preserves :
      (zone : DnsZone) (r : Result (List DnsRecord))
      → Preserves (IsHonest c z) (release_zone c l z zone r)
  release_zone-Preserves zone (err e) = unfold release_zone in report_list_failure-Preserves zone e
  release_zone-Preserves zone (ok rs) =
      unfold release_zone in
      then-Preserves (mark_records-Preserves _ _ _ rs) (
        then-Preserves
          (remove_finalizer-Preserves c dns_zones _ l _
            (update-Preserves c l z separates dns_zones))
          (pure-Preserves _))

  renew_zone-Preserves :
      (zone : DnsZone) (r : Result (List DnsRecord))
      → Preserves (IsHonest c z) (renew_zone c l z zone r)
  renew_zone-Preserves zone (err e) = unfold renew_zone in report_list_failure-Preserves zone e
  renew_zone-Preserves zone (ok rs) =
      unfold renew_zone in
      bind-Preserves (lift-Preserves _) (λ baked.
        then-Preserves (create_or_update_zone_cm-Preserves c l z separates zone baked)
          (then-Preserves (mark_records-Preserves _ _ _ rs) (pure-Preserves _)))

  reconcile_create_or_update-Preserves :
      (zone : DnsZone) → Preserves (IsHonest c z) (reconcile_create_or_update c l z zone)
  reconcile_create_or_update-Preserves zone = record {
    run = λ s h. unfold reconcile_create_or_update in (renew_zone-Preserves zone _).run s h;
  }

  reconcile_delete-Preserves :
      (zone : DnsZone) → Preserves (IsHonest c z) (reconcile_delete c l z zone)
  reconcile_delete-Preserves zone =
      unfold reconcile_delete in
      bind-Preserves (gets-Preserves _) (λ fetched.
        then-Preserves (release_zone_cm-Preserves zone fetched)
          (bind-Preserves (gets-Preserves _) (λ listed. release_zone-Preserves zone listed)))

  reconcile_found-Preserves :
      (zone : DnsZone) → Preserves (IsHonest c z) (reconcile_found c l z zone)
  reconcile_found-Preserves zone =
      unfold reconcile_found in
      if-Preserves _
        (then-Preserves
          (add_finalizer-Preserves c dns_zones _ l _ (update-Preserves c l z separates dns_zones))
          (pure-Preserves _))
        (if-Preserves _ (reconcile_delete-Preserves zone)
          (reconcile_create_or_update-Preserves zone))

  reconcile_run :
      (f : Result DnsZone) (s : c.State)
      → IsHonest c z s
      → IsHonest c z (reconcile_fetched c l z f s).1
  unfolding reconcile_fetched
  reconcile_run (ok zone) s h = (reconcile_found-Preserves zone).run s h
  reconcile_run (err e) s h = rw (either_way (is_not_found e) (ok done) (err e) s) h

  -- A reconciliation of a zone keeps it so that every record that says that its validation has
  -- passed holds an entry that the parser accepts, whether it succeeds or fails.
  pub reconcile_zone-Preserves :
      (req : NamespacedName) → Preserves (IsHonest c z) (reconcile c l z req)
  reconcile_zone-Preserves req = record {
    run = λ s h. unfold reconcile in reconcile_run (c.get dns_zones req s) s h;
  }
