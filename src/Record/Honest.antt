-- ===== src/Record/Honest.antt =====
-- The statuses of DNSRecords, under the writes of the API server and under the reconciler of
-- internal/controller/dnsrecord_controller.go
use coredns_manager_operator.Common.{
  ℕ, ◌≡◌, ◌≢◌, ◌⊎◌, subst, sym, ◌∙◌, true, none, arith, Option-cases, inl, inr,
}
use coredns_manager_operator.Common.Text.{Text}
use coredns_manager_operator.Errors.{Result, ok, err, is_not_found}
use coredns_manager_operator.Api.Meta.{NamespacedName, ConfigMap, ConditionStatus}
use coredns_manager_operator.Api.DnsRecord.{DnsRecord, DnsRecordStatus}
use coredns_manager_operator.Kube.{
  Kind, Object, dns_records, config_maps, Client, Library, ZoneParser,
}
use coredns_manager_operator.Kube.Preserve.{
  Preserves, pure-Preserves, raise-Preserves, lift-Preserves, gets-Preserves, wrapped-Preserves,
  bind-Preserves, then-Preserves, either_way, if-Preserves,
}
use coredns_manager_operator.Kube.Finalizers.Safety.{
  get_obj_from_k8s-Preserves, add_finalizer-Preserves, remove_finalizer-Preserves,
}
use coredns_manager_operator.Record.Validation.{validate_records}
use coredns_manager_operator.Record.Reconcile.{
  done, set_dns_record_condition, refresh_dns_record_resource, dns_record_update_status, judged,
  handle_generic_record, reconcile_dns_record, reconcile_delete, reconcile_found, reconcile_fetched,
  reconcile,
}

-- What the documentation of the API server says of the statuses of records: only a write of a
-- record's status changes it.
pub record SeparatesStatus (c : Client) : Type 0 where
  pub read-update_status :
      (o : DnsRecord) (s : c.State) (key : NamespacedName) (r : DnsRecord)
      → c.get dns_records key (c.update_status dns_records o s).1 ≡ ok r
      → (c.get dns_records key s ≡ ok r) ⊎ (r.status ≡ o.status)
  pub read-update_status_other :
      (k : Kind) (o : Object k) (s : c.State) (key : NamespacedName)
      → k ≢ dns_records
      → c.get dns_records key (c.update_status k o s).1 ≡ c.get dns_records key s
  pub read-update :
      (k : Kind) (o : Object k) (s : c.State) (key : NamespacedName) (r : DnsRecord)
      → c.get dns_records key (c.update k o s).1 ≡ ok r
      → (q : DnsRecord) × (c.get dns_records key s ≡ ok q) × (r.status ≡ q.status)
  pub read-create :
      (o : ConfigMap) (s : c.State) (key : NamespacedName)
      → c.get dns_records key (c.create config_maps o s).1 ≡ c.get dns_records key s

-- A status that says that the validation has passed holds an entry that the parser accepts.
abbrev pub IsHonestStatus : ZoneParser → DnsRecordStatus → Type 0
IsHonestStatus z status =
    status.validation_passed ≡ true → validate_records z status.generated_record ≡ none

-- All records on the API server have such a status.
pub record IsHonest (c : Client) (z : ZoneParser) (s : c.State) : Type 0 where
  pub read :
      (key : NamespacedName) (r : DnsRecord)
      → c.get dns_records key s ≡ ok r
      → IsHonestStatus z r.status

module _ (c : Client) (l : Library) (z : ZoneParser) (separates : SeparatesStatus c) where
  pub update_status-IsHonest :
      (o : DnsRecord) (s : c.State)
      → IsHonestStatus z o.status
      → IsHonest c z s
      → IsHonest c z (c.update_status dns_records o s).1
  update_status-IsHonest o s fine h = record {
    read = λ key r found. elim (separates.read-update_status o s key r found) [
      | inl old ↦ h.read key r old
      | inr new ↦ subst (IsHonestStatus z) (sym new) fine
    ];
  }

  pub update_status_other-Preserves :
      (k : Kind) (o : Object k) → k ≢ dns_records → Preserves (IsHonest c z) (c.update_status k o)
  update_status_other-Preserves k o other = record {
    run = λ s h. record {
      read = λ key r found.
          h.read key r (sym (separates.read-update_status_other k o s key other) ∙ found);
    };
  }

  pub update-Preserves : (k : Kind) (o : Object k) → Preserves (IsHonest c z) (c.update k o)
  update-Preserves k o = record {
    run = λ s h. record {
      read = λ key r found.
          let (q, held, same) = separates.read-update k o s key r found in
          subst (IsHonestStatus z) (sym same) (h.read key q held);
    };
  }

  pub create-Preserves : (o : ConfigMap) → Preserves (IsHonest c z) (c.create config_maps o)
  create-Preserves o = record {
    run = λ s h. record {
      read = λ key r found. h.read key r (sym (separates.read-create o s key) ∙ found);
    };
  }

  pub set_dns_record_condition-IsHonestStatus :
      (now : ℕ) (r : DnsRecord) (st : ConditionStatus) (reason message : Text)
      → IsHonestStatus z r.status
      → IsHonestStatus z (set_dns_record_condition c l z now r st reason message).status
  set_dns_record_condition-IsHonestStatus now r st reason message h =
      unfold set_dns_record_condition in h

  -- A record is marked as valid on no other ground than the validation of its own entry.
  judged-IsHonestStatus :
      (now : ℕ) (r : DnsRecord) (t : Text)
      → IsHonestStatus z (judged c l z now r t (validate_records z t)).status
  judged-IsHonestStatus now r t = elim (Option-cases (validate_records z t)) [
    | inl valid ↦ rw valid (unfold judged in λ passed. valid)
    | inr (e, bad) ↦ rw bad (unfold judged in λ passed. absurd (ground arith))
  ]

  dns_record_update_status-Preserves :
      (previous current : DnsRecord)
      → IsHonestStatus z current.status
      → Preserves (IsHonest c z) (dns_record_update_status c l z previous current)
  dns_record_update_status-Preserves previous current fine =
      unfold dns_record_update_status in
      if-Preserves _
        (bind-Preserves
          (wrapped-Preserves _ (record { run = λ s h. update_status-IsHonest current s fine h }))
          (λ _. pure-Preserves _))
        (pure-Preserves _)

  refresh_dns_record_resource-Preserves :
      (r : DnsRecord) → Preserves (IsHonest c z) (refresh_dns_record_resource c l z r)
  refresh_dns_record_resource-Preserves r =
      unfold refresh_dns_record_resource in
      bind-Preserves (wrapped-Preserves _ (get_obj_from_k8s-Preserves c dns_records _))
        (λ _. pure-Preserves _)

  handle_generic_record-Preserves :
      (r : DnsRecord) → Preserves (IsHonest c z) (handle_generic_record c l z r)
  handle_generic_record-Preserves r =
      unfold handle_generic_record in
      bind-Preserves (lift-Preserves _) (λ generated.
        then-Preserves (wrapped-Preserves _ (refresh_dns_record_resource-Preserves r)) (
          bind-Preserves (gets-Preserves _) (λ now.
            then-Preserves
              (wrapped-Preserves _
                (dns_record_update_status-Preserves r _ (judged-IsHonestStatus now r generated)))
              (lift-Preserves _))))

  reconcile_found-Preserves : (r : DnsRecord) → Preserves (IsHonest c z) (reconcile_found c l z r)
  reconcile_found-Preserves r =
      unfold reconcile_found reconcile_delete reconcile_dns_record in
      if-Preserves _
        (then-Preserves (add_finalizer-Preserves c dns_records _ l _ (update-Preserves dns_records))
          (pure-Preserves _))
        (if-Preserves _
          (then-Preserves
            (remove_finalizer-Preserves c dns_records _ l _ (update-Preserves dns_records))
            (pure-Preserves _))
          (if-Preserves _
            (bind-Preserves (handle_generic_record-Preserves r) (λ _. pure-Preserves _))
            (raise-Preserves _)))

  reconcile_run :
      (f : Result DnsRecord) (s : c.State)
      → IsHonest c z s
      → IsHonest c z (reconcile_fetched c l z f s).1
  unfolding reconcile_fetched
  reconcile_run (ok r) s h = (reconcile_found-Preserves r).run s h
  reconcile_run (err e) s h = rw (either_way (is_not_found e) (ok done) (err e) s) h

  -- A reconciliation of a record keeps it so that every record that says that its validation has
  -- passed holds an entry that the parser accepts, whether it succeeds or fails.
  pub reconcile-Preserves : (req : NamespacedName) → Preserves (IsHonest c z) (reconcile c l z req)
  reconcile-Preserves req = record {
    run = λ s h. unfold reconcile in reconcile_run (c.get dns_records req s) s h;
  }
