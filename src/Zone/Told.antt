-- ===== src/Zone/Told.antt =====
-- What the reconciler of internal/controller/dnszone_controller.go tells the records of a zone.
use coredns_manager_operator.Common.{
  ℕ, ◌≡◌, ◌≢◌, refl, ap, sym, ◌∙◌, subst, inl, inr, arith, Bool-cases, List, [], ◌∷◌, All, ◌++◌,
}
use coredns_manager_operator.Common.Text.{Text, text}
use coredns_manager_operator.Errors.{Result, ok, err}
use coredns_manager_operator.Api.Meta.{NamespacedName, ConditionStatus, condition_true, key_of}
use coredns_manager_operator.Api.DnsRecord.{DnsRecord, condition_reason_record_ready}
use coredns_manager_operator.Api.DnsZone.{DnsZone}
use coredns_manager_operator.Kube.{
  dns_records, Client, Library, ZoneParser, IsStored, StoresRecordStatus, pure, lift, raise, gets,
}
use coredns_manager_operator.Kube.Memory.{same_key, same_key-eq, same_key_refl}
use coredns_manager_operator.Kube.Outcome.{err-ne-ok, bind-ok, then-ok, wrapped-ok, get_obj-ok}
use coredns_manager_operator.Kube.Finalizers.{get_obj_from_k8s}
use coredns_manager_operator.Record.Reconcile.{ReconcileResult, set_dns_record_condition}
use coredns_manager_operator.Zone.Construction.{records_of}
use coredns_manager_operator.Zone.Update.{report, create_or_update_zone_cm}
use coredns_manager_operator.Zone.Reconcile.{
  get_good_dns_records, mark_record, mark_records, report_list_failure, renew_zone,
  reconcile_create_or_update,
}

-- What the documentation of the API server says of a write of a record's status: it changes no other
-- record.
pub record KeepsOtherRecords (c : Client) : Type 0 where
  pub get-update_status :
      (o : DnsRecord) (key : NamespacedName) (s : c.State)
      → key ≢ key_of o.meta
      → c.get dns_records key (c.update_status dns_records o s).1 ≡ c.get dns_records key s

module _ (c : Client) (l : Library) (z : ZoneParser) (st : ConditionStatus)
    (reason message : Text) where
  -- The record of the key is there, with the condition set, at some time, on some version of it.
  pub record IsTold (s : c.State) (key : NamespacedName) : Type 0 where
    pub stored : DnsRecord
    pub found : c.get dns_records key s ≡ ok stored
    pub version : DnsRecord
    pub time : ℕ
    pub told :
        stored.status ≡ (set_dns_record_condition c l z time version st reason message).status

module _ (c : Client) (l : Library) (z : ZoneParser) (st : ConditionStatus) (reason message : Text)
    (stores : IsStored c dns_records) (statuses : StoresRecordStatus c)
    (others : KeepsOtherRecords c) where
  -- What a successful pass has written
  mark_record-writes :
      (r : DnsRecord) (s t : c.State)
      → mark_record c l z st reason message r s ≡ (ok tt, t)
      → (current : DnsRecord) × (time : ℕ) × (o : DnsRecord) × (key_of current.meta ≡ key_of r.meta)
        × (c.update_status dns_records
              (set_dns_record_condition c l z time current st reason message)
              s
            ≡ (ok o, t))
  unfolding mark_record gets pure
  mark_record-writes r s t h =
      let (current, u, got, h1) = bind-ok _ _ s tt t h in
      let (time, v, timed, h2) = bind-ok _ _ u tt t h1 in
      let (o, w, wrote, h3) = bind-ok _ _ v tt t h2 in
      let (found, stays) =
        get_obj-ok c dns_records (key_of r.meta) s u current
          (wrapped-ok _ (get_obj_from_k8s c dns_records (key_of r.meta)) s current u got) in
      let written =
        wrapped-ok _
          (c.update_status dns_records
            (set_dns_record_condition c l z time current st reason message))
          v o w wrote in
      (
        current,
        time,
        o,
        stores.key-get (key_of r.meta) s found,
        subst
            (λ x.
              c.update_status dns_records
                (set_dns_record_condition c l z time current st reason message) s
              ≡ (ok o, x))
            (ap (λ x. x.1) h3)
            (subst
              (λ x.
                c.update_status dns_records
                  (set_dns_record_condition c l z time current st reason message) x
                ≡ (ok o, w))
              (sym (ap (λ x. x.1) timed) ∙ stays) written),
      )

  mark_record-IsTold :
      (r : DnsRecord) (s t : c.State)
      → mark_record c l z st reason message r s ≡ (ok tt, t)
      → IsTold c l z st reason message t (key_of r.meta)
  unfolding set_dns_record_condition
  mark_record-IsTold r s t h =
      let (current, time, o, same, wrote) = mark_record-writes r s t h in
      record {
        stored = o;
        found = subst (λ k. c.get dns_records k t ≡ ok o) same (stores.get-update_status _ s wrote);
        version = current;
        time = time;
        told = statuses.status-update_status _ s wrote;
      }

  -- Who was told stays told: either nothing is written, or he is told again.
  IsTold-mark_record :
      (r : DnsRecord) (key : NamespacedName) (s t : c.State)
      → mark_record c l z st reason message r s ≡ (ok tt, t)
      → IsTold c l z st reason message s key
      → IsTold c l z st reason message t key
  unfolding set_dns_record_condition
  IsTold-mark_record r key s t h told = elim (Bool-cases (same_key (key_of r.meta) key)) [
    | inl same ↦
        subst (IsTold c l z st reason message t) (same_key-eq (key_of r.meta) key same)
          (mark_record-IsTold r s t h)
    | inr other ↦
        let (current, time, o, is, wrote) = mark_record-writes r s t h in
        record {
          stored = told.stored;
          found =
              subst (λ u. c.get dns_records key u ≡ c.get dns_records key s) (ap (λ x. x.1) wrote)
                (others.get-update_status
                  (set_dns_record_condition c l z time current st reason message) key s
                  (λ e. absurd (
                    ground (
                      arith,
                      sym other ∙ (ap (λ k. same_key k key) (sym (e ∙ is)) ∙ same_key_refl key),
                    ))))
              ∙ told.found;
          version = told.version;
          time = told.time;
          told = told.told;
        }
  ]

  IsTold-mark_records :
      (rs : List DnsRecord) (key : NamespacedName) (s t : c.State)
      → mark_records c l z st reason message rs s ≡ (ok tt, t)
      → IsTold c l z st reason message s key
      → IsTold c l z st reason message t key
  unfolding mark_records pure
  IsTold-mark_records [] key s t h told =
      subst (λ u. IsTold c l z st reason message u key) (ap (λ x. x.1) h) told
  IsTold-mark_records (r ∷ rs) key s t h told =
      let (u, first, rest) = then-ok _ _ s tt t h in
      IsTold-mark_records rs key u t rest (IsTold-mark_record r key s u first told)

  mark_records-IsTold :
      (rs : List DnsRecord) (s t : c.State)
      → mark_records c l z st reason message rs s ≡ (ok tt, t)
      → All (λ (r : DnsRecord). IsTold c l z st reason message t (key_of r.meta)) rs
  unfolding mark_records
  mark_records-IsTold [] s t h = tt
  mark_records-IsTold (r ∷ rs) s t h =
      let (u, first, rest) = then-ok _ _ s tt t h in
      (
        IsTold-mark_records rs (key_of r.meta) u t rest (mark_record-IsTold r s u first),
        mark_records-IsTold rs u t rest,
      )

module _ (c : Client) (l : Library) (z : ZoneParser) (stores : IsStored c dns_records)
    (statuses : StoresRecordStatus c) (others : KeepsOtherRecords c) (zone : DnsZone) where
  -- The record of the key says that it has joined the zone.
  abbrev pub HasJoined : c.State → DnsRecord → Type 0
  HasJoined s r =
      IsTold c l z condition_true condition_reason_record_ready
        (text "Record has joined to the DNSZone: " ++ zone.meta.name) s (key_of r.meta)

  renew_zone-tells :
      (f : Result (List DnsRecord)) (s t : c.State) (d : ReconcileResult)
      → renew_zone c l z zone f s ≡ (ok d, t)
      → (rs : List DnsRecord) × (f ≡ ok rs) × All (HasJoined t) rs
  unfolding renew_zone report_list_failure raise pure
  renew_zone-tells (err e) s t d h =
      let (u, _, raised) = then-ok (report c l z zone zone _ _) _ s d t h in err-ne-ok raised
  renew_zone-tells (ok rs) s t d h =
      let (baked, u, _, h1) = bind-ok (lift (records_of rs)) _ s d t h in
      let (v, _, h2) = then-ok (create_or_update_zone_cm c l z zone baked) _ u d t h1 in
      let (w, marked, h3) = then-ok (mark_records c l z _ _ _ rs) _ v d t h2 in
      (
        rs,
        refl,
        subst (λ x. All (HasJoined x) rs) (ap (λ x. x.1) h3)
            (mark_records-IsTold c l z _ _ _ stores statuses others rs v w marked),
      )

  -- Where the reconciliation of a zone that is not being deleted succeeds, every good record that it
  -- has listed is on the API server with the condition that it has joined the zone. A write of a
  -- record's status stores it and changes no other record.
  pub reconcile_create_or_update-HasJoined :
      (s t : c.State) (d : ReconcileResult)
      → reconcile_create_or_update c l z zone s ≡ (ok d, t)
      → (rs : List DnsRecord) × (get_good_dns_records c l z zone s ≡ ok rs) × All (HasJoined t) rs
  unfolding reconcile_create_or_update
  reconcile_create_or_update-HasJoined s t d h =
      renew_zone-tells (get_good_dns_records c l z zone s) s t d h
