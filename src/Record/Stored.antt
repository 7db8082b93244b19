-- ===== src/Record/Stored.antt =====
-- `reconcileDNSRecord` of internal/controller/dnsrecord_controller.go and the state of the API
-- server
use coredns_manager_operator.Common.{
  ◌≡◌, refl, subst, sym, ◌∙◌, Bool, true, not, Option, none, some, is_some, ℕ, Bool-cases, inl, inr,
}
use coredns_manager_operator.Common.Text.{Text, text}
use coredns_manager_operator.Errors.{Error, errorf, Result, ok, err}
use coredns_manager_operator.Api.Meta.{NamespacedName, key_of}
use coredns_manager_operator.Api.DnsRecord.{DnsRecord, dns_records_finalizer_name}
use coredns_manager_operator.Kube.{
  dns_records, Client, Library, ZoneParser, IsStored, StoresRecordStatus, IsLibrary, continue, pure,
  lift, raise, gets, ◌>>=◌, ◌>>◌, wrapped,
}
use coredns_manager_operator.Kube.Finalizers.{get_obj_from_k8s}
use coredns_manager_operator.Record.Validation.{record_text, construct_record, validate_records}
use coredns_manager_operator.Record.Reconcile.{
  ReconcileResult, done, judged, refresh_dns_record_resource, set_dns_record_condition,
  dns_record_update_status, handle_generic_record, is_supported, reconcile_dns_record,
  reconcile_fetched, reconcile_found, reconcile, verdict,
}

module _ (c : Client) (l : Library) (z : ZoneParser) where
  -- The record as the controller wants it stored.
  abbrev pub wanted : DnsRecord → c.State → DnsRecord
  wanted r s = judged c l z (c.now s) r (record_text r) (validate_records z (record_text r))

  -- What the API server holds of a record: the entry and the outcome of the validation.
  abbrev pub HasEntry : NamespacedName → c.State → Text → Bool → Type 0
  HasEntry key s entry passed =
      (r : DnsRecord) × (c.get dns_records key s ≡ ok r)
      × (r.status.generated_record ≡ entry)
      × (r.status.validation_passed ≡ passed)

  -- What a reconciliation returns for the outcome of the validation.
  abbrev pub answer : Option Error → Result ReconcileResult
  answer none = ok done
  answer (some e) = err (errorf (text "record validation failure: ") e)

  answer_from :
      (t : Text) (o : Option Error) (s : c.State)
      → continue (λ t. pure done) (verdict c l z t o) s ≡ (answer o, s)
  unfolding verdict pure lift raise gets ◌>>=◌ ◌>>◌ wrapped
  answer_from t none s = refl
  answer_from t (some e) s = refl

  judged-key :
      (now : ℕ) (r : DnsRecord) (t : Text) (o : Option Error)
      → key_of (judged c l z now r t o).meta ≡ key_of r.meta
  unfolding judged set_dns_record_condition
  judged-key now r t none = refl
  judged-key now r t (some e) = refl

  judged-entry :
      (now : ℕ) (r : DnsRecord) (t : Text) (o : Option Error)
      → (judged c l z now r t o).status.generated_record ≡ t
  unfolding judged
  judged-entry now r t none = refl
  judged-entry now r t (some e) = refl

  judged-passed :
      (now : ℕ) (r : DnsRecord) (t : Text) (o : Option Error)
      → (judged c l z now r t o).status.validation_passed ≡ not (is_some o)
  unfolding judged
  judged-passed now r t none = refl
  judged-passed now r t (some e) = refl

  pub reconcile-held :
      (req : NamespacedName) (r : DnsRecord) (s : c.State)
      → c.get dns_records req s ≡ ok r
      → l.contains_finalizer r.meta.finalizers dns_records_finalizer_name ≡ true
      → r.meta.deletion_timestamp ≡ none
      → reconcile c l z req s ≡ reconcile_dns_record c l z r s
  unfolding reconcile reconcile_fetched reconcile_found
  reconcile-held req r s held finalizer kept = rw (held, finalizer, kept)

  reconcile_dns_record-supported :
      (r : DnsRecord) (o : Option Error) (s s' : c.State)
      → is_supported r.spec.entry.type_name ≡ true
      → handle_generic_record c l z r s ≡ (verdict c l z (record_text r) o, s')
      → reconcile_dns_record c l z r s ≡ (answer o, s')
  unfolding reconcile_dns_record pure lift raise gets ◌>>=◌ ◌>>◌ wrapped
  reconcile_dns_record-supported r o s s' supported handled =
      rw (supported, handled) (answer_from (record_text r) o s')

  module _ (stored : IsStored c dns_records) (status : StoresRecordStatus c)
      (lib : IsLibrary l) where
    update_status-stores :
        (previous current : DnsRecord) (s : c.State) {o' : DnsRecord} {s' : c.State}
        → c.get dns_records (key_of previous.meta) s ≡ ok previous
        → key_of current.meta ≡ key_of previous.meta
        → c.update_status dns_records current s ≡ (ok o', s')
        → (s'' : c.State) × (dns_record_update_status c l z previous current s ≡ (ok tt, s''))
          × (r : DnsRecord) × (c.get dns_records (key_of previous.meta) s'' ≡ ok r)
          × (r.status ≡ current.status)
    unfolding dns_record_update_status pure lift raise gets ◌>>=◌ ◌>>◌ wrapped
    update_status-stores previous current s {o'} {s'} held same_key taken =
        elim (Bool-cases (l.equal_record_status previous.status current.status)) [
          | inl same ↦ rw same (s, refl, previous, held, lib.equal_record_status-eq _ _ same)
          | inr differs ↦
              rw (differs, taken)
                (
                  s',
                  refl,
                  o',
                  rw (← same_key) (stored.get-update_status current s taken),
                  status.status-update_status current s taken,
                )
        ]

    handle-held :
        (r : DnsRecord) (s : c.State) {o' : DnsRecord} {s' : c.State}
        → c.get dns_records (key_of r.meta) s ≡ ok r
        → c.update_status dns_records (wanted r s) s ≡ (ok o', s')
        → (s'' : c.State) × (handle_generic_record c l z r s
            ≡ (verdict c l z (record_text r) (validate_records z (record_text r)), s''))
          × HasEntry
              (key_of r.meta)
              s''
              (record_text r)
              (not (is_some (validate_records z (record_text r))))
    unfolding handle_generic_record refresh_dns_record_resource get_obj_from_k8s construct_record
        pure lift raise gets ◌>>=◌ ◌>>◌ wrapped
    handle-held r s held taken =
        let (s'', updated, stored_record, found, same) =
          update_status-stores r (wanted r s) s held (judged-key _ r _ _) taken in
        (
          s'',
          rw (held, updated),
          (stored_record, found, rw same (judged-entry _ r _ _), rw same (judged-passed _ r _ _)),
        )

    -- A reconciliation of a record that has the finalizer, is not being deleted and has a supported
    -- type, where the API server takes the write of the wanted status, runs to its end. It returns
    -- no error and asks for no other run if the zone parser accepts the record, and the parser's
    -- error otherwise. In both cases the API server then holds the record with its zone file entry,
    -- and marked as valid exactly if the parser accepts it.
    pub reconcile-stores :
        (req : NamespacedName) (r : DnsRecord) (s : c.State) {o' : DnsRecord} {s' : c.State}
        → c.get dns_records req s ≡ ok r
        → l.contains_finalizer r.meta.finalizers dns_records_finalizer_name ≡ true
        → r.meta.deletion_timestamp ≡ none
        → is_supported r.spec.entry.type_name ≡ true
        → c.update_status dns_records (wanted r s) s ≡ (ok o', s')
        → (s'' : c.State) × (reconcile c l z req s
            ≡ (answer (validate_records z (record_text r)), s''))
          × HasEntry req s'' (record_text r) (not (is_some (validate_records z (record_text r))))
    reconcile-stores req r s held finalizer kept supported taken =
        let same_key = stored.key-get req s held in
        let (s'', handled, entry) =
          handle-held r s (subst (λ k. c.get dns_records k s ≡ ok r) (sym same_key) held) taken in
        (
          s'',
          reconcile-held req r s held finalizer kept
              ∙ reconcile_dns_record-supported r (validate_records z (record_text r)) s s''
                  supported handled,
          subst
              (λ k.
                HasEntry k s'' (record_text r) (not (is_some (validate_records z (record_text r)))))
              same_key entry,
        )
