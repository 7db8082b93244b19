-- ===== src/Record/Lifecycle.antt =====
-- The finalizer of a DNSRecord in `Reconcile` of internal/controller/dnsrecord_controller.go, and
-- which records it reconciles without an error.
use coredns_manager_operator.Common.{
  ℕ, ◌≡◌, ◌≢◌, arith, ap, refl, sym, ◌∙◌, true, false, none, some, Bool-cases, Option-cases, inl,
  inr,
}
use coredns_manager_operator.Common.Text.{text}
use coredns_manager_operator.Errors.{Error, Result, ok, err, errorf, Result-cases}
use coredns_manager_operator.Api.Meta.{NamespacedName}
use coredns_manager_operator.Api.DnsRecord.{DnsRecord, dns_records_finalizer_name}
use coredns_manager_operator.Kube.{
  dns_records, Client, Library, ZoneParser, Exec, ◌>>=◌, wrapped, IsStored, IsLibrary, pure, lift,
  raise, gets, ◌>>◌,
}
use coredns_manager_operator.Kube.Finalizers.Laws.{
  with_finalizers, add_finalizer-stores, remove_finalizer-writes,
}
use coredns_manager_operator.Record.Validation.{record_text, construct_record, validate_records}
use coredns_manager_operator.Record.Reconcile.{
  ReconcileResult, done, once_more, judged, refresh_dns_record_resource, dns_record_update_status,
  handle_generic_record, is_supported, reconcile_dns_record, reconcile_found, reconcile_fetched,
  reconcile_delete, reconcile, verdict,
}
use coredns_manager_operator.Record.Stored.{reconcile-held}

-- A method that fails whatever the step before it returns.
data Fails {S A : Type 0} (r : Result A × S) : Type 0 where
  fails : (e : Error) → r.0 ≡ err e → Fails r

-- … or before the steps that follow.
bind-Fails :
    {S A B : Type 0} (m : Exec S A) (f : A → Exec S B) (s : S)
    → ((a : A) (s' : S) → Fails (f a s'))
    → Fails ((m >>= f) s)
unfolding pure lift raise gets ◌>>=◌ ◌>>◌ wrapped
bind-Fails m f s h = elim (Result-cases (m s).0) [
  | inl (a, e) ↦ rw e (h a (m s).1)
  | inr (e', e) ↦ rw e (fails e' refl)
]

err-ne-ok : {A : Type 0} (e : Error) (a : A) → err e ≢ ok a
err-ne-ok e a h = ground arith

module _ (c : Client) (l : Library) (z : ZoneParser) where
  handle_generic_record-Fails :
      (r : DnsRecord) (s : c.State) (e : Error)
      → validate_records z (record_text r) ≡ some e
      → Fails (handle_generic_record c l z r s)
  unfolding handle_generic_record construct_record verdict pure lift raise gets ◌>>=◌ ◌>>◌ wrapped
  handle_generic_record-Fails r s e bad = rw bad (
      bind-Fails
        (wrapped (text "failed to refresh DNSRecord resource: ")
          (refresh_dns_record_resource c l z r))
        _ s
        (λ _ s'.
          bind-Fails
            (wrapped (text "failed to update status and condition: ") (
              dns_record_update_status c l z r
                (judged c l z (c.now s') r (record_text r) (some e))))
            _ s' (λ _ _. fails (errorf (text "record validation failure: ") e) refl)))

  supported_lem :
      (r : DnsRecord) (s : c.State) (answer : ReconcileResult)
      → (reconcile_dns_record c l z r s).0 ≡ ok answer
      → is_supported r.spec.entry.type_name ≡ true
  unfolding reconcile_dns_record pure lift raise gets ◌>>=◌ ◌>>◌ wrapped
  supported_lem r s answer fine = elim (Bool-cases (is_supported r.spec.entry.type_name)) [
    | inl known ↦ known
    | inr unknown ↦ let h : err _ ≡ ok answer = rw unknown at fine in absurd (err-ne-ok _ answer h)
  ]

  reconcile_dns_record-Fails :
      (r : DnsRecord) (s : c.State) (e : Error)
      → is_supported r.spec.entry.type_name ≡ true
      → validate_records z (record_text r) ≡ some e
      → Fails (reconcile_dns_record c l z r s)
  unfolding reconcile_dns_record pure lift raise gets ◌>>=◌ ◌>>◌ wrapped
  reconcile_dns_record-Fails r s e supported bad = elim (handle_generic_record-Fails r s e bad) [
    | fails e' h ↦ rw supported (fails e' (rw h))
  ]

  valid_lem :
      (r : DnsRecord) (s : c.State) (answer : ReconcileResult)
      → is_supported r.spec.entry.type_name ≡ true
      → (reconcile_dns_record c l z r s).0 ≡ ok answer
      → validate_records z (record_text r) ≡ none
  valid_lem r s answer supported fine = elim (Option-cases (validate_records z (record_text r))) [
    | inl valid ↦ valid
    | inr (e, bad) ↦ elim (reconcile_dns_record-Fails r s e supported bad) [
      | fails e' h ↦ absurd (err-ne-ok e' answer (sym h ∙ fine))
    ]
  ]

  -- A reconciliation of a record that has the finalizer and is not being deleted returns no error
  -- only if the record has a supported type and the zone parser accepts the record.
  pub reconcile-ok :
      (req : NamespacedName) (r : DnsRecord) (s : c.State) (answer : ReconcileResult)
      → c.get dns_records req s ≡ ok r
      → l.contains_finalizer r.meta.finalizers dns_records_finalizer_name ≡ true
      → r.meta.deletion_timestamp ≡ none
      → (reconcile c l z req s).0 ≡ ok answer
      → (is_supported r.spec.entry.type_name ≡ true) × (validate_records z (record_text r) ≡ none)
  reconcile-ok req r s answer held finalizer kept fine =
      let h = sym (ap (λ x. x.0) (reconcile-held c l z req r s held finalizer kept)) ∙ fine in
      let supported = supported_lem r s answer h in (supported, valid_lem r s answer supported h)

  module _ (stored : IsStored c dns_records) (lib : IsLibrary l) where
    -- The first reconciliation of a record that has not got the finalizer, where the API server
    -- takes the write: it asks for another run, and the record is then stored with the finalizer.
    pub reconcile-adopts :
        (req : NamespacedName) (r : DnsRecord) (s : c.State) {o' : DnsRecord} {s' : c.State}
        → c.get dns_records req s ≡ ok r
        → l.contains_finalizer r.meta.finalizers dns_records_finalizer_name ≡ false
        → c.update dns_records
            (with_finalizers dns_records
              (l.add_finalizer r.meta.finalizers dns_records_finalizer_name)
              r)
            s
          ≡ (ok o', s')
        → (reconcile c l z req s ≡ (ok once_more, s'))
          × (c.get dns_records req s' ≡ ok o')
          × (l.contains_finalizer o'.meta.finalizers dns_records_finalizer_name ≡ true)
    unfolding reconcile reconcile_fetched reconcile_found pure lift raise gets ◌>>=◌ ◌>>◌ wrapped
    reconcile-adopts req r s {o'} {s'} held lacks taken =
        let same_key = stored.key-get req s held in
        let (added, found, has) =
          add_finalizer-stores c l dns_records stored lib req dns_records_finalizer_name r s held
            lacks taken in
        (rw (held, lacks, same_key, added), found, has)

    -- The reconciliation of a record with the finalizer that is being deleted, where the API server
    -- takes the write: it returns no error and asks for no other run, and the record was written
    -- without the finalizer. The write is the only change of the API server's state.
    pub reconcile-releases :
        (req : NamespacedName) (r : DnsRecord) (s : c.State) (t : ℕ) {o' : DnsRecord} {s' : c.State}
        → c.get dns_records req s ≡ ok r
        → l.contains_finalizer r.meta.finalizers dns_records_finalizer_name ≡ true
        → r.meta.deletion_timestamp ≡ some t
        → c.update dns_records
            (with_finalizers dns_records
              (l.remove_finalizer r.meta.finalizers dns_records_finalizer_name)
              r)
            s
          ≡ (ok o', s')
        → (reconcile c l z req s ≡ (ok done, s'))
          × (l.contains_finalizer o'.meta.finalizers dns_records_finalizer_name ≡ false)
    unfolding reconcile reconcile_fetched reconcile_found reconcile_delete pure lift raise gets
        ◌>>=◌ ◌>>◌ wrapped
    reconcile-releases req r s t held has deleted taken =
        let same_key = stored.key-get req s held in
        let (removed, lacks) =
          remove_finalizer-writes c l dns_records stored lib req dns_records_finalizer_name r s held
            has taken in
        (rw (held, has, deleted, same_key, removed), lacks)
