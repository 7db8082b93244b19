-- ===== src/Kube/Store/Records.antt =====
-- What the API server in memory does with records.
use coredns_manager_operator.Common.{
  ◌≡◌, ◌≢◌, inl, inr, refl, ap, sym, ◌∙◌, subst, List, Bool-cases,
}
use coredns_manager_operator.Errors.{Result, ok, err}
use coredns_manager_operator.Api.Meta.{NamespacedName, ObjectMeta, key_of}
use coredns_manager_operator.Api.DnsRecord.{DnsRecord}
use coredns_manager_operator.Kube.{dns_records, meta_of, IsStored, StoresRecordStatus}
use coredns_manager_operator.Kube.Memory.{same_key, same_key-eq}
use coredns_manager_operator.Kube.Store.Rewritten.{rewritten-stores}
use coredns_manager_operator.Kube.Store.{
  Store, store, put_stored, newest_of, rewritten, keeping_status, taking_status, newest_of-key,
}
use coredns_manager_operator.Zone.Told.{KeepsOtherRecords}

abbrev record_meta : DnsRecord → ObjectMeta
record_meta = meta_of dns_records

put_lem :
    (merge : DnsRecord → DnsRecord → DnsRecord) (o o' : DnsRecord) (s t : Store)
    → put_stored dns_records merge o s ≡ (ok o', t)
    → (old : DnsRecord) × (newest_of record_meta (key_of o.meta) s.records ≡ ok old)
      × (o' ≡ merge old o)
      × (newest_of record_meta (key_of o'.meta) t.records ≡ ok o')
put_lem merge o o' s t h =
    rewritten-stores record_meta merge o o' s.records t.records _
      (ap (λ x. (x.0, (let u : Store = x.1 in u.records))) h)

found-update :
    (o : DnsRecord) (s : Store) {o' : DnsRecord} {s' : Store}
    → store.update dns_records o s ≡ (ok o', s')
    → newest_of record_meta (key_of o.meta) s'.records ≡ ok o'
found-update o s {o'} {s'} e =
    let (old, _, same, found) = put_lem (keeping_status dns_records) o o' s s' e in
    subst (λ (k : NamespacedName). newest_of record_meta k s'.records ≡ ok o')
      (ap (λ (x : DnsRecord). key_of x.meta) same) found

found-update_status :
    (o : DnsRecord) (s : Store) {o' : DnsRecord} {s' : Store}
    → store.update_status dns_records o s ≡ (ok o', s')
    → newest_of record_meta (key_of o.meta) s'.records ≡ ok o'
found-update_status o s {o'} {s'} e =
    let (old, held, same, found) = put_lem (taking_status dns_records) o o' s s' e in
    subst (λ (k : NamespacedName). newest_of record_meta k s'.records ≡ ok o')
      (ap (λ (x : DnsRecord). key_of x.meta) same
        ∙ newest_of-key record_meta (key_of o.meta) s.records old held)
      found

pub store-IsStored : IsStored store dns_records
store-IsStored = record {
  key-get = λ key s found. newest_of-key record_meta key s.records _ found;
  get-update = λ o s e held. found-update o s e;
  finalizers-update = λ o s e.
      let (old, _, same, _) = put_lem (keeping_status dns_records) o _ s _ e in
      ap (λ (x : DnsRecord). x.meta.finalizers) same;
  get-update_status = λ o s e. found-update_status o s e;
}

pub store-StoresRecordStatus : StoresRecordStatus store
store-StoresRecordStatus = record {
  status-update_status = λ o s e.
      let (old, _, same, _) = put_lem (taking_status dns_records) o _ s _ e in
      ap (λ (x : DnsRecord). x.status) same;
}

rewritten-others :
    (o : DnsRecord) (key : NamespacedName) (os : List DnsRecord) (f : Result DnsRecord)
    → f ≡ newest_of record_meta (key_of o.meta) os
    → key ≢ key_of o.meta
    → newest_of record_meta key (rewritten record_meta (taking_status dns_records) o f os).1
      ≡ newest_of record_meta key os
unfolding rewritten newest_of
rewritten-others o key os (err e) is other = refl
rewritten-others o key os (ok old) is other = elim (Bool-cases (same_key (key_of old.meta) key)) [
  | inl same ↦ absurd (
      other (
        sym (same_key-eq (key_of old.meta) key same)
        ∙ newest_of-key record_meta (key_of o.meta) os old (sym is)))
  | inr differs ↦ rw differs refl
]

pub store-KeepsOtherRecords : KeepsOtherRecords store
store-KeepsOtherRecords = record {
  get-update_status = λ o key s other. rewritten-others o key s.records _ refl other;
}
