-- ===== src/Kube/Store/Zones.antt =====
-- What the API server in memory does with zones.
use coredns_manager_operator.Common.{◌≡◌, ap, ◌∙◌, subst}
use coredns_manager_operator.Errors.{ok}
use coredns_manager_operator.Api.Meta.{NamespacedName, ObjectMeta, key_of}
use coredns_manager_operator.Api.DnsZone.{DnsZone}
use coredns_manager_operator.Kube.{dns_zones, meta_of, IsStored, StoresZoneStatus}
use coredns_manager_operator.Kube.Store.Rewritten.{rewritten-stores}
use coredns_manager_operator.Kube.Store.{
  Store, store, put_stored, newest_of, keeping_status, taking_status, newest_of-key,
}

abbrev zone_meta : DnsZone → ObjectMeta
zone_meta = meta_of dns_zones

put_lem :
    (merge : DnsZone → DnsZone → DnsZone) (o o' : DnsZone) (s t : Store)
    → put_stored dns_zones merge o s ≡ (ok o', t)
    → (old : DnsZone) × (newest_of zone_meta (key_of o.meta) s.zones ≡ ok old)
      × (o' ≡ merge old o)
      × (newest_of zone_meta (key_of o'.meta) t.zones ≡ ok o')
put_lem merge o o' s t h =
    rewritten-stores zone_meta merge o o' s.zones t.zones _
      (ap (λ x. (x.0, (let u : Store = x.1 in u.zones))) h)

found-update :
    (o : DnsZone) (s : Store) {o' : DnsZone} {s' : Store}
    → store.update dns_zones o s ≡ (ok o', s')
    → newest_of zone_meta (key_of o.meta) s'.zones ≡ ok o'
found-update o s {o'} {s'} e =
    let (old, _, same, found) = put_lem (keeping_status dns_zones) o o' s s' e in
    subst (λ (k : NamespacedName). newest_of zone_meta k s'.zones ≡ ok o')
      (ap (λ (x : DnsZone). key_of x.meta) same) found

found-update_status :
    (o : DnsZone) (s : Store) {o' : DnsZone} {s' : Store}
    → store.update_status dns_zones o s ≡ (ok o', s')
    → newest_of zone_meta (key_of o.meta) s'.zones ≡ ok o'
found-update_status o s {o'} {s'} e =
    let (old, held, same, found) = put_lem (taking_status dns_zones) o o' s s' e in
    subst (λ (k : NamespacedName). newest_of zone_meta k s'.zones ≡ ok o')
      (ap (λ (x : DnsZone). key_of x.meta) same
        ∙ newest_of-key zone_meta (key_of o.meta) s.zones old held)
      found

pub store-IsStored : IsStored store dns_zones
store-IsStored = record {
  key-get = λ key s found. newest_of-key zone_meta key s.zones _ found;
  get-update = λ o s e held. found-update o s e;
  finalizers-update = λ o s e.
      let (old, _, same, _) = put_lem (keeping_status dns_zones) o _ s _ e in
      ap (λ (x : DnsZone). x.meta.finalizers) same;
  get-update_status = λ o s e. found-update_status o s e;
}

pub store-StoresZoneStatus : StoresZoneStatus store
store-StoresZoneStatus = record {
  status-update_status = λ o s e.
      let (old, _, same, _) = put_lem (taking_status dns_zones) o _ s _ e in
      ap (λ (x : DnsZone). x.status) same;
}
