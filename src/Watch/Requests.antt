-- ===== src/Watch/Requests.antt =====
-- Which events ask for which reconciliation.
use coredns_manager_operator.Common.{◌≡◌, ◌≢◌, ◌↔◌, inl, inr, refl, arith, List, [], ◌∷◌}
use coredns_manager_operator.Api.Meta.{NamespacedName, key_of}
use coredns_manager_operator.Api.DnsRecord.{DnsRecord}
use coredns_manager_operator.Api.DnsZone.{DnsZone}
use coredns_manager_operator.Kube.{dns_records, dns_zones, dns_connectors}
use coredns_manager_operator.Watch.{
  dns_record_changed_reconcile_request, dns_zone_changed_reconcile_request,
}
use coredns_manager_operator.Watch.Events.{
  Event, objects, source, Predicates, IsPredicates, IsChange, ChangesGeneration, ChangesVersion,
  Any, Delivery,
}
use coredns_manager_operator.Watch.Setup.{
  dns_record_controller, dns_zone_controller, dns_connector_controller,
}

-- The zone that a record names, and the connector that a zone names, in its namespace
abbrev pub zone_key : DnsRecord → NamespacedName
zone_key r = record { name = r.spec.dns_zone_ref; namespace = r.meta.namespace }

abbrev pub connector_key : DnsZone → NamespacedName
connector_key zone = record { name = zone.spec.connector_name; namespace = zone.meta.namespace }

Any-map :
    {A : Type 0} (P Q : A → Type 0) → ((x : A) → P x → Q x) → (xs : List A) → Any P xs → Any Q xs
Any-map P Q f [] never = never
Any-map P Q f (x ∷ xs) (inl h) = inl (f x h)
Any-map P Q f (x ∷ xs) (inr h) = inr (Any-map P Q f xs h)

dns_records-ne-dns_zones : dns_records ≢ dns_zones
dns_records-ne-dns_zones e = ground arith

dns_zones-ne-dns_connectors : dns_zones ≢ dns_connectors
dns_zones-ne-dns_connectors e = ground arith

-- A map function that gives one request
Any-one :
    {A : Type 0} (f : A → NamespacedName) (key : NamespacedName) (xs : List A)
    → Any (λ x. Any (λ (r : NamespacedName). r ≡ key) (f x ∷ [])) xs ↔ Any (λ x. f x ≡ key) xs
Any-one f key xs = (
  Any-map _ _ (λ x h. elim h [ inl is ↦ is | inr never ↦ absurd never ]) xs,
  Any-map _ _ (λ x h. inl h) xs,
)

module _ (p : Predicates) (documented : IsPredicates p) (d : Delivery) where
  zone_asked_iff :
      (e : Event dns_records) (key : NamespacedName)
      → d.Asked (dns_zone_controller p) dns_records e key ↔ (
          IsChange dns_records (ChangesGeneration dns_records) e
          × Any (λ (r : DnsRecord). zone_key r ≡ key) (objects dns_records e))
  unfolding dns_zone_controller dns_record_changed_reconcile_request
  zone_asked_iff e key =
      let (passes, passes') = documented.generation_changed_iff dns_records e in
      let (one, one') = Any-one zone_key key (objects dns_records e) in
      (
        λ asked. elim (d.asked_only_if (dns_zone_controller p) dns_records e key asked).1 [
          | inl self ↦ absurd (dns_records-ne-dns_zones self.0)
          | inr (inl (_, passed, found)) ↦ (passes passed.0, one found)
          | inr (inr never) ↦ absurd never
        ],
        λ is.
            d.asked_if (dns_zone_controller p) dns_records e key (passes' is.0, tt)
              (inr (inl (refl, (passes' is.0, tt), one' is.1))),
      )

  connector_asked_iff :
      (f : Event dns_zones) (key : NamespacedName)
      → d.Asked (dns_connector_controller p) dns_zones f key ↔ (
          IsChange dns_zones (ChangesVersion dns_zones) f
          × Any (λ (zone : DnsZone). connector_key zone ≡ key) (objects dns_zones f))
  unfolding dns_connector_controller dns_zone_changed_reconcile_request
  connector_asked_iff f key =
      let (passes, passes') = documented.resource_version_changed_iff dns_zones f in
      let (one, one') = Any-one connector_key key (objects dns_zones f) in
      (
        λ asked. elim (d.asked_only_if (dns_connector_controller p) dns_zones f key asked).1 [
          | inl self ↦ absurd (dns_zones-ne-dns_connectors self.0)
          | inr (inl (_, passed, found)) ↦ (passes passed.0, one found)
          | inr (inr never) ↦ absurd never
        ],
        λ is.
            d.asked_if (dns_connector_controller p) dns_zones f key tt
              (inr (inl (refl, (passes' is.0, tt), one' is.1))),
      )

  record_asked_iff :
      (e : Event dns_records) (key : NamespacedName)
      → d.Asked (dns_record_controller p) dns_records e key ↔ (
          IsChange dns_records (ChangesGeneration dns_records) e
          × (key_of (source dns_records e).meta ≡ key))
  unfolding dns_record_controller
  record_asked_iff e key =
      let (passes, passes') = documented.generation_changed_iff dns_records e in
      (
        λ asked.
            let (passed, source) =
              d.asked_only_if (dns_record_controller p) dns_records e key asked in
            elim source [ inl (_, _, found) ↦ (passes passed.0, found) | inr never ↦ absurd never ],
        λ is.
            d.asked_if (dns_record_controller p) dns_records e key (passes' is.0, tt)
              (inl (refl, tt, is.1)),
      )

  -- An event of a record asks the record controller for a reconciliation of a record if and only if
  -- it is a creation, a deletion or an update that changes the record's generation, and the record
  -- is the one of the event; under the same condition it asks the zone controller for one of a zone
  -- if and only if the zone is the one that the record names, before or behind the update. An event
  -- of a zone asks the connector controller for one of a connector if and only if it is a creation,
  -- a deletion or an update that changes the zone's resource version, and the connector is the one
  -- that the zone names, before or behind the update. Predicates and the delivery of requests are
  -- supposed to be as they are documented.
  pub asked_iff :
      (e : Event dns_records) (f : Event dns_zones) (key : NamespacedName)
      → (d.Asked (dns_record_controller p) dns_records e key ↔ (
          IsChange dns_records (ChangesGeneration dns_records) e
          × (key_of (source dns_records e).meta ≡ key)))
        × (d.Asked (dns_zone_controller p) dns_records e key ↔ (
            IsChange dns_records (ChangesGeneration dns_records) e
            × Any (λ (r : DnsRecord). zone_key r ≡ key) (objects dns_records e)))
        × (d.Asked (dns_connector_controller p) dns_zones f key ↔ (
            IsChange dns_zones (ChangesVersion dns_zones) f
            × Any (λ (zone : DnsZone). connector_key zone ≡ key) (objects dns_zones f)))
  asked_iff e f key = (record_asked_iff e key, zone_asked_iff e key, connector_asked_iff f key)
