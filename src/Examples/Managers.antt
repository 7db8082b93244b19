-- ===== src/Examples/Managers.antt =====
-- A manager that remembers what it was told, and events of a record and a zone.
use coredns_manager_operator.Common.{
  ℕ, ◌≡◌, ◌↔◌, refl, ap, sym, Bool, true, false, not, ◌==◌, none, List, [], ◌∷◌, arith, ◌⊎◌,
}
use coredns_manager_operator.Common.Text.{text, eqb}
use coredns_manager_operator.Common.Text.Equality.{eqb_iff}
use coredns_manager_operator.Api.Meta.{key_of}
use coredns_manager_operator.Api.DnsRecord.{DnsRecord}
use coredns_manager_operator.Api.DnsZone.{DnsZone}
use coredns_manager_operator.Errors.{ok, ok-injective}
use coredns_manager_operator.Kube.{Kind, meta_of, dns_records, dns_zones}
use coredns_manager_operator.Watch.{dns_record_index, dns_zone_connector_index}
use coredns_manager_operator.Watch.Events.{
  Event, objects, source, created, deleted, updated, Predicates, IsPredicates, IsChange,
  ChangesGeneration, ChangesVersion, Delivery, Passes, AskedForSelf, AskedByWatch, Any,
}
use coredns_manager_operator.Watch.Setup.{
  dns_record_controller, dns_zone_controller, dns_connector_controller,
}
use coredns_manager_operator.Watch.Requests.{zone_key, connector_key, asked_iff}
use coredns_manager_operator.Manager.{
  Options, Manager, goes_on, unless_error, default_flags, manager_options, set_up, main,
  dns_record_index_name, dns_zone_connector_index_name, ◌>>=◌, setup_dns_record, setup_dns_zone,
  setup_dns_connector,
}
use coredns_manager_operator.Manager.Registered.{
  Told, indexed, completed, healthz, readyz, Remembers, set_up-tells,
}
use coredns_manager_operator.Examples.Records.{held}
use coredns_manager_operator.Examples.Zones.{zone}

abbrev remembering : Manager
remembering = record {
  State = Options × List Told;
  new_manager = λ o. ok (o, []);
  index_field = λ k name f s. (none, (s.0, indexed k name f ∷ s.1));
  complete = λ c s. (none, (s.0, completed c ∷ s.1));
  add_healthz_check = λ name s. (none, (s.0, healthz name ∷ s.1));
  add_readyz_check = λ name s. (none, (s.0, readyz name ∷ s.1));
  start = λ s. (none, s);
}

remembering-Remembers : Remembers remembering
remembering-Remembers = record {
  options = λ s. s.0;
  told = λ s. s.1;
  new_lem =
      λ o s h. let same = ok-injective h in (ap (λ x. x.0) (sym same), ap (λ x. x.1) (sym same));
  index_lem = λ k name f s t h. (ap (λ x. x.1.0) (sym h), ap (λ x. x.1.1) (sym h));
  complete_lem = λ c s t h. (ap (λ x. x.1.0) (sym h), ap (λ x. x.1.1) (sym h));
  healthz_lem = λ name s t h. (ap (λ x. x.1.0) (sym h), ap (λ x. x.1.1) (sym h));
  readyz_lem = λ name s t h. (ap (λ x. x.1.0) (sym h), ap (λ x. x.1.1) (sym h));
}

changed_generation : (k : Kind) → Event k → Bool
changed_generation k (created o) = true
changed_generation k (deleted o) = true
changed_generation k (updated old new) =
    not ((meta_of k old).generation == (meta_of k new).generation)

changed_version : (k : Kind) → Event k → Bool
changed_version k (created o) = true
changed_version k (deleted o) = true
changed_version k (updated old new) =
    not (eqb (meta_of k old).resource_version (meta_of k new).resource_version)

abbrev predicates : Predicates
predicates = record {
  generation_changed = changed_generation;
  resource_version_changed = changed_version;
}

not_iff : {P : Type 0} (b : Bool) → (b ≡ true) ↔ P → (not b ≡ true) ↔ (¬ P)
not_iff true (f, g) = (λ h. absurd (ground (arith, h)), λ n. absurd (n (f refl)))
not_iff false (f, g) = (λ h is. absurd (ground (arith, g is)), λ n. refl)

equal_iff : (a b : ℕ) → (a == b ≡ true) ↔ (a ≡ b)
equal_iff a b = (λ h. ground (arith, h), λ h. ground (arith, h))

generation_lem :
    (k : Kind) (e : Event k) → (changed_generation k e ≡ true) ↔ IsChange k (ChangesGeneration k) e
unfolding changed_generation
generation_lem k (created o) = (λ h. tt, λ h. refl)
generation_lem k (deleted o) = (λ h. tt, λ h. refl)
generation_lem k (updated old new) =
    not_iff _ (equal_iff (meta_of k old).generation (meta_of k new).generation)

version_lem :
    (k : Kind) (e : Event k) → (changed_version k e ≡ true) ↔ IsChange k (ChangesVersion k) e
unfolding changed_version
version_lem k (created o) = (λ h. tt, λ h. refl)
version_lem k (deleted o) = (λ h. tt, λ h. refl)
version_lem k (updated old new) =
    not_iff _ (eqb_iff (meta_of k old).resource_version (meta_of k new).resource_version)

predicates-IsPredicates : IsPredicates predicates
predicates-IsPredicates = record {
  generation_changed_iff = generation_lem;
  resource_version_changed_iff = version_lem;
}

abbrev prompt : Delivery
prompt = record {
  Asked = λ c k e key.
      Passes k e c.event_filters × (AskedForSelf c k e key ⊎ Any (AskedByWatch k e key) c.watches);
  asked_if = λ c k e key passes source. (passes, source);
  asked_only_if = λ c k e key asked. asked;
}

set_up_lem : (s : Options × List Told) × (set_up remembering predicates default_flags ≡ goes_on s)
unfolding set_up ◌>>=◌ setup_dns_record setup_dns_zone setup_dns_connector
set_up_lem = (_, refl)

set_up-tells_example :
    (remembering-Remembers.options set_up_lem.0 ≡ manager_options default_flags)
    × (remembering-Remembers.told set_up_lem.0
        ≡ readyz (text "readyz")
          ∷ healthz (text "healthz")
          ∷ completed (dns_connector_controller predicates)
          ∷ indexed dns_zones dns_zone_connector_index_name dns_zone_connector_index
          ∷ completed (dns_record_controller predicates)
          ∷ completed (dns_zone_controller predicates)
          ∷ indexed dns_records dns_record_index_name dns_record_index
          ∷ [])
    × (main remembering predicates default_flags
        ≡ unless_error (text "problem running manager") (remembering.start set_up_lem.0))
set_up-tells_example =
    set_up-tells remembering predicates remembering-Remembers default_flags set_up_lem.0
      set_up_lem.1

-- A status of the record is written, and one of the zone.
abbrev judged_record : Event dns_records
judged_record = updated held (record held {
  meta = record held.meta { resource_version = text "8" };
  status = record held.status { validation_passed = true };
})

abbrev marked_zone : Event dns_zones
marked_zone = updated zone (record zone {
  meta = record zone.meta { resource_version = text "9" };
  status = record zone.status { checkpoint = true };
})

asked_iff_example :
    (prompt.Asked (dns_record_controller predicates) dns_records judged_record (connector_key zone)
      ↔ (IsChange dns_records (ChangesGeneration dns_records) judged_record
          × (key_of (source dns_records judged_record).meta ≡ connector_key zone)))
    × (prompt.Asked (dns_zone_controller predicates) dns_records judged_record (connector_key zone)
        ↔ (IsChange dns_records (ChangesGeneration dns_records) judged_record
            × Any
                (λ (r : DnsRecord). zone_key r ≡ connector_key zone)
                (objects dns_records judged_record)))
    × (prompt.Asked (dns_connector_controller predicates) dns_zones marked_zone (connector_key zone)
        ↔ (IsChange dns_zones (ChangesVersion dns_zones) marked_zone
            × Any
                (λ (z : DnsZone). connector_key z ≡ connector_key zone)
                (objects dns_zones marked_zone)))
asked_iff_example =
    asked_iff predicates predicates-IsPredicates prompt judged_record marked_zone
      (connector_key zone)
