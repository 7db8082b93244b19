-- ===== src/Kube/Store.antt =====
-- An API server in memory that holds objects of every kind. As on a real one, an update keeps the
-- status that is stored, and an update of a status keeps all the rest.
pub mod Laws
pub mod Records
pub mod Separate
pub mod Rewritten
pub mod Zones
use coredns_manager_operator.Common.{
  ◌≡◌, ◌≢◌, ◌⊎◌, inl, inr, refl, ap, sym, ◌∙◌, subst, Bool, true, false, ◌&&◌, List, [], ◌∷◌,
  length, arith, Bool-cases, if◌then◌else◌, All,
}
use coredns_manager_operator.Common.Text.{Text, text, eqb}
use coredns_manager_operator.Common.Text.Equality.{eqb_refl, eqb→eq}
use coredns_manager_operator.Errors.{
  Error, Result, ok, err, not_found, already_exists, ok-injective, Result-cases,
}
use coredns_manager_operator.Api.Meta.{NamespacedName, ObjectMeta, ConfigMap, key_of}
use coredns_manager_operator.Api.DnsRecord.{DnsRecord}
use coredns_manager_operator.Api.DnsZone.{DnsZone}
use coredns_manager_operator.Api.DnsConnector.{DnsConnector, Workload, WorkloadKind}
use coredns_manager_operator.Kube.{
  Kind, Object, meta_of, dns_records, dns_zones, dns_connectors, config_maps, workloads, Client,
}
use coredns_manager_operator.Kube.Memory.{same_key, same_key-eq, same_key_refl, missing}
use coredns_manager_operator.Record.Honest.{SeparatesStatus}

-- The newest version of every object is the first one. There are workloads of one kind.
pub record Store : Type 0 where
  pub records : List DnsRecord
  pub zones : List DnsZone
  pub connectors : List DnsConnector
  pub maps : List ConfigMap
  pub works : List Workload

abbrev exists_already : Error
exists_already = record { reason = already_exists; message = text "already exists" }

module _ {A : Type 0} (meta : A → ObjectMeta) where
  unfoldable pub newest_of : NamespacedName → List A → Result A
  newest_of key [] = err missing
  newest_of key (o ∷ os) = if same_key (key_of (meta o)) key then ok o else newest_of key os

  -- A write of an object that is there, on what was there, and a creation
  unfoldable pub rewritten : (A → A → A) → A → Result A → List A → Result A × List A
  rewritten merge o (ok old) os = (ok (merge old o), merge old o ∷ os)
  rewritten merge o (err e) os = (err e, os)

  unfoldable pub created : A → Result A → List A → Result A × List A
  created o (ok old) os = (err exists_already, os)
  created o (err e) os = (ok o, o ∷ os)

abbrev pub objects : (k : Kind) → Store → List (Object k)
objects dns_records s = s.records
objects dns_zones s = s.zones
objects dns_connectors s = s.connectors
objects config_maps s = s.maps
objects (workloads k) s = s.works

abbrev pub with_objects : (k : Kind) → List (Object k) → Store → Store
with_objects dns_records os s = record s { records = os }
with_objects dns_zones os s = record s { zones = os }
with_objects dns_connectors os s = record s { connectors = os }
with_objects config_maps os s = record s { maps = os }
with_objects (workloads k) os s = record s { works = os }

abbrev pub keeping_status : (k : Kind) → Object k → Object k → Object k
keeping_status dns_records old o = record o { status = old.status }
keeping_status dns_zones old o = record o { status = old.status }
keeping_status dns_connectors old o = record o { status = old.status }
keeping_status config_maps old o = o
keeping_status (workloads k) old o = o

abbrev pub taking_status : (k : Kind) → Object k → Object k → Object k
taking_status dns_records old o = record old { status = o.status }
taking_status dns_zones old o = record old { status = o.status }
taking_status dns_connectors old o = record old { status = o.status }
taking_status config_maps old o = old
taking_status (workloads k) old o = old

abbrev pub get_stored : (k : Kind) → NamespacedName → Store → Result (Object k)
get_stored k key s = newest_of (meta_of k) key (objects k s)

abbrev pub put_stored :
    (k : Kind) → (Object k → Object k → Object k) → Object k → Store → Result (Object k) × Store
put_stored k merge o s =
    let old = get_stored k (key_of (meta_of k o)) s in
    let (r, os) = rewritten (meta_of k) merge o old (objects k s) in (r, with_objects k os s)

abbrev pub create_stored : (k : Kind) → Object k → Store → Result (Object k) × Store
create_stored k o s =
    let old = get_stored k (key_of (meta_of k o)) s in
    let (r, os) = created (meta_of k) o old (objects k s) in (r, with_objects k os s)

-- Lists of records give those that are read by their keys.
unfoldable pub listed : List DnsRecord → List DnsRecord
listed [] = []
listed (r ∷ rs) = r ∷ []

abbrev pub store : Client
store = record {
  State = Store;
  get = get_stored;
  create = create_stored;
  update = λ k o s. put_stored k (keeping_status k) o s;
  update_status = λ k o s. put_stored k (taking_status k) o s;
  list_records = λ zone namespace s. ok (listed s.records);
  list_zones = λ connector namespace s. ok s.zones;
  now = λ s. length s.records;
  local_time = λ s. record { month = 1; day = 2; hour = 3; minute = 4; second = 5 };
}

module _ {A : Type 0} (meta : A → ObjectMeta) where
  pub newest_of_self : (o : A) (os : List A) → newest_of meta (key_of (meta o)) (o ∷ os) ≡ ok o
  unfolding newest_of
  newest_of_self o os = rw (same_key_refl (key_of (meta o)))

  pub newest_of-key :
      (key : NamespacedName) (os : List A) (o : A)
      → newest_of meta key os ≡ ok o
      → key_of (meta o) ≡ key
  unfolding newest_of
  newest_of-key key [] o h = absurd (ground (arith, h))
  newest_of-key key (q ∷ os) o h = elim (Bool-cases (same_key (key_of (meta q)) key)) [
    | inl same ↦
        subst (λ x. key_of (meta x) ≡ key) (ok-injective (rw same at h)) (same_key-eq _ _ same)
    | inr other ↦ newest_of-key key os o (rw other at h)
  ]

  -- A version that is read behind a write is the one that was written, or an older one.
  pub newest_of-cons :
      (o r : A) (os : List A) (key : NamespacedName)
      → newest_of meta key (o ∷ os) ≡ ok r
      → ((key_of (meta o) ≡ key) × (r ≡ o)) ⊎ (newest_of meta key os ≡ ok r)
  unfolding newest_of
  newest_of-cons o r os key h = elim (Bool-cases (same_key (key_of (meta o)) key)) [
    | inl same ↦ inl (same_key-eq _ _ same, sym (ok-injective (rw same at h)))
    | inr other ↦ inr (rw other at h)
  ]

update_status-read :
    (o r : DnsRecord) (os : List DnsRecord) (key : NamespacedName) (f : Result DnsRecord)
    → newest_of
        (meta_of dns_records)
        key
        (rewritten (meta_of dns_records) (taking_status dns_records) o f os).1
      ≡ ok r
    → (newest_of (meta_of dns_records) key os ≡ ok r) ⊎ (r.status ≡ o.status)
unfolding rewritten
update_status-read o r os key (err e) h = inl h
update_status-read o r os key (ok held) h =
    elim (newest_of-cons (meta_of dns_records) (taking_status dns_records held o) r os key h) [
      | inl (_, is) ↦ inr (ap (λ (x : DnsRecord). x.status) is)
      | inr old ↦ inl old
    ]

update-read :
    (o r : DnsRecord) (os : List DnsRecord) (key : NamespacedName) (f : Result DnsRecord)
    → f ≡ newest_of (meta_of dns_records) (key_of o.meta) os
    → newest_of
        (meta_of dns_records)
        key
        (rewritten (meta_of dns_records) (keeping_status dns_records) o f os).1
      ≡ ok r
    → (q : DnsRecord) × (newest_of (meta_of dns_records) key os ≡ ok q) × (r.status ≡ q.status)
unfolding rewritten
update-read o r os key (err e) is h = (r, h, refl)
update-read o r os key (ok held) is h =
    elim (newest_of-cons (meta_of dns_records) (keeping_status dns_records held o) r os key h) [
      | inl (same, new) ↦ (
        held,
        subst (λ k. newest_of (meta_of dns_records) k os ≡ ok held) same (sym is),
        ap (λ (x : DnsRecord). x.status) new,
      )
      | inr old ↦ (r, old, refl)
    ]

other_status :
    (k : Kind) (o : Object k) (s : Store) (key : NamespacedName)
    → k ≢ dns_records
    → get_stored dns_records key (put_stored k (taking_status k) o s).1
      ≡ get_stored dns_records key s
other_status dns_records o s key other = absurd (other refl)
other_status dns_zones o s key other = refl
other_status dns_connectors o s key other = refl
other_status config_maps o s key other = refl
other_status (workloads k) o s key other = refl

any_update :
    (k : Kind) (o : Object k) (s : Store) (key : NamespacedName) (r : DnsRecord)
    → get_stored dns_records key (put_stored k (keeping_status k) o s).1 ≡ ok r
    → (q : DnsRecord) × (get_stored dns_records key s ≡ ok q) × (r.status ≡ q.status)
any_update dns_records o s key r h = update-read o r s.records key _ refl h
any_update dns_zones o s key r h = (r, h, refl)
any_update dns_connectors o s key r h = (r, h, refl)
any_update config_maps o s key r h = (r, h, refl)
any_update (workloads k) o s key r h = (r, h, refl)

pub store-SeparatesStatus : SeparatesStatus store
store-SeparatesStatus = record {
  read-update_status = λ o s key r h. update_status-read o r s.records key _ h;
  read-update_status_other = λ k o s key other. other_status k o s key other;
  read-update = λ k o s key r h. any_update k o s key r h;
  read-create = λ o s key. refl;
}
