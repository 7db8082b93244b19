-- ===== src/Kube.antt =====
-- The interfaces of the libraries that the operator calls: the API server behind
-- `client.Client` (controller-runtime), the helpers of `controllerutil`, `meta` and `equality`
-- (apimachinery, controller-runtime), and the zone parser of `github.com/miekg/dns`.
pub mod Finalizers
pub mod Memory
pub mod Outcome
pub mod Preserve
pub mod Store
use coredns_manager_operator.Common.{
  ℕ, ◌<◌, ◌≡◌, ◌≢◌, ◌↔◌, ◌⊎◌, Bool, true, false, Option, none, some, List, if◌then◌else◌,
}
use coredns_manager_operator.Common.Text.{Text}
use coredns_manager_operator.Common.Dict.{Dict, SameMap}
use coredns_manager_operator.Errors.{Error, Result, ok, err, wrap}
use coredns_manager_operator.Api.Meta.{NamespacedName, ObjectMeta, Condition, ConfigMap, key_of}
use coredns_manager_operator.Api.DnsRecord.{DnsRecord, DnsRecordStatus}
use coredns_manager_operator.Api.DnsZone.{DnsZone, DnsZoneStatus, Time}
use coredns_manager_operator.Api.DnsConnector.{
  DnsConnector, DnsConnectorStatus, Workload, WorkloadKind,
}

-- The kinds of the objects that the operator reads and writes.
pub data Kind : Type 0 where
  dns_records dns_zones dns_connectors config_maps : Kind
  workloads : WorkloadKind → Kind

abbrev pub Object : Kind → Type 0
Object dns_records = DnsRecord
Object dns_zones = DnsZone
Object dns_connectors = DnsConnector
Object config_maps = ConfigMap
Object (workloads k) = Workload

abbrev pub meta_of : (k : Kind) → Object k → ObjectMeta
meta_of dns_records o = o.meta
meta_of dns_zones o = o.meta
meta_of dns_connectors o = o.meta
meta_of config_maps o = o.meta
meta_of (workloads k) o = o.meta

abbrev pub with_meta : (k : Kind) → ObjectMeta → Object k → Object k
with_meta dns_records m o = record o { meta = m }
with_meta dns_zones m o = record o { meta = m }
with_meta dns_connectors m o = record o { meta = m }
with_meta config_maps m o = record o { meta = m }
with_meta (workloads k) m o = record o { meta = m }

-- The API server. A write returns the object as the server has stored it.
pub record Client : Type 1 where
  pub State : Type 0
  pub get : (k : Kind) → NamespacedName → State → Result (Object k)
  pub create : (k : Kind) → Object k → State → Result (Object k) × State
  pub update : (k : Kind) → Object k → State → Result (Object k) × State
  pub update_status : (k : Kind) → Object k → State → Result (Object k) × State
  -- `r.List` by the field index of the zone's or the connector's name
  pub list_records : Text → Text → State → Result (List DnsRecord)
  pub list_zones : Text → Text → State → Result (List DnsZone)
  -- `metav1.Now()` and `time.Now()`
  pub now : State → ℕ
  pub local_time : State → Time

-- The library functions on data.
pub record Library : Type 0 where
  pub contains_finalizer : List Text → Text → Bool
  pub add_finalizer : List Text → Text → List Text
  pub remove_finalizer : List Text → Text → List Text
  pub set_status_condition : List Condition → Condition → List Condition
  pub equal_record_status : DnsRecordStatus → DnsRecordStatus → Bool
  pub equal_zone_status : DnsZoneStatus → DnsZoneStatus → Bool
  pub equal_connector_status : DnsConnectorStatus → DnsConnectorStatus → Bool
  pub equal_data : Dict Text → Dict Text → Bool

-- `dns.ZoneParser`. `next` is `Next()`, which says whether there was a record.
pub record ZoneParser : Type 1 where
  pub Parser : Type 0
  pub new_zone_parser : Text → Parser
  pub next : Parser → Bool × Parser
  pub parse_error : Parser → Option Error
  -- how many more records `next` returns at most
  pub remaining : Parser → ℕ

-- A parser comes to the end of its text: whenever it returns a record, fewer are to come. A text has
-- finitely many records, also where one line of it, a $GENERATE, stands for several.
abbrev pub Consumes : ZoneParser → Type 0
Consumes z = (p : z.Parser) → (z.next p).0 ≡ true → z.remaining (z.next p).1 < z.remaining p

-- Methods of a reconciler: they read and write the state of the API server, and may fail. What was
-- written before an error stays written.
abbrev pub Exec : Type 0 → Type 0 → Type 0
Exec S A = S → Result A × S

unfoldable pub pure : {S A : Type 0} → A → Exec S A
pure a s = (ok a, s)

unfoldable pub lift : {S A : Type 0} → Result A → Exec S A
lift r s = (r, s)

unfoldable pub raise : {S A : Type 0} → Error → Exec S A
raise e s = (err e, s)

unfoldable pub gets : {S A : Type 0} → (S → A) → Exec S A
gets f s = (ok (f s), s)

-- What follows a step, on its result.
abbrev pub continue : {S A B : Type 0} → (A → Exec S B) → Result A → Exec S B
continue f (ok a) s = f a s
continue f (err e) s = (err e, s)

infixl 5 ◌>>=◌ ◌>>◌
unfoldable pub ◌>>=◌ : {S A B : Type 0} → Exec S A → (A → Exec S B) → Exec S B
◌>>=◌ m f s = let (r, s') = m s in continue f r s'

unfoldable pub ◌>>◌ : {S B : Type 0} → Exec S (Unit {0}) → Exec S B → Exec S B
m >> k = m >>= λ _. k

-- `if err := m; err != nil { return fmt.Errorf("…: %v", err) }`
unfoldable pub wrapped : {S A : Type 0} → Text → Exec S A → Exec S A
wrapped prefix m s = let (r, s') = m s in (wrap prefix r, s')

-- What the documentation of the API server says of reads behind writes, of one kind of objects.
pub record IsStored (c : Client) (k : Kind) : Type 0 where
  -- a read returns the object that was asked for
  pub key-get :
      (key : NamespacedName) (s : c.State) {o : Object k}
      → c.get k key s ≡ ok o
      → key_of (meta_of k o) ≡ key
  -- an object with finalizers stays, as it was written
  pub get-update :
      (o : Object k) (s : c.State) {o' : Object k} {s' : c.State}
      → c.update k o s ≡ (ok o', s')
      → (meta_of k o).finalizers ≢ List.[]
      → c.get k (key_of (meta_of k o)) s' ≡ ok o'
  pub finalizers-update :
      (o : Object k) (s : c.State) {o' : Object k} {s' : c.State}
      → c.update k o s ≡ (ok o', s')
      → (meta_of k o').finalizers ≡ (meta_of k o).finalizers
  pub get-update_status :
      (o : Object k) (s : c.State) {o' : Object k} {s' : c.State}
      → c.update_status k o s ≡ (ok o', s')
      → c.get k (key_of (meta_of k o)) s' ≡ ok o'

-- A write to an object leaves every other one alone.
pub record IsSeparate (c : Client) : Type 0 where
  pub get-update_status_other :
      (k j : Kind) (o : Object k) (key : NamespacedName) (s : c.State)
      → (j ≢ k) ⊎ (key ≢ key_of (meta_of k o))
      → c.get j key (c.update_status k o s).1 ≡ c.get j key s

-- A write of a status stores that status.
pub record StoresRecordStatus (c : Client) : Type 0 where
  pub status-update_status :
      (o : DnsRecord) (s : c.State) {o' : DnsRecord} {s' : c.State}
      → c.update_status dns_records o s ≡ (ok o', s')
      → o'.status ≡ o.status

pub record StoresZoneStatus (c : Client) : Type 0 where
  pub status-update_status :
      (o : DnsZone) (s : c.State) {o' : DnsZone} {s' : c.State}
      → c.update_status dns_zones o s ≡ (ok o', s')
      → o'.status ≡ o.status

-- What the documentation of the API server says of the writes of config maps, at a time at which none
-- of them is being deleted: a read gets the object as it was written.
pub record StoresConfigMaps (c : Client) : Type 0 where
  pub contents-create :
      (o o' : ConfigMap) (s t : c.State)
      → c.create config_maps o s ≡ (ok o', t)
      → (c.get config_maps (key_of o.meta) t ≡ ok o') × (o'.contents ≡ o.contents)
  pub contents-update :
      (o o' : ConfigMap) (s t : c.State)
      → c.update config_maps o s ≡ (ok o', t)
      → (c.get config_maps (key_of o.meta) t ≡ ok o') × (o'.contents ≡ o.contents)
  pub key-get :
      (key : NamespacedName) (o : ConfigMap) (s : c.State)
      → c.get config_maps key s ≡ ok o
      → key_of o.meta ≡ key

-- The documented behaviour of the helpers.
pub record IsLibrary (l : Library) : Type 0 where
  pub contains-nil : (f : Text) → l.contains_finalizer List.[] f ≡ false
  pub contains-add :
      (fs : List Text) (f : Text) → l.contains_finalizer (l.add_finalizer fs f) f ≡ true
  pub contains-remove :
      (fs : List Text) (f : Text) → l.contains_finalizer (l.remove_finalizer fs f) f ≡ false
  pub equal_record_status-eq : (a b : DnsRecordStatus) → l.equal_record_status a b ≡ true → a ≡ b
