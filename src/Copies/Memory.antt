-- ===== src/Copies/Memory.antt =====
-- A memory of the process that holds what pointers point at and the arrays behind slices, and the
-- API objects as Go lays them out: structs of api/v1alpha1/*_types.go with references in them.
pub mod Extends
pub mod Types
use coredns_manager_operator.Common.{
  ℕ, zero, suc, ◌<◌, ◌≤◌, Bool, Option, none, some, List, [], ◌∷◌, ◌++◌, length,
}
use coredns_manager_operator.Common.Text.{Text}
use coredns_manager_operator.Common.Dict.{Dict}
use coredns_manager_operator.Api.Meta.{OwnerReference, Condition}
use coredns_manager_operator.Api.DnsRecord.{RecordData}
use coredns_manager_operator.Api.DnsZone.{PrimaryNs}
use coredns_manager_operator.Api.DnsConnector.{
  CorednsConfigMap, CorednsDeploymentType, ProvisionedDnsZone,
}

abbrev pub Address : Type 0
Address = ℕ

-- A slice that is not nil: its array and its length. The code takes no slice from the middle of
-- an array.
pub record Slice : Type 0 where
  pub array : Address
  pub count : ℕ

-- corev1.ObjectReference
pub record ObjectReference : Type 0 where
  pub kind : Text
  pub namespace : Text
  pub name : Text
  pub uid : Text
  pub api_version : Text
  pub resource_version : Text
  pub field_path : Text

-- metav1.TypeMeta
pub record TypeMeta : Type 0 where
  pub api_version : Text
  pub kind : Text

-- metav1.ObjectMeta, over what stands for its references, as the structs below are: the time of
-- the deletion, the maps of the labels and of the annotations, the owners and the finalizers
pub record MetaLayout (T M O F : Type 0) : Type 0 where
  pub name : Text
  pub namespace : Text
  pub uid : Text
  pub resource_version : Text
  pub generation : ℕ
  pub deletion_timestamp : Option T
  pub labels : Option M
  pub annotations : Option M
  pub owner_references : Option O
  pub finalizers : Option F

-- metav1.ListMeta, with the pointer to the number of the items that remain
pub record ListMetaLayout (N : Type 0) : Type 0 where
  pub resource_version : Text
  pub continue_token : Text
  pub remaining_item_count : Option N

-- The structs, over what stands for their references: addresses and slices in memory, and what is
-- found there where they are read. An option is `none` for nil.

-- `DNSRecordSpec`
pub record DnsRecordSpecLayout (R Z : Type 0) : Type 0 where
  pub entry : Option R
  pub dns_zone_ref : Option Z

-- `DNSRecordStatus`
pub record DnsRecordStatusLayout (C : Type 0) : Type 0 where
  pub conditions : Option C
  pub validation_passed : Bool
  pub generated_record : Text

-- `DNSZoneSpec`
pub record DnsZoneSpecLayout (N : Type 0) : Type 0 where
  pub cm_prefix : Text
  pub domain : Text
  pub primary_ns : Option N
  pub resp_person_email : Text
  pub ttl : ℕ
  pub refresh_rate : ℕ
  pub retry_interval : ℕ
  pub expire_time : ℕ
  pub minimum_ttl : ℕ
  pub connector_name : Text

-- `DNSZoneStatus`
pub record DnsZoneStatusLayout (C : Type 0) : Type 0 where
  pub conditions : Option C
  pub current_zone_serial : Text
  pub record_count : ℕ
  pub validation_passed : Bool
  pub zone_configmap : Text
  pub checkpoint : Bool

-- `DNSConnectorSpec`
pub record DnsConnectorSpecLayout (T : Type 0) : Type 0 where
  pub wait_for_update_timeout : ℕ
  pub coredns_cm : CorednsConfigMap
  pub coredns_deployment : CorednsDeploymentType
  pub coredns_zone_enabled_plugins : Option T

-- `DNSConnectorStatus`
pub record DnsConnectorStatusLayout (C P : Type 0) : Type 0 where
  pub conditions : Option C
  pub provisioned_dns_zones : Option P

-- `DNSRecord`, `DNSZone` and `DNSConnector`, by their metadata, specs and statuses
pub record ObjectLayout (M S T : Type 0) : Type 0 where
  pub type_meta : TypeMeta
  pub meta : M
  pub spec : S
  pub status : T

-- `DNSRecordList`, `DNSZoneList` and `DNSConnectorList`
pub record ListLayout (M I : Type 0) : Type 0 where
  pub type_meta : TypeMeta
  pub meta : M
  pub items : Option I

-- The metadata, with a pointer for the time, one for each map, and slices
abbrev pub ObjectMetaLayout : Type 0
ObjectMetaLayout = MetaLayout Address Address Slice Slice

abbrev pub DnsListLayout : Type 0
DnsListLayout = ListLayout (ListMetaLayout Address) Slice

abbrev pub DnsRecordLayout : Type 0
DnsRecordLayout =
    ObjectLayout ObjectMetaLayout (DnsRecordSpecLayout Address Address)
      (DnsRecordStatusLayout Slice)

abbrev pub DnsZoneLayout : Type 0
DnsZoneLayout =
    ObjectLayout ObjectMetaLayout (DnsZoneSpecLayout Address) (DnsZoneStatusLayout Slice)

abbrev pub DnsConnectorLayout : Type 0
DnsConnectorLayout =
    ObjectLayout ObjectMetaLayout (DnsConnectorSpecLayout Slice)
      (DnsConnectorStatusLayout Slice Slice)

-- What an address holds.
pub data Cell : Type 0 where
  a_number : ℕ → Cell
  a_map : Dict Text → Cell
  some_owners : List OwnerReference → Cell
  a_record : RecordData → Cell
  a_reference : ObjectReference → Cell
  a_primary_ns : PrimaryNs → Cell
  some_conditions : List Condition → Cell
  some_texts : List Text → Cell
  some_provisioned : List ProvisionedDnsZone → Cell
  some_records : List DnsRecordLayout → Cell
  some_zones : List DnsZoneLayout → Cell
  some_connectors : List DnsConnectorLayout → Cell

abbrev pub Memory : Type 0
Memory = List Cell

abbrev pub get_elem? {ℓ} : {A : Type ℓ} → List A → ℕ → Option A
get_elem? [] i = none
get_elem? (x ∷ xs) zero = some x
get_elem? (x ∷ xs) (suc i) = get_elem? xs i

abbrev pub take {ℓ} : {A : Type ℓ} → ℕ → List A → List A
take zero xs = []
take (suc n) [] = []
take (suc n) (x ∷ xs) = x ∷ take n xs

-- `new(T)` or `make([]T, n)`, filled: the address is a fresh one
unfoldable pub allocate : Cell → Memory → Address × Memory
allocate cell h = (length h, h ++ cell ∷ [])

-- `*p = x`, or a write to an element of an array
unfoldable pub write : Address → Cell → Memory → Memory
write a cell [] = []
write zero cell (c ∷ h) = cell ∷ h
write (suc a) cell (c ∷ h) = c ∷ write a cell h

-- A type of cells: how its values are stored and read.
pub record CellType (A : Type 0) : Type 0 where
  pub to_cell : A → Cell
  pub of_cell : Cell → Option A

-- A pointer or an array that is read. It is `none` where the memory holds nothing of the type.
abbrev pub load_found : {A : Type 0} → CellType A → Option Cell → Option A
load_found t none = none
load_found t (some c) = t.of_cell c

unfoldable pub load : {A : Type 0} → CellType A → Address → Memory → Option A
load t a h = load_found t (get_elem? h a)

-- What the process does with its memory.
pub data Step : Type 0 where
  writes : Address → Cell → Step
  allocates : Cell → Step

unfoldable pub run_step : Step → Memory → Memory
run_step (writes a cell) h = write a cell h
run_step (allocates cell) h = (allocate cell h).1

unfoldable pub run_steps : List Step → Memory → Memory
run_steps [] h = h
run_steps (step ∷ steps) h = run_steps steps (run_step step h)

-- A step that writes to no cell from an address on, and one that writes to none before it.
abbrev pub WritesBelow : ℕ → Step → Type 0
WritesBelow n (writes a cell) = a < n
WritesBelow n (allocates cell) = Unit

abbrev pub WritesFrom : ℕ → Step → Type 0
WritesFrom n (writes a cell) = n ≤ a
WritesFrom n (allocates cell) = Unit
