-- ===== src/Copies/DeepCopyObject.antt =====
-- The `DeepCopyObject` methods of api/v1alpha1/zz_generated.deepcopy.go, behind the interface
-- `runtime.Object`.
use coredns_manager_operator.Common.{◌≡◌, refl, ap, Option, none, some, List, All, length}
use coredns_manager_operator.Copies.Memory.{
  Memory, Step, run_steps, WritesBelow, WritesFrom, DnsRecordLayout, DnsZoneLayout,
  DnsConnectorLayout, DnsListLayout,
}
use coredns_manager_operator.Copies.Memory.Extends.{
  Extends, Holds, Extends-refl, Holds-Extends, run_steps-Holds, run_steps-Extends,
}
use coredns_manager_operator.Copies.Seen.{
  SeenList, SeenRecord, SeenZone, SeenConnector, see_record, IsLiveRecord, see_zone, IsLiveZone,
  see_connector, IsLiveConnector, see_record_list, see_zone_list, see_connector_list,
  IsLiveRecordList, IsLiveZoneList, IsLiveConnectorList,
}
use coredns_manager_operator.Copies.DeepCopyInto.{MetaCopies, IsCopying}
use coredns_manager_operator.Copies.DeepCopyInto.Laws.{
  dns_record-IsDeepCopy, dns_zone-IsDeepCopy, dns_connector-IsDeepCopy, dns_record_list-IsDeepCopy,
  dns_zone_list-IsDeepCopy, dns_connector_list-IsDeepCopy,
}
use coredns_manager_operator.Copies.DeepCopy
use coredns_manager_operator.Copies.References.Laws.{IsDeepCopy}

-- `runtime.Object`: a pointer of one of the registered types, which may be nil
pub data RuntimeObject : Type 0 where
  record_object : Option DnsRecordLayout → RuntimeObject
  zone_object : Option DnsZoneLayout → RuntimeObject
  connector_object : Option DnsConnectorLayout → RuntimeObject
  record_list_object zone_list_object connector_list_object : Option DnsListLayout → RuntimeObject

-- What is seen of an object that is not nil.
pub data SeenObject : Type 0 where
  seen_record : SeenRecord → SeenObject
  seen_zone : SeenZone → SeenObject
  seen_connector : SeenConnector → SeenObject
  seen_records : SeenList SeenRecord → SeenObject
  seen_zones : SeenList SeenZone → SeenObject
  seen_connectors : SeenList SeenConnector → SeenObject

abbrev pub see_object : RuntimeObject → Memory → Option SeenObject
see_object (record_object none) h = none
see_object (record_object (some x)) h = some (seen_record (see_record x h))
see_object (zone_object none) h = none
see_object (zone_object (some x)) h = some (seen_zone (see_zone x h))
see_object (connector_object none) h = none
see_object (connector_object (some x)) h = some (seen_connector (see_connector x h))
see_object (record_list_object none) h = none
see_object (record_list_object (some x)) h = some (seen_records (see_record_list x h))
see_object (zone_list_object none) h = none
see_object (zone_list_object (some x)) h = some (seen_zones (see_zone_list x h))
see_object (connector_list_object none) h = none
see_object (connector_list_object (some x)) h = some (seen_connectors (see_connector_list x h))

-- What a method returned; `none` is the nil interface.
abbrev pub see_returned : Option RuntimeObject → Memory → Option SeenObject
see_returned none h = none
see_returned (some o) h = see_object o h

abbrev pub IsLiveObject : RuntimeObject → Memory → Type 0
IsLiveObject (record_object none) h = Unit
IsLiveObject (record_object (some x)) h = IsLiveRecord x h
IsLiveObject (zone_object none) h = Unit
IsLiveObject (zone_object (some x)) h = IsLiveZone x h
IsLiveObject (connector_object none) h = Unit
IsLiveObject (connector_object (some x)) h = IsLiveConnector x h
IsLiveObject (record_list_object none) h = Unit
IsLiveObject (record_list_object (some x)) h = IsLiveRecordList x h
IsLiveObject (zone_list_object none) h = Unit
IsLiveObject (zone_list_object (some x)) h = IsLiveZoneList x h
IsLiveObject (connector_list_object none) h = Unit
IsLiveObject (connector_list_object (some x)) h = IsLiveConnectorList x h

-- `if c := in.DeepCopy(); c != nil { return c }; return nil`
abbrev return_unless_nil :
    {A : Type 0} → (Option A → RuntimeObject) → Option A × Memory → Option RuntimeObject × Memory
return_unless_nil object (none, h) = (none, h)
return_unless_nil object (some x, h) = (some (object (some x)), h)

module _ (c : MetaCopies) where
  unfoldable dns_record : Option DnsRecordLayout → Memory → Option RuntimeObject × Memory
  unfolding DeepCopy.dns_record
  dns_record o h = return_unless_nil record_object (DeepCopy.dns_record c o h)

  unfoldable dns_zone : Option DnsZoneLayout → Memory → Option RuntimeObject × Memory
  unfolding DeepCopy.dns_zone
  dns_zone o h = return_unless_nil zone_object (DeepCopy.dns_zone c o h)

  unfoldable dns_connector : Option DnsConnectorLayout → Memory → Option RuntimeObject × Memory
  unfolding DeepCopy.dns_connector
  dns_connector o h = return_unless_nil connector_object (DeepCopy.dns_connector c o h)

  unfoldable dns_record_list : Option DnsListLayout → Memory → Option RuntimeObject × Memory
  unfolding DeepCopy.dns_record_list
  dns_record_list o h = return_unless_nil record_list_object (DeepCopy.dns_record_list c o h)

  unfoldable dns_zone_list : Option DnsListLayout → Memory → Option RuntimeObject × Memory
  unfolding DeepCopy.dns_zone_list
  dns_zone_list o h = return_unless_nil zone_list_object (DeepCopy.dns_zone_list c o h)

  unfoldable dns_connector_list : Option DnsListLayout → Memory → Option RuntimeObject × Memory
  unfolding DeepCopy.dns_connector_list
  dns_connector_list o h =
      return_unless_nil connector_list_object (DeepCopy.dns_connector_list c o h)

  -- The call of the method through the interface.
  unfoldable pub deep_copy_object : RuntimeObject → Memory → Option RuntimeObject × Memory
  unfolding dns_record dns_zone dns_connector dns_record_list dns_zone_list dns_connector_list
  deep_copy_object (record_object o) h = dns_record o h
  deep_copy_object (zone_object o) h = dns_zone o h
  deep_copy_object (connector_object o) h = dns_connector o h
  deep_copy_object (record_list_object o) h = dns_record_list o h
  deep_copy_object (zone_list_object o) h = dns_zone_list o h
  deep_copy_object (connector_list_object o) h = dns_connector_list o h

  module _ (copying : IsCopying c) where
    see-deep_copy_object :
        (o : RuntimeObject) (h k : Memory)
        → IsLiveObject o h
        → Holds h (deep_copy_object o h).1 k
        → see_returned (deep_copy_object o h).0 k ≡ see_object o h
    unfolding deep_copy_object
    see-deep_copy_object (record_object none) h k live holds = refl
    see-deep_copy_object (record_object (some x)) h k live holds =
        ap (λ v. some (seen_record v))
          ((IsDeepCopy.copied (dns_record-IsDeepCopy c copying)) x h k live holds)
    see-deep_copy_object (zone_object none) h k live holds = refl
    see-deep_copy_object (zone_object (some x)) h k live holds =
        ap (λ v. some (seen_zone v))
          ((IsDeepCopy.copied (dns_zone-IsDeepCopy c copying)) x h k live holds)
    see-deep_copy_object (connector_object none) h k live holds = refl
    see-deep_copy_object (connector_object (some x)) h k live holds =
        ap (λ v. some (seen_connector v))
          ((IsDeepCopy.copied (dns_connector-IsDeepCopy c copying)) x h k live holds)
    see-deep_copy_object (record_list_object none) h k live holds = refl
    see-deep_copy_object (record_list_object (some x)) h k live holds =
        ap (λ v. some (seen_records v))
          ((IsDeepCopy.copied (dns_record_list-IsDeepCopy c copying)) x h k live holds)
    see-deep_copy_object (zone_list_object none) h k live holds = refl
    see-deep_copy_object (zone_list_object (some x)) h k live holds =
        ap (λ v. some (seen_zones v))
          ((IsDeepCopy.copied (dns_zone_list-IsDeepCopy c copying)) x h k live holds)
    see-deep_copy_object (connector_list_object none) h k live holds = refl
    see-deep_copy_object (connector_list_object (some x)) h k live holds =
        ap (λ v. some (seen_connectors v))
          ((IsDeepCopy.copied (dns_connector_list-IsDeepCopy c copying)) x h k live holds)

    deep_copy_object-Extends : (o : RuntimeObject) (h : Memory) → Extends h (deep_copy_object o h).1
    unfolding deep_copy_object
    deep_copy_object-Extends (record_object none) h = Extends-refl h
    deep_copy_object-Extends (record_object (some x)) h =
        (IsDeepCopy.extends (dns_record-IsDeepCopy c copying)) x h
    deep_copy_object-Extends (zone_object none) h = Extends-refl h
    deep_copy_object-Extends (zone_object (some x)) h =
        (IsDeepCopy.extends (dns_zone-IsDeepCopy c copying)) x h
    deep_copy_object-Extends (connector_object none) h = Extends-refl h
    deep_copy_object-Extends (connector_object (some x)) h =
        (IsDeepCopy.extends (dns_connector-IsDeepCopy c copying)) x h
    deep_copy_object-Extends (record_list_object none) h = Extends-refl h
    deep_copy_object-Extends (record_list_object (some x)) h =
        (IsDeepCopy.extends (dns_record_list-IsDeepCopy c copying)) x h
    deep_copy_object-Extends (zone_list_object none) h = Extends-refl h
    deep_copy_object-Extends (zone_list_object (some x)) h =
        (IsDeepCopy.extends (dns_zone_list-IsDeepCopy c copying)) x h
    deep_copy_object-Extends (connector_list_object none) h = Extends-refl h
    deep_copy_object-Extends (connector_list_object (some x)) h =
        (IsDeepCopy.extends (dns_connector_list-IsDeepCopy c copying)) x h

    see_object-Extends :
        (o : RuntimeObject) (h k : Memory)
        → IsLiveObject o h
        → Extends h k
        → see_object o k ≡ see_object o h
    see_object-Extends (record_object none) h k live e = refl
    see_object-Extends (record_object (some x)) h k live e =
        ap (λ v. some (seen_record v))
          ((IsDeepCopy.kept (dns_record-IsDeepCopy c copying)) x h k live e)
    see_object-Extends (zone_object none) h k live e = refl
    see_object-Extends (zone_object (some x)) h k live e =
        ap (λ v. some (seen_zone v))
          ((IsDeepCopy.kept (dns_zone-IsDeepCopy c copying)) x h k live e)
    see_object-Extends (connector_object none) h k live e = refl
    see_object-Extends (connector_object (some x)) h k live e =
        ap (λ v. some (seen_connector v))
          ((IsDeepCopy.kept (dns_connector-IsDeepCopy c copying)) x h k live e)
    see_object-Extends (record_list_object none) h k live e = refl
    see_object-Extends (record_list_object (some x)) h k live e =
        ap (λ v. some (seen_records v))
          ((IsDeepCopy.kept (dns_record_list-IsDeepCopy c copying)) x h k live e)
    see_object-Extends (zone_list_object none) h k live e = refl
    see_object-Extends (zone_list_object (some x)) h k live e =
        ap (λ v. some (seen_zones v))
          ((IsDeepCopy.kept (dns_zone_list-IsDeepCopy c copying)) x h k live e)
    see_object-Extends (connector_list_object none) h k live e = refl
    see_object-Extends (connector_list_object (some x)) h k live e =
        ap (λ v. some (seen_connectors v))
          ((IsDeepCopy.kept (dns_connector_list-IsDeepCopy c copying)) x h k live e)

    -- Writes through an object are not seen through its deep copy, nor the other way round, in the
    -- metadata, the spec or the status. Let the process go on, and write to no cell but the ones that
    -- were there before the copy, as the writes through the original do: the copy looks as the
    -- original did when it was copied. Let it write to none of those, as the writes through the copy
    -- do: the original looks as it did. It may allocate cells at any time. This is so for records,
    -- zones, connectors and lists of them, with nil pointers and slices as with others, of which the
    -- copies are nil too. The metadata is copied deeply by its own methods.
    pub deep_copy_object-separate :
        (o : RuntimeObject) (h : Memory) (steps steps' : List Step)
        → IsLiveObject o h
        → All (WritesBelow (length h)) steps
        → All (WritesFrom (length h)) steps'
        → (see_returned (deep_copy_object o h).0 (run_steps steps (deep_copy_object o h).1)
            ≡ see_object o h)
          × (see_object o (run_steps steps' (deep_copy_object o h).1) ≡ see_object o h)
    deep_copy_object-separate o h steps steps' live old new =
        let h' = (deep_copy_object o h).1 in
        (
          see-deep_copy_object o h _ live
              (run_steps-Holds h h' h' steps old (Holds-Extends h h' h' (Extends-refl h'))),
          see_object-Extends o h _ live
              (run_steps-Extends h h' steps' new (deep_copy_object-Extends o h)),
        )
