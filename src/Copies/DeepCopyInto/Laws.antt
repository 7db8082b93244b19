-- ===== src/Copies/DeepCopyInto/Laws.antt =====
-- The `DeepCopyInto` methods as deep copies, in the sense of References/Laws.
use coredns_manager_operator.Common.{refl, List}
use coredns_manager_operator.Copies.Memory.{
  CellType, Address, Slice, Memory, DnsRecordSpecLayout, DnsRecordStatusLayout, DnsZoneSpecLayout,
  DnsZoneStatusLayout, DnsConnectorSpecLayout, DnsConnectorStatusLayout, ObjectLayout,
  ObjectMetaLayout, DnsListLayout,
}
use coredns_manager_operator.Copies.Memory.Types.{
  record_cells, reference_cells, primary_ns_cells, condition_cells, text_cells, provisioned_cells,
  dns_record_cells, dns_zone_cells, dns_connector_cells,
}
use coredns_manager_operator.Copies.References.{
  copy_slice, copy_plain, see_plain, see_slice, IsLiveSlice, IsLivePlain, IsLivePointer,
}
use coredns_manager_operator.Copies.References.Laws.{
  IsDeepCopy, IsCellType, copy_plain-IsDeepCopy, copy_pointer-IsDeepCopy,
}
use coredns_manager_operator.Copies.References.Slices.{copy_slice-IsDeepCopy}
use coredns_manager_operator.Copies.References.Structs.{
  copy_value-IsDeepCopy, copy_both-IsDeepCopy, struct-IsDeepCopy,
}
use coredns_manager_operator.Copies.Seen.{
  SeenMeta, SeenList, see_meta, IsLiveMeta, see_list_meta, IsLiveListMeta, see_record_spec,
  IsLiveRecordSpec, see_conditions, IsLiveConditions, see_record_status, see_zone_spec,
  see_zone_status, see_connector_spec, see_connector_status, see_record, IsLiveRecord, see_zone,
  IsLiveZone, see_connector, IsLiveConnector, see_record_list, see_zone_list, see_connector_list,
  IsLiveRecordList, IsLiveZoneList, IsLiveConnectorList,
}
use coredns_manager_operator.Copies.DeepCopyInto
use coredns_manager_operator.Copies.DeepCopyInto.{MetaCopies, IsCopying}

dns_record_spec-IsDeepCopy :
    IsDeepCopy see_record_spec IsLiveRecordSpec DeepCopyInto.dns_record_spec
unfolding DeepCopyInto.dns_record_spec
dns_record_spec-IsDeepCopy =
    struct-IsDeepCopy
      (copy_both-IsDeepCopy (copy_pointer-IsDeepCopy record_cells (λ x. refl))
        (copy_pointer-IsDeepCopy reference_cells (λ x. refl)))
      (λ (s : DnsRecordSpecLayout Address Address). (s.entry, s.dns_zone_ref))
      (λ p s. record s { entry = p.0; dns_zone_ref = p.1 })
      (λ v s. record { entry = v.0; dns_zone_ref = v.1 }) (λ p s. refl) (λ v p s. refl)

dns_zone_spec-IsDeepCopy :
    IsDeepCopy see_zone_spec
      (λ s h. IsLivePointer primary_ns_cells s.primary_ns h)
      DeepCopyInto.dns_zone_spec
unfolding DeepCopyInto.dns_zone_spec
dns_zone_spec-IsDeepCopy =
    struct-IsDeepCopy (copy_pointer-IsDeepCopy primary_ns_cells (λ x. refl))
      (λ (s : DnsZoneSpecLayout Address). s.primary_ns) (λ p s. record s { primary_ns = p })
      (λ v s. record {
        cm_prefix = s.cm_prefix;
        domain = s.domain;
        primary_ns = v;
        resp_person_email = s.resp_person_email;
        ttl = s.ttl;
        refresh_rate = s.refresh_rate;
        retry_interval = s.retry_interval;
        expire_time = s.expire_time;
        minimum_ttl = s.minimum_ttl;
        connector_name = s.connector_name;
      })
      (λ p s. refl) (λ v p s. refl)

dns_connector_spec-IsDeepCopy :
    IsDeepCopy see_connector_spec
      (λ s h. IsLiveSlice text_cells IsLivePlain s.coredns_zone_enabled_plugins h)
      DeepCopyInto.dns_connector_spec
unfolding DeepCopyInto.dns_connector_spec
dns_connector_spec-IsDeepCopy =
    struct-IsDeepCopy
      (copy_slice-IsDeepCopy see_plain IsLivePlain copy_plain copy_plain-IsDeepCopy text_cells
        (λ x. refl))
      (λ (s : DnsConnectorSpecLayout Slice). s.coredns_zone_enabled_plugins)
      (λ p s. record s { coredns_zone_enabled_plugins = p })
      (λ v s. record {
        wait_for_update_timeout = s.wait_for_update_timeout;
        coredns_cm = s.coredns_cm;
        coredns_deployment = s.coredns_deployment;
        coredns_zone_enabled_plugins = v;
      })
      (λ p s. refl) (λ v p s. refl)

module _ (c : MetaCopies) (copying : IsCopying c) where
  conditions-IsDeepCopy : IsDeepCopy see_conditions IsLiveConditions (DeepCopyInto.conditions c)
  unfolding DeepCopyInto.conditions
  conditions-IsDeepCopy =
      copy_slice-IsDeepCopy see_plain IsLivePlain _
        (copy_value-IsDeepCopy c.copy_condition copying.condition_same) condition_cells (λ x. refl)

  dns_record_status-IsDeepCopy :
      IsDeepCopy see_record_status
        (λ s h. IsLiveConditions s.conditions h)
        (DeepCopyInto.dns_record_status c)
  unfolding DeepCopyInto.dns_record_status
  dns_record_status-IsDeepCopy =
      struct-IsDeepCopy conditions-IsDeepCopy (λ (s : DnsRecordStatusLayout Slice). s.conditions)
        (λ p s. record s { conditions = p })
        (λ v s. record {
          conditions = v;
          validation_passed = s.validation_passed;
          generated_record = s.generated_record;
        })
        (λ p s. refl) (λ v p s. refl)

  dns_zone_status-IsDeepCopy :
      IsDeepCopy see_zone_status
        (λ s h. IsLiveConditions s.conditions h)
        (DeepCopyInto.dns_zone_status c)
  unfolding DeepCopyInto.dns_zone_status
  dns_zone_status-IsDeepCopy =
      struct-IsDeepCopy conditions-IsDeepCopy (λ (s : DnsZoneStatusLayout Slice). s.conditions)
        (λ p s. record s { conditions = p })
        (λ v s. record {
          conditions = v;
          current_zone_serial = s.current_zone_serial;
          record_count = s.record_count;
          validation_passed = s.validation_passed;
          zone_configmap = s.zone_configmap;
          checkpoint = s.checkpoint;
        })
        (λ p s. refl) (λ v p s. refl)

  dns_connector_status-IsDeepCopy :
      IsDeepCopy see_connector_status
        (λ s h.
          IsLiveConditions s.conditions h
          × IsLiveSlice provisioned_cells IsLivePlain s.provisioned_dns_zones h)
        (DeepCopyInto.dns_connector_status c)
  unfolding DeepCopyInto.dns_connector_status
  dns_connector_status-IsDeepCopy =
      struct-IsDeepCopy
        (copy_both-IsDeepCopy conditions-IsDeepCopy (
          copy_slice-IsDeepCopy see_plain IsLivePlain copy_plain copy_plain-IsDeepCopy
            provisioned_cells (λ x. refl)))
        (λ (s : DnsConnectorStatusLayout Slice Slice). (s.conditions, s.provisioned_dns_zones))
        (λ p s. record s { conditions = p.0; provisioned_dns_zones = p.1 })
        (λ v s. record { conditions = v.0; provisioned_dns_zones = v.1 }) (λ p s. refl)
        (λ v p s. refl)

  -- An object of its metadata, a spec and a status.
  object-IsDeepCopy :
      {S T V W : Type 0} {see_spec : S → Memory → V} {IsLiveSpec : S → Memory → Type 0}
      {copy_spec : S → Memory → S × Memory} {see_status : T → Memory → W}
      {IsLiveStatus : T → Memory → Type 0} {copy_status : T → Memory → T × Memory}
      → IsDeepCopy see_spec IsLiveSpec copy_spec
      → IsDeepCopy see_status IsLiveStatus copy_status
      → IsDeepCopy
          (λ (o : ObjectLayout ObjectMetaLayout S T) h.
            (let x : ObjectLayout SeenMeta V W = record {
              type_meta = o.type_meta;
              meta = see_meta o.meta h;
              spec = see_spec o.spec h;
              status = see_status o.status h;
            } in
              x))
          (λ o h. IsLiveMeta o.meta h × (IsLiveSpec o.spec h × IsLiveStatus o.status h))
          (λ o h.
            let (meta, h₁) = c.copy_meta o.meta h in
            let (spec, h₂) = copy_spec o.spec h₁ in
            let (status, h₃) = copy_status o.status h₂ in
            (record { type_meta = o.type_meta; meta = meta; spec = spec; status = status }, h₃))
  object-IsDeepCopy {S} {T} {V} {W} deep_spec deep_status =
      struct-IsDeepCopy
        (copy_both-IsDeepCopy copying.meta_deep (copy_both-IsDeepCopy deep_spec deep_status))
        (λ (o : ObjectLayout ObjectMetaLayout S T). (o.meta, (o.spec, o.status)))
        (λ p o. record { type_meta = o.type_meta; meta = p.0; spec = p.1.0; status = p.1.1 })
        (λ v o.
          let x : ObjectLayout SeenMeta V W = record {
            type_meta = o.type_meta;
            meta = v.0;
            spec = v.1.0;
            status = v.1.1;
          } in
          x)
        (λ p o. refl) (λ v p o. refl)

  pub dns_record-IsDeepCopy : IsDeepCopy see_record IsLiveRecord (DeepCopyInto.dns_record c)
  unfolding DeepCopyInto.dns_record
  dns_record-IsDeepCopy = object-IsDeepCopy dns_record_spec-IsDeepCopy dns_record_status-IsDeepCopy

  pub dns_zone-IsDeepCopy : IsDeepCopy see_zone IsLiveZone (DeepCopyInto.dns_zone c)
  unfolding DeepCopyInto.dns_zone
  dns_zone-IsDeepCopy = object-IsDeepCopy dns_zone_spec-IsDeepCopy dns_zone_status-IsDeepCopy

  pub dns_connector-IsDeepCopy :
      IsDeepCopy see_connector IsLiveConnector (DeepCopyInto.dns_connector c)
  unfolding DeepCopyInto.dns_connector
  dns_connector-IsDeepCopy =
      object-IsDeepCopy dns_connector_spec-IsDeepCopy dns_connector_status-IsDeepCopy

  -- A list of objects.
  list-IsDeepCopy :
      {I V : Type 0} {see : I → Memory → V} {IsLive : I → Memory → Type 0}
      {copy : I → Memory → I × Memory} (t : CellType (List I))
      → IsCellType t
      → IsDeepCopy see IsLive copy
      → IsDeepCopy
          (λ (o : DnsListLayout) h.
            (let x : SeenList V = record {
              type_meta = o.type_meta;
              meta = see_list_meta o.meta h;
              items = see_slice t see o.items h;
            } in
              x))
          (λ o h. IsLiveListMeta o.meta h × IsLiveSlice t IsLive o.items h)
          (λ o h.
            let (meta, h₁) = c.copy_list_meta o.meta h in
            let (items, h₂) = copy_slice t copy o.items h₁ in
            (record { type_meta = o.type_meta; meta = meta; items = items }, h₂))
  list-IsDeepCopy {V = V} t stores deep =
      struct-IsDeepCopy
        (copy_both-IsDeepCopy copying.list_meta_deep (copy_slice-IsDeepCopy _ _ _ deep t stores))
        (λ (o : DnsListLayout). (o.meta, o.items))
        (λ p o. record { type_meta = o.type_meta; meta = p.0; items = p.1 })
        (λ v o.
          let x : SeenList V = record { type_meta = o.type_meta; meta = v.0; items = v.1 } in x)
        (λ p o. refl) (λ v p o. refl)

  pub dns_record_list-IsDeepCopy :
      IsDeepCopy see_record_list IsLiveRecordList (DeepCopyInto.dns_record_list c)
  unfolding DeepCopyInto.dns_record_list
  dns_record_list-IsDeepCopy = list-IsDeepCopy dns_record_cells (λ x. refl) dns_record-IsDeepCopy

  pub dns_zone_list-IsDeepCopy :
      IsDeepCopy see_zone_list IsLiveZoneList (DeepCopyInto.dns_zone_list c)
  unfolding DeepCopyInto.dns_zone_list
  dns_zone_list-IsDeepCopy = list-IsDeepCopy dns_zone_cells (λ x. refl) dns_zone-IsDeepCopy

  pub dns_connector_list-IsDeepCopy :
      IsDeepCopy see_connector_list IsLiveConnectorList (DeepCopyInto.dns_connector_list c)
  unfolding DeepCopyInto.dns_connector_list
  dns_connector_list-IsDeepCopy =
      list-IsDeepCopy dns_connector_cells (λ x. refl) dns_connector-IsDeepCopy
