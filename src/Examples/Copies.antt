-- ===== src/Examples/Copies.antt =====
-- A zone in memory whose labels and conditions are overwritten behind a deep copy.
use coredns_manager_operator.Common.{◌≡◌, refl, true, none, some, List, [], ◌∷◌, arith}
use coredns_manager_operator.Common.Text.{text}
use coredns_manager_operator.Api.Meta.{Condition, condition_true, condition_false}
use coredns_manager_operator.Copies.Memory.{
  Address, Memory, ObjectMetaLayout, ListMetaLayout, DnsZoneLayout, Step, writes, run_steps, load,
  a_map, some_conditions, some_texts, a_primary_ns,
}
use coredns_manager_operator.Copies.Memory.Types.{number_cells, map_cells, owner_cells, text_cells}
use coredns_manager_operator.Copies.References.{
  copy_pointer, copy_slice, copy_plain, items, see_plain, IsLivePlain,
}
use coredns_manager_operator.Copies.References.Laws.{
  IsDeepCopy, copy_plain-IsDeepCopy, copy_pointer-IsDeepCopy,
}
use coredns_manager_operator.Copies.References.Slices.{copy_slice-IsDeepCopy}
use coredns_manager_operator.Copies.References.Structs.{copy_both-IsDeepCopy, struct-IsDeepCopy}
use coredns_manager_operator.Copies.Seen.{see_meta, IsLiveMeta, see_list_meta, IsLiveListMeta}
use coredns_manager_operator.Copies.DeepCopyInto.{MetaCopies, IsCopying}
use coredns_manager_operator.Copies.DeepCopyObject.{
  RuntimeObject, IsLiveObject, zone_object, see_object, see_returned, deep_copy_object,
  deep_copy_object-separate,
}

-- The metadata, each of its references copied to a new cell
abbrev copy_meta : ObjectMetaLayout → Memory → ObjectMetaLayout × Memory
copy_meta m h =
    let (time, h₁) = copy_pointer number_cells m.deletion_timestamp h in
    let (labels, h₂) = copy_pointer map_cells m.labels h₁ in
    let (annotations, h₃) = copy_pointer map_cells m.annotations h₂ in
    let (owners, h₄) = copy_slice owner_cells copy_plain m.owner_references h₃ in
    let (finalizers, h₅) = copy_slice text_cells copy_plain m.finalizers h₄ in
    (
      record m {
        deletion_timestamp = time;
        labels = labels;
        annotations = annotations;
        owner_references = owners;
        finalizers = finalizers;
      },
      h₅,
    )

copy_meta-IsDeepCopy : IsDeepCopy see_meta IsLiveMeta copy_meta
copy_meta-IsDeepCopy =
    struct-IsDeepCopy
      (copy_both-IsDeepCopy (copy_pointer-IsDeepCopy number_cells (λ x. refl)) (
        copy_both-IsDeepCopy (copy_pointer-IsDeepCopy map_cells (λ x. refl)) (
          copy_both-IsDeepCopy (copy_pointer-IsDeepCopy map_cells (λ x. refl)) (
            copy_both-IsDeepCopy
              (copy_slice-IsDeepCopy see_plain IsLivePlain copy_plain copy_plain-IsDeepCopy
                owner_cells (λ x. refl))
              (copy_slice-IsDeepCopy see_plain IsLivePlain copy_plain copy_plain-IsDeepCopy
                text_cells (λ x. refl))))))
      (λ (m : ObjectMetaLayout).
        (m.deletion_timestamp, (m.labels, (m.annotations, (m.owner_references, m.finalizers)))))
      (λ p m. record m {
        deletion_timestamp = p.0;
        labels = p.1.0;
        annotations = p.1.1.0;
        owner_references = p.1.1.1.0;
        finalizers = p.1.1.1.1;
      })
      (λ v m. record {
        name = m.name;
        namespace = m.namespace;
        uid = m.uid;
        resource_version = m.resource_version;
        generation = m.generation;
        deletion_timestamp = v.0;
        labels = v.1.0;
        annotations = v.1.1.0;
        owner_references = v.1.1.1.0;
        finalizers = v.1.1.1.1;
      })
      (λ p m. refl) (λ v p m. refl)

abbrev copy_list_meta : ListMetaLayout Address → Memory → ListMetaLayout Address × Memory
copy_list_meta m h =
    let (count, h₁) = copy_pointer number_cells m.remaining_item_count h in
    (record m { remaining_item_count = count }, h₁)

copy_list_meta-IsDeepCopy : IsDeepCopy see_list_meta IsLiveListMeta copy_list_meta
copy_list_meta-IsDeepCopy =
    struct-IsDeepCopy (copy_pointer-IsDeepCopy number_cells (λ x. refl))
      (λ (m : ListMetaLayout Address). m.remaining_item_count)
      (λ p m. record m { remaining_item_count = p })
      (λ v m. record {
        resource_version = m.resource_version;
        continue_token = m.continue_token;
        remaining_item_count = v;
      })
      (λ p m. refl) (λ v p m. refl)

abbrev copies : MetaCopies
copies = record { copy_meta = copy_meta; copy_list_meta = copy_list_meta; copy_condition = λ d. d }

copies-IsCopying : IsCopying copies
copies-IsCopying = record {
  meta_deep = copy_meta-IsDeepCopy;
  list_meta_deep = copy_list_meta-IsDeepCopy;
  condition_same = λ d. refl;
}

abbrev pending : Condition
pending = record {
  type_name = text "Ready";
  status = condition_false;
  observed_generation = 1;
  last_transition_time = 5;
  reason = text "Pending";
  message = [];
}

abbrev active : Condition
active = record pending { status = condition_true; reason = text "Active" }

abbrev stored : Memory
stored =
    a_primary_ns
      (record { hostname = text "ns1"; ip_address = text "10.0.0.1"; record_type = text "A" })
    ∷ some_conditions (pending ∷ [])
    ∷ a_map ((text "team", text "dns") ∷ [])
    ∷ some_texts (text "monkale.io/finalizer" ∷ [])
    ∷ []

abbrev zone : DnsZoneLayout
zone = record {
  type_meta = record { api_version = text "monkale.monkale.io/v1alpha1"; kind = text "DNSZone" };
  meta = record {
    name = text "zone-a";
    namespace = text "dns";
    uid = [];
    resource_version = text "7";
    generation = 1;
    deletion_timestamp = none;
    labels = some 2;
    annotations = none;
    owner_references = none;
    finalizers = some (record { array = 3; count = 1 });
  };
  spec = record {
    cm_prefix = [];
    domain = text "a.org";
    primary_ns = some 0;
    resp_person_email = text "admin@a.org";
    ttl = 60;
    refresh_rate = 60;
    retry_interval = 60;
    expire_time = 60;
    minimum_ttl = 60;
    connector_name = text "coredns";
  };
  status = record {
    conditions = some (record { array = 1; count = 1 });
    current_zone_serial = [];
    record_count = 0;
    validation_passed = true;
    zone_configmap = [];
    checkpoint = true;
  };
}

abbrev object : RuntimeObject
object = zone_object (some zone)

-- The labels and the condition are set through the zone, and the same through its copy, whose
-- labels are at 4, its finalizers at 5, its name server at 6 and its conditions at 7.
abbrev set_through_zone : List Step
set_through_zone = writes 2 (a_map []) ∷ writes 1 (some_conditions (active ∷ [])) ∷ []

abbrev set_through_copy : List Step
set_through_copy = writes 4 (a_map []) ∷ writes 7 (some_conditions (active ∷ [])) ∷ []

is_live : IsLiveObject object stored
unfolding load items
is_live = ((tt, ((_, refl), (tt, (tt, (_, refl, (tt, tt)))))), ((_, refl), (_, refl, (tt, tt))))

deep_copy_object-separate_example :
    (see_returned
        (deep_copy_object copies object stored).0
        (run_steps set_through_zone (deep_copy_object copies object stored).1)
      ≡ see_object object stored)
    × (see_object object (run_steps set_through_copy (deep_copy_object copies object stored).1)
        ≡ see_object object stored)
deep_copy_object-separate_example =
    deep_copy_object-separate copies copies-IsCopying object stored set_through_zone
      set_through_copy is_live (omega arith, (omega arith, tt)) (omega arith, (omega arith, tt))
