-- ===== src/Connector/Volumes/Again.antt =====
-- Repeated calls of `setZoneFileConifgMaps` of internal/controller/dnsconnector_construction.go
use mathlib.Core.List.{Permᴰ}
use mathlib.Core.Option
use mathlib.Core.Option.{or_else}
use coredns_manager_operator.Common.{
  ℕ, ◌≡◌, refl, ap, ◌∙◌, sym, Bool, true, Option, is_some, List, [], ◌∷◌, map, arith, All,
  All-append, All-map, Bool-cases, inl, inr, keep, keep-All, All-keep_self, exists,
}
use coredns_manager_operator.Common.Text.{Text, eqb}
use coredns_manager_operator.Common.Text.Equality.{eqb_refl}
use coredns_manager_operator.Common.Decimal.{decimal}
use coredns_manager_operator.Common.Sort.Laws.{All-perm}
use coredns_manager_operator.Common.Dict.{Dict, lookup, insert, insert-insert}
use coredns_manager_operator.Errors.{ok, Result-cases}
use coredns_manager_operator.Api.Meta.{ConfigMap}
use coredns_manager_operator.Api.DnsConnector.{
  DnsConnectorSpec, Volume, VolumeMount, Container, PodTemplateSpec, Workload,
}
use coredns_manager_operator.Connector.Volumes.{
  DesiredVolume, desired_volumes, is_kept, make_volume, make_mount, has_volume, has_mount,
  add_volumes, add_mounts, with_mounts, attach, request_annotation, set_zone_file_config_maps,
}
use coredns_manager_operator.Connector.Volumes.Laws.{
  volume_named, volume_named-add_volumes, has_volume-volume_named, has_mount-add_mounts,
}

add_volumes_present :
    (d : Dict DesiredVolume) (vs : List Volume)
    → All (λ e. has_volume e.0 vs ≡ true) d
    → add_volumes d vs ≡ vs
unfolding add_volumes
add_volumes_present [] vs h = refl
add_volumes_present ((k, x) ∷ d) vs (hk, h) = rw hk (add_volumes_present d vs h)

add_mounts_present :
    (mount_dir : Text) (d : Dict DesiredVolume) (ms : List VolumeMount)
    → All (λ e. has_mount (make_mount mount_dir e.0 e.1).mount_path ms ≡ true) d
    → add_mounts mount_dir d ms ≡ ms
unfolding add_mounts
add_mounts_present mount_dir [] ms h = refl
add_mounts_present mount_dir ((k, x) ∷ d) ms (hk, h) = rw hk (add_mounts_present mount_dir d ms h)

keys_found : (d : Dict DesiredVolume) → All (λ e. is_some (lookup e.0 d) ≡ true) d
unfolding lookup
keys_found [] = tt
keys_found ((k, x) ∷ d) = (
  rw eqb_refl,
  All-map (λ (e : Text × DesiredVolume). is_some (lookup e.0 d) ≡ true)
      (λ (e : Text × DesiredVolume). is_some (lookup e.0 ((k, x) ∷ d)) ≡ true) d
      (λ e h. ground arith) (keys_found d),
)

or_some :
    (name : Text) (o : Option Volume) (d : Option DesiredVolume)
    → is_some d ≡ true
    → is_some (or_else o (Option.map (make_volume name) d)) ≡ true
unfolding or_else
or_some name o d h = ground arith

has_volume-add_volumes :
    (d : Dict DesiredVolume) (vs : List Volume)
    → All (λ e. has_volume e.0 (add_volumes d vs) ≡ true) d
has_volume-add_volumes d vs =
    All-map (λ e. is_some (lookup e.0 d) ≡ true) (λ e. has_volume e.0 (add_volumes d vs) ≡ true) d
      (λ e h.
        has_volume-volume_named e.0 (add_volumes d vs)
        ∙ (ap is_some (volume_named-add_volumes e.0 d vs)
            ∙ or_some e.0 (volume_named e.0 vs) (lookup e.0 d) h))
      (keys_found d)

-- Some entry is mounted at the path.
abbrev mounts_at : Text → Dict DesiredVolume → Text → Bool
mounts_at mount_dir d path = exists (λ f. eqb (make_mount mount_dir f.0 f.1).mount_path path) d

abbrev path_of : Text → Text × DesiredVolume → Text
path_of mount_dir e = (make_mount mount_dir e.0 e.1).mount_path

mounted :
    (mount_dir : Text) (d : Dict DesiredVolume)
    → All (λ e. mounts_at mount_dir d (path_of mount_dir e) ≡ true) d
unfolding exists
mounted mount_dir [] = tt
mounted mount_dir ((k, x) ∷ d) = (
  rw eqb_refl,
  All-map (λ e. mounts_at mount_dir d (path_of mount_dir e) ≡ true)
      (λ e. mounts_at mount_dir ((k, x) ∷ d) (path_of mount_dir e) ≡ true) d (λ e h. ground arith)
      (mounted mount_dir d),
)

has_mount-add_mounts_self :
    (mount_dir : Text) (d : Dict DesiredVolume) (ms : List VolumeMount)
    → All (λ e. has_mount (path_of mount_dir e) (add_mounts mount_dir d ms) ≡ true) d
has_mount-add_mounts_self mount_dir d ms =
    All-map (λ e. mounts_at mount_dir d (path_of mount_dir e) ≡ true)
      (λ e. has_mount (path_of mount_dir e) (add_mounts mount_dir d ms) ≡ true) d
      (λ e h. has_mount-add_mounts mount_dir (path_of mount_dir e) d ms ∙ ground arith)
      (mounted mount_dir d)

-- What the loop adds is kept by the filter.
module _ (desired : Dict DesiredVolume) where
  add_volumes-kept :
      (d : Dict DesiredVolume) (vs : List Volume)
      → All (λ e. is_some (lookup e.0 desired) ≡ true) d
      → All (λ v. is_kept desired v.name ≡ true) vs
      → All (λ v. is_kept desired v.name ≡ true) (add_volumes d vs)
  unfolding add_volumes is_kept make_volume
  add_volumes-kept [] vs h k = k
  add_volumes-kept ((n, x) ∷ d) vs (hn, h) k = elim (Bool-cases (has_volume n vs)) [
    | inl there ↦ rw there (add_volumes-kept d vs h k)
    | inr new ↦ rw new (add_volumes-kept d _ h (All-append _ vs _ k (ground arith, tt)))
  ]

  add_mounts-kept :
      (mount_dir : Text) (d : Dict DesiredVolume) (ms : List VolumeMount)
      → All (λ e. is_some (lookup e.0 desired) ≡ true) d
      → All (λ m. is_kept desired m.name ≡ true) ms
      → All (λ m. is_kept desired m.name ≡ true) (add_mounts mount_dir d ms)
  unfolding add_mounts is_kept make_mount
  add_mounts-kept mount_dir [] ms h k = k
  add_mounts-kept mount_dir ((n, x) ∷ d) ms (hn, h) k =
      elim (Bool-cases (has_mount (make_mount mount_dir n x).mount_path ms)) [
        | inl there ↦ rw there (add_mounts-kept mount_dir d ms h k)
        | inr new ↦
            rw new (add_mounts-kept mount_dir d _ h (All-append _ ms _ k (ground arith, tt)))
      ]

map-with_mounts :
    (ms : List VolumeMount) (cs : List Container)
    → map (with_mounts ms) (map (with_mounts ms) cs) ≡ map (with_mounts ms) cs
unfolding with_mounts
map-with_mounts ms [] = refl
map-with_mounts ms (c ∷ cs) = ap (◌∷◌ (with_mounts ms c)) (map-with_mounts ms cs)

attach_twice :
    (range_order : Dict DesiredVolume → Dict DesiredVolume) (mount_dir : Text)
    (desired : Dict DesiredVolume) (t : PodTemplateSpec)
    → Permᴰ desired (range_order desired)
    → attach range_order mount_dir desired (attach range_order mount_dir desired t)
      ≡ attach range_order mount_dir desired t
unfolding attach with_mounts
attach_twice range_order mount_dir desired t p = λ i. record t {
  volumes = volumes_again i;
  first_container = record t.first_container { volume_mounts = mounts_again i };
  other_containers = others_again i;
}
  where
    d : Dict DesiredVolume
    d = range_order desired

    volumes : List Volume
    volumes = (attach range_order mount_dir desired t).volumes

    mounts : List VolumeMount
    mounts = (attach range_order mount_dir desired t).first_container.volume_mounts

    found : All (λ e. is_some (lookup e.0 desired) ≡ true) d
    found = All-perm _ p (keys_found desired)

    volumes_again : add_volumes d (keep (λ v. is_kept desired v.name) volumes) ≡ volumes
    volumes_again =
        ap (add_volumes d)
          (keep-All _ volumes (add_volumes-kept desired d _ found (All-keep_self _ t.volumes)))
        ∙ add_volumes_present d volumes (has_volume-add_volumes d _)

    mounts_again : add_mounts mount_dir d (keep (λ m. is_kept desired m.name) mounts) ≡ mounts
    mounts_again =
        ap (add_mounts mount_dir d) (
          keep-All _ mounts (
            add_mounts-kept desired mount_dir d _ found
              (All-keep_self _ t.first_container.volume_mounts)))
        ∙ add_mounts_present mount_dir d mounts (has_mount-add_mounts_self mount_dir d _)

    others_again :
        map
          (with_mounts (add_mounts mount_dir d (keep (λ m. is_kept desired m.name) mounts)))
          (map (with_mounts mounts) t.other_containers)
        ≡ map (with_mounts mounts) t.other_containers
    others_again =
        ap (λ ms. map (with_mounts ms) (map (with_mounts mounts) t.other_containers)) mounts_again
        ∙ map-with_mounts mounts t.other_containers

workload-injective : {a b : Workload} → ok a ≡ ok b → a ≡ b
workload-injective h = cc

-- A further call of `setZoneFileConifgMaps` with the same zone config maps on the workload that the
-- first call gave has the result that it would have had on the workload before the first call; the
-- order of each range over the map may be any, as long as it is the same in both calls.
pub set_zone_file_config_maps_twice :
    (range_order : Dict DesiredVolume → Dict DesiredVolume) (now now' : ℕ) (spec : DnsConnectorSpec)
    (w : Workload) (cms : List ConfigMap) {w' : Workload}
    → ((m : Dict DesiredVolume) → Permᴰ m (range_order m))
    → set_zone_file_config_maps range_order now spec w cms ≡ ok w'
    → set_zone_file_config_maps range_order now' spec w' cms
      ≡ set_zone_file_config_maps range_order now' spec w cms
unfolding set_zone_file_config_maps attach with_mounts
set_zone_file_config_maps_twice range_order now now' spec w cms {w'} p h =
    elim (Result-cases (desired_volumes cms [])) [
      | inl (desired, found) ↦
          let known : w' ≡ attached desired = workload-injective (sym (rw found at h)) in
          rw (known, found)
            (λ i. ok (record w {
              template =
                  record (attach_twice range_order mount_dir desired w.template (p desired) i) {
                    annotations =
                        insert-insert request_annotation (decimal now) (decimal now')
                          w.template.annotations i;
                  };
            }))
      | inr (fault, failed) ↦ rw failed
    ]
  where
    mount_dir : Text
    mount_dir = spec.coredns_deployment.zone_file_mount_dir

    attached : Dict DesiredVolume → Workload
    attached desired = record w {
      template = attach range_order mount_dir desired (record w.template {
        annotations = insert request_annotation (decimal now) w.template.annotations;
      });
    }
