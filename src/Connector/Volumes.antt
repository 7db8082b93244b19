-- ===== src/Connector/Volumes.antt =====
-- `getDesiredVolumes` and `setZoneFileConifgMaps` of internal/controller/dnsconnector_construction.go
pub mod Laws
pub mod Again
pub mod Served
use coredns_manager_operator.Common.{
  ℕ, Bool, true, false, not, Option, none, some, is_some, List, [], ◌∷◌, ◌++◌, map, keep, exists,
  if◌then◌else◌,
}
use coredns_manager_operator.Common.Text.{Text, text, eqb, has_prefix, trim_suffix, replace_all}
use coredns_manager_operator.Common.Decimal.{decimal}
use coredns_manager_operator.Common.Dict.{Dict, lookup, insert}
use coredns_manager_operator.Errors.{Result, ok, err, new_error, ◌>>=◌}
use coredns_manager_operator.Api.Meta.{ConfigMap}
use coredns_manager_operator.Api.DnsConnector.{
  DnsConnectorSpec, Volume, VolumeMount, config_map, Container, PodTemplateSpec, Workload,
}
use coredns_manager_operator.Connector.Corefile.{domain_annotation}

unfoldable pub zone_volume_prefix : Text
zone_volume_prefix = text "dnszone-"

-- The volume's name for a domain.
unfoldable pub volume_name : Text → Text
volume_name domain = trim_suffix (zone_volume_prefix ++ replace_all domain b'.' b'-') (text "-")

-- `[2]string{configMap.Name, cmZoneKey}`
pub record DesiredVolume : Type 0 where
  pub config_map_name : Text
  pub zone_key : Text

-- The key of a zone config map, whose data must have one key.
unfoldable pub sole_key : Dict Text → Option Text
sole_key ((k, v) ∷ []) = some k
sole_key _ = none

-- The body of the loop of `getDesiredVolumes`: the volume of one zone config map.
unfoldable pub desired_volume : ConfigMap → Result (Text × DesiredVolume)
desired_volume cm = elim (lookup domain_annotation cm.meta.annotations) [
  | none ↦
      err (
        new_error
          (text "configMap " ++ (cm.meta.name ++ text " does not have a domain annotation")))
  | some domain ↦ elim (sole_key cm.contents) [
    | some k ↦ ok (volume_name domain, record { config_map_name = cm.meta.name; zone_key = k })
    | none ↦
        err (new_error (text "configMap " ++ (cm.meta.name ++ text " should contain only one key")))
  ]
]

-- The loop.
unfoldable pub desired_volumes : List ConfigMap → Dict DesiredVolume → Result (Dict DesiredVolume)
desired_volumes [] desired = ok desired
desired_volumes (cm ∷ cms) desired = elim (desired_volume cm) [
  | ok (name, d) ↦ desired_volumes cms (insert name d desired)
  | err e ↦ err e
]

-- `getDesiredVolumes`
abbrev pub get_desired_volumes : List ConfigMap → Result (Dict DesiredVolume)
get_desired_volumes cms = desired_volumes cms []

-- Zone volumes and their mounts are kept if they are desired, all others always.
unfoldable pub is_kept : Dict DesiredVolume → Text → Bool
is_kept desired name =
    if has_prefix name zone_volume_prefix then is_some (lookup name desired) else true

unfoldable pub make_volume : Text → DesiredVolume → Volume
make_volume name d = record {
  name = name;
  source = config_map d.config_map_name d.zone_key d.zone_key;
}

unfoldable pub make_mount : Text → Text → DesiredVolume → VolumeMount
make_mount mount_dir name d = record {
  name = name;
  mount_path = mount_dir ++ (text "/" ++ d.zone_key);
  sub_path = d.zone_key;
  read_only = true;
}

abbrev pub has_volume : Text → List Volume → Bool
has_volume name = exists (λ v. eqb v.name name)

abbrev pub has_mount : Text → List VolumeMount → Bool
has_mount path = exists (λ m. eqb m.mount_path path)

-- The loop over the desired volumes, as far as volumes go.
unfoldable pub add_volumes : Dict DesiredVolume → List Volume → List Volume
add_volumes [] volumes = volumes
add_volumes ((name, d) ∷ rest) volumes =
    add_volumes rest
      (if has_volume name volumes then volumes else volumes ++ make_volume name d ∷ [])

-- The same loop, as far as volume mounts go.
unfoldable pub add_mounts : Text → Dict DesiredVolume → List VolumeMount → List VolumeMount
add_mounts mount_dir [] mounts = mounts
add_mounts mount_dir ((name, d) ∷ rest) mounts =
    let mount = make_mount mount_dir name d in
    add_mounts mount_dir rest
      (if has_mount mount.mount_path mounts then mounts else mounts ++ mount ∷ [])

unfoldable pub with_mounts : List VolumeMount → Container → Container
with_mounts mounts c = record c { volume_mounts = mounts }

unfoldable pub request_annotation : Text
request_annotation = text "reconcilation-request"

-- The new pod template, for the desired volumes.
unfoldable pub attach :
    (Dict DesiredVolume → Dict DesiredVolume)
    → Text
    → Dict DesiredVolume
    → PodTemplateSpec
    → PodTemplateSpec
attach range_order mount_dir desired t =
    let mounts =
      add_mounts mount_dir (range_order desired)
        (keep (λ m. is_kept desired m.name) t.first_container.volume_mounts) in
    record t {
      volumes = add_volumes (range_order desired) (keep (λ v. is_kept desired v.name) t.volumes);
      first_container = with_mounts mounts t.first_container;
      other_containers = map (with_mounts mounts) t.other_containers;
    }

-- `setZoneFileConifgMaps`, at the time `now` in seconds since 1970. The switch on the type of the
-- resource has a case for each of the three kinds, and none for another.
unfoldable pub set_zone_file_config_maps :
    (Dict DesiredVolume → Dict DesiredVolume)
    → ℕ
    → DnsConnectorSpec
    → Workload
    → List ConfigMap
    → Result Workload
set_zone_file_config_maps range_order now spec w cms = do
  desired ← get_desired_volumes cms
  let requested = insert request_annotation (decimal now) w.template.annotations
  ok (record w {
    template =
        attach range_order spec.coredns_deployment.zone_file_mount_dir desired
          (record w.template { annotations = requested });
  })
