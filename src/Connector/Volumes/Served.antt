-- ===== src/Connector/Volumes/Served.antt =====
-- The outcome of `setZoneFileConifgMaps` of internal/controller/dnsconnector_construction.go
use mathlib.Core.List.{Permᴰ}
use mathlib.Core.Option
use mathlib.Core.Option.{or_else}
use coredns_manager_operator.Common.{
  ℕ, ◌≡◌, ◌≢◌, refl, ap, ◌∙◌, Bool, true, false, ◌||◌, Option, none, some, is_some, List, [], ◌∷◌,
  arith, All, keep, exists, Bool-cases, inl, inr, if◌then◌else◌,
}
use coredns_manager_operator.Common.Text.{Text, eqb, has_prefix, trim_suffix, replace_all}
use coredns_manager_operator.Common.Decimal.{decimal}
use coredns_manager_operator.Common.Sort.Laws.{All-perm}
use coredns_manager_operator.Common.Dict.{Dict, lookup, insert, lookup-insert}
use coredns_manager_operator.Errors.{ok}
use coredns_manager_operator.Api.Meta.{ConfigMap}
use coredns_manager_operator.Api.DnsConnector.{DnsConnectorSpec, Volume, Workload}
use coredns_manager_operator.Connector.Corefile.{domain_annotation}
use coredns_manager_operator.Connector.Volumes.{
  DesiredVolume, zone_volume_prefix, volume_name, request_annotation, sole_key, desired_volume,
  desired_volumes, is_kept, make_volume, has_volume, attach, set_zone_file_config_maps,
}
use coredns_manager_operator.Connector.Volumes.Laws.{
  volume_named, volume_named-attach_kept, has_volume-volume_named, is_other, keep_other-add_volumes,
  keep_other-keep, desired_volumes-NodupKeys,
}

-- A config map of a zone: it names a domain and has one key.
pub record IsMountable (cm : ConfigMap) : Type 0 where
  pub domain : Text
  pub key : Text
  pub names : lookup domain_annotation cm.meta.annotations ≡ some domain
  pub nonempty : domain ≢ []
  pub single : sole_key cm.contents ≡ some key

volume_name_prefix : (d : Text) → d ≢ [] → has_prefix (volume_name d) zone_volume_prefix ≡ true
unfolding volume_name zone_volume_prefix has_prefix trim_suffix replace_all eqb
volume_name_prefix [] h = absurd (h refl)
volume_name_prefix (c ∷ d) h = refl

abbrev AreZones : Dict DesiredVolume → Type 0
AreZones = All (λ e. has_prefix e.0 zone_volume_prefix ≡ true)

insert-AreZones :
    (name : Text) (v : DesiredVolume) (m : Dict DesiredVolume)
    → has_prefix name zone_volume_prefix ≡ true
    → AreZones m
    → AreZones (insert name v m)
unfolding insert
insert-AreZones name v [] hn h = (hn, tt)
insert-AreZones name v ((k, w) ∷ m) hn (hk, h) = elim (Bool-cases (eqb k name)) [
  | inl same ↦ rw same (hn, h)
  | inr other ↦ rw other (hk, insert-AreZones name v m hn h)
]

-- Whether the volume of a name is wanted for some zone.
unfoldable pub is_wanted : Text → ConfigMap → Bool
is_wanted name cm = elim (lookup domain_annotation cm.meta.annotations) [
  | some d ↦ eqb (volume_name d) name
  | none ↦ false
]

-- The desired volumes of zone config maps can all be found.
desired_volumes-end :
    (cms : List ConfigMap) (old : Dict DesiredVolume)
    → All IsMountable cms
    → AreZones old
    → (desired : Dict DesiredVolume) × (desired_volumes cms old ≡ ok desired)
      × AreZones desired
      × ((name : Text)
          → is_some (lookup name desired)
            ≡ (exists (is_wanted name) cms || is_some (lookup name old)))
unfolding desired_volumes desired_volume is_wanted exists
desired_volumes-end [] old h zones = (old, refl, zones, λ name. refl)
desired_volumes-end (cm ∷ cms) old (h, hs) zones =
    let name = volume_name h.domain in
    let v : DesiredVolume = record { config_map_name = cm.meta.name; zone_key = h.key } in
    let (desired, made, are_zones, found) =
      desired_volumes-end cms (insert name v old) hs
        (insert-AreZones name v old (volume_name_prefix h.domain h.nonempty) zones) in
    (
      desired,
      rw (desired_volumes, desired_volume, h.names, h.single, made),
      are_zones,
      λ n. rw (is_wanted, h.names) (found n ∙ ground (arith, lookup-insert name n v old)),
    )

wanted_or_not :
    (name : Text) (desired : Dict DesiredVolume) (held : Option Volume)
    → has_prefix name zone_volume_prefix ≡ true
    → is_some (
        or_else
          (if is_kept desired name then held else none)
          (Option.map (make_volume name) (lookup name desired)))
      ≡ is_some (lookup name desired)
unfolding is_kept or_else
wanted_or_not name desired held h = ground arith

-- For zone config maps that each name a domain and have one key, the call gives a workload. Its
-- pod template has the volumes that are no zone volumes as they were, in their order, and it has a
-- zone volume of a name exactly if a config map wants one.
pub set_zone_file_config_maps-serves :
    (range_order : Dict DesiredVolume → Dict DesiredVolume) (now : ℕ) (spec : DnsConnectorSpec)
    (w : Workload) (cms : List ConfigMap)
    → ((m : Dict DesiredVolume) → Permᴰ m (range_order m))
    → All IsMountable cms
    → (name : Text) → has_prefix name zone_volume_prefix ≡ true
    → (w' : Workload) × (set_zone_file_config_maps range_order now spec w cms ≡ ok w')
      × (keep (λ v. is_other v.name) w'.template.volumes
          ≡ keep (λ v. is_other v.name) w.template.volumes)
      × (has_volume name w'.template.volumes ≡ exists (is_wanted name) cms)
unfolding set_zone_file_config_maps attach
set_zone_file_config_maps-serves range_order now spec w cms p h name prefixed =
    let (desired, made, zones, found) = desired_volumes-end cms [] h tt in
    (
      attached desired,
      rw made,
      keep_other-add_volumes (range_order desired) _ (All-perm _ (p desired) zones)
          ∙ keep_other-keep desired w.template.volumes,
      has_volume-volume_named name _
          ∙ (ap is_some (
                volume_named-attach_kept range_order spec.coredns_deployment.zone_file_mount_dir
                  desired w.template (p desired) (desired_volumes-NodupKeys cms [] tt made) name)
              ∙ (wanted_or_not name desired (volume_named name w.template.volumes) prefixed
                  ∙ (found name ∙ unfold lookup in ground arith))),
    )
  where
    attached : Dict DesiredVolume → Workload
    attached desired = record w {
      template =
          attach range_order spec.coredns_deployment.zone_file_mount_dir desired
            (record w.template {
              annotations = insert request_annotation (decimal now) w.template.annotations;
            });
    }
