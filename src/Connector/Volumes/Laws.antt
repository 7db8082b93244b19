-- ===== src/Connector/Volumes/Laws.antt =====
-- The volumes and mounts of a pod template in `setZoneFileConifgMaps` of
-- internal/controller/dnsconnector_construction.go
use mathlib.Core.List.{Permᴰ}
use mathlib.Core.Option
use mathlib.Core.Option.{or_else}
use coredns_manager_operator.Common.{
  ◌≡◌, refl, ap, subst, ◌∙◌, sym, Bool, true, not, ◌||◌, ◌&&◌, Option, none, some, is_some, List,
  [], ◌∷◌, ◌++◌, append-nil, arith, All, Bool-cases, inl, inr, keep, keep-append, exists,
  exists-append, if◌then◌else◌,
}
use coredns_manager_operator.Common.Text.{Text, text, eqb, has_prefix}
use coredns_manager_operator.Common.Text.Equality.{eqb_iff}
use coredns_manager_operator.Common.Dict.{Dict, lookup, insert, NodupKeys, insert-NodupKeys}
use coredns_manager_operator.Common.Dict.Order.{NodupKeys-perm}
use coredns_manager_operator.Errors.{ok, Result-cases}
use coredns_manager_operator.Api.Meta.{ConfigMap}
use coredns_manager_operator.Api.DnsConnector.{config_map, Volume, VolumeMount, PodTemplateSpec}
use coredns_manager_operator.Connector.Volumes.{
  DesiredVolume, desired_volume, zone_volume_prefix, desired_volumes, is_kept, make_volume,
  make_mount, has_volume, has_mount, add_volumes, add_mounts, attach,
}

-- The volume of a name.
unfoldable pub volume_named : Text → List Volume → Option Volume
volume_named name [] = none
volume_named name (v ∷ vs) = if eqb v.name name then some v else volume_named name vs

volume_named-append :
    (name : Text) (vs ws : List Volume)
    → volume_named name (vs ++ ws) ≡ or_else (volume_named name vs) (volume_named name ws)
unfolding volume_named or_else
volume_named-append name [] ws = refl
volume_named-append name (v ∷ vs) ws = ground (arith, volume_named-append name vs ws)

pub has_volume-volume_named :
    (name : Text) (vs : List Volume) → has_volume name vs ≡ is_some (volume_named name vs)
unfolding volume_named exists
has_volume-volume_named name [] = refl
has_volume-volume_named name (v ∷ vs) = ground (arith, has_volume-volume_named name vs)

volume_named-keep :
    (desired : Dict DesiredVolume) (name : Text) (vs : List Volume)
    → volume_named name (keep (λ v. is_kept desired v.name) vs)
      ≡ (if is_kept desired name then volume_named name vs else none)
unfolding volume_named keep
volume_named-keep desired name [] = ground arith
volume_named-keep desired name (v ∷ vs) =
    ground (arith, volume_named-keep desired name vs, eqb_iff v.name name)

-- Behind a list that has the name, the name of the first entry changes nothing.
or_else_first :
    (name k : Text) (x : DesiredVolume) (d : Dict DesiredVolume) (vs : List Volume)
    → is_some (volume_named k vs) ≡ true
    → or_else (volume_named name vs) (Option.map (make_volume name) (lookup name d))
      ≡ or_else (volume_named name vs) (Option.map (make_volume name) (lookup name ((k, x) ∷ d)))
unfolding or_else lookup
or_else_first name k x d vs there = ground (arith, eqb_iff k name)

or_else_new :
    (name k : Text) (x : DesiredVolume) (d : Dict DesiredVolume) (vs : List Volume)
    → or_else
        (or_else (volume_named name vs) (volume_named name (make_volume k x ∷ [])))
        (Option.map (make_volume name) (lookup name d))
      ≡ or_else (volume_named name vs) (Option.map (make_volume name) (lookup name ((k, x) ∷ d)))
unfolding or_else lookup volume_named make_volume
or_else_new name k x d vs = ground (arith, eqb_iff k name)

pub volume_named-add_volumes :
    (name : Text) (d : Dict DesiredVolume) (vs : List Volume)
    → volume_named name (add_volumes d vs)
      ≡ or_else (volume_named name vs) (Option.map (make_volume name) (lookup name d))
unfolding add_volumes
volume_named-add_volumes name [] vs = unfold or_else lookup in ground arith
volume_named-add_volumes name ((k, x) ∷ d) vs = elim (Bool-cases (has_volume k vs)) [
  | inl there ↦ rw there (
      volume_named-add_volumes name d vs
      ∙ or_else_first name k x d vs (sym (has_volume-volume_named k vs) ∙ there))
  | inr new ↦ rw new (
      volume_named-add_volumes name d (vs ++ make_volume k x ∷ [])
      ∙ (ap (λ o. or_else o (Option.map (make_volume name) (lookup name d)))
            (volume_named-append name vs (make_volume k x ∷ []))
          ∙ or_else_new name k x d vs))
]

pub ok-injective : {a b : Dict DesiredVolume} → ok a ≡ ok b → a ≡ b
ok-injective h = cc

-- Each desired name stands once.
pub desired_volumes-NodupKeys :
    (cms : List ConfigMap) (old : Dict DesiredVolume) {desired : Dict DesiredVolume}
    → NodupKeys old
    → desired_volumes cms old ≡ ok desired
    → NodupKeys desired
unfolding desired_volumes
desired_volumes-NodupKeys [] old h e = subst NodupKeys (ok-injective e) h
desired_volumes-NodupKeys (cm ∷ cms) old h e = elim (Result-cases (desired_volume cm)) [
  | inl ((name, d), found) ↦
      desired_volumes-NodupKeys cms (insert name d old) (insert-NodupKeys name d old h)
        (rw (found, desired_volumes) at e)
  | inr (fault, failed) ↦ cc (rw (failed, desired_volumes) at e)
]

pub volume_named-attach_kept :
    (range_order : Dict DesiredVolume → Dict DesiredVolume) (mount_dir : Text)
    (desired : Dict DesiredVolume) (t : PodTemplateSpec)
    → Permᴰ desired (range_order desired)
    → NodupKeys desired
    → (name : Text)
    → volume_named name (attach range_order mount_dir desired t).volumes
      ≡ or_else
          (if is_kept desired name then volume_named name t.volumes else none)
          (Option.map (make_volume name) (lookup name desired))
unfolding attach
volume_named-attach_kept range_order mount_dir desired t p h name =
    volume_named-add_volumes name (range_order desired) _
    ∙ rw (volume_named-keep desired name t.volumes, sym ((NodupKeys-perm p h).1 name))

-- The volume that a name stands for in the new pod template: the one that it had, unless the name
-- starts with dnszone- and is not desired; and if it has none so, a new one if the name is desired,
-- of the config map and with the key that are desired under the name. The desired names are without
-- repetition, and the range visits each once.
pub volume_named-attach :
    (range_order : Dict DesiredVolume → Dict DesiredVolume) (mount_dir : Text)
    (desired : Dict DesiredVolume) (t : PodTemplateSpec)
    → Permᴰ desired (range_order desired)
    → NodupKeys desired
    → (name : Text)
    → let found : Option DesiredVolume = lookup name desired in
      let is_stale : Bool = has_prefix name (text "dnszone-") && not (is_some found) in
      let made : DesiredVolume → Volume =
        λ d. record { name = name; source = config_map d.config_map_name d.zone_key d.zone_key } in
      volume_named name (attach range_order mount_dir desired t).volumes
      ≡ or_else (if is_stale then none else volume_named name t.volumes) (Option.map made found)
unfolding is_kept make_volume zone_volume_prefix
volume_named-attach range_order mount_dir desired t p h name =
    volume_named-attach_kept range_order mount_dir desired t p h name
    ∙ ap (λ o. or_else o (Option.map (make_volume name) (lookup name desired))) (ground arith)

-- A mount path is mounted after the call if it was and is kept, or if it is desired.
pub has_mount-add_mounts :
    (mount_dir path : Text) (d : Dict DesiredVolume) (ms : List VolumeMount)
    → has_mount path (add_mounts mount_dir d ms)
      ≡ (has_mount path ms || exists (λ e. eqb (make_mount mount_dir e.0 e.1).mount_path path) d)
unfolding add_mounts exists
has_mount-add_mounts mount_dir path [] ms = ground arith
has_mount-add_mounts mount_dir path ((k, x) ∷ d) ms =
    let mount = make_mount mount_dir k x in
    has_mount-add_mounts mount_dir path d
      (if has_mount mount.mount_path ms then ms else ms ++ mount ∷ [])
    ∙ ground (
      arith,
      exists-append (λ (m : VolumeMount). eqb m.mount_path path) ms (mount ∷ []),
      eqb_iff mount.mount_path path,
    )

-- What is no zone volume.
abbrev pub is_other : Text → Bool
is_other name = not (has_prefix name zone_volume_prefix)

keep_other_step :
    (k : Text) (x : DesiredVolume) (vs : List Volume)
    → has_prefix k zone_volume_prefix ≡ true
    → keep (λ v. is_other v.name) (if has_volume k vs then vs else vs ++ make_volume k x ∷ [])
      ≡ keep (λ v. is_other v.name) vs
unfolding make_volume keep
keep_other_step k x vs h = elim (Bool-cases (has_volume k vs)) [
  | inl there ↦ rw there
  | inr new ↦
      rw new (keep-append (λ v. is_other v.name) vs (make_volume k x ∷ []) ∙ rw h (append-nil _))
]

pub keep_other-add_volumes :
    (d : Dict DesiredVolume) (vs : List Volume)
    → All (λ e. has_prefix e.0 zone_volume_prefix ≡ true) d
    → keep (λ v. is_other v.name) (add_volumes d vs) ≡ keep (λ v. is_other v.name) vs
unfolding add_volumes
keep_other-add_volumes [] vs h = refl
keep_other-add_volumes ((k, x) ∷ d) vs (hk, h) =
    keep_other-add_volumes d (if has_volume k vs then vs else vs ++ make_volume k x ∷ []) h
    ∙ keep_other_step k x vs hk

pub keep_other-keep :
    (desired : Dict DesiredVolume) (vs : List Volume)
    → keep (λ v. is_other v.name) (keep (λ v. is_kept desired v.name) vs)
      ≡ keep (λ v. is_other v.name) vs
unfolding keep is_kept
keep_other-keep desired [] = refl
keep_other-keep desired (v ∷ vs) = ground (arith, keep_other-keep desired vs)
