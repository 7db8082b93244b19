-- ===== src/Examples/Workloads.antt =====
-- A deployment with a volume of its own, to which a zone's volume is attached.
use mathlib.Core.List.Permᴰ
use mathlib.Core.Option
use mathlib.Core.Option.{or_else}
use coredns_manager_operator.Common.{
  ◌≡◌, refl, true, not, is_some, ◌&&◌, none, [], ◌∷◌, keep, exists, if◌then◌else◌,
}
use coredns_manager_operator.Common.Text.{Text, text, eqb, has_prefix, trim_suffix, replace_all}
use coredns_manager_operator.Common.Decimal.{decimal}
use coredns_manager_operator.Common.Dict.{Dict, lookup, insert}
use coredns_manager_operator.Errors.{ok}
use coredns_manager_operator.Api.Meta.{ConfigMap, empty_meta}
use coredns_manager_operator.Api.DnsConnector.{
  DnsConnectorSpec, Volume, config_map, other_source, PodTemplateSpec, Workload, deployment,
}
use coredns_manager_operator.Connector.Corefile.{domain_annotation}
use coredns_manager_operator.Connector.Volumes.{
  DesiredVolume, zone_volume_prefix, volume_name, request_annotation, sole_key, desired_volumes,
  desired_volume, has_volume, attach, set_zone_file_config_maps,
}
use coredns_manager_operator.Connector.Volumes.Laws.{volume_named, volume_named-attach, is_other}
use coredns_manager_operator.Connector.Volumes.Again.{set_zone_file_config_maps_twice}
use coredns_manager_operator.Connector.Volumes.Served.{
  IsMountable, is_wanted, set_zone_file_config_maps-serves,
}

abbrev spec : DnsConnectorSpec
spec = record {
  wait_for_update_timeout = 300;
  coredns_cm = record { name = text "coredns"; corefile_key = text "Corefile" };
  coredns_deployment = record {
    type_name = text "Deployment";
    name = text "coredns";
    zone_file_mount_dir = text "/zones";
  };
  coredns_zone_enabled_plugins = [];
}

abbrev own_volume : Volume
own_volume = record { name = text "config"; source = other_source (text "coredns") }

abbrev template : PodTemplateSpec
template = record {
  annotations = [];
  volumes = own_volume ∷ [];
  first_container = record { name = text "coredns"; volume_mounts = [] };
  other_containers = [];
}

abbrev pub coredns : Workload
coredns = record {
  kind = deployment;
  meta = empty_meta;
  template = template;
  wanted = 2;
  ready = 2;
}

abbrev zone_map : ConfigMap
zone_map = record {
  meta = record empty_meta {
    name = text "zone-a";
    annotations = (text "DomainName", text "a.org") ∷ [];
  };
  contents = (text "a.org.zone", text "@ IN NS ns") ∷ [];
}

zone_map-IsMountable : IsMountable zone_map
unfolding lookup domain_annotation eqb sole_key
zone_map-IsMountable = record {
  domain = text "a.org";
  key = text "a.org.zone";
  names = refl;
  nonempty = λ e. cc;
  single = refl;
}

abbrev zone_volume : Text
zone_volume = text "dnszone-a-org"

zone_volume-prefix : has_prefix zone_volume zone_volume_prefix ≡ true
unfolding has_prefix zone_volume_prefix
zone_volume-prefix = refl

set_zone_file_config_maps-serves_example :
    (w' : Workload) × (set_zone_file_config_maps (λ m. m) 10 spec coredns (zone_map ∷ []) ≡ ok w')
    × (keep (λ v. is_other v.name) w'.template.volumes
        ≡ keep (λ v. is_other v.name) (own_volume ∷ []))
    × (has_volume zone_volume w'.template.volumes ≡ exists (is_wanted zone_volume) (zone_map ∷ []))
set_zone_file_config_maps-serves_example =
    set_zone_file_config_maps-serves (λ m. m) 10 spec coredns (zone_map ∷ []) (λ m. Permᴰ.refl m)
      (zone_map-IsMountable, tt) zone_volume zone_volume-prefix

abbrev desired : Dict DesiredVolume
desired =
    (zone_volume, record { config_map_name = text "zone-a"; zone_key = text "a.org.zone" }) ∷ []

volume_named-attach_example :
    volume_named zone_volume (attach (λ m. m) (text "/zones") desired template).volumes
    ≡ or_else
        (if has_prefix zone_volume (text "dnszone-") && not (is_some (lookup zone_volume desired))
          then none
          else volume_named zone_volume (own_volume ∷ []))
        (Option.map
          (λ (d : DesiredVolume). record {
            name = zone_volume;
            source = config_map d.config_map_name d.zone_key d.zone_key;
          })
          (lookup zone_volume desired))
volume_named-attach_example =
    volume_named-attach (λ m. m) (text "/zones") desired template (Permᴰ.refl desired)
      (unfold lookup in (refl, tt)) zone_volume

desired_of : desired_volumes (zone_map ∷ []) [] ≡ ok desired
unfolding desired_volumes desired_volume lookup insert domain_annotation eqb sole_key volume_name
    zone_volume_prefix trim_suffix replace_all
desired_of = refl

abbrev attached : Workload
attached = record coredns {
  template =
      attach (λ m. m) (text "/zones") desired
        (record template { annotations = insert request_annotation (decimal 10) [] });
}

attached_of : set_zone_file_config_maps (λ m. m) 10 spec coredns (zone_map ∷ []) ≡ ok attached
unfolding set_zone_file_config_maps
attached_of = rw desired_of

set_zone_file_config_maps_twice_example :
    set_zone_file_config_maps (λ m. m) 20 spec attached (zone_map ∷ [])
    ≡ set_zone_file_config_maps (λ m. m) 20 spec coredns (zone_map ∷ [])
set_zone_file_config_maps_twice_example =
    set_zone_file_config_maps_twice (λ m. m) 10 20 spec coredns (zone_map ∷ []) (λ m. Permᴰ.refl m)
      attached_of
