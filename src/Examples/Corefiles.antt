-- ===== src/Examples/Corefiles.antt =====
-- A Corefile and a zone of the domain a.org, through the passes of `generateCorefileCM`.
use mathlib.Core.List.Permᴰ
use coredns_manager_operator.Common.{
  ◌≡◌, refl, subst, some, [], ◌∷◌, ◌++◌, arith, All, exists, if◌then◌else◌,
}
use coredns_manager_operator.Common.Text.{
  Text, text, newline, split, eqb, has_suffix, is_space, extend_first, trim_space, trim_left,
  trim_right, put_back, has_prefix,
}
use coredns_manager_operator.Common.Dict.{Dict, lookup, insert}
use coredns_manager_operator.Errors.{ok}
use coredns_manager_operator.Api.Meta.{ConfigMap, empty_meta}
use coredns_manager_operator.Api.DnsRecord.{ensure_fqdn}
use coredns_manager_operator.Api.DnsConnector.{DnsConnectorSpec}
use coredns_manager_operator.Connector.Corefile.{
  domain_annotation, zonefile_name, config_block, corefile_blocks, new_corefile, write_blocks,
  generate_corefile_cm, block_start_prefix, block_end_prefix,
}
use coredns_manager_operator.Connector.Corefile.Markers.{IsUser, is_begin, is_end}
use coredns_manager_operator.Connector.Corefile.Blocks.{IsDomain}
use coredns_manager_operator.Connector.Corefile.Passes.{
  PassInput, IsUsual, pass, passes, newlines, corefile_after_passes,
}
use coredns_manager_operator.Connector.Corefile.Served.{
  IsZoneMap, names_domain, corefile_blocks-serves, passes-end,
}

abbrev key : Text
key = text "Corefile"

abbrev domain : Text
domain = text "a.org"

abbrev content : Text
content = text ".:53 {\n}"

abbrev pub spec : DnsConnectorSpec
spec = record {
  wait_for_update_timeout = 300;
  coredns_cm = record { name = text "coredns"; corefile_key = key };
  coredns_deployment = record {
    type_name = text "Deployment";
    name = text "coredns";
    zone_file_mount_dir = text "/zones";
  };
  coredns_zone_enabled_plugins = text "log" ∷ [];
}

abbrev pub base : ConfigMap
base = record { meta = empty_meta; contents = (key, content) ∷ [] }

abbrev pub zone_map : ConfigMap
zone_map = record {
  meta = record empty_meta { name = text "zone-a"; annotations = (text "DomainName", domain) ∷ [] };
  contents = (text "a.org.zone", text "@ IN NS ns") ∷ [];
}

zone_map-IsZoneMap : IsZoneMap zone_map
unfolding lookup domain_annotation zonefile_name ensure_fqdn has_suffix eqb
zone_map-IsZoneMap = record {
  domain = domain;
  zone_file = text "@ IN NS ns";
  names = refl;
  holds = refl;
}

abbrev input : PassInput
input = record { spec = spec; zones = zone_map ∷ []; range_order = λ m. m }

found : lookup key base.contents ≡ some content
unfolding lookup eqb
found = refl

corefile_blocks-serves_example :
    (blocks : Dict Text) × (corefile_blocks spec (zone_map ∷ []) [] ≡ ok blocks)
    × ((d : Text)
        → lookup d blocks ≡ (
            if exists (names_domain d) (zone_map ∷ [])
            then some (config_block spec d)
            else lookup d []))
corefile_blocks-serves_example =
    corefile_blocks-serves spec (zone_map ∷ []) [] (zone_map-IsZoneMap, tt)

passes-end_example :
    (cm' : ConfigMap) × (content' : Text) × (passes (input ∷ input ∷ []) base ≡ ok cm')
    × (lookup key cm'.contents ≡ some content')
passes-end_example =
    passes-end key content (input ∷ input ∷ []) base
      ((refl, (zone_map-IsZoneMap, tt)), ((refl, (zone_map-IsZoneMap, tt)), tt)) found

domain-IsDomain : IsDomain domain
unfolding is_space
domain-IsDomain = (
  λ e. cc,
  (
    (refl, omega arith),
    ((refl, omega arith), ((refl, omega arith), ((refl, omega arith), ((refl, omega arith), tt)))),
  ),
)

input-IsUsual : IsUsual key input
unfolding lookup domain_annotation eqb is_begin is_end trim_space trim_left trim_right put_back
    is_space has_prefix block_start_prefix block_end_prefix
input-IsUsual = record {
  corefile_key = refl;
  plain = record { mount_dir = omega arith; plugins = ((omega arith, (refl, refl)), tt) };
  domains = (λ d e. let h : some domain ≡ some d = e in subst IsDomain (cc) domain-IsDomain, tt);
  visits = λ m. Permᴰ.refl m;
}

content-IsUser : All IsUser (split content newline)
unfolding split extend_first is_begin is_end trim_space trim_left trim_right put_back is_space
    has_prefix block_start_prefix block_end_prefix
content-IsUser = ((refl, refl), ((refl, refl), tt))

abbrev once : ConfigMap
once = record base {
  contents = (key, new_corefile (λ m. m) ((domain, config_block spec domain) ∷ []) content) ∷ [];
}

abbrev twice : ConfigMap
twice = record base {
  contents =
      (
        key,
        new_corefile (λ m. m) ((domain, config_block spec domain) ∷ [])
            (new_corefile (λ m. m) ((domain, config_block spec domain) ∷ []) content),
      )
      ∷ [];
}

first : passes (input ∷ []) base ≡ ok once
unfolding generate_corefile_cm corefile_blocks lookup insert domain_annotation zonefile_name
    ensure_fqdn has_suffix eqb
first = refl

second : pass input once ≡ ok twice
unfolding generate_corefile_cm corefile_blocks lookup insert domain_annotation zonefile_name
    ensure_fqdn has_suffix eqb
second = refl

corefile_after_passes_example :
    (blocks : Dict Text) × (corefile_blocks spec (zone_map ∷ []) [] ≡ ok blocks)
    × (lookup key twice.contents ≡ some ((content ++ newlines 2) ++ write_blocks blocks))
corefile_after_passes_example =
    corefile_after_passes key content (input ∷ []) input base {cm₁ = once} {cm₂ = twice}
      (input-IsUsual, tt) input-IsUsual found content-IsUser first second
