-- ===== src/Examples/Connectors.antt =====
-- A connector with one zone and a ready deployment, on an API server that takes every write and
-- whose objects stay, and on one in memory.
use mathlib.Core.List.Permᴰ
use coredns_manager_operator.Common.{
  ◌≡◌, ◌≢◌, ◌↔◌, ◌⊎◌, refl, true, [], ◌∷◌, keep, exists, All, if◌then◌else◌,
}
use coredns_manager_operator.Common.Text.{
  Text, text, eqb, has_suffix, has_prefix, trim_suffix, replace_all,
}
use coredns_manager_operator.Common.Dict.{lookup, insert}
use coredns_manager_operator.Common.Sort.{sort_by, insert_sorted}
use coredns_manager_operator.Errors.{Error, Result, ok, err, new_error}
use coredns_manager_operator.Api.Meta.{
  NamespacedName, ConfigMap, Condition, condition_true, empty_meta,
}
use coredns_manager_operator.Api.DnsZone.{DnsZone, condition_zone_type_ready}
use coredns_manager_operator.Api.DnsConnector.{
  DnsConnector, ProvisionedDnsZone, assert_coredns_deployment_type,
  coredns_original_conf_bkp_suffix,
}
use coredns_manager_operator.Kube.{
  Kind, Object, dns_records, dns_zones, dns_connectors, config_maps, workloads, Client, pure, lift,
  raise, gets, ◌>>=◌, ◌>>◌, wrapped,
}
use coredns_manager_operator.Kube.Memory.{helpers, strict_parser}
use coredns_manager_operator.Kube.Finalizers.{get_obj_from_k8s}
use coredns_manager_operator.Kube.Store.Laws.{impatient}
use coredns_manager_operator.Connector.Fetch.{
  fetch_coredns_deployment, fetch_asserted, is_good_zone, is_picked, is_true, good_zones,
  fetch_good_zones, fetch_zone_cms, fetch_good_zonefile_cm, fetch_coredns_conf_cm, conf_cm_key,
  zone_cm_key,
}
use coredns_manager_operator.Connector.Failures.{
  KeepsOthers, AreLeft, reconcile_dns_connector-fails,
}
use coredns_manager_operator.Connector.Backup.{
  backup_of, backup_fetched, backup_original_corefile_cm,
}
use coredns_manager_operator.Connector.Status.{
  show_condition, dns_connector_update_status, give_up, recover, or_give_up,
}
use coredns_manager_operator.Connector.Prepared.{IsRead, prepare-serves}
use coredns_manager_operator.Connector.Volumes.Served.{IsMountable, is_wanted}
use coredns_manager_operator.Connector.Picked.{SaysReady, is_good_zone_iff}
use coredns_manager_operator.Connector.Stats.{AreProvisioned, dns_zone_stats_iff}
use coredns_manager_operator.Connector.Reconcile.{
  RangeOrders, Changes, original_corefile, make_changes, prepare, require_key, dns_zone_stats,
  reconcile_dns_connector,
}
use coredns_manager_operator.Api.DnsRecord.{ensure_fqdn}
use coredns_manager_operator.Connector.Corefile.{
  domain_annotation, zonefile_name, corefile_blocks, generate_corefile_cm,
}
use coredns_manager_operator.Connector.Volumes.{
  zone_volume_prefix, has_volume, volume_name, sole_key, desired_volumes, desired_volume,
  set_zone_file_config_maps,
}
use coredns_manager_operator.Examples.Corefiles.{base, spec, zone_map}
use coredns_manager_operator.Examples.Workloads.{coredns}
use coredns_manager_operator.Examples.Zones.{zone}

abbrev pub conn : DnsConnector
conn = record {
  meta = record empty_meta { name = text "main"; namespace = text "dns" };
  spec = spec;
  status = record { conditions = []; provisioned_dns_zones = [] };
}

abbrev ready_condition : Condition
ready_condition = record {
  type_name = condition_zone_type_ready;
  status = condition_true;
  observed_generation = 1;
  last_transition_time = 5;
  reason = text "Active";
  message = [];
}

abbrev pub ready_zone : DnsZone
ready_zone = record zone {
  status = record zone.status {
    conditions = ready_condition ∷ [];
    zone_configmap = text "zone-a";
    validation_passed = true;
  };
}

abbrev pub map_of_zone : ConfigMap
map_of_zone = record zone_map {
  meta = record zone_map.meta {
    annotations =
        (text "DomainName", text "a.org")
        ∷ (text "DNSZoneRef", text "zone-a")
        ∷ (text "SerialNumber", text "0102030405")
        ∷ [];
  };
}

abbrev get_steady : (k : Kind) → NamespacedName → Result (Object k)
get_steady dns_records key = err (new_error (text "no"))
get_steady dns_zones key = ok ready_zone
get_steady dns_connectors key = ok conn
get_steady config_maps key = if eqb key.name (text "zone-a") then ok map_of_zone else ok base
get_steady (workloads k) key = ok coredns

abbrev steady : Client
steady = record {
  State = Unit;
  get = λ k key s. get_steady k key;
  create = λ k o s. (ok o, s);
  update = λ k o s. (ok o, s);
  update_status = λ k o s. (ok o, s);
  list_records = λ zone namespace s. ok [];
  list_zones = λ connector namespace s. ok (ready_zone ∷ []);
  now = λ s. 0;
  local_time = λ s. record { month = 1; day = 2; hour = 3; minute = 4; second = 5 };
}

abbrev Alike : Unit {0} → Unit {0} → Type 0
Alike s t = Unit

is_good_zone_iff_example : (is_good_zone ready_zone ≡ true) ↔ (
    SaysReady (ready_condition ∷ [])
    ⊎ ((ready_zone.status.checkpoint ≡ true) × (ready_condition ∷ [] ≢ [])))
is_good_zone_iff_example = is_good_zone_iff ready_zone

abbrev stat : ProvisionedDnsZone
stat = record { name = text "zone-a"; domain = text "a.org"; serial_number = text "0102030405" }

dns_zone_stats_iff_example :
    (dns_zone_stats (map_of_zone ∷ []) ≡ ok (stat ∷ []))
    ↔ AreProvisioned (map_of_zone ∷ []) (stat ∷ [])
dns_zone_stats_iff_example = dns_zone_stats_iff (map_of_zone ∷ []) (stat ∷ [])

abbrev lacking : DnsConnector
lacking = record conn {
  spec = record spec { coredns_cm = record { name = text "coredns"; corefile_key = text "Other" } };
}

abbrev pub orders : RangeOrders
orders = record { blocks = λ m. m; volumes = λ m. m }

lacking-fails :
    (e : Error) × (prepare steady helpers strict_parser (impatient steady) orders lacking tt
      ≡ (err e, tt))
unfolding prepare original_corefile make_changes or_give_up recover give_up show_condition
    dns_connector_update_status require_key fetch_coredns_conf_cm get_obj_from_k8s conf_cm_key
    lookup eqb pure raise lift gets ◌>>=◌ ◌>>◌ wrapped
lacking-fails = (_, refl)

steady-KeepsOthers : KeepsOthers steady
steady-KeepsOthers = record {
  config_maps-update_status = λ o key s. refl;
  workloads-update_status = λ k o key s. refl;
  connectors-update = λ o key s. refl;
  workloads-create = λ k o key s. refl;
  config_maps-create = λ o key s held h. h;
}

reconcile_dns_connector-fails_example :
    (reconcile_dns_connector steady helpers strict_parser (impatient steady) orders lacking tt
      ≡ (err lacking-fails.0, tt))
    × AreLeft steady tt tt
reconcile_dns_connector-fails_example =
    reconcile_dns_connector-fails steady helpers strict_parser (impatient steady) orders
      steady-KeepsOthers lacking tt tt lacking-fails.0 lacking-fails.1

prepared :
    (changes : Changes) × (prepare steady helpers strict_parser (impatient steady) orders conn tt
      ≡ (ok changes, tt))
unfolding prepare original_corefile make_changes or_give_up recover require_key
    fetch_coredns_conf_cm get_obj_from_k8s conf_cm_key backup_original_corefile_cm backup_fetched
    backup_of coredns_original_conf_bkp_suffix fetch_coredns_deployment fetch_asserted
    assert_coredns_deployment_type fetch_good_zonefile_cm fetch_good_zones good_zones keep
    is_good_zone is_picked is_true condition_zone_type_ready fetch_zone_cms zone_cm_key sort_by
    insert_sorted generate_corefile_cm corefile_blocks lookup insert domain_annotation zonefile_name
    ensure_fqdn has_suffix eqb set_zone_file_config_maps desired_volumes desired_volume sole_key
    volume_name zone_volume_prefix trim_suffix replace_all pure lift gets ◌>>=◌ ◌>>◌ wrapped
prepared = (_, refl)

map_of_zone-IsMountable : IsMountable map_of_zone
unfolding lookup domain_annotation eqb sole_key
map_of_zone-IsMountable = record {
  domain = text "a.org";
  key = text "a.org.zone";
  names = refl;
  nonempty = λ e. cc;
  single = refl;
}

prepared-IsMountable : All IsMountable prepared.0.zone_cms
unfolding prepared
prepared-IsMountable = (map_of_zone-IsMountable, tt)

abbrev zone_volume : Text
zone_volume = text "dnszone-a-org"

zone_volume-prefix : has_prefix zone_volume zone_volume_prefix ≡ true
unfolding has_prefix zone_volume_prefix
zone_volume-prefix = refl

prepare-serves_example :
    ((cm : ConfigMap) × (later : Unit) × (steady.get config_maps (conf_cm_key conn) tt ≡ ok cm)
      × (backup_original_corefile_cm steady helpers cm tt ≡ (ok tt, later))
      × IsRead steady conn prepared.0.zones prepared.0.zone_cms later
      × (generate_corefile_cm orders.blocks conn.spec cm prepared.0.zone_cms
          ≡ ok prepared.0.corefile_cm))
    × (has_volume zone_volume prepared.0.deployment.template.volumes
        ≡ exists (is_wanted zone_volume) prepared.0.zone_cms)
prepare-serves_example =
    prepare-serves steady helpers strict_parser (impatient steady) orders conn tt tt prepared.0
      zone_volume (λ m. Permᴰ.refl m) zone_volume-prefix prepared-IsMountable prepared.1
