-- ===== src/Connector/Fetch.antt =====
-- What the reconciler of internal/controller/dnsconnector_controller.go reads: `fetchCorednsConfCM`,
-- `fetchCorednsDeployment`, `fetchGoodZones` and `fetchGoodZonefileCM`. Logging is left out.
use coredns_manager_operator.Common.{
  Bool, true, false, ◌&&◌, Option, none, some, List, [], ◌∷◌, ◌++◌, keep, if◌then◌else◌,
}
use coredns_manager_operator.Common.Text.{text, eqb}
use coredns_manager_operator.Common.Sort.{sort_by}
use coredns_manager_operator.Errors.{wrap, new_error}
use coredns_manager_operator.Api.Meta.{
  NamespacedName, Condition, ConditionStatus, condition_true, condition_false, condition_unknown,
  ConfigMap,
}
use coredns_manager_operator.Api.DnsZone.{DnsZone, condition_zone_type_ready}
use coredns_manager_operator.Api.DnsConnector.{
  DnsConnector, Workload, WorkloadKind, assert_coredns_deployment_type,
}
use coredns_manager_operator.Kube.{
  config_maps, workloads, Client, Exec, pure, raise, gets, lift, ◌>>=◌, wrapped,
}
use coredns_manager_operator.Kube.Finalizers.{get_obj_from_k8s}

unfoldable pub is_true : ConditionStatus → Bool
is_true condition_true = true
is_true condition_false = false
is_true condition_unknown = false

-- The inner loop of `fetchGoodZones`: whether it appends the zone.
unfoldable pub is_picked : Bool → List Condition → Bool
is_picked checkpoint [] = false
is_picked checkpoint (condition ∷ conditions) =
    let rest = is_picked checkpoint conditions in
    if eqb condition.type_name condition_zone_type_ready && is_true condition.status
    then true
    else if checkpoint
    then true
    else rest

unfoldable pub is_good_zone : DnsZone → Bool
is_good_zone zone = is_picked zone.status.checkpoint zone.status.conditions

-- `fetchGoodZones`, behind the call of `r.List`
unfoldable pub good_zones : List DnsZone → List DnsZone
good_zones = keep is_good_zone

unfoldable pub conf_cm_key : DnsConnector → NamespacedName
conf_cm_key conn = record { name = conn.spec.coredns_cm.name; namespace = conn.meta.namespace }

unfoldable pub deployment_key : DnsConnector → NamespacedName
deployment_key conn = record {
  name = conn.spec.coredns_deployment.name;
  namespace = conn.meta.namespace;
}

unfoldable pub zone_cm_key : DnsZone → NamespacedName
zone_cm_key zone = record { name = zone.status.zone_configmap; namespace = zone.meta.namespace }

module _ (c : Client) where
  -- `fetchCorednsConfCM`
  unfoldable pub fetch_coredns_conf_cm : DnsConnector → Exec c.State ConfigMap
  fetch_coredns_conf_cm conn =
      wrapped (text "failed to fetch coredns deployment object: ")
        (get_obj_from_k8s c config_maps (conf_cm_key conn))

  -- `fetchCorednsDeployment`, for the type that the assertion gives
  unfoldable pub fetch_asserted :
      DnsConnector → Option WorkloadKind → Exec c.State (WorkloadKind × Workload)
  fetch_asserted conn none = raise (
      new_error (
        text "DNSConnector type assertion failure: unsupported resource type: "
        ++ conn.spec.coredns_deployment.type_name))
  fetch_asserted conn (some k) = do
    w ←
        wrapped (text "failed to fetch coredns deployment object: ")
          (get_obj_from_k8s c (workloads k) (deployment_key conn))
    pure (k, w)

  -- `fetchCorednsDeployment`; the type of the object that it returns is given with it
  unfoldable pub fetch_coredns_deployment : DnsConnector → Exec c.State (WorkloadKind × Workload)
  fetch_coredns_deployment conn =
      fetch_asserted conn (assert_coredns_deployment_type conn.spec.coredns_deployment.type_name)

  -- `fetchGoodZones`
  unfoldable pub fetch_good_zones : DnsConnector → Exec c.State (List DnsZone)
  fetch_good_zones conn = do
    listed ← gets (c.list_zones conn.meta.name conn.meta.namespace)
    items ← lift (wrap (text "could not list DNSZones: ") listed)
    pure (good_zones items)

  -- The loop of `fetchGoodZonefileCM`
  unfoldable pub fetch_zone_cms : List DnsZone → Exec c.State (List ConfigMap)
  fetch_zone_cms [] = pure []
  fetch_zone_cms (zone ∷ zones) = do
    cm ←
        wrapped (text "could not get ConfigMap for DNSZone " ++ (zone.meta.name ++ text ": "))
          (get_obj_from_k8s c config_maps (zone_cm_key zone))
    cms ← fetch_zone_cms zones
    pure (cm ∷ cms)

  -- `fetchGoodZonefileCM`
  unfoldable pub fetch_good_zonefile_cm :
      DnsConnector → Exec c.State (List DnsZone × List ConfigMap)
  fetch_good_zonefile_cm conn = do
    zones ← wrapped (text "could not get DNSZones: ") (fetch_good_zones conn)
    cms ← fetch_zone_cms zones
    pure (zones, sort_by (λ (cm : ConfigMap). cm.meta.name) cms)
