-- ===== src/Api/DnsConnector.antt =====
-- api/v1alpha1/dnsconnector_types.go, and the parts of the workload objects of `appsv1` and
-- `corev1` that the operator reads and writes.
use coredns_manager_operator.Common.{ℕ, Bool, Option, none, some, List, if◌then◌else◌}
use coredns_manager_operator.Common.Text.{Text, text, eqb}
use coredns_manager_operator.Common.Dict.{Dict}
use coredns_manager_operator.Api.Meta.{ObjectMeta, Condition}

unfoldable pub coredns_original_conf_bkp_suffix : Text
coredns_original_conf_bkp_suffix = text "-original-configmap"

pub condition_connector_type_ready : Text
condition_connector_type_ready = text "Ready"

pub condition_reason_connector_active : Text
condition_reason_connector_active = text "Active"

pub condition_reason_connector_error : Text
condition_reason_connector_error = text "Error"

pub condition_reason_connector_updating : Text
condition_reason_connector_updating = text "Updating"

pub condition_reason_connector_update_err : Text
condition_reason_connector_update_err = text "UpdateError"

pub dns_connectors_finalizer_name : Text
dns_connectors_finalizer_name = text "dnsconnectors/finalizers"

-- `CoreDNSConfigMap`
pub record CorednsConfigMap : Type 0 where
  pub name : Text
  pub corefile_key : Text

-- `CoreDNSDeploymentType`
pub record CorednsDeploymentType : Type 0 where
  pub type_name : Text
  pub name : Text
  pub zone_file_mount_dir : Text

-- `DNSConnectorSpec`
pub record DnsConnectorSpec : Type 0 where
  pub wait_for_update_timeout : ℕ
  pub coredns_cm : CorednsConfigMap
  pub coredns_deployment : CorednsDeploymentType
  pub coredns_zone_enabled_plugins : List Text

-- `ProvisionedDNSZone`
pub record ProvisionedDnsZone : Type 0 where
  pub name : Text
  pub domain : Text
  pub serial_number : Text

-- `DNSConnectorStatus`
pub record DnsConnectorStatus : Type 0 where
  pub conditions : List Condition
  pub provisioned_dns_zones : List ProvisionedDnsZone

-- `DNSConnector`
pub record DnsConnector : Type 0 where
  pub meta : ObjectMeta
  pub spec : DnsConnectorSpec
  pub status : DnsConnectorStatus

-- What a volume holds: a config map with the key that is put at a path, or another source.
pub data VolumeSource : Type 0 where
  config_map : Text → Text → Text → VolumeSource
  other_source : Text → VolumeSource

-- corev1.Volume
pub record Volume : Type 0 where
  pub name : Text
  pub source : VolumeSource

-- corev1.VolumeMount
pub record VolumeMount : Type 0 where
  pub name : Text
  pub mount_path : Text
  pub sub_path : Text
  pub read_only : Bool

-- corev1.Container
pub record Container : Type 0 where
  pub name : Text
  pub volume_mounts : List VolumeMount

-- corev1.PodTemplateSpec; the API server admits no pod template without a container
pub record PodTemplateSpec : Type 0 where
  pub annotations : Dict Text
  pub volumes : List Volume
  pub first_container : Container
  pub other_containers : List Container

-- The three resource types that a CoreDNS deployment may have.
pub data WorkloadKind : Type 0 where
  deployment stateful_set daemon_set : WorkloadKind

-- `appsv1.Deployment`, `appsv1.StatefulSet` or `appsv1.DaemonSet`. `wanted` is `*Spec.Replicas`
-- of the first two and `Status.DesiredNumberScheduled` of the last; `ready` is
-- `Status.ReadyReplicas`, and `Status.NumberReady` of the last.
pub record Workload : Type 0 where
  pub kind : WorkloadKind
  pub meta : ObjectMeta
  pub template : PodTemplateSpec
  pub wanted : ℕ
  pub ready : ℕ

-- `AssertCorednsDeploymentType`: the kind of the empty object that it returns, or an error
unfoldable pub assert_coredns_deployment_type : Text → Option WorkloadKind
assert_coredns_deployment_type resource_type =
    if eqb resource_type (text "Deployment")
    then some deployment
    else if eqb resource_type (text "StatefulSet")
    then some stateful_set
    else if eqb resource_type (text "DaemonSet")
    then some daemon_set
    else none
