-- ===== src/Api/Meta.antt =====
-- The data of the Kubernetes API that the operator reads and writes: the fields of
-- `metav1.ObjectMeta`, `metav1.Condition`, `corev1.ConfigMap` that its code uses.
use coredns_manager_operator.Common.{ℕ, Option, List}
use coredns_manager_operator.Common.Text.{Text}
use coredns_manager_operator.Common.Dict.{Dict}

-- types.NamespacedName
pub record NamespacedName : Type 0 where
  pub name : Text
  pub namespace : Text

-- metav1.OwnerReference
pub record OwnerReference : Type 0 where
  pub api_version : Text
  pub kind : Text
  pub name : Text
  pub uid : Text

-- metav1.TypeMeta and metav1.ObjectMeta; a zero deletion timestamp is `none`
pub record ObjectMeta : Type 0 where
  pub api_version : Text
  pub kind : Text
  pub name : Text
  pub namespace : Text
  pub uid : Text
  pub resource_version : Text
  pub generation : ℕ
  pub deletion_timestamp : Option ℕ
  pub labels : Dict Text
  pub annotations : Dict Text
  pub finalizers : List Text
  pub owner_references : List OwnerReference

pub data ConditionStatus : Type 0 where
  condition_true condition_false condition_unknown : ConditionStatus

-- metav1.Condition
pub record Condition : Type 0 where
  pub type_name : Text
  pub status : ConditionStatus
  pub observed_generation : ℕ
  pub last_transition_time : ℕ
  pub reason : Text
  pub message : Text

-- corev1.ConfigMap
pub record ConfigMap : Type 0 where
  pub meta : ObjectMeta
  pub contents : Dict Text

-- The zero value of an object's metadata.
abbrev pub empty_meta : ObjectMeta
empty_meta = record {
  api_version = List.[];
  kind = List.[];
  name = List.[];
  namespace = List.[];
  uid = List.[];
  resource_version = List.[];
  generation = 0;
  deletion_timestamp = Option.none;
  labels = List.[];
  annotations = List.[];
  finalizers = List.[];
  owner_references = List.[];
}

-- `corev1.ConfigMap{}`
abbrev pub empty_config_map : ConfigMap
empty_config_map = record { meta = empty_meta; contents = List.[] }

-- The key under which the API server keeps an object.
abbrev pub key_of : ObjectMeta → NamespacedName
key_of m = record { name = m.name; namespace = m.namespace }
