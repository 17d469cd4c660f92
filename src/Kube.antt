-- ===== src/Kube.antt =====
-- The Kubernetes API types that the operators fill in (k8s.io/api and k8s.io/apimachinery): the
-- fields that the code under Apache/Hadoop/kubernetes/operator sets or reads, as plain data. What
-- an operator only passes on (an affinity, a toleration) is its document, never looked into.
use work_script.Prelude.{ℤ, String, Bool, Option, none, List, [], Dict}

-- A document that the code passes on as it is.
pub record Document : Type 0 where
  pub text : String

-- resource.Quantity: its text and what Value() returns.
pub record Quantity : Type 0 where
  pub text : String
  pub value : ℤ

pub record NamespacedName : Type 0 where
  pub namespace : String
  pub name : String

-- An error of the API: what IsNotFound answers of it, and its text.
pub record ApiError : Type 0 where
  pub is_not_found : Bool
  pub text : String

pub record OwnerReference : Type 0 where
  pub kind : String
  pub name : String
  pub controller : Bool

pub record ObjectMeta : Type 0 where
  pub name : String
  pub namespace : String
  pub labels : Dict String
  pub annotations : Dict String
  pub owner_references : List OwnerReference

pub data IntOrString : Type 0 where
  from_int : ℤ → IntOrString
  from_string : String → IntOrString

pub record ServicePort : Type 0 where
  pub name : String
  pub port : ℤ
  pub target_port : IntOrString
  pub node_port : ℤ

pub record KubeServiceSpec : Type 0 where
  pub service_type : String
  pub cluster_ip : String
  pub selector : Dict String
  pub ports : List ServicePort

pub record Service : Type 0 where
  pub metadata : ObjectMeta
  pub spec : KubeServiceSpec

pub record ConfigMap : Type 0 where
  pub metadata : ObjectMeta
  pub contents : Dict String

pub record ResourceRequirements : Type 0 where
  pub requests : Option (Dict Quantity)
  pub limits : Option (Dict Quantity)

pub record ContainerPort : Type 0 where
  pub name : String
  pub container_port : ℤ

pub record EnvVar : Type 0 where
  pub name : String
  pub value : String
  pub field_path : Option String

pub record Probe : Type 0 where
  pub path : String
  pub port : IntOrString
  pub initial_delay_seconds : ℤ
  pub period_seconds : ℤ
  pub timeout_seconds : ℤ
  pub failure_threshold : ℤ

pub record VolumeMount : Type 0 where
  pub name : String
  pub mount_path : String
  pub sub_path : String

pub record Container : Type 0 where
  pub name : String
  pub image : String
  pub image_pull_policy : String
  pub run_as_user : Option ℤ
  pub command : List String
  pub args : List String
  pub env : List EnvVar
  pub ports : List ContainerPort
  pub resources : ResourceRequirements
  pub pre_stop : Option (List String)
  pub liveness_probe : Option Probe
  pub readiness_probe : Option Probe
  pub volume_mounts : List VolumeMount

-- The zero value of a container, whose fields a literal leaves out.
abbrev pub zero_container : Container
zero_container = record {
  name = "";
  image = "";
  image_pull_policy = "";
  run_as_user = none;
  command = [];
  args = [];
  env = [];
  ports = [];
  resources = record { requests = none; limits = none };
  pre_stop = none;
  liveness_probe = none;
  readiness_probe = none;
  volume_mounts = [];
}

pub data VolumeSource : Type 0 where
  config_map_source : String → VolumeSource
  empty_dir : VolumeSource

pub record Volume : Type 0 where
  pub name : String
  pub source : VolumeSource

pub record PodSpec : Type 0 where
  pub image_pull_secrets : List String
  pub affinity : Option Document
  pub tolerations : List Document
  pub fs_group : Option ℤ
  pub termination_grace_period_seconds : Option ℤ
  pub init_containers : List Container
  pub containers : List Container
  pub volumes : List Volume

pub record PodTemplateSpec : Type 0 where
  pub labels : Dict String
  pub annotations : Dict String
  pub spec : PodSpec

pub record PersistentVolumeClaim : Type 0 where
  pub name : String
  pub access_modes : List String
  pub requests : Dict Quantity
  pub storage_class_name : Option String

pub record StatefulSetSpec : Type 0 where
  pub service_name : String
  pub replicas : Option ℤ
  pub selector : Dict String
  pub update_strategy : String
  pub template : PodTemplateSpec
  pub volume_claim_templates : List PersistentVolumeClaim

pub record StatefulSetStatus : Type 0 where
  pub replicas : ℤ
  pub ready_replicas : ℤ

pub record StatefulSet : Type 0 where
  pub metadata : ObjectMeta
  pub spec : StatefulSetSpec
  pub status : StatefulSetStatus

pub record PodDisruptionBudget : Type 0 where
  pub metadata : ObjectMeta
  pub max_unavailable : IntOrString
  pub selector : Dict String
