-- ===== src/Trae/Api.antt =====
-- The types of k8s.io/api that the builders of this operator fill in, as far as they set them; the
-- others are those of Kube.antt. They are spelled as in that package.
use work_script.Prelude.{ℤ, pos, String, Bool, Option, none, List, [], Dict}
use work_script.Kube.{
  Document, Quantity, ObjectMeta, ContainerPort, Probe, VolumeMount, Volume, ResourceRequirements,
  StatefulSetStatus,
}

pub record PodSecurityContext : Type 0 where
  pub run_as_user : Option ℤ
  pub run_as_group : Option ℤ
  pub run_as_non_root : Option Bool
  pub fs_group : Option ℤ

pub record SecurityContext : Type 0 where
  pub run_as_user : Option ℤ
  pub run_as_group : Option ℤ
  pub run_as_non_root : Option Bool
  pub read_only_root_filesystem : Option Bool
  pub privileged : Option Bool

pub record ConfigMapKeySelector : Type 0 where
  pub name : String
  pub key : String
  pub optional : Option Bool

pub record SecretKeySelector : Type 0 where
  pub name : String
  pub key : String
  pub optional : Option Bool

pub record EnvVarSource : Type 0 where
  pub config_map_key_ref : Option ConfigMapKeySelector
  pub secret_key_ref : Option SecretKeySelector

pub record EnvVar : Type 0 where
  pub name : String
  pub value : String
  pub value_from : Option EnvVarSource

pub record LocalObjectReference : Type 0 where
  pub name : String

pub record Toleration : Type 0 where
  pub key : String
  pub operator : String
  pub value : String
  pub effect : String
  pub toleration_seconds : Option ℤ

pub record HostAlias : Type 0 where
  pub ip : String
  pub hostnames : List String

pub record NodeSelectorRequirement : Type 0 where
  pub key : String
  pub operator : String
  pub values : List String

pub record NodeSelectorTerm : Type 0 where
  pub match_expressions : List NodeSelectorRequirement
  pub match_fields : List NodeSelectorRequirement

pub record PreferredSchedulingTerm : Type 0 where
  pub weight : ℤ
  pub preference : NodeSelectorTerm

pub record NodeSelector : Type 0 where
  pub node_selector_terms : List NodeSelectorTerm

pub record NodeAffinity : Type 0 where
  pub required : Option NodeSelector
  pub preferred : List PreferredSchedulingTerm

pub record PodAffinityTerm : Type 0 where
  pub label_selector : Option Document
  pub namespaces : List String
  pub topology_key : String

pub record WeightedPodAffinityTerm : Type 0 where
  pub weight : ℤ
  pub pod_affinity_term : PodAffinityTerm

pub record PodAffinity : Type 0 where
  pub required : List PodAffinityTerm
  pub preferred : List WeightedPodAffinityTerm

pub record PodAntiAffinity : Type 0 where
  pub required : List PodAffinityTerm
  pub preferred : List WeightedPodAffinityTerm

pub record Affinity : Type 0 where
  pub node_affinity : Option NodeAffinity
  pub pod_affinity : Option PodAffinity
  pub pod_anti_affinity : Option PodAntiAffinity

pub record Container : Type 0 where
  pub name : String
  pub image : String
  pub command : List String
  pub args : List String
  pub env : List EnvVar
  pub ports : List ContainerPort
  pub resources : ResourceRequirements
  pub security_context : Option SecurityContext
  pub readiness_probe : Option Probe
  pub liveness_probe : Option Probe
  pub volume_mounts : List VolumeMount

pub record PodSpec : Type 0 where
  pub image_pull_secrets : List LocalObjectReference
  pub node_selector : Dict String
  pub tolerations : List Toleration
  pub host_aliases : List HostAlias
  pub security_context : Option PodSecurityContext
  pub affinity : Option Affinity
  pub init_containers : List Container
  pub containers : List Container
  pub volumes : List Volume

pub record PodTemplateSpec : Type 0 where
  pub labels : Dict String
  pub annotations : Dict String
  pub spec : PodSpec

pub record PersistentVolumeClaim : Type 0 where
  pub name : String
  pub annotations : Dict String
  pub access_modes : List String
  pub requests : Option (Dict Quantity)
  pub storage_class_name : String
  pub volume_name : String

pub record StatefulSetSpec : Type 0 where
  pub service_name : String
  pub replicas : ℤ
  pub selector : Dict String
  pub template : PodTemplateSpec
  pub volume_claim_templates : List PersistentVolumeClaim

pub record StatefulSet : Type 0 where
  pub metadata : ObjectMeta
  pub spec : StatefulSetSpec
  pub status : StatefulSetStatus

-- Zero values, whose fields a literal leaves out.
abbrev pub zero_container : Container
zero_container = record {
  name = "";
  image = "";
  command = [];
  args = [];
  env = [];
  ports = [];
  resources = record { requests = none; limits = none };
  security_context = none;
  readiness_probe = none;
  liveness_probe = none;
  volume_mounts = [];
}

abbrev pub zero_pod : PodSpec
zero_pod = record {
  image_pull_secrets = [];
  node_selector = [];
  tolerations = [];
  host_aliases = [];
  security_context = none;
  affinity = none;
  init_containers = [];
  containers = [];
  volumes = [];
}

abbrev pub zero_status : StatefulSetStatus
zero_status = record { replicas = pos 0; ready_replicas = pos 0 }
