-- ===== src/Trae/Types.antt =====
-- pkg/apis/hadoop/v1alpha1/hadoopcluster_types.go: the HadoopCluster resource. A pointer is an Option,
-- an int32 or int64 a ℤ; a nil map or list and an empty one are not told apart. `required` and
-- `preferred` stand for the fields that end in DuringSchedulingIgnoredDuringExecution. A label
-- selector and a condition are read by no code and are kept as documents. Of the metadata of a
-- cluster the code reads the name and the namespace, and an owner reference the UID.
use work_script.Prelude.{ℤ, String, Bool, Option, List, Dict}
use work_script.Kube.{Document, Quantity}

pub record ResourceList : Type 0 where
  pub cpu : Quantity
  pub memory : Quantity

pub record ResourceRequirements : Type 0 where
  pub requests : ResourceList
  pub limits : ResourceList

pub record PersistentVolumeClaimSpec : Type 0 where
  pub access_modes : List String
  pub resources : ResourceRequirements
  pub storage_class_name : String
  pub volume_name : String

pub record PersistentVolumeSpec : Type 0 where
  pub name : String
  pub mount_path : String
  pub annotations : Dict String
  pub persistent_volume_claim_spec : PersistentVolumeClaimSpec
  pub provisioner : String

pub record SecurityContext : Type 0 where
  pub run_as_user : Option ℤ
  pub run_as_group : Option ℤ
  pub run_as_non_root : Option Bool
  pub fs_group : Option ℤ

pub record ContainerSecurityContext : Type 0 where
  pub run_as_user : Option ℤ
  pub run_as_group : Option ℤ
  pub run_as_non_root : Option Bool
  pub read_only_root_filesystem : Option Bool
  pub privileged : Option Bool

pub record ConfigMapKeySelector : Type 0 where
  pub name : String
  pub key : String
  pub optional : Option Bool

pub record SecretKeySelector : Type 0 where
  pub name : String
  pub key : String
  pub optional : Option Bool

pub record EnvVarSource : Type 0 where
  pub config_map_key_ref : Option ConfigMapKeySelector
  pub secret_key_ref : Option SecretKeySelector

pub record EnvVar : Type 0 where
  pub name : String
  pub value : String
  pub value_from : Option EnvVarSource

pub record ProbePolicy : Type 0 where
  pub period_seconds : Option ℤ
  pub timeout_seconds : Option ℤ
  pub failure_threshold : Option ℤ

pub record LocalObjectReference : Type 0 where
  pub name : String

pub record Toleration : Type 0 where
  pub key : String
  pub operator : String
  pub value : String
  pub effect : String
  pub toleration_seconds : Option ℤ

pub record ConfigMapSpec : Type 0 where
  pub config_map_name : String
  pub mount_path : String

pub record HostAlias : Type 0 where
  pub ip : String
  pub hostnames : List String

pub record NodeSelectorRequirement : Type 0 where
  pub key : String
  pub operator : String
  pub values : List String

pub record NodeSelectorTerm : Type 0 where
  pub match_expressions : List NodeSelectorRequirement
  pub match_fields : List NodeSelectorRequirement

pub record PreferredSchedulingTerm : Type 0 where
  pub preference : NodeSelectorTerm
  pub weight : ℤ

pub record RequiredSchedulingTerm : Type 0 where
  pub node_selector_terms : List NodeSelectorTerm

pub record NodeAffinitySpec : Type 0 where
  pub preferred : List PreferredSchedulingTerm
  pub required : Option RequiredSchedulingTerm

pub record PodAffinityTerm : Type 0 where
  pub label_selector : Option Document
  pub namespaces : List String
  pub topology_key : String

pub record WeightedPodAffinityTerm : Type 0 where
  pub pod_affinity_term : PodAffinityTerm
  pub weight : ℤ

pub record PodAffinitySpec : Type 0 where
  pub required : List PodAffinityTerm
  pub preferred : List WeightedPodAffinityTerm

pub record PodAntiAffinitySpec : Type 0 where
  pub required : List PodAffinityTerm
  pub preferred : List WeightedPodAffinityTerm

pub record AffinitySpec : Type 0 where
  pub node_affinity : Option NodeAffinitySpec
  pub pod_affinity : Option PodAffinitySpec
  pub pod_anti_affinity : Option PodAntiAffinitySpec

pub record NameNodeSpec : Type 0 where
  pub replicas : ℤ
  pub resources : ResourceRequirements
  pub persistent_volumes : List PersistentVolumeSpec
  pub affinity : Option AffinitySpec
  pub security_context : Option SecurityContext
  pub container_security_context : Option ContainerSecurityContext
  pub env_vars : List EnvVar
  pub readiness_probe_policy : Option ProbePolicy
  pub liveness_probe_policy : Option ProbePolicy
  pub pod_labels : Dict String
  pub annotations : Dict String
  pub image_pull_secrets : List LocalObjectReference
  pub node_selector : Dict String
  pub tolerations : List Toleration
  pub config_maps : List ConfigMapSpec
  pub host_aliases : List HostAlias

pub record DataNodeSpec : Type 0 where
  pub replicas : ℤ
  pub resources : ResourceRequirements
  pub persistent_volumes : List PersistentVolumeSpec
  pub affinity : Option AffinitySpec
  pub security_context : Option SecurityContext
  pub container_security_context : Option ContainerSecurityContext
  pub env_vars : List EnvVar
  pub readiness_probe_policy : Option ProbePolicy
  pub liveness_probe_policy : Option ProbePolicy
  pub pod_labels : Dict String
  pub annotations : Dict String
  pub image_pull_secrets : List LocalObjectReference
  pub node_selector : Dict String
  pub tolerations : List Toleration
  pub config_maps : List ConfigMapSpec
  pub host_aliases : List HostAlias

pub record ResourceManagerSpec : Type 0 where
  pub replicas : ℤ
  pub resources : ResourceRequirements
  pub affinity : Option AffinitySpec
  pub security_context : Option SecurityContext
  pub container_security_context : Option ContainerSecurityContext
  pub env_vars : List EnvVar
  pub readiness_probe_policy : Option ProbePolicy
  pub liveness_probe_policy : Option ProbePolicy
  pub pod_labels : Dict String
  pub annotations : Dict String
  pub image_pull_secrets : List LocalObjectReference
  pub node_selector : Dict String
  pub tolerations : List Toleration
  pub config_maps : List ConfigMapSpec
  pub host_aliases : List HostAlias

pub record NodeManagerSpec : Type 0 where
  pub replicas : ℤ
  pub resources : ResourceRequirements
  pub affinity : Option AffinitySpec
  pub security_context : Option SecurityContext
  pub container_security_context : Option ContainerSecurityContext
  pub env_vars : List EnvVar
  pub readiness_probe_policy : Option ProbePolicy
  pub liveness_probe_policy : Option ProbePolicy
  pub pod_labels : Dict String
  pub annotations : Dict String
  pub image_pull_secrets : List LocalObjectReference
  pub node_selector : Dict String
  pub tolerations : List Toleration
  pub config_maps : List ConfigMapSpec
  pub host_aliases : List HostAlias

pub record HadoopConfigSpec : Type 0 where
  pub core_site : Dict String
  pub hdfs_site : Dict String
  pub yarn_site : Dict String
  pub mapred_site : Dict String

pub record HadoopClusterSpec : Type 0 where
  pub image : String
  pub name_node : NameNodeSpec
  pub data_node : DataNodeSpec
  pub resource_manager : ResourceManagerSpec
  pub node_manager : NodeManagerSpec
  pub hadoop_config : HadoopConfigSpec

pub record ComponentStatus : Type 0 where
  pub ready_replicas : ℤ
  pub status : String
  pub message : String

pub record ComponentsStatus : Type 0 where
  pub name_node : ComponentStatus
  pub data_node : ComponentStatus
  pub resource_manager : ComponentStatus
  pub node_manager : ComponentStatus

pub record HadoopClusterStatus : Type 0 where
  pub phase : String
  pub components : ComponentsStatus
  pub conditions : List Document
  pub version : String

pub record HadoopCluster : Type 0 where
  pub name : String
  pub namespace : String
  pub uid : String
  pub spec : HadoopClusterSpec
  pub status : HadoopClusterStatus
