-- ===== src/Qoder/Types.antt =====
-- api/v1/hadoopcluster_types.go: the HadoopCluster resource. An int32 or int64 is a ℤ; a pointer
-- is an Option; a nil map or list and an empty one are not told apart, but in ResourceList, where
-- the code asks.
use work_script.Prelude.{ℤ, String, Bool, Option, List, Dict}
use work_script.Kube.{Document, ResourceRequirements}

pub record ImageSpec : Type 0 where
  pub repository : String
  pub tag : String
  pub pull_policy : String
  pub pull_secrets : List String

pub record StorageSpec : Type 0 where
  pub size : String
  pub storage_class_name : Option String
  pub access_mode : String

pub record ServiceSpec : Type 0 where
  pub service_type : String
  pub node_ports : Dict ℤ
  pub annotations : Dict String

pub record ZooKeeperSpec : Type 0 where
  pub connection_string : String

pub record JournalNodeSpec : Type 0 where
  pub replicas : ℤ
  pub resources : ResourceRequirements
  pub storage : StorageSpec

pub record HaSpec : Type 0 where
  pub enabled : Bool
  pub zoo_keeper : Option ZooKeeperSpec
  pub journal_node : JournalNodeSpec

pub record NameNodeSpec : Type 0 where
  pub replicas : ℤ
  pub resources : ResourceRequirements
  pub storage : StorageSpec
  pub service : ServiceSpec
  pub ha : Option HaSpec
  pub affinity : Option Document
  pub tolerations : List Document

pub record DataNodeSpec : Type 0 where
  pub replicas : ℤ
  pub resources : ResourceRequirements
  pub storage : StorageSpec
  pub service : ServiceSpec
  pub affinity : Option Document
  pub tolerations : List Document

pub record HdfsSpec : Type 0 where
  pub name_node : NameNodeSpec
  pub data_node : DataNodeSpec

pub record ResourceManagerSpec : Type 0 where
  pub replicas : ℤ
  pub resources : ResourceRequirements
  pub service : ServiceSpec
  pub ha : Option HaSpec
  pub affinity : Option Document
  pub tolerations : List Document

pub record NodeManagerSpec : Type 0 where
  pub replicas : ℤ
  pub resources : ResourceRequirements
  pub service : ServiceSpec
  pub affinity : Option Document
  pub tolerations : List Document

pub record YarnSpec : Type 0 where
  pub resource_manager : ResourceManagerSpec
  pub node_manager : NodeManagerSpec

pub record HadoopConfig : Type 0 where
  pub core_site : Dict String
  pub hdfs_site : Dict String
  pub yarn_site : Dict String
  pub mapred_site : Dict String
  pub capacity_scheduler : Dict String

-- `security` and `metrics` are read by no code of the operator: they are kept as documents.
pub record HadoopClusterSpec : Type 0 where
  pub image : ImageSpec
  pub hdfs : HdfsSpec
  pub yarn : YarnSpec
  pub config : HadoopConfig
  pub security : Document
  pub metrics : Document

-- ClusterPhase is a text; `unset` is the empty one.
-- The constants of the string type, the empty string (`unset`), and any other string.
pub data ClusterPhase : Type 0 where
  unset pending creating running failed deleting upgrading : ClusterPhase
  other_phase : String → ClusterPhase

-- The constants of the string type, and any other string.
pub data ClusterConditionType : Type 0 where
  ready progressing degraded : ClusterConditionType
  other_type : String → ClusterConditionType

-- corev1.ConditionStatus
pub data ConditionStatus : Type 0 where
  status_true status_false status_unknown : ConditionStatus

pub record ClusterCondition : Type 0 where
  pub condition_type : ClusterConditionType
  pub status : ConditionStatus
  pub last_transition_time : ℤ
  pub reason : String
  pub message : String

pub record NameNodeStatus : Type 0 where
  pub ready_replicas : ℤ
  pub replicas : ℤ
  pub active : String
  pub standby : List String

pub record DataNodeStatus : Type 0 where
  pub ready_replicas : ℤ
  pub replicas : ℤ
  pub live_nodes : ℤ
  pub dead_nodes : ℤ

pub record ResourceManagerStatus : Type 0 where
  pub ready_replicas : ℤ
  pub replicas : ℤ
  pub active : String
  pub standby : List String

pub record NodeManagerStatus : Type 0 where
  pub ready_replicas : ℤ
  pub replicas : ℤ

pub record HadoopClusterStatus : Type 0 where
  pub phase : ClusterPhase
  pub conditions : List ClusterCondition
  pub observed_generation : ℤ
  pub name_node : NameNodeStatus
  pub data_node : DataNodeStatus
  pub resource_manager : ResourceManagerStatus
  pub node_manager : NodeManagerStatus

-- Of the metadata: name, namespace, generation, the finalizers, and whether a deletion timestamp
-- is set.
pub record HadoopCluster : Type 0 where
  pub name : String
  pub namespace : String
  pub generation : ℤ
  pub finalizers : List String
  pub is_deleted : Bool
  pub spec : HadoopClusterSpec
  pub status : HadoopClusterStatus
