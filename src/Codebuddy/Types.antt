-- ===== src/Codebuddy/Types.antt =====
-- hadoop-dev-codebuddy/operator/pkg/apis/hadoop/v1/hadoopcluster_types.go: the fields of the
-- HadoopCluster that the webhook reads or sets. All other fields of a type are one document, which
-- the webhook never looks into. An int32 or int64 is a ℤ, a pointer an Option.
use work_script.Prelude.{ℤ, String, Bool, Option}
use work_script.Kube.{Document}

pub record NameNodePorts : Type 0 where
  pub rpc_port : ℤ
  pub http_port : ℤ
  pub https_port : ℤ

pub record NameNodeSpec : Type 0 where
  pub replicas : ℤ
  pub image : String
  pub image_pull_policy : String
  pub service_type : String
  pub name_dir : String
  pub ports : Option NameNodePorts
  pub rest : Document

pub record DataNodePorts : Type 0 where
  pub data_port : ℤ
  pub ipc_port : ℤ
  pub http_port : ℤ
  pub https_port : ℤ

pub record DataNodeSpec : Type 0 where
  pub replicas : ℤ
  pub image : String
  pub image_pull_policy : String
  pub volumes_per_node : ℤ
  pub ports : Option DataNodePorts
  pub rest : Document

pub record JournalNodePorts : Type 0 where
  pub rpc_port : ℤ
  pub http_port : ℤ

pub record JournalNodeSpec : Type 0 where
  pub replicas : ℤ
  pub image : String
  pub image_pull_policy : String
  pub ports : Option JournalNodePorts
  pub rest : Document

pub record ResourceManagerPorts : Type 0 where
  pub rpc_port : ℤ
  pub http_port : ℤ
  pub https_port : ℤ
  pub scheduler_port : ℤ

pub record ResourceManagerSpec : Type 0 where
  pub replicas : ℤ
  pub image : String
  pub image_pull_policy : String
  pub service_type : String
  pub ports : Option ResourceManagerPorts
  pub rest : Document

pub record NodeManagerPorts : Type 0 where
  pub http_port : ℤ
  pub https_port : ℤ
  pub localizer_port : ℤ
  pub shuffle_port : ℤ

pub record NodeManagerSpec : Type 0 where
  pub replicas : ℤ
  pub image : String
  pub image_pull_policy : String
  pub ports : Option NodeManagerPorts
  pub rest : Document

pub record HBaseMasterPorts : Type 0 where
  pub web_ui_port : ℤ
  pub port : ℤ

pub record HBaseMasterSpec : Type 0 where
  pub replicas : ℤ
  pub image : String
  pub ports : Option HBaseMasterPorts
  pub rest : Document

pub record HBaseRegionServerPorts : Type 0 where
  pub web_ui_port : ℤ
  pub port : ℤ

pub record HBaseRegionServerSpec : Type 0 where
  pub replicas : ℤ
  pub image : String
  pub volumes_per_node : ℤ
  pub ports : Option HBaseRegionServerPorts
  pub rest : Document

pub record HBaseSpec : Type 0 where
  pub enabled : Bool
  pub master_spec : Option HBaseMasterSpec
  pub region_server_spec : Option HBaseRegionServerSpec
  pub rest : Document

pub record NameNodeHaConfig : Type 0 where
  pub enabled : Bool
  pub replicas : ℤ
  pub rest : Document

pub record ResourceManagerHaConfig : Type 0 where
  pub enabled : Bool
  pub replicas : ℤ
  pub rest : Document

pub record HaConfig : Type 0 where
  pub name_node_ha : Option NameNodeHaConfig
  pub resource_manager_ha : Option ResourceManagerHaConfig
  pub rest : Document

pub record ClusterConfigSpec : Type 0 where
  pub replication_factor : ℤ
  pub block_size : ℤ
  pub rest : Document

pub record HadoopClusterSpec : Type 0 where
  pub image : String
  pub image_pull_policy : String
  pub service_account_name : String
  pub cluster_config : Option ClusterConfigSpec
  pub name_node_spec : Option NameNodeSpec
  pub data_node_spec : Option DataNodeSpec
  pub journal_node_spec : Option JournalNodeSpec
  pub resource_manager_spec : Option ResourceManagerSpec
  pub node_manager_spec : Option NodeManagerSpec
  pub h_base_spec : Option HBaseSpec
  pub ha : Option HaConfig
  pub rest : Document
