-- ===== src/Codebuddy/Default.antt =====
-- hadoop-dev-codebuddy/operator/pkg/apis/hadoop/v1/hadoopcluster_webhook.go: Default, in the
-- order of the code: the components take the image and the pull policy that the cluster gives
-- before those have their own defaults.
pub mod Settling
use text.Mathlib.Text.{◌==◌}
use work_script.Prelude.{ℤ, pos, eq_ℤ, String, Bool, true, false, Option, none, some, if◌then◌else◌}
use work_script.Kube.{Document}
use work_script.Codebuddy.Types.{
  HadoopClusterSpec, NameNodeSpec, DataNodeSpec, JournalNodeSpec, ResourceManagerSpec,
  NodeManagerSpec, HBaseMasterSpec, HBaseRegionServerSpec, HBaseSpec, NameNodeHaConfig,
  ResourceManagerHaConfig, HaConfig, ClusterConfigSpec,
}

-- if x == "" { x = … }, if n == 0 { n = … }, if p == nil { p = … }, if p != nil { … }
abbrev pub or_text : String → String → String
or_text s default = if s == "" then default else s

abbrev pub or_int : ℤ → ℤ → ℤ
or_int n default = if eq_ℤ n (pos 0) then default else n

abbrev pub or_given {ℓ} : {A : Type ℓ} → Option A → A → Option A
or_given none default = some default
or_given (some a) default = some a

abbrev pub when_given {ℓ} : {A : Type ℓ} → (A → A) → Option A → Option A
when_given f none = none
when_given f (some a) = some (f a)

unfoldable pub default_name_node : HadoopClusterSpec → NameNodeSpec → NameNodeSpec
default_name_node cluster spec = record spec {
  replicas = or_int spec.replicas (pos 1);
  image = or_text spec.image cluster.image;
  image_pull_policy = or_text spec.image_pull_policy cluster.image_pull_policy;
  service_type = or_text spec.service_type "ClusterIP";
  name_dir = or_text spec.name_dir "/tmp/hadoop/dfs/name";
  ports =
      or_given spec.ports
        (record { rpc_port = pos 9000; http_port = pos 9870; https_port = pos 9871 });
}

unfoldable pub default_data_node : HadoopClusterSpec → DataNodeSpec → DataNodeSpec
default_data_node cluster spec = record spec {
  replicas = or_int spec.replicas (pos 3);
  image = or_text spec.image cluster.image;
  image_pull_policy = or_text spec.image_pull_policy cluster.image_pull_policy;
  volumes_per_node = or_int spec.volumes_per_node (pos 1);
  ports = or_given spec.ports (record {
    data_port = pos 9866;
    ipc_port = pos 9867;
    http_port = pos 9864;
    https_port = pos 9865;
  });
}

unfoldable pub default_journal_node : HadoopClusterSpec → JournalNodeSpec → JournalNodeSpec
default_journal_node cluster spec = record spec {
  replicas = or_int spec.replicas (pos 3);
  image = or_text spec.image cluster.image;
  image_pull_policy = or_text spec.image_pull_policy cluster.image_pull_policy;
  ports = or_given spec.ports (record { rpc_port = pos 8485; http_port = pos 8480 });
}

unfoldable pub default_resource_manager :
    HadoopClusterSpec → ResourceManagerSpec → ResourceManagerSpec
default_resource_manager cluster spec = record spec {
  replicas = or_int spec.replicas (pos 1);
  image = or_text spec.image cluster.image;
  image_pull_policy = or_text spec.image_pull_policy cluster.image_pull_policy;
  service_type = or_text spec.service_type "ClusterIP";
  ports = or_given spec.ports (record {
    rpc_port = pos 8032;
    http_port = pos 8088;
    https_port = pos 8090;
    scheduler_port = pos 8030;
  });
}

unfoldable pub default_node_manager : HadoopClusterSpec → NodeManagerSpec → NodeManagerSpec
default_node_manager cluster spec = record spec {
  replicas = or_int spec.replicas (pos 3);
  image = or_text spec.image cluster.image;
  image_pull_policy = or_text spec.image_pull_policy cluster.image_pull_policy;
  ports = or_given spec.ports (record {
    http_port = pos 8042;
    https_port = pos 8044;
    localizer_port = pos 8040;
    shuffle_port = pos 13562;
  });
}

unfoldable pub default_h_base_master : HadoopClusterSpec → HBaseMasterSpec → HBaseMasterSpec
default_h_base_master cluster spec = record spec {
  replicas = or_int spec.replicas (pos 1);
  image = or_text spec.image cluster.image;
  ports = or_given spec.ports (record { web_ui_port = pos 16010; port = pos 16000 });
}

unfoldable pub default_h_base_region_server :
    HadoopClusterSpec → HBaseRegionServerSpec → HBaseRegionServerSpec
default_h_base_region_server cluster spec = record spec {
  replicas = or_int spec.replicas (pos 3);
  image = or_text spec.image cluster.image;
  volumes_per_node = or_int spec.volumes_per_node (pos 1);
  ports = or_given spec.ports (record { web_ui_port = pos 16030; port = pos 16020 });
}

unfoldable pub default_h_base : HadoopClusterSpec → HBaseSpec → HBaseSpec
unfolding default_h_base_master default_h_base_region_server
default_h_base cluster spec =
    if spec.enabled
    then record spec {
      master_spec = when_given (default_h_base_master cluster) spec.master_spec;
      region_server_spec =
          when_given (default_h_base_region_server cluster) spec.region_server_spec;
    }
    else spec

-- HA.NameNodeHA != nil && HA.NameNodeHA.Enabled
abbrev pub name_node_ha_of : Option NameNodeHaConfig → Bool
name_node_ha_of none = false
name_node_ha_of (some config) = config.enabled

abbrev pub resource_manager_ha_of : Option ResourceManagerHaConfig → Bool
resource_manager_ha_of none = false
resource_manager_ha_of (some config) = config.enabled

unfoldable pub is_name_node_ha : Option HaConfig → Bool
is_name_node_ha none = false
is_name_node_ha (some ha) = name_node_ha_of ha.name_node_ha

unfoldable pub is_resource_manager_ha : Option HaConfig → Bool
is_resource_manager_ha none = false
is_resource_manager_ha (some ha) = resource_manager_ha_of ha.resource_manager_ha

unfoldable pub default_name_node_ha : NameNodeHaConfig → NameNodeHaConfig
default_name_node_ha config =
    if config.enabled then record config { replicas = or_int config.replicas (pos 2) } else config

unfoldable pub default_resource_manager_ha : ResourceManagerHaConfig → ResourceManagerHaConfig
default_resource_manager_ha config =
    if config.enabled then record config { replicas = or_int config.replicas (pos 2) } else config

unfoldable pub default_ha : HaConfig → HaConfig
unfolding default_name_node_ha default_resource_manager_ha
default_ha ha = record ha {
  name_node_ha = when_given default_name_node_ha ha.name_node_ha;
  resource_manager_ha = when_given default_resource_manager_ha ha.resource_manager_ha;
}

-- &JournalNodeSpec{Replicas: 3}; the document of the other fields is the empty one.
abbrev pub zero_journal_node : JournalNodeSpec
zero_journal_node = record {
  replicas = pos 3;
  image = "";
  image_pull_policy = "";
  ports = none;
  rest = record { text = "" };
}

-- Enable JournalNode if not set
unfoldable pub enable_journal_node : Bool → Option JournalNodeSpec → Option JournalNodeSpec
enable_journal_node ha spec = if ha then or_given spec zero_journal_node else spec

unfoldable pub default_cluster_config : ClusterConfigSpec → ClusterConfigSpec
default_cluster_config config = record config {
  replication_factor = or_int config.replication_factor (pos 3);
  block_size = or_int config.block_size (pos 134217728);
}

-- Default
unfoldable pub default : HadoopClusterSpec → HadoopClusterSpec
unfolding default_name_node default_data_node default_journal_node default_resource_manager
    default_node_manager default_h_base is_name_node_ha default_ha enable_journal_node
    default_cluster_config
default cluster = record cluster {
  name_node_spec = when_given (default_name_node cluster) cluster.name_node_spec;
  data_node_spec = when_given (default_data_node cluster) cluster.data_node_spec;
  journal_node_spec =
      enable_journal_node (is_name_node_ha cluster.ha)
        (when_given (default_journal_node cluster) cluster.journal_node_spec);
  resource_manager_spec =
      when_given (default_resource_manager cluster) cluster.resource_manager_spec;
  node_manager_spec = when_given (default_node_manager cluster) cluster.node_manager_spec;
  h_base_spec = when_given (default_h_base cluster) cluster.h_base_spec;
  image = or_text cluster.image "apache/hadoop:3.4.1";
  image_pull_policy = or_text cluster.image_pull_policy "IfNotPresent";
  service_account_name = or_text cluster.service_account_name "hadoop-operator";
  ha = when_given default_ha cluster.ha;
  cluster_config = when_given default_cluster_config cluster.cluster_config;
}
