-- ===== src/Codebuddy/Tests.antt =====
-- The statements on the webhook of hadoop-dev-codebuddy/operator at sample specs.

use work_script.Prelude.{◌≡◌, refl, ◌↔◌, pos, String, true, Option, none, some}
use work_script.Kube.{Document}
use work_script.Codebuddy.Types.{
  HadoopClusterSpec, NameNodeSpec, DataNodeSpec, HaConfig, ClusterConfigSpec,
}
use work_script.Codebuddy.Default.{default, is_name_node_ha, enable_journal_node}
use work_script.Codebuddy.Default.Settling.{default-settles, default-default}
use work_script.Codebuddy.Validate.{
  accepted, wrong_type, validate_hadoop_cluster, validate_create, validate_update,
}
use work_script.Codebuddy.Validate.Valid.{Valid, webhook-Valid}
use work_script.Codebuddy.Validate.Defaulted.{default-accepted, defaulted_ha-rejected}

abbrev no_document : Document
no_document = record { text = "" }

abbrev name_node : NameNodeSpec
name_node = record {
  replicas = pos 0;
  image = "";
  image_pull_policy = "";
  service_type = "";
  name_dir = "";
  ports = none;
  rest = no_document;
}

abbrev data_node : DataNodeSpec
data_node = record {
  replicas = pos 3;
  image = "";
  image_pull_policy = "";
  volumes_per_node = pos 0;
  ports = none;
  rest = no_document;
}

abbrev in_ha_mode : HaConfig
in_ha_mode = record {
  name_node_ha = some (record { enabled = true; replicas = pos 0; rest = no_document });
  resource_manager_ha = none;
  rest = no_document;
}

abbrev factor_two : ClusterConfigSpec
factor_two = record { replication_factor = pos 2; block_size = pos 0; rest = no_document }

-- A cluster with a NameNode and DataNodes, and one whose image and mode are given.
abbrev cluster : String → String → Option HaConfig → HadoopClusterSpec
cluster image policy ha = record {
  image = image;
  image_pull_policy = policy;
  service_account_name = "";
  cluster_config = some factor_two;
  name_node_spec = some name_node;
  data_node_spec = some data_node;
  journal_node_spec = none;
  resource_manager_spec = none;
  node_manager_spec = none;
  h_base_spec = none;
  ha = ha;
  rest = no_document;
}

exactly_example :
    ((validate_create (cluster "" "" none) ≡ accepted) ↔ Valid (cluster "" "" none))
    × ((validate_update (some (cluster "hadoop:1" "" none)) (cluster "" "" none) ≡ accepted)
        ↔ Valid (cluster "" "" none))
    × (validate_update none (cluster "" "" none) ≡ wrong_type)
exactly_example = webhook-Valid (cluster "" "" none) (cluster "hadoop:1" "" none)

settles_example :
    default (default (default (cluster "" "" (some in_ha_mode))))
    ≡ default (default (cluster "" "" (some in_ha_mode)))
settles_example = default-settles (cluster "" "" (some in_ha_mode))

default_twice_example :
    default (default (cluster "hadoop:1" "Always" none))
    ≡ default (cluster "hadoop:1" "Always" none)
unfolding enable_journal_node is_name_node_ha
default_twice_example = default-default (cluster "hadoop:1" "Always" none) refl refl refl

accepted_example : validate_hadoop_cluster (default (cluster "" "" none)) ≡ accepted
unfolding validate_hadoop_cluster
accepted_example = default-accepted (cluster "" "" none) refl

ha_rejected_example :
    ¬ (validate_hadoop_cluster (default (cluster "" "" (some in_ha_mode))) ≡ accepted)
unfolding is_name_node_ha
ha_rejected_example =
    defaulted_ha-rejected (cluster "" "" (some in_ha_mode)) name_node refl refl refl
