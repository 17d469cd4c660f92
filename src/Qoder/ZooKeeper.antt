-- ===== src/Qoder/ZooKeeper.antt =====
-- internal/reconciler/ha.go: the internal ZooKeeper.

use work_script.Prelude.{pos, String, Option, none, some, [], ◌∷◌, Dict, concat}
use work_script.Kube.{StatefulSetSpec, Quantity, zero_container, KubeServiceSpec}
use work_script.Qoder.Types.{HadoopCluster}
use work_script.Qoder.Program.{Program, Result, ok, try, ret, ◌>>=◌}
use work_script.Qoder.Env.{Env}
use work_script.Qoder.Config.Names.{pod_address, external_zoo_keeper}
use work_script.Qoder.Workload.{
  must_parse, component_name, object_meta, ensure_service, ensure_stateful_set, service_port,
  headless, mount, env_var, pod_name_env,
}

unfoldable pub labels_for_zoo_keeper : HadoopCluster → Dict String
labels_for_zoo_keeper cluster =
    ("app", "zookeeper")
    ∷ ("hadoop.apache.org/cluster", cluster.name)
    ∷ ("hadoop.apache.org/component", "zookeeper")
    ∷ ("hadoop.apache.org/managed-by", "hadoop-operator")
    ∷ []

-- The pieces of one round of the loop over i = 0, 1, 2.
abbrev zoo_keeper_server : HadoopCluster → String → String → String
zoo_keeper_server cluster number index =
    concat ("server." ∷ number ∷ "=" ∷ pod_address cluster "zookeeper" index ":2888:3888" ∷ [])

unfoldable pub get_zoo_keeper_servers : HadoopCluster → String
get_zoo_keeper_servers cluster = concat (
    zoo_keeper_server cluster "1" "0"
    ∷ " "
    ∷ zoo_keeper_server cluster "2" "1"
    ∷ " "
    ∷ zoo_keeper_server cluster "3" "2"
    ∷ [])

unfoldable pub zoo_keeper_service_spec : HadoopCluster → KubeServiceSpec
unfolding labels_for_zoo_keeper
zoo_keeper_service_spec cluster = headless (labels_for_zoo_keeper cluster) (
    service_port "client" (pos 2181) (pos 0)
    ∷ service_port "peer" (pos 2888) (pos 0)
    ∷ service_port "election" (pos 3888) (pos 0)
    ∷ [])

unfoldable pub zoo_keeper_spec : HadoopCluster → Quantity → StatefulSetSpec
unfolding labels_for_zoo_keeper get_zoo_keeper_servers
zoo_keeper_spec cluster size = record {
  service_name = component_name cluster "zookeeper";
  replicas = some (pos 3);
  selector = labels_for_zoo_keeper cluster;
  update_strategy = "";
  template = record {
    labels = labels_for_zoo_keeper cluster;
    annotations = [];
    spec = record {
      image_pull_secrets = cluster.spec.image.pull_secrets;
      affinity = none;
      tolerations = [];
      fs_group = none;
      termination_grace_period_seconds = some (pos 30);
      init_containers = [];
      containers =
          record zero_container {
            name = "zookeeper";
            image = "zookeeper:3.8";
            image_pull_policy = "IfNotPresent";
            command = [];
            args = [];
            env =
                env_var "ZOO_MY_ID" "$(POD_NAME)-zookeeper-"
                ∷ env_var "ZOO_SERVERS" (get_zoo_keeper_servers cluster)
                ∷ pod_name_env
                ∷ [];
            ports =
                record { name = "client"; container_port = pos 2181 }
                ∷ record { name = "peer"; container_port = pos 2888 }
                ∷ record { name = "election"; container_port = pos 3888 }
                ∷ [];
            volume_mounts = mount "data" "/data" "" ∷ [];
          }
          ∷ [];
      volumes = [];
    };
  };
  volume_claim_templates =
      record {
        name = "data";
        access_modes = "ReadWriteOnce" ∷ [];
        requests = ("storage", size) ∷ [];
        storage_class_name = none;
      }
      ∷ [];
}

unfoldable pub zoo_keeper_program : Env → HadoopCluster → Program (Result (Unit {0}))
zoo_keeper_program env cluster = do
  first ←
      ensure_service env cluster
        (object_meta cluster "zookeeper" (labels_for_zoo_keeper cluster) [])
        (zoo_keeper_service_spec cluster)
  try first λ _.
      ensure_stateful_set env cluster
        (object_meta cluster "zookeeper" (labels_for_zoo_keeper cluster) [])
        (must_parse env "10Gi" λ size. ret (zoo_keeper_spec cluster size))

-- Deployed unless an external ZooKeeper is configured.
unfoldable pub zoo_keeper_unless : Env → HadoopCluster → Option String → Program (Result (Unit {0}))
unfolding zoo_keeper_program
zoo_keeper_unless env cluster (some connection) = ret (ok tt)
zoo_keeper_unless env cluster none = zoo_keeper_program env cluster

unfoldable pub reconcile_zoo_keeper : Env → HadoopCluster → Program (Result (Unit {0}))
unfolding zoo_keeper_unless external_zoo_keeper zoo_keeper_service_spec zoo_keeper_spec
    ensure_service ensure_stateful_set
reconcile_zoo_keeper env cluster =
    zoo_keeper_unless env cluster (external_zoo_keeper cluster.spec.hdfs.name_node.ha)
