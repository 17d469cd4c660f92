-- ===== src/Qoder/JournalNode.antt =====
-- internal/reconciler/ha.go: the JournalNodes.

use work_script.Prelude.{ℤ, pos, ltb_ℤ, String, Option, none, some, [], ◌∷◌, Dict, if◌then◌else◌}
use work_script.Kube.{
  StatefulSetSpec, ResourceRequirements, Quantity, zero_container, KubeServiceSpec,
}
use work_script.Qoder.Types.{HadoopCluster, HaSpec, JournalNodeSpec}
use work_script.Qoder.Program.{Program, Result, ok, try, ret, ◌>>=◌}
use work_script.Qoder.Env.{Env}
use work_script.Qoder.Config.Names.{get_image}
use work_script.Qoder.NameNode.{storage_size}
use work_script.Qoder.Workload.{
  must_parse, with_defaults, component_name, object_meta, pod_template_annotations, ensure_service,
  ensure_stateful_set, service_port, headless, http_get, mount, config_mount, config_volume,
  conf_dir_env,
}

unfoldable pub labels_for_journal_node : HadoopCluster → Dict String
labels_for_journal_node cluster =
    ("app", "hadoop-journalnode")
    ∷ ("hadoop.apache.org/cluster", cluster.name)
    ∷ ("hadoop.apache.org/component", "journalnode")
    ∷ ("hadoop.apache.org/managed-by", "hadoop-operator")
    ∷ []

unfoldable pub journal_node_replicas : ℤ → ℤ
journal_node_replicas given = if ltb_ℤ given (pos 3) then pos 3 else given

unfoldable pub journal_node_service_spec : HadoopCluster → KubeServiceSpec
unfolding labels_for_journal_node
journal_node_service_spec cluster =
    headless (labels_for_journal_node cluster)
      (service_port "rpc" (pos 8485) (pos 0) ∷ service_port "web" (pos 8480) (pos 0) ∷ [])

-- The requests 250m and 1Gi, and the limits 500m and 2Gi, unless the cluster gives its own.
unfoldable pub journal_node_resources : Env → ResourceRequirements → Program ResourceRequirements
unfolding with_defaults
journal_node_resources env resources = with_defaults env resources "250m" "1Gi" "500m" "2Gi"

unfoldable pub journal_node_spec :
    HadoopCluster
    → JournalNodeSpec
    → ResourceRequirements
    → Dict String
    → Quantity
    → StatefulSetSpec
unfolding labels_for_journal_node journal_node_replicas
journal_node_spec cluster spec resources annotations size = record {
  service_name = component_name cluster "journalnode";
  replicas = some (journal_node_replicas spec.replicas);
  selector = labels_for_journal_node cluster;
  update_strategy = "RollingUpdate";
  template = record {
    labels = labels_for_journal_node cluster;
    annotations = annotations;
    spec = record {
      image_pull_secrets = cluster.spec.image.pull_secrets;
      affinity = none;
      tolerations = [];
      fs_group = some (pos 1000);
      termination_grace_period_seconds = some (pos 30);
      init_containers = [];
      containers =
          record zero_container {
            name = "journalnode";
            image = get_image cluster;
            image_pull_policy = cluster.spec.image.pull_policy;
            command = "hdfs" ∷ "journalnode" ∷ [];
            args = [];
            env = conf_dir_env ∷ [];
            ports =
                record { name = "rpc"; container_port = pos 8485 }
                ∷ record { name = "web"; container_port = pos 8480 }
                ∷ [];
            resources = resources;
            liveness_probe = some (http_get "/" (pos 60) (pos 30) (pos 0) (pos 0));
            readiness_probe = some (http_get "/" (pos 30) (pos 10) (pos 0) (pos 0));
            volume_mounts = mount "journalnode-data" "/opt/hadoop/data/jn" "" ∷ config_mount ∷ [];
          }
          ∷ [];
      volumes = config_volume cluster ∷ [];
    };
  };
  volume_claim_templates =
      record {
        name = "journalnode-data";
        access_modes = "ReadWriteOnce" ∷ [];
        requests = ("storage", size) ∷ [];
        storage_class_name = spec.storage.storage_class_name;
      }
      ∷ [];
}

unfoldable pub journal_node_program :
    Env → HadoopCluster → JournalNodeSpec → Program (Result (Unit {0}))
journal_node_program env cluster spec = do
  first ←
      ensure_service env cluster
        (object_meta cluster "journalnode" (labels_for_journal_node cluster) [])
        (journal_node_service_spec cluster)
  try first λ _. do
    resources ← journal_node_resources env spec.resources
    ensure_stateful_set env cluster
        (object_meta cluster "journalnode" (labels_for_journal_node cluster) [])
        do
          annotations ← pod_template_annotations env cluster
          must_parse env (storage_size spec.storage "20Gi")
              λ size. ret (journal_node_spec cluster spec resources annotations size)

-- JournalNodes only where the NameNode is in HA mode.
unfoldable pub journal_node_of : Env → HadoopCluster → Option HaSpec → Program (Result (Unit {0}))
unfolding journal_node_program
journal_node_of env cluster none = ret (ok tt)
journal_node_of env cluster (some ha) =
    if ha.enabled then journal_node_program env cluster ha.journal_node else ret (ok tt)

unfoldable pub reconcile_journal_node : Env → HadoopCluster → Program (Result (Unit {0}))
unfolding journal_node_of journal_node_service_spec journal_node_spec journal_node_resources
    pod_template_annotations ensure_service ensure_stateful_set storage_size
reconcile_journal_node env cluster = journal_node_of env cluster cluster.spec.hdfs.name_node.ha
