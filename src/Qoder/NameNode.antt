-- ===== src/Qoder/NameNode.antt =====
-- internal/reconciler/namenode.go: the NameNode's services and StatefulSet.
use text.Mathlib.Text.{◌==◌}
use work_script.Prelude.{
  ℤ, pos, ltb_ℤ, eq_ℤ, String, Bool, ◌&&◌, some, [], ◌∷◌, Dict, concat, if◌then◌else◌,
}
use work_script.Kube.{
  StatefulSetSpec, ResourceRequirements, Quantity, zero_container, KubeServiceSpec,
}
use work_script.Qoder.Types.{HadoopCluster, StorageSpec}
use work_script.Qoder.Program.{Program, Result, try, ret, ◌>>=◌}
use work_script.Qoder.Env.{Env}
use work_script.Qoder.Config.Names.{get_image, is_nn_ha}
use work_script.Qoder.Workload.{
  must_parse, with_default_resources, component_name, object_meta, pod_template_annotations,
  ensure_service, ensure_stateful_set, service_port, node_port, headless, external, http_get, mount,
  config_mount, logs_mount, config_volume, logs_volume, env_var, conf_dir_env, pod_name_env,
}

unfoldable pub labels_for_name_node : HadoopCluster → Dict String
labels_for_name_node cluster =
    ("app", "hadoop-namenode")
    ∷ ("hadoop.apache.org/cluster", cluster.name)
    ∷ ("hadoop.apache.org/component", "namenode")
    ∷ ("hadoop.apache.org/managed-by", "hadoop-operator")
    ∷ []

unfoldable pub name_node_headless_spec : HadoopCluster → KubeServiceSpec
unfolding labels_for_name_node
name_node_headless_spec cluster =
    headless (labels_for_name_node cluster)
      (service_port "rpc" (pos 9000) (pos 0) ∷ service_port "web" (pos 9870) (pos 0) ∷ [])

unfoldable pub name_node_external_spec : HadoopCluster → KubeServiceSpec
unfolding labels_for_name_node
name_node_external_spec cluster =
    let svc = cluster.spec.hdfs.name_node.service in
    let svc_type = if svc.service_type == "" then "NodePort" else svc.service_type in
    external svc_type (labels_for_name_node cluster) (
      service_port "rpc" (pos 9000) (node_port "rpc" svc.node_ports)
      ∷ service_port "web" (pos 9870) (node_port "web" svc.node_ports)
      ∷ [])

unfoldable pub reconcile_name_node_service : Env → HadoopCluster → Program (Result (Unit {0}))
unfolding name_node_headless_spec name_node_external_spec ensure_service
reconcile_name_node_service env cluster = do
  first ←
      ensure_service env cluster (object_meta cluster "namenode" (labels_for_name_node cluster) [])
        (name_node_headless_spec cluster)
  try first λ _.
      ensure_service env cluster
        (object_meta cluster "namenode-external" (labels_for_name_node cluster)
          cluster.spec.hdfs.name_node.service.annotations)
        (name_node_external_spec cluster)

unfoldable pub name_node_replicas : ℤ → Bool → ℤ
name_node_replicas given is_ha =
    let replicas = if eq_ℤ given (pos 0) then pos 1 else given in
    if is_ha && ltb_ℤ replicas (pos 2) then pos 2 else replicas

abbrev ha_init_script : String
ha_init_script = concat (
    "\n" ∷ "set -e\n" ∷ "echo \"Initializing NameNode in HA mode...\"\n"
    ∷ "mkdir -p /opt/hadoop/data/nn\n"
    ∷ "chown -R hadoop:hadoop /opt/hadoop/data || chown -R 1000:1000 /opt/hadoop/data\n"
    ∷ "chmod -R 775 /opt/hadoop/data\n" ∷ "\n"
    ∷ "# For HA mode, formatting is handled differently\n"
    ∷ "if [ \"${POD_NAME##*-}\" = \"0\" ] && [ ! -f /opt/hadoop/data/nn/current/VERSION ]; then\n"
    ∷ "    echo \"Formatting NameNode on first instance...\"\n"
    ∷ "    su hadoop -c \"hdfs namenode -format -nonInteractive -clusterId $(cat /proc/sys/kernel/random/uuid)\" || true\n"
    ∷ "fi\n" ∷ "echo \"Initialization complete\"\n" ∷ [])

abbrev plain_init_script : String
plain_init_script = concat (
    "\n" ∷ "set -e\n" ∷ "echo \"Initializing NameNode...\"\n" ∷ "mkdir -p /opt/hadoop/data/nn\n"
    ∷ "chown -R hadoop:hadoop /opt/hadoop/data || chown -R 1000:1000 /opt/hadoop/data\n"
    ∷ "chmod -R 775 /opt/hadoop/data\n" ∷ "\n"
    ∷ "if [ ! -f /opt/hadoop/data/nn/current/VERSION ]; then\n"
    ∷ "    echo \"Formatting NameNode...\"\n"
    ∷ "    su hadoop -c \"hdfs namenode -format -nonInteractive\"\n" ∷ "fi\n"
    ∷ "echo \"Initialization complete\"\n" ∷ [])

unfoldable pub get_name_node_init_script : Bool → String
get_name_node_init_script is_ha = if is_ha then ha_init_script else plain_init_script

unfoldable pub get_name_node_start_script : Bool → String
get_name_node_start_script is_ha = "exec hdfs namenode"

unfoldable pub storage_size : StorageSpec → String → String
storage_size storage size = if storage.size == "" then size else storage.size

unfoldable pub access_mode : StorageSpec → String
access_mode storage = if storage.access_mode == "" then "ReadWriteOnce" else storage.access_mode

unfoldable pub name_node_spec :
    HadoopCluster → ResourceRequirements → Dict String → Quantity → StatefulSetSpec
unfolding labels_for_name_node name_node_replicas get_name_node_init_script
    get_name_node_start_script access_mode
name_node_spec cluster resources annotations size =
    let is_ha = is_nn_ha cluster in
    record {
      service_name = component_name cluster "namenode";
      replicas = some (name_node_replicas cluster.spec.hdfs.name_node.replicas is_ha);
      selector = labels_for_name_node cluster;
      update_strategy = "RollingUpdate";
      template = record {
        labels = labels_for_name_node cluster;
        annotations = annotations;
        spec = record {
          image_pull_secrets = cluster.spec.image.pull_secrets;
          affinity = cluster.spec.hdfs.name_node.affinity;
          tolerations = cluster.spec.hdfs.name_node.tolerations;
          fs_group = some (pos 1000);
          termination_grace_period_seconds = some (pos 60);
          init_containers =
              record zero_container {
                name = "init-namenode";
                image = get_image cluster;
                image_pull_policy = cluster.spec.image.pull_policy;
                run_as_user = some (pos 0);
                command = "/bin/bash" ∷ "-c" ∷ [];
                args = get_name_node_init_script is_ha ∷ [];
                env = [];
                ports = [];
                volume_mounts =
                    mount "namenode-data" "/opt/hadoop/data/nn" "nn" ∷ config_mount ∷ [];
              }
              ∷ [];
          containers =
              record zero_container {
                name = "namenode";
                image = get_image cluster;
                image_pull_policy = cluster.spec.image.pull_policy;
                command = "/bin/bash" ∷ "-c" ∷ [];
                args = get_name_node_start_script is_ha ∷ [];
                env =
                    conf_dir_env ∷ env_var "HADOOP_LOG_DIR" "/opt/hadoop/logs" ∷ pod_name_env ∷ [];
                ports =
                    record { name = "rpc"; container_port = pos 9000 }
                    ∷ record { name = "web"; container_port = pos 9870 }
                    ∷ [];
                resources = resources;
                pre_stop = some ("/bin/bash" ∷ "-c" ∷ "sleep 10" ∷ []);
                liveness_probe = some (http_get "/jmx" (pos 120) (pos 30) (pos 10) (pos 5));
                readiness_probe = some (http_get "/jmx" (pos 40) (pos 10) (pos 5) (pos 3));
                volume_mounts =
                    mount "namenode-data" "/opt/hadoop/data/nn" "nn"
                    ∷ config_mount
                    ∷ logs_mount
                    ∷ [];
              }
              ∷ [];
          volumes = config_volume cluster ∷ logs_volume ∷ [];
        };
      };
      volume_claim_templates =
          record {
            name = "namenode-data";
            access_modes = access_mode cluster.spec.hdfs.name_node.storage ∷ [];
            requests = ("storage", size) ∷ [];
            storage_class_name = cluster.spec.hdfs.name_node.storage.storage_class_name;
          }
          ∷ [];
    }

unfoldable pub reconcile_name_node : Env → HadoopCluster → Program (Result (Unit {0}))
unfolding name_node_spec with_default_resources pod_template_annotations ensure_stateful_set
    storage_size
reconcile_name_node env cluster = do
  resources ← with_default_resources env cluster.spec.hdfs.name_node.resources
  ensure_stateful_set env cluster (object_meta cluster "namenode" (labels_for_name_node cluster) [])
      do
        annotations ← pod_template_annotations env cluster
        must_parse env (storage_size cluster.spec.hdfs.name_node.storage "20Gi")
            λ size. ret (name_node_spec cluster resources annotations size)
