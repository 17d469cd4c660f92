-- ===== src/Qoder/DataNode.antt =====
-- internal/reconciler/datanode.go: the DataNode's services and StatefulSet.
use text.Mathlib.Text.{◌==◌}
use work_script.Prelude.{ℤ, pos, eq_ℤ, String, some, [], ◌∷◌, Dict, concat, if◌then◌else◌}
use work_script.Kube.{
  StatefulSetSpec, ResourceRequirements, Quantity, zero_container, KubeServiceSpec,
}
use work_script.Qoder.Types.{HadoopCluster}
use work_script.Qoder.Program.{Program, Result, try, ret, ◌>>=◌}
use work_script.Qoder.Env.{Env}
use work_script.Qoder.Config.Names.{get_image, nn_service}
use work_script.Qoder.NameNode.{storage_size, access_mode}
use work_script.Qoder.Workload.{
  must_parse, with_default_resources, component_name, object_meta, pod_template_annotations,
  ensure_service, ensure_stateful_set, service_port, node_port, headless, external, http_get, mount,
  config_mount, logs_mount, config_volume, logs_volume, conf_dir_env, pod_name_env,
}

unfoldable pub labels_for_data_node : HadoopCluster → Dict String
labels_for_data_node cluster =
    ("app", "hadoop-datanode")
    ∷ ("hadoop.apache.org/cluster", cluster.name)
    ∷ ("hadoop.apache.org/component", "datanode")
    ∷ ("hadoop.apache.org/managed-by", "hadoop-operator")
    ∷ []

unfoldable pub data_node_headless_spec : HadoopCluster → KubeServiceSpec
unfolding labels_for_data_node
data_node_headless_spec cluster =
    headless (labels_for_data_node cluster)
      (service_port "data" (pos 9866) (pos 0) ∷ service_port "web" (pos 9864) (pos 0) ∷ [])

unfoldable pub data_node_external_spec : HadoopCluster → KubeServiceSpec
unfolding labels_for_data_node
data_node_external_spec cluster =
    let svc = cluster.spec.hdfs.data_node.service in
    let svc_type = if svc.service_type == "" then "NodePort" else svc.service_type in
    external svc_type (labels_for_data_node cluster) (
      service_port "data" (pos 9866) (node_port "data" svc.node_ports)
      ∷ service_port "web" (pos 9864) (node_port "web" svc.node_ports)
      ∷ [])

unfoldable pub reconcile_data_node_service : Env → HadoopCluster → Program (Result (Unit {0}))
unfolding data_node_headless_spec data_node_external_spec ensure_service
reconcile_data_node_service env cluster = do
  first ←
      ensure_service env cluster (object_meta cluster "datanode" (labels_for_data_node cluster) [])
        (data_node_headless_spec cluster)
  try first λ _.
      ensure_service env cluster
        (object_meta cluster "datanode-external" (labels_for_data_node cluster)
          cluster.spec.hdfs.data_node.service.annotations)
        (data_node_external_spec cluster)

unfoldable pub data_node_replicas : ℤ → ℤ
data_node_replicas given = if eq_ℤ given (pos 0) then pos 3 else given

unfoldable pub wait_for_name_node : HadoopCluster → String
wait_for_name_node cluster = concat (
    "\n"
    ∷ "echo \"Waiting for NameNode...\"\n"
    ∷ "while ! nc -z "
    ∷ nn_service cluster
    ∷ " 9000; do\n"
    ∷ "  echo \"Waiting for NameNode...\"\n"
    ∷ "  sleep 5\n"
    ∷ "done\n"
    ∷ "echo \"NameNode is ready\"\n"
    ∷ [])

abbrev permissions_script : String
permissions_script = concat (
    "\n" ∷ "echo \"Preparing data directories...\"\n" ∷ "mkdir -p /opt/hadoop/data/dn\n"
    ∷ "if id \"hadoop\" >/dev/null 2>&1; then\n" ∷ "    chown -R hadoop:hadoop /opt/hadoop/data\n"
    ∷ "else\n" ∷ "    chown -R 1000:1000 /opt/hadoop/data\n" ∷ "fi\n"
    ∷ "chmod -R 775 /opt/hadoop/data\n" ∷ "echo \"Permissions set\"\n" ∷ [])

unfoldable pub data_node_spec :
    HadoopCluster → ResourceRequirements → Dict String → Quantity → StatefulSetSpec
unfolding labels_for_data_node data_node_replicas wait_for_name_node access_mode
data_node_spec cluster resources annotations size = record {
  service_name = component_name cluster "datanode";
  replicas = some (data_node_replicas cluster.spec.hdfs.data_node.replicas);
  selector = labels_for_data_node cluster;
  update_strategy = "RollingUpdate";
  template = record {
    labels = labels_for_data_node cluster;
    annotations = annotations;
    spec = record {
      image_pull_secrets = cluster.spec.image.pull_secrets;
      affinity = cluster.spec.hdfs.data_node.affinity;
      tolerations = cluster.spec.hdfs.data_node.tolerations;
      fs_group = some (pos 1000);
      termination_grace_period_seconds = some (pos 30);
      init_containers =
          record zero_container {
            name = "wait-for-namenode";
            image = get_image cluster;
            image_pull_policy = cluster.spec.image.pull_policy;
            command = "/bin/sh" ∷ "-c" ∷ [];
            args = wait_for_name_node cluster ∷ [];
            env = [];
            ports = [];
            volume_mounts = [];
          }
          ∷ record zero_container {
            name = "init-permissions";
            image = get_image cluster;
            image_pull_policy = cluster.spec.image.pull_policy;
            run_as_user = some (pos 0);
            command = "/bin/sh" ∷ "-c" ∷ [];
            args = permissions_script ∷ [];
            env = [];
            ports = [];
            volume_mounts = mount "datanode-data" "/opt/hadoop/data/dn" "dn" ∷ [];
          }
          ∷ [];
      containers =
          record zero_container {
            name = "datanode";
            image = get_image cluster;
            image_pull_policy = cluster.spec.image.pull_policy;
            run_as_user = some (pos 0);
            command = "/bin/bash" ∷ "-c" ∷ [];
            args = "export HADOOP_CONF_DIR=/opt/hadoop/etc/hadoop; exec hdfs datanode" ∷ [];
            env = conf_dir_env ∷ pod_name_env ∷ [];
            ports =
                record { name = "data"; container_port = pos 9866 }
                ∷ record { name = "web"; container_port = pos 9864 }
                ∷ [];
            resources = resources;
            pre_stop = some ("/bin/bash" ∷ "-c" ∷ "sleep 10" ∷ []);
            liveness_probe = some (http_get "/" (pos 60) (pos 20) (pos 10) (pos 5));
            readiness_probe = some (http_get "/" (pos 20) (pos 10) (pos 5) (pos 3));
            volume_mounts =
                mount "datanode-data" "/opt/hadoop/data/dn" "dn" ∷ config_mount ∷ logs_mount ∷ [];
          }
          ∷ [];
      volumes = config_volume cluster ∷ logs_volume ∷ [];
    };
  };
  volume_claim_templates =
      record {
        name = "datanode-data";
        access_modes = access_mode cluster.spec.hdfs.data_node.storage ∷ [];
        requests = ("storage", size) ∷ [];
        storage_class_name = cluster.spec.hdfs.data_node.storage.storage_class_name;
      }
      ∷ [];
}

unfoldable pub reconcile_data_node : Env → HadoopCluster → Program (Result (Unit {0}))
unfolding data_node_spec with_default_resources pod_template_annotations ensure_stateful_set
    storage_size
reconcile_data_node env cluster = do
  resources ← with_default_resources env cluster.spec.hdfs.data_node.resources
  ensure_stateful_set env cluster (object_meta cluster "datanode" (labels_for_data_node cluster) [])
      do
        annotations ← pod_template_annotations env cluster
        must_parse env (storage_size cluster.spec.hdfs.data_node.storage "100Gi")
            λ size. ret (data_node_spec cluster resources annotations size)
