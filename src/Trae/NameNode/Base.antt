-- ===== src/Trae/NameNode/Base.antt =====
-- pkg/resources/namenode.go: the service, and the StatefulSet before the options of the cluster are
-- applied to it.
use work_script.Prelude.{pos, String, some, List, [], ◌∷◌, Dict, merge, concat}
use work_script.Kube.{Service, VolumeMount, Volume, empty_dir}
use work_script.Trae.Types.{HadoopCluster}
use work_script.Trae.Api
use work_script.Trae.Env.{Env}
use work_script.Trae.Workload.{
  image_of, or_one, object_name, labels_of, meta_of, service_port, headless_service, container_port,
  value_env, config_mount, config_volume, http_probe, resources_of,
}

unfoldable pub new_name_node_service : Env → HadoopCluster → Service
new_name_node_service env cluster =
    headless_service env cluster "namenode" "hadoop-namenode"
      (service_port "web" (pos 9870) ∷ service_port "rpc" (pos 9000) ∷ [])

-- The labels, with those that the cluster adds or replaces.
unfoldable pub name_node_labels : HadoopCluster → Dict String
unfolding merge
name_node_labels cluster =
    merge cluster.spec.name_node.pod_labels (labels_of cluster "hadoop-namenode")

unfoldable pub name_node_init_script : String
name_node_init_script = concat (
    "set -e\n" ∷ "\t\t\t\t\t\t\t\techo \"Step 1: Preparing directories and permissions...\"\n"
    ∷ "\t\t\t\t\t\t\t\tmkdir -p /opt/hadoop/data/nn\n" ∷ "\t\t\t\t\t\t\t\t# 确保 hadoop 用户拥有数据目录权限\n"
    ∷ "\t\t\t\t\t\t\t\tchown -R hadoop:hadoop /opt/hadoop/data\n"
    ∷ "\t\t\t\t\t\t\t\techo \"Step 2: Checking if NameNode needs formatting...\"\n"
    ∷ "\t\t\t\t\t\t\t\tif [ ! -f /opt/hadoop/data/nn/current/VERSION ]; then\n"
    ∷ "\t\t\t\t\t\t\t\t  echo \"No VERSION file found. Formatting NameNode...\"\n"
    ∷ "\t\t\t\t\t\t\t\t  # 使用非交互模式强制格式化\n"
    ∷ "\t\t\t\t\t\t\t\t  su hadoop -c \"hdfs namenode -format -nonInteractive\"\n"
    ∷ "\t\t\t\t\t\t\t\t  echo \"Formatting completed successfully.\"\n" ∷ "\t\t\t\t\t\t\t\telse\n"
    ∷ "\t\t\t\t\t\t\t\t  echo \"NameNode already formatted (VERSION file exists). Skipping.\"\n"
    ∷ "\t\t\t\t\t\t\t\t  grep -i \"clusterID\" /opt/hadoop/data/nn/current/VERSION\n"
    ∷ "\t\t\t\t\t\t\t\tfi" ∷ [])

abbrev pub name_node_data_mount : VolumeMount
name_node_data_mount = record {
  name = "hadoop-nn-data";
  mount_path = "/opt/hadoop/data/nn";
  sub_path = "nn";
}

unfoldable pub init_name_node : HadoopCluster → Api.Container
init_name_node cluster = record Api.zero_container {
  name = "init-namenode";
  image = image_of cluster;
  command = "/bin/bash" ∷ "-c" ∷ [];
  args = name_node_init_script ∷ [];
  volume_mounts =
      name_node_data_mount ∷ config_mount "core-site.xml" ∷ config_mount "hdfs-site.xml" ∷ [];
}

unfoldable pub name_node_container : HadoopCluster → Api.Container
name_node_container cluster = record Api.zero_container {
  name = "namenode";
  image = image_of cluster;
  command = "/bin/bash" ∷ "-c" ∷ [];
  args = "exec hdfs namenode" ∷ [];
  env =
      value_env "HADOOP_CONF_DIR" "/opt/hadoop/etc/hadoop"
      ∷ value_env "HADOOP_LOG_DIR" "/opt/hadoop/logs"
      ∷ value_env "HADOOP_HEAPSIZE" "1024"
      ∷ [];
  ports = container_port "web" (pos 9870) ∷ container_port "rpc" (pos 9000) ∷ [];
  resources = resources_of cluster.spec.name_node.resources;
  readiness_probe = some (http_probe "/jmx" (pos 9870) (pos 40) (pos 10));
  liveness_probe = some (http_probe "/jmx" (pos 9870) (pos 100) (pos 30));
  volume_mounts =
      name_node_data_mount
      ∷ record { name = "hadoop-logs"; mount_path = "/opt/hadoop/logs"; sub_path = "" }
      ∷ config_mount "core-site.xml"
      ∷ config_mount "hdfs-site.xml"
      ∷ [];
}

abbrev pub logs_volume : Volume
logs_volume = record { name = "hadoop-logs"; source = empty_dir }

unfoldable pub name_node_pod : HadoopCluster → Api.PodSpec
unfolding init_name_node name_node_container
name_node_pod cluster = record Api.zero_pod {
  node_selector = cluster.spec.name_node.node_selector;
  init_containers = init_name_node cluster ∷ [];
  containers = name_node_container cluster ∷ [];
  volumes = config_volume cluster ∷ logs_volume ∷ [];
}

-- The literal around a pod and its claims.
unfoldable pub name_node_set :
    Env → HadoopCluster → Api.PodSpec → List Api.PersistentVolumeClaim → Api.StatefulSet
unfolding name_node_labels
name_node_set env cluster pod claims = record {
  metadata =
      meta_of env cluster "namenode" (name_node_labels cluster) cluster.spec.name_node.annotations;
  spec = record {
    service_name = object_name cluster "namenode";
    replicas = or_one cluster.spec.name_node.replicas;
    selector = name_node_labels cluster;
    template = record {
      labels = name_node_labels cluster;
      annotations = cluster.spec.name_node.annotations;
      spec = pod;
    };
    volume_claim_templates = claims;
  };
  status = Api.zero_status;
}
