-- ===== src/Trae/DataNode.antt =====
-- pkg/resources/datanode.go. Of the options of the cluster only the node affinity is applied.
use work_script.Prelude.{pos, String, none, some, [], ◌∷◌, concat}
use work_script.Kube.{Quantity, Service}
use work_script.Trae.Types.{HadoopCluster}
use work_script.Trae.Api
use work_script.Trae.Env.{Env}
use work_script.Trae.Affinity.{expression_affinity, with_affinity}
use work_script.Trae.Workload.{
  Built, built, panicked, and_then, image_of, service_port, headless_service, container_port,
  value_env, config_mount, config_volume, http_probe, resources_of, plain_set,
}

unfoldable pub new_data_node_service : Env → HadoopCluster → Service
new_data_node_service env cluster =
    headless_service env cluster "datanode" "hadoop-datanode"
      (service_port "web" (pos 9864) ∷ service_port "data" (pos 9866) ∷ [])

unfoldable pub wait_script : HadoopCluster → String
wait_script cluster = concat (
    "echo \"⏳ 正在检测 NameNode RPC 端口 (9000)...\"\n" ∷ "\t\t\t\t\t\t\t\twhile ! nc -z " ∷ cluster.name
    ∷ "-namenode-0." ∷ cluster.name ∷ "-namenode." ∷ cluster.namespace
    ∷ ".svc.cluster.local 9000; do\n" ∷ "\t\t\t\t\t\t\t\t  echo \"   等待 NameNode 响应中...\"\n"
    ∷ "\t\t\t\t\t\t\t\t  sleep 5\n" ∷ "\t\t\t\t\t\t\t\t\n" ∷ "done\n"
    ∷ "\t\t\t\t\t\t\t\techo \"✅ NameNode RPC 已就绪\"" ∷ [])

unfoldable pub permissions_script : String
permissions_script = concat (
    "echo \"🔧 正在准备数据目录并校准权限...\"\n" ∷ "\t\t\t\t\t\t\t\tmkdir -p /opt/hadoop/data/dn\n"
    ∷ "\t\t\t\t\t\t\t\t# 动态检测镜像内是否存在 hadoop 用户并授权\n"
    ∷ "\t\t\t\t\t\t\t\tif id \"hadoop\" >/dev/null 2>&1; then\n"
    ∷ "\t\t\t\t\t\t\t\t  echo \"检测到 hadoop 用户，执行 chown hadoop:hadoop\"\n"
    ∷ "\t\t\t\t\t\t\t\t  chown -R hadoop:hadoop /opt/hadoop/data\n" ∷ "\t\t\t\t\t\t\t\telse\n"
    ∷ "\t\t\t\t\t\t\t\t  echo \"未检测到 hadoop 用户，回退使用 UID 1000\"\n"
    ∷ "\t\t\t\t\t\t\t\t  chown -R 1000:1000 /opt/hadoop/data\n" ∷ "\t\t\t\t\t\t\t\tfi\n"
    ∷ "\t\t\t\t\t\t\t\t# 授予 775 权限确保 DataNode 内部检查通过\n"
    ∷ "\t\t\t\t\t\t\t\tchmod -R 775 /opt/hadoop/data\n" ∷ "\t\t\t\t\t\t\t\techo \"✅ 权限校准完成\"" ∷ [])

unfoldable pub data_node_script : String
data_node_script = concat (
    "export HADOOP_CONF_DIR=/opt/hadoop/etc/hadoop\n"
    ∷ "\t\t\t\t\t\t\t\techo \"🚀 启动 DataNode...\"\n" ∷ "\t\t\t\t\t\t\t\texec hdfs datanode" ∷ [])

unfoldable pub wait_for_name_node : HadoopCluster → Api.Container
wait_for_name_node cluster = record Api.zero_container {
  name = "wait-for-namenode";
  image = image_of cluster;
  command = "/bin/sh" ∷ "-c" ∷ [];
  args = wait_script cluster ∷ [];
}

unfoldable pub init_permissions : HadoopCluster → Api.Container
init_permissions cluster = record Api.zero_container {
  name = "init-permissions";
  image = image_of cluster;
  command = "/bin/sh" ∷ "-c" ∷ [];
  args = permissions_script ∷ [];
}

unfoldable pub data_node_container : HadoopCluster → Api.Container
data_node_container cluster = record Api.zero_container {
  name = "datanode";
  image = image_of cluster;
  command = "/bin/bash" ∷ "-c" ∷ [];
  args = data_node_script ∷ [];
  env = value_env "HADOOP_CONF_DIR" "/opt/hadoop/etc/hadoop" ∷ [];
  ports = container_port "web" (pos 9864) ∷ container_port "data" (pos 9866) ∷ [];
  resources = resources_of cluster.spec.data_node.resources;
  liveness_probe = some (http_probe "/" (pos 9864) (pos 60) (pos 20));
  readiness_probe = some (http_probe "/" (pos 9864) (pos 20) (pos 10));
  volume_mounts =
      record { name = "hadoop-dn-data"; mount_path = "/opt/hadoop/data/dn"; sub_path = "dn" }
      ∷ config_mount "core-site.xml"
      ∷ config_mount "hdfs-site.xml"
      ∷ config_mount "yarn-site.xml"
      ∷ [];
}

unfoldable pub data_node_pod : HadoopCluster → Api.PodSpec
unfolding wait_for_name_node init_permissions data_node_container
data_node_pod cluster = record Api.zero_pod {
  init_containers = wait_for_name_node cluster ∷ init_permissions cluster ∷ [];
  containers = data_node_container cluster ∷ [];
  volumes = config_volume cluster ∷ [];
}

abbrev pub read_size : Env → String → Built Quantity
read_size env text = elim (env.must_parse text) [
  | none ↦ panicked "cannot parse quantity"
  | some q ↦ built q
]

-- The one claim, of the size that the cluster asks for.
unfoldable pub data_node_claim : Env → HadoopCluster → Built Api.PersistentVolumeClaim
data_node_claim env cluster =
    let storage = env.data_node_storage cluster.spec.data_node in
    and_then (read_size env storage.size) λ size. built (record {
      name = "hadoop-dn-data";
      annotations = [];
      access_modes = "ReadWriteOnce" ∷ [];
      requests = some (("storage", size) ∷ []);
      storage_class_name = storage.storage_class;
      volume_name = "";
    })

unfoldable pub data_node_set : Env → HadoopCluster → Api.PersistentVolumeClaim → Api.StatefulSet
unfolding data_node_pod expression_affinity
data_node_set env cluster claim =
    plain_set env cluster "datanode" "hadoop-datanode" cluster.spec.data_node.replicas
      (with_affinity expression_affinity cluster.spec.data_node.affinity (data_node_pod cluster))
      (claim ∷ [])

unfoldable pub new_data_node_stateful_set : Env → HadoopCluster → Built Api.StatefulSet
unfolding data_node_claim data_node_set
new_data_node_stateful_set env cluster =
    and_then (data_node_claim env cluster) λ claim. built (data_node_set env cluster claim)

unfoldable pub new_data_node_resources : Env → HadoopCluster → Built (Service × Api.StatefulSet)
unfolding new_data_node_service new_data_node_stateful_set
new_data_node_resources env cluster =
    and_then (new_data_node_stateful_set env cluster)
      λ set. built (new_data_node_service env cluster, set)
