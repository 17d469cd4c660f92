-- ===== src/Trae/NodeManager.antt =====
-- pkg/resources/nodemanager.go. Of the options of the cluster only the node affinity is applied.
use work_script.Prelude.{pos, [], ◌∷◌}
use work_script.Kube.{Service}
use work_script.Trae.Types.{HadoopCluster}
use work_script.Trae.Api
use work_script.Trae.Env.{Env}
use work_script.Trae.Affinity.{expression_affinity, with_affinity}
use work_script.Trae.Workload.{
  Built, built, image_of, service_port, headless_service, container_port, value_env, config_mount,
  config_volume, resources_of, plain_set,
}

unfoldable pub new_node_manager_service : Env → HadoopCluster → Service
new_node_manager_service env cluster =
    headless_service env cluster "nodemanager" "hadoop-nodemanager"
      (service_port "web" (pos 8042) ∷ [])

unfoldable pub node_manager_container : HadoopCluster → Api.Container
node_manager_container cluster = record Api.zero_container {
  name = "nodemanager";
  image = image_of cluster;
  command = "yarn" ∷ "nodemanager" ∷ [];
  env = value_env "HADOOP_CONF_DIR" "/opt/hadoop/etc/hadoop" ∷ [];
  ports = container_port "web" (pos 8042) ∷ [];
  resources = resources_of cluster.spec.node_manager.resources;
  volume_mounts =
      config_mount "core-site.xml"
      ∷ config_mount "hdfs-site.xml"
      ∷ config_mount "yarn-site.xml"
      ∷ config_mount "mapred-site.xml"
      ∷ [];
}

unfoldable pub node_manager_pod : HadoopCluster → Api.PodSpec
unfolding node_manager_container
node_manager_pod cluster = record Api.zero_pod {
  containers = node_manager_container cluster ∷ [];
  volumes = config_volume cluster ∷ [];
}

unfoldable pub new_node_manager_stateful_set : Env → HadoopCluster → Api.StatefulSet
unfolding node_manager_pod expression_affinity
new_node_manager_stateful_set env cluster =
    plain_set env cluster "nodemanager" "hadoop-nodemanager" cluster.spec.node_manager.replicas
      (with_affinity expression_affinity cluster.spec.node_manager.affinity
        (node_manager_pod cluster))
      []

unfoldable pub new_node_manager_resources : Env → HadoopCluster → Built (Service × Api.StatefulSet)
unfolding new_node_manager_service new_node_manager_stateful_set
new_node_manager_resources env cluster =
    built (new_node_manager_service env cluster, new_node_manager_stateful_set env cluster)
