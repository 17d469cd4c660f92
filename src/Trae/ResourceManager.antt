-- ===== src/Trae/ResourceManager.antt =====
-- pkg/resources/resourcemanager.go. Of the options of the cluster only the node affinity is applied.
use work_script.Prelude.{pos, [], ◌∷◌}
use work_script.Kube.{Service}
use work_script.Trae.Types.{HadoopCluster}
use work_script.Trae.Api
use work_script.Trae.Env.{Env}
use work_script.Trae.Affinity.{expression_affinity, with_affinity}
use work_script.Trae.Workload.{
  Built, built, image_of, service_port, headless_service, container_port, value_env, config_mount,
  config_volume, resources_of, plain_set,
}

unfoldable pub new_resource_manager_service : Env → HadoopCluster → Service
new_resource_manager_service env cluster =
    headless_service env cluster "resourcemanager" "hadoop-resourcemanager"
      (service_port "web" (pos 8088) ∷ service_port "rpc" (pos 8032) ∷ [])

unfoldable pub resource_manager_container : HadoopCluster → Api.Container
resource_manager_container cluster = record Api.zero_container {
  name = "resourcemanager";
  image = image_of cluster;
  command = "yarn" ∷ "resourcemanager" ∷ [];
  env = value_env "HADOOP_CONF_DIR" "/opt/hadoop/etc/hadoop" ∷ [];
  ports = container_port "web" (pos 8088) ∷ container_port "rpc" (pos 8032) ∷ [];
  resources = resources_of cluster.spec.resource_manager.resources;
  volume_mounts =
      config_mount "core-site.xml"
      ∷ config_mount "hdfs-site.xml"
      ∷ config_mount "yarn-site.xml"
      ∷ config_mount "mapred-site.xml"
      ∷ config_mount "capacity-scheduler.xml"
      ∷ [];
}

unfoldable pub resource_manager_pod : HadoopCluster → Api.PodSpec
unfolding resource_manager_container
resource_manager_pod cluster = record Api.zero_pod {
  containers = resource_manager_container cluster ∷ [];
  volumes = config_volume cluster ∷ [];
}

unfoldable pub new_resource_manager_stateful_set : Env → HadoopCluster → Api.StatefulSet
unfolding resource_manager_pod expression_affinity
new_resource_manager_stateful_set env cluster =
    plain_set env cluster "resourcemanager" "hadoop-resourcemanager"
      cluster.spec.resource_manager.replicas
      (with_affinity expression_affinity cluster.spec.resource_manager.affinity
        (resource_manager_pod cluster))
      []

unfoldable pub new_resource_manager_resources :
    Env → HadoopCluster → Built (Service × Api.StatefulSet)
unfolding new_resource_manager_service new_resource_manager_stateful_set
new_resource_manager_resources env cluster =
    built (new_resource_manager_service env cluster, new_resource_manager_stateful_set env cluster)
