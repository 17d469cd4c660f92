-- ===== src/Qoder/ResourceManager.antt =====
-- internal/reconciler/yarn.go: the ResourceManager's services and StatefulSet.
use text.Mathlib.Text.{◌==◌}
use work_script.Prelude.{
  ℤ, pos, ltb_ℤ, eq_ℤ, String, Bool, ◌&&◌, some, [], ◌∷◌, Dict, if◌then◌else◌,
}
use work_script.Kube.{StatefulSetSpec, ResourceRequirements, zero_container, KubeServiceSpec}
use work_script.Qoder.Types.{HadoopCluster}
use work_script.Qoder.Program.{Program, Result, try, ret, ◌>>=◌}
use work_script.Qoder.Env.{Env}
use work_script.Qoder.Config.Names.{get_image, is_rm_ha}
use work_script.Qoder.Workload.{
  with_default_resources, component_name, object_meta, pod_template_annotations, ensure_service,
  ensure_stateful_set, service_port, node_port, headless, external, http_get, config_mount,
  logs_mount, config_volume, logs_volume, conf_dir_env, pod_name_env,
}

unfoldable pub labels_for_resource_manager : HadoopCluster → Dict String
labels_for_resource_manager cluster =
    ("app", "hadoop-resourcemanager")
    ∷ ("hadoop.apache.org/cluster", cluster.name)
    ∷ ("hadoop.apache.org/component", "resourcemanager")
    ∷ ("hadoop.apache.org/managed-by", "hadoop-operator")
    ∷ []

unfoldable pub resource_manager_headless_spec : HadoopCluster → KubeServiceSpec
unfolding labels_for_resource_manager
resource_manager_headless_spec cluster =
    headless (labels_for_resource_manager cluster)
      (service_port "rpc" (pos 8032) (pos 0) ∷ service_port "web" (pos 8088) (pos 0) ∷ [])

unfoldable pub resource_manager_external_spec : HadoopCluster → KubeServiceSpec
unfolding labels_for_resource_manager
resource_manager_external_spec cluster =
    let svc = cluster.spec.yarn.resource_manager.service in
    let svc_type = if svc.service_type == "" then "NodePort" else svc.service_type in
    external svc_type (labels_for_resource_manager cluster) (
      service_port "rpc" (pos 8032) (node_port "rpc" svc.node_ports)
      ∷ service_port "web" (pos 8088) (node_port "web" svc.node_ports)
      ∷ [])

unfoldable pub reconcile_resource_manager_service :
    Env → HadoopCluster → Program (Result (Unit {0}))
unfolding resource_manager_headless_spec resource_manager_external_spec ensure_service
reconcile_resource_manager_service env cluster = do
  first ←
      ensure_service env cluster
        (object_meta cluster "resourcemanager" (labels_for_resource_manager cluster) [])
        (resource_manager_headless_spec cluster)
  try first λ _.
      ensure_service env cluster
        (object_meta cluster "resourcemanager-external" (labels_for_resource_manager cluster)
          cluster.spec.yarn.resource_manager.service.annotations)
        (resource_manager_external_spec cluster)

unfoldable pub resource_manager_replicas : ℤ → Bool → ℤ
resource_manager_replicas given is_ha =
    let replicas = if eq_ℤ given (pos 0) then pos 1 else given in
    if is_ha && ltb_ℤ replicas (pos 2) then pos 2 else replicas

unfoldable pub resource_manager_spec :
    HadoopCluster → ResourceRequirements → Dict String → StatefulSetSpec
unfolding labels_for_resource_manager resource_manager_replicas
resource_manager_spec cluster resources annotations = record {
  service_name = component_name cluster "resourcemanager";
  replicas =
      some
        (resource_manager_replicas cluster.spec.yarn.resource_manager.replicas (is_rm_ha cluster));
  selector = labels_for_resource_manager cluster;
  update_strategy = "RollingUpdate";
  template = record {
    labels = labels_for_resource_manager cluster;
    annotations = annotations;
    spec = record {
      image_pull_secrets = cluster.spec.image.pull_secrets;
      affinity = cluster.spec.yarn.resource_manager.affinity;
      tolerations = cluster.spec.yarn.resource_manager.tolerations;
      fs_group = some (pos 1000);
      termination_grace_period_seconds = some (pos 60);
      init_containers = [];
      containers =
          record zero_container {
            name = "resourcemanager";
            image = get_image cluster;
            image_pull_policy = cluster.spec.image.pull_policy;
            command = "yarn" ∷ "resourcemanager" ∷ [];
            args = [];
            env = conf_dir_env ∷ pod_name_env ∷ [];
            ports =
                record { name = "rpc"; container_port = pos 8032 }
                ∷ record { name = "web"; container_port = pos 8088 }
                ∷ [];
            resources = resources;
            pre_stop = some ("/bin/bash" ∷ "-c" ∷ "sleep 10" ∷ []);
            liveness_probe =
                some (http_get "/ws/v1/cluster/info" (pos 90) (pos 30) (pos 10) (pos 5));
            readiness_probe =
                some (http_get "/ws/v1/cluster/info" (pos 30) (pos 10) (pos 5) (pos 3));
            volume_mounts = config_mount ∷ logs_mount ∷ [];
          }
          ∷ [];
      volumes = config_volume cluster ∷ logs_volume ∷ [];
    };
  };
  volume_claim_templates = [];
}

unfoldable pub reconcile_resource_manager : Env → HadoopCluster → Program (Result (Unit {0}))
unfolding resource_manager_spec with_default_resources pod_template_annotations ensure_stateful_set
reconcile_resource_manager env cluster = do
  resources ← with_default_resources env cluster.spec.yarn.resource_manager.resources
  ensure_stateful_set env cluster
      (object_meta cluster "resourcemanager" (labels_for_resource_manager cluster) [])
      do
        annotations ← pod_template_annotations env cluster
        ret (resource_manager_spec cluster resources annotations)
