-- ===== src/Qoder/NodeManager.antt =====
-- internal/reconciler/yarn.go: the NodeManager's services and StatefulSet.
use text.Mathlib.Text.{◌==◌}
use work_script.Prelude.{ℤ, pos, eq_ℤ, String, some, [], ◌∷◌, Dict, concat, if◌then◌else◌}
use work_script.Kube.{StatefulSetSpec, ResourceRequirements, zero_container, KubeServiceSpec}
use work_script.Qoder.Types.{HadoopCluster}
use work_script.Qoder.Program.{Program, Result, try, ret, ◌>>=◌}
use work_script.Qoder.Env.{Env}
use work_script.Qoder.Config.Names.{get_image, rm_service}
use work_script.Qoder.Workload.{
  with_default_resources, component_name, object_meta, pod_template_annotations, ensure_service,
  ensure_stateful_set, service_port, node_port, headless, external, http_get, config_mount,
  logs_mount, config_volume, logs_volume, conf_dir_env, pod_name_env,
}

unfoldable pub labels_for_node_manager : HadoopCluster → Dict String
labels_for_node_manager cluster =
    ("app", "hadoop-nodemanager")
    ∷ ("hadoop.apache.org/cluster", cluster.name)
    ∷ ("hadoop.apache.org/component", "nodemanager")
    ∷ ("hadoop.apache.org/managed-by", "hadoop-operator")
    ∷ []

unfoldable pub node_manager_headless_spec : HadoopCluster → KubeServiceSpec
unfolding labels_for_node_manager
node_manager_headless_spec cluster =
    headless (labels_for_node_manager cluster) (service_port "web" (pos 8042) (pos 0) ∷ [])

unfoldable pub node_manager_external_spec : HadoopCluster → KubeServiceSpec
unfolding labels_for_node_manager
node_manager_external_spec cluster =
    let svc = cluster.spec.yarn.node_manager.service in
    let svc_type = if svc.service_type == "" then "NodePort" else svc.service_type in
    external svc_type (labels_for_node_manager cluster)
      (service_port "web" (pos 8042) (node_port "web" svc.node_ports) ∷ [])

unfoldable pub reconcile_node_manager_service : Env → HadoopCluster → Program (Result (Unit {0}))
unfolding node_manager_headless_spec node_manager_external_spec ensure_service
reconcile_node_manager_service env cluster = do
  first ←
      ensure_service env cluster
        (object_meta cluster "nodemanager" (labels_for_node_manager cluster) [])
        (node_manager_headless_spec cluster)
  try first λ _.
      ensure_service env cluster
        (object_meta cluster "nodemanager-external" (labels_for_node_manager cluster)
          cluster.spec.yarn.node_manager.service.annotations)
        (node_manager_external_spec cluster)

unfoldable pub node_manager_replicas : ℤ → ℤ
node_manager_replicas given = if eq_ℤ given (pos 0) then pos 2 else given

unfoldable pub wait_for_resource_manager : HadoopCluster → String
wait_for_resource_manager cluster = concat (
    "\n"
    ∷ "echo \"Waiting for ResourceManager...\"\n"
    ∷ "while ! nc -z "
    ∷ rm_service cluster
    ∷ " 8032; do\n"
    ∷ "  echo \"Waiting for ResourceManager...\"\n"
    ∷ "  sleep 5\n"
    ∷ "done\n"
    ∷ "echo \"ResourceManager is ready\"\n"
    ∷ [])

unfoldable pub node_manager_spec :
    HadoopCluster → ResourceRequirements → Dict String → StatefulSetSpec
unfolding labels_for_node_manager node_manager_replicas wait_for_resource_manager
node_manager_spec cluster resources annotations = record {
  service_name = component_name cluster "nodemanager";
  replicas = some (node_manager_replicas cluster.spec.yarn.node_manager.replicas);
  selector = labels_for_node_manager cluster;
  update_strategy = "RollingUpdate";
  template = record {
    labels = labels_for_node_manager cluster;
    annotations = annotations;
    spec = record {
      image_pull_secrets = cluster.spec.image.pull_secrets;
      affinity = cluster.spec.yarn.node_manager.affinity;
      tolerations = cluster.spec.yarn.node_manager.tolerations;
      fs_group = some (pos 1000);
      termination_grace_period_seconds = some (pos 30);
      init_containers =
          record zero_container {
            name = "wait-for-resourcemanager";
            image = get_image cluster;
            image_pull_policy = cluster.spec.image.pull_policy;
            command = "/bin/sh" ∷ "-c" ∷ [];
            args = wait_for_resource_manager cluster ∷ [];
            env = [];
            ports = [];
            volume_mounts = [];
          }
          ∷ [];
      containers =
          record zero_container {
            name = "nodemanager";
            image = get_image cluster;
            image_pull_policy = cluster.spec.image.pull_policy;
            command = "yarn" ∷ "nodemanager" ∷ [];
            args = [];
            env = conf_dir_env ∷ pod_name_env ∷ [];
            ports = record { name = "web"; container_port = pos 8042 } ∷ [];
            resources = resources;
            pre_stop = some ("/bin/bash" ∷ "-c" ∷ "sleep 10" ∷ []);
            liveness_probe = some (http_get "/node" (pos 60) (pos 30) (pos 10) (pos 5));
            readiness_probe = some (http_get "/node" (pos 30) (pos 10) (pos 5) (pos 3));
            volume_mounts = config_mount ∷ logs_mount ∷ [];
          }
          ∷ [];
      volumes = config_volume cluster ∷ logs_volume ∷ [];
    };
  };
  volume_claim_templates = [];
}

unfoldable pub reconcile_node_manager : Env → HadoopCluster → Program (Result (Unit {0}))
unfolding node_manager_spec with_default_resources pod_template_annotations ensure_stateful_set
reconcile_node_manager env cluster = do
  resources ← with_default_resources env cluster.spec.yarn.node_manager.resources
  ensure_stateful_set env cluster
      (object_meta cluster "nodemanager" (labels_for_node_manager cluster) [])
      do
        annotations ← pod_template_annotations env cluster
        ret (node_manager_spec cluster resources annotations)
