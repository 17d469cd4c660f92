-- ===== src/Qoder/Shape.antt =====
-- What the Kubernetes API asks of a StatefulSet, and what ties a service to its pods, as checks
-- that can be run on the specs that the component reconcilers build.
pub mod Replicas
unfoldable pub use work_script.Checks.{has_text, every, has_port}
pub use work_script.Checks.{names}
use text.Mathlib.Text.{◌==◌}
use work_script.Prelude.{
  ◌≡◌, refl, ℤ, pos, ◌≤ℤ◌, eq_ℤ, ltb_ℤ, arith, String, Bool, true, false, ◌&&◌, ◌||◌, Option, none,
  some, List, [], ◌∷◌, ◌++◌, Dict, if◌then◌else◌, ◌≤◌, negsuc, Bool-cases, inl, inr,
}
use work_script.Kube.{
  StatefulSetSpec, KubeServiceSpec, Container, VolumeMount, Volume, PersistentVolumeClaim, Probe,
  ContainerPort, ServicePort, IntOrString, from_int, from_string, ResourceRequirements, Quantity,
}
use work_script.Qoder.Types.{HadoopCluster, JournalNodeSpec}
use work_script.Qoder.Config.Names.{is_nn_ha, is_rm_ha}
use work_script.Qoder.NameNode.{
  name_node_spec, name_node_headless_spec, name_node_external_spec, name_node_replicas,
  labels_for_name_node,
}
use work_script.Qoder.DataNode.{
  data_node_spec, data_node_headless_spec, data_node_external_spec, data_node_replicas,
  labels_for_data_node,
}
use work_script.Qoder.ResourceManager.{
  resource_manager_spec, resource_manager_headless_spec, resource_manager_external_spec,
  resource_manager_replicas, labels_for_resource_manager,
}
use work_script.Qoder.NodeManager.{
  node_manager_spec, node_manager_headless_spec, node_manager_external_spec, node_manager_replicas,
  labels_for_node_manager,
}
use work_script.Qoder.ZooKeeper.{zoo_keeper_spec, zoo_keeper_service_spec, labels_for_zoo_keeper}
use work_script.Qoder.JournalNode.{
  journal_node_spec, journal_node_service_spec, journal_node_replicas, labels_for_journal_node,
}

unfoldable pub probe_resolves : List ContainerPort → Option Probe → Bool
unfolding has_port
probe_resolves ports none = true
probe_resolves ports (some probe) = has_port ports probe.port

-- The volumes that a pod of the set has: its own, and the claims.
unfoldable pub volume_names : StatefulSetSpec → List String
volume_names spec =
    names Volume.name spec.template.spec.volumes
    ++ names PersistentVolumeClaim.name spec.volume_claim_templates

-- Every mount names a volume, and every probe a port, of the pod.
unfoldable pub container_resolves : List String → Container → Bool
unfolding has_text every probe_resolves
container_resolves volumes c =
    every (λ m. has_text (VolumeMount.name m) volumes) c.volume_mounts
    && (probe_resolves c.ports c.liveness_probe && probe_resolves c.ports c.readiness_probe)

unfoldable pub containers_resolve : StatefulSetSpec → Bool
unfolding container_resolves volume_names every
containers_resolve spec =
    every (container_resolves (volume_names spec)) spec.template.spec.init_containers
    && every (container_resolves (volume_names spec)) spec.template.spec.containers

-- The API server accepts a StatefulSet only if its selector matches its own template.
abbrev pub WellFormed : StatefulSetSpec → Type 0
WellFormed spec = (spec.selector ≡ spec.template.labels) × (containers_resolve spec ≡ true)

unfoldable pub targets_resolve : KubeServiceSpec → StatefulSetSpec → Bool
unfolding has_port every
targets_resolve service spec =
    every
      (λ p.
        every (λ c. has_port (Container.ports c) (ServicePort.target_port p))
          spec.template.spec.containers)
      service.ports

-- The service selects the pods of the set, and each of its ports is one of theirs.
abbrev pub Backs : StatefulSetSpec → KubeServiceSpec → Type 0
Backs spec service =
    (service.selector ≡ spec.template.labels) × (targets_resolve service spec ≡ true)

-- Each of the six StatefulSets has a selector that matches its template, mounts only volumes that
-- it declares, and probes only ports that it declares.
pub stateful_sets-WellFormed :
    (c : HadoopCluster) (resources : ResourceRequirements) (annotations : Dict String)
    (size : Quantity) (jn : JournalNodeSpec)
    → WellFormed (name_node_spec c resources annotations size)
      × WellFormed (data_node_spec c resources annotations size)
      × WellFormed (resource_manager_spec c resources annotations)
      × WellFormed (node_manager_spec c resources annotations)
      × WellFormed (zoo_keeper_spec c size)
      × WellFormed (journal_node_spec c jn resources annotations size)
unfolding name_node_spec data_node_spec resource_manager_spec node_manager_spec zoo_keeper_spec
    journal_node_spec containers_resolve
stateful_sets-WellFormed c resources annotations size jn =
    ((refl, refl), (refl, refl), (refl, refl), (refl, refl), (refl, refl), (refl, refl))

-- Each of the ten services selects the pods of its StatefulSet, and each of its ports leads to a
-- port that the container declares.
pub services-Backs :
    (c : HadoopCluster) (resources : ResourceRequirements) (annotations : Dict String)
    (size : Quantity) (jn : JournalNodeSpec)
    → (Backs (name_node_spec c resources annotations size) (name_node_headless_spec c)
        × Backs (name_node_spec c resources annotations size) (name_node_external_spec c))
      × (Backs (data_node_spec c resources annotations size) (data_node_headless_spec c)
          × Backs (data_node_spec c resources annotations size) (data_node_external_spec c))
      × (Backs (resource_manager_spec c resources annotations) (resource_manager_headless_spec c)
          × Backs
              (resource_manager_spec c resources annotations)
              (resource_manager_external_spec c))
      × (Backs (node_manager_spec c resources annotations) (node_manager_headless_spec c)
          × Backs (node_manager_spec c resources annotations) (node_manager_external_spec c))
      × Backs (zoo_keeper_spec c size) (zoo_keeper_service_spec c)
      × Backs (journal_node_spec c jn resources annotations size) (journal_node_service_spec c)
unfolding name_node_spec data_node_spec resource_manager_spec node_manager_spec zoo_keeper_spec
    journal_node_spec name_node_headless_spec name_node_external_spec data_node_headless_spec
    data_node_external_spec resource_manager_headless_spec resource_manager_external_spec
    node_manager_headless_spec node_manager_external_spec zoo_keeper_service_spec
    journal_node_service_spec targets_resolve
services-Backs c resources annotations size jn = (
  ((refl, refl), (refl, refl)),
  ((refl, refl), (refl, refl)),
  ((refl, refl), (refl, refl)),
  ((refl, refl), (refl, refl)),
  (refl, refl),
  (refl, refl),
)
