-- ===== src/Trae/Shape.antt =====
-- What ties the services of a cluster to the pods of its StatefulSets.
use mathlib.Core.Option.{some-ne-none}
use work_script.Prelude.{
  ◌≡◌, refl, sym, ap, ◌∙◌, ◌↔◌, ◌⊎◌, inl, inr, String, Bool, true, Option, none, some, List, All,
  Dict, lookup, Distinct, first_of, lookup-merge,
}
use work_script.Checks.{every, has_port}
use work_script.Kube.{Service, ServicePort}
use work_script.Trae.Types.{HadoopCluster, AffinitySpec}
use work_script.Trae.Api
use work_script.Trae.Env.{Env}
use work_script.Trae.Workload.{labels_of}
use work_script.Trae.NameNode.Base.{new_name_node_service, name_node_labels, name_node_set}
use work_script.Trae.DataNode.{
  new_data_node_service, data_node_set, data_node_pod, data_node_container,
}
use work_script.Trae.ResourceManager.{
  new_resource_manager_service, new_resource_manager_stateful_set, resource_manager_pod,
  resource_manager_container,
}
use work_script.Trae.NodeManager.{
  new_node_manager_service, new_node_manager_stateful_set, node_manager_pod, node_manager_container,
}
use work_script.Trae.Affinity.{with_affinity, expression_affinity}

-- A selector selects what has each of its labels.
abbrev pub Selects : Dict String → Dict String → Type 0
Selects selector labels = All (λ (k, v). lookup k labels ≡ some v) selector

-- Each port of the service is a port of every container.
abbrev pub targets : Service → List Api.Container → Bool
targets svc cs =
    every (λ p. every (λ c. has_port (Api.Container.ports c) (ServicePort.target_port p)) cs)
      svc.spec.ports

abbrev pub targets_resolve : Service → Api.StatefulSet → Bool
targets_resolve svc set = targets svc set.spec.template.spec.containers

affinity-containers :
    (o : Option AffinitySpec) (p : Api.PodSpec)
    → Api.PodSpec.containers (with_affinity expression_affinity o p) ≡ p.containers
affinity-containers none p = refl
affinity-containers (some a) p = refl

-- The service and the set select the pods of the set, and the service's ports are theirs.
abbrev pub Backs : Api.StatefulSet → Service → Type 0
Backs set svc =
    Selects svc.spec.selector set.spec.template.labels
    × Selects set.spec.selector set.spec.template.labels
    × (targets_resolve svc set ≡ true)
    × (set.spec.service_name ≡ svc.metadata.name)

-- The service of each of the three components whose builder ignores pod labels selects the pods of
-- its StatefulSet, whose own selector does so too; its ports are theirs; and the set names it.
pub plain_services-Backs :
    (env : Env) (c : HadoopCluster) (claim : Api.PersistentVolumeClaim)
    → Backs (data_node_set env c claim) (new_data_node_service env c)
      × Backs (new_resource_manager_stateful_set env c) (new_resource_manager_service env c)
      × Backs (new_node_manager_stateful_set env c) (new_node_manager_service env c)
unfolding lookup every has_port new_data_node_service data_node_set data_node_pod
    data_node_container new_resource_manager_service new_resource_manager_stateful_set
    resource_manager_pod resource_manager_container new_node_manager_service
    new_node_manager_stateful_set node_manager_pod node_manager_container
plain_services-Backs env c claim = (
  (
    (refl, (refl, tt)),
    (refl, (refl, tt)),
    ap (targets (new_data_node_service env c))
        (affinity-containers c.spec.data_node.affinity (data_node_pod c)),
    refl,
  ),
  (
    (refl, (refl, tt)),
    (refl, (refl, tt)),
    ap (targets (new_resource_manager_service env c))
        (affinity-containers c.spec.resource_manager.affinity (resource_manager_pod c)),
    refl,
  ),
  (
    (refl, (refl, tt)),
    (refl, (refl, tt)),
    ap (targets (new_node_manager_service env c))
        (affinity-containers c.spec.node_manager.affinity (node_manager_pod c)),
    refl,
  ),
)

-- A label of the builder is left as it is.
abbrev pub Kept : String → String → Dict String → Type 0
Kept k v given = (lookup k given ≡ none) ⊎ (lookup k given ≡ some v)

first_of_iff :
    (o : Option String) (v : String) → (first_of o (some v) ≡ some v) ↔ ((o ≡ none) ⊎ (o ≡ some v))
first_of_iff none v = (λ _. inl refl, λ _. refl)
first_of_iff (some w) v =
    (λ e. inr e, λ h. elim h [ inl e ↦ absurd (some-ne-none w e) | inr e ↦ e ])

-- The NameNode's service selects the pods of its StatefulSet exactly if no pod label of the cluster
-- gives another value to one of the two labels that it selects by.
pub name_node_service-Selects :
    (env : Env) (c : HadoopCluster) (pod : Api.PodSpec) (claims : List Api.PersistentVolumeClaim)
    → Distinct c.spec.name_node.pod_labels
    → Selects
        (new_name_node_service env c).spec.selector
        (name_node_set env c pod claims).spec.template.labels
      ↔ (Kept "app" "hadoop-namenode" c.spec.name_node.pod_labels
          × Kept "cluster" c.name c.spec.name_node.pod_labels)
unfolding lookup new_name_node_service name_node_set name_node_labels
name_node_service-Selects env c pod claims d =
    let given = c.spec.name_node.pod_labels in
    let own = labels_of c "hadoop-namenode" in
    let app = lookup-merge "app" given own d in
    let cluster = lookup-merge "cluster" given own d in
    let app_iff = first_of_iff (lookup "app" given) "hadoop-namenode" in
    let cluster_iff = first_of_iff (lookup "cluster" given) c.name in
    (
      λ (a, (b, _)). (app_iff.0 (sym (app) ∙ a), cluster_iff.0 (sym (cluster) ∙ b)),
      λ (a, b). ((app) ∙ app_iff.1 a, ((cluster) ∙ cluster_iff.1 b, tt)),
    )
