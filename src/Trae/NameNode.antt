-- ===== src/Trae/NameNode.antt =====
-- pkg/resources/namenode.go. Claims and options are independent of each other: the claims, which may
-- panic, come first.
pub mod Base
pub mod Claims
pub mod Options
pub mod Mounts
pub mod Storage
use work_script.Kube.{Service}
use work_script.Trae.Types.{HadoopCluster}
use work_script.Trae.Api
use work_script.Trae.Env.{Env}
use work_script.Trae.Workload.{Built, built, and_then}
use work_script.Trae.NameNode.Base.{new_name_node_service, name_node_pod, name_node_set}
use work_script.Trae.NameNode.Claims.{new_claims}
use work_script.Trae.NameNode.Options.{with_options}

unfoldable pub new_name_node_stateful_set : Env → HadoopCluster → Built Api.StatefulSet
unfolding new_claims name_node_pod name_node_set with_options
new_name_node_stateful_set env cluster =
    and_then (new_claims env cluster.spec.name_node.persistent_volumes) λ claims. built (
      name_node_set env cluster (with_options cluster.spec.name_node (name_node_pod cluster))
        claims)

unfoldable pub new_name_node_resources : Env → HadoopCluster → Built (Service × Api.StatefulSet)
unfolding new_name_node_service new_name_node_stateful_set
new_name_node_resources env cluster =
    and_then (new_name_node_stateful_set env cluster)
      λ set. built (new_name_node_service env cluster, set)
