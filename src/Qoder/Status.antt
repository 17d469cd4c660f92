-- ===== src/Qoder/Status.antt =====
-- internal/reconciler/controller.go: IsClusterReady and UpdateClusterStatus.
pub mod Conditions
pub mod Report
use work_script.Prelude.{
  ℤ, pos, ◌-ℤ◌, wrap_int32, ltb_ℤ, String, Bool, true, false, ◌&&◌, Option, none, some, List, [],
  ◌∷◌, if◌then◌else◌,
}
use work_script.Kube.{StatefulSet}
use work_script.Qoder.Types.{
  HadoopCluster, HadoopClusterStatus, NameNodeStatus, DataNodeStatus, ResourceManagerStatus,
  NodeManagerStatus, ClusterCondition, ClusterConditionType, ready, progressing, degraded,
  other_type, status_true, status_false,
}
use work_script.Qoder.Program.{
  Program, Result, ok, err, ret, panic, perform, get_stateful_set, update_status, now, ◌>>=◌,
}
use work_script.Qoder.Config.Names.{is_nn_ha, is_rm_ha}
use work_script.Qoder.Workload.{component_name}

-- All four components have a ready replica.
unfoldable pub is_cluster_ready : HadoopClusterStatus → Bool
is_cluster_ready status =
    ltb_ℤ (pos 0) status.name_node.ready_replicas
    && (ltb_ℤ (pos 0) status.data_node.ready_replicas
        && (ltb_ℤ (pos 0) status.resource_manager.ready_replicas
            && ltb_ℤ (pos 0) status.node_manager.ready_replicas))

-- The dereference of a pointer.
abbrev pub deref : {A B : Type 0} → Option A → (A → Program B) → Program B
deref none k = panic "invalid memory address or nil pointer dereference"
deref (some a) k = k a

unfoldable pub name_node_status :
    HadoopCluster → NameNodeStatus → Result StatefulSet → Program NameNodeStatus
name_node_status cluster old (err e) = ret old
name_node_status cluster old (ok sts) = deref sts.spec.replicas λ n.
    let counts : NameNodeStatus = record old {
      replicas = n;
      ready_replicas = sts.status.ready_replicas;
    } in
    ret (
      if is_nn_ha cluster
      then record counts {
        active = component_name cluster "namenode-0";
        standby = component_name cluster "namenode-1" ∷ [];
      }
      else counts)

unfoldable pub data_node_status : DataNodeStatus → Result StatefulSet → Program DataNodeStatus
data_node_status old (err e) = ret old
data_node_status old (ok sts) = deref sts.spec.replicas λ n. ret (record {
  replicas = n;
  ready_replicas = sts.status.ready_replicas;
  live_nodes = sts.status.ready_replicas;
  dead_nodes = wrap_int32 (sts.status.replicas -ℤ sts.status.ready_replicas);
})

unfoldable pub resource_manager_status :
    HadoopCluster → ResourceManagerStatus → Result StatefulSet → Program ResourceManagerStatus
resource_manager_status cluster old (err e) = ret old
resource_manager_status cluster old (ok sts) = deref sts.spec.replicas λ n.
    let counts : ResourceManagerStatus = record old {
      replicas = n;
      ready_replicas = sts.status.ready_replicas;
    } in
    ret (
      if is_rm_ha cluster
      then record counts {
        active = component_name cluster "resourcemanager-0";
        standby = component_name cluster "resourcemanager-1" ∷ [];
      }
      else counts)

unfoldable pub node_manager_status :
    NodeManagerStatus → Result StatefulSet → Program NodeManagerStatus
node_manager_status old (err e) = ret old
node_manager_status old (ok sts) =
    deref sts.spec.replicas
      λ n. ret (record { replicas = n; ready_replicas = sts.status.ready_replicas })

-- The four StatefulSets are read in turn; one that cannot be read leaves its part as it was.
unfoldable pub observe_components : HadoopCluster → Program HadoopClusterStatus
unfolding name_node_status data_node_status resource_manager_status node_manager_status
observe_components cluster = do
  nn_sts ← read "namenode"
  nn ← name_node_status cluster cluster.status.name_node nn_sts
  dn_sts ← read "datanode"
  dn ← data_node_status cluster.status.data_node dn_sts
  rm_sts ← read "resourcemanager"
  rm ← resource_manager_status cluster cluster.status.resource_manager rm_sts
  nm_sts ← read "nodemanager"
  nm ← node_manager_status cluster.status.node_manager nm_sts
  ret (record cluster.status {
    name_node = nn;
    data_node = dn;
    resource_manager = rm;
    node_manager = nm;
  })
  where
    read : String → Program (Result StatefulSet)
    read component = perform (
        get_stateful_set
          (record { namespace = cluster.namespace; name = component_name cluster component }))

abbrev pub is_ready_condition : ClusterConditionType → Bool
is_ready_condition ready = true
is_ready_condition progressing = false
is_ready_condition degraded = false
is_ready_condition (other_type s) = false

-- Replaces the first Ready condition, or appends one.
unfoldable pub set_ready_condition :
    ClusterCondition → List ClusterCondition → List ClusterCondition
set_ready_condition c [] = c ∷ []
set_ready_condition c (old ∷ rest) =
    if is_ready_condition old.condition_type then c ∷ rest else old ∷ set_ready_condition c rest

unfoldable pub ready_condition : Bool → ℤ → ClusterCondition
ready_condition is_ready time = record {
  condition_type = ready;
  status = if is_ready then status_true else status_false;
  last_transition_time = time;
  reason = if is_ready then "AllComponentsReady" else "ComponentsNotReady";
  message =
      if is_ready
      then "All cluster components are ready"
      else "Some cluster components are not ready";
}

unfoldable pub with_ready_condition : HadoopCluster → HadoopClusterStatus → ℤ → HadoopCluster
unfolding set_ready_condition ready_condition is_cluster_ready
with_ready_condition cluster observed time = record cluster {
  status = record observed {
    conditions =
        set_ready_condition (ready_condition (is_cluster_ready observed) time) observed.conditions;
    observed_generation = cluster.generation;
  };
}

unfoldable pub update_cluster_status : HadoopCluster → Program (Result HadoopCluster)
unfolding observe_components with_ready_condition
update_cluster_status cluster = do
  observed ← observe_components cluster
  time ← perform now
  perform (update_status (with_ready_condition cluster observed time))
