-- ===== src/Qoder/Controller.antt =====
-- internal/reconciler/controller.go: Reconcile and ReconcileDelete. The components of a pass are a
-- list of names, as the code's list of function values is; a pass ends with an Outcome, the pair of
-- ctrl.Result and error that the functions return.
pub mod Rules
pub mod Deletion
pub mod Pass
pub mod Completion
pub mod Running
pub mod Rollout
pub mod Phases
use work_script.Prelude.{
  ℕ, ltb, String, Bool, true, false, ◌||◌, Option, none, some, List, [], ◌∷◌, ◌++◌, if◌then◌else◌,
}
use work_script.Kube.{NamespacedName, ApiError}
use work_script.Qoder.Types.{
  HadoopCluster, ClusterPhase, unset, pending, creating, running, deleting,
}
use work_script.Qoder.Program.{
  Program, Result, ok, err, ret, perform, get_cluster, update_status, update, event, normal,
  warning, try, ◌>>=◌, ◌>>◌,
}
use work_script.Qoder.Env.{Env}
use work_script.Qoder.Config.Names.{is_nn_ha, is_rm_ha}
use work_script.Qoder.Status.{is_cluster_ready, update_cluster_status}
use work_script.Qoder.ConfigMap.{reconcile_config_map}
use work_script.Qoder.ZooKeeper.{reconcile_zoo_keeper}
use work_script.Qoder.JournalNode.{reconcile_journal_node}
use work_script.Qoder.NameNode.{reconcile_name_node_service, reconcile_name_node}
use work_script.Qoder.DataNode.{reconcile_data_node_service, reconcile_data_node}
use work_script.Qoder.ResourceManager.{
  reconcile_resource_manager_service, reconcile_resource_manager,
}
use work_script.Qoder.NodeManager.{reconcile_node_manager_service, reconcile_node_manager}
use work_script.Qoder.Disruption.{reconcile_pdbs}

-- requeue_after is in seconds.
pub record Outcome : Type 0 where
  pub requeue : Bool
  pub requeue_after : ℕ
  pub error : Option ApiError

-- return ctrl.Result{}, nil
abbrev pub finished : Outcome
finished = record { requeue = false; requeue_after = 0; error = none }

-- return ctrl.Result{}, err
abbrev pub failed_with : ApiError → Outcome
failed_with e = record { requeue = false; requeue_after = 0; error = some e }

-- return ctrl.Result{RequeueAfter: 30 * time.Second}, nil
abbrev pub requeue_in_30s : Outcome
requeue_in_30s = record { requeue = false; requeue_after = 30; error = none }

pub data Component : Type 0 where
  config zoo_keeper journal_node name_node_service name_node data_node_service data_node : Component
  resource_manager_service resource_manager node_manager_service node_manager pdbs : Component

unfoldable pub run_component : Env → Component → HadoopCluster → Program (Result (Unit {0}))
run_component env config cluster = reconcile_config_map env cluster
run_component env zoo_keeper cluster = reconcile_zoo_keeper env cluster
run_component env journal_node cluster = reconcile_journal_node env cluster
run_component env name_node_service cluster = reconcile_name_node_service env cluster
run_component env name_node cluster = reconcile_name_node env cluster
run_component env data_node_service cluster = reconcile_data_node_service env cluster
run_component env data_node cluster = reconcile_data_node env cluster
run_component env resource_manager_service cluster = reconcile_resource_manager_service env cluster
run_component env resource_manager cluster = reconcile_resource_manager env cluster
run_component env node_manager_service cluster = reconcile_node_manager_service env cluster
run_component env node_manager cluster = reconcile_node_manager env cluster
run_component env pdbs cluster = reconcile_pdbs env cluster

abbrev core_components : List Component
core_components =
    name_node_service ∷ name_node ∷ data_node_service ∷ data_node ∷ resource_manager_service
    ∷ resource_manager ∷ node_manager_service ∷ node_manager ∷ []

-- What follows the ConfigMap in the list.
unfoldable pub later_components : Bool → Bool → List Component
later_components nn_ha rm_ha =
    (if nn_ha then zoo_keeper ∷ journal_node ∷ [] else [])
    ++ (core_components ++ (if nn_ha || rm_ha then pdbs ∷ [] else []))

-- The ordered list of component reconcilers.
unfoldable pub components : Bool → Bool → List Component
unfolding later_components
components nn_ha rm_ha = config ∷ later_components nn_ha rm_ha

-- Every component reconciler returns an empty ctrl.Result beside its error.
abbrev pub as_outcome : Result (Unit {0}) → Outcome
as_outcome (ok _) = finished
as_outcome (err e) = failed_with e

-- What the loop does with the result of one component; `rest` is the loop's next round.
unfoldable pub after_component : Outcome → Program Outcome → Program Outcome
after_component o rest = elim o.error [
  | some e ↦ perform (event warning "ReconcileError" e.text) >> ret o
  | none ↦ if o.requeue || ltb 0 o.requeue_after then ret o else rest
]

unfoldable pub run_components :
    Env → List Component → HadoopCluster → Program Outcome → Program Outcome
unfolding run_component after_component
run_components env [] cluster finish = finish
run_components env (c ∷ cs) cluster finish = run_component env c cluster >>= λ r.
    after_component (as_outcome r) (run_components env cs cluster finish)

-- if err != nil { return ctrl.Result{}, err }
abbrev pub and_then : {A : Type 0} → Result A → (A → Program Outcome) → Program Outcome
and_then (ok a) k = k a
and_then (err e) k = ret (failed_with e)

abbrev pub is_unset : ClusterPhase → Bool
is_unset unset = true
is_unset _ = false

abbrev pub is_pending : ClusterPhase → Bool
is_pending pending = true
is_pending _ = false

abbrev pub is_running : ClusterPhase → Bool
is_running running = true
is_running _ = false

abbrev pub with_phase : ClusterPhase → HadoopCluster → HadoopCluster
with_phase phase cluster = record cluster { status = record cluster.status { phase = phase } }

-- Set initial status if not set
unfoldable pub initial_status : HadoopCluster → Program (Result HadoopCluster)
initial_status cluster =
    if is_unset cluster.status.phase
    then perform (update_status (with_phase pending cluster))
    else ret (ok cluster)

abbrev pub hadoop_cluster_finalizer : String
hadoop_cluster_finalizer = "hadoop.apache.org/finalizer"

-- Add finalizer for cleanup
unfoldable pub ensure_finalizer : Env → HadoopCluster → Program (Result HadoopCluster)
ensure_finalizer env cluster =
    if env.contains_finalizer cluster.finalizers hadoop_cluster_finalizer
    then ret (ok cluster)
    else perform (
        update (record cluster {
          finalizers = env.add_finalizer cluster.finalizers hadoop_cluster_finalizer;
        }))

unfoldable pub reconcile_delete : Env → HadoopCluster → Program Outcome
reconcile_delete env cluster = do
  answer ← perform (update_status (with_phase deleting cluster))
  and_then answer λ kept. do
    perform (event normal "Deleting" "Cluster deletion in progress")
    last ← perform (
        update (record kept {
          finalizers = env.remove_finalizer kept.finalizers hadoop_cluster_finalizer;
        }))
    and_then last λ _. ret finished

-- Set phase to Creating if it's Pending
unfoldable pub start_creating : HadoopCluster → Program (Result HadoopCluster)
start_creating cluster =
    if is_pending cluster.status.phase
    then (do
      answer ← perform (update_status (with_phase creating cluster))
      try answer
          λ kept. do perform (event normal "Creating" "Starting cluster creation"); ret (ok kept))
    else ret (ok cluster)

-- Check if all components are ready
unfoldable pub mark_running : HadoopCluster → Program (Result HadoopCluster)
mark_running cluster =
    if is_cluster_ready cluster.status
    then if is_running cluster.status.phase
      then ret (ok cluster)
      else perform (event normal "Running" "Cluster is now running")
        >> perform (update_status (with_phase running cluster))
    else ret (ok cluster)

-- The end of a pass: the status of the components, then the phase.
unfoldable pub finish_pass : HadoopCluster → Program Outcome
unfolding update_cluster_status mark_running
finish_pass cluster = do
  observed ← update_cluster_status cluster
  and_then observed λ kept. do last ← mark_running kept; and_then last λ _. ret requeue_in_30s

unfoldable pub reconcile_live : Env → HadoopCluster → Program Outcome
unfolding start_creating components run_components finish_pass
reconcile_live env cluster = do
  started ← start_creating cluster
  and_then started λ c. run_components env (components (is_nn_ha c) (is_rm_ha c)) c (finish_pass c)

unfoldable pub reconcile_found : Env → HadoopCluster → Program Outcome
unfolding initial_status ensure_finalizer reconcile_delete reconcile_live
reconcile_found env cluster = do
  first ← initial_status cluster
  and_then first λ c1. do
    second ← ensure_finalizer env c1
    and_then second λ c2. if c2.is_deleted then reconcile_delete env c2 else reconcile_live env c2

unfoldable pub reconcile : Env → NamespacedName → Program Outcome
unfolding reconcile_found
reconcile env request = perform (get_cluster request) >>= λ answer. elim answer [
  | ok cluster ↦ reconcile_found env cluster
  | err e ↦ if e.is_not_found then ret finished else ret (failed_with e)
]
