-- ===== src/Qoder/Status/Report.antt =====
-- The status that UpdateClusterStatus sends, and the counts of the DataNodes.
use work_script.Prelude.{
  ◌≡◌, refl, ℤ, pos, ℕ, ◌+◌, ◌-◌, ◌≤◌, ◌<◌, ◌^◌, arith, Option, none, some, wrap-small, sub_pos,
  All,
}
use work_script.Kube.{StatefulSet}
use work_script.Qoder.Types.{
  HadoopCluster, DataNodeStatus, NameNodeStatus, ResourceManagerStatus, NodeManagerStatus,
}
use work_script.Qoder.Program.{Program, Call, Result, ok, err}
use work_script.Qoder.Behaviour.{Holds, AnyAnswer, AnyValue, of_ret, of_panic, of_call, Holds-then}
use work_script.Qoder.Server.{Server, calls, calls-All, exit, returned}
use work_script.Qoder.Status.{
  update_cluster_status, observe_components, name_node_status, data_node_status,
  resource_manager_status, node_manager_status, deref,
}
use work_script.Qoder.Status.Conditions.{SendsReports, with_ready_condition-Reports}

module _ {P : Call → Type 0} where
  deref-Any :
      {A B : Type 0} (o : Option A) (k : A → Program B)
      → ((a : A) → Holds AnyAnswer P AnyValue (Unit {0}) (k a))
      → Holds AnyAnswer P AnyValue (Unit {0}) (deref o k)
  deref-Any none k h = of_panic _ tt
  deref-Any (some a) k h = h a

  name_node_status-Any :
      (c : HadoopCluster) (old : NameNodeStatus) (r : Result StatefulSet)
      → Holds AnyAnswer P AnyValue (Unit {0}) (name_node_status c old r)
  unfolding name_node_status
  name_node_status-Any c old (ok sts) = deref-Any sts.spec.replicas _ (λ _. of_ret _ tt)
  name_node_status-Any c old (err e) = of_ret _ tt

  data_node_status-Any :
      (old : DataNodeStatus) (r : Result StatefulSet)
      → Holds AnyAnswer P AnyValue (Unit {0}) (data_node_status old r)
  unfolding data_node_status
  data_node_status-Any old (ok sts) = deref-Any sts.spec.replicas _ (λ _. of_ret _ tt)
  data_node_status-Any old (err e) = of_ret _ tt

  resource_manager_status-Any :
      (c : HadoopCluster) (old : ResourceManagerStatus) (r : Result StatefulSet)
      → Holds AnyAnswer P AnyValue (Unit {0}) (resource_manager_status c old r)
  unfolding resource_manager_status
  resource_manager_status-Any c old (ok sts) = deref-Any sts.spec.replicas _ (λ _. of_ret _ tt)
  resource_manager_status-Any c old (err e) = of_ret _ tt

  node_manager_status-Any :
      (old : NodeManagerStatus) (r : Result StatefulSet)
      → Holds AnyAnswer P AnyValue (Unit {0}) (node_manager_status old r)
  unfolding node_manager_status
  node_manager_status-Any old (ok sts) = deref-Any sts.spec.replicas _ (λ _. of_ret _ tt)
  node_manager_status-Any old (err e) = of_ret _ tt

observe-conditions :
    (c : HadoopCluster)
    → Holds AnyAnswer
        (SendsReports c)
        (λ s. s.conditions ≡ c.status.conditions)
        (Unit {0})
        (observe_components c)
unfolding observe_components
observe-conditions c = of_call _ _ tt λ r1 _. Holds-then _ (name_node_status-Any c _ r1) λ _ _.
    of_call _ _ tt λ r2 _. Holds-then _ (data_node_status-Any _ r2) λ _ _. of_call _ _ tt λ r3 _.
      Holds-then _ (resource_manager_status-Any c _ r3) λ _ _.
        of_call _ _ tt λ r4 _. Holds-then _ (node_manager_status-Any _ r4) λ _ _. of_ret _ refl

-- Whatever the server answers, a status that UpdateClusterStatus sends has the generation of the
-- cluster, a Ready condition that is true if the status itself counts a ready replica of each of the
-- four components and false if not, with the reason for it, and the conditions of other types as
-- they were.
pub update_cluster_status-Reports :
    {W : Type 0} (server : Server W) (c : HadoopCluster) (w : W)
    → All (SendsReports c) (calls server (update_cluster_status c) w)
unfolding update_cluster_status
update_cluster_status-Reports server c w =
    calls-All server {H = AnyAnswer} (λ _ _. tt) w
      (Holds-then {S = AnyValue} _ (observe-conditions c) λ s e.
        of_call _ _ tt λ t _. of_call _ _ (with_ready_condition-Reports c s t e) λ _ _. of_ret _ tt)

-- If no more pods are ready than there are, and their number is an int32, the live and the dead
-- DataNodes are the pods of the StatefulSet, and none is counted twice.
pub data_node_status-counts :
    {W : Type 0} (server : Server W) (old : DataNodeStatus) (sts : StatefulSet) (n : ℤ)
    (pods live : ℕ) (w : W)
    → sts.spec.replicas ≡ some n
    → sts.status.replicas ≡ pos pods
    → sts.status.ready_replicas ≡ pos live
    → live ≤ pods
    → pods < 2 ^ 31
    → (dead : ℕ) × (live + dead ≡ pods)
      × (exit server (data_node_status old (ok sts)) w
          ≡ returned (record {
            replicas = n;
            ready_replicas = pos live;
            live_nodes = pos live;
            dead_nodes = pos dead;
          }))
unfolding data_node_status exit
data_node_status-counts server old sts n pods live w e1 e2 e3 h b =
    (pods - live, omega (arith, h), counted)
  where
    counted :
        exit server (data_node_status old (ok sts)) w
        ≡ returned (record {
          replicas = n;
          ready_replicas = pos live;
          live_nodes = pos live;
          dead_nodes = pos (pods - live);
        })
    counted = rw (e1, e2, e3, sub_pos pods live h, wrap-small (pods - live) (omega (arith, b)))
