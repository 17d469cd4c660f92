-- ===== src/Qoder/Disruption.antt =====
-- internal/reconciler/controller.go: the PodDisruptionBudgets of an HA cluster.
use work_script.Prelude.{pos, ltb_ℤ, ℤ, String, [], ◌∷◌, Dict, if◌then◌else◌}
use work_script.Kube.{ObjectMeta, IntOrString, from_int, from_string}
use work_script.Qoder.Types.{HadoopCluster}
use work_script.Qoder.Program.{Program, Result, ok, pod_disruption_budget, ret, try, ◌>>=◌}
use work_script.Qoder.Env.{Env}
use work_script.Qoder.Config.Names.{is_nn_ha, is_rm_ha}
use work_script.Qoder.Workload.{create_or_update, component_name, with_owner}

unfoldable pub pdb_meta : HadoopCluster → String → ObjectMeta
pdb_meta cluster component = record {
  name = component_name cluster component;
  namespace = cluster.namespace;
  labels =
      ("hadoop.apache.org/cluster", cluster.name)
      ∷ ("hadoop.apache.org/managed-by", "hadoop-operator")
      ∷ [];
  annotations = [];
  owner_references = [];
}

unfoldable pub pdb_selector : HadoopCluster → String → Dict String
pdb_selector cluster app = ("app", app) ∷ ("hadoop.apache.org/cluster", cluster.name) ∷ []

unfoldable pub ensure_pdb_with_max_unavailable :
    Env → HadoopCluster → String → Dict String → IntOrString → Program (Result (Unit {0}))
unfolding create_or_update pdb_meta
ensure_pdb_with_max_unavailable env cluster component match_labels max_unavailable =
    create_or_update env pod_disruption_budget
      (record {
        metadata = pdb_meta cluster component;
        max_unavailable = from_int (pos 0);
        selector = [];
      })
      λ found. with_owner env cluster found.metadata λ owned. record {
        metadata = owned;
        max_unavailable = max_unavailable;
        selector = match_labels;
      }

-- One pod of three or more may be a quarter of them.
unfoldable pub replica_budget : ℤ → IntOrString
replica_budget replicas = if ltb_ℤ replicas (pos 3) then from_int (pos 1) else from_string "25%"

unfoldable pub name_node_pdb : Env → HadoopCluster → Program (Result (Unit {0}))
unfolding ensure_pdb_with_max_unavailable pdb_selector
name_node_pdb env cluster =
    if is_nn_ha cluster
    then ensure_pdb_with_max_unavailable env cluster "namenode"
        (pdb_selector cluster "hadoop-namenode") (from_int (pos 1))
    else ret (ok tt)

unfoldable pub resource_manager_pdb : Env → HadoopCluster → Program (Result (Unit {0}))
unfolding ensure_pdb_with_max_unavailable pdb_selector
resource_manager_pdb env cluster =
    if is_rm_ha cluster
    then ensure_pdb_with_max_unavailable env cluster "resourcemanager"
        (pdb_selector cluster "hadoop-resourcemanager") (from_int (pos 1))
    else ret (ok tt)

unfoldable pub data_node_pdb : Env → HadoopCluster → Program (Result (Unit {0}))
unfolding ensure_pdb_with_max_unavailable pdb_selector replica_budget
data_node_pdb env cluster =
    let replicas = cluster.spec.hdfs.data_node.replicas in
    if ltb_ℤ (pos 1) replicas
    then ensure_pdb_with_max_unavailable env cluster "datanode"
        (pdb_selector cluster "hadoop-datanode") (replica_budget replicas)
    else ret (ok tt)

unfoldable pub node_manager_pdb : Env → HadoopCluster → Program (Result (Unit {0}))
unfolding ensure_pdb_with_max_unavailable pdb_selector replica_budget
node_manager_pdb env cluster =
    let replicas = cluster.spec.yarn.node_manager.replicas in
    if ltb_ℤ (pos 1) replicas
    then ensure_pdb_with_max_unavailable env cluster "nodemanager"
        (pdb_selector cluster "hadoop-nodemanager") (replica_budget replicas)
    else ret (ok tt)

unfoldable pub reconcile_pdbs : Env → HadoopCluster → Program (Result (Unit {0}))
unfolding name_node_pdb resource_manager_pdb data_node_pdb node_manager_pdb
reconcile_pdbs env cluster = do
  first ← name_node_pdb env cluster
  try first λ _. do
    second ← resource_manager_pdb env cluster
    try second
        λ _. do third ← data_node_pdb env cluster; try third λ _. node_manager_pdb env cluster
