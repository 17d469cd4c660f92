-- ===== src/Trae/Controller/Distinct.antt =====
-- The nine objects of a cluster have nine keys.
use mathlib.Core.Bool.{false≢true}
use text.Mathlib.TextLemmas.{append_cancel_left}
use text.Mathlib.Text.{◌==◌}
use work_script.Prelude.{
  ◌≡◌, refl, sym, ◌∙◌, String, false, List, [], ◌∷◌, inl, inr, Bool-cases, eq_iff, arith, concat,
}
use work_script.Kube.{NamespacedName}
use work_script.Trae.Types.{HadoopCluster}
use work_script.Trae.Api
use work_script.Trae.Env.{Env}
use work_script.Trae.Workload.{object_name}
use work_script.Trae.ConfigMap.{new_config_map}
use work_script.Trae.NameNode.Base.{new_name_node_service, name_node_set}
use work_script.Trae.DataNode.{new_data_node_service, data_node_set}
use work_script.Trae.ResourceManager.{
  new_resource_manager_service, new_resource_manager_stateful_set,
}
use work_script.Trae.NodeManager.{new_node_manager_service, new_node_manager_stateful_set}
use work_script.Trae.Controller.Wanted.{wanted}
use work_script.Trae.Store.{same_key, wanted_at, Apart}

abbrev component_key : HadoopCluster → String → NamespacedName
component_key c component = record { namespace = c.namespace; name = object_name c component }

-- Different components have different keys.
keys-differ :
    (c : HadoopCluster) (a b : String)
    → (concat ("-" ∷ a ∷ []) == concat ("-" ∷ b ∷ [])) ≡ false
    → same_key (component_key c a) (component_key c b) ≡ false
keys-differ c a b h = elim (Bool-cases (object_name c a == object_name c b)) [
  | inl same ↦
      let e = append_cancel_left c.name _ _ ((eq_iff (object_name c a) (object_name c b)).0 same) in
      absurd (false≢true (sym h ∙ (eq_iff (concat ("-" ∷ a ∷ [])) (concat ("-" ∷ b ∷ []))).1 e))
  | inr other ↦ rw other (ground arith)
]

pub wanted-Apart :
    (env : Env) (c : HadoopCluster) (claims : List Api.PersistentVolumeClaim)
    (claim : Api.PersistentVolumeClaim)
    → Apart (wanted env c claims claim)
unfolding wanted wanted_at new_config_map new_name_node_service name_node_set new_data_node_service
    data_node_set new_resource_manager_service new_resource_manager_stateful_set
    new_node_manager_service new_node_manager_stateful_set
wanted-Apart env c claims claim =
    let dn_nn = keys-differ c "datanode" "namenode" refl in
    let rm_nn = keys-differ c "resourcemanager" "namenode" refl in
    let nm_nn = keys-differ c "nodemanager" "namenode" refl in
    let rm_dn = keys-differ c "resourcemanager" "datanode" refl in
    let nm_dn = keys-differ c "nodemanager" "datanode" refl in
    let nm_rm = keys-differ c "nodemanager" "resourcemanager" refl in
    (
      refl,
      (
        rw (dn_nn, rm_nn, nm_nn) refl,
        (
          rw (dn_nn, rm_nn, nm_nn) refl,
          (
            rw (rm_dn, nm_dn) refl,
            (rw (rm_dn, nm_dn) refl, (rw nm_rm refl, (rw nm_rm refl, (refl, (refl, tt))))),
          ),
        ),
      ),
    )
