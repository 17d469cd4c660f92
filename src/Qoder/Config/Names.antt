-- ===== src/Qoder/Config/Names.antt =====
-- internal/reconciler/configmap.go: image, service names, ZooKeeper quorum, and the test for HA.
use text.Mathlib.Text.{◌==◌}
use work_script.Prelude.{String, Bool, false, Option, none, some, [], ◌∷◌, concat, if◌then◌else◌}
use work_script.Qoder.Types.{HadoopCluster, HaSpec}

-- HA != nil && HA.Enabled
unfoldable pub ha_enabled : Option HaSpec → Bool
ha_enabled none = false
ha_enabled (some ha) = ha.enabled

unfoldable pub is_nn_ha : HadoopCluster → Bool
unfolding ha_enabled
is_nn_ha cluster = ha_enabled cluster.spec.hdfs.name_node.ha

unfoldable pub is_rm_ha : HadoopCluster → Bool
unfolding ha_enabled
is_rm_ha cluster = ha_enabled cluster.spec.yarn.resource_manager.ha

-- The name of a pod of a headless service: <cluster>-<component>-<i>.<cluster>-<component>.<ns>….
abbrev pub pod_address : HadoopCluster → String → String → String → String
pod_address cluster component index port = concat (
    cluster.name ∷ "-" ∷ component ∷ "-" ∷ index ∷ "." ∷ cluster.name ∷ "-" ∷ component ∷ "."
    ∷ cluster.namespace ∷ ".svc.cluster.local" ∷ port ∷ [])

unfoldable pub nn_service : HadoopCluster → String
nn_service cluster = pod_address cluster "namenode" "0" ""

unfoldable pub rm_service : HadoopCluster → String
rm_service cluster = pod_address cluster "resourcemanager" "0" ""

-- The connection string of an external ZooKeeper, if one is configured.
unfoldable pub external_zoo_keeper : Option HaSpec → Option String
external_zoo_keeper none = none
external_zoo_keeper (some ha) = elim ha.zoo_keeper [
  | none ↦ none
  | some zk ↦ if zk.connection_string == "" then none else some zk.connection_string
]

unfoldable pub get_zoo_keeper_quorum : HadoopCluster → String
unfolding external_zoo_keeper
get_zoo_keeper_quorum cluster = elim (external_zoo_keeper cluster.spec.hdfs.name_node.ha) [
  | some connection ↦ connection
  | none ↦ pod_address cluster "zookeeper" "0" ":2181"
]

unfoldable pub get_image : HadoopCluster → String
get_image cluster =
    let repo =
      if cluster.spec.image.repository == ""
      then "apache/hadoop"
      else cluster.spec.image.repository in
    let tag = if cluster.spec.image.tag == "" then "3.3.6" else cluster.spec.image.tag in
    concat (repo ∷ ":" ∷ tag ∷ [])
