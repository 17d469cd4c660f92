-- ===== src/Qoder/Config/Sites/Addresses.antt =====
-- The addresses in core-site.xml and yarn-site.xml against the pods that answer under them.

use work_script.Prelude.{
  ◌≡◌, String, Bool, true, false, Option, none, some, [], ◌∷◌, lookup, concat, ◌⊎◌,
}
use work_script.Kube.{StatefulSetSpec}
use work_script.Qoder.Types.{HadoopCluster, HaSpec, ZooKeeperSpec}
use work_script.Qoder.Config.Names.{is_nn_ha, is_rm_ha}
use work_script.Qoder.Config.Sites.{core_site, yarn_site}

-- The first pod of the StatefulSet of a component, behind the service that the set names.
abbrev pub first_pod : HadoopCluster → String → StatefulSetSpec → String
first_pod c component set = concat (
    c.name ∷ "-" ∷ component ∷ "-" ∷ "0" ∷ "." ∷ set.service_name ∷ "." ∷ c.namespace
    ∷ ".svc.cluster.local" ∷ [])

-- The ZooKeeper that HDFS and YARN use: the one that the HA settings of the NameNode name by a
-- connection string that is not empty, or else the first pod of the cluster's own.
pub data Quorum (c : HadoopCluster) (own : StatefulSetSpec) : Option HaSpec → String → Type 0 where
  without_ha : Quorum c own none (concat (first_pod c "zookeeper" own ∷ ":2181" ∷ []))
  unnamed :
      (ha : HaSpec)
      → ha.zoo_keeper ≡ none
      → Quorum c own (some ha) (concat (first_pod c "zookeeper" own ∷ ":2181" ∷ []))
  named_empty :
      (ha : HaSpec) (zk : ZooKeeperSpec)
      → ha.zoo_keeper ≡ some zk
      → zk.connection_string ≡ ""
      → Quorum c own (some ha) (concat (first_pod c "zookeeper" own ∷ ":2181" ∷ []))
  named :
      (ha : HaSpec) (zk : ZooKeeperSpec)
      → ha.zoo_keeper ≡ some zk
      → ¬ (zk.connection_string ≡ "")
      → Quorum c own (some ha) zk.connection_string

-- The file system is the name service, with failover by ZooKeeper, in HA mode, and otherwise the
-- first pod of the NameNode.
abbrev pub FileSystem : HadoopCluster → StatefulSetSpec → StatefulSetSpec → Type 0
FileSystem c own nn =
    ((is_nn_ha c ≡ true)
      × (lookup "fs.defaultFS" (core_site c) ≡ some (concat ("hdfs://" ∷ c.name ∷ [])))
      × ((q : String) × (lookup "ha.zookeeper.quorum" (core_site c) ≡ some q)
          × Quorum c own c.spec.hdfs.name_node.ha q))
    ⊎ ((is_nn_ha c ≡ false)
        × (lookup "fs.defaultFS" (core_site c)
            ≡ some (concat ("hdfs://" ∷ first_pod c "namenode" nn ∷ ":9000" ∷ [])))
        × (lookup "ha.zookeeper.quorum" (core_site c) ≡ none))

-- YARN keeps its state in the same ZooKeeper in HA mode, and otherwise in none.
abbrev pub YarnState : HadoopCluster → StatefulSetSpec → Type 0
YarnState c own =
    ((is_rm_ha c ≡ true)
      × ((q : String) × (lookup "yarn.resourcemanager.zk-address" (yarn_site c) ≡ some q)
          × Quorum c own c.spec.hdfs.name_node.ha q))
    ⊎ ((is_rm_ha c ≡ false) × (lookup "yarn.resourcemanager.zk-address" (yarn_site c) ≡ none))
