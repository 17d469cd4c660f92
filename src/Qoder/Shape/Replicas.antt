-- ===== src/Qoder/Shape/Replicas.antt =====
-- How many replicas the StatefulSets ask for.
use work_script.Prelude.{◌≡◌, ℤ, pos, negsuc, ◌≤ℤ◌, arith, Bool, true, false, ◌≤◌, ℕ}
use work_script.Qoder.NameNode.{name_node_replicas}
use work_script.Qoder.DataNode.{data_node_replicas}
use work_script.Qoder.ResourceManager.{resource_manager_replicas}
use work_script.Qoder.NodeManager.{node_manager_replicas}
use work_script.Qoder.JournalNode.{journal_node_replicas}

-- An HA NameNode or ResourceManager has two replicas at least and the JournalNodes are three at
-- least, whatever the cluster asks for.
pub ha_replicas-bounds :
    (given : ℤ)
    → (pos 2 ≤ℤ name_node_replicas given true)
      × (pos 2 ≤ℤ resource_manager_replicas given true)
      × (pos 3 ≤ℤ journal_node_replicas given)
unfolding name_node_replicas resource_manager_replicas journal_node_replicas
ha_replicas-bounds (pos n) = (ground arith, ground arith, ground arith)
ha_replicas-bounds (negsuc n) = (ground arith, ground arith, ground arith)

-- A number of replicas of three or more is kept by every component, in HA mode and not.
pub given_replicas-kept :
    (n : ℕ) (ha : Bool)
    → 3 ≤ n
    → (name_node_replicas (pos n) ha ≡ pos n)
      × (resource_manager_replicas (pos n) ha ≡ pos n)
      × (data_node_replicas (pos n) ≡ pos n)
      × (node_manager_replicas (pos n) ≡ pos n)
      × (journal_node_replicas (pos n) ≡ pos n)
unfolding name_node_replicas resource_manager_replicas data_node_replicas node_manager_replicas
    journal_node_replicas
given_replicas-kept n true h =
    (ground arith, ground arith, ground arith, ground arith, ground arith)
given_replicas-kept n false h =
    (ground arith, ground arith, ground arith, ground arith, ground arith)
