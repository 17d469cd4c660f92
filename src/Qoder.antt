-- ===== src/Qoder.antt =====
-- The operator of Apache/Hadoop/kubernetes/operator/hadoop-dev-qoder/hadoop-operator.
pub mod Types
pub mod Program
pub mod Env
pub mod Config
pub mod Workload
pub mod NameNode
pub mod DataNode
pub mod ResourceManager
pub mod NodeManager
pub mod ZooKeeper
pub mod JournalNode
pub mod ConfigMap
pub mod Disruption
pub mod Status
pub mod Server
pub mod Components
pub mod Controller
pub mod Reconcilers
pub mod Shape
pub mod Tests
pub mod Behaviour
pub mod Wanted
