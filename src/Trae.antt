-- ===== src/Trae.antt =====
-- The operator of hadoop-dev-trae/hadoop-operator.
pub mod Types
pub mod Api
pub mod Env
pub mod ConfigMap
pub mod Workload
pub mod Affinity
pub mod NameNode
pub mod DataNode
pub mod ResourceManager
pub mod NodeManager
pub mod Program
pub mod Controller
pub mod Store
pub mod Server
pub mod Memory
pub mod Tests
pub mod Mounted
pub mod Shape
