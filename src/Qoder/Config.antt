-- ===== src/Qoder/Config.antt =====
-- internal/reconciler/configmap.go: the Hadoop configuration files. A map literal is a list of
-- entries; an assignment to a map is `insert`; fmt.Sprintf is `concat`.
pub mod Names
pub mod Sites
pub mod Heap
pub mod Files
pub mod Order
pub mod Printed
