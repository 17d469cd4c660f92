-- ===== src/Qoder/Config/Heap.antt =====
-- internal/reconciler/configmap.go: the heap size that hadoop-env.sh gives each daemon. An int64
-- quotient is rounded towards zero; 80 times a quotient by 2^20 of an int64 does not overflow.
pub mod Bounds
pub mod Decimal
use Prim.Native.String.{◌++◌}
use work_script.Prelude.{
  ℕ, zero, suc, ◌*◌, ◌/◌, ◌%◌, ℤ, pos, negsuc, ltb, String, none, some, [], ◌∷◌, lookup, concat,
  if◌then◌else◌,
}
use work_script.Kube.{ResourceRequirements}
use work_script.Qoder.Types.{HadoopCluster}

abbrev digit : ℕ → String
digit zero = "0"
digit (suc zero) = "1"
digit (suc (suc zero)) = "2"
digit (suc (suc (suc zero))) = "3"
digit (suc (suc (suc (suc zero)))) = "4"
digit (suc (suc (suc (suc (suc zero))))) = "5"
digit (suc (suc (suc (suc (suc (suc zero)))))) = "6"
digit (suc (suc (suc (suc (suc (suc (suc zero))))))) = "7"
digit (suc (suc (suc (suc (suc (suc (suc (suc zero)))))))) = "8"
digit _ = "9"

digits_fuel : ℕ → ℕ → String
digits_fuel zero n = digit (n % 10)
digits_fuel (suc fuel) n =
    let rest = digits_fuel fuel (n / 10) ++ digit (n % 10) in if ltb n 10 then digit n else rest

-- fmt.Sprintf("%d"): nineteen more digits are enough for every int64.
unfoldable pub decimal : ℕ → String
unfolding digits_fuel
decimal n = digits_fuel 19 n

-- int(memBytes / (1024 * 1024) * 80 / 100); of a negative limit the result is not positive.
unfoldable pub heap_mb : ℤ → ℕ
heap_mb (pos bytes) = bytes / (1024 * 1024) * 80 / 100
heap_mb (negsuc n) = 0

unfoldable pub compute_heap_size : ResourceRequirements → String → String
unfolding heap_mb decimal
compute_heap_size resources default_mb = elim resources.limits [
  | none ↦ default_mb
  | some limits ↦ elim (lookup "memory" limits) [
    | none ↦ default_mb
    | some mem ↦ if ltb 0 (heap_mb mem.value) then decimal (heap_mb mem.value) else default_mb
  ]
]

unfoldable pub generate_hadoop_env : HadoopCluster → String
unfolding compute_heap_size
generate_hadoop_env cluster = concat (
    "#!/bin/bash\n"
    ∷ "# Auto-generated by Hadoop Operator - Do not edit manually\n\n"
    ∷ "export HADOOP_NAMENODE_HEAPSIZE="
    ∷ compute_heap_size cluster.spec.hdfs.name_node.resources "1024"
    ∷ "\n"
    ∷ "export HADOOP_DATANODE_HEAPSIZE="
    ∷ compute_heap_size cluster.spec.hdfs.data_node.resources "1024"
    ∷ "\n"
    ∷ "export YARN_RESOURCEMANAGER_HEAPSIZE="
    ∷ compute_heap_size cluster.spec.yarn.resource_manager.resources "1024"
    ∷ "\n"
    ∷ "export YARN_NODEMANAGER_HEAPSIZE="
    ∷ compute_heap_size cluster.spec.yarn.node_manager.resources "1024"
    ∷ "\n"
    ∷ "\n# General Hadoop settings\n"
    ∷ "export HADOOP_HOME=/opt/hadoop\n"
    ∷ "export HADOOP_CONF_DIR=/opt/hadoop/etc/hadoop\n"
    ∷ "export HADOOP_LOG_DIR=/opt/hadoop/logs\n"
    ∷ "export HADOOP_PID_DIR=/tmp/hadoop-pids\n"
    ∷ "export JAVA_HOME=$(dirname $(dirname $(readlink -f $(which java))))\n"
    ∷ [])
