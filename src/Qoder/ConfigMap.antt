-- ===== src/Qoder/ConfigMap.antt =====
-- internal/reconciler/configmap.go: ReconcileConfigMap.
use work_script.Prelude.{String, [], ◌∷◌, Dict}
use work_script.Qoder.Types.{HadoopCluster}
use work_script.Qoder.Program.{Program, Result, config_map}
use work_script.Qoder.Env.{Env}
use work_script.Qoder.Config.Files.{generate_hadoop_config}
use work_script.Qoder.Workload.{create_or_update, object_meta, with_owner}

unfoldable pub config_map_labels : HadoopCluster → Dict String
config_map_labels cluster =
    ("hadoop.apache.org/cluster", cluster.name)
    ∷ ("hadoop.apache.org/managed-by", "hadoop-operator")
    ∷ []

unfoldable pub reconcile_config_map : Env → HadoopCluster → Program (Result (Unit {0}))
unfolding create_or_update config_map_labels
reconcile_config_map env cluster =
    create_or_update env config_map
      (record {
        metadata = object_meta cluster "config" (config_map_labels cluster) [];
        contents = [];
      })
      λ found.
        with_owner env cluster found.metadata
          λ owned. record { metadata = owned; contents = generate_hadoop_config env cluster }
