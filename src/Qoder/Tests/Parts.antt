-- ===== src/Qoder/Tests/Parts.antt =====
-- The statements on configuration, specs and status, at sample values.
use work_script.Prelude.{
  Dict, String, ◌≡◌, refl, pos, ℕ, ◌≤ℤ◌, ◌≤◌, ◌<◌, ◌+◌, ◌*◌, ◌⊎◌, arith, true, false, none, some,
  [], ◌∷◌, lookup, first_of, All, concat, if◌then◌else◌,
}
use work_script.Kube.{Quantity, ResourceRequirements}
use work_script.Qoder.Types.{unset, ClusterCondition, progressing, status_true, DataNodeStatus}
use work_script.Qoder.Program.{ok}
use work_script.Qoder.Server.{calls, exit, returned}
use work_script.Qoder.Config.Names.{is_nn_ha, get_zoo_keeper_quorum}
use work_script.Qoder.Config.Sites.{core_site}
use work_script.Qoder.Config.Sites.Overrides.{
  hdfs, site_properties, given, without_overrides, lookup-site_properties,
}
use work_script.Qoder.Config.Heap.{compute_heap_size, decimal}
use work_script.Qoder.Config.Heap.Bounds.{compute_heap_size-limit}
use work_script.Qoder.Status.{
  set_ready_condition, ready_condition, update_cluster_status, data_node_status,
}
use work_script.Qoder.Status.Conditions.{
  find_ready, other_conditions, set_ready_condition-lens, SendsReports,
}
use work_script.Qoder.Status.Report.{update_cluster_status-Reports, data_node_status-counts}
use work_script.Qoder.NameNode.{
  name_node_spec, name_node_headless_spec, name_node_external_spec, name_node_replicas,
}
use work_script.Qoder.DataNode.{
  data_node_spec, data_node_headless_spec, data_node_external_spec, data_node_replicas,
}
use work_script.Qoder.ResourceManager.{
  resource_manager_spec, resource_manager_headless_spec, resource_manager_external_spec,
  resource_manager_replicas,
}
use work_script.Qoder.NodeManager.{
  node_manager_spec, node_manager_headless_spec, node_manager_external_spec, node_manager_replicas,
}
use work_script.Qoder.ZooKeeper.{zoo_keeper_spec, zoo_keeper_service_spec}
use work_script.Qoder.JournalNode.{
  journal_node_spec, journal_node_service_spec, journal_node_replicas,
}
use work_script.Qoder.Shape.{WellFormed, Backs, stateful_sets-WellFormed, services-Backs}
use work_script.Qoder.Config.Files.{compute_config_hash}
use work_script.Qoder.Config.Heap.Decimal.{read_decimal, read_decimal-compute_heap_size}
use work_script.Qoder.Config.Printed.{read_xml_config, read_xml_config-generate_xml_config}
use work_script.Qoder.Config.Files.{generate_xml_config}
use work_script.Qoder.Config.Order.{swap, compute_config_hash-Reordered}
use work_script.Qoder.Shape.Replicas.{ha_replicas-bounds, given_replicas-kept}
use work_script.Qoder.Tests.{sample, sample_env, accepting, no_resources, journal_nodes, sample_set}

reports_example :
    All
      (SendsReports (sample unset false))
      (calls accepting (update_cluster_status (sample unset false)) tt)
reports_example = update_cluster_status-Reports accepting (sample unset false) tt

abbrev no_data_nodes : DataNodeStatus
no_data_nodes = record {
  ready_replicas = pos 0;
  replicas = pos 0;
  live_nodes = pos 0;
  dead_nodes = pos 0;
}

-- Two of three pods are ready.
counts_example :
    (dead : ℕ) × (2 + dead ≡ 3)
    × (exit accepting (data_node_status no_data_nodes (ok sample_set)) tt
        ≡ returned (record {
          replicas = pos 3;
          ready_replicas = pos 2;
          live_nodes = pos 2;
          dead_nodes = pos dead;
        }))
counts_example =
    data_node_status-counts accepting no_data_nodes sample_set (pos 3) 3 2 tt refl refl refl
      (omega arith) (omega arith)

abbrev in_progress : ClusterCondition
in_progress = record {
  condition_type = progressing;
  status = status_true;
  last_transition_time = pos 1;
  reason = "";
  message = "";
}

lens_example :
    (find_ready (set_ready_condition (ready_condition true (pos 7)) (in_progress ∷ []))
      ≡ some (ready_condition true (pos 7)))
    × (other_conditions (set_ready_condition (ready_condition true (pos 7)) (in_progress ∷ []))
        ≡ other_conditions (in_progress ∷ []))
    × (set_ready_condition
          (ready_condition true (pos 7))
          (set_ready_condition (ready_condition false (pos 5)) (in_progress ∷ []))
        ≡ set_ready_condition (ready_condition true (pos 7)) (in_progress ∷ []))
unfolding ready_condition
lens_example =
    set_ready_condition-lens (ready_condition true (pos 7)) (ready_condition false (pos 5))
      (in_progress ∷ []) refl refl

override_example :
    lookup "dfs.replication" (site_properties (sample unset false) hdfs)
    ≡ first_of
        (lookup "dfs.replication" (given (sample unset false) hdfs))
        (lookup "dfs.replication" (site_properties (without_overrides (sample unset false)) hdfs))
unfolding given lookup
override_example = lookup-site_properties (sample unset false) hdfs "dfs.replication" (refl, tt)

abbrev four_gi : Quantity
four_gi = record { text = "4Gi"; value = pos 4294967296 }

abbrev limited : ResourceRequirements
limited = record { requests = none; limits = some (("memory", four_gi) ∷ []) }

limit_example :
    ((2097152 ≤ 4294967296)
      × (heap : ℕ) × (0 < heap)
      × (100 * (heap * 1048576) ≤ 80 * 4294967296)
      × (compute_heap_size limited "1024" ≡ decimal heap))
    ⊎ ((4294967296 < 2097152) × (compute_heap_size limited "1024" ≡ "1024"))
unfolding lookup
limit_example =
    compute_heap_size-limit limited (("memory", four_gi) ∷ []) four_gi 4294967296 "1024" refl refl
      refl

read_heap_example : read_decimal 0 (compute_heap_size limited "1024") ≡ 3276
unfolding lookup
read_heap_example =
    read_decimal-compute_heap_size limited (("memory", four_gi) ∷ []) four_gi 4294967296 "1024" refl
      refl refl (omega arith) (omega arith)

printed_example :
    read_xml_config 50 "configuration"
      (generate_xml_config sample_env "configuration" (core_site (sample unset false)))
    ≡ some (sample_env.map_order (core_site (sample unset false)))
unfolding core_site work_script.Prelude.merge is_nn_ha get_zoo_keeper_quorum
printed_example =
    read_xml_config-generate_xml_config sample_env 50 "configuration"
      (core_site (sample unset false)) (omega arith) refl

shapes_example :
    WellFormed (name_node_spec (sample unset false) no_resources [] four_gi)
    × WellFormed (data_node_spec (sample unset false) no_resources [] four_gi)
    × WellFormed (resource_manager_spec (sample unset false) no_resources [])
    × WellFormed (node_manager_spec (sample unset false) no_resources [])
    × WellFormed (zoo_keeper_spec (sample unset false) four_gi)
    × WellFormed (journal_node_spec (sample unset false) journal_nodes no_resources [] four_gi)
shapes_example = stateful_sets-WellFormed (sample unset false) no_resources [] four_gi journal_nodes

endpoints_example :
    (Backs
        (name_node_spec (sample unset false) no_resources [] four_gi)
        (name_node_headless_spec (sample unset false))
      × Backs
          (name_node_spec (sample unset false) no_resources [] four_gi)
          (name_node_external_spec (sample unset false)))
    × (Backs
          (data_node_spec (sample unset false) no_resources [] four_gi)
          (data_node_headless_spec (sample unset false))
        × Backs
            (data_node_spec (sample unset false) no_resources [] four_gi)
            (data_node_external_spec (sample unset false)))
    × (Backs
          (resource_manager_spec (sample unset false) no_resources [])
          (resource_manager_headless_spec (sample unset false))
        × Backs
            (resource_manager_spec (sample unset false) no_resources [])
            (resource_manager_external_spec (sample unset false)))
    × (Backs
          (node_manager_spec (sample unset false) no_resources [])
          (node_manager_headless_spec (sample unset false))
        × Backs
            (node_manager_spec (sample unset false) no_resources [])
            (node_manager_external_spec (sample unset false)))
    × Backs
        (zoo_keeper_spec (sample unset false) four_gi)
        (zoo_keeper_service_spec (sample unset false))
    × Backs
        (journal_node_spec (sample unset false) journal_nodes no_resources [] four_gi)
        (journal_node_service_spec (sample unset false))
endpoints_example = services-Backs (sample unset false) no_resources [] four_gi journal_nodes

ha_replicas_example :
    (pos 2 ≤ℤ name_node_replicas (pos 1) true)
    × (pos 2 ≤ℤ resource_manager_replicas (pos 1) true)
    × (pos 3 ≤ℤ journal_node_replicas (pos 1))
ha_replicas_example = ha_replicas-bounds (pos 1)

given_replicas_example :
    (name_node_replicas (pos 5) true ≡ pos 5)
    × (resource_manager_replicas (pos 5) true ≡ pos 5)
    × (data_node_replicas (pos 5) ≡ pos 5)
    × (node_manager_replicas (pos 5) ≡ pos 5)
    × (journal_node_replicas (pos 5) ≡ pos 5)
given_replicas_example = given_replicas-kept 5 true (omega arith)

abbrev two_files : Dict String
two_files = ("hadoop-env.sh", "a") ∷ ("core-site.xml", "b") ∷ []

abbrev two_files_back : Dict String
two_files_back = ("core-site.xml", "b") ∷ ("hadoop-env.sh", "a") ∷ []

hash_example :
    compute_config_hash sample_env two_files ≡ compute_config_hash sample_env two_files_back
unfolding lookup
hash_example =
    compute_config_hash-Reordered sample_env two_files two_files_back (refl, (refl, tt))
      (swap "hadoop-env.sh" "a" "core-site.xml" "b" [])
