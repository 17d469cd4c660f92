-- ===== src/Qoder/Reconcilers.antt =====
-- Each component reconciler, from the rules of Qoder/Components.antt.
use work_script.Prelude.{◌≡◌, refl, pos, String, Bool, Option, none, some, Dict, if◌then◌else◌}
use work_script.Kube.{
  ObjectMeta, ApiError, KubeServiceSpec, StatefulSetSpec, ResourceRequirements, Quantity,
  IntOrString, from_int,
}
use work_script.Qoder.Types.{HadoopCluster, HadoopClusterSpec, HaSpec}
use work_script.Qoder.Program.{Program, Call, Answer, ok, ret, try, ◌>>=◌}
use work_script.Qoder.Env.{Env}
use work_script.Qoder.Config.Names.{is_nn_ha, is_rm_ha}
use work_script.Qoder.Behaviour.{Holds, AnyValue, of_ret, Holds-then, Holds-if}
use work_script.Qoder.Components.{
  Admits, Parses, Done, create_or_update-Done, with_owner-Done, ensure_service-Done,
  ensure_stateful_set-Done, pod_template_annotations-Holds, and_try-Done, must_parse-Holds,
  with_defaults-Holds,
}
use work_script.Qoder.Workload.{
  with_defaults, with_default_resources, ensure_service, ensure_stateful_set,
  pod_template_annotations, must_parse,
}
use work_script.Qoder.Config.Files.{generate_hadoop_config}
use work_script.Qoder.ConfigMap.{reconcile_config_map}
use work_script.Qoder.ZooKeeper.{zoo_keeper_unless, reconcile_zoo_keeper}
use work_script.Qoder.JournalNode.{journal_node_resources, journal_node_of, reconcile_journal_node}
use work_script.Qoder.NameNode.{
  storage_size, name_node_spec, reconcile_name_node_service, reconcile_name_node,
}
use work_script.Qoder.DataNode.{data_node_spec, reconcile_data_node_service, reconcile_data_node}
use work_script.Qoder.ResourceManager.{
  resource_manager_spec, reconcile_resource_manager_service, reconcile_resource_manager,
}
use work_script.Qoder.NodeManager.{
  node_manager_spec, reconcile_node_manager_service, reconcile_node_manager,
}
use work_script.Qoder.Disruption.{
  name_node_pdb, resource_manager_pdb, data_node_pdb, node_manager_pdb, reconcile_pdbs,
  ensure_pdb_with_max_unavailable, pdb_selector, replica_budget,
}
use work_script.Qoder.Controller.{
  Component, run_component, config, zoo_keeper, journal_node, name_node_service, name_node,
  data_node_service, data_node, resource_manager_service, resource_manager, node_manager_service,
  node_manager, pdbs,
}

-- resource.MustParse reads the texts that the operator itself gives, and the storage sizes of the
-- cluster; or else F.
pub record Sizes (env : Env) (F : Type 0) (spec : HadoopClusterSpec) : Type 0 where
  pub cpu_250m : Parses env F "250m"
  pub cpu_500m : Parses env F "500m"
  pub cpu_1000m : Parses env F "1000m"
  pub memory_1gi : Parses env F "1Gi"
  pub memory_2gi : Parses env F "2Gi"
  pub memory_4gi : Parses env F "4Gi"
  pub zoo_keeper_storage : Parses env F "10Gi"
  pub name_node_storage : Parses env F (storage_size spec.hdfs.name_node.storage "20Gi")
  pub data_node_storage : Parses env F (storage_size spec.hdfs.data_node.storage "100Gi")
  pub journal_node_storage :
      (ha : HaSpec)
      → spec.hdfs.name_node.ha ≡ some ha
      → Parses env F (storage_size ha.journal_node.storage "20Gi")

module _ {H : (c : Call) → Answer c → Type 0} {P : Call → Type 0} {E : ApiError → Type 0}
    {F : Type 0} {env : Env} (admits : Admits H P E env) where
  services-Done :
      (c : HadoopCluster) (m1 m2 : ObjectMeta) (s1 s2 : KubeServiceSpec)
      → Holds H P
          (Done E)
          F
          (ensure_service env c m1 s1 >>= λ r. try r λ _. ensure_service env c m2 s2)
  services-Done c m1 m2 s1 s2 =
      and_try-Done E _ (ensure_service-Done admits c m1 s1)
        (λ _. ensure_service-Done admits c m2 s2)

  -- A StatefulSet with a volume claim, and one without, after the resources are known.
  sized_set-Done :
      (c : HadoopCluster) (m : ObjectMeta) (size : String)
      (resources : Program ResourceRequirements)
      (make : ResourceRequirements → Dict String → Quantity → StatefulSetSpec)
      → Holds H P AnyValue F resources
      → Parses env F size
      → Holds H P (Done E) F (
          resources >>= λ r.
          ensure_stateful_set env c m
            (pod_template_annotations env c >>= λ a. must_parse env size λ q. ret (make r a q)))
  sized_set-Done c m size resources make h p = Holds-then _ h λ r _.
      ensure_stateful_set-Done admits c m _ (
        Holds-then _ (pod_template_annotations-Holds admits c)
          λ a _. must_parse-Holds env size _ p λ _. of_ret _ tt)

  plain_set-Done :
      (c : HadoopCluster) (m : ObjectMeta) (resources : Program ResourceRequirements)
      (make : ResourceRequirements → Dict String → StatefulSetSpec)
      → Holds H P AnyValue F resources
      → Holds H P (Done E) F (
          resources >>= λ r.
          ensure_stateful_set env c m (pod_template_annotations env c >>= λ a. ret (make r a)))
  plain_set-Done c m resources make h = Holds-then _ h λ r _.
      ensure_stateful_set-Done admits c m _
        (Holds-then _ (pod_template_annotations-Holds admits c) λ a _. of_ret _ tt)

  default_resources-Holds :
      (c : HadoopCluster) (resources : ResourceRequirements)
      → Sizes env F c.spec
      → Holds H P AnyValue F (with_default_resources env resources)
  unfolding with_default_resources
  default_resources-Holds c resources s =
      with_defaults-Holds env resources _ _ _ _ s.cpu_500m s.memory_2gi s.cpu_1000m s.memory_4gi

  config-Done : (c : HadoopCluster) → Holds H P (Done E) F (reconcile_config_map env c)
  unfolding reconcile_config_map
  config-Done c = create_or_update-Done admits _ _ _ (λ found.
      with_owner-Done admits c found.metadata
        λ owned. record { metadata = owned; contents = generate_hadoop_config env c })

  zoo_keeper-Done :
      (c : HadoopCluster) (o : Option String)
      → Sizes env F c.spec
      → Holds H P (Done E) F (zoo_keeper_unless env c o)
  unfolding zoo_keeper_unless
  zoo_keeper-Done c (some connection) s = of_ret _ tt
  zoo_keeper-Done c none s = and_try-Done E _ (ensure_service-Done admits c _ _) λ _.
      ensure_stateful_set-Done admits c _ _
        (must_parse-Holds env _ _ s.zoo_keeper_storage λ _. of_ret _ tt)

  journal_node-Done :
      (c : HadoopCluster) (ha : Option HaSpec)
      → c.spec.hdfs.name_node.ha ≡ ha
      → Sizes env F c.spec
      → Holds H P (Done E) F (journal_node_of env c ha)
  unfolding journal_node_of journal_node_resources
  journal_node-Done c none e s = of_ret _ tt
  journal_node-Done c (some ha) e s =
      Holds-if ha.enabled _ _
        (λ _. and_try-Done E _ (ensure_service-Done admits c _ _) λ _.
          sized_set-Done c _ _
            (with_defaults env ha.journal_node.resources "250m" "1Gi" "500m" "2Gi") _
            (with_defaults-Holds env _ _ _ _ _ s.cpu_250m s.memory_1gi s.cpu_500m s.memory_2gi)
            (s.journal_node_storage ha e))
        (λ _. of_ret _ tt)

  name_node-Done :
      (c : HadoopCluster) → Sizes env F c.spec → Holds H P (Done E) F (reconcile_name_node env c)
  unfolding reconcile_name_node
  name_node-Done c s =
      sized_set-Done c _ _ (with_default_resources env c.spec.hdfs.name_node.resources)
        (name_node_spec c) (default_resources-Holds c _ s) s.name_node_storage

  data_node-Done :
      (c : HadoopCluster) → Sizes env F c.spec → Holds H P (Done E) F (reconcile_data_node env c)
  unfolding reconcile_data_node
  data_node-Done c s =
      sized_set-Done c _ _ (with_default_resources env c.spec.hdfs.data_node.resources)
        (data_node_spec c) (default_resources-Holds c _ s) s.data_node_storage

  resource_manager-Done :
      (c : HadoopCluster)
      → Sizes env F c.spec
      → Holds H P (Done E) F (reconcile_resource_manager env c)
  unfolding reconcile_resource_manager
  resource_manager-Done c s =
      plain_set-Done c _ (with_default_resources env c.spec.yarn.resource_manager.resources)
        (resource_manager_spec c) (default_resources-Holds c _ s)

  node_manager-Done :
      (c : HadoopCluster) → Sizes env F c.spec → Holds H P (Done E) F (reconcile_node_manager env c)
  unfolding reconcile_node_manager
  node_manager-Done c s =
      plain_set-Done c _ (with_default_resources env c.spec.yarn.node_manager.resources)
        (node_manager_spec c) (default_resources-Holds c _ s)

  pdb-Done :
      (c : HadoopCluster) (b : Bool) (component : String) (selector : Dict String)
      (budget : IntOrString)
      → Holds H P (Done E) F (
          if b
          then ensure_pdb_with_max_unavailable env c component selector budget
          else ret (ok tt))
  unfolding ensure_pdb_with_max_unavailable
  pdb-Done c b component selector budget =
      Holds-if b _ _
        (λ _. create_or_update-Done admits _ _ _ (λ found.
          with_owner-Done admits c found.metadata
            λ owned. record { metadata = owned; max_unavailable = budget; selector = selector }))
        (λ _. of_ret _ tt)

  name_node_pdb-Done : (c : HadoopCluster) → Holds H P (Done E) F (name_node_pdb env c)
  unfolding name_node_pdb
  name_node_pdb-Done c =
      pdb-Done c (is_nn_ha c) "namenode" (pdb_selector c "hadoop-namenode") (from_int (pos 1))

  resource_manager_pdb-Done :
      (c : HadoopCluster) → Holds H P (Done E) F (resource_manager_pdb env c)
  unfolding resource_manager_pdb
  resource_manager_pdb-Done c =
      pdb-Done c (is_rm_ha c) "resourcemanager" (pdb_selector c "hadoop-resourcemanager")
        (from_int (pos 1))

  data_node_pdb-Done : (c : HadoopCluster) → Holds H P (Done E) F (data_node_pdb env c)
  unfolding data_node_pdb
  data_node_pdb-Done c =
      pdb-Done c _ "datanode" (pdb_selector c "hadoop-datanode")
        (replica_budget c.spec.hdfs.data_node.replicas)

  node_manager_pdb-Done : (c : HadoopCluster) → Holds H P (Done E) F (node_manager_pdb env c)
  unfolding node_manager_pdb
  node_manager_pdb-Done c =
      pdb-Done c _ "nodemanager" (pdb_selector c "hadoop-nodemanager")
        (replica_budget c.spec.yarn.node_manager.replicas)

  pdbs-Done : (c : HadoopCluster) → Holds H P (Done E) F (reconcile_pdbs env c)
  unfolding reconcile_pdbs
  pdbs-Done c = and_try-Done E _ (name_node_pdb-Done c) λ _.
      and_try-Done E _ (resource_manager_pdb-Done c)
        λ _. and_try-Done E _ (data_node_pdb-Done c) λ _. node_manager_pdb-Done c

  -- Every component: its calls are those that P allows, its error is one that E allows, and it
  -- panics only if F holds.
  pub run_component-Done :
      (x : Component) (c : HadoopCluster)
      → Sizes env F c.spec
      → Holds H P (Done E) F (run_component env x c)
  unfolding run_component reconcile_zoo_keeper reconcile_journal_node reconcile_name_node_service
      reconcile_data_node_service reconcile_resource_manager_service reconcile_node_manager_service
  run_component-Done config c s = config-Done c
  run_component-Done zoo_keeper c s = zoo_keeper-Done c _ s
  run_component-Done journal_node c s = journal_node-Done c _ refl s
  run_component-Done name_node_service c s = services-Done c _ _ _ _
  run_component-Done name_node c s = name_node-Done c s
  run_component-Done data_node_service c s = services-Done c _ _ _ _
  run_component-Done data_node c s = data_node-Done c s
  run_component-Done resource_manager_service c s = services-Done c _ _ _ _
  run_component-Done resource_manager c s = resource_manager-Done c s
  run_component-Done node_manager_service c s = services-Done c _ _ _ _
  run_component-Done node_manager c s = node_manager-Done c s
  run_component-Done pdbs c s = pdbs-Done c
