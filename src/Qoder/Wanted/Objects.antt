-- ===== src/Qoder/Wanted/Objects.antt =====
-- Each component reconciler brings about its objects, on a server that grants what it is asked.

use work_script.Prelude.{
  ◌≡◌, refl, ◌∙◌, pos, String, Bool, true, false, Option, none, some, List, [], ◌∷◌, Dict,
  if◌then◌else◌, Bool-cases, inl, inr, ltb_ℤ,
}
use work_script.Kube.{IntOrString, from_int}
use work_script.Qoder.Types.{HadoopCluster, HaSpec}
use work_script.Qoder.Program.{ok, ret, config_map, pod_disruption_budget}
use work_script.Qoder.Env.{Env}
use work_script.Qoder.Behaviour.{of_ret}
use work_script.Qoder.Components.{must_parse-Holds, with_defaults-Holds}
use work_script.Qoder.Reconcilers.{Sizes}
use work_script.Qoder.Workload.{with_defaults, with_default_resources}
use work_script.Qoder.ConfigMap.{reconcile_config_map}
use work_script.Qoder.ZooKeeper.{
  zoo_keeper_spec, zoo_keeper_unless, zoo_keeper_program, reconcile_zoo_keeper,
}
use work_script.Qoder.JournalNode.{
  journal_node_spec, journal_node_resources, journal_node_of, journal_node_program,
  reconcile_journal_node,
}
use work_script.Qoder.NameNode.{name_node_spec, reconcile_name_node_service, reconcile_name_node}
use work_script.Qoder.DataNode.{data_node_spec, reconcile_data_node_service, reconcile_data_node}
use work_script.Qoder.ResourceManager.{
  resource_manager_spec, reconcile_resource_manager_service, reconcile_resource_manager,
}
use work_script.Qoder.NodeManager.{
  node_manager_spec, reconcile_node_manager_service, reconcile_node_manager,
}
use work_script.Qoder.Disruption.{
  name_node_pdb, resource_manager_pdb, data_node_pdb, node_manager_pdb, reconcile_pdbs,
  ensure_pdb_with_max_unavailable, pdb_selector, replica_budget, pdb_meta,
}
use work_script.Qoder.Config.Names.{ha_enabled, is_nn_ha, is_rm_ha, external_zoo_keeper}
use work_script.Qoder.Controller.{
  Component, run_component, config, zoo_keeper, journal_node, name_node_service, name_node,
  data_node_service, data_node, resource_manager_service, resource_manager, node_manager_service,
  node_manager, pdbs,
}
use work_script.Qoder.Config.Files.{generate_hadoop_config}
use work_script.Qoder.Wanted.{
  Want, want_at, config_contents, budget_contents, config_wants, zoo_keeper_wants,
  journal_node_wants, name_node_services, name_node_sets, data_node_services, data_node_sets,
  resource_manager_services, resource_manager_sets, node_manager_services, node_manager_sets,
  budget, budgets, replicas_budget,
}
use work_script.Qoder.Wanted.Rules.{
  Fine, OwnsInPlace, EqualAlike, Does, done, unseen, Does-next, create_or_update-Does,
}
use work_script.Qoder.Wanted.Shared.{
  with_owner-Does, ensure_service-Does, ensure_stateful_set-Does, services-Does, sized_set-Does,
  plain_set-Does, default_resources-Does,
}

-- What a component brings about.
abbrev pub objects_of : Env → Component → HadoopCluster → List Want
objects_of env config c = config_wants env c
objects_of env zoo_keeper c = zoo_keeper_wants env c (external_zoo_keeper c.spec.hdfs.name_node.ha)
objects_of env journal_node c = journal_node_wants env c c.spec.hdfs.name_node.ha
objects_of env name_node_service c = name_node_services env c
objects_of env name_node c = name_node_sets env c
objects_of env data_node_service c = data_node_services env c
objects_of env data_node c = data_node_sets env c
objects_of env resource_manager_service c = resource_manager_services env c
objects_of env resource_manager c = resource_manager_sets env c
objects_of env node_manager_service c = node_manager_services env c
objects_of env node_manager c = node_manager_sets env c
objects_of env pdbs c = budgets env c

module _ (env : Env) (owns : OwnsInPlace env) (alike : EqualAlike env) where
  config_map-Does :
      (c : HadoopCluster) → Does Fine (reconcile_config_map env c) (config_wants env c)
  unfolding reconcile_config_map
  config_map-Does c =
      create_or_update-Does env config_map _ _ (config_contents (generate_hadoop_config env c))
        alike
        (λ found n s.
          with_owner-Does env owns alike c found.metadata
            (λ owned. record { metadata = owned; contents = generate_hadoop_config env c })
            (λ owned p q i. record {
              kind = config_map;
              namespace = (q ∙ s) i;
              name = (p ∙ n) i;
              contents = config_contents (generate_hadoop_config env c);
            }))

  zoo_keeper-Does :
      (c : HadoopCluster) (o : Option String)
      → Sizes env ⊥ c.spec
      → Does Fine (zoo_keeper_unless env c o) (zoo_keeper_wants env c o)
  unfolding zoo_keeper_unless zoo_keeper_program zoo_keeper_spec
  zoo_keeper-Does c (some connection) s = done _ tt
  zoo_keeper-Does c none s = Does-next _ (ensure_service-Does env owns alike c _ _) λ _ _.
      ensure_stateful_set-Does env owns alike c _ _ _
        (unseen (must_parse-Holds env _ _ s.zoo_keeper_storage λ _. of_ret _ refl))

  pdb-Does :
      (c : HadoopCluster) (b : Bool) (component : String) (selector : Dict String)
      (max_unavailable : IntOrString)
      → Does Fine
          (if b
            then ensure_pdb_with_max_unavailable env c component selector max_unavailable
            else ret (ok tt))
          (if b
            then want_at pod_disruption_budget
                (pdb_meta c component)
                (budget_contents selector max_unavailable)
              ∷ []
            else [])
  unfolding ensure_pdb_with_max_unavailable
  pdb-Does c false component selector max_unavailable = done _ tt
  pdb-Does c true component selector max_unavailable =
      create_or_update-Does env pod_disruption_budget _ _ (budget_contents selector max_unavailable)
        alike
        (λ found n s.
          with_owner-Does env owns alike c found.metadata
            (λ owned. record {
              metadata = owned;
              max_unavailable = max_unavailable;
              selector = selector;
            })
            (λ owned p q i. record {
              kind = pod_disruption_budget;
              namespace = (q ∙ s) i;
              name = (p ∙ n) i;
              contents = budget_contents selector max_unavailable;
            }))

  name_node_pdb-Does :
      (c : HadoopCluster)
      → Does Fine
          (name_node_pdb env c)
          (budget env c (ha_enabled c.spec.hdfs.name_node.ha) "namenode" (from_int (pos 1)))
  unfolding name_node_pdb pdb_selector pdb_meta is_nn_ha
  name_node_pdb-Does c =
      pdb-Does c (is_nn_ha c) "namenode" (pdb_selector c "hadoop-namenode") (from_int (pos 1))

  resource_manager_pdb-Does :
      (c : HadoopCluster)
      → Does Fine (resource_manager_pdb env c) (
          budget env c
            (ha_enabled c.spec.yarn.resource_manager.ha)
            "resourcemanager"
            (from_int (pos 1)))
  unfolding resource_manager_pdb pdb_selector pdb_meta is_rm_ha
  resource_manager_pdb-Does c =
      pdb-Does c (is_rm_ha c) "resourcemanager" (pdb_selector c "hadoop-resourcemanager")
        (from_int (pos 1))

  data_node_pdb-Does :
      (c : HadoopCluster)
      → Does Fine
          (data_node_pdb env c)
          (replicas_budget env c "datanode" c.spec.hdfs.data_node.replicas)
  unfolding data_node_pdb pdb_selector pdb_meta replica_budget
  data_node_pdb-Does c =
      pdb-Does c (ltb_ℤ (pos 1) c.spec.hdfs.data_node.replicas) "datanode"
        (pdb_selector c "hadoop-datanode") (replica_budget c.spec.hdfs.data_node.replicas)

  node_manager_pdb-Does :
      (c : HadoopCluster)
      → Does Fine
          (node_manager_pdb env c)
          (replicas_budget env c "nodemanager" c.spec.yarn.node_manager.replicas)
  unfolding node_manager_pdb pdb_selector pdb_meta replica_budget
  node_manager_pdb-Does c =
      pdb-Does c (ltb_ℤ (pos 1) c.spec.yarn.node_manager.replicas) "nodemanager"
        (pdb_selector c "hadoop-nodemanager") (replica_budget c.spec.yarn.node_manager.replicas)

  pdbs-Does : (c : HadoopCluster) → Does Fine (reconcile_pdbs env c) (budgets env c)
  unfolding reconcile_pdbs
  pdbs-Does c = Does-next _ (name_node_pdb-Does c) λ _ _.
      Does-next _ (resource_manager_pdb-Does c)
        λ _ _. Does-next _ (data_node_pdb-Does c) λ _ _. node_manager_pdb-Does c

  journal_node-Does :
      (c : HadoopCluster) (ha : Option HaSpec)
      → c.spec.hdfs.name_node.ha ≡ ha
      → Sizes env ⊥ c.spec
      → Does Fine (journal_node_of env c ha) (journal_node_wants env c ha)
  unfolding journal_node_of journal_node_program journal_node_resources journal_node_spec
  journal_node-Does c none e s = done _ tt
  journal_node-Does c (some ha) e s = elim (Bool-cases ha.enabled) [
    | inr off ↦ rw off (done _ tt)
    | inl on ↦ rw on (
        Does-next _ (ensure_service-Does env owns alike c _ _) λ _ _.
          sized_set-Does env owns alike c _ _
            (with_defaults env ha.journal_node.resources "250m" "1Gi" "500m" "2Gi") _ _
            (unseen
              (with_defaults-Holds env _ _ _ _ _ s.cpu_250m s.memory_1gi s.cpu_500m s.memory_2gi))
            (s.journal_node_storage ha e) (λ _ _ _. refl))
  ]

  pub run_component-Does :
      (x : Component) (c : HadoopCluster)
      → Sizes env ⊥ c.spec
      → Does Fine (run_component env x c) (objects_of env x c)
  unfolding run_component reconcile_zoo_keeper reconcile_journal_node reconcile_name_node_service
      reconcile_data_node_service reconcile_resource_manager_service reconcile_node_manager_service
      reconcile_name_node reconcile_data_node reconcile_resource_manager reconcile_node_manager
      name_node_spec data_node_spec resource_manager_spec node_manager_spec is_nn_ha is_rm_ha
  run_component-Does config c s = config_map-Does c
  run_component-Does zoo_keeper c s = zoo_keeper-Does c _ s
  run_component-Does journal_node c s = journal_node-Does c _ refl s
  run_component-Does name_node_service c s = services-Does env owns alike c _ _ _ _
  run_component-Does name_node c s =
      sized_set-Does env owns alike c _ _
        (with_default_resources env c.spec.hdfs.name_node.resources) (name_node_spec c) _
        (default_resources-Does env owns alike c _ s) s.name_node_storage (λ _ _ _. refl)
  run_component-Does data_node_service c s = services-Does env owns alike c _ _ _ _
  run_component-Does data_node c s =
      sized_set-Does env owns alike c _ _
        (with_default_resources env c.spec.hdfs.data_node.resources) (data_node_spec c) _
        (default_resources-Does env owns alike c _ s) s.data_node_storage (λ _ _ _. refl)
  run_component-Does resource_manager_service c s = services-Does env owns alike c _ _ _ _
  run_component-Does resource_manager c s =
      plain_set-Does env owns alike c _
        (with_default_resources env c.spec.yarn.resource_manager.resources)
        (resource_manager_spec c) _ (default_resources-Does env owns alike c _ s) (λ _ _. refl)
  run_component-Does node_manager_service c s = services-Does env owns alike c _ _ _ _
  run_component-Does node_manager c s =
      plain_set-Does env owns alike c _
        (with_default_resources env c.spec.yarn.node_manager.resources) (node_manager_spec c) _
        (default_resources-Does env owns alike c _ s) (λ _ _. refl)
  run_component-Does pdbs c s = pdbs-Does c
