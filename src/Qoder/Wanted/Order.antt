-- ===== src/Qoder/Wanted/Order.antt =====
-- The components in turn, and the order in which their objects come about.

use mathlib.Core.List.{append_assoc, append-nil}
use work_script.Prelude.{
  pos, String, ◌≡◌, refl, sym, ap, ◌∙◌, Bool, true, false, List, [], ◌∷◌, ◌++◌, if◌then◌else◌, ◌||◌,
}
use work_script.Qoder.Program.{Program, Result, ok, err}
use work_script.Qoder.Env.{Env}
use work_script.Qoder.Config.Names.{is_nn_ha, is_rm_ha}
use work_script.Qoder.Controller.{
  Outcome, Component, run_component, run_components, after_component, as_outcome, zoo_keeper,
  journal_node, components, later_components,
}
use work_script.Qoder.Types.{HadoopCluster, HadoopClusterSpec, unset}
use work_script.Qoder.Wanted.{Want, wanted, config_wants, core_wants, budgets}
use work_script.Qoder.Wanted.Rules.{Fine, Does, Does-then}
use work_script.Qoder.Wanted.Objects.{objects_of}

-- What a list of components brings about.
abbrev pub all_objects : Env → List Component → HadoopCluster → List Want
all_objects env [] c = []
all_objects env (x ∷ xs) c = objects_of env x c ++ all_objects env xs c

after_component-Does :
    {Q : Outcome → Type 0} (r : Result (Unit {0})) (rest : Program Outcome) {vs : List Want}
    → Fine r
    → Does Q rest vs
    → Does Q (after_component (as_outcome r) rest) vs
unfolding after_component
after_component-Does (ok u) rest f h = h
after_component-Does (err e) rest f h = absurd f

pub run_components-Does :
    {Q : Outcome → Type 0} (env : Env) (xs : List Component) (c : HadoopCluster)
    (finish : Program Outcome)
    → ((x : Component) → Does Fine (run_component env x c) (objects_of env x c))
    → Does Q finish []
    → Does Q (run_components env xs c finish) (all_objects env xs c)
unfolding run_components
run_components-Does env [] c finish each h = h
run_components-Does env (x ∷ xs) c finish each h = Does-then _ (each x) λ r f.
    after_component-Does r (run_components env xs c finish) f
      (run_components-Does env xs c finish each h)

in_modes :
    (env : Env) (c : HadoopCluster) (nn_ha rm_ha : Bool)
    → all_objects env (components nn_ha rm_ha) c
      ≡ config_wants env c
        ++ ((if nn_ha then objects_of env zoo_keeper c ++ objects_of env journal_node c else [])
            ++ (core_wants env c ++ (if nn_ha || rm_ha then budgets env c else [])))
unfolding components later_components
in_modes env c true rm_ha =
    ap
      (λ t.
        config_wants env c
        ++ (objects_of env zoo_keeper c
            ++ (objects_of env journal_node c ++ (core_wants env c ++ t))))
      (append-nil (budgets env c))
    ∙ ap (λ t. config_wants env c ++ t)
        (sym (append_assoc (objects_of env zoo_keeper c) (objects_of env journal_node c) _))
in_modes env c false true =
    ap (λ t. config_wants env c ++ (core_wants env c ++ t)) (append-nil (budgets env c))
in_modes env c false false = refl

pub components-wanted :
    (env : Env) (c : HadoopCluster)
    → all_objects env (components (is_nn_ha c) (is_rm_ha c)) c ≡ wanted env c
unfolding is_nn_ha is_rm_ha
components-wanted env c = in_modes env c (is_nn_ha c) (is_rm_ha c)

-- A cluster with these parts, and nothing else of its own.
abbrev of_parts : String → String → HadoopClusterSpec → HadoopCluster
of_parts name namespace spec = record {
  name = name;
  namespace = namespace;
  generation = pos 0;
  finalizers = [];
  is_deleted = false;
  spec = spec;
  status = record {
    phase = unset;
    conditions = [];
    observed_generation = pos 0;
    name_node = record { ready_replicas = pos 0; replicas = pos 0; active = ""; standby = [] };
    data_node = record {
      ready_replicas = pos 0;
      replicas = pos 0;
      live_nodes = pos 0;
      dead_nodes = pos 0;
    };
    resource_manager = record {
      ready_replicas = pos 0;
      replicas = pos 0;
      active = "";
      standby = [];
    };
    node_manager = record { ready_replicas = pos 0; replicas = pos 0 };
  };
}

wanted-of_parts :
    (env : Env) (c : HadoopCluster) → wanted env c ≡ wanted env (of_parts c.name c.namespace c.spec)
unfolding work_script.Qoder.Config.Files.generate_hadoop_config
    work_script.Qoder.ZooKeeper.zoo_keeper_service_spec
    work_script.Qoder.ZooKeeper.labels_for_zoo_keeper
    work_script.Qoder.JournalNode.journal_node_service_spec
    work_script.Qoder.JournalNode.labels_for_journal_node
    work_script.Qoder.NameNode.name_node_headless_spec
    work_script.Qoder.NameNode.name_node_external_spec
    work_script.Qoder.NameNode.labels_for_name_node
    work_script.Qoder.DataNode.data_node_headless_spec
    work_script.Qoder.DataNode.data_node_external_spec
    work_script.Qoder.DataNode.labels_for_data_node
    work_script.Qoder.ResourceManager.resource_manager_headless_spec
    work_script.Qoder.ResourceManager.resource_manager_external_spec
    work_script.Qoder.ResourceManager.labels_for_resource_manager
    work_script.Qoder.NodeManager.node_manager_headless_spec
    work_script.Qoder.NodeManager.node_manager_external_spec
    work_script.Qoder.NodeManager.labels_for_node_manager work_script.Qoder.Config.Sites.core_site
    work_script.Qoder.Config.Sites.hdfs_site work_script.Qoder.Config.Sites.yarn_site
    work_script.Qoder.Config.Sites.mapred_site work_script.Qoder.Config.Sites.capacity_scheduler
    work_script.Qoder.Config.Heap.generate_hadoop_env is_nn_ha
    work_script.Qoder.Config.Names.get_zoo_keeper_quorum work_script.Qoder.Config.Names.nn_service
    is_rm_ha work_script.Qoder.Config.Names.rm_service
wanted-of_parts env c = refl

-- What is wanted depends on the name, the namespace and the spec alone.
pub wanted-same :
    (env : Env) (c d : HadoopCluster)
    → d.name ≡ c.name
    → d.namespace ≡ c.namespace
    → d.spec ≡ c.spec
    → wanted env d ≡ wanted env c
wanted-same env c d p q s =
    wanted-of_parts env d
    ∙ (λ i. wanted env (of_parts (p i) (q i) (s i)))
    ∙ sym (wanted-of_parts env c)
