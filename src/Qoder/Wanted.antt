-- ===== src/Qoder/Wanted.antt =====
-- What a cluster asks for, said apart from the reconcilers: each object with its namespace, its
-- name and its contents, in the order in which a pass brings them about; and what it means that a
-- run of calls brings a list of objects about.
pub mod Rules
pub mod Shared
pub mod Objects
pub mod Order
pub mod Pass
use work_script.Prelude.{
  pos, ℤ, String, Bool, Option, none, some, List, [], ◌∷◌, ◌++◌, ◌||◌, Dict, concat, ltb_ℤ,
  if◌then◌else◌,
}
use work_script.Kube.{
  ObjectMeta, IntOrString, from_int, from_string, KubeServiceSpec, StatefulSetSpec,
}
use work_script.Qoder.Types.{HadoopCluster, HaSpec}
use work_script.Qoder.Program.{
  Call, Answer, Result, ok, err, Kind, Object, config_map, service, stateful_set,
  pod_disruption_budget, fetch, write,
}
use work_script.Qoder.Env.{Env}
use work_script.Qoder.Config.Names.{ha_enabled, external_zoo_keeper}
use work_script.Qoder.Config.Files.{generate_hadoop_config}
use work_script.Qoder.NameNode.{
  name_node_headless_spec, name_node_external_spec, name_node_replicas, labels_for_name_node,
}
use work_script.Qoder.DataNode.{
  data_node_headless_spec, data_node_external_spec, data_node_replicas, labels_for_data_node,
}
use work_script.Qoder.ResourceManager.{
  resource_manager_headless_spec, resource_manager_external_spec, resource_manager_replicas,
  labels_for_resource_manager,
}
use work_script.Qoder.NodeManager.{
  node_manager_headless_spec, node_manager_external_spec, node_manager_replicas,
  labels_for_node_manager,
}
use work_script.Qoder.ZooKeeper.{zoo_keeper_service_spec, labels_for_zoo_keeper}
use work_script.Qoder.JournalNode.{
  journal_node_service_spec, journal_node_replicas, labels_for_journal_node,
}

-- Of a StatefulSet: the name of its service, its replicas and its selector.
pub data Contents : Type 0 where
  config_contents : Dict String → Contents
  service_contents : KubeServiceSpec → Contents
  set_contents : String → Option ℤ → Dict String → Contents
  budget_contents : Dict String → IntOrString → Contents

pub record Want : Type 0 where
  pub kind : Kind
  pub namespace : String
  pub name : String
  pub contents : Contents

abbrev pub meta_of : (k : Kind) → Object k → ObjectMeta
meta_of config_map o = o.metadata
meta_of service o = o.metadata
meta_of stateful_set o = o.metadata
meta_of pod_disruption_budget o = o.metadata

abbrev pub contents_of_set : StatefulSetSpec → Contents
contents_of_set spec = set_contents spec.service_name spec.replicas spec.selector

abbrev pub contents_of : (k : Kind) → Object k → Contents
contents_of config_map o = config_contents o.contents
contents_of service o = service_contents o.spec
contents_of stateful_set o = contents_of_set o.spec
contents_of pod_disruption_budget o = budget_contents o.selector o.max_unavailable

abbrev pub want_at : Kind → ObjectMeta → Contents → Want
want_at k m contents = record {
  kind = k;
  namespace = m.namespace;
  name = m.name;
  contents = contents;
}

abbrev pub want_of : (k : Kind) → Object k → Want
want_of k o = want_at k (meta_of k o) (contents_of k o)

-- An object is looked up under its namespace and name, and what is found is seen; or it is written.
pub data Step : Type 0 where
  looks_up : Kind → String → String → Option Want → Step
  writes : Want → Step

abbrev pub found_want : (k : Kind) → Result (Option (Object k)) → Option Want
found_want k (ok none) = none
found_want k (ok (some o)) = some (want_of k o)
found_want k (err e) = none

abbrev pub steps_of : (c : Call) → Answer c → List Step
steps_of (fetch k o) r = looks_up k (meta_of k o).namespace (meta_of k o).name (found_want k r) ∷ []
steps_of (write k o) r = writes (want_of k o) ∷ []
steps_of _ r = []

abbrev pub looks_for : Want → Option Want → Step
looks_for w found = looks_up w.kind w.namespace w.name found

-- Each object in turn is looked up and then written, as it is wanted, or left if it was found as it
-- is wanted; nothing else is looked up or written.
pub data Brings : List Want → List Step → Type 0 where
  brings_nothing : Brings [] []
  brings_written :
      (w : Want) (found : Option Want) (ws : List Want) (ss : List Step)
      → Brings ws ss
      → Brings (w ∷ ws) (looks_for w found ∷ writes w ∷ ss)
  brings_kept :
      (w : Want) (ws : List Want) (ss : List Step)
      → Brings ws ss
      → Brings (w ∷ ws) (looks_for w (some w) ∷ ss)

module _ (env : Env) (c : HadoopCluster) where
  abbrev pub item : Kind → String → Contents → Want
  item k component contents = record {
    kind = k;
    namespace = c.namespace;
    name = concat (c.name ∷ "-" ∷ component ∷ []);
    contents = contents;
  }

  abbrev pub services : String → KubeServiceSpec → KubeServiceSpec → List Want
  services component headless external =
      item service component (service_contents headless)
      ∷ item service (concat (component ∷ "-external" ∷ [])) (service_contents external)
      ∷ []

  -- A StatefulSet is run by the headless service of its own name.
  abbrev pub set : String → ℤ → Dict String → List Want
  set component replicas selector =
      item stateful_set component
        (set_contents (concat (c.name ∷ "-" ∷ component ∷ [])) (some replicas) selector)
      ∷ []

  abbrev pub config_wants : List Want
  config_wants = item config_map "config" (config_contents (generate_hadoop_config env c)) ∷ []

  -- A ZooKeeper of the cluster's own, unless it names another.
  abbrev pub zoo_keeper_wants : Option String → List Want
  zoo_keeper_wants none =
      item service "zookeeper" (service_contents (zoo_keeper_service_spec c))
      ∷ set "zookeeper" (pos 3) (labels_for_zoo_keeper c)
  zoo_keeper_wants (some connection) = []

  abbrev pub journal_node_wants : Option HaSpec → List Want
  journal_node_wants none = []
  journal_node_wants (some ha) =
      if ha.enabled
      then item service "journalnode" (service_contents (journal_node_service_spec c))
        ∷ set "journalnode" (journal_node_replicas ha.journal_node.replicas)
            (labels_for_journal_node c)
      else []

  abbrev pub name_node_services : List Want
  name_node_services = services "namenode" (name_node_headless_spec c) (name_node_external_spec c)

  abbrev pub name_node_sets : List Want
  name_node_sets =
      set "namenode"
        (name_node_replicas c.spec.hdfs.name_node.replicas (ha_enabled c.spec.hdfs.name_node.ha))
        (labels_for_name_node c)

  abbrev pub data_node_services : List Want
  data_node_services = services "datanode" (data_node_headless_spec c) (data_node_external_spec c)

  abbrev pub data_node_sets : List Want
  data_node_sets =
      set "datanode" (data_node_replicas c.spec.hdfs.data_node.replicas) (labels_for_data_node c)

  abbrev pub resource_manager_services : List Want
  resource_manager_services =
      services "resourcemanager" (resource_manager_headless_spec c)
        (resource_manager_external_spec c)

  abbrev pub resource_manager_sets : List Want
  resource_manager_sets =
      set "resourcemanager"
        (resource_manager_replicas c.spec.yarn.resource_manager.replicas
          (ha_enabled c.spec.yarn.resource_manager.ha))
        (labels_for_resource_manager c)

  abbrev pub node_manager_services : List Want
  node_manager_services =
      services "nodemanager" (node_manager_headless_spec c) (node_manager_external_spec c)

  abbrev pub node_manager_sets : List Want
  node_manager_sets =
      set "nodemanager" (node_manager_replicas c.spec.yarn.node_manager.replicas)
        (labels_for_node_manager c)

  abbrev pub core_wants : List Want
  core_wants =
      name_node_services ++ name_node_sets ++ data_node_services ++ data_node_sets
      ++ resource_manager_services ++ resource_manager_sets ++ node_manager_services
      ++ node_manager_sets

  abbrev pub budget : Bool → String → IntOrString → List Want
  budget asked component max_unavailable =
      if asked
      then item pod_disruption_budget component (
          budget_contents
            (("app", concat ("hadoop-" ∷ component ∷ []))
              ∷ ("hadoop.apache.org/cluster", c.name)
              ∷ [])
            max_unavailable)
        ∷ []
      else []

  -- One pod at a time where there are two replicas, a quarter of the pods where there are more.
  abbrev pub replicas_budget : String → ℤ → List Want
  replicas_budget component replicas =
      budget (ltb_ℤ (pos 1) replicas) component
        (if ltb_ℤ replicas (pos 3) then from_int (pos 1) else from_string "25%")

  abbrev pub budgets : List Want
  budgets =
      budget (ha_enabled c.spec.hdfs.name_node.ha) "namenode" (from_int (pos 1))
      ++ (budget (ha_enabled c.spec.yarn.resource_manager.ha) "resourcemanager" (from_int (pos 1))
          ++ (replicas_budget "datanode" c.spec.hdfs.data_node.replicas
              ++ replicas_budget "nodemanager" c.spec.yarn.node_manager.replicas))

  -- The ConfigMap; in HA mode ZooKeeper and the JournalNodes; the four components; and the budgets
  -- where one of the two HA modes is on.
  abbrev pub wanted : List Want
  wanted =
      config_wants
      ++ ((if ha_enabled c.spec.hdfs.name_node.ha
            then zoo_keeper_wants (external_zoo_keeper c.spec.hdfs.name_node.ha)
              ++ journal_node_wants c.spec.hdfs.name_node.ha
            else [])
          ++ (core_wants
              ++ (if ha_enabled c.spec.hdfs.name_node.ha
                    || ha_enabled c.spec.yarn.resource_manager.ha
                  then budgets
                  else [])))
