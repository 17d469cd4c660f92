-- ===== src/Qoder/Tests.antt =====
-- A cluster, an environment and a server to run the operator of hadoop-dev-qoder on, for
-- the statements of the other files.
mod Passes
mod Parts
use text.Mathlib.Text.{◌==◌ as same_text}
use mathlib.Core.Bool.{true≢false}
use mathlib.Core.Path.{ap}
use work_script.Prelude.{
  ◌≡◌, refl, ℤ, pos, negsuc, ◌≤ℤ◌, ◌≤◌, ◌<◌, ◌+◌, ◌*◌, ◌⊎◌, arith, String, Bool, true, false, not,
  ◌&&◌, Option, none, some, List, [], ◌∷◌, ◌++◌, Dict, lookup, first_of, All, if◌then◌else◌, concat,
}
use work_script.Kube.{
  Document, Quantity, ApiError, ObjectMeta, OwnerReference, NamespacedName, ResourceRequirements,
  StatefulSet,
}
use work_script.Qoder.Types.{
  HadoopCluster, HadoopClusterSpec, HadoopClusterStatus, HaSpec, StorageSpec, ServiceSpec,
  ClusterPhase, unset, running, creating, deleting, ClusterCondition, progressing, ready,
  JournalNodeSpec, DataNodeStatus,
}
use work_script.Qoder.Program.{
  Call, Answer, Result, ok, err, get_cluster, get_config_map, get_stateful_set, update_status,
  update, fetch, write, event, now, normal, Kind, Object, config_map, service, stateful_set,
  pod_disruption_budget,
}
use work_script.Qoder.Env.{Env}
use work_script.Qoder.Behaviour.{Ends}
use work_script.Qoder.Server.{Server, Answers, Exits, calls, exit, returned}
use work_script.Qoder.Status.{set_ready_condition, is_cluster_ready, ready_condition}
use work_script.Qoder.Controller.{
  reconcile, reconcile_found, requeue_in_30s, finished, failed_with, with_phase,
  hadoop_cluster_finalizer,
}

abbrev no_document : Document
no_document = record { text = "" }

abbrev no_resources : ResourceRequirements
no_resources = record { requests = none; limits = none }

abbrev no_storage : StorageSpec
no_storage = record { size = ""; storage_class_name = none; access_mode = "" }

abbrev no_service : ServiceSpec
no_service = record { service_type = ""; node_ports = []; annotations = [] }

abbrev journal_nodes : JournalNodeSpec
journal_nodes = record { replicas = pos 3; resources = no_resources; storage = no_storage }

-- A cluster in HA mode, with two overrides.
abbrev sample_spec : HadoopClusterSpec
sample_spec = record {
  image = record { repository = ""; tag = ""; pull_policy = ""; pull_secrets = [] };
  hdfs = record {
    name_node = record {
      replicas = pos 2;
      resources = no_resources;
      storage = no_storage;
      service = no_service;
      ha = some (record { enabled = true; zoo_keeper = none; journal_node = journal_nodes });
      affinity = none;
      tolerations = [];
    };
    data_node = record {
      replicas = pos 3;
      resources = no_resources;
      storage = no_storage;
      service = no_service;
      affinity = none;
      tolerations = [];
    };
  };
  yarn = record {
    resource_manager = record {
      replicas = pos 1;
      resources = no_resources;
      service = no_service;
      ha = none;
      affinity = none;
      tolerations = [];
    };
    node_manager = record {
      replicas = pos 2;
      resources = no_resources;
      service = no_service;
      affinity = none;
      tolerations = [];
    };
  };
  config = record {
    core_site = ("io.file.buffer.size", "131072") ∷ [];
    hdfs_site = ("dfs.replication", "2") ∷ [];
    yarn_site = [];
    mapred_site = [];
    capacity_scheduler = [];
  };
  security = no_document;
  metrics = no_document;
}

abbrev sample_status : ClusterPhase → HadoopClusterStatus
sample_status phase = record {
  phase = phase;
  conditions = [];
  observed_generation = pos 0;
  name_node = record { ready_replicas = pos 0; replicas = pos 0; active = ""; standby = [] };
  data_node = record {
    ready_replicas = pos 0;
    replicas = pos 0;
    live_nodes = pos 0;
    dead_nodes = pos 0;
  };
  resource_manager = record { ready_replicas = pos 0; replicas = pos 0; active = ""; standby = [] };
  node_manager = record { ready_replicas = pos 0; replicas = pos 0 };
}

abbrev sample : ClusterPhase → Bool → HadoopCluster
sample phase is_deleted = record {
  name = "demo";
  namespace = "big-data";
  generation = pos 4;
  finalizers = hadoop_cluster_finalizer ∷ [];
  is_deleted = is_deleted;
  spec = sample_spec;
  status = sample_status phase;
}

abbrev has : List String → String → Bool
has [] f = false
has (g ∷ gs) f = if same_text g f then true else has gs f

abbrev without : List String → String → List String
without [] f = []
without (g ∷ gs) f = if same_text g f then without gs f else g ∷ without gs f

abbrev same_dict : Dict String → Dict String → Bool
same_dict [] [] = true
same_dict [] (e ∷ es) = false
same_dict (e ∷ es) [] = false
same_dict ((k, v) ∷ es) ((l, w) ∷ fs) = same_text k l && (same_text v w && same_dict es fs)

-- ConfigMaps are compared by what the pass writes of them; other objects never pass for the same.
abbrev same_objects : (k : Kind) → Object k → Object k → Bool
same_objects config_map a b =
    same_text a.metadata.name b.metadata.name
    && (same_text a.metadata.namespace b.metadata.namespace && same_dict a.contents b.contents)
same_objects service a b = false
same_objects stateful_set a b = false
same_objects pod_disruption_budget a b = false

abbrev sample_env : Env
sample_env = record {
  parse_quantity = λ text. some (record { text = text; value = pos 1 });
  md5_hex = λ text. text;
  map_order = λ m. m;
  set_controller_reference = λ c m. ok (record m {
    owner_references = record { kind = "HadoopCluster"; name = c.name; controller = true } ∷ [];
  });
  semantic_equal = same_objects;
  contains_finalizer = has;
  add_finalizer = λ fs f. f ∷ fs;
  remove_finalizer = without;
}

abbrev gone : ApiError
gone = record { is_not_found = true; text = "not found" }

abbrev sample_set : StatefulSet
sample_set = record {
  metadata = record {
    name = "";
    namespace = "";
    labels = [];
    annotations = [];
    owner_references = [];
  };
  spec = record {
    service_name = "";
    replicas = some (pos 3);
    selector = [];
    update_strategy = "";
    template = record {
      labels = [];
      annotations = [];
      spec = record {
        image_pull_secrets = [];
        affinity = none;
        tolerations = [];
        fs_group = none;
        termination_grace_period_seconds = none;
        init_containers = [];
        containers = [];
        volumes = [];
      };
    };
    volume_claim_templates = [];
  };
  status = record { replicas = pos 3; ready_replicas = pos 2 };
}

-- A server without any cluster that accepts what it is sent, and reads every StatefulSet as
-- `sample_set`.
abbrev accepting : Server (Unit {0})
accepting (get_cluster key) w = (err gone, w)
accepting (get_config_map key) w = (err gone, w)
accepting (get_stateful_set key) w = (ok sample_set, w)
accepting (update_status c) w = (ok c, w)
accepting (update c) w = (ok c, w)
accepting (fetch k o) w = (ok none, w)
accepting (write k o) w = (ok tt, w)
accepting (event t reason message) w = (tt, w)
accepting now w = (pos 7, w)

-- One that refuses ConfigMaps.
abbrev refusing : Server (Unit {0})
refusing (write config_map o) w = (err gone, w)
refusing (write service o) w = (ok tt, w)
refusing (write stateful_set o) w = (ok tt, w)
refusing (write pod_disruption_budget o) w = (ok tt, w)
refusing (get_cluster key) w = (err gone, w)
refusing (get_config_map key) w = (err gone, w)
refusing (get_stateful_set key) w = (ok sample_set, w)
refusing (update_status c) w = (ok c, w)
refusing (update c) w = (ok c, w)
refusing (fetch k o) w = (ok none, w)
refusing (event t reason message) w = (tt, w)
refusing now w = (pos 7, w)
