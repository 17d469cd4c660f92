-- ===== src/Trae/Tests.antt =====
-- A sample cluster and environment.
pub mod Passes
pub mod Parts
use work_script.Prelude.{ℤ, pos, String, true, not, eq_ℤ, none, some, [], ◌∷◌, if◌then◌else◌}
use work_script.Kube.{Quantity, NamespacedName}
use work_script.Trae.Types.{
  ResourceRequirements, PersistentVolumeSpec, ConfigMapSpec, NodeSelectorTerm, AffinitySpec,
  NameNodeSpec, DataNodeSpec, ResourceManagerSpec, NodeManagerSpec, HadoopClusterSpec,
  HadoopCluster, ComponentStatus, HadoopClusterStatus,
}
use work_script.Trae.Env.{Env}

abbrev pub zero_quantity : Quantity
zero_quantity = record { text = "0"; value = pos 0 }

abbrev pub quantity : String → ℤ → Quantity
quantity text value = record { text = text; value = value }

-- Requests for storage are those of 5 units of CPU; sizes are read as ten.
abbrev pub sample_env : Env
sample_env = record {
  new_controller_ref =
      λ name uid. record { kind = "HadoopCluster"; name = name; controller = true };
  must_parse = λ text. some (quantity text (pos 10));
  is_nonzero = λ q. not (eq_ℤ q.value (pos 0));
  storage_request = λ r. if eq_ℤ r.cpu.value (pos 5) then some (quantity "10Gi" (pos 10)) else none;
  data_node_storage = λ s. record { storage_class = "fast"; size = "10Gi" };
}

abbrev pub no_resources : ResourceRequirements
no_resources = record {
  requests = record { cpu = zero_quantity; memory = zero_quantity };
  limits = record { cpu = zero_quantity; memory = zero_quantity };
}

abbrev pub five_cpu : ResourceRequirements
five_cpu = record no_resources {
  requests = record { cpu = quantity "5" (pos 5); memory = zero_quantity };
}

abbrev pub volume : String → String → PersistentVolumeSpec
volume name class = record {
  name = name;
  mount_path = "/data";
  annotations = [];
  persistent_volume_claim_spec = record {
    access_modes = "ReadWriteOnce" ∷ [];
    resources = five_cpu;
    storage_class_name = class;
    volume_name = "";
  };
  provisioner = "";
}

abbrev pub sample_term : NodeSelectorTerm
sample_term = record {
  match_expressions = record { key = "disk"; operator = "In"; values = "ssd" ∷ [] } ∷ [];
  match_fields = record { key = "metadata.name"; operator = "In"; values = "n1" ∷ [] } ∷ [];
}

abbrev pub sample_affinity : AffinitySpec
sample_affinity = record {
  node_affinity = some (record {
    preferred = record { preference = sample_term; weight = pos 3 } ∷ [];
    required = some (record { node_selector_terms = sample_term ∷ [] });
  });
  pod_affinity = none;
  pod_anti_affinity = some (record {
    required = record { label_selector = none; namespaces = []; topology_key = "host" } ∷ [];
    preferred = [];
  });
}

abbrev pub extra_config : ConfigMapSpec
extra_config = record { config_map_name = "extra"; mount_path = "/extra" }

abbrev pub sample_name_node : NameNodeSpec
sample_name_node = record {
  replicas = pos 0;
  resources = no_resources;
  persistent_volumes = volume "hadoop-nn-data" "slow" ∷ volume "backup" "fast" ∷ [];
  affinity = some sample_affinity;
  security_context = none;
  container_security_context = none;
  env_vars = [];
  readiness_probe_policy = none;
  liveness_probe_policy = none;
  pod_labels = ("team", "data") ∷ [];
  annotations = [];
  image_pull_secrets = [];
  node_selector = [];
  tolerations = [];
  config_maps = extra_config ∷ [];
  host_aliases = [];
}

abbrev pub sample_data_node : DataNodeSpec
sample_data_node = record {
  replicas = pos 0;
  resources = no_resources;
  persistent_volumes = [];
  affinity = some sample_affinity;
  security_context = none;
  container_security_context = none;
  env_vars = [];
  readiness_probe_policy = none;
  liveness_probe_policy = none;
  pod_labels = [];
  annotations = [];
  image_pull_secrets = [];
  node_selector = [];
  tolerations = [];
  config_maps = [];
  host_aliases = [];
}

abbrev pub sample_resource_manager : ResourceManagerSpec
sample_resource_manager = record {
  replicas = pos 0;
  resources = no_resources;
  affinity = none;
  security_context = none;
  container_security_context = none;
  env_vars = [];
  readiness_probe_policy = none;
  liveness_probe_policy = none;
  pod_labels = [];
  annotations = [];
  image_pull_secrets = [];
  node_selector = [];
  tolerations = [];
  config_maps = [];
  host_aliases = [];
}

abbrev pub sample_node_manager : NodeManagerSpec
sample_node_manager = record {
  replicas = pos 0;
  resources = no_resources;
  affinity = none;
  security_context = none;
  container_security_context = none;
  env_vars = [];
  readiness_probe_policy = none;
  liveness_probe_policy = none;
  pod_labels = [];
  annotations = [];
  image_pull_secrets = [];
  node_selector = [];
  tolerations = [];
  config_maps = [];
  host_aliases = [];
}

abbrev pub unknown : ComponentStatus
unknown = record { ready_replicas = pos 0; status = ""; message = "" }

abbrev pub new_status : HadoopClusterStatus
new_status = record {
  phase = "";
  components = record {
    name_node = unknown;
    data_node = unknown;
    resource_manager = unknown;
    node_manager = unknown;
  };
  conditions = [];
  version = "";
}

abbrev pub sample_spec : HadoopClusterSpec
sample_spec = record {
  image = "";
  name_node = sample_name_node;
  data_node = sample_data_node;
  resource_manager = sample_resource_manager;
  node_manager = sample_node_manager;
  hadoop_config = record { core_site = []; hdfs_site = []; yarn_site = []; mapred_site = [] };
}

abbrev pub sample : HadoopCluster
sample = record {
  name = "c1";
  namespace = "big";
  uid = "u-1";
  spec = sample_spec;
  status = new_status;
}

abbrev pub sample_key : NamespacedName
sample_key = record { namespace = "big"; name = "c1" }
