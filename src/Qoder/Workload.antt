-- ===== src/Qoder/Workload.antt =====
-- What the component reconcilers of internal/reconciler share: CreateOrUpdate, the panics of
-- resource.MustParse, the default resources, the config hash of a pod template, and the literals
-- that they repeat.
use work_script.Prelude.{
  ℤ, pos, String, Option, none, some, List, [], ◌∷◌, Dict, lookup, concat, if◌then◌else◌,
}
use work_script.Kube.{
  ObjectMeta, Quantity, ResourceRequirements, KubeServiceSpec, ServicePort, StatefulSet,
  StatefulSetSpec, PodSpec, from_int, Volume, VolumeMount, config_map_source, empty_dir, Probe,
  from_string, EnvVar,
}
use work_script.Qoder.Types.{HadoopCluster}
use work_script.Qoder.Program.{
  Program, Result, ok, err, Kind, Object, service, stateful_set, fetch, write, get_config_map, ret,
  panic, perform, try, ◌>>=◌,
}
use work_script.Qoder.Env.{Env}
use work_script.Qoder.Config.Files.{compute_config_hash}

-- What is left of CreateOrUpdate after the callback: an object that was read and is semantically
-- the same is not updated.
abbrev pub write_changed :
    (env : Env) (k : Kind) → Option (Object k) → Object k → Program (Result (Unit {0}))
write_changed env k none result = perform (write k result)
write_changed env k (some old) result =
    if env.semantic_equal k old result then ret (ok tt) else perform (write k result)

-- The object that the callback is given.
abbrev pub found_or_given : (k : Kind) → Object k → Option (Object k) → Object k
found_or_given k object none = object
found_or_given k object (some old) = old

-- controllerutil.CreateOrUpdate; an error of the callback is returned and nothing is written.
unfoldable pub create_or_update :
    (env : Env) (k : Kind)
    → Object k
    → (Object k → Program (Result (Object k)))
    → Program (Result (Unit {0}))
create_or_update env k object mutate = do
  found ← perform (fetch k object)
  try found λ existing. do
    changed ← mutate (found_or_given k object existing)
    try changed λ result. write_changed env k existing result

abbrev pub with_quantity : {A : Type 0} → Option Quantity → (Quantity → Program A) → Program A
with_quantity none k = panic "cannot parse quantity"
with_quantity (some q) k = k q

-- resource.MustParse
abbrev pub must_parse : {A : Type 0} → Env → String → (Quantity → Program A) → Program A
must_parse env text k = with_quantity (env.parse_quantity text) k

unfoldable pub resource_list : Env → String → String → Program (Option (Dict Quantity))
resource_list env cpu memory =
    must_parse env cpu λ c. must_parse env memory λ m. ret (some (("cpu", c) ∷ ("memory", m) ∷ []))

-- if list == nil { list = … }
abbrev pub unless_given :
    Option (Dict Quantity) → Program (Option (Dict Quantity)) → Program (Option (Dict Quantity))
unless_given (some list) default = ret (some list)
unless_given none default = default

unfoldable pub with_defaults :
    Env → ResourceRequirements → String → String → String → String → Program ResourceRequirements
unfolding resource_list
with_defaults env resources cpu memory cpu_limit memory_limit = do
  requests ← unless_given resources.requests (resource_list env cpu memory)
  limits ← unless_given resources.limits (resource_list env cpu_limit memory_limit)
  ret (record { requests = requests; limits = limits })

-- The requests 500m and 2Gi, and the limits 1000m and 4Gi, unless the cluster gives its own.
unfoldable pub with_default_resources : Env → ResourceRequirements → Program ResourceRequirements
unfolding with_defaults
with_default_resources env resources = with_defaults env resources "500m" "2Gi" "1000m" "4Gi"

abbrev pub component_name : HadoopCluster → String → String
component_name cluster component = concat (cluster.name ∷ "-" ∷ component ∷ [])

abbrev pub object_meta : HadoopCluster → String → Dict String → Dict String → ObjectMeta
object_meta cluster component labels annotations = record {
  name = component_name cluster component;
  namespace = cluster.namespace;
  labels = labels;
  annotations = annotations;
  owner_references = [];
}

unfoldable pub get_config_hash : Env → HadoopCluster → Program String
get_config_hash env cluster = do
  answer ← perform (
      get_config_map
        (record { namespace = cluster.namespace; name = component_name cluster "config" }))
  ret (elim answer [ err e ↦ "" | ok cm ↦ compute_config_hash env cm.contents ])

unfoldable pub pod_template_annotations : Env → HadoopCluster → Program (Dict String)
unfolding get_config_hash
pod_template_annotations env cluster = do
  hash ← get_config_hash env cluster
  ret (("hadoop.apache.org/config-hash", hash) ∷ [])

-- return controllerutil.SetControllerReference(cluster, object, r.Scheme)
abbrev pub with_owner :
    {A : Type 0} → Env → HadoopCluster → ObjectMeta → (ObjectMeta → A) → Program (Result A)
with_owner env cluster meta rebuild =
    try (env.set_controller_reference cluster meta) λ owned. ret (ok (rebuild owned))

unfoldable pub ensure_service :
    Env → HadoopCluster → ObjectMeta → KubeServiceSpec → Program (Result (Unit {0}))
unfolding create_or_update
ensure_service env cluster meta spec =
    create_or_update env service (record { metadata = meta; spec = zero_spec })
      λ found.
        with_owner env cluster found.metadata λ owned. record { metadata = owned; spec = spec }
  where
    zero_spec : KubeServiceSpec
    zero_spec = record { service_type = ""; cluster_ip = ""; selector = []; ports = [] }

abbrev zero_pod_spec : PodSpec
zero_pod_spec = record {
  image_pull_secrets = [];
  affinity = none;
  tolerations = [];
  fs_group = none;
  termination_grace_period_seconds = none;
  init_containers = [];
  containers = [];
  volumes = [];
}

abbrev zero_stateful_set : ObjectMeta → StatefulSet
zero_stateful_set meta = record {
  metadata = meta;
  spec = record {
    service_name = "";
    replicas = none;
    selector = [];
    update_strategy = "";
    template = record { labels = []; annotations = []; spec = zero_pod_spec };
    volume_claim_templates = [];
  };
  status = record { replicas = pos 0; ready_replicas = pos 0 };
}

-- CreateOrUpdate with a callback that assigns the spec, which it may have to compute.
unfoldable pub ensure_stateful_set :
    Env → HadoopCluster → ObjectMeta → Program StatefulSetSpec → Program (Result (Unit {0}))
unfolding create_or_update
ensure_stateful_set env cluster meta make_spec =
    create_or_update env stateful_set (zero_stateful_set meta) λ found. do
      spec ← make_spec
      with_owner env cluster found.metadata
          λ owned. record { metadata = owned; spec = spec; status = found.status }

-- A port of a service that targets the same port number of the pods.
abbrev pub service_port : String → ℤ → ℤ → ServicePort
service_port name port node_port = record {
  name = name;
  port = port;
  target_port = from_int port;
  node_port = node_port;
}

-- NodePorts[name], which is 0 for a name that is not there
abbrev pub node_port : String → Dict ℤ → ℤ
node_port name ports = elim (lookup name ports) [ none ↦ pos 0 | some p ↦ p ]

abbrev pub headless : Dict String → List ServicePort → KubeServiceSpec
headless labels ports = record {
  service_type = "";
  cluster_ip = "None";
  selector = labels;
  ports = ports;
}

abbrev pub external : String → Dict String → List ServicePort → KubeServiceSpec
external service_type labels ports = record {
  service_type = service_type;
  cluster_ip = "";
  selector = labels;
  ports = ports;
}

abbrev pub http_get : String → ℤ → ℤ → ℤ → ℤ → Probe
http_get path initial_delay period timeout threshold = record {
  path = path;
  port = from_string "web";
  initial_delay_seconds = initial_delay;
  period_seconds = period;
  timeout_seconds = timeout;
  failure_threshold = threshold;
}

abbrev pub mount : String → String → String → VolumeMount
mount name mount_path sub_path = record {
  name = name;
  mount_path = mount_path;
  sub_path = sub_path;
}

abbrev pub config_mount : VolumeMount
config_mount = mount "hadoop-config" "/opt/hadoop/etc/hadoop" ""

abbrev pub logs_mount : VolumeMount
logs_mount = mount "logs" "/opt/hadoop/logs" ""

abbrev pub config_volume : HadoopCluster → Volume
config_volume cluster = record {
  name = "hadoop-config";
  source = config_map_source (component_name cluster "config");
}

abbrev pub logs_volume : Volume
logs_volume = record { name = "logs"; source = empty_dir }

abbrev pub env_var : String → String → EnvVar
env_var name value = record { name = name; value = value; field_path = none }

abbrev pub conf_dir_env : EnvVar
conf_dir_env = env_var "HADOOP_CONF_DIR" "/opt/hadoop/etc/hadoop"

abbrev pub pod_name_env : EnvVar
pod_name_env = record { name = "POD_NAME"; value = ""; field_path = some "metadata.name" }
