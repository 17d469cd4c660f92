-- ===== src/Trae/Workload.antt =====
-- What the four builders of pkg/resources have in common: each repeats the same literals and loops.
-- A builder may panic, which ends the program.
use work_script.Prelude.{
  ℤ, pos, eq_ℤ, String, none, some, List, [], ◌∷◌, Dict, concat, if◌then◌else◌,
}
use text.Mathlib.Text.{◌==◌}
use work_script.Kube.{
  ObjectMeta, Service, ServicePort, from_int, VolumeMount, Volume, config_map_source, ContainerPort,
  Probe,
}
use work_script.Kube
use work_script.Trae.Types.{HadoopCluster, ResourceRequirements}
use work_script.Trae.Api
use work_script.Trae.Env.{Env}

pub data Built {ℓ} (A : Type ℓ) : Type ℓ where
  built : A → Built A
  panicked : String → Built A

abbrev pub and_then : {A B : Type 0} → Built A → (A → Built B) → Built B
and_then (built a) f = f a
and_then (panicked s) f = panicked s

-- A predicate holds of a chain if it holds of each end.
pub by-and_then :
    {A B : Type 0} (P : Built B → Type 0) (r : Built A) (f : A → Built B)
    → ((a : A) → P (f a))
    → ((s : String) → P (panicked s))
    → P (and_then r f)
by-and_then P (built a) f p q = p a
by-and_then P (panicked s) f p q = q s

-- image := cluster.Spec.Image; if image == "" { … }
abbrev pub image_of : HadoopCluster → String
image_of cluster =
    if cluster.spec.image == "" then "zhuyifeiruichuang/hadoop:3.1.1" else cluster.spec.image

-- if replicas == 0 { replicas = 1 }
abbrev pub or_one : ℤ → ℤ
or_one replicas = if eq_ℤ replicas (pos 0) then pos 1 else replicas

-- cluster.Name + "-" + component
abbrev pub object_name : HadoopCluster → String → String
object_name cluster component = concat (cluster.name ∷ "-" ∷ component ∷ [])

abbrev pub selector_of : HadoopCluster → String → Dict String
selector_of cluster app = ("app", app) ∷ ("cluster", cluster.name) ∷ []

abbrev pub labels_of : HadoopCluster → String → Dict String
labels_of cluster app =
    ("app", app)
    ∷ ("cluster", cluster.name)
    ∷ ("app.kubernetes.io/name", app)
    ∷ ("app.kubernetes.io/instance", cluster.name)
    ∷ ("app.kubernetes.io/part-of", "hadoop-operator")
    ∷ []

abbrev pub meta_of : Env → HadoopCluster → String → Dict String → Dict String → ObjectMeta
meta_of env cluster component labels annotations = record {
  name = object_name cluster component;
  namespace = cluster.namespace;
  labels = labels;
  annotations = annotations;
  owner_references = env.new_controller_ref cluster.name cluster.uid ∷ [];
}

abbrev pub service_port : String → ℤ → ServicePort
service_port name port = record {
  name = name;
  port = port;
  target_port = from_int port;
  node_port = pos 0;
}

-- The headless service of a component.
abbrev pub headless_service : Env → HadoopCluster → String → String → List ServicePort → Service
headless_service env cluster component app ports = record {
  metadata = meta_of env cluster component (labels_of cluster app) [];
  spec = record {
    service_type = "";
    cluster_ip = "None";
    selector = selector_of cluster app;
    ports = ports;
  };
}

abbrev pub container_port : String → ℤ → ContainerPort
container_port name port = record { name = name; container_port = port }

abbrev pub value_env : String → String → Api.EnvVar
value_env name value = record { name = name; value = value; value_from = none }

-- The mount of one file of the ConfigMap.
abbrev pub config_mount : String → VolumeMount
config_mount file = record {
  name = "hadoop-config-volume";
  mount_path = concat ("/opt/hadoop/etc/hadoop/" ∷ file ∷ []);
  sub_path = file;
}

abbrev pub config_volume : HadoopCluster → Volume
config_volume cluster = record {
  name = "hadoop-config-volume";
  source = config_map_source (concat ("hadoop-config-" ∷ cluster.name ∷ []));
}

abbrev pub http_probe : String → ℤ → ℤ → ℤ → Probe
http_probe path port delay period = record {
  path = path;
  port = from_int port;
  initial_delay_seconds = delay;
  period_seconds = period;
  timeout_seconds = pos 0;
  failure_threshold = pos 0;
}

abbrev pub resources_of : ResourceRequirements → Kube.ResourceRequirements
resources_of r = record {
  requests = some (("cpu", r.requests.cpu) ∷ ("memory", r.requests.memory) ∷ []);
  limits = some (("cpu", r.limits.cpu) ∷ ("memory", r.limits.memory) ∷ []);
}

-- A pod template without options: labels, containers and volumes.
abbrev pub plain_set :
    Env
    → HadoopCluster
    → String
    → String
    → ℤ
    → Api.PodSpec
    → List Api.PersistentVolumeClaim
    → Api.StatefulSet
plain_set env cluster component app replicas pod claims = record {
  metadata = meta_of env cluster component (labels_of cluster app) [];
  spec = record {
    service_name = object_name cluster component;
    replicas = or_one replicas;
    selector = selector_of cluster app;
    template = record { labels = labels_of cluster app; annotations = []; spec = pod };
    volume_claim_templates = claims;
  };
  status = Api.zero_status;
}
