-- ===== src/Trae/Program.antt =====
-- What Reconcile asks of the API server: the client's Get, Create and Update for each kind of object,
-- Get of the cluster and Status().Update, whose answer is the cluster as the server keeps it.
use work_script.Effects
pub use work_script.Effects.{Result, ok, err, ret, panic, call, perform, ◌>>=◌, ◌>>?◌, try}
use work_script.Kube.{NamespacedName, ConfigMap, Service}
use work_script.Trae.Types.{HadoopCluster}
use work_script.Trae.Api

pub data Kind : Type 0 where
  config_map service stateful_set : Kind

abbrev pub Object : Kind → Type 0
Object config_map = ConfigMap
Object service = Service
Object stateful_set = Api.StatefulSet

abbrev pub key_of : (k : Kind) → Object k → NamespacedName
key_of config_map o = record { namespace = o.metadata.namespace; name = o.metadata.name }
key_of service o = record { namespace = o.metadata.namespace; name = o.metadata.name }
key_of stateful_set o = record { namespace = o.metadata.namespace; name = o.metadata.name }

pub data Call : Type 0 where
  get_cluster : NamespacedName → Call
  update_status : HadoopCluster → Call
  get : Kind → NamespacedName → Call
  create update : (k : Kind) → Object k → Call

abbrev pub Answer : Call → Type 0
Answer (get_cluster key) = Result HadoopCluster
Answer (update_status c) = Result HadoopCluster
Answer (get k key) = Result (Object k)
Answer (create k o) = Result (Unit {0})
Answer (update k o) = Result (Unit {0})

abbrev pub Program : Type 0 → Type 0
Program = Effects.Program Answer
