-- ===== src/Qoder/Program.antt =====
-- What the reconciler asks of the API server, the event recorder and the clock, as a tree of
-- calls: each call waits for an answer, which the caller of the model chooses. The server itself
-- is not modelled; a statement about a program holds for every answer unless it says otherwise.
-- controllerutil.CreateOrUpdate reads an object, which may not be there, hands the callback the
-- object as it was read, or as it was given if there was none, and then creates or updates it,
-- unless it was read and is still semantically the same: it is the calls `fetch` and `write`.
use work_script.Effects
pub use work_script.Effects.{Result, ok, err, ret, panic, call, perform, ◌>>=◌, ◌>>◌, try}
use work_script.Prelude.{ℤ, String, Option}
use work_script.Kube.{NamespacedName, ConfigMap, Service, StatefulSet, PodDisruptionBudget}
use work_script.Qoder.Types.{HadoopCluster}

pub data Kind : Type 0 where
  config_map service stateful_set pod_disruption_budget : Kind

abbrev pub Object : Kind → Type 0
Object config_map = ConfigMap
Object service = Service
Object stateful_set = StatefulSet
Object pod_disruption_budget = PodDisruptionBudget

pub data EventType : Type 0 where
  normal warning : EventType

pub data Call : Type 0 where
  -- r.Get of the cluster, of a ConfigMap, of a StatefulSet
  get_cluster get_config_map get_stateful_set : NamespacedName → Call
  -- r.Status().Update and r.Update: the answer is the object as the server keeps it
  update_status update : HadoopCluster → Call
  -- the two halves of CreateOrUpdate
  fetch write : (k : Kind) → Object k → Call
  -- r.Recorder.Event and metav1.Now
  event : EventType → String → String → Call
  now : Call

abbrev pub Answer : Call → Type 0
Answer (get_cluster key) = Result HadoopCluster
Answer (get_config_map key) = Result ConfigMap
Answer (get_stateful_set key) = Result StatefulSet
Answer (update_status c) = Result HadoopCluster
Answer (update c) = Result HadoopCluster
Answer (fetch k o) = Result (Option (Object k))
Answer (write k o) = Result (Unit {0})
Answer (event t reason message) = Unit
Answer now = ℤ

abbrev pub Program : Type 0 → Type 0
Program = Effects.Program Answer
