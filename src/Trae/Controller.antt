-- ===== src/Trae/Controller.antt =====
-- pkg/controller/hadoop/hadoopcluster_controller.go: Reconcile. The test of ENABLE_WEBHOOK guards no
-- code and is left out. A result is the number of seconds after which the request comes again.
pub mod Settling
pub mod Rules
pub mod Unset
pub mod Completion
pub mod Reports
pub mod Scope
pub mod Wanted
pub mod Distinct
pub mod Refinement
use work_script.Prelude.{ℕ, ◌*◌, pos, ltb_ℤ, String, Bool, not, ◌&&◌, if◌then◌else◌}
use text.Mathlib.Text.{◌==◌}
use work_script.Kube.{NamespacedName, ConfigMap, Service}
use work_script.Trae.Types.{HadoopCluster, ComponentStatus, ComponentsStatus}
use work_script.Trae.Api
use work_script.Trae.Env.{Env}
use work_script.Trae.Workload.{Built, built, panicked, object_name}
use work_script.Trae.ConfigMap.{new_config_map}
use work_script.Trae.NameNode.{new_name_node_resources}
use work_script.Trae.DataNode.{new_data_node_resources}
use work_script.Trae.ResourceManager.{new_resource_manager_resources}
use work_script.Trae.NodeManager.{new_node_manager_resources}
use work_script.Trae.Program.{
  Program, Result, ok, err, ret, panic, call, perform, ◌>>=◌, ◌>>?◌, Kind, Object, key_of,
  config_map, service, stateful_set, get_cluster, update_status, get, create, update,
}

pub record Outcome : Type 0 where
  pub requeue_after : ℕ

abbrev pub finished : Outcome
finished = record { requeue_after = 0 }

abbrev pub requeue_in_5m : Outcome
requeue_in_5m = record { requeue_after = 5 * 60 }

abbrev pub pending : ComponentStatus
pending = record { ready_replicas = pos 0; status = "Pending"; message = "" }

abbrev pub creating : HadoopCluster → HadoopCluster
creating c = record c {
  status = record c.status {
    phase = "Creating";
    components = record {
      name_node = pending;
      data_node = pending;
      resource_manager = pending;
      node_manager = pending;
    };
  };
}

-- Initialize status if not set.
unfoldable pub init_status : HadoopCluster → Program (Result HadoopCluster)
init_status c = if c.status.phase == "" then perform (update_status (creating c)) else ret (ok c)

-- What follows the Get of an object: Create if it is not there, `present` if it is.
abbrev pub found_or :
    (k : Kind)
    → Object k
    → (Object k → Program (Result (Unit {0})))
    → Result (Object k)
    → Program (Result (Unit {0}))
found_or k o present (ok old) = present old
found_or k o present (err e) = if e.is_not_found then perform (create k o) else ret (err e)

abbrev pub get_or_create :
    (k : Kind) → Object k → (Object k → Program (Result (Unit {0}))) → Program (Result (Unit {0}))
get_or_create k o present = call (get k (key_of k o)) (found_or k o present)

unfoldable pub apply_config_map : ConfigMap → Program (Result (Unit {0}))
apply_config_map o =
    get_or_create config_map o
      λ old. perform (update config_map (record old { contents = o.contents }))

-- A service that is there is left as it is.
unfoldable pub apply_service : Service → Program (Result (Unit {0}))
apply_service o = get_or_create service o λ old. ret (ok tt)

unfoldable pub apply_stateful_set : Api.StatefulSet → Program (Result (Unit {0}))
apply_stateful_set o =
    get_or_create stateful_set o λ old. perform (update stateful_set (record old { spec = o.spec }))

-- The service and the StatefulSet of a component.
unfoldable pub apply_resources : Built (Service × Api.StatefulSet) → Program (Result (Unit {0}))
unfolding apply_service apply_stateful_set
apply_resources (panicked s) = panic s
apply_resources (built (svc, set)) = apply_service svc >>? λ _. apply_stateful_set set

unfoldable pub apply_name_node : Env → HadoopCluster → Program (Result (Unit {0}))
unfolding apply_resources
apply_name_node env c = apply_resources (new_name_node_resources env c)

unfoldable pub apply_data_node : Env → HadoopCluster → Program (Result (Unit {0}))
unfolding apply_resources
apply_data_node env c = apply_resources (new_data_node_resources env c)

unfoldable pub apply_resource_manager : Env → HadoopCluster → Program (Result (Unit {0}))
unfolding apply_resources
apply_resource_manager env c = apply_resources (new_resource_manager_resources env c)

unfoldable pub apply_node_manager : Env → HadoopCluster → Program (Result (Unit {0}))
unfolding apply_resources
apply_node_manager env c = apply_resources (new_node_manager_resources env c)

unfoldable pub apply_objects : Env → HadoopCluster → Program (Result (Unit {0}))
unfolding apply_config_map apply_name_node apply_data_node apply_resource_manager apply_node_manager
apply_objects env c = apply_config_map (new_config_map env c) >>? λ _.
    apply_name_node env c >>? λ _.
    apply_data_node env c >>? λ _. apply_resource_manager env c >>? λ _. apply_node_manager env c

-- The status of a component from the answer to its Get.
abbrev pub check_component : Result Api.StatefulSet → ComponentStatus → ComponentStatus
check_component (ok set) s = record s {
  status = "Running";
  ready_replicas = set.status.ready_replicas;
}
check_component (err e) s = record s { status = "Error"; message = e.text }

abbrev pub get_set : HadoopCluster → String → Program (Result Api.StatefulSet)
get_set c component =
    perform (get stateful_set (record { namespace = c.namespace; name = object_name c component }))

-- The four Gets, in order.
unfoldable pub check_components : HadoopCluster → Program ComponentsStatus
check_components c = do
  nn ← get_set c "namenode"
  dn ← get_set c "datanode"
  rm ← get_set c "resourcemanager"
  nm ← get_set c "nodemanager"
  ret (record {
    name_node = check_component nn c.status.components.name_node;
    data_node = check_component dn c.status.components.data_node;
    resource_manager = check_component rm c.status.components.resource_manager;
    node_manager = check_component nm c.status.components.node_manager;
  })

abbrev pub all_ready : HadoopCluster → ComponentsStatus → Bool
all_ready c s =
    not (ltb_ℤ s.name_node.ready_replicas c.spec.name_node.replicas)
    && not (ltb_ℤ s.data_node.ready_replicas c.spec.data_node.replicas)
    && not (ltb_ℤ s.resource_manager.ready_replicas c.spec.resource_manager.replicas)
    && not (ltb_ℤ s.node_manager.ready_replicas c.spec.node_manager.replicas)

-- The cluster with what was observed; the phase that is set before the Gets is set again here.
unfoldable pub with_observed : HadoopCluster → ComponentsStatus → HadoopCluster
with_observed c s = record c {
  status = record c.status { phase = if all_ready c s then "Ready" else "Running"; components = s };
}

unfoldable pub report : HadoopCluster → Program (Result Outcome)
unfolding check_components with_observed
report c = check_components c >>= λ s.
    perform (update_status (with_observed c s)) >>? λ _. ret (ok requeue_in_5m)

unfoldable pub reconcile_found : Env → HadoopCluster → Program (Result Outcome)
unfolding init_status apply_objects report
reconcile_found env c = init_status c >>? λ c1. apply_objects env c1 >>? λ _. report c1

abbrev pub after_get : Env → Result HadoopCluster → Program (Result Outcome)
after_get env (ok c) = reconcile_found env c
after_get env (err e) = if e.is_not_found then ret (ok finished) else ret (err e)

unfoldable pub reconcile : Env → NamespacedName → Program (Result Outcome)
unfolding reconcile_found
reconcile env key = call (get_cluster key) (after_get env)
