-- ===== src/Trae/Controller/Scope.antt =====
-- Which objects a pass touches.
use mathlib.Core.Path.{subst}
use work_script.Effects.Behaviour.{Ends, AnyValue}
use work_script.Prelude.{◌≡◌, refl, sym, ◌∙◌, All, [], ◌∷◌}
use work_script.Kube.{Service, ObjectMeta}
use work_script.Effects.Server.{Server, Answers, calls, calls-All}
use work_script.Trae.Types.{HadoopCluster, HadoopClusterStatus}
use work_script.Trae.Api
use work_script.Trae.Env.{Env}
use work_script.Trae.Workload.{Built, built, panicked, and_then, by-and_then}
use work_script.Trae.ConfigMap.{new_config_map}
use work_script.Trae.NameNode.{new_name_node_resources, new_name_node_stateful_set}
use work_script.Trae.NameNode.Base.{new_name_node_service, name_node_set}
use work_script.Trae.NameNode.Claims.{new_claims}
use work_script.Trae.DataNode.{
  new_data_node_resources, new_data_node_stateful_set, data_node_claim, new_data_node_service,
  data_node_set,
}
use work_script.Trae.ResourceManager.{
  new_resource_manager_resources, new_resource_manager_service, new_resource_manager_stateful_set,
}
use work_script.Trae.NodeManager.{
  new_node_manager_resources, new_node_manager_service, new_node_manager_stateful_set,
}
use work_script.Trae.Program.{
  Call, Answer, Kind, Object, get_cluster, update_status, get, create, update, Result, ok, err,
  service, stateful_set, config_map,
}
use work_script.Trae.Controller.{reconcile_found, with_observed}
use work_script.Trae.Controller.Completion.{Keeps}
use work_script.Trae.Controller.Rules.{FailsBy, Permits, PermitsPass, reconcile_found-Holds}

abbrev pub metadata_of : (k : Kind) → Object k → ObjectMeta
metadata_of config_map o = o.metadata
metadata_of service o = o.metadata
metadata_of stateful_set o = o.metadata

abbrev pub NotService : Kind → Type 0
NotService config_map = Unit
NotService service = ⊥
NotService stateful_set = Unit

-- In the namespace of the cluster and owned by it.
abbrev pub Owned : Env → HadoopCluster → ObjectMeta → Type 0
Owned env c m =
    (m.namespace ≡ c.namespace) × (m.owner_references ≡ env.new_controller_ref c.name c.uid ∷ [])

-- Objects are looked for in the namespace of the cluster; those that are created lie there and are
-- owned by it; those that are updated lie there and are no services; a status update is of the
-- cluster itself, with its spec.
abbrev pub InScope : Env → HadoopCluster → Call → Type 0
InScope env c (get_cluster key) = ⊥
InScope env c (update_status d) = Keeps c d
InScope env c (get k key) = key.namespace ≡ c.namespace
InScope env c (create k o) = Owned env c (metadata_of k o)
InScope env c (update k o) = NotService k × ((metadata_of k o).namespace ≡ c.namespace)

-- A status update gives back the cluster, its status aside; an object that is found lies in the
-- namespace that was asked for.
abbrev pub Finds : (c : Call) → Answer c → Type 0
Finds (update_status c) r = Ends (Keeps c) (λ _. Unit {0}) r
Finds (get k key) r = Ends (λ o. (metadata_of k o).namespace ≡ key.namespace) (λ _. Unit {0}) r
Finds _ r = Unit

any_end : {A : Type 0} (r : Result A) → Ends AnyValue (λ _. Unit {0}) r
any_end (ok a) = tt
any_end (err e) = tt

Finds-FailsBy : (c : Call) (r : Answer c) → Finds c r → FailsBy (λ _. Unit {0}) c r
Finds-FailsBy (get_cluster key) r h = any_end r
Finds-FailsBy (update_status c) r h = any_end r
Finds-FailsBy (get k key) r h = any_end r
Finds-FailsBy (create k o) r h = any_end r
Finds-FailsBy (update k o) r h = any_end r

abbrev OwnedPair : Env → HadoopCluster → Built (Service × Api.StatefulSet) → Type 0
OwnedPair env c (built (svc, set)) = Owned env c svc.metadata × Owned env c set.metadata
OwnedPair env c (panicked s) = Unit

owned-Permits :
    (env : Env) (c : HadoopCluster) (r : Built (Service × Api.StatefulSet))
    → OwnedPair env c r
    → Permits Finds (InScope env c) Unit r
owned-Permits env c r h = record {
  panics = λ _ _. tt;
  gets = λ svc set e. let (a, b) = subst (OwnedPair env c) e h in (a.0, b.0);
  creates = λ svc set e. subst (OwnedPair env c) e h;
  updates = λ svc set old e found. let (a, b) = subst (OwnedPair env c) e h in (tt, found ∙ b.0);
}

name_node-Owned : (env : Env) (c : HadoopCluster) → OwnedPair env c (new_name_node_resources env c)
unfolding new_name_node_resources new_name_node_stateful_set new_name_node_service name_node_set
name_node-Owned env c =
    by-and_then
      (λ b. OwnedPair env c (and_then b (λ set. built (new_name_node_service env c, set))))
      (new_claims env c.spec.name_node.persistent_volumes) _ (λ _. ((refl, refl), (refl, refl)))
      (λ _. tt)

data_node-Owned : (env : Env) (c : HadoopCluster) → OwnedPair env c (new_data_node_resources env c)
unfolding new_data_node_resources new_data_node_stateful_set new_data_node_service data_node_set
data_node-Owned env c =
    by-and_then
      (λ b. OwnedPair env c (and_then b (λ set. built (new_data_node_service env c, set))))
      (data_node_claim env c) _ (λ _. ((refl, refl), (refl, refl))) (λ _. tt)

resource_manager-Owned :
    (env : Env) (c : HadoopCluster) → OwnedPair env c (new_resource_manager_resources env c)
unfolding new_resource_manager_resources new_resource_manager_service
    new_resource_manager_stateful_set
resource_manager-Owned env c = ((refl, refl), (refl, refl))

node_manager-Owned :
    (env : Env) (c : HadoopCluster) → OwnedPair env c (new_node_manager_resources env c)
unfolding new_node_manager_resources new_node_manager_service new_node_manager_stateful_set
node_manager-Owned env c = ((refl, refl), (refl, refl))

-- The same for the cluster with another status.
scope-PermitsPass :
    (env : Env) (c : HadoopCluster) (st : HadoopClusterStatus)
    → PermitsPass Finds (InScope env c) Unit env (record c { status = st })
unfolding new_config_map with_observed
scope-PermitsPass env c st =
    let d : HadoopCluster = record c { status = st } in
    record {
      gets = refl;
      creates = (refl, refl);
      updates = λ _ found. (tt, found);
      name_node = owned-Permits env c _ (name_node-Owned env d);
      data_node = owned-Permits env c _ (data_node-Owned env d);
      resource_manager = owned-Permits env c _ (resource_manager-Owned env d);
      node_manager = owned-Permits env c _ (node_manager-Owned env d);
      observes = λ _. refl;
      reports = λ _. refl;
    }

-- If the server gives a cluster back unchanged but for its status, and finds objects in the
-- namespace that it is asked for, a pass looks for objects in the namespace of the cluster only;
-- what it creates lies there and is owned by the cluster alone; what it updates lies there and is
-- no service; and each status update is of that cluster with its spec.
pub reconcile_found-InScope :
    {W : Type 0} (server : Server Answer W) (env : Env) (c : HadoopCluster) (w : W)
    → Answers Finds server
    → All (InScope env c) (calls server (reconcile_found env c) w)
reconcile_found-InScope server env c w answers = calls-All server answers w (
    reconcile_found-Holds Finds-FailsBy (Keeps c) env c refl refl (λ r h. h)
      (λ c1 same.
        subst (PermitsPass Finds (InScope env c) Unit env) (sym same)
          (scope-PermitsPass env c c1.status)))
