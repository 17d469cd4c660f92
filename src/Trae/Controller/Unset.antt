-- ===== src/Trae/Controller/Unset.antt =====
-- Replicas that a cluster does not give: the builders ask for one pod, and the report asks for none.
use work_script.Prelude.{◌≡◌, refl, pos, All, true, List}
use work_script.Effects.Behaviour.{Holds, of_ret, of_call, AnyValue, Ends, Holds-then}
use work_script.Effects.Server.{Server, Answers, calls, calls-All}
use work_script.Trae.Types.{HadoopCluster, ComponentsStatus}
use work_script.Trae.Api
use work_script.Trae.Env.{Env}
use work_script.Trae.NameNode.Base.{name_node_set}
use work_script.Trae.DataNode.{data_node_set}
use work_script.Trae.ResourceManager.{new_resource_manager_stateful_set}
use work_script.Trae.NodeManager.{new_node_manager_stateful_set}
use work_script.Trae.Program.{
  Call, Answer, Result, ok, err, ret, try, get_cluster, update_status, get, create, update, service,
  stateful_set, config_map,
}
use work_script.Trae.Controller.{
  all_ready, check_component, with_observed, check_components, report, requeue_in_5m,
}

-- No replicas are given, and none is counted yet.
pub record Unset (c : HadoopCluster) : Type 0 where
  pub name_node : c.spec.name_node.replicas ≡ pos 0
  pub data_node : c.spec.data_node.replicas ≡ pos 0
  pub resource_manager : c.spec.resource_manager.replicas ≡ pos 0
  pub node_manager : c.spec.node_manager.replicas ≡ pos 0
  pub name_node_count : c.status.components.name_node.ready_replicas ≡ pos 0
  pub data_node_count : c.status.components.data_node.ready_replicas ≡ pos 0
  pub resource_manager_count : c.status.components.resource_manager.ready_replicas ≡ pos 0
  pub node_manager_count : c.status.components.node_manager.ready_replicas ≡ pos 0

-- Every Get of a StatefulSet fails.
abbrev pub NoSet : (c : Call) → Answer c → Type 0
NoSet (get_cluster key) r = Unit
NoSet (update_status c) r = Unit
NoSet (get config_map key) r = Unit
NoSet (get service key) r = Unit
NoSet (get stateful_set key) r = Ends (λ _. ⊥) AnyValue r
NoSet (create k o) r = Unit
NoSet (update k o) r = Unit

-- The phase is Ready although every component is in error.
abbrev pub ReadyInError : HadoopCluster → Type 0
ReadyInError d =
    (d.status.phase ≡ "Ready")
    × (d.status.components.name_node.status ≡ "Error")
    × (d.status.components.data_node.status ≡ "Error")
    × (d.status.components.resource_manager.status ≡ "Error")
    × (d.status.components.node_manager.status ≡ "Error")

abbrev pub SendsReadyInError : Call → Type 0
SendsReadyInError (update_status d) = ReadyInError d
SendsReadyInError (get_cluster key) = Unit
SendsReadyInError (get k key) = Unit
SendsReadyInError (create k o) = Unit
SendsReadyInError (update k o) = Unit

abbrev SameCounts : HadoopCluster → ComponentsStatus → Type 0
SameCounts c s =
    (s.name_node.ready_replicas ≡ c.status.components.name_node.ready_replicas)
    × (s.data_node.ready_replicas ≡ c.status.components.data_node.ready_replicas)
    × (s.resource_manager.ready_replicas ≡ c.status.components.resource_manager.ready_replicas)
    × (s.node_manager.ready_replicas ≡ c.status.components.node_manager.ready_replicas)

-- What the four Gets leave, if they fail.
abbrev AllFailed : HadoopCluster → ComponentsStatus → Type 0
AllFailed c s =
    SameCounts c s
    × ((s.name_node.status ≡ "Error")
        × (s.data_node.status ≡ "Error")
        × (s.resource_manager.status ≡ "Error")
        × (s.node_manager.status ≡ "Error"))

all_ready-Unset :
    (c : HadoopCluster) (s : ComponentsStatus) → Unset c → SameCounts c s → all_ready c s ≡ true
all_ready-Unset c s u (nn, dn, rm, nm) = simp (
  nn, dn, rm, nm, u.name_node, u.data_node, u.resource_manager, u.node_manager, u.name_node_count,
  u.data_node_count, u.resource_manager_count, u.node_manager_count,
)

with_observed-ReadyInError :
    (c : HadoopCluster) (s : ComponentsStatus)
    → Unset c
    → AllFailed c s
    → ReadyInError (with_observed c s)
unfolding with_observed
with_observed-ReadyInError c s u (counts, (a, b, d, e)) =
    (rw (all_ready-Unset c s u counts) refl, a, b, d, e)

check_components-AllFailed :
    (c : HadoopCluster)
    → Holds NoSet SendsReadyInError (AllFailed c) (Unit {0}) (check_components c)
unfolding check_components
check_components-AllFailed c = of_call _ _ tt λ nn h1. of_call _ _ tt λ dn h2.
    of_call _ _ tt λ rm h3. of_call _ _ tt λ nm h4. of_ret _ (failed nn dn rm nm h1 h2 h3 h4)
  where
    failed :
        (nn dn rm nm : Result Api.StatefulSet)
        → Ends (λ _. ⊥) AnyValue nn
        → Ends (λ _. ⊥) AnyValue dn
        → Ends (λ _. ⊥) AnyValue rm
        → Ends (λ _. ⊥) AnyValue nm
        → AllFailed c (record {
          name_node = check_component nn c.status.components.name_node;
          data_node = check_component dn c.status.components.data_node;
          resource_manager = check_component rm c.status.components.resource_manager;
          node_manager = check_component nm c.status.components.node_manager;
        })
    failed (err _) (err _) (err _) (err _) h1 h2 h3 h4 =
        ((refl, refl, refl, refl), (refl, refl, refl, refl))
    failed (ok _) dn rm nm h1 h2 h3 h4 = absurd h1
    failed (err _) (ok _) rm nm h1 h2 h3 h4 = absurd h2
    failed (err _) (err _) (ok _) nm h1 h2 h3 h4 = absurd h3
    failed (err _) (err _) (err _) (ok _) h1 h2 h3 h4 = absurd h4

report-ReadyInError :
    (c : HadoopCluster) → Unset c → Holds NoSet SendsReadyInError AnyValue (Unit {0}) (report c)
unfolding report
report-ReadyInError c u = Holds-then _ (check_components-AllFailed c) λ s q.
    of_call (update_status (with_observed c s)) _ (with_observed-ReadyInError c s u q)
      λ r _. ended r
  where
    ended :
        (r : Result HadoopCluster)
        → Holds NoSet SendsReadyInError AnyValue (Unit {0}) (try r (λ _. ret (ok requeue_in_5m)))
    ended (ok _) = of_ret _ tt
    ended (err _) = of_ret _ tt

-- For a cluster that gives no replicas and counts none, and a server on which every Get of a
-- StatefulSet fails: the four StatefulSets are built with one replica each, and yet each status that
-- the report sends has the phase Ready, with all four components in error.
pub Unset-ReadyInError :
    {W : Type 0} (server : Server Answer W) (env : Env) (c : HadoopCluster) (w : W)
    (claims : List Api.PersistentVolumeClaim) (claim : Api.PersistentVolumeClaim)
    (pod : Api.PodSpec)
    → Answers NoSet server
    → Unset c
    → ((name_node_set env c pod claims).spec.replicas ≡ pos 1)
      × ((data_node_set env c claim).spec.replicas ≡ pos 1)
      × ((new_resource_manager_stateful_set env c).spec.replicas ≡ pos 1)
      × ((new_node_manager_stateful_set env c).spec.replicas ≡ pos 1)
      × All SendsReadyInError (calls server (report c) w)
unfolding name_node_set data_node_set new_resource_manager_stateful_set
    new_node_manager_stateful_set
Unset-ReadyInError server env c w claims claim pod answers u = (
  rw u.name_node refl,
  rw u.data_node refl,
  rw u.resource_manager refl,
  rw u.node_manager refl,
  calls-All server answers w (report-ReadyInError c u),
)
