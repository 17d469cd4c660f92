-- ===== src/Trae/Controller/Rules.antt =====
-- What holds of a pass, whatever it is answered: rules for its parts.
use text.Mathlib.Text.{◌==◌}
use work_script.Prelude.{◌≡◌, refl, String}
use work_script.Kube.{ApiError, Service, ConfigMap}
use work_script.Effects.Behaviour.{
  Holds, of_ret, of_panic, of_call, AnyValue, Ends, Holds-then, Holds-next, Holds-if, after_try,
}
use work_script.Trae.Types.{HadoopCluster, ComponentsStatus}
use work_script.Trae.Api
use work_script.Trae.Env.{Env}
use work_script.Trae.Workload.{Built, built, panicked, object_name}
use work_script.Trae.ConfigMap.{new_config_map}
use work_script.Trae.NameNode.{new_name_node_resources}
use work_script.Trae.DataNode.{new_data_node_resources}
use work_script.Trae.ResourceManager.{new_resource_manager_resources}
use work_script.Trae.NodeManager.{new_node_manager_resources}
use work_script.Trae.Program.{
  Program, Call, Answer, Result, Kind, Object, key_of, ok, err, perform, config_map, service,
  stateful_set, get_cluster, update_status, get, create, update,
}
use work_script.Trae.Controller.{
  requeue_in_5m, creating, found_or, get_or_create, init_status, apply_config_map, apply_service,
  apply_stateful_set, apply_resources, apply_name_node, apply_data_node, apply_resource_manager,
  apply_node_manager, apply_objects, check_components, with_observed, report, reconcile_found,
}

-- The error of an answer satisfies E.
abbrev pub FailsBy : (ApiError → Type 0) → (c : Call) → Answer c → Type 0
FailsBy E (get_cluster key) r = Ends AnyValue E r
FailsBy E (update_status c) r = Ends AnyValue E r
FailsBy E (get k key) r = Ends AnyValue E r
FailsBy E (create k o) r = Ends AnyValue E r
FailsBy E (update k o) r = Ends AnyValue E r

-- A part of a pass: it succeeds or fails by E.
abbrev pub Part :
    ((c : Call) → Answer c → Type 0)
    → (Call → Type 0)
    → Type 0
    → (ApiError → Type 0)
    → Program (Result (Unit {0}))
    → Type 0
Part H P F E m = Holds H P (Ends AnyValue E) F m

-- What a pass may do with the objects of a component, if answers satisfy H.
pub record Permits (H : (c : Call) → Answer c → Type 0) (P : Call → Type 0) (F : Type 0)
    (r : Built (Service × Api.StatefulSet)) : Type 0 where
  pub panics : (s : String) → r ≡ panicked s → F
  pub gets :
      (svc : Service) (set : Api.StatefulSet)
      → r ≡ built (svc, set)
      → P (get service (key_of service svc)) × P (get stateful_set (key_of stateful_set set))
  pub creates :
      (svc : Service) (set : Api.StatefulSet)
      → r ≡ built (svc, set)
      → P (create service svc) × P (create stateful_set set)
  pub updates :
      (svc : Service) (set old : Api.StatefulSet)
      → r ≡ built (svc, set)
      → H (get stateful_set (key_of stateful_set set)) (ok old)
      → P (update stateful_set (record old { spec = set.spec }))

-- What a pass over a cluster may do.
pub record PermitsPass (H : (c : Call) → Answer c → Type 0) (P : Call → Type 0) (F : Type 0)
    (env : Env) (c : HadoopCluster) : Type 0 where
  pub gets : P (get config_map (key_of config_map (new_config_map env c)))
  pub creates : P (create config_map (new_config_map env c))
  pub updates :
      (old : ConfigMap)
      → H (get config_map (key_of config_map (new_config_map env c))) (ok old)
      → P (update config_map (record old { contents = (new_config_map env c).contents }))
  pub name_node : Permits H P F (new_name_node_resources env c)
  pub data_node : Permits H P F (new_data_node_resources env c)
  pub resource_manager : Permits H P F (new_resource_manager_resources env c)
  pub node_manager : Permits H P F (new_node_manager_resources env c)
  pub observes :
      (component : String)
      → P (get stateful_set (record { namespace = c.namespace; name = object_name c component }))
  pub reports : (s : ComponentsStatus) → P (update_status (with_observed c s))

module _ {H : (c : Call) → Answer c → Type 0} {P : Call → Type 0} {F : Type 0}
    {E : ApiError → Type 0} (fails : (c : Call) (r : Answer c) → H c r → FailsBy E c r) where
  perform-create : (k : Kind) (o : Object k) → P (create k o) → Part H P F E (perform (create k o))
  perform-create k o p = of_call _ _ p λ r h. of_ret r (fails (create k o) r h)

  perform-update : (k : Kind) (o : Object k) → P (update k o) → Part H P F E (perform (update k o))
  perform-update k o p = of_call _ _ p λ r h. of_ret r (fails (update k o) r h)

  found_or-Part :
      (k : Kind) (o : Object k) (present : Object k → Program (Result (Unit {0})))
      (r : Result (Object k))
      → H (get k (key_of k o)) r
      → P (create k o)
      → ((old : Object k) → H (get k (key_of k o)) (ok old) → Part H P F E (present old))
      → Part H P F E (found_or k o present r)
  found_or-Part k o present (ok old) h p q = q old h
  found_or-Part k o present (err x) h p q =
      Holds-if x.is_not_found _ _ (λ _. perform-create k o p)
        (λ _. of_ret _ (fails (get k (key_of k o)) (err x) h))

  get_or_create-Part :
      (k : Kind) (o : Object k) (present : Object k → Program (Result (Unit {0})))
      → P (get k (key_of k o))
      → P (create k o)
      → ((old : Object k) → H (get k (key_of k o)) (ok old) → Part H P F E (present old))
      → Part H P F E (get_or_create k o present)
  get_or_create-Part k o present g p q = of_call _ _ g λ r h. found_or-Part k o present r h p q

  apply_resources-Part :
      (r : Built (Service × Api.StatefulSet)) → Permits H P F r → Part H P F E (apply_resources r)
  unfolding apply_resources apply_service apply_stateful_set
  apply_resources-Part (panicked s) p = of_panic s (p.panics s refl)
  apply_resources-Part (built (svc, set)) p =
      let (g, h) = p.gets svc set refl in
      let (c, d) = p.creates svc set refl in
      Holds-next _ (get_or_create-Part service svc _ g c (λ _ _. of_ret (ok tt) tt)) λ _ _.
        get_or_create-Part stateful_set set _ h d
          (λ old h. perform-update stateful_set _ (p.updates svc set old refl h))

  apply_objects-Part :
      (env : Env) (c : HadoopCluster) → PermitsPass H P F env c → Part H P F E (apply_objects env c)
  unfolding apply_objects apply_config_map apply_name_node apply_data_node apply_resource_manager
      apply_node_manager
  apply_objects-Part env c p =
      Holds-next _
        (get_or_create-Part config_map (new_config_map env c) _ p.gets p.creates
          (λ old h. perform-update config_map _ (p.updates old h)))
        λ _ _. Holds-next _ (apply_resources-Part _ p.name_node) λ _ _.
          Holds-next _ (apply_resources-Part _ p.data_node) λ _ _.
            Holds-next _ (apply_resources-Part _ p.resource_manager)
              λ _ _. apply_resources-Part _ p.node_manager

  check_components-Holds :
      (env : Env) (c : HadoopCluster)
      → PermitsPass H P F env c
      → Holds H P AnyValue F (check_components c)
  unfolding check_components
  check_components-Holds env c p = of_call _ _ (p.observes "namenode") λ _ _.
      of_call _ _ (p.observes "datanode") λ _ _.
        of_call _ _ (p.observes "resourcemanager")
          λ _ _. of_call _ _ (p.observes "nodemanager") λ _ _. of_ret _ tt

  report-Holds :
      (env : Env) (c : HadoopCluster)
      → PermitsPass H P F env c
      → Holds H P (Ends (λ o. o ≡ requeue_in_5m) E) F (report c)
  unfolding report
  report-Holds env c p = Holds-then _ (check_components-Holds env c p) λ s _.
      of_call _ _ (p.reports s) λ r h.
        after_try {Q = AnyValue} r _ (fails (update_status (with_observed c s)) r h)
          (λ _ _. of_ret (ok requeue_in_5m) refl)

  -- A pass: C says of the cluster that the server gave back how it may differ from the one found.
  pub reconcile_found-Holds :
      (C : HadoopCluster → Type 0) (env : Env) (c : HadoopCluster)
      → P (update_status (creating c))
      → C c
      → ((r : Result HadoopCluster) → H (update_status (creating c)) r → Ends C E r)
      → ((c1 : HadoopCluster) → C c1 → PermitsPass H P F env c1)
      → Holds H P (Ends (λ o. o ≡ requeue_in_5m) E) F (reconcile_found env c)
  unfolding reconcile_found init_status
  reconcile_found-Holds C env c p found kept permits =
      Holds-next {Q = C} _
        (Holds-if (c.status.phase == "") _ _ (λ _. of_call _ _ p λ r h. of_ret r (kept r h))
          (λ _. of_ret (ok c) found))
        λ c1 q.
          Holds-next _ (apply_objects-Part env c1 (permits c1 q))
            λ _ _. report-Holds env c1 (permits c1 q)
