-- ===== src/Trae/Controller/Refinement.antt =====
-- A pass refines the settling of nine wanted objects in the abstract view of the server.
use work_script.Prelude.{◌≡◌, refl, ap, ◌∙◌, List, inl, inr, Bool-cases, ℕ, zero, suc}
use text.Mathlib.Text.{◌==◌}
use work_script.Kube.{NamespacedName, Service}
use work_script.Effects.Server.{exit, returned}
use work_script.Effects.Runs.{Leaves, final, Leaves-done, Leaves-as, Leaves-call, Leaves-try}
use work_script.Trae.Types.{HadoopCluster, HadoopClusterStatus}
use work_script.Trae.Api
use work_script.Trae.Env.{Env}
use work_script.Trae.Workload.{Built, built}
use work_script.Trae.ConfigMap.{new_config_map}
use work_script.Trae.Program.{
  Program, Kind, Object, Result, stateful_set, ok, ret, call, get, update_status,
}
use work_script.Trae.Controller.{
  requeue_in_5m, creating, init_status, apply_resources, apply_name_node, apply_data_node,
  apply_resource_manager, apply_node_manager, apply_objects, check_components, report,
  reconcile_found,
}
use work_script.Trae.Controller.Settling.{
  Succeeds, apply_config_map-Succeeds, apply_service-Succeeds, apply_stateful_set-Succeeds,
}
use work_script.Trae.Store.{View, settle, settle_all, wanted_at, settled}
use work_script.Trae.Store.Laws.{settle_all-at, settle_all_twice}
use work_script.Trae.Server.{ApiServer, IsLawful}
use work_script.Trae.Controller.Distinct.{wanted-Apart}
use work_script.Trae.Controller.Wanted.{
  wanted_service, wanted_set, wanted, Builds, name_node_built, data_node_built,
  resource_manager_built, node_manager_built, wanted_status, Builds-status,
}

module _ {W : Type 0} (s : ApiServer W) (lawful : IsLawful s) where
  apply_resources-Succeeds :
      (svc : Service) (set : Api.StatefulSet) (w : W)
      → Succeeds s lawful
          (apply_resources (built (svc, set)))
          w
          (settle (wanted_set set) (settle (wanted_service svc) (s.view w)))
  unfolding apply_resources
  apply_resources-Succeeds svc set w =
      Leaves-try s.answer s.view _ _ w (apply_service-Succeeds s lawful svc w) λ x e.
        Leaves-as s.answer s.view _ x (ap (settle (wanted_set set)) e)
          (apply_stateful_set-Succeeds s lawful set x)

  -- A component whose objects are built, in a state of which the view is known.
  component-Succeeds :
      (r : Built (Service × Api.StatefulSet)) (svc : Service) (set : Api.StatefulSet) (v : View)
      (w : W)
      → r ≡ built (svc, set)
      → s.view w ≡ v
      → Succeeds s lawful
          (apply_resources r)
          w
          (settle (wanted_set set) (settle (wanted_service svc) v))
  component-Succeeds r svc set v w e same = rw e (
      Leaves-as s.answer s.view _ w
        (ap (λ x. settle (wanted_set set) (settle (wanted_service svc) x)) same)
        (apply_resources-Succeeds svc set w))

  -- A Get, whatever is answered, leaves the view.
  get-Leaves :
      {A : Type 0} (v : View) (k : Kind) (key : NamespacedName)
      (next : Result (Object k) → Program A) (w : W) {a : A}
      → s.view w ≡ v
      → ((r : Result (Object k)) (x : W) → s.view x ≡ v → Leaves s.answer s.view (next r) x a v)
      → Leaves s.answer s.view (call (get k key) next) w a v
  get-Leaves v k key next w e rest =
      Leaves-call s.answer s.view (get k key) next w _ refl
        (rest _ (s.answer (get k key) w).1 (lawful.get-view k key w ∙ e))

  status-Leaves :
      {A : Type 0} (c : HadoopCluster) (next : Result HadoopCluster → Program A) (w : W) {a : A}
      {v : View}
      → ((x : W) → s.view x ≡ s.view w → Leaves s.answer s.view (next (ok c)) x a v)
      → Leaves s.answer s.view (call (update_status c) next) w a v
  status-Leaves c next w rest =
      let (e, same) = lawful.status-kept c w in
      Leaves-call s.answer s.view (update_status c) next w (ok c) e
        (rest (s.answer (update_status c) w).1 same)

  pub report-Leaves :
      (c : HadoopCluster) (w : W)
      → Leaves s.answer s.view (report c) w (ok requeue_in_5m) (s.view w)
  unfolding report check_components
  report-Leaves c w =
      let v = s.view w in
      get-Leaves v stateful_set _ _ w refl λ _ w1 e1. get-Leaves v stateful_set _ _ w1 e1 λ _ w2 e2.
        get-Leaves v stateful_set _ _ w2 e2 λ _ w3 e3.
          get-Leaves v stateful_set _ _ w3 e3 λ _ w4 e4.
            status-Leaves _ _ w4
              λ w5 e5. Leaves-done s.answer s.view (ok requeue_in_5m) w5 (e5 ∙ e4)

  -- The status that a pass starts with.
  init_status-Leaves :
      (c : HadoopCluster) (w : W)
      → (st : HadoopClusterStatus) × Leaves s.answer s.view
          (init_status c)
          w
          (ok (record c { status = st }))
          (s.view w)
  unfolding init_status
  init_status-Leaves c w = elim (Bool-cases (c.status.phase == "")) [
    | inl new ↦ (
      (creating c).status,
      rw new (
          status-Leaves (creating c) ret w
            λ x e. Leaves-done s.answer s.view (ok (creating c)) x e),
    )
    | inr old ↦ (c.status, rw old (Leaves-done s.answer s.view (ok c) w refl))
  ]

module _ {W : Type 0} (s : ApiServer W) (lawful : IsLawful s) (env : Env) (c : HadoopCluster)
    {claims : List Api.PersistentVolumeClaim} {claim : Api.PersistentVolumeClaim} where
  apply_objects-Succeeds :
      Builds env c claims claim
      → (w : W)
      → Succeeds s lawful
          (apply_objects env c)
          w
          (settle_all (wanted env c claims claim) (s.view w))
  unfolding apply_objects apply_name_node apply_data_node apply_resource_manager apply_node_manager
      settle_all wanted
  apply_objects-Succeeds builds w =
      Leaves-try s.answer s.view _ _ w (apply_config_map-Succeeds s lawful (new_config_map env c) w)
        λ w1 e1.
          Leaves-try s.answer s.view _ _ w1
            (component-Succeeds s lawful _ _ _ _ w1 (name_node_built env c builds) e1)
            λ w2 e2.
              Leaves-try s.answer s.view _ _ w2
                (component-Succeeds s lawful _ _ _ _ w2 (data_node_built env c builds) e2)
                λ w3 e3.
                  Leaves-try s.answer s.view _ _ w3
                    (component-Succeeds s lawful _ _ _ _ w3 (resource_manager_built env c) e3)
                    λ w4 e4. component-Succeeds s lawful _ _ _ _ w4 (node_manager_built env c) e4

module _ {W : Type 0} (s : ApiServer W) (lawful : IsLawful s) (env : Env) (c : HadoopCluster)
    {claims : List Api.PersistentVolumeClaim} {claim : Api.PersistentVolumeClaim}
    (builds : Builds env c claims claim) where
  reconcile_found-Leaves :
      (w : W)
      → Leaves s.answer s.view
          (reconcile_found env c)
          w
          (ok requeue_in_5m)
          (settle_all (wanted env c claims claim) (s.view w))
  unfolding reconcile_found
  reconcile_found-Leaves w =
      let (st, run) = init_status-Leaves s lawful c w in
      let c1 : HadoopCluster = record c { status = st } in
      Leaves-try s.answer s.view _ _ w run λ w1 e1.
        Leaves-try s.answer s.view _ _ w1
          (apply_objects-Succeeds s lawful env c1 (Builds-status env c st builds) w1)
          λ w2 e2.
            Leaves-as s.answer s.view _ w2
              (e2 ∙ (λ i. settle_all (wanted_status env c st claims claim i) (e1 i)))
              (report-Leaves s lawful c1 w2)

  -- The server after n passes over the cluster.
  abbrev pub passes : ℕ → W → W
  passes zero w = w
  passes (suc n) w = passes n (final s.answer (reconcile_found env c) w)

  -- Over a lawful server, a pass over a cluster whose claims can be built returns and asks to come
  -- again in five minutes, and the server's view is then settled: of each kind and under each key,
  -- a wanted object that was not there is there as it was built; one that was there has the wanted
  -- contents or spec, a service is as it was; and what is not wanted is as it was.
  pub reconcile_found_refines :
      (w : W)
      → (exit s.answer (reconcile_found env c) w ≡ returned (ok requeue_in_5m))
        × ((k : Kind) (key : NamespacedName)
            → s.view (final s.answer (reconcile_found env c) w) k key
              ≡ settled k (wanted_at (wanted env c claims claim) k key) (s.view w k key))
  reconcile_found_refines w =
      let (e, v) = reconcile_found-Leaves w in
      (
        e,
        λ k key.
            (λ i. v i k key)
            ∙ settle_all-at (wanted env c claims claim) (s.view w) k key
                (wanted-Apart env c claims claim),
      )

  passes-settle_all :
      (n : ℕ) (w : W)
      → s.view (passes (suc n) w) ≡ settle_all (wanted env c claims claim) (s.view w)
  passes-settle_all zero w = (reconcile_found-Leaves w).1
  passes-settle_all (suc n) w =
      passes-settle_all n (final s.answer (reconcile_found env c) w)
      ∙ ap (settle_all (wanted env c claims claim)) (reconcile_found-Leaves w).1
      ∙ settle_all_twice (wanted env c claims claim) (s.view w) (wanted-Apart env c claims claim)

  -- Over a lawful server, after any number of passes but none over a cluster whose claims can be
  -- built, each object is as one pass settles it: the wanted ones are there, and stay as they are.
  pub passes-settled :
      (n : ℕ) (w : W) (k : Kind) (key : NamespacedName)
      → s.view (passes (suc n) w) k key
        ≡ settled k (wanted_at (wanted env c claims claim) k key) (s.view w k key)
  passes-settled n w k key =
      (λ i. passes-settle_all n w i k key)
      ∙ settle_all-at (wanted env c claims claim) (s.view w) k key (wanted-Apart env c claims claim)
