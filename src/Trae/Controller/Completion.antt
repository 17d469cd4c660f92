-- ===== src/Trae/Controller/Completion.antt =====
-- How a pass ends.
use mathlib.Core.Path.{subst}
use work_script.Prelude.{◌≡◌, refl, sym, ◌∙◌, String, List}
use work_script.Kube.{ApiError, Service}
use work_script.Effects.Behaviour.{AnyValue, AnyCall, Ends}
use work_script.Effects.Server.{Server, Answers, Exits, exit, exit-Exits}
use work_script.Trae.Types.{HadoopCluster}
use work_script.Trae.Api
use work_script.Trae.Env.{Env}
use work_script.Trae.Workload.{Built, built, panicked}
use work_script.Trae.Program.{
  Call, Answer, Result, ok, err, get_cluster, update_status, get, create, update,
}
use work_script.Trae.Controller.{requeue_in_5m, reconcile_found}
use work_script.Trae.Controller.Wanted.{
  Builds, Builds-status, name_node_built, data_node_built, resource_manager_built,
  node_manager_built,
}
use work_script.Trae.Controller.Rules.{FailsBy, Permits, PermitsPass, reconcile_found-Holds}

-- A cluster that differs from another in its status alone.
abbrev pub Keeps : HadoopCluster → HadoopCluster → Type 0
Keeps c c1 = c1 ≡ record c { status = c1.status }

-- Errors satisfy E, and a status update gives back the cluster, its status aside.
abbrev pub Serves : (ApiError → Type 0) → (c : Call) → Answer c → Type 0
Serves E (get_cluster key) r = Ends AnyValue E r
Serves E (update_status c) r = Ends (Keeps c) E r
Serves E (get k key) r = Ends AnyValue E r
Serves E (create k o) r = Ends AnyValue E r
Serves E (update k o) r = Ends AnyValue E r

forget :
    (E : ApiError → Type 0) (Q : HadoopCluster → Type 0) (r : Result HadoopCluster)
    → Ends Q E r
    → Ends AnyValue E r
forget E Q (ok c) h = tt
forget E Q (err e) h = h

pub Serves-FailsBy :
    (E : ApiError → Type 0) (c : Call) (r : Answer c) → Serves E c r → FailsBy E c r
Serves-FailsBy E (get_cluster key) r h = h
Serves-FailsBy E (update_status c) r h = forget E (Keeps c) r h
Serves-FailsBy E (get k key) r h = h
Serves-FailsBy E (create k o) r h = h
Serves-FailsBy E (update k o) r h = h

abbrev IsBuilt : {A : Type 0} → Built A → Type 0
IsBuilt (built a) = Unit
IsBuilt (panicked s) = ⊥

built_only : {A : Type 0} {r : Built A} {a : A} (s : String) → r ≡ built a → r ≡ panicked s → ⊥
built_only s e f = subst IsBuilt (sym e ∙ f) tt

-- Parts that are built, with no condition on the calls.
builds-Permits :
    (H : (c : Call) → Answer c → Type 0) {r : Built (Service × Api.StatefulSet)}
    {a : Service × Api.StatefulSet}
    → r ≡ built a
    → Permits H AnyCall ⊥ r
builds-Permits H e = record {
  panics = λ s f. built_only s e f;
  gets = λ _ _ _. (tt, tt);
  creates = λ _ _ _. (tt, tt);
  updates = λ _ _ _ _ _. tt;
}

builds-PermitsPass :
    (H : (c : Call) → Answer c → Type 0) (env : Env) (c : HadoopCluster)
    {claims : List Api.PersistentVolumeClaim} {claim : Api.PersistentVolumeClaim}
    → Builds env c claims claim
    → PermitsPass H AnyCall ⊥ env c
builds-PermitsPass H env c b = record {
  gets = tt;
  creates = tt;
  updates = λ _ _. tt;
  name_node = builds-Permits H (name_node_built env c b);
  data_node = builds-Permits H (data_node_built env c b);
  resource_manager = builds-Permits H (resource_manager_built env c);
  node_manager = builds-Permits H (node_manager_built env c);
  observes = λ _. tt;
  reports = λ _. tt;
}

-- Whatever a server answers, whose errors satisfy E and which gives a cluster back unchanged but for
-- its status: a pass over a cluster whose claims can be built does not panic, and either asks to come
-- again in five minutes or fails with an error that satisfies E.
pub reconcile_found_ends :
    {W : Type 0} (server : Server Answer W) (E : ApiError → Type 0) (env : Env) (c : HadoopCluster)
    {claims : List Api.PersistentVolumeClaim} {claim : Api.PersistentVolumeClaim} (w : W)
    → Answers (Serves E) server
    → Builds env c claims claim
    → Exits (Ends (λ o. o ≡ requeue_in_5m) E) ⊥ (exit server (reconcile_found env c) w)
reconcile_found_ends server E env c w answers builds = exit-Exits server answers w (
    reconcile_found-Holds (Serves-FailsBy E) (Keeps c) env c tt refl (λ r h. h)
      (λ c1 same. subst (PermitsPass (Serves E) AnyCall ⊥ env) (sym same) (
        builds-PermitsPass (Serves E) env (record c { status = c1.status })
          (Builds-status env c c1.status builds))))
