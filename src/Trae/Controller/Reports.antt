-- ===== src/Trae/Controller/Reports.antt =====
-- What a pass says of a cluster in its status.
use work_script.Prelude.{
  ◌≡◌, refl, ◌⊎◌, inl, inr, ℤ, ◌≤ℤ◌, ◌<ℤ◌, ltb_ℤ, true, false, Bool-cases, All, arith,
}
use work_script.Kube.{NamespacedName, Service}
use work_script.Effects.Behaviour.{
  Holds, of_ret, of_call, AnyAnswer, AnyValue, Ends, Holds-if, Holds-mono,
}
use work_script.Effects.Server.{Server, calls, calls-All}
use work_script.Trae.Types.{HadoopCluster, ComponentsStatus}
use work_script.Trae.Api
use work_script.Trae.Env.{Env}
use work_script.Trae.Workload.{Built}
use work_script.Trae.Program.{
  Call, Answer, Result, ok, err, get_cluster, update_status, get, create, update,
}
use work_script.Trae.Controller.{with_observed, reconcile_found, reconcile, after_get}
use work_script.Trae.Controller.Rules.{FailsBy, Permits, PermitsPass, reconcile_found-Holds}

-- Each component counts at least the replicas of the spec.
abbrev pub Enough : HadoopCluster → Type 0
Enough d =
    (d.spec.name_node.replicas ≤ℤ d.status.components.name_node.ready_replicas)
    × (d.spec.data_node.replicas ≤ℤ d.status.components.data_node.ready_replicas)
    × (d.spec.resource_manager.replicas ≤ℤ d.status.components.resource_manager.ready_replicas)
    × (d.spec.node_manager.replicas ≤ℤ d.status.components.node_manager.ready_replicas)

-- Some component counts fewer.
abbrev pub Short : HadoopCluster → Type 0
Short d =
    (d.status.components.name_node.ready_replicas <ℤ d.spec.name_node.replicas)
    ⊎ (d.status.components.data_node.ready_replicas <ℤ d.spec.data_node.replicas)
    ⊎ (d.status.components.resource_manager.ready_replicas <ℤ d.spec.resource_manager.replicas)
    ⊎ (d.status.components.node_manager.ready_replicas <ℤ d.spec.node_manager.replicas)

-- The phase that a status is sent with agrees with its own counts.
abbrev pub Agrees : HadoopCluster → Type 0
Agrees d =
    (d.status.phase ≡ "Creating")
    ⊎ ((d.status.phase ≡ "Ready") × Enough d)
    ⊎ ((d.status.phase ≡ "Running") × Short d)

abbrev pub SendsAgreeing : Call → Type 0
SendsAgreeing (update_status d) = Agrees d
SendsAgreeing (get_cluster key) = Unit
SendsAgreeing (get k key) = Unit
SendsAgreeing (create k o) = Unit
SendsAgreeing (update k o) = Unit

lt_cases : (a b : ℤ) → ((ltb_ℤ a b ≡ true) × (a <ℤ b)) ⊎ ((ltb_ℤ a b ≡ false) × (b ≤ℤ a))
lt_cases a b = elim (Bool-cases (ltb_ℤ a b)) [
  | inl h ↦ inl (h, ground arith)
  | inr h ↦ inr (h, ground arith)
]

with_observed-Agrees : (c : HadoopCluster) (s : ComponentsStatus) → Agrees (with_observed c s)
unfolding with_observed
with_observed-Agrees c s =
    let nn = lt_cases s.name_node.ready_replicas c.spec.name_node.replicas in
    let dn = lt_cases s.data_node.ready_replicas c.spec.data_node.replicas in
    let rm = lt_cases s.resource_manager.ready_replicas c.spec.resource_manager.replicas in
    let nm = lt_cases s.node_manager.ready_replicas c.spec.node_manager.replicas in
    elim nn [
      | inl (a, l) ↦ inr (inr (rw a refl, inl l))
      | inr (a, l1) ↦ elim dn [
        | inl (b, l) ↦ inr (inr (rw (a, b) refl, inr (inl l)))
        | inr (b, l2) ↦ elim rm [
          | inl (d, l) ↦ inr (inr (rw (a, b, d) refl, inr (inr (inl l))))
          | inr (d, l3) ↦ elim nm [
            | inl (e, l) ↦ inr (inr (rw (a, b, d, e) refl, inr (inr (inr l))))
            | inr (e, l4) ↦ inr (inl (rw (a, b, d, e) refl, (l1, l2, l3, l4)))
          ]
        ]
      ]
    ]

no_failure : (c : Call) (r : Answer c) → Unit {0} → FailsBy (λ _. Unit) c r
no_failure (get_cluster key) (ok _) h = tt
no_failure (get_cluster key) (err _) h = tt
no_failure (update_status c) (ok _) h = tt
no_failure (update_status c) (err _) h = tt
no_failure (get k key) (ok _) h = tt
no_failure (get k key) (err _) h = tt
no_failure (create k o) (ok _) h = tt
no_failure (create k o) (err _) h = tt
no_failure (update k o) (ok _) h = tt
no_failure (update k o) (err _) h = tt

any_Permits :
    (H : (c : Call) → Answer c → Type 0) (r : Built (Service × Api.StatefulSet))
    → Permits H SendsAgreeing Unit r
any_Permits H r = record {
  panics = λ _ _. tt;
  gets = λ _ _ _. (tt, tt);
  creates = λ _ _ _. (tt, tt);
  updates = λ _ _ _ _ _. tt;
}

agreeing-PermitsPass :
    (H : (c : Call) → Answer c → Type 0) (env : Env) (c : HadoopCluster)
    → PermitsPass H SendsAgreeing Unit env c
agreeing-PermitsPass H env c = record {
  gets = tt;
  creates = tt;
  updates = λ _ _. tt;
  name_node = any_Permits H _;
  data_node = any_Permits H _;
  resource_manager = any_Permits H _;
  node_manager = any_Permits H _;
  observes = λ _. tt;
  reports = λ s. with_observed-Agrees c s;
}

kept_any : (r : Result HadoopCluster) → Ends AnyValue (λ _. Unit {0}) r
kept_any (ok c) = tt
kept_any (err e) = tt

reconcile_found-Agrees :
    (env : Env) (c : HadoopCluster)
    → Holds (AnyAnswer Answer) SendsAgreeing AnyValue (Unit {0}) (reconcile_found env c)
reconcile_found-Agrees env c =
    Holds-mono
      (reconcile_found-Holds {E = λ _. Unit} no_failure AnyValue env c (inl refl) tt
        (λ r _. kept_any r) (λ c1 _. agreeing-PermitsPass _ env c1))
      (λ _ _. tt)

after_get-Agrees :
    (env : Env) (r : Result HadoopCluster)
    → Holds (AnyAnswer Answer) SendsAgreeing AnyValue (Unit {0}) (after_get env r)
after_get-Agrees env (ok c) = reconcile_found-Agrees env c
after_get-Agrees env (err e) = Holds-if e.is_not_found _ _ (λ _. of_ret _ tt) (λ _. of_ret _ tt)

-- Whatever the server answers, every status that a pass sends is Creating, or Ready with at least as
-- many ready replicas of each component as its spec asks for, or Running with fewer of one.
pub reconcile-Agrees :
    {W : Type 0} (server : Server Answer W) (env : Env) (key : NamespacedName) (w : W)
    → All SendsAgreeing (calls server (reconcile env key) w)
unfolding reconcile
reconcile-Agrees server env key w =
    calls-All server {H = AnyAnswer Answer} (λ _ _. tt) w
      (of_call _ _ tt λ r _. after_get-Agrees env r)
