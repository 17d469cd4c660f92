-- ===== src/Qoder/Controller/Pass.antt =====
-- A pass over a cluster that is not being deleted, for whatever assumption on the answers: the
-- cluster value goes through the steps of Reconcile with an invariant: I at the start, J when it has a
-- phase, K when it is not Pending.
use mathlib.Core.Bool.{false≢true}
use work_script.Prelude.{
  ℤ, ◌≡◌, refl, sym, ◌∙◌, String, true, false, Option, none, some, ◌⊎◌, inl, inr,
}
use work_script.Kube.{NamespacedName, ApiError, StatefulSet}
use work_script.Qoder.Types.{
  HadoopCluster, HadoopClusterStatus, ClusterPhase, unset, pending, creating, running, failed,
  deleting, upgrading, other_phase, NameNodeStatus, DataNodeStatus, ResourceManagerStatus,
  NodeManagerStatus,
}
use work_script.Qoder.Program.{
  Program, Call, Answer, Result, ok, err, EventType, event, now, get_stateful_set, update_status,
  update, perform,
}
use work_script.Qoder.Env.{Env}
use work_script.Qoder.Behaviour.{
  Holds, AnyValue, Ends, of_ret, of_panic, of_call, Holds-then, Holds-try, Holds-if,
}
use work_script.Qoder.Components.{Admits}
use work_script.Qoder.Reconcilers.{Sizes, run_component-Done}
use work_script.Qoder.Config.Names.{is_nn_ha, is_rm_ha}
use work_script.Qoder.Status.{
  deref, name_node_status, data_node_status, resource_manager_status, node_manager_status,
  observe_components, with_ready_condition, update_cluster_status, is_cluster_ready,
}
use work_script.Qoder.Controller.{
  Outcome, failed_with, requeue_in_30s, with_phase, hadoop_cluster_finalizer, initial_status,
  ensure_finalizer, start_creating, mark_running, finish_pass, reconcile_live, reconcile_found,
  is_unset, is_pending, is_running, components,
}
use work_script.Qoder.Controller.Rules.{Holds-and_then, Holds-run_components}

-- The cluster with the operator's finalizer added.
abbrev pub with_finalizer : Env → HadoopCluster → HadoopCluster
with_finalizer env c = record c {
  finalizers = env.add_finalizer c.finalizers hadoop_cluster_finalizer;
}

-- A status that may be sent, whose answer keeps the invariant or is an error that E allows.
abbrev pub Sends :
    ((c : Call) → Answer c → Type 0)
    → (Call → Type 0)
    → (ApiError → Type 0)
    → (HadoopCluster → Type 0)
    → HadoopCluster
    → Type 0
Sends H P E I c =
    P (update_status c) × ((r : Result HadoopCluster) → H (update_status c) r → Ends I E r)

-- A StatefulSet that was read says how many replicas it has, or else F.
abbrev pub HasReplicas : Type 0 → Result StatefulSet → Type 0
HasReplicas F = Ends (λ sts. sts.spec.replicas ≡ none → F) (λ _. Unit {0})

pub record PassRules (H : (c : Call) → Answer c → Type 0) (P : Call → Type 0)
    (E : ApiError → Type 0) (F : Type 0) (env : Env) (I J K : HadoopCluster → Type 0) : Type 0 where
  pub objects : Admits H P E env
  pub live : (c : HadoopCluster) → J c → c.is_deleted ≡ false
  pub sizes : (c : HadoopCluster) → K c → Sizes env F c.spec
  pub initial :
      (c : HadoopCluster) → I c → c.status.phase ≡ unset → Sends H P E J (with_phase pending c)
  pub begun : (c : HadoopCluster) → I c → is_unset c.status.phase ≡ false → J c
  pub finalizer :
      (c : HadoopCluster)
      → J c
      → P (update (with_finalizer env c))
        × ((r : Result HadoopCluster) → H (update (with_finalizer env c)) r → Ends J E r)
  pub start :
      (c : HadoopCluster) → J c → c.status.phase ≡ pending → Sends H P E K (with_phase creating c)
  pub created : (c : HadoopCluster) → J c → is_pending c.status.phase ≡ false → K c
  pub observed :
      (c : HadoopCluster) (s : HadoopClusterStatus) (t : ℤ)
      → K c
      → s.phase ≡ c.status.phase
      → Sends H P E K (with_ready_condition c s t)
  pub runs :
      (c : HadoopCluster)
      → K c
      → is_cluster_ready c.status ≡ true
      → is_running c.status.phase ≡ false
      → Sends H P E AnyValue (with_phase running c)
  pub events : (t : EventType) (reason message : String) → P (event t reason message)
  pub clock : P now
  pub reads : (key : NamespacedName) → P (get_stateful_set key)
  pub replicas :
      (key : NamespacedName) (r : Result StatefulSet) → H (get_stateful_set key) r → HasReplicas F r

is_unset-unset : (p : ClusterPhase) → is_unset p ≡ true → p ≡ unset
is_unset-unset unset e = refl
is_unset-unset pending e = absurd (false≢true e)
is_unset-unset creating e = absurd (false≢true e)
is_unset-unset running e = absurd (false≢true e)
is_unset-unset failed e = absurd (false≢true e)
is_unset-unset deleting e = absurd (false≢true e)
is_unset-unset upgrading e = absurd (false≢true e)
is_unset-unset (other_phase s) e = absurd (false≢true e)

is_pending-pending : (p : ClusterPhase) → is_pending p ≡ true → p ≡ pending
is_pending-pending unset e = absurd (false≢true e)
is_pending-pending pending e = refl
is_pending-pending creating e = absurd (false≢true e)
is_pending-pending running e = absurd (false≢true e)
is_pending-pending failed e = absurd (false≢true e)
is_pending-pending deleting e = absurd (false≢true e)
is_pending-pending upgrading e = absurd (false≢true e)
is_pending-pending (other_phase s) e = absurd (false≢true e)

-- The pass ends in 30 seconds to come again, or with an error that E allows.
abbrev pub Ended : (ApiError → Type 0) → Outcome → Type 0
Ended E o = (o ≡ requeue_in_30s) ⊎ ((e : ApiError) × E e × (o ≡ failed_with e))

module _ {H : (c : Call) → Answer c → Type 0} {P : Call → Type 0} {F : Type 0} where
  deref-Holds :
      {A B : Type 0} {Q : B → Type 0} (o : Option A) (k : A → Program B)
      → (o ≡ none → F)
      → ((a : A) → Holds H P Q F (k a))
      → Holds H P Q F (deref o k)
  deref-Holds none k f h = of_panic _ (f refl)
  deref-Holds (some a) k f h = h a

  pub name_node_status-Holds :
      (c : HadoopCluster) (old : NameNodeStatus) (r : Result StatefulSet)
      → HasReplicas F r
      → Holds H P AnyValue F (name_node_status c old r)
  unfolding name_node_status
  name_node_status-Holds c old (ok sts) h = deref-Holds sts.spec.replicas _ h λ _. of_ret _ tt
  name_node_status-Holds c old (err e) h = of_ret _ tt

  pub data_node_status-Holds :
      (old : DataNodeStatus) (r : Result StatefulSet)
      → HasReplicas F r
      → Holds H P AnyValue F (data_node_status old r)
  unfolding data_node_status
  data_node_status-Holds old (ok sts) h = deref-Holds sts.spec.replicas _ h λ _. of_ret _ tt
  data_node_status-Holds old (err e) h = of_ret _ tt

  pub resource_manager_status-Holds :
      (c : HadoopCluster) (old : ResourceManagerStatus) (r : Result StatefulSet)
      → HasReplicas F r
      → Holds H P AnyValue F (resource_manager_status c old r)
  unfolding resource_manager_status
  resource_manager_status-Holds c old (ok sts) h =
      deref-Holds sts.spec.replicas _ h λ _. of_ret _ tt
  resource_manager_status-Holds c old (err e) h = of_ret _ tt

  pub node_manager_status-Holds :
      (old : NodeManagerStatus) (r : Result StatefulSet)
      → HasReplicas F r
      → Holds H P AnyValue F (node_manager_status old r)
  unfolding node_manager_status
  node_manager_status-Holds old (ok sts) h = deref-Holds sts.spec.replicas _ h λ _. of_ret _ tt
  node_manager_status-Holds old (err e) h = of_ret _ tt

module _ {H : (c : Call) → Answer c → Type 0} {P : Call → Type 0} {E : ApiError → Type 0}
    {F : Type 0} {env : Env} {I J K : HadoopCluster → Type 0}
    (rules : PassRules H P E F env I J K) where
  observe-Holds :
      (c : HadoopCluster) → Holds H P (λ s. s.phase ≡ c.status.phase) F (observe_components c)
  unfolding observe_components
  observe-Holds c = of_call _ _ (rules.reads _) λ r1 h1.
      Holds-then _ (name_node_status-Holds c _ r1 (rules.replicas _ r1 h1)) λ _ _.
        of_call _ _ (rules.reads _) λ r2 h2.
          Holds-then _ (data_node_status-Holds _ r2 (rules.replicas _ r2 h2)) λ _ _.
            of_call _ _ (rules.reads _) λ r3 h3.
              Holds-then _ (resource_manager_status-Holds c _ r3 (rules.replicas _ r3 h3)) λ _ _.
                of_call _ _ (rules.reads _) λ r4 h4.
                  Holds-then _ (node_manager_status-Holds _ r4 (rules.replicas _ r4 h4))
                    λ _ _. of_ret _ refl

  perform_status-Holds :
      {L : HadoopCluster → Type 0} (c : HadoopCluster)
      → Sends H P E L c
      → Holds H P (Ends L E) F (perform (update_status c))
  perform_status-Holds c s = of_call _ _ s.0 λ r h. of_ret _ (s.1 r h)

  update_cluster_status-Holds :
      (c : HadoopCluster) → K c → Holds H P (Ends K E) F (update_cluster_status c)
  unfolding update_cluster_status
  update_cluster_status-Holds c i =
      Holds-then _ (observe-Holds c)
        λ s p. of_call _ _ rules.clock λ t _. perform_status-Holds _ (rules.observed c s t i p)

  initial_status-Holds : (c : HadoopCluster) → I c → Holds H P (Ends J E) F (initial_status c)
  unfolding initial_status
  initial_status-Holds c i =
      Holds-if (is_unset c.status.phase) _ _
        (λ b. perform_status-Holds _ (rules.initial c i (is_unset-unset _ b)))
        (λ b. of_ret _ (rules.begun c i b))

  ensure_finalizer-Holds :
      (c : HadoopCluster) → J c → Holds H P (Ends J E) F (ensure_finalizer env c)
  unfolding ensure_finalizer
  ensure_finalizer-Holds c i =
      Holds-if (env.contains_finalizer c.finalizers hadoop_cluster_finalizer) _ _ (λ _. of_ret _ i)
        (λ _. of_call _ _ (rules.finalizer c i).0 λ r h. of_ret _ ((rules.finalizer c i).1 r h))

  start_creating-Holds : (c : HadoopCluster) → J c → Holds H P (Ends K E) F (start_creating c)
  unfolding start_creating
  start_creating-Holds c i =
      Holds-if (is_pending c.status.phase) _ _
        (λ b.
          Holds-then _ (perform_status-Holds _ (rules.start c i (is_pending-pending _ b))) λ r h.
            Holds-try r _ (λ kept e. of_call _ _ (rules.events _ _ _) λ _ _. of_ret _ (rw e at h))
              (λ x e. rw e at h))
        (λ b. of_ret _ (rules.created c i b))

  mark_running-Holds : (c : HadoopCluster) → K c → Holds H P (Ends AnyValue E) F (mark_running c)
  unfolding mark_running
  mark_running-Holds c i =
      Holds-if (is_cluster_ready c.status) _ _
        (λ b.
          Holds-if (is_running c.status.phase) _ _ (λ _. of_ret _ tt)
            (λ n. of_call _ _ (rules.events _ _ _) λ _ _.
              of_call _ _ (rules.runs c i b n).0 λ r h. of_ret _ ((rules.runs c i b n).1 r h)))
        (λ _. of_ret _ tt)

  finish_pass-Holds : (c : HadoopCluster) → K c → Holds H P (Ended E) F (finish_pass c)
  unfolding finish_pass
  finish_pass-Holds c i = Holds-then _ (update_cluster_status-Holds c i) λ r h.
      Holds-and_then r _
        (λ kept e. Holds-then _ (mark_running-Holds kept (rw e at h)) λ s k.
          Holds-and_then s _ (λ _ _. of_ret _ (inl refl)) (λ x e2. inr (x, (rw e2 at k), refl)))
        (λ x e. inr (x, (rw e at h), refl))

  reconcile_live-Holds : (c : HadoopCluster) → J c → Holds H P (Ended E) F (reconcile_live env c)
  unfolding reconcile_live
  reconcile_live-Holds c i = Holds-then _ (start_creating-Holds c i) λ r h.
      Holds-and_then r _
        (λ kept e.
          Holds-run_components E env (components (is_nn_ha kept) (is_rm_ha kept)) kept _
            (λ t. rules.events _ _ t) (λ x q. inr (x, q, refl))
            (λ x. run_component-Done rules.objects x kept (rules.sizes kept (rw e at h)))
            (finish_pass-Holds kept (rw e at h)))
        (λ x e. inr (x, (rw e at h), refl))

  -- A pass that starts from a cluster with the invariant ends, and ends well.
  pub reconcile_found-Ended :
      (c : HadoopCluster) → I c → Holds H P (Ended E) F (reconcile_found env c)
  unfolding reconcile_found
  reconcile_found-Ended c i = Holds-then _ (initial_status-Holds c i) λ r h.
      Holds-and_then r _
        (λ c1 e1. Holds-then _ (ensure_finalizer-Holds c1 (rw e1 at h)) λ s k.
          Holds-and_then s _
            (λ c2 e2.
              Holds-if c2.is_deleted _ _
                (λ d. absurd (false≢true (sym (rules.live c2 (rw e2 at k)) ∙ d)))
                (λ _. reconcile_live-Holds c2 (rw e2 at k)))
            (λ x e2. inr (x, (rw e2 at k), refl)))
        (λ x e1. inr (x, (rw e1 at h), refl))
