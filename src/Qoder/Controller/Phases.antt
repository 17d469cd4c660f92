-- ===== src/Qoder/Controller/Phases.antt =====
-- The phase of a cluster as a state machine: the steps that a pass takes over a cluster that is
-- not being deleted.
use mathlib.Core.Bool.{false≢true}
use mathlib.Core.Path.{subst, ap}
use work_script.Prelude.{String, ◌≡◌, refl, ◌∙◌, sym, false, All}
use work_script.Kube.{ApiError}
use work_script.Qoder.Types.{
  HadoopCluster, HadoopClusterSpec, ClusterPhase, unset, pending, creating, running, failed,
  deleting, upgrading, other_phase,
}
use work_script.Qoder.Program.{Call, Answer, Result, ok, err, update_status, update}
use work_script.Qoder.Env.{Env}
use work_script.Qoder.Behaviour.{Ends}
use work_script.Qoder.Server.{Server, Answers, calls, calls-All}
use work_script.Qoder.Components.{Done}
use work_script.Qoder.Status.{with_ready_condition}
use work_script.Qoder.Reconcilers.{Sizes}
use work_script.Qoder.Controller.{reconcile_found, with_phase, is_running, is_unset, is_pending}
use work_script.Qoder.Controller.Pass.{
  with_finalizer, PassRules, HasReplicas, reconcile_found-Ended,
}

-- The steps that a phase can take.
pub data Step : ClusterPhase → ClusterPhase → Type 0 where
  accepted : Step unset pending
  started : Step pending creating
  ran : Step creating running
  recovered : Step failed running
  upgraded : Step upgrading running
  resumed : Step deleting running
  renamed : (s : String) → Step (other_phase s) running

-- A phase that is reached from the first in any number of steps.
pub data Reaches (p : ClusterPhase) : ClusterPhase → Type 0 where
  stays : Reaches p p
  then_steps : (q r : ClusterPhase) → Reaches p q → Step q r → Reaches p r

-- Every status that is sent has a phase that is reached from the first.
abbrev pub SendsReached : ClusterPhase → Call → Type 0
SendsReached p (update_status c) = Reaches p c.status.phase
SendsReached p _ = Unit

-- The server keeps the phase that it is sent, and whether the cluster is being deleted, or
-- refuses.
abbrev pub KeepsPhase : HadoopCluster → Result HadoopCluster → Type 0
KeepsPhase c =
    Ends (λ kept. (kept.is_deleted ≡ c.is_deleted) × (kept.status.phase ≡ c.status.phase))
      (λ _. Unit {0})

abbrev pub KeepsPhases : (c : Call) → Answer c → Type 0
KeepsPhases (update_status c) r = KeepsPhase c r
KeepsPhases (update c) r = KeepsPhase c r
KeepsPhases _ r = Unit

-- A phase that is none of these three leads to Running.
step_to_running :
    (p : ClusterPhase)
    → is_unset p ≡ false
    → is_pending p ≡ false
    → is_running p ≡ false
    → Step p running
step_to_running unset a b d = absurd (false≢true (sym a))
step_to_running pending a b d = absurd (false≢true (sym b))
step_to_running creating a b d = ran
step_to_running running a b d = absurd (false≢true (sym d))
step_to_running failed a b d = recovered
step_to_running deleting a b d = resumed
step_to_running upgrading a b d = upgraded
step_to_running (other_phase s) a b d = renamed s

abbrev Tracks : ClusterPhase → HadoopCluster → Type 0
Tracks p c = (c.is_deleted ≡ false) × Reaches p c.status.phase

-- Any error, any panic.
abbrev pub AnyError : ApiError → Type 0
AnyError e = Unit

pub any-Done : {A : Type 0} (r : Result A) → Done AnyError r
any-Done (ok a) = tt
any-Done (err e) = tt

pub any-HasReplicas : (r : _) → HasReplicas (Unit {0}) r
any-HasReplicas (ok sts) = λ _. tt
any-HasReplicas (err e) = tt

pub any-Sizes : (env : Env) (spec : HadoopClusterSpec) → Sizes env (Unit {0}) spec
any-Sizes env spec = record {
  cpu_250m = λ _. tt;
  cpu_500m = λ _. tt;
  cpu_1000m = λ _. tt;
  memory_1gi = λ _. tt;
  memory_2gi = λ _. tt;
  memory_4gi = λ _. tt;
  zoo_keeper_storage = λ _. tt;
  name_node_storage = λ _. tt;
  data_node_storage = λ _. tt;
  journal_node_storage = λ _ _ _. tt;
}

-- The same of a cluster that has a phase, and of one that is not Pending either.
abbrev Begun : ClusterPhase → HadoopCluster → Type 0
Begun p c = Tracks p c × (is_unset c.status.phase ≡ false)

abbrev Created : ClusterPhase → HadoopCluster → Type 0
Created p c = Tracks p c × (is_unset c.status.phase ≡ false) × (is_pending c.status.phase ≡ false)

kept-Begun :
    (p : ClusterPhase) (c : HadoopCluster) (r : Result HadoopCluster)
    → Begun p c
    → KeepsPhase c r
    → Ends (Begun p) AnyError r
kept-Begun p c (ok kept) i h =
    ((h.0 ∙ i.0.0, subst (Reaches p) (sym h.1) i.0.1), ap is_unset h.1 ∙ i.1)
kept-Begun p c (err e) i h = tt

kept-Created :
    (p : ClusterPhase) (c : HadoopCluster) (r : Result HadoopCluster)
    → Created p c
    → KeepsPhase c r
    → Ends (Created p) AnyError r
kept-Created p c (ok kept) i h = (
  (h.0 ∙ i.0.0, subst (Reaches p) (sym h.1) i.0.1),
  ap is_unset h.1 ∙ i.1,
  ap is_pending h.1 ∙ i.2,
)
kept-Created p c (err e) i h = tt

extend_path :
    {p q r : ClusterPhase} (s : ClusterPhase) → Reaches p s → s ≡ q → Step q r → Reaches p r
extend_path {p} {q} s reached e step = then_steps _ _ (subst (Reaches p) e reached) step

phases-PassRules :
    (env : Env) (p : ClusterPhase)
    → PassRules KeepsPhases
        (SendsReached p)
        AnyError
        (Unit {0})
        env
        (Tracks p)
        (Begun p)
        (Created p)
unfolding with_ready_condition
phases-PassRules env p = record {
  objects = record {
    fetches = λ _ _. tt;
    fetched = λ _ _ r _. any-Done r;
    writes = λ _ _. tt;
    written = λ _ _ r _. any-Done r;
    reads = λ _. tt;
    owned = λ _ _. any-Done _;
  };
  live = λ _ i. i.0.0;
  sizes = λ c _. any-Sizes env c.spec;
  initial = λ c i e.
      let reached = extend_path _ i.1 e accepted in
      (reached, λ r h. kept-Begun p (with_phase pending c) r ((i.0, reached), refl) h);
  begun = λ _ i b. (i, b);
  finalizer = λ c i. (tt, λ r h. kept-Begun p (with_finalizer env c) r i h);
  start = λ c i e.
      let reached = extend_path _ i.0.1 e started in
      (reached, λ r h. kept-Created p (with_phase creating c) r ((i.0.0, reached), refl, refl) h);
  created = λ _ i b. (i.0, i.1, b);
  observed = λ c s t i e.
      let reached = subst (Reaches p) (sym e) i.0.1 in
      (
        reached,
        λ r h.
            kept-Created p (with_ready_condition c s t) r
              ((i.0.0, reached), ap is_unset e ∙ i.1, ap is_pending e ∙ i.2) h,
      );
  runs = λ c i _ n.
      (then_steps _ _ i.0.1 (step_to_running c.status.phase i.1 i.2 n), λ r _. any-Done r);
  events = λ _ _ _. tt;
  clock = tt;
  reads = λ _. tt;
  replicas = λ _ r _. any-HasReplicas r;
}

-- Every status that a pass sends for a cluster that is not being deleted has a phase that is
-- reached from the cluster's phase by these steps: from no phase to Pending, from Pending to
-- Creating, and from any phase but these and Running to Running. So none is Failed, Upgrading or
-- Deleting that was not so before, and a Running cluster stays Running. The server may refuse
-- anything, if it keeps the phase and the deletion mark of what it accepts.
pub reconcile_found-Reaches :
    {W : Type 0} (server : Server W) (env : Env) (c : HadoopCluster) (w : W)
    → Answers KeepsPhases server
    → c.is_deleted ≡ false
    → All (SendsReached c.status.phase) (calls server (reconcile_found env c) w)
reconcile_found-Reaches server env c w answers live =
    calls-All server answers w
      (reconcile_found-Ended (phases-PassRules env c.status.phase) c (live, stays))
