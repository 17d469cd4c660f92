-- ===== src/Qoder/Controller/Running.antt =====
-- When a pass says that a cluster is Running.

use mathlib.Core.Path.{ap}
use work_script.Prelude.{◌⊎◌, inl, inr, ◌≡◌, refl, ◌∙◌, false, All}
use work_script.Qoder.Types.{HadoopCluster, pending, creating}
use work_script.Qoder.Program.{Call, Result, ok, err, update_status}
use work_script.Qoder.Env.{Env}
use work_script.Qoder.Behaviour.{Ends}
use work_script.Qoder.Server.{Server, Answers, calls, calls-All}
use work_script.Qoder.Status.{with_ready_condition}
use work_script.Qoder.Status.Conditions.{FourReady, is_cluster_ready-FourReady}
use work_script.Qoder.Controller.{reconcile_found, with_phase, is_running}
use work_script.Qoder.Controller.Pass.{with_finalizer, PassRules, reconcile_found-Ended}
use work_script.Qoder.Controller.Phases.{
  KeepsPhase, KeepsPhases, AnyError, any-Done, any-HasReplicas, any-Sizes,
}

-- A status does not say Running, or counts a ready replica of each of the four components.
abbrev pub RunsReady : Call → Type 0
RunsReady (update_status c) = (is_running c.status.phase ≡ false) ⊎ FourReady c.status
RunsReady _ = Unit

abbrev NotRunning : HadoopCluster → Type 0
NotRunning c = (c.is_deleted ≡ false) × (is_running c.status.phase ≡ false)

kept-NotRunning :
    (c : HadoopCluster) (r : Result HadoopCluster)
    → c.is_deleted ≡ false
    → is_running c.status.phase ≡ false
    → KeepsPhase c r
    → Ends NotRunning AnyError r
kept-NotRunning c (ok kept) live other h = (h.0 ∙ live, ap is_running h.1 ∙ other)
kept-NotRunning c (err e) live other h = tt

ready-PassRules :
    (env : Env)
    → PassRules KeepsPhases RunsReady AnyError (Unit {0}) env NotRunning NotRunning NotRunning
unfolding with_ready_condition
ready-PassRules env = record {
  objects = record {
    fetches = λ _ _. tt;
    fetched = λ _ _ r _. any-Done r;
    writes = λ _ _. tt;
    written = λ _ _ r _. any-Done r;
    reads = λ _. tt;
    owned = λ _ _. any-Done _;
  };
  live = λ _ i. i.0;
  sizes = λ c _. any-Sizes env c.spec;
  initial = λ c i _. (inl refl, λ r h. kept-NotRunning (with_phase pending c) r i.0 refl h);
  finalizer = λ c i. (tt, λ r h. kept-NotRunning (with_finalizer env c) r i.0 i.1 h);
  start = λ c i _. (inl refl, λ r h. kept-NotRunning (with_phase creating c) r i.0 refl h);
  observed = λ c s t i p.
      let other = ap is_running p ∙ i.1 in
      (inl other, λ r h. kept-NotRunning (with_ready_condition c s t) r i.0 other h);
  begun = λ _ i _. i;
  created = λ _ i _. i;
  runs = λ c i b _. (inr (is_cluster_ready-FourReady c.status b), λ r _. any-Done r);
  events = λ _ _ _. tt;
  clock = tt;
  reads = λ _. tt;
  replicas = λ _ r _. any-HasReplicas r;
}

-- A cluster that is neither Running nor being deleted is said to be Running only in a status that
-- counts a ready replica of each of the four components, whatever the server refuses, if it keeps
-- the phase and the deletion mark of what it accepts.
pub reconcile_found-RunsReady :
    {W : Type 0} (server : Server W) (env : Env) (c : HadoopCluster) (w : W)
    → Answers KeepsPhases server
    → c.is_deleted ≡ false
    → is_running c.status.phase ≡ false
    → All RunsReady (calls server (reconcile_found env c) w)
reconcile_found-RunsReady server env c w answers live other =
    calls-All server answers w (reconcile_found-Ended (ready-PassRules env) c (live, other))
