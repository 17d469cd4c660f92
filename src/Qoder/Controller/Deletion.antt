-- ===== src/Qoder/Controller/Deletion.antt =====
-- A cluster with a deletion timestamp.
use mathlib.Core.Bool.{false≢true}
use work_script.Prelude.{◌≡◌, ◌∙◌, sym, true, String, All}
use work_script.Qoder.Types.{HadoopCluster}
use work_script.Qoder.Program.{
  EventType, event, Call, Answer, Result, ok, err, update_status, update, get_config_map,
  get_stateful_set, fetch, write,
}
use work_script.Qoder.Env.{Env}
use work_script.Qoder.Behaviour.{Holds, of_ret, of_call, AnyValue, Holds-then, Holds-if, Ends}
use work_script.Qoder.Server.{Server, Answers, calls, calls-All}
use work_script.Qoder.Controller.{
  Outcome, reconcile_delete, initial_status, ensure_finalizer, reconcile_found, is_unset,
  hadoop_cluster_finalizer,
}
use work_script.Qoder.Controller.Rules.{Holds-and_then}

-- No object of the cluster is read or written.
abbrev pub NoObject : Call → Type 0
NoObject (fetch k o) = ⊥
NoObject (write k o) = ⊥
NoObject (get_config_map key) = ⊥
NoObject (get_stateful_set key) = ⊥
NoObject _ = Unit

-- The server answers an update of a cluster that is being deleted with one that is.
abbrev pub KeepsDeletion : (c : Call) → Answer c → Type 0
KeepsDeletion (update_status c) r = Ends (λ kept. kept.is_deleted ≡ c.is_deleted) (λ _. Unit {0}) r
KeepsDeletion (update c) r = Ends (λ kept. kept.is_deleted ≡ c.is_deleted) (λ _. Unit {0}) r
KeepsDeletion _ r = Unit

-- What the first two steps of a pass leave of the cluster.
abbrev StaysDeleted : Result HadoopCluster → Type 0
StaysDeleted = Ends (λ kept. kept.is_deleted ≡ true) (λ _. Unit {0})

kept_deleted :
    (c : HadoopCluster) (r : Result HadoopCluster)
    → c.is_deleted ≡ true
    → Ends (λ kept. kept.is_deleted ≡ c.is_deleted) (λ _. Unit {0}) r
    → StaysDeleted r
kept_deleted c (ok kept) d h = h ∙ d
kept_deleted c (err e) d h = tt

initial_status-is_deleted :
    (c : HadoopCluster)
    → c.is_deleted ≡ true
    → Holds KeepsDeletion NoObject StaysDeleted ⊥ (initial_status c)
unfolding initial_status
initial_status-is_deleted c d =
    Holds-if (is_unset c.status.phase) _ _
      (λ _. of_call _ _ tt (λ r h. of_ret _ (kept_deleted c r d h))) (λ _. of_ret _ d)

ensure_finalizer-is_deleted :
    (env : Env) (c : HadoopCluster)
    → c.is_deleted ≡ true
    → Holds KeepsDeletion NoObject StaysDeleted ⊥ (ensure_finalizer env c)
unfolding ensure_finalizer
ensure_finalizer-is_deleted env c d =
    Holds-if (env.contains_finalizer c.finalizers hadoop_cluster_finalizer) _ _ (λ _. of_ret _ d)
      (λ _. of_call _ _ tt (λ r h. of_ret _ (kept_deleted c r d h)))

-- The deletion of a cluster makes three calls at most, none of which is about an object.
pub reconcile_delete-Holds :
    {H : (c : Call) → Answer c → Type 0} {P : Call → Type 0} {F : Type 0} (env : Env)
    (c : HadoopCluster)
    → ((d : HadoopCluster) → P (update_status d))
    → ((t : EventType) (reason message : String) → P (event t reason message))
    → ((d : HadoopCluster) → P (update d))
    → Holds H P (AnyValue {A = Outcome}) F (reconcile_delete env c)
unfolding reconcile_delete
reconcile_delete-Holds env c s e u = of_call _ _ (s _) λ r _.
    Holds-and_then r _
      (λ kept _.
        of_call _ _ (e _ _ _)
          λ _ _. of_call _ _ (u _) λ last _. Holds-and_then last _ (λ _ _. of_ret _ tt) (λ _ _. tt))
      (λ _ _. tt)

found-NoObject :
    (env : Env) (c : HadoopCluster)
    → c.is_deleted ≡ true
    → Holds KeepsDeletion NoObject (AnyValue {A = Outcome}) ⊥ (reconcile_found env c)
unfolding reconcile_found
found-NoObject env c d = Holds-then _ (initial_status-is_deleted c d) λ r h.
    Holds-and_then r _
      (λ c1 e1. Holds-then _ (ensure_finalizer-is_deleted env c1 (rw e1 at h)) λ s k.
        Holds-and_then s _
          (λ c2 e2.
            Holds-if c2.is_deleted _ _
              (λ _. reconcile_delete-Holds env c2 (λ _. tt) (λ _ _ _. tt) (λ _. tt))
              (λ alive. absurd (false≢true (sym alive ∙ (rw e2 at k)))))
          (λ _ _. tt))
      (λ _ _. tt)

-- A pass over a cluster that is being deleted reads and writes none of its objects, whatever the
-- server refuses, if it does not undo the deletion.
pub deleted-NoObject :
    {W : Type 0} (server : Server W) (env : Env) (c : HadoopCluster) (w : W)
    → Answers KeepsDeletion server
    → c.is_deleted ≡ true
    → All NoObject (calls server (reconcile_found env c) w)
deleted-NoObject server env c w answers d = calls-All server answers w (found-NoObject env c d)
