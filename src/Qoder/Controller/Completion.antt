-- ===== src/Qoder/Controller/Completion.antt =====
-- How a pass over a live cluster ends, from what the server answers.
use mathlib.Core.Path.{subst}
use work_script.Prelude.{◌≡◌, refl, ◌∙◌, sym, false}
use work_script.Kube.{ApiError, ObjectMeta}
use work_script.Qoder.Types.{HadoopCluster, pending, creating, running}
use work_script.Qoder.Program.{
  Call, Answer, Result, ok, err, get_stateful_set, update_status, update, fetch, write,
}
use work_script.Qoder.Env.{Env}
use work_script.Qoder.Behaviour.{Ends, AnyCall}
use work_script.Qoder.Server.{Server, Exits, Answers, exit, exit-Exits}
use work_script.Qoder.Components.{Done}
use work_script.Qoder.Status.{with_ready_condition}
use work_script.Qoder.Reconcilers.{Sizes}
use work_script.Qoder.Controller.{reconcile_found, with_phase}
use work_script.Qoder.Controller.Pass.{
  with_finalizer, HasReplicas, PassRules, Ended, reconcile_found-Ended,
}

-- The server keeps what it is sent, except that it may refuse with an error that E allows.
abbrev pub Keeps : (ApiError → Type 0) → HadoopCluster → Result HadoopCluster → Type 0
Keeps E c = Ends (λ kept. (kept.is_deleted ≡ c.is_deleted) × (kept.spec ≡ c.spec)) E

-- The answers of a server whose errors are those that E allows, and whose StatefulSets say how
-- many replicas they have, as a stored StatefulSet does.
abbrev pub Serves : (ApiError → Type 0) → (c : Call) → Answer c → Type 0
Serves E (get_stateful_set key) r = HasReplicas ⊥ r
Serves E (update_status c) r = Keeps E c r
Serves E (update c) r = Keeps E c r
Serves E (fetch k o) r = Done E r
Serves E (write k o) r = Done E r
Serves E _ r = Unit

-- An owner reference is set, or refused with an error that E allows.
abbrev pub Owns : (ApiError → Type 0) → Env → Type 0
Owns E env = (c : HadoopCluster) (m : ObjectMeta) → Done E (env.set_controller_reference c m)

-- A cluster that is not being deleted, with storage sizes that can be read.
abbrev Ready : Env → HadoopCluster → Type 0
Ready env c = (c.is_deleted ≡ false) × Sizes env ⊥ c.spec

module _ (E : ApiError → Type 0) {env : Env} where
  kept-Ready :
      (c d : HadoopCluster) (r : Result HadoopCluster)
      → Ready env c
      → d.is_deleted ≡ c.is_deleted
      → d.spec ≡ c.spec
      → Keeps E d r
      → Ends (Ready env) E r
  kept-Ready c d (ok kept) i p q h = (h.0 ∙ p ∙ i.0, subst (Sizes env ⊥) (sym (h.1 ∙ q)) i.1)
  kept-Ready c d (err e) i p q h = h

any_kept :
    (E : ApiError → Type 0) (c : HadoopCluster) (r : Result HadoopCluster)
    → Keeps E (with_phase running c) r
    → Done E r
any_kept E c (ok kept) h = tt
any_kept E c (err e) h = h

module _ {E : ApiError → Type 0} {env : Env} (owns : Owns E env) where
  answers-PassRules : PassRules (Serves E) AnyCall E ⊥ env (Ready env) (Ready env) (Ready env)
  unfolding with_ready_condition
  answers-PassRules = record {
    objects = record {
      fetches = λ _ _. tt;
      fetched = λ _ _ _ h. h;
      writes = λ _ _. tt;
      written = λ _ _ _ h. h;
      reads = λ _. tt;
      owned = owns;
    };
    live = λ _ i. i.0;
    sizes = λ _ i. i.1;
    initial = λ c i _. (tt, λ r h. kept-Ready E c (with_phase pending c) r i refl refl h);
    finalizer = λ c i. (tt, λ r h. kept-Ready E c (with_finalizer env c) r i refl refl h);
    start = λ c i _. (tt, λ r h. kept-Ready E c (with_phase creating c) r i refl refl h);
    observed =
        λ c s t i _. (tt, λ r h. kept-Ready E c (with_ready_condition c s t) r i refl refl h);
    begun = λ _ i _. i;
    created = λ _ i _. i;
    runs = λ c i _ _. (tt, λ r h. any_kept E c r h);
    events = λ _ _ _. tt;
    clock = tt;
    reads = λ _. tt;
    replicas = λ _ _ h. h;
  }

  -- A pass over a cluster that is not being deleted and whose storage sizes can be read never
  -- panics: it returns, to come again in 30 seconds or with an error that the server or the owner
  -- reference gave, on a server that keeps the spec and the deletion mark of what it accepts and
  -- whose StatefulSets say how many replicas they have.
  pub reconcile_found-returns :
      {W : Type 0} (server : Server W) (c : HadoopCluster) (w : W)
      → Answers (Serves E) server
      → c.is_deleted ≡ false
      → Sizes env ⊥ c.spec
      → Exits (Ended E) ⊥ (exit server (reconcile_found env c) w)
  reconcile_found-returns server c w answers live sizes =
      exit-Exits server answers w (reconcile_found-Ended answers-PassRules c (live, sizes))
