-- ===== src/Qoder/Controller/Rollout.antt =====
-- What a pass does after a component that failed.
use mathlib.Core.Option.{none-ne-some}
use work_script.Prelude.{◌≡◌, refl, sym, All, ◌∷◌, List, Option, none, some}
use work_script.Qoder.Types.{HadoopCluster}
use work_script.Qoder.Program.{
  get_stateful_set, Call, Answer, Result, ok, err, config_map, fetch, write, Program, Object,
}
use work_script.Qoder.Env.{Env}
use work_script.Qoder.Behaviour.{
  Holds, Ends, AnyValue, of_ret, of_call, Holds-then, Holds-if, Holds-try,
}
use work_script.Qoder.Server.{Server, Answers, calls, calls-All}
use work_script.Qoder.Workload.{create_or_update, write_changed}
use work_script.Qoder.ConfigMap.{reconcile_config_map}
use work_script.Qoder.Config.Names.{is_nn_ha, is_rm_ha}
use work_script.Qoder.Controller.{
  Outcome, Component, config, run_component, run_components, components, later_components,
  finish_pass, after_component, as_outcome, reconcile_found, reconcile_live, start_creating,
  initial_status, ensure_finalizer, is_unset, is_pending, hadoop_cluster_finalizer,
}
use work_script.Qoder.Controller.Rules.{Holds-and_then}
use work_script.Qoder.Controller.Deletion.{reconcile_delete-Holds}

-- A server without a ConfigMap that refuses every creation of one.
abbrev pub RefusesConfig : (c : Call) → Answer c → Type 0
RefusesConfig (fetch config_map o) r = Ends (λ found. found ≡ none) (λ _. Unit {0}) r
RefusesConfig (write config_map o) r = Ends (λ _. ⊥) (λ _. Unit {0}) r
RefusesConfig _ r = Unit

-- Of the objects, only ConfigMaps are read and written.
abbrev pub OnlyConfig : Call → Type 0
OnlyConfig (fetch k o) = k ≡ config_map
OnlyConfig (write k o) = k ≡ config_map
OnlyConfig (get_stateful_set key) = ⊥
OnlyConfig _ = Unit

-- The ConfigMap's component ends in an error.
abbrev Fails : {A : Type 0} → Result A → Type 0
Fails = Ends (λ _. ⊥) (λ _. Unit {0})

-- The ConfigMap that is not there is created.
absent-Fails :
    (env : Env) (existing : Option (Object config_map)) (result : Object config_map)
    → existing ≡ none
    → Holds RefusesConfig OnlyConfig Fails (Unit {0}) (write_changed env config_map existing result)
absent-Fails env none result e = of_call _ _ refl λ w h. of_ret _ h
absent-Fails env (some old) result e = absurd (none-ne-some _ (sym e))

config-Fails :
    (env : Env) (c : HadoopCluster)
    → Holds RefusesConfig OnlyConfig Fails (Unit {0}) (run_component env config c)
unfolding run_component reconcile_config_map create_or_update
config-Fails env c = of_call _ _ refl λ r absent.
    Holds-try r _
      (λ existing e.
        Holds-then {Q = AnyValue} _
          (Holds-try (env.set_controller_reference c _) _ (λ _ _. of_ret _ tt) (λ _ _. tt))
          λ changed _.
            Holds-try changed _ (λ result _. absent-Fails env existing result (rw e at absent))
              (λ _ _. tt))
      (λ _ _. tt)

stops-OnlyConfig :
    (env : Env) (c : HadoopCluster) (cs : List Component) (finish : Program Outcome)
    → Holds RefusesConfig OnlyConfig AnyValue (Unit {0}) (run_components env (config ∷ cs) c finish)
unfolding run_components after_component
stops-OnlyConfig env c cs finish = Holds-then _ (config-Fails env c) (stop)
  where
    stop :
        (r : Result (Unit {0}))
        → Fails r
        → Holds RefusesConfig OnlyConfig
            (AnyValue {A = Outcome})
            (Unit {0})
            (after_component (as_outcome r) (run_components env cs c finish))
    stop (ok u) h = absurd h
    stop (err e) h = of_call _ _ tt λ _ _. of_ret _ tt

start_creating-OnlyConfig :
    (c : HadoopCluster) → Holds RefusesConfig OnlyConfig AnyValue (Unit {0}) (start_creating c)
unfolding start_creating
start_creating-OnlyConfig c =
    Holds-if (is_pending c.status.phase) _ _
      (λ _.
        of_call _ _ tt λ r _. Holds-try r _ (λ _ _. of_call _ _ tt λ _ _. of_ret _ tt) (λ _ _. tt))
      (λ _. of_ret _ tt)

reconcile_live-OnlyConfig :
    (env : Env) (c : HadoopCluster)
    → Holds RefusesConfig OnlyConfig AnyValue (Unit {0}) (reconcile_live env c)
unfolding reconcile_live components
reconcile_live-OnlyConfig env c = Holds-then _ (start_creating-OnlyConfig c) λ r _.
    Holds-and_then r _
      (λ kept _.
        stops-OnlyConfig env kept (later_components (is_nn_ha kept) (is_rm_ha kept))
          (finish_pass kept))
      (λ _ _. tt)

found-OnlyConfig :
    (env : Env) (c : HadoopCluster)
    → Holds RefusesConfig OnlyConfig AnyValue (Unit {0}) (reconcile_found env c)
unfolding reconcile_found initial_status ensure_finalizer
found-OnlyConfig env c =
    Holds-then {Q = AnyValue} _
      (Holds-if (is_unset c.status.phase) _ _ (λ _. of_call _ _ tt λ _ _. of_ret _ tt)
        (λ _. of_ret _ tt))
      λ r _.
        Holds-and_then r _
          (λ c1 _.
            Holds-then {Q = AnyValue} _
              (Holds-if (env.contains_finalizer c1.finalizers hadoop_cluster_finalizer) _ _
                (λ _. of_ret _ tt) (λ _. of_call _ _ tt λ _ _. of_ret _ tt))
              λ s _.
                Holds-and_then s _
                  (λ c2 _.
                    Holds-if c2.is_deleted _ _
                      (λ _. reconcile_delete-Holds env c2 (λ _. tt) (λ _ _ _. tt) (λ _. tt))
                      (λ _. reconcile_live-OnlyConfig env c2))
                  (λ _ _. tt))
          (λ _ _. tt)

-- If the ConfigMap is not there and the server refuses to create it, a pass reads and writes no
-- service, no StatefulSet and no disruption budget.
pub refused_config-OnlyConfig :
    {W : Type 0} (server : Server W) (env : Env) (c : HadoopCluster) (w : W)
    → Answers RefusesConfig server
    → All OnlyConfig (calls server (reconcile_found env c) w)
refused_config-OnlyConfig server env c w answers =
    calls-All server answers w (found-OnlyConfig env c)
