-- ===== src/Qoder/Tests/Passes.antt =====
-- The statements on passes of the controller, at the sample cluster and servers.

use mathlib.Core.Option.{none-ne-some}
use work_script.Prelude.{Bool, refl, sym, true, false, All, String}
use work_script.Kube.{ApiError, NamespacedName}
use work_script.Qoder.Types.{unset, running}
use work_script.Qoder.Program.{
  get_cluster, get_config_map, get_stateful_set, update_status, update, fetch, write, event, now,
  config_map, service, stateful_set, pod_disruption_budget,
}
use work_script.Qoder.Server.{Answers, Exits, calls, exit}
use work_script.Qoder.Components.{Parses}
use work_script.Qoder.Reconcilers.{Sizes}
use work_script.Qoder.Controller.{reconcile_found}
use work_script.Qoder.Controller.Pass.{Ended}
use work_script.Qoder.Controller.Completion.{Owns, Serves, reconcile_found-returns}
use work_script.Qoder.Controller.Phases.{KeepsPhases, SendsReached, reconcile_found-Reaches}
use work_script.Qoder.Controller.Running.{RunsReady, reconcile_found-RunsReady}
use work_script.Qoder.Controller.Rollout.{RefusesConfig, OnlyConfig, refused_config-OnlyConfig}
use work_script.Qoder.Controller.Deletion.{KeepsDeletion, NoObject, deleted-NoObject}
use work_script.Qoder.Tests.{sample, sample_env, sample_spec, accepting, refusing}

abbrev NoError : ApiError → Type 0
NoError e = ⊥

-- The sample environment reads every text.
reads_all : (text : String) → Parses sample_env ⊥ text
reads_all text e = none-ne-some _ (sym e)

sample-Owns : Owns NoError sample_env
sample-Owns c m = tt

sample-Sizes : Sizes sample_env ⊥ sample_spec
sample-Sizes = record {
  cpu_250m = reads_all _;
  cpu_500m = reads_all _;
  cpu_1000m = reads_all _;
  memory_1gi = reads_all _;
  memory_2gi = reads_all _;
  memory_4gi = reads_all _;
  zoo_keeper_storage = reads_all _;
  name_node_storage = reads_all _;
  data_node_storage = reads_all _;
  journal_node_storage = λ _ _. reads_all _;
}

accepting-Serves : Answers (Serves NoError) accepting
accepting-Serves (get_cluster key) w = tt
accepting-Serves (get_config_map key) w = tt
accepting-Serves (get_stateful_set key) w = λ e. none-ne-some _ (sym e)
accepting-Serves (update_status c) w = (refl, refl)
accepting-Serves (update c) w = (refl, refl)
accepting-Serves (fetch k o) w = tt
accepting-Serves (write k o) w = tt
accepting-Serves (event t reason message) w = tt
accepting-Serves now w = tt

accepting-KeepsPhases : Answers KeepsPhases accepting
accepting-KeepsPhases (get_cluster key) w = tt
accepting-KeepsPhases (get_config_map key) w = tt
accepting-KeepsPhases (get_stateful_set key) w = tt
accepting-KeepsPhases (update_status c) w = (refl, refl)
accepting-KeepsPhases (update c) w = (refl, refl)
accepting-KeepsPhases (fetch k o) w = tt
accepting-KeepsPhases (write k o) w = tt
accepting-KeepsPhases (event t reason message) w = tt
accepting-KeepsPhases now w = tt

accepting-KeepsDeletion : Answers KeepsDeletion accepting
accepting-KeepsDeletion (get_cluster key) w = tt
accepting-KeepsDeletion (get_config_map key) w = tt
accepting-KeepsDeletion (get_stateful_set key) w = tt
accepting-KeepsDeletion (update_status c) w = refl
accepting-KeepsDeletion (update c) w = refl
accepting-KeepsDeletion (fetch k o) w = tt
accepting-KeepsDeletion (write k o) w = tt
accepting-KeepsDeletion (event t reason message) w = tt
accepting-KeepsDeletion now w = tt

refusing-RefusesConfig : Answers RefusesConfig refusing
refusing-RefusesConfig (write config_map o) w = tt
refusing-RefusesConfig (write service o) w = tt
refusing-RefusesConfig (write stateful_set o) w = tt
refusing-RefusesConfig (write pod_disruption_budget o) w = tt
refusing-RefusesConfig (fetch config_map o) w = refl
refusing-RefusesConfig (fetch service o) w = tt
refusing-RefusesConfig (fetch stateful_set o) w = tt
refusing-RefusesConfig (fetch pod_disruption_budget o) w = tt
refusing-RefusesConfig (get_cluster key) w = tt
refusing-RefusesConfig (get_config_map key) w = tt
refusing-RefusesConfig (get_stateful_set key) w = tt
refusing-RefusesConfig (update_status c) w = tt
refusing-RefusesConfig (update c) w = tt
refusing-RefusesConfig (event t reason message) w = tt
refusing-RefusesConfig now w = tt

returns_example :
    Exits (Ended NoError) ⊥ (exit accepting (reconcile_found sample_env (sample unset false)) tt)
returns_example =
    reconcile_found-returns sample-Owns accepting (sample unset false) tt accepting-Serves refl
      sample-Sizes

reaches_example :
    All (SendsReached unset) (calls accepting (reconcile_found sample_env (sample unset false)) tt)
reaches_example =
    reconcile_found-Reaches accepting sample_env (sample unset false) tt accepting-KeepsPhases refl

readiness_example :
    All RunsReady (calls accepting (reconcile_found sample_env (sample unset false)) tt)
readiness_example =
    reconcile_found-RunsReady accepting sample_env (sample unset false) tt accepting-KeepsPhases
      refl refl

refused_config_example :
    All OnlyConfig (calls refusing (reconcile_found sample_env (sample unset false)) tt)
refused_config_example =
    refused_config-OnlyConfig refusing sample_env (sample unset false) tt refusing-RefusesConfig

deleted_example :
    All NoObject (calls accepting (reconcile_found sample_env (sample running true)) tt)
deleted_example =
    deleted-NoObject accepting sample_env (sample running true) tt accepting-KeepsDeletion refl

abbrev sample_key : NamespacedName
sample_key = record { namespace = "big-data"; name = "demo" }
