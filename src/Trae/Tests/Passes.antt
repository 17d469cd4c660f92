-- ===== src/Trae/Tests/Passes.antt =====
-- The statements on passes of the controller, at the sample cluster and a server in memory.
use work_script.Prelude.{
  ◌≡◌, refl, pos, insert, String, Option, none, some, List, [], ◌∷◌, All, ◌⊎◌, inl, inr,
}
use work_script.Kube.{NamespacedName, ApiError}
use work_script.Effects.Behaviour.{Ends, AnyValue}
use work_script.Effects.Server.{Server, Answers, Exits, exit, calls, returned}
use work_script.Effects.Runs.{final}
use work_script.Trae.Program.{
  Kind, key_of, Answer, ok, err, config_map, service, stateful_set, get_cluster, update_status, get,
  create, update,
}
use work_script.Trae.Controller.{reconcile_found, reconcile, report, creating, requeue_in_5m}
use work_script.Trae.Controller.Wanted.{wanted, Builds}
use work_script.Trae.Controller.Refinement.{passes, reconcile_found_refines, passes-settled}
use work_script.Trae.Controller.Completion.{Serves, reconcile_found_ends}
use work_script.Trae.Controller.Reports.{SendsAgreeing, reconcile-Agrees}
use work_script.Trae.Controller.Scope.{Finds, InScope, reconcile_found-InScope}
use work_script.Trae.Controller.Unset.{NoSet, Unset, SendsReadyInError, Unset-ReadyInError}
use work_script.Trae.Store.{wanted_at, settled, Wanted}
use work_script.Trae.Memory.{
  memory, memory_answer, memory-IsLawful, found, written, rewritten, not_found, conflict,
}
use work_script.Trae.NameNode.Base.{name_node_set}
use work_script.Trae.NameNode.Claims.{new_claims, claims_loop, new_claim}
use work_script.Trae.DataNode.{data_node_claim, data_node_set}
use work_script.Trae.ResourceManager.{new_resource_manager_stateful_set}
use work_script.Trae.NodeManager.{new_node_manager_stateful_set}
use work_script.Trae.Api
use work_script.Trae.Tests.{sample, sample_key, sample_env, quantity}

abbrev claim_of : String → Api.PersistentVolumeClaim
claim_of name = record {
  name = name;
  annotations = [];
  access_modes = "ReadWriteOnce" ∷ [];
  requests = some (
      ("cpu", quantity "5" (pos 5))
      ∷ ("memory", quantity "0" (pos 0))
      ∷ ("storage", quantity "10Gi" (pos 10))
      ∷ []);
  storage_class_name = "fast";
  volume_name = "";
}

abbrev sample_claims : List Api.PersistentVolumeClaim
sample_claims = claim_of "hadoop-nn-data" ∷ claim_of "backup" ∷ []

abbrev data_claim : Api.PersistentVolumeClaim
data_claim = record (claim_of "hadoop-dn-data") {
  requests = some (("storage", quantity "10Gi" (pos 10)) ∷ []);
}

sample-Builds : Builds sample_env sample sample_claims data_claim
unfolding new_claims claims_loop new_claim data_node_claim insert
sample-Builds = record { name_node_claims = refl; data_node_claims = refl }

refines_example :
    (exit memory.answer (reconcile_found sample_env sample) [] ≡ returned (ok requeue_in_5m))
    × ((k : Kind) (key : NamespacedName)
        → memory.view (final memory.answer (reconcile_found sample_env sample) []) k key
          ≡ settled k
              (wanted_at (wanted sample_env sample sample_claims data_claim) k key)
              (memory.view [] k key))
refines_example = reconcile_found_refines memory memory-IsLawful sample_env sample sample-Builds []

abbrev sample_service : NamespacedName
sample_service = record { namespace = "big"; name = "c1-namenode" }

settled_example :
    memory.view
      (passes memory memory-IsLawful sample_env sample sample-Builds 3 [])
      service
      sample_service
    ≡ settled service
        (wanted_at (wanted sample_env sample sample_claims data_claim) service sample_service)
        (memory.view [] service sample_service)
settled_example =
    passes-settled memory memory-IsLawful sample_env sample sample-Builds 2 [] service
      sample_service

-- The errors of the server in memory.
abbrev Known : ApiError → Type 0
Known e = (e ≡ not_found) ⊎ (e ≡ conflict)

found-Known : {A : Type 0} (o : Option A) → Ends AnyValue Known (found o)
found-Known none = inl refl
found-Known (some a) = tt

written-Known :
    {A : Type 0} (o : Option A) (e : Wanted) (w : List Wanted)
    → Ends AnyValue Known (written o e w).0
written-Known none e w = tt
written-Known (some _) e w = inr refl

rewritten-Known :
    {A : Type 0} (o : Option A) (e : Wanted) (w : List Wanted)
    → Ends AnyValue Known (rewritten o e w).0
rewritten-Known none e w = inl refl
rewritten-Known (some _) e w = tt

memory-Serves : Answers (Serves Known) memory_answer
memory-Serves (get_cluster key) w = inl refl
memory-Serves (update_status c) w = refl
memory-Serves (get k key) w = found-Known (wanted_at w k key)
memory-Serves (create k o) w = written-Known (wanted_at w k (key_of k o)) _ w
memory-Serves (update k o) w = rewritten-Known (wanted_at w k (key_of k o)) _ w

ends_example :
    Exits
      (Ends (λ o. o ≡ requeue_in_5m) Known)
      ⊥
      (exit memory_answer (reconcile_found sample_env sample) [])
ends_example =
    reconcile_found_ends memory_answer Known sample_env sample [] memory-Serves sample-Builds

-- A server that has the sample cluster and nothing else, and keeps nothing.
abbrev blank : Server Answer (Unit {0})
blank (get_cluster key) w = (ok sample, w)
blank (update_status c) w = (ok c, w)
blank (get k key) w = (err not_found, w)
blank (create k o) w = (ok tt, w)
blank (update k o) w = (err not_found, w)

agrees_example : All SendsAgreeing (calls blank (reconcile sample_env sample_key) tt)
agrees_example = reconcile-Agrees blank sample_env sample_key tt

blank-Serves : Answers (Serves (λ _. Unit)) blank
blank-Serves (get_cluster key) w = tt
blank-Serves (update_status c) w = refl
blank-Serves (get k key) w = tt
blank-Serves (create k o) w = tt
blank-Serves (update k o) w = tt

blank-Finds : Answers Finds blank
blank-Finds (get_cluster key) w = tt
blank-Finds (update_status c) w = refl
blank-Finds (get k key) w = tt
blank-Finds (create k o) w = tt
blank-Finds (update k o) w = tt

scope_example : All (InScope sample_env sample) (calls blank (reconcile_found sample_env sample) tt)
scope_example = reconcile_found-InScope blank sample_env sample tt blank-Finds

blank-NoSet : Answers NoSet blank
blank-NoSet (get_cluster key) w = tt
blank-NoSet (update_status c) w = tt
blank-NoSet (get k key) w = no_set k
  where
    no_set : (k : Kind) → NoSet (get k key) (err not_found)
    no_set config_map = tt
    no_set service = tt
    no_set stateful_set = tt
blank-NoSet (create k o) w = tt
blank-NoSet (update k o) w = tt

sample-Unset : Unset (creating sample)
sample-Unset = record {
  name_node = refl;
  data_node = refl;
  resource_manager = refl;
  node_manager = refl;
  name_node_count = refl;
  data_node_count = refl;
  resource_manager_count = refl;
  node_manager_count = refl;
}

unset_example :
    ((name_node_set sample_env (creating sample) Api.zero_pod sample_claims).spec.replicas ≡ pos 1)
    × ((data_node_set sample_env (creating sample) data_claim).spec.replicas ≡ pos 1)
    × ((new_resource_manager_stateful_set sample_env (creating sample)).spec.replicas ≡ pos 1)
    × ((new_node_manager_stateful_set sample_env (creating sample)).spec.replicas ≡ pos 1)
    × All SendsReadyInError (calls blank (report (creating sample)) tt)
unset_example =
    Unset-ReadyInError blank sample_env (creating sample) tt sample_claims data_claim Api.zero_pod
      blank-NoSet sample-Unset
