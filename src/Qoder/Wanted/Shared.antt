-- ===== src/Qoder/Wanted/Shared.antt =====
-- What the component reconcilers share.

use work_script.Prelude.{◌≡◌, ◌∙◌, String, [], ◌∷◌, Dict}
use work_script.Kube.{ObjectMeta, KubeServiceSpec, StatefulSetSpec, ResourceRequirements, Quantity}
use work_script.Effects.Trace.{of_request}
use work_script.Qoder.Types.{HadoopCluster}
use work_script.Qoder.Program.{Program, Result, ok, err, ret, try, ◌>>=◌, service, stateful_set}
use work_script.Qoder.Env.{Env}
use work_script.Qoder.Behaviour.{AnyValue, Ends, of_ret}
use work_script.Qoder.Components.{Parses, must_parse-Holds, with_defaults-Holds}
use work_script.Qoder.Reconcilers.{Sizes}
use work_script.Qoder.Workload.{
  with_owner, with_default_resources, ensure_service, ensure_stateful_set, pod_template_annotations,
  must_parse,
}
use work_script.Qoder.Wanted.Rules.{
  NoError, Fine, OwnsInPlace, EqualAlike, Does, done, unseen, Does-then, Does-next,
  create_or_update-Does,
}
use work_script.Qoder.Wanted.{Contents, service_contents, contents_of_set, want_at}

module _ (env : Env) (owns : OwnsInPlace env) (alike : EqualAlike env) where
  pub with_owner-Does :
      {A : Type 0} {Q : A → Type 0} (c : HadoopCluster) (m : ObjectMeta) (rebuild : ObjectMeta → A)
      → ((owned : ObjectMeta)
          → owned.name ≡ m.name
          → owned.namespace ≡ m.namespace
          → Q (rebuild owned))
      → Does (Ends Q NoError) (with_owner env c m rebuild) []
  with_owner-Does {Q} c m rebuild h = after (env.set_controller_reference c m) (owns c m)
    where
      after :
          (r : Result ObjectMeta)
          → Ends (λ owned. (owned.name ≡ m.name) × (owned.namespace ≡ m.namespace)) NoError r
          → Does (Ends Q NoError) (try r λ owned. ret (ok (rebuild owned))) []
      after (ok owned) f = done _ (h owned f.0 f.1)
      after (err e) f = absurd f

  pub ensure_service-Does :
      (c : HadoopCluster) (m : ObjectMeta) (spec : KubeServiceSpec)
      → Does Fine (ensure_service env c m spec) (want_at service m (service_contents spec) ∷ [])
  unfolding ensure_service
  ensure_service-Does c m spec =
      create_or_update-Does env service _ _ (service_contents spec) alike (λ found n s.
        with_owner-Does c found.metadata (λ owned. record { metadata = owned; spec = spec })
          (λ owned p q i.
            want_at service (record m { name = (p ∙ n) i; namespace = (q ∙ s) i })
              (service_contents spec)))

  pub ensure_stateful_set-Does :
      (c : HadoopCluster) (m : ObjectMeta) (make : Program StatefulSetSpec) (x : Contents)
      → Does (λ spec. contents_of_set spec ≡ x) make []
      → Does Fine (ensure_stateful_set env c m make) (want_at stateful_set m x ∷ [])
  unfolding ensure_stateful_set
  ensure_stateful_set-Does c m make x h =
      create_or_update-Does env stateful_set _ _ x alike (λ found n s.
        Does-then
          (λ spec.
            with_owner env c found.metadata
              λ owned. record { metadata = owned; spec = spec; status = found.status })
          h
          (λ spec e. with_owner-Does c found.metadata _ (λ owned p q i.
            want_at stateful_set (record m { name = (p ∙ n) i; namespace = (q ∙ s) i }) (e i))))

  pub annotations-Does : (c : HadoopCluster) → Does AnyValue (pod_template_annotations env c) []
  unfolding pod_template_annotations
  annotations-Does c = of_request _ _ _ λ r _. done _ tt

  pub services-Does :
      (c : HadoopCluster) (m1 m2 : ObjectMeta) (s1 s2 : KubeServiceSpec)
      → Does Fine
          (ensure_service env c m1 s1 >>= λ r. try r λ _. ensure_service env c m2 s2)
          (want_at service m1 (service_contents s1) ∷ want_at service m2 (service_contents s2) ∷ [])
  services-Does c m1 m2 s1 s2 =
      Does-next _ (ensure_service-Does c m1 s1) (λ _ _. ensure_service-Does c m2 s2)

  pub sized_set-Does :
      (c : HadoopCluster) (m : ObjectMeta) (size : String)
      (resources : Program ResourceRequirements)
      (make : ResourceRequirements → Dict String → Quantity → StatefulSetSpec) (x : Contents)
      → Does AnyValue resources []
      → Parses env ⊥ size
      → ((r : ResourceRequirements) (a : Dict String) (q : Quantity)
          → contents_of_set (make r a q) ≡ x)
      → Does Fine
          (resources >>= λ r.
            ensure_stateful_set env c m
              (pod_template_annotations env c >>= λ a. must_parse env size λ q. ret (make r a q)))
          (want_at stateful_set m x ∷ [])
  sized_set-Does c m size resources make x h p e = Does-then _ h λ r _.
      ensure_stateful_set-Does c m _ x (
        Does-then _ (annotations-Does c)
          λ a _. unseen (must_parse-Holds env size _ p λ q. of_ret _ (e r a q)))

  pub plain_set-Does :
      (c : HadoopCluster) (m : ObjectMeta) (resources : Program ResourceRequirements)
      (make : ResourceRequirements → Dict String → StatefulSetSpec) (x : Contents)
      → Does AnyValue resources []
      → ((r : ResourceRequirements) (a : Dict String) → contents_of_set (make r a) ≡ x)
      → Does Fine
          (resources >>= λ r.
            ensure_stateful_set env c m (pod_template_annotations env c >>= λ a. ret (make r a)))
          (want_at stateful_set m x ∷ [])
  plain_set-Does c m resources make x h e = Does-then _ h λ r _.
      ensure_stateful_set-Does c m _ x (Does-then _ (annotations-Does c) λ a _. done _ (e r a))

  pub default_resources-Does :
      (c : HadoopCluster) (resources : ResourceRequirements)
      → Sizes env ⊥ c.spec
      → Does AnyValue (with_default_resources env resources) []
  unfolding with_default_resources
  default_resources-Does c resources s =
      unseen
        (with_defaults-Holds env resources _ _ _ _ s.cpu_500m s.memory_2gi s.cpu_1000m s.memory_4gi)
