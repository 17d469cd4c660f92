-- ===== src/Qoder/Components.antt =====
-- What holds of the component reconcilers, for whatever assumption on the answers, in terms of
-- their calls, the errors they can return, and their panics.
use work_script.Prelude.{◌≡◌, refl, String, Option, none, some, Dict}
use work_script.Kube.{
  NamespacedName, ObjectMeta, ApiError, ResourceRequirements, Quantity, StatefulSetSpec,
  KubeServiceSpec,
}
use work_script.Qoder.Types.{HadoopCluster}
use work_script.Qoder.Program.{
  Program, Call, Answer, Result, Kind, Object, fetch, write, get_config_map, try, ◌>>=◌,
}
use work_script.Qoder.Env.{Env}
use work_script.Qoder.Behaviour.{
  Holds, Ends, AnyValue, of_ret, of_panic, of_call, Holds-then, Holds-try, Holds-if,
}
use work_script.Qoder.Workload.{
  create_or_update, write_changed, found_or_given, with_quantity, must_parse, resource_list,
  unless_given, with_defaults, pod_template_annotations, with_owner, ensure_service,
  ensure_stateful_set,
}

-- What a component may meet: P allows its calls, E its errors, and F its panics.
pub record Admits (H : (c : Call) → Answer c → Type 0) (P : Call → Type 0) (E : ApiError → Type 0)
    (env : Env) : Type 0 where
  pub fetches : (k : Kind) (o : Object k) → P (fetch k o)
  pub fetched :
      (k : Kind) (o : Object k) (r : Result (Option (Object k)))
      → H (fetch k o) r
      → Ends (λ _. Unit {0}) E r
  pub writes : (k : Kind) (o : Object k) → P (write k o)
  pub written :
      (k : Kind) (o : Object k) (r : Result (Unit {0})) → H (write k o) r → Ends (λ _. Unit {0}) E r
  pub reads : (key : NamespacedName) → P (get_config_map key)
  pub owned :
      (c : HadoopCluster) (m : ObjectMeta)
      → Ends (λ _. Unit {0}) E (env.set_controller_reference c m)

-- A text that resource.MustParse reads, or else F.
abbrev pub Parses : Env → Type 0 → String → Type 0
Parses env F text = env.parse_quantity text ≡ none → F

-- The end of a component: any value, or an error that E allows.
abbrev pub Done : {A : Type 0} → (ApiError → Type 0) → Result A → Type 0
Done E = Ends (λ _. Unit {0}) E

module _ {H : (c : Call) → Answer c → Type 0} {P : Call → Type 0} {E : ApiError → Type 0}
    {F : Type 0} {env : Env} (admits : Admits H P E env) where
  write_changed-Done :
      (k : Kind) (existing : Option (Object k)) (result : Object k)
      → Holds H P (Done E) F (write_changed env k existing result)
  write_changed-Done k none result =
      of_call _ _ (admits.writes k result) λ w hw. of_ret _ (admits.written k result w hw)
  write_changed-Done k (some old) result =
      Holds-if (env.semantic_equal k old result) _ _ (λ _. of_ret _ tt)
        (λ _. of_call _ _ (admits.writes k result) λ w hw. of_ret _ (admits.written k result w hw))

  pub create_or_update-Done :
      (k : Kind) (o : Object k) (mutate : Object k → Program (Result (Object k)))
      → ((found : Object k) → Holds H P (Done E) F (mutate found))
      → Holds H P (Done E) F (create_or_update env k o mutate)
  unfolding create_or_update
  create_or_update-Done k o mutate good = of_call _ _ (admits.fetches k o) λ r h.
      Holds-try r _
        (λ existing _. Holds-then _ (good (found_or_given k o existing)) λ changed d.
          Holds-try changed _ (λ result _. write_changed-Done k existing result) (λ e p. rw p at d))
        (λ e p. rw p at (admits.fetched k o r h))

  pub with_owner-Done :
      {A : Type 0} (c : HadoopCluster) (m : ObjectMeta) (rebuild : ObjectMeta → A)
      → Holds H P (Done E) F (with_owner env c m rebuild)
  with_owner-Done c m rebuild =
      Holds-try (env.set_controller_reference c m) _ (λ _ _. of_ret _ tt)
        (λ e p. rw p at (admits.owned c m))

  pub ensure_service-Done :
      (c : HadoopCluster) (m : ObjectMeta) (spec : KubeServiceSpec)
      → Holds H P (Done E) F (ensure_service env c m spec)
  unfolding ensure_service
  ensure_service-Done c m spec =
      create_or_update-Done _ _ _ (λ found.
        with_owner-Done c found.metadata λ owned. record { metadata = owned; spec = spec })

  pub ensure_stateful_set-Done :
      (c : HadoopCluster) (m : ObjectMeta) (make : Program StatefulSetSpec)
      → Holds H P AnyValue F make
      → Holds H P (Done E) F (ensure_stateful_set env c m make)
  unfolding ensure_stateful_set
  ensure_stateful_set-Done c m make h = create_or_update-Done _ _ _ (λ found.
      Holds-then
        (λ spec.
          with_owner env c found.metadata
            λ owned. record { metadata = owned; spec = spec; status = found.status })
        h (λ spec _. with_owner-Done c found.metadata _))

  pub pod_template_annotations-Holds :
      (c : HadoopCluster) → Holds H P AnyValue F (pod_template_annotations env c)
  unfolding pod_template_annotations
  pod_template_annotations-Holds c = of_call _ _ (admits.reads _) λ r _. of_ret _ tt

module _ {H : (c : Call) → Answer c → Type 0} {P : Call → Type 0} {F : Type 0} where
  -- The second of two steps starts where the first returns a value.
  pub and_try-Done :
      {A B : Type 0} (E : ApiError → Type 0) {m : Program (Result A)} (f : A → Program (Result B))
      → Holds H P (Done E) F m
      → ((a : A) → Holds H P (Done E) F (f a))
      → Holds H P (Done E) F (m >>= λ r. try r f)
  and_try-Done E f h k = Holds-then _ h λ r d. Holds-try r f (λ a _. k a) (λ e p. rw p at d)

  with_quantity-Holds :
      {A : Type 0} {Q : A → Type 0} (o : Option Quantity) (k : Quantity → Program A)
      → (o ≡ none → F)
      → ((q : Quantity) → Holds H P Q F (k q))
      → Holds H P Q F (with_quantity o k)
  with_quantity-Holds none k f h = of_panic _ (f refl)
  with_quantity-Holds (some q) k f h = h q

  pub must_parse-Holds :
      {A : Type 0} {Q : A → Type 0} (env : Env) (text : String) (k : Quantity → Program A)
      → Parses env F text
      → ((q : Quantity) → Holds H P Q F (k q))
      → Holds H P Q F (must_parse env text k)
  must_parse-Holds env text k parses h = with_quantity-Holds (env.parse_quantity text) k parses h

  unless_given-Holds :
      (o : Option (Dict Quantity)) (default : Program (Option (Dict Quantity)))
      → Holds H P AnyValue F default
      → Holds H P AnyValue F (unless_given o default)
  unless_given-Holds none default h = h
  unless_given-Holds (some list) default h = of_ret _ tt

  resource_list-Holds :
      (env : Env) (cpu memory : String)
      → Parses env F cpu
      → Parses env F memory
      → Holds H P AnyValue F (resource_list env cpu memory)
  unfolding resource_list
  resource_list-Holds env cpu memory c m =
      must_parse-Holds env cpu _ c (λ _. must_parse-Holds env memory _ m (λ _. of_ret _ tt))

  pub with_defaults-Holds :
      (env : Env) (resources : ResourceRequirements) (cpu memory cpu_limit memory_limit : String)
      → Parses env F cpu
      → Parses env F memory
      → Parses env F cpu_limit
      → Parses env F memory_limit
      → Holds H P AnyValue F (with_defaults env resources cpu memory cpu_limit memory_limit)
  unfolding with_defaults
  with_defaults-Holds env resources cpu memory cpu_limit memory_limit c m cl ml =
      Holds-then _
        (unless_given-Holds resources.requests _ (resource_list-Holds env cpu memory c m))
        λ _ _.
          Holds-then _
            (unless_given-Holds resources.limits _
              (resource_list-Holds env cpu_limit memory_limit cl ml))
            λ _ _. of_ret _ tt
