-- ===== src/Qoder/Controller/Rules.antt =====
-- Rules for the two ways in which the controller goes on after a step.
use work_script.Prelude.{◌≡◌, refl, ◌∷◌, List, [], String}
use work_script.Kube.{ApiError}
use work_script.Qoder.Types.{HadoopCluster}
use work_script.Qoder.Program.{Program, Call, Answer, Result, ok, err, event, warning}
use work_script.Qoder.Env.{Env}
use work_script.Qoder.Behaviour.{Holds, of_ret, of_call, Holds-then, Ends}
use work_script.Qoder.Controller.{
  Outcome, Component, failed_with, and_then, after_component, as_outcome, run_component,
  run_components,
}

module _ {H : (c : Call) → Answer c → Type 0} {P : Call → Type 0} {F : Type 0} where
  pub Holds-and_then :
      {A : Type 0} {R : Outcome → Type 0} (r : Result A) (k : A → Program Outcome)
      → ((a : A) → r ≡ ok a → Holds H P R F (k a))
      → ((e : ApiError) → r ≡ err e → R (failed_with e))
      → Holds H P R F (and_then r k)
  Holds-and_then (ok a) k h e = h a refl
  Holds-and_then (err x) k h e = of_ret _ (e x refl)

  -- A component that failed ends the pass with its error; the event is the only call left.
  pub Holds-after_component :
      {R : Outcome → Type 0} (r : Result (Unit {0})) (rest : Program Outcome)
      → ((t : String) → P (event warning "ReconcileError" t))
      → ((e : ApiError) → r ≡ err e → R (failed_with e))
      → Holds H P R F rest
      → Holds H P R F (after_component (as_outcome r) rest)
  unfolding after_component
  Holds-after_component (ok u) rest p e h = h
  Holds-after_component (err x) rest p e h = of_call _ _ (p x.text) (λ _ _. of_ret _ (e x refl))

  -- The components in turn, each from the cluster that the pass began with.
  pub Holds-run_components :
      {R : Outcome → Type 0} (E : ApiError → Type 0) (env : Env) (cs : List Component)
      (cluster : HadoopCluster) (finish : Program Outcome)
      → ((t : String) → P (event warning "ReconcileError" t))
      → ((e : ApiError) → E e → R (failed_with e))
      → ((c : Component) → Holds H P (Ends (λ _. Unit {0}) E) F (run_component env c cluster))
      → Holds H P R F finish
      → Holds H P R F (run_components env cs cluster finish)
  unfolding run_components
  Holds-run_components E env [] cluster finish p e each h = h
  Holds-run_components E env (c ∷ cs) cluster finish p e each h = Holds-then _ (each c) λ r d.
      Holds-after_component r (run_components env cs cluster finish) p (λ x q. e x (rw q at d))
        (Holds-run_components E env cs cluster finish p e each h)
