-- ===== src/Effects/Runs.antt =====
-- Where a run leads: the value that it returns, and what can be seen of the server's last state.
use mathlib.Core.Path.{subst}
use work_script.Prelude.{sym, ◌≡◌, refl, ◌∙◌, ap}
use work_script.Effects.{Program, Result, ok, ret, panic, call, ◌>>=◌, ◌>>?◌}
use work_script.Effects.Server.{Server, Exit, returned, panicked, exit}

module _ {C : Type 0} {R : C → Type 0} {W : Type 0} (server : Server R W) where
  -- The state of the server at the end of a run.
  unfoldable pub final : {A : Type 0} → Program R A → W → W
  final (ret a) w = w
  final (panic s) w = w
  final (call c k) w = let (r, w') = server c w in final (k r) w'

abbrev value_or : {A : Type 0} → A → Exit A → A
value_or d (returned a) = a
value_or d (panicked s) = d

module _ {C : Type 0} {R : C → Type 0} {W V : Type 0} (server : Server R W) (view : W → V) where
  -- The run returns a, and the server is left with the view v.
  abbrev pub Leaves : {A : Type 0} → Program R A → W → A → V → Type 0
  Leaves m w a v = (exit server m w ≡ returned a) × (view (final server m w) ≡ v)

  pub Leaves-done : {A : Type 0} (a : A) (w : W) {v : V} → view w ≡ v → Leaves (ret a) w a v
  unfolding exit final
  Leaves-done a w e = (refl, e)

  pub Leaves-as :
      {A : Type 0} (m : Program R A) (w : W) {a : A} {v u : V}
      → v ≡ u
      → Leaves m w a v
      → Leaves m w a u
  Leaves-as m w same (e, f) = (e, f ∙ same)

  -- A first call whose answer is known.
  pub Leaves-call :
      {A : Type 0} (c : C) (k : R c → Program R A) (w : W) (r : R c) {a : A} {v : V}
      → (server c w).0 ≡ r
      → Leaves (k r) (server c w).1 a v
      → Leaves (call c k) w a v
  unfolding exit final
  Leaves-call c k w r answer (e, f) = (
    ap (λ x. exit server (k x) (server c w).1) answer ∙ e,
    ap (λ x. view (final server (k x) (server c w).1)) answer ∙ f,
  )

  -- One program after another.
  pub Leaves-then :
      {A B : Type 0} (m : Program R A) (f : A → Program R B) (w : W) {a : A} {b : B} {v u : V}
      → Leaves m w a v
      → ((x : W) → view x ≡ v → Leaves (f a) x b u)
      → Leaves (m >>= f) w b u
  unfolding exit final
  Leaves-then (ret a) f w {b} {u} (e, s) next =
      subst (λ x. Leaves (f x) w b u) (sym (ap (value_or a) e)) (next w s)
  Leaves-then (panic s) f w (e, _) next = cc
  Leaves-then (call c k) f w h next = Leaves-then (k (server c w).0) f (server c w).1 h next

  pub Leaves-try :
      {A B : Type 0} (m : Program R (Result A)) (f : A → Program R (Result B)) (w : W) {a : A}
      {b : Result B} {v u : V}
      → Leaves m w (ok a) v
      → ((x : W) → view x ≡ v → Leaves (f a) x b u)
      → Leaves (m >>? f) w b u
  Leaves-try m f w h next = Leaves-then m _ w h next
