-- ===== src/Effects/Server.antt =====
-- A server that answers the calls of a program one after the other, from a state of its own: the
-- API server with its clients, the event recorder and the clock together. It is a parameter of
-- every statement, and never defined but in tests.
use work_script.Prelude.{◌≡◌, refl, ap, String, List, [], ◌∷◌, All}
use work_script.Effects.{Program, ret, panic, call}
use work_script.Effects.Behaviour.{Holds, of_ret, of_panic, of_call}

abbrev pub Server : {C : Type 0} → (C → Type 0) → Type 0 → Type 0
Server {C} R W = (c : C) → W → R c × W

pub data Exit (A : Type 0) : Type 0 where
  returned : A → Exit A
  panicked : String → Exit A

module _ {C : Type 0} {R : C → Type 0} {W : Type 0} (server : Server R W) where
  -- The calls of a run, in order.
  unfoldable pub calls : {A : Type 0} → Program R A → W → List C
  calls (ret a) w = []
  calls (panic s) w = []
  calls (call c k) w = let (r, w') = server c w in c ∷ calls (k r) w'

  -- How a run ends.
  unfoldable pub exit : {A : Type 0} → Program R A → W → Exit A
  exit (ret a) w = returned a
  exit (panic s) w = panicked s
  exit (call c k) w = let (r, w') = server c w in exit (k r) w'

module _ {C : Type 0} {R : C → Type 0} {W : Type 0} (server : Server R W) {A : Type 0} (a : A)
    (w : W) where
  pub exit-ret : exit server (ret a) w ≡ returned a
  unfolding exit
  exit-ret = refl

  pub calls-ret : calls server (ret a) w ≡ []
  unfolding calls
  calls-ret = refl

module _ {C : Type 0} {R : C → Type 0} {W : Type 0} (server : Server R W) {A : Type 0} (c : C)
    (k : R c → Program R A) (w : W) (r : R c) (answer : (server c w).0 ≡ r) where
  -- A run whose first answer is known.
  pub exit-step : exit server (call c k) w ≡ exit server (k r) (server c w).1
  unfolding exit
  exit-step = ap (λ a. exit server (k a) (server c w).1) answer

  pub calls-step : calls server (call c k) w ≡ c ∷ calls server (k r) (server c w).1
  unfolding calls
  calls-step = ap (λ a. c ∷ calls server (k a) (server c w).1) answer

-- Q of the value that is returned, F of a panic.
abbrev pub Exits : {A : Type 0} → (A → Type 0) → Type 0 → Exit A → Type 0
Exits Q F (returned a) = Q a
Exits Q F (panicked s) = F

-- Every answer of the server satisfies H.
abbrev pub Answers :
    {C : Type 0} {R : C → Type 0} {W : Type 0} → ((c : C) → R c → Type 0) → Server R W → Type 0
Answers {C} {R} {W} H server = (c : C) (w : W) → H c (server c w).0

module _ {C : Type 0} {R : C → Type 0} {W : Type 0} (server : Server R W)
    {H : (c : C) → R c → Type 0} {P : C → Type 0} {F : Type 0} (answers : Answers H server) where
  pub calls-All :
      {A : Type 0} {Q : A → Type 0} {m : Program R A} (w : W)
      → Holds H P Q F m
      → All P (calls server m w)
  unfolding calls
  calls-All w (of_ret a q) = tt
  calls-All w (of_panic s f) = tt
  calls-All w (of_call c k p h) = (p, calls-All (server c w).1 (h _ (answers c w)))

  pub exit-Exits :
      {A : Type 0} {Q : A → Type 0} {m : Program R A} (w : W)
      → Holds H P Q F m
      → Exits Q F (exit server m w)
  unfolding exit
  exit-Exits w (of_ret a q) = q
  exit-Exits w (of_panic s f) = f
  exit-Exits w (of_call c k p h) = exit-Exits (server c w).1 (h _ (answers c w))
