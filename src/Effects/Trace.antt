-- ===== src/Effects/Trace.antt =====
-- What can be seen of the calls of a program and of their answers, in order. `Spells H seen Q m L`
-- says of every run of `m` whose answers satisfy H: it returns a value that satisfies Q, and what is
-- seen of its calls, one after the other, is a list that satisfies L.
use mathlib.Core.Path.{subst}
use mathlib.Core.List.{append_assoc}
use work_script.Prelude.{List, [], ◌++◌, ◌≡◌, sym}
use work_script.Effects.{Program, ret, panic, call, ◌>>=◌}
use work_script.Effects.Behaviour.{Holds, of_ret, of_panic, of_call}
use work_script.Effects.Server.{Server, Answers, exit, Exits}

pub data Spells {C : Type 0} {R : C → Type 0} {A V : Type 0} (H : (c : C) → R c → Type 0)
    (seen : (c : C) → R c → List V) (Q : A → Type 0)
    : Program R A → (List V → Type 0) → Type 1 where
  of_value : (a : A) (L : List V → Type 0) → Q a → L [] → Spells H seen Q (ret a) L
  of_request :
      (c : C) (k : R c → Program R A) (L : List V → Type 0)
      → ((r : R c) → H c r → Spells H seen Q (k r) (λ vs. L (seen c r ++ vs)))
      → Spells H seen Q (call c k) L

-- What is seen of a run against a server.
unfoldable pub log :
    {C : Type 0} {R : C → Type 0} {A V W : Type 0}
    → ((c : C) → R c → List V)
    → Server R W
    → Program R A
    → W
    → List V
log seen server (ret a) w = []
log seen server (panic s) w = []
log seen server (call c k) w = let (r, w') = server c w in seen c r ++ log seen server (k r) w'

module _ {C : Type 0} {R : C → Type 0} {V : Type 0} {H : (c : C) → R c → Type 0}
    {seen : (c : C) → R c → List V} where
  pub Spells-mono :
      {A : Type 0} {Q : A → Type 0} {m : Program R A} {L M : List V → Type 0}
      → Spells H seen Q m L
      → ((vs : List V) → L vs → M vs)
      → Spells H seen Q m M
  Spells-mono (of_value a L q l) f = of_value a _ q (f [] l)
  Spells-mono (of_request c k L h) f =
      of_request c k _ (λ r hr. Spells-mono (h r hr) (λ vs. f (seen c r ++ vs)))

  pub Spells-then :
      {A B : Type 0} {Q : A → Type 0} {S : B → Type 0} {m : Program R A} {L : List V → Type 0}
      (f : A → Program R B) (M : List V → Type 0)
      → Spells H seen Q m L
      → ((a : A) → Q a → (vs : List V) → L vs → Spells H seen S (f a) (λ us. M (vs ++ us)))
      → Spells H seen S (m >>= f) M
  Spells-then f M (of_value a L q l) k = k a q [] l
  Spells-then f M (of_request c n L h) k = of_request c _ M λ r hr.
      Spells-then f _ (h r hr) λ a q vs l.
        Spells-mono (k a q (seen c r ++ vs) l) (λ us x. subst M (append_assoc (seen c r) vs us) x)

  -- A program that does not panic, of whose calls nothing is seen.
  pub Holds-Spells :
      {A : Type 0} {Q : A → Type 0} {m : Program R A} (L : List V → Type 0)
      → L []
      → Holds H (λ c. (r : R c) → seen c r ≡ []) Q ⊥ m
      → Spells H seen Q m L
  Holds-Spells L l (of_ret a q) = of_value a L q l
  Holds-Spells L l (of_panic s x) = absurd x
  Holds-Spells L l (of_call c k p h) = of_request c k L λ r hr.
      Spells-mono (Holds-Spells L l (h r hr)) (λ vs x. subst (λ us. L (us ++ vs)) (sym (p r)) x)

  pub Spells-log :
      {A W : Type 0} {Q : A → Type 0} {m : Program R A} {L : List V → Type 0} (server : Server R W)
      → Answers H server
      → (w : W) → Spells H seen Q m L
      → L (log seen server m w)
  unfolding log
  Spells-log server answers w (of_value a L q l) = l
  Spells-log server answers w (of_request c k L h) =
      Spells-log server answers (server c w).1 (h _ (answers c w))

  pub Spells-exit :
      {A W : Type 0} {Q : A → Type 0} {m : Program R A} {L : List V → Type 0} (server : Server R W)
      → Answers H server
      → (w : W) → Spells H seen Q m L
      → Exits Q ⊥ (exit server m w)
  unfolding exit
  Spells-exit server answers w (of_value a L q l) = q
  Spells-exit server answers w (of_request c k L h) =
      Spells-exit server answers (server c w).1 (h _ (answers c w))
