-- ===== src/Effects/Behaviour.antt =====
-- What a program of Effects.antt does, whatever it is answered. `Holds H P Q F m` says of
-- every run of `m` whose answers satisfy H: each call satisfies P, a returned value satisfies Q,
-- and F holds if it panics. The program is a tree without infinite branches, so each run ends.
use work_script.Prelude.{String, ◌≡◌, refl, Bool, true, false, if◌then◌else◌}
use work_script.Kube.{ApiError}
use work_script.Effects.{Program, Result, ok, err, ret, panic, call, try, ◌>>=◌, ◌>>?◌}

pub data Holds {C : Type 0} {R : C → Type 0} {A : Type 0} (H : (c : C) → R c → Type 0)
    (P : C → Type 0) (Q : A → Type 0) (F : Type 0) : Program R A → Type 0 where
  of_ret : (a : A) → Q a → Holds H P Q F (ret a)
  of_panic : (s : String) → F → Holds H P Q F (panic s)
  of_call :
      (c : C) (k : R c → Program R A)
      → P c
      → ((r : R c) → H c r → Holds H P Q F (k r))
      → Holds H P Q F (call c k)

-- No assumption on the answers; any call; any value.
abbrev pub AnyAnswer : {C : Type 0} (R : C → Type 0) (c : C) → R c → Type 0
AnyAnswer R c r = Unit

abbrev pub AnyCall : {C : Type 0} → C → Type 0
AnyCall c = Unit

abbrev pub AnyValue : {A : Type 0} → A → Type 0
AnyValue a = Unit

-- Q of the value of a Result, E of its error.
abbrev pub Ends : {A : Type 0} → (A → Type 0) → (ApiError → Type 0) → Result A → Type 0
Ends Q E (ok a) = Q a
Ends Q E (err e) = E e

module _ {C : Type 0} {R : C → Type 0} {H : (c : C) → R c → Type 0} {P : C → Type 0}
    {F : Type 0} where
  -- A program, then one that starts from any value which the first returns.
  pub Holds-then :
      {A B : Type 0} {Q : A → Type 0} {S : B → Type 0} {m : Program R A} (f : A → Program R B)
      → Holds H P Q F m
      → ((a : A) → Q a → Holds H P S F (f a))
      → Holds H P S F (m >>= f)
  Holds-then f (of_ret a q) k = k a q
  Holds-then f (of_panic s x) k = of_panic s x
  Holds-then f (of_call c n p h) k = of_call c _ p (λ r hr. Holds-then f (h r hr) k)

  pub Holds-mono :
      {A : Type 0} {Q S : A → Type 0} {m : Program R A}
      → Holds H P Q F m
      → ((a : A) → Q a → S a)
      → Holds H P S F m
  Holds-mono (of_ret a q) i = of_ret a (i a q)
  Holds-mono (of_panic s x) i = of_panic s x
  Holds-mono (of_call c n p h) i = of_call c n p (λ r hr. Holds-mono (h r hr) i)

  pub Holds-try :
      {A B : Type 0} {S : Result B → Type 0} (r : Result A) (f : A → Program R (Result B))
      → ((a : A) → r ≡ ok a → Holds H P S F (f a))
      → ((e : ApiError) → r ≡ err e → S (err e))
      → Holds H P S F (try r f)
  Holds-try (ok a) f h e = h a refl
  Holds-try (err x) f h e = of_ret _ (e x refl)

  pub Holds-if :
      {A : Type 0} {S : A → Type 0} (b : Bool) (m n : Program R A)
      → (b ≡ true → Holds H P S F m)
      → (b ≡ false → Holds H P S F n)
      → Holds H P S F (if b then m else n)
  Holds-if true m n t e = t refl
  Holds-if false m n t e = e refl

  pub after_try :
      {A B : Type 0} {Q : A → Type 0} {S : B → Type 0} {E : ApiError → Type 0} (r : Result A)
      (f : A → Program R (Result B))
      → Ends Q E r
      → ((a : A) → Q a → Holds H P (Ends S E) F (f a))
      → Holds H P (Ends S E) F (try r f)
  after_try (ok a) f q k = k a q
  after_try (err x) f e k = of_ret (err x) e

  -- A part, and what follows it if it does not fail.
  pub Holds-next :
      {A B : Type 0} {Q : A → Type 0} {S : B → Type 0} {E : ApiError → Type 0}
      {m : Program R (Result A)} (f : A → Program R (Result B))
      → Holds H P (Ends Q E) F m
      → ((a : A) → Q a → Holds H P (Ends S E) F (f a))
      → Holds H P (Ends S E) F (m >>? f)
  Holds-next f h k = Holds-then _ h λ r e. after_try r f e k
