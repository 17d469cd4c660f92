-- ===== src/Effects.antt =====
-- A program that asks its environment, as a tree: each call waits for an answer, which the caller
-- of the model chooses. `R c` is the type of the answers to the call c. Every branch is finite, so
-- each run ends; `panic` is a run-time panic, which ends the program.
pub mod Behaviour
pub mod Server
pub mod Runs
pub mod Trace
use work_script.Prelude.{String}
use work_script.Kube.{ApiError}

pub data Result {ℓ} (A : Type ℓ) : Type ℓ where
  ok : A → Result A
  err : ApiError → Result A

pub data Program {C : Type 0} (R : C → Type 0) (A : Type 0) : Type 0 where
  ret : A → Program R A
  panic : String → Program R A
  call : (c : C) → (R c → Program R A) → Program R A

module _ {C : Type 0} {R : C → Type 0} where
  abbrev pub perform : (c : C) → Program R (R c)
  perform c = call c ret

  infixl 5 ◌>>=◌
  abbrev pub ◌>>=◌ : {A B : Type 0} → Program R A → (A → Program R B) → Program R B
  ret a >>= f = f a
  panic s >>= f = panic s
  call c k >>= f = call c (λ r. k r >>= f)

  infixl 5 ◌>>◌
  abbrev pub ◌>>◌ : {A B : Type 0} → Program R A → Program R B → Program R B
  m >> n = m >>= λ _. n

  -- if err != nil { return …, err }, in a function that returns a value and an error
  abbrev pub try : {A B : Type 0} → Result A → (A → Program R (Result B)) → Program R (Result B)
  try (ok a) f = f a
  try (err e) f = ret (err e)

  -- A call, and what follows it if it does not fail.
  infixl 5 ◌>>?◌
  abbrev pub ◌>>?◌ :
      {A B : Type 0} → Program R (Result A) → (A → Program R (Result B)) → Program R (Result B)
  m >>? f = m >>= λ r. try r f
