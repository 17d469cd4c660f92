-- ===== src/Qoder/Behaviour.antt =====
-- What a program of Qoder/Program.antt does, whatever it is answered. `Holds H P Q F m` says of
-- every run of `m` whose answers satisfy H: each call satisfies P, a returned value satisfies Q,
-- and F holds if it panics. The program is a tree without infinite branches, so each run ends.
use work_script.Effects.Behaviour
use work_script.Qoder.Program.{Call, Answer}
pub use work_script.Effects.Behaviour.{
  Holds, of_ret, of_panic, of_call, AnyCall, AnyValue, Ends, Holds-then, Holds-mono, Holds-try,
  Holds-if,
}

abbrev pub AnyAnswer : (c : Call) → Answer c → Type 0
AnyAnswer = Behaviour.AnyAnswer Answer
