-- ===== src/Qoder/Server.antt =====
-- A server that answers the calls of a program one after the other, from a state of its own: the
-- API server with its clients, the event recorder and the clock together. It is a parameter of
-- every statement, and never defined but in tests.
use work_script.Effects.Server.{Server as ServerOf}
use work_script.Qoder.Program.{Answer}
pub use work_script.Effects.Server.{
  Exit, returned, panicked, exit-ret, calls-ret, exit-step, calls-step, Exits, Answers, calls-All,
  exit-Exits,
}
unfoldable pub use work_script.Effects.Server.{calls, exit}

abbrev pub Server : Type 0 → Type 0
Server = ServerOf Answer
