-- ===== src/Qoder/Wanted/Pass.antt =====
-- A pass brings about what the cluster asks for, in order.
use work_script.Prelude.{◌≡◌, Bool, false}
use work_script.Qoder.Types.{HadoopCluster}
use work_script.Qoder.Program.{Program}
use work_script.Qoder.Env.{Env}
use work_script.Qoder.Server.{Server}

-- The same cluster, but for what its name and its spec do not say; it is not being deleted.
abbrev Same : HadoopCluster → HadoopCluster → Type 0
Same c d =
    (d.name ≡ c.name) × (d.namespace ≡ c.namespace) × (d.spec ≡ c.spec) × (d.is_deleted ≡ false)
