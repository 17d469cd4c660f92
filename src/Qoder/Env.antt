-- ===== src/Qoder/Env.antt =====
-- The libraries that the reconciler calls and that src/ does not hold, as a record of functions:
-- resource.MustParse (a text that it cannot read is `none`, where it panics), the hex digits of
-- md5.Sum, the controllerutil functions on owner references and finalizers, the comparison
-- that CreateOrUpdate makes; and the order in
-- which the runtime iterates over a map.
use work_script.Prelude.{String, Bool, Option, List, Dict}
use work_script.Kube.{Quantity, ObjectMeta}
use work_script.Qoder.Types.{HadoopCluster}
use work_script.Qoder.Program.{Result, Kind, Object}

pub record Env : Type 0 where
  pub parse_quantity : String → Option Quantity
  pub md5_hex : String → String
  pub map_order : Dict String → Dict String
  pub set_controller_reference : HadoopCluster → ObjectMeta → Result ObjectMeta
  -- equality.Semantic.DeepEqual
  pub semantic_equal : (k : Kind) → Object k → Object k → Bool
  pub contains_finalizer : List String → String → Bool
  pub add_finalizer : List String → String → List String
  pub remove_finalizer : List String → String → List String
