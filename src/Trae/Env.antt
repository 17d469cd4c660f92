-- ===== src/Trae/Env.antt =====
-- What the builders call and src/ does not hold: metav1.NewControllerRef, of the name and the UID of
-- a cluster, and resource.MustParse (a text that it cannot read is `none`, where it panics). The
-- builders also use names that the repository declares nowhere, so that they do not compile as they
-- stand: whether a quantity differs from 0 (`CPU != 0`), the storage of a resource list
-- (`Requests.Storage()`, which may be nil), and the storage of the DataNode
-- (`cluster.Spec.DataNode.Storage`). These are parameters of the model as well.
use work_script.Prelude.{String, Bool, Option}
use work_script.Kube.{Quantity, OwnerReference}
use work_script.Trae.Types.{ResourceList, DataNodeSpec}

pub record Storage : Type 0 where
  pub storage_class : String
  pub size : String

pub record Env : Type 0 where
  pub new_controller_ref : String → String → OwnerReference
  pub must_parse : String → Option Quantity
  pub is_nonzero : Quantity → Bool
  pub storage_request : ResourceList → Option Quantity
  pub data_node_storage : DataNodeSpec → Storage
