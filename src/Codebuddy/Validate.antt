-- ===== src/Codebuddy/Validate.antt =====
-- hadoop-dev-codebuddy/operator/pkg/apis/hadoop/v1/hadoopcluster_webhook.go: the validation. Each
-- error of the code is a constructor with the numbers that its text shows.
pub mod Valid
pub mod Defaulted
use work_script.Prelude.{
  ℤ, pos, eq_ℤ, ltb_ℤ, Bool, true, false, Option, none, some, List, [], ◌∷◌, ◌++◌, if◌then◌else◌,
}
use work_script.Codebuddy.Types.{
  HadoopClusterSpec, NameNodeSpec, DataNodeSpec, JournalNodeSpec, ResourceManagerSpec, HBaseSpec,
  HBaseMasterSpec, HBaseRegionServerSpec, HaConfig, ClusterConfigSpec,
}
use work_script.Codebuddy.Default.{is_name_node_ha, is_resource_manager_ha}

pub data ValidationError : Type 0 where
  name_node_replicas_not_2 : ℤ → ValidationError
  journal_node_replicas_below_3 : ValidationError
  resource_manager_replicas_not_2 : ℤ → ValidationError
  data_node_replicas_below_1 : ValidationError
  h_base_master_missing h_base_region_server_missing : ValidationError
  replication_factor_below_1 : ValidationError
  replication_factor_above : ℤ → ℤ → ValidationError

unfoldable pub check_name_node : Option NameNodeSpec → List ValidationError
check_name_node none = []
check_name_node (some spec) =
    if eq_ℤ spec.replicas (pos 2) then [] else name_node_replicas_not_2 spec.replicas ∷ []

unfoldable pub check_journal_node : Option JournalNodeSpec → List ValidationError
check_journal_node none = journal_node_replicas_below_3 ∷ []
check_journal_node (some spec) =
    if ltb_ℤ spec.replicas (pos 3) then journal_node_replicas_below_3 ∷ [] else []

unfoldable pub check_resource_manager : Option ResourceManagerSpec → List ValidationError
check_resource_manager none = []
check_resource_manager (some spec) =
    if eq_ℤ spec.replicas (pos 2) then [] else resource_manager_replicas_not_2 spec.replicas ∷ []

unfoldable pub check_data_node : Option DataNodeSpec → List ValidationError
check_data_node none = []
check_data_node (some spec) =
    if ltb_ℤ spec.replicas (pos 1) then data_node_replicas_below_1 ∷ [] else []

unfoldable pub check_h_base_master : Option HBaseMasterSpec → List ValidationError
check_h_base_master none = h_base_master_missing ∷ []
check_h_base_master (some spec) = []

unfoldable pub check_h_base_region_server : Option HBaseRegionServerSpec → List ValidationError
check_h_base_region_server none = h_base_region_server_missing ∷ []
check_h_base_region_server (some spec) = []

unfoldable pub check_h_base : Option HBaseSpec → List ValidationError
unfolding check_h_base_master check_h_base_region_server
check_h_base none = []
check_h_base (some spec) =
    if spec.enabled
    then check_h_base_master spec.master_spec ++ check_h_base_region_server spec.region_server_spec
    else []

unfoldable pub check_factor_above : ℤ → Option DataNodeSpec → List ValidationError
check_factor_above factor none = []
check_factor_above factor (some spec) =
    if ltb_ℤ spec.replicas factor then replication_factor_above factor spec.replicas ∷ [] else []

unfoldable pub check_cluster_config :
    Option ClusterConfigSpec → Option DataNodeSpec → List ValidationError
unfolding check_factor_above
check_cluster_config none data_node = []
check_cluster_config (some config) data_node =
    (if ltb_ℤ config.replication_factor (pos 1) then replication_factor_below_1 ∷ [] else [])
    ++ check_factor_above config.replication_factor data_node

-- The errors that validateHadoopCluster collects, in its order.
unfoldable pub all_errors : HadoopClusterSpec → List ValidationError
unfolding check_name_node check_journal_node check_resource_manager check_data_node check_h_base
    check_cluster_config is_name_node_ha is_resource_manager_ha
all_errors spec =
    (if is_name_node_ha spec.ha
      then check_name_node spec.name_node_spec ++ check_journal_node spec.journal_node_spec
      else [])
    ++ ((if is_resource_manager_ha spec.ha
          then check_resource_manager spec.resource_manager_spec
          else [])
        ++ (check_data_node spec.data_node_spec
            ++ (check_h_base spec.h_base_spec
                ++ check_cluster_config spec.cluster_config spec.data_node_spec)))

-- What a validator returns: nothing, the errors, or that the old object is of another type.
pub data Verdict : Type 0 where
  accepted wrong_type : Verdict
  rejected : List ValidationError → Verdict

-- if len(allErrs) > 0 { return … }
abbrev pub verdict_of : List ValidationError → Verdict
verdict_of [] = accepted
verdict_of (e ∷ errors) = rejected (e ∷ errors)

unfoldable pub validate_hadoop_cluster : HadoopClusterSpec → Verdict
unfolding all_errors
validate_hadoop_cluster spec = verdict_of (all_errors spec)

unfoldable pub validate_create : HadoopClusterSpec → Verdict
unfolding validate_hadoop_cluster
validate_create spec = validate_hadoop_cluster spec

-- `old` is `none` if it is not a HadoopCluster; a change of the image is only logged.
unfoldable pub validate_update : Option HadoopClusterSpec → HadoopClusterSpec → Verdict
unfolding validate_hadoop_cluster
validate_update none spec = wrong_type
validate_update (some old) spec = validate_hadoop_cluster spec

unfoldable pub validate_delete : HadoopClusterSpec → Verdict
validate_delete spec = accepted
