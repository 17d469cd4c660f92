-- ===== src/Trae/Controller/Wanted.antt =====
-- The nine objects that a pass wants, as they are built.
use work_script.Prelude.{◌≡◌, refl, List, [], ◌∷◌}
use work_script.Kube.{Service}
use work_script.Trae.Types.{HadoopCluster, HadoopClusterStatus}
use work_script.Trae.Api
use work_script.Trae.Env.{Env}
use work_script.Trae.Workload.{built}
use work_script.Trae.ConfigMap.{
  new_config_map, generate_core_site_xml, generate_hdf_site_xml, generate_yarn_site_xml,
  generate_mapred_site_xml,
}
use work_script.Trae.NameNode.{new_name_node_stateful_set, new_name_node_resources}
use work_script.Trae.NameNode.Base.{new_name_node_service, name_node_pod, name_node_set}
use work_script.Trae.NameNode.Claims.{new_claims}
use work_script.Trae.NameNode.Options.{with_options}
use work_script.Trae.DataNode.{
  new_data_node_service, wait_script, data_node_claim, data_node_set, new_data_node_stateful_set,
  new_data_node_resources,
}
use work_script.Trae.ResourceManager.{
  new_resource_manager_service, new_resource_manager_stateful_set, new_resource_manager_resources,
}
use work_script.Trae.NodeManager.{
  new_node_manager_service, new_node_manager_stateful_set, new_node_manager_resources,
}
use work_script.Trae.Program.{config_map, service, stateful_set}
use work_script.Trae.Store.{Wanted}

abbrev pub wanted_service : Service → Wanted
wanted_service o = record { kind = service; object = o }

abbrev pub wanted_set : Api.StatefulSet → Wanted
wanted_set o = record { kind = stateful_set; object = o }

-- The objects of a cluster, with the claims of its NameNode and DataNode.
unfoldable pub wanted :
    Env → HadoopCluster → List Api.PersistentVolumeClaim → Api.PersistentVolumeClaim → List Wanted
wanted env c claims claim =
    record { kind = config_map; object = new_config_map env c }
    ∷ wanted_service (new_name_node_service env c)
    ∷ wanted_set (name_node_set env c (with_options c.spec.name_node (name_node_pod c)) claims)
    ∷ wanted_service (new_data_node_service env c)
    ∷ wanted_set (data_node_set env c claim)
    ∷ wanted_service (new_resource_manager_service env c)
    ∷ wanted_set (new_resource_manager_stateful_set env c)
    ∷ wanted_service (new_node_manager_service env c)
    ∷ wanted_set (new_node_manager_stateful_set env c)
    ∷ []

-- What a pass needs of a cluster: claims that can be built without a panic.
pub record Builds (env : Env) (c : HadoopCluster) (claims : List Api.PersistentVolumeClaim)
    (claim : Api.PersistentVolumeClaim) : Type 0 where
  pub name_node_claims : new_claims env c.spec.name_node.persistent_volumes ≡ built claims
  pub data_node_claims : data_node_claim env c ≡ built claim

module _ (env : Env) (c : HadoopCluster) {claims : List Api.PersistentVolumeClaim}
    {claim : Api.PersistentVolumeClaim} (builds : Builds env c claims claim) where
  pub name_node_built :
      new_name_node_resources env c
      ≡ built (
        new_name_node_service env c,
        name_node_set env c (with_options c.spec.name_node (name_node_pod c)) claims,
      )
  unfolding new_name_node_resources new_name_node_stateful_set
  name_node_built = rw builds.name_node_claims refl

  pub data_node_built :
      new_data_node_resources env c ≡ built (new_data_node_service env c, data_node_set env c claim)
  unfolding new_data_node_resources new_data_node_stateful_set
  data_node_built = rw builds.data_node_claims refl

pub resource_manager_built :
    (env : Env) (c : HadoopCluster)
    → new_resource_manager_resources env c
      ≡ built (new_resource_manager_service env c, new_resource_manager_stateful_set env c)
unfolding new_resource_manager_resources
resource_manager_built env c = refl

pub node_manager_built :
    (env : Env) (c : HadoopCluster)
    → new_node_manager_resources env c
      ≡ built (new_node_manager_service env c, new_node_manager_stateful_set env c)
unfolding new_node_manager_resources
node_manager_built env c = refl

-- The status of a cluster has no part in its objects.
pub wanted_status :
    (env : Env) (c : HadoopCluster) (status : HadoopClusterStatus)
    (claims : List Api.PersistentVolumeClaim) (claim : Api.PersistentVolumeClaim)
    → wanted env (record c { status = status }) claims claim ≡ wanted env c claims claim
unfolding wanted new_config_map new_name_node_service name_node_pod new_data_node_service
    data_node_set new_resource_manager_service new_resource_manager_stateful_set
    new_node_manager_service new_node_manager_stateful_set generate_core_site_xml
    generate_hdf_site_xml generate_yarn_site_xml generate_mapred_site_xml name_node_set wait_script
wanted_status env c status claims claim = refl

pub Builds-status :
    (env : Env) (c : HadoopCluster) (status : HadoopClusterStatus)
    {claims : List Api.PersistentVolumeClaim} {claim : Api.PersistentVolumeClaim}
    → Builds env c claims claim
    → Builds env (record c { status = status }) claims claim
unfolding data_node_claim
Builds-status env c status b = record {
  name_node_claims = b.name_node_claims;
  data_node_claims = b.data_node_claims;
}
