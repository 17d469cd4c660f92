-- ===== src/Trae/Tests/Parts.antt =====
-- The statements on the objects, at the sample cluster.
use work_script.Prelude.{◌≡◌, refl, ◌↔◌, none, List, [], ◌++◌, All, map, lookup}
use work_script.Checks.{has_text}
use work_script.Trae.Types.{ConfigMapSpec, PersistentVolumeSpec}
use work_script.Trae.Api
use work_script.Trae.Affinity.{map_option, full_affinity, expression_affinity}
use work_script.Trae.Affinity.RoundTrip.{
  read_affinity, kept_node, without_fields, read_affinity-full_affinity,
  read_affinity-expression_affinity,
}
use work_script.Trae.NameNode.{new_name_node_stateful_set}
use work_script.Trae.NameNode.Base.{new_name_node_service, name_node_set}
use work_script.Trae.NameNode.Claims.{new_claims}
use work_script.Trae.NameNode.Storage.{
  OfBuilt, identity_of, asked_by, last_class, panics, some_of, stores_only, new_claims-Matches,
  panics-new_claims,
}
use work_script.Trae.Mounted.{mounts_resolve, mounts_resolve-new_name_node_stateful_set}
use work_script.Trae.Shape.{Selects, Kept, name_node_service-Selects}
use work_script.Trae.Tests.{sample, sample_env, sample_name_node, sample_affinity}

full_affinity_example : read_affinity (full_affinity sample_affinity) ≡ sample_affinity
full_affinity_example = read_affinity-full_affinity sample_affinity

expression_affinity_example : read_affinity (expression_affinity sample_affinity) ≡ record {
  node_affinity = map_option (kept_node without_fields) sample_affinity.node_affinity;
  pod_affinity = none;
  pod_anti_affinity = none;
}
expression_affinity_example = read_affinity-expression_affinity sample_affinity

abbrev two_volumes : List PersistentVolumeSpec
two_volumes = sample_name_node.persistent_volumes

claims_example :
    OfBuilt
      (λ cs.
        (map identity_of cs ≡ map asked_by two_volumes)
        × All (λ c. Api.PersistentVolumeClaim.storage_class_name c ≡ last_class two_volumes) cs)
      (new_claims sample_env two_volumes)
claims_example = new_claims-Matches sample_env two_volumes

panics_example :
    panics (new_claims sample_env two_volumes) ≡ some_of (stores_only sample_env) two_volumes
panics_example = panics-new_claims sample_env two_volumes

mounts_example :
    OfBuilt
      (λ set.
        mounts_resolve set
        ≡ has_text "hadoop-nn-data" (
            map ConfigMapSpec.config_map_name sample.spec.name_node.config_maps
            ++ map PersistentVolumeSpec.name sample.spec.name_node.persistent_volumes))
      (new_name_node_stateful_set sample_env sample)
mounts_example = mounts_resolve-new_name_node_stateful_set sample_env sample

abbrev a_claim : Api.PersistentVolumeClaim
a_claim = record {
  name = "hadoop-dn-data";
  annotations = [];
  access_modes = [];
  requests = none;
  storage_class_name = "fast";
  volume_name = "";
}

pods_example :
    Selects
      (new_name_node_service sample_env sample).spec.selector
      (name_node_set sample_env sample Api.zero_pod []).spec.template.labels
    ↔ (Kept "app" "hadoop-namenode" sample.spec.name_node.pod_labels
        × Kept "cluster" "c1" sample.spec.name_node.pod_labels)
unfolding lookup
pods_example = name_node_service-Selects sample_env sample Api.zero_pod [] (refl, tt)
