-- ===== src/Qoder/Config/Sites/Overrides.antt =====
-- The overrides of the cluster against the operator's own properties.
use work_script.Prelude.{
  ◌≡◌, refl, ◌∙◌, String, none, some, [], ◌∷◌, Dict, lookup, insert, merge, concat, Distinct,
  first_of, lookup-merge, if◌then◌else◌, Bool-cases, inl, inr,
}
use work_script.Qoder.Types.{HadoopCluster}
use work_script.Qoder.Config.Names.{
  ha_enabled, is_nn_ha, is_rm_ha, nn_service, rm_service, get_zoo_keeper_quorum,
}
use work_script.Qoder.Config.Sites.{
  core_base, core_ha, yarn_base, yarn_ha, core_site, hdfs_site, yarn_site, mapred_site,
  capacity_scheduler,
}

-- The five files of properties.
pub data Site : Type 0 where
  core hdfs yarn mapred scheduler : Site

unfoldable pub site_properties : HadoopCluster → Site → Dict String
site_properties c core = core_site c
site_properties c hdfs = hdfs_site c
site_properties c yarn = yarn_site c
site_properties c mapred = mapred_site c
site_properties c scheduler = capacity_scheduler c

-- What the cluster gives for a file.
unfoldable pub given : HadoopCluster → Site → Dict String
given c core = c.spec.config.core_site
given c hdfs = c.spec.config.hdfs_site
given c yarn = c.spec.config.yarn_site
given c mapred = c.spec.config.mapred_site
given c scheduler = c.spec.config.capacity_scheduler

-- The cluster that gives nothing.
abbrev pub without_overrides : HadoopCluster → HadoopCluster
without_overrides c = record c {
  spec = record c.spec {
    config = record {
      core_site = [];
      hdfs_site = [];
      yarn_site = [];
      mapred_site = [];
      capacity_scheduler = [];
    };
  };
}

-- In each file a property has the value that the cluster gives, if it gives one, and otherwise the
-- value that it has for a cluster that gives nothing. The cluster gives each key once, as a map
-- does.
pub lookup-site_properties :
    (c : HadoopCluster) (s : Site) (k : String)
    → Distinct (given c s)
    → lookup k (site_properties c s)
      ≡ first_of (lookup k (given c s)) (lookup k (site_properties (without_overrides c) s))
unfolding site_properties given core_site hdfs_site yarn_site mapred_site capacity_scheduler merge
    is_nn_ha is_rm_ha get_zoo_keeper_quorum nn_service rm_service
lookup-site_properties c core k d = lookup-merge k c.spec.config.core_site _ d
lookup-site_properties c hdfs k d = lookup-merge k c.spec.config.hdfs_site _ d
lookup-site_properties c yarn k d = lookup-merge k c.spec.config.yarn_site _ d
lookup-site_properties c mapred k d = lookup-merge k c.spec.config.mapred_site _ d
lookup-site_properties c scheduler k d = lookup-merge k c.spec.config.capacity_scheduler _ d

pub not_given :
    (c : HadoopCluster) (s : Site) (k : String)
    → Distinct (given c s)
    → lookup k (given c s) ≡ none
    → lookup k (site_properties c s) ≡ lookup k (site_properties (without_overrides c) s)
not_given c s k d n = lookup-site_properties c s k d ∙ (rw n refl)

pub plain-default_fs :
    (c : HadoopCluster)
    → lookup "fs.defaultFS" (core_site (without_overrides c))
      ≡ some (
          if is_nn_ha c
          then concat ("hdfs://" ∷ c.name ∷ [])
          else concat ("hdfs://" ∷ nn_service c ∷ ":9000" ∷ []))
unfolding core_site core_base core_ha merge insert lookup is_nn_ha nn_service
plain-default_fs c = elim (Bool-cases (ha_enabled c.spec.hdfs.name_node.ha)) [
  | inl h ↦ rw h refl
  | inr h ↦ rw h refl
]

pub plain-quorum :
    (c : HadoopCluster)
    → lookup "ha.zookeeper.quorum" (core_site (without_overrides c))
      ≡ (if is_nn_ha c then some (get_zoo_keeper_quorum c) else none)
unfolding core_site core_base core_ha merge insert lookup is_nn_ha nn_service get_zoo_keeper_quorum
plain-quorum c = elim (Bool-cases (ha_enabled c.spec.hdfs.name_node.ha)) [
  | inl h ↦ rw h refl
  | inr h ↦ rw h refl
]

pub plain-yarn_quorum :
    (c : HadoopCluster)
    → lookup "yarn.resourcemanager.zk-address" (yarn_site (without_overrides c))
      ≡ (if is_rm_ha c then some (get_zoo_keeper_quorum c) else none)
unfolding yarn_site yarn_base yarn_ha merge insert lookup is_rm_ha rm_service get_zoo_keeper_quorum
plain-yarn_quorum c = elim (Bool-cases (ha_enabled c.spec.yarn.resource_manager.ha)) [
  | inl h ↦ rw h refl
  | inr h ↦ rw h refl
]
