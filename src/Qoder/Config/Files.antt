-- ===== src/Qoder/Config/Files.antt =====
-- internal/reconciler/configmap.go: the texts of the files, and the hash of the ConfigMap. Go
-- compares texts byte by byte, and the UTF-8 bytes of texts stand in the order of their code
-- points, so `sort.Strings` sorts by `text_le` below.
use Prim.Native.Char.{code}
use work_script.Prelude.{
  ℕ, String, Bool, true, false, none, some, List, [], ◌∷◌, Dict, lookup, keys, concat, ltb,
  if◌then◌else◌,
}
use work_script.Qoder.Types.{HadoopCluster}
use work_script.Qoder.Env.{Env}
use work_script.Qoder.Config.Sites.{
  core_site, hdfs_site, yarn_site, mapred_site, capacity_scheduler,
}
use work_script.Qoder.Config.Heap.{generate_hadoop_env}

abbrev pub codes : String → List ℕ
codes String.[] = []
codes (String.◌∷◌ c s) = code c ∷ codes s

abbrev pub codes_le : List ℕ → List ℕ → Bool
codes_le [] ys = true
codes_le (x ∷ xs) [] = false
codes_le (x ∷ xs) (y ∷ ys) =
    let rest = codes_le xs ys in if ltb x y then true else if ltb y x then false else rest

abbrev pub text_le : String → String → Bool
text_le s t = codes_le (codes s) (codes t)

unfoldable pub insert_sorted : String → List String → List String
insert_sorted k [] = k ∷ []
insert_sorted k (j ∷ js) = if text_le k j then k ∷ j ∷ js else j ∷ insert_sorted k js

-- sort.Strings
unfoldable pub sort : List String → List String
unfolding insert_sorted
sort [] = []
sort (k ∷ ks) = insert_sorted k (sort ks)

-- data[k], which is "" for a key that is not there
abbrev pub value_at : String → Dict String → String
value_at k entries = elim (lookup k entries) [ none ↦ "" | some v ↦ v ]

unfoldable pub hash_lines : Dict String → List String → List String
hash_lines entries [] = []
hash_lines entries (k ∷ ks) = k ∷ "=" ∷ value_at k entries ∷ "\n" ∷ hash_lines entries ks

unfoldable pub compute_config_hash : Env → Dict String → String
unfolding sort hash_lines
compute_config_hash env entries = env.md5_hex (concat (hash_lines entries (sort (keys entries))))

unfoldable pub property_lines : Dict String → List String
property_lines [] = []
property_lines ((key, value) ∷ rest) =
    "  <property>\n"
    ∷ concat ("    <name>" ∷ key ∷ "</name>\n" ∷ [])
    ∷ concat ("    <value>" ∷ value ∷ "</value>\n" ∷ [])
    ∷ "  </property>\n"
    ∷ property_lines rest

-- `range properties` visits the entries in the order that the runtime picks.
unfoldable pub generate_xml_config : Env → String → Dict String → String
unfolding property_lines
generate_xml_config env root_tag properties = concat (
    concat ("<?xml version=\"1.0\"?>\n<" ∷ root_tag ∷ ">\n" ∷ [])
    ∷ concat (property_lines (env.map_order properties))
    ∷ concat ("</" ∷ root_tag ∷ ">\n" ∷ [])
    ∷ [])

unfoldable pub generate_hadoop_config : Env → HadoopCluster → Dict String
unfolding generate_xml_config
generate_hadoop_config env cluster =
    ("core-site.xml", generate_xml_config env "configuration" (core_site cluster))
    ∷ ("hdfs-site.xml", generate_xml_config env "configuration" (hdfs_site cluster))
    ∷ ("yarn-site.xml", generate_xml_config env "configuration" (yarn_site cluster))
    ∷ ("mapred-site.xml", generate_xml_config env "configuration" (mapred_site cluster))
    ∷ (
      "capacity-scheduler.xml",
      generate_xml_config env "configuration" (capacity_scheduler cluster),
    )
    ∷ ("hadoop-env.sh", generate_hadoop_env cluster)
    ∷ []
