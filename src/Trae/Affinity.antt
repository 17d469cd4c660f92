-- ===== src/Trae/Affinity.antt =====
-- The loops over the affinity of a cluster in pkg/resources. The NameNode's builder keeps all of it
-- (namenode.go); those of the other three components take the expressions of the node affinity and
-- nothing else (datanode.go, resourcemanager.go, nodemanager.go, word for word alike).
pub mod RoundTrip
use work_script.Prelude.{Option, none, some, List, [], map}
use work_script.Trae.Types.{
  AffinitySpec, NodeAffinitySpec, NodeSelectorTerm, NodeSelectorRequirement,
  PreferredSchedulingTerm, RequiredSchedulingTerm, PodAffinityTerm, WeightedPodAffinityTerm,
  PodAffinitySpec, PodAntiAffinitySpec,
}
use work_script.Trae.Api

abbrev pub map_option : {A B : Type 0} → (A → B) → Option A → Option B
map_option f none = none
map_option f (some a) = some (f a)

abbrev pub requirement : NodeSelectorRequirement → Api.NodeSelectorRequirement
requirement r = record { key = r.key; operator = r.operator; values = r.values }

-- A term with its expressions and its fields.
abbrev pub full_term : NodeSelectorTerm → Api.NodeSelectorTerm
full_term t = record {
  match_expressions = map requirement t.match_expressions;
  match_fields = map requirement t.match_fields;
}

-- A term with its expressions alone.
abbrev pub expression_term : NodeSelectorTerm → Api.NodeSelectorTerm
expression_term t = record {
  match_expressions = map requirement t.match_expressions;
  match_fields = [];
}

module _ (term : NodeSelectorTerm → Api.NodeSelectorTerm) where
  abbrev pub preferred_term : PreferredSchedulingTerm → Api.PreferredSchedulingTerm
  preferred_term t = record { weight = t.weight; preference = term t.preference }

  abbrev pub node_selector : RequiredSchedulingTerm → Api.NodeSelector
  node_selector r = record { node_selector_terms = map term r.node_selector_terms }

  abbrev pub node_affinity : NodeAffinitySpec → Api.NodeAffinity
  node_affinity a = record {
    required = map_option node_selector a.required;
    preferred = map preferred_term a.preferred;
  }

abbrev pub pod_term : PodAffinityTerm → Api.PodAffinityTerm
pod_term t = record {
  label_selector = t.label_selector;
  namespaces = t.namespaces;
  topology_key = t.topology_key;
}

abbrev pub weighted_term : WeightedPodAffinityTerm → Api.WeightedPodAffinityTerm
weighted_term t = record { weight = t.weight; pod_affinity_term = pod_term t.pod_affinity_term }

abbrev pub pod_affinity : PodAffinitySpec → Api.PodAffinity
pod_affinity a = record {
  required = map pod_term a.required;
  preferred = map weighted_term a.preferred;
}

abbrev pub pod_anti_affinity : PodAntiAffinitySpec → Api.PodAntiAffinity
pod_anti_affinity a = record {
  required = map pod_term a.required;
  preferred = map weighted_term a.preferred;
}

-- namenode.go
unfoldable pub full_affinity : AffinitySpec → Api.Affinity
full_affinity a = record {
  node_affinity = map_option (node_affinity full_term) a.node_affinity;
  pod_affinity = map_option pod_affinity a.pod_affinity;
  pod_anti_affinity = map_option pod_anti_affinity a.pod_anti_affinity;
}

-- datanode.go, resourcemanager.go, nodemanager.go
unfoldable pub expression_affinity : AffinitySpec → Api.Affinity
expression_affinity a = record {
  node_affinity = map_option (node_affinity expression_term) a.node_affinity;
  pod_affinity = none;
  pod_anti_affinity = none;
}

-- if cluster.Spec.….Affinity != nil { statefulSet.Spec.Template.Spec.Affinity = … }
abbrev pub with_affinity :
    (AffinitySpec → Api.Affinity) → Option AffinitySpec → Api.PodSpec → Api.PodSpec
with_affinity translate none p = p
with_affinity translate (some a) p = record p { affinity = some (translate a) }
