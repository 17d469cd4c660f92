-- ===== src/Trae/Affinity/RoundTrip.antt =====
-- Reading an affinity back from the pod: what the builders keep of it, and what they lose.
use work_script.Prelude.{◌≡◌, refl, ap, ◌∙◌, Option, none, some, List, [], ◌∷◌, map}
use work_script.Trae.Types.{
  AffinitySpec, NodeAffinitySpec, NodeSelectorTerm, NodeSelectorRequirement,
  PreferredSchedulingTerm, RequiredSchedulingTerm, PodAffinityTerm, WeightedPodAffinityTerm,
  PodAffinitySpec, PodAntiAffinitySpec,
}
use work_script.Trae.Api
use work_script.Trae.Affinity.{
  map_option, requirement, full_term, expression_term, preferred_term, node_selector, node_affinity,
  pod_term, weighted_term, pod_affinity, pod_anti_affinity, full_affinity, expression_affinity,
}

-- The way back, by the fields of the Kubernetes types.
abbrev read_requirement : Api.NodeSelectorRequirement → NodeSelectorRequirement
read_requirement r = record { key = r.key; operator = r.operator; values = r.values }

abbrev read_term : Api.NodeSelectorTerm → NodeSelectorTerm
read_term t = record {
  match_expressions = map read_requirement t.match_expressions;
  match_fields = map read_requirement t.match_fields;
}

abbrev read_preferred : Api.PreferredSchedulingTerm → PreferredSchedulingTerm
read_preferred t = record { preference = read_term t.preference; weight = t.weight }

abbrev read_selector : Api.NodeSelector → RequiredSchedulingTerm
read_selector s = record { node_selector_terms = map read_term s.node_selector_terms }

abbrev read_node : Api.NodeAffinity → NodeAffinitySpec
read_node a = record {
  preferred = map read_preferred a.preferred;
  required = map_option read_selector a.required;
}

abbrev read_pod_term : Api.PodAffinityTerm → PodAffinityTerm
read_pod_term t = record {
  label_selector = t.label_selector;
  namespaces = t.namespaces;
  topology_key = t.topology_key;
}

abbrev read_weighted : Api.WeightedPodAffinityTerm → WeightedPodAffinityTerm
read_weighted t = record {
  pod_affinity_term = read_pod_term t.pod_affinity_term;
  weight = t.weight;
}

abbrev read_pod : Api.PodAffinity → PodAffinitySpec
read_pod a = record {
  required = map read_pod_term a.required;
  preferred = map read_weighted a.preferred;
}

abbrev read_anti : Api.PodAntiAffinity → PodAntiAffinitySpec
read_anti a = record {
  required = map read_pod_term a.required;
  preferred = map read_weighted a.preferred;
}

abbrev pub read_affinity : Api.Affinity → AffinitySpec
read_affinity a = record {
  node_affinity = map_option read_node a.node_affinity;
  pod_affinity = map_option read_pod a.pod_affinity;
  pod_anti_affinity = map_option read_anti a.pod_anti_affinity;
}

module _ {A B C : Type 0} (f : A → B) (g : B → C) (h : A → C) (same : (a : A) → g (f a) ≡ h a) where
  map-map : (xs : List A) → map g (map f xs) ≡ map h xs
  map-map [] = refl
  map-map (x ∷ xs) = λ i. same x i ∷ map-map xs i

  map_option-map_option : (o : Option A) → map_option g (map_option f o) ≡ map_option h o
  map_option-map_option none = refl
  map_option-map_option (some a) = ap some (same a)

abbrev same : {A : Type 0} → A → A
same a = a

map-same : {A : Type 0} (xs : List A) → map same xs ≡ xs
map-same [] = refl
map-same (x ∷ xs) = ap (λ ys. x ∷ ys) (map-same xs)

map_option-same : {A : Type 0} (o : Option A) → map_option same o ≡ o
map_option-same none = refl
map_option-same (some a) = refl

requirements_read :
    (rs : List NodeSelectorRequirement) → map read_requirement (map requirement rs) ≡ rs
requirements_read rs = map-map requirement read_requirement same (λ _. refl) rs ∙ map-same rs

-- What is left of a node affinity when each term is changed by h.
module _ (h : NodeSelectorTerm → NodeSelectorTerm) where
  abbrev kept_preferred : PreferredSchedulingTerm → PreferredSchedulingTerm
  kept_preferred p = record p { preference = h p.preference }

  abbrev kept_required : RequiredSchedulingTerm → RequiredSchedulingTerm
  kept_required r = record { node_selector_terms = map h r.node_selector_terms }

  abbrev pub kept_node : NodeAffinitySpec → NodeAffinitySpec
  kept_node a = record {
    preferred = map kept_preferred a.preferred;
    required = map_option kept_required a.required;
  }

module _ (term : NodeSelectorTerm → Api.NodeSelectorTerm) (h : NodeSelectorTerm → NodeSelectorTerm)
    (read : (t : NodeSelectorTerm) → read_term (term t) ≡ h t) where
  read-selector :
      (r : RequiredSchedulingTerm) → read_selector (node_selector term r) ≡ kept_required h r
  read-selector r =
      λ i. record { node_selector_terms = map-map term read_term h read r.node_selector_terms i }

  read-node : (a : NodeAffinitySpec) → read_node (node_affinity term a) ≡ kept_node h a
  read-node a = λ i. record {
    preferred =
        map-map (preferred_term term) read_preferred (kept_preferred h)
          (λ p j. record p { preference = read p.preference j }) a.preferred i;
    required =
        map_option-map_option (node_selector term) read_selector (kept_required h) read-selector
          a.required i;
  }

  read-nodes :
      (o : Option NodeAffinitySpec)
      → map_option read_node (map_option (node_affinity term) o) ≡ map_option (kept_node h) o
  read-nodes = map_option-map_option (node_affinity term) read_node (kept_node h) read-node

kept_node-same : (a : NodeAffinitySpec) → kept_node same a ≡ a
kept_node-same a =
    λ i. record { preferred = map-same a.preferred i; required = kept_required_same a.required i }
  where
    kept_required_same : (o : Option RequiredSchedulingTerm) → map_option (kept_required same) o ≡ o
    kept_required_same none = refl
    kept_required_same (some r) =
        λ i. some (record { node_selector_terms = map-same r.node_selector_terms i })

full_term_read : (t : NodeSelectorTerm) → read_term (full_term t) ≡ same t
full_term_read t = λ i. record {
  match_expressions = requirements_read t.match_expressions i;
  match_fields = requirements_read t.match_fields i;
}

-- A term without its fields.
abbrev pub without_fields : NodeSelectorTerm → NodeSelectorTerm
without_fields t = record t { match_fields = [] }

expression_term_read : (t : NodeSelectorTerm) → read_term (expression_term t) ≡ without_fields t
expression_term_read t =
    λ i. record { match_expressions = requirements_read t.match_expressions i; match_fields = [] }

pod_terms_read : (ts : List PodAffinityTerm) → map read_pod_term (map pod_term ts) ≡ ts
pod_terms_read ts = map-map pod_term read_pod_term same (λ _. refl) ts ∙ map-same ts

weighted_read : (ts : List WeightedPodAffinityTerm) → map read_weighted (map weighted_term ts) ≡ ts
weighted_read ts = map-map weighted_term read_weighted same (λ _. refl) ts ∙ map-same ts

pod_affinity_read : (a : PodAffinitySpec) → read_pod (pod_affinity a) ≡ same a
pod_affinity_read a =
    λ i. record { required = pod_terms_read a.required i; preferred = weighted_read a.preferred i }

pod_anti_affinity_read : (a : PodAntiAffinitySpec) → read_anti (pod_anti_affinity a) ≡ same a
pod_anti_affinity_read a =
    λ i. record { required = pod_terms_read a.required i; preferred = weighted_read a.preferred i }

nodes_same : (o : Option NodeAffinitySpec) → map_option (kept_node same) o ≡ o
nodes_same none = refl
nodes_same (some a) = ap some (kept_node-same a)

-- The affinity of a NameNode's pod, read back field by field, is the one that the cluster gives:
-- nothing is lost, reordered or added.
pub read_affinity-full_affinity : (a : AffinitySpec) → read_affinity (full_affinity a) ≡ a
unfolding full_affinity
read_affinity-full_affinity a = λ i. record {
  node_affinity =
      (read-nodes full_term same full_term_read a.node_affinity ∙ nodes_same a.node_affinity) i;
  pod_affinity =
      (map_option-map_option pod_affinity read_pod same pod_affinity_read a.pod_affinity
          ∙ map_option-same a.pod_affinity)
        i;
  pod_anti_affinity =
      (map_option-map_option pod_anti_affinity read_anti same pod_anti_affinity_read
            a.pod_anti_affinity
          ∙ map_option-same a.pod_anti_affinity)
        i;
}

-- The affinity of the pods of the other three components, read back, is the node affinity that the
-- cluster gives with the fields of every term left out: what it gives of fields, of pod affinity
-- and of pod anti-affinity is lost.
pub read_affinity-expression_affinity :
    (a : AffinitySpec)
    → read_affinity (expression_affinity a) ≡ record {
      node_affinity = map_option (kept_node without_fields) a.node_affinity;
      pod_affinity = none;
      pod_anti_affinity = none;
    }
unfolding expression_affinity
read_affinity-expression_affinity a = λ i. record {
  node_affinity = read-nodes expression_term without_fields expression_term_read a.node_affinity i;
  pod_affinity = none;
  pod_anti_affinity = none;
}
