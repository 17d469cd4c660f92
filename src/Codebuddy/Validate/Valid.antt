-- ===== src/Codebuddy/Validate/Valid.antt =====
-- Which specs the webhook accepts.
use mathlib.Core.Bool.{false≢true}
use mathlib.Core.Path.{ap}
use work_script.Prelude.{
  ◌≡◌, refl, sym, ◌↔◌, ℤ, pos, negsuc, ◌≤ℤ◌, eq_ℤ, ltb_ℤ, arith, Bool, true, false, Option, none,
  some, List, [], ◌∷◌, ◌++◌, if◌then◌else◌,
}
use work_script.Codebuddy.Types.{
  HadoopClusterSpec, NameNodeSpec, DataNodeSpec, JournalNodeSpec, ResourceManagerSpec, HBaseSpec,
  HBaseMasterSpec, HBaseRegionServerSpec, ClusterConfigSpec,
}
use work_script.Codebuddy.Default.{is_name_node_ha, is_resource_manager_ha}
use work_script.Codebuddy.Validate.{
  validate_create, validate_update, ValidationError, check_name_node, check_journal_node,
  check_resource_manager, check_data_node, check_h_base, check_h_base_master,
  check_h_base_region_server, check_cluster_config, check_factor_above, all_errors, Verdict,
  accepted, rejected, wrong_type, verdict_of, validate_hadoop_cluster,
}

-- P where the condition holds; P of a value where it is given.
abbrev pub When : Bool → Type 0 → Type 0
When true P = P
When false P = Unit

abbrev pub IfGiven : {A : Type 0} → (A → Type 0) → Option A → Type 0
IfGiven P none = Unit
IfGiven P (some a) = P a

abbrev pub Given : {A : Type 0} → (A → Type 0) → Option A → Type 0
Given P none = ⊥
Given P (some a) = P a

-- Two NameNodes and three JournalNodes at least in HA mode, two ResourceManagers in HA mode, a
-- DataNode, both parts of an HBase that is enabled, and a replication factor of one at least
-- that the DataNodes can hold.
abbrev pub Valid : HadoopClusterSpec → Type 0
Valid s =
    When (is_name_node_ha s.ha) (
      IfGiven (λ n. n.replicas ≡ pos 2) s.name_node_spec
      × Given (λ j. pos 3 ≤ℤ j.replicas) s.journal_node_spec)
    × (When (is_resource_manager_ha s.ha)
          (IfGiven (λ r. r.replicas ≡ pos 2) s.resource_manager_spec)
        × (IfGiven (λ d. pos 1 ≤ℤ d.replicas) s.data_node_spec
            × (IfGiven
                  (λ h. When h.enabled (
                    Given (λ _. Unit {0}) h.master_spec
                    × Given (λ _. Unit {0}) h.region_server_spec))
                  s.h_base_spec
                × IfGiven
                    (λ k.
                      (pos 1 ≤ℤ k.replication_factor)
                      × IfGiven (λ d. k.replication_factor ≤ℤ d.replicas) s.data_node_spec)
                    s.cluster_config)))

eq_ℤ_iff : (a : ℤ) → (eq_ℤ a (pos 2) ≡ true) ↔ (a ≡ pos 2)
eq_ℤ_iff (pos n) = ground arith
eq_ℤ_iff (negsuc n) = ground arith

ltb_ℤ_iff : (a b : ℤ) → (ltb_ℤ a b ≡ false) ↔ (b ≤ℤ a)
ltb_ℤ_iff a b = ground arith

abbrev is_empty : List ValidationError → Bool
is_empty [] = true
is_empty (e ∷ es) = false

cons_not_empty : {e : ValidationError} {es : List ValidationError} → (e ∷ es) ≡ [] → ⊥
cons_not_empty p = false≢true (ap is_empty p)

-- A test that adds an error if it holds, and one that adds it if it does not.
test_iff : (b : Bool) (e : ValidationError) → ((if b then e ∷ [] else []) ≡ []) ↔ (b ≡ false)
test_iff true e = ((λ p. absurd (cons_not_empty p)), (λ p. absurd (false≢true (sym p))))
test_iff false e = ((λ _. refl), (λ _. refl))

unless_iff : (b : Bool) (e : ValidationError) → ((if b then [] else e ∷ []) ≡ []) ↔ (b ≡ true)
unless_iff true e = ((λ _. refl), (λ _. refl))
unless_iff false e = ((λ p. absurd (cons_not_empty p)), (λ p. absurd (false≢true p)))

append_iff : (xs ys : List ValidationError) → (xs ++ ys ≡ []) ↔ ((xs ≡ []) × (ys ≡ []))
append_iff [] ys = ((λ p. (refl, p)), (λ p. p.1))
append_iff (x ∷ xs) ys = ((λ p. absurd (cons_not_empty p)), (λ p. absurd (cons_not_empty p.0)))

both : {A B C D : Type 0} → (A ↔ B) → (C ↔ D) → (A × C) ↔ (B × D)
both f g = ((λ p. (f.0 p.0, g.0 p.1)), (λ p. (f.1 p.0, g.1 p.1)))

chain : {A B C : Type 0} → (A ↔ B) → (B ↔ C) → (A ↔ C)
chain f g = ((λ a. g.0 (f.0 a)), (λ c. f.1 (g.1 c)))

when_iff :
    {P : Type 0} (b : Bool) (xs : List ValidationError)
    → (xs ≡ []) ↔ P
    → ((if b then xs else []) ≡ []) ↔ When b P
when_iff true xs h = h
when_iff false xs h = ((λ _. tt), (λ _. refl))

name_node_iff :
    (o : Option NameNodeSpec) → (check_name_node o ≡ []) ↔ IfGiven (λ n. n.replicas ≡ pos 2) o
unfolding check_name_node
name_node_iff none = ((λ _. tt), (λ _. refl))
name_node_iff (some n) = chain (unless_iff (eq_ℤ n.replicas (pos 2)) _) (eq_ℤ_iff n.replicas)

journal_node_iff :
    (o : Option JournalNodeSpec) → (check_journal_node o ≡ []) ↔ Given (λ j. pos 3 ≤ℤ j.replicas) o
unfolding check_journal_node
journal_node_iff none = ((λ p. cons_not_empty p), (λ p. absurd p))
journal_node_iff (some j) =
    chain (test_iff (ltb_ℤ j.replicas (pos 3)) _) (ltb_ℤ_iff j.replicas (pos 3))

resource_manager_iff :
    (o : Option ResourceManagerSpec)
    → (check_resource_manager o ≡ []) ↔ IfGiven (λ r. r.replicas ≡ pos 2) o
unfolding check_resource_manager
resource_manager_iff none = ((λ _. tt), (λ _. refl))
resource_manager_iff (some r) = chain (unless_iff (eq_ℤ r.replicas (pos 2)) _) (eq_ℤ_iff r.replicas)

data_node_iff :
    (o : Option DataNodeSpec) → (check_data_node o ≡ []) ↔ IfGiven (λ d. pos 1 ≤ℤ d.replicas) o
unfolding check_data_node
data_node_iff none = ((λ _. tt), (λ _. refl))
data_node_iff (some d) =
    chain (test_iff (ltb_ℤ d.replicas (pos 1)) _) (ltb_ℤ_iff d.replicas (pos 1))

master_iff : (o : Option HBaseMasterSpec) → (check_h_base_master o ≡ []) ↔ Given (λ _. Unit {0}) o
unfolding check_h_base_master
master_iff none = ((λ p. cons_not_empty p), (λ p. absurd p))
master_iff (some m) = ((λ _. tt), (λ _. refl))

region_server_iff :
    (o : Option HBaseRegionServerSpec)
    → (check_h_base_region_server o ≡ []) ↔ Given (λ _. Unit {0}) o
unfolding check_h_base_region_server
region_server_iff none = ((λ p. cons_not_empty p), (λ p. absurd p))
region_server_iff (some m) = ((λ _. tt), (λ _. refl))

h_base_iff :
    (o : Option HBaseSpec)
    → (check_h_base o ≡ [])
      ↔ IfGiven
          (λ h.
            When h.enabled
              (Given (λ _. Unit {0}) h.master_spec × Given (λ _. Unit {0}) h.region_server_spec))
          o
unfolding check_h_base
h_base_iff none = ((λ _. tt), (λ _. refl))
h_base_iff (some h) = when_iff h.enabled _ (
    chain (append_iff _ _)
      (both (master_iff h.master_spec) (region_server_iff h.region_server_spec)))

factor_iff :
    (factor : ℤ) (o : Option DataNodeSpec)
    → (check_factor_above factor o ≡ []) ↔ IfGiven (λ d. factor ≤ℤ d.replicas) o
unfolding check_factor_above
factor_iff factor none = ((λ _. tt), (λ _. refl))
factor_iff factor (some d) =
    chain (test_iff (ltb_ℤ d.replicas factor) _) (ltb_ℤ_iff d.replicas factor)

cluster_config_iff :
    (o : Option ClusterConfigSpec) (data_node : Option DataNodeSpec)
    → (check_cluster_config o data_node ≡ [])
      ↔ IfGiven
          (λ k.
            (pos 1 ≤ℤ k.replication_factor)
            × IfGiven (λ d. k.replication_factor ≤ℤ d.replicas) data_node)
          o
unfolding check_cluster_config
cluster_config_iff none data_node = ((λ _. tt), (λ _. refl))
cluster_config_iff (some k) data_node = chain (append_iff _ _) (
    both
      (chain (test_iff (ltb_ℤ k.replication_factor (pos 1)) _)
        (ltb_ℤ_iff k.replication_factor (pos 1)))
      (factor_iff k.replication_factor data_node))

all_errors_iff : (s : HadoopClusterSpec) → (all_errors s ≡ []) ↔ Valid s
unfolding all_errors
all_errors_iff s = chain (append_iff _ _) (
    both
      (when_iff (is_name_node_ha s.ha) _ (
        chain (append_iff _ _)
          (both (name_node_iff s.name_node_spec) (journal_node_iff s.journal_node_spec))))
      (chain (append_iff _ _) (
        both
          (when_iff (is_resource_manager_ha s.ha) _ (resource_manager_iff s.resource_manager_spec))
          (chain (append_iff _ _) (
            both (data_node_iff s.data_node_spec) (
              chain (append_iff _ _) (
                both (h_base_iff s.h_base_spec)
                  (cluster_config_iff s.cluster_config s.data_node_spec))))))))

abbrev is_accepted : Verdict → Bool
is_accepted accepted = true
is_accepted wrong_type = false
is_accepted (rejected es) = false

verdict_iff : (es : List ValidationError) → (verdict_of es ≡ accepted) ↔ (es ≡ [])
verdict_iff [] = ((λ _. refl), (λ _. refl))
verdict_iff (e ∷ es) =
    ((λ p. absurd (false≢true (ap is_accepted p))), (λ p. absurd (cons_not_empty p)))

pub validate_hadoop_cluster-Valid :
    (s : HadoopClusterSpec) → (validate_hadoop_cluster s ≡ accepted) ↔ Valid s
unfolding validate_hadoop_cluster
validate_hadoop_cluster-Valid s = chain (verdict_iff (all_errors s)) (all_errors_iff s)

-- A spec is accepted, when it is created and when it replaces another, exactly if it is Valid: two
-- NameNodes, if given, and three JournalNodes at least where the NameNode is in HA mode, two
-- ResourceManagers, if given, in HA mode, a DataNode at least, if given, both parts of an HBase
-- that is enabled, and a replication factor of one at least that the DataNodes, if given, can
-- hold. It is not accepted in place of an object of another type.
pub webhook-Valid :
    (s old : HadoopClusterSpec)
    → ((validate_create s ≡ accepted) ↔ Valid s)
      × ((validate_update (some old) s ≡ accepted) ↔ Valid s)
      × (validate_update none s ≡ wrong_type)
unfolding validate_create validate_update
webhook-Valid s old = (validate_hadoop_cluster-Valid s, validate_hadoop_cluster-Valid s, refl)
