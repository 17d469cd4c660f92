-- ===== src/Codebuddy/Validate/Defaulted.antt =====
-- Validation of a spec that was defaulted, as the API server asks for the two in turn.
use mathlib.Core.Bool.{false≢true}
use mathlib.Core.Path.{ap}
use work_script.Prelude.{
  ◌≡◌, refl, sym, ◌∙◌, ℤ, pos, negsuc, ◌≤ℤ◌, eq_ℤ, arith, Bool, true, false, Option, none, some,
  Bool-cases, inl, inr,
}
use work_script.Codebuddy.Types.{
  HadoopClusterSpec, NameNodeSpec, DataNodeSpec, JournalNodeSpec, ResourceManagerSpec, HBaseSpec,
  ClusterConfigSpec, HaConfig, ResourceManagerHaConfig,
}
use work_script.Codebuddy.Default.{
  or_int, when_given, default, default_name_node, default_data_node, default_journal_node,
  default_resource_manager, default_h_base, default_ha, default_resource_manager_ha,
  default_cluster_config, is_name_node_ha, is_resource_manager_ha, enable_journal_node,
  resource_manager_ha_of,
}
use work_script.Codebuddy.Default.Settling.{name_node_ha_kept}
use work_script.Codebuddy.Validate.{accepted, validate_hadoop_cluster}
use work_script.Codebuddy.Validate.Valid.{
  When, IfGiven, Given, Valid, validate_hadoop_cluster-Valid,
}

or_int-positive : (n d : ℤ) → pos 1 ≤ℤ n → or_int n d ≡ n
or_int-positive (pos n) d h = ground arith
or_int-positive (negsuc n) d h = ground arith

resource_manager_ha_kept :
    (o : Option HaConfig)
    → is_resource_manager_ha (when_given default_ha o) ≡ is_resource_manager_ha o
unfolding is_resource_manager_ha default_ha default_resource_manager_ha
resource_manager_ha_kept none = refl
resource_manager_ha_kept (some ha) = mode ha.resource_manager_ha
  where
    mode :
        (o : Option ResourceManagerHaConfig)
        → resource_manager_ha_of (when_given default_resource_manager_ha o)
          ≡ resource_manager_ha_of o
    mode none = refl
    mode (some x) = elim (Bool-cases x.enabled) [ inl e ↦ simp e | inr e ↦ simp e ]

when_true : {P : Type 0} (b : Bool) → b ≡ true → When b P → P
when_true true e h = h
when_true false e h = absurd (false≢true e)

when_kept : {P Q : Type 0} (b c : Bool) → c ≡ b → (P → Q) → When b P → When c Q
when_kept true true e f h = f h
when_kept true false e f h = tt
when_kept false true e f h = absurd (false≢true (sym e))
when_kept false false e f h = tt

name_node_kept :
    (c : HadoopClusterSpec) (o : Option NameNodeSpec)
    → IfGiven (λ n. n.replicas ≡ pos 2) o
    → IfGiven (λ n. n.replicas ≡ pos 2) (when_given (default_name_node c) o)
unfolding default_name_node
name_node_kept c none h = tt
name_node_kept c (some n) h = rw h refl

resource_manager_kept :
    (c : HadoopClusterSpec) (o : Option ResourceManagerSpec)
    → IfGiven (λ n. n.replicas ≡ pos 2) o
    → IfGiven (λ n. n.replicas ≡ pos 2) (when_given (default_resource_manager c) o)
unfolding default_resource_manager
resource_manager_kept c none h = tt
resource_manager_kept c (some n) h = rw h refl

journal_node_kept :
    (c : HadoopClusterSpec) (ha : Bool) (o : Option JournalNodeSpec)
    → Given (λ j. pos 3 ≤ℤ j.replicas) o
    → Given
        (λ j. pos 3 ≤ℤ j.replicas)
        (enable_journal_node ha (when_given (default_journal_node c) o))
unfolding default_journal_node enable_journal_node
journal_node_kept c ha none h = absurd h
journal_node_kept c true (some j) h = rw (or_int-positive j.replicas (pos 3) (omega arith)) h
journal_node_kept c false (some j) h = rw (or_int-positive j.replicas (pos 3) (omega arith)) h

data_node_kept :
    (c : HadoopClusterSpec) (o : Option DataNodeSpec)
    → IfGiven (λ d. pos 1 ≤ℤ d.replicas) o
    → IfGiven (λ d. pos 1 ≤ℤ d.replicas) (when_given (default_data_node c) o)
unfolding default_data_node
data_node_kept c none h = tt
data_node_kept c (some d) h = rw (or_int-positive d.replicas (pos 3) h) h

present_kept :
    {A : Type 0} (f : A → A) (o : Option A)
    → Given (λ _. Unit {0}) o
    → Given (λ _. Unit {0}) (when_given f o)
present_kept f none h = absurd h
present_kept f (some a) h = tt

h_base_kept :
    (c : HadoopClusterSpec) (o : Option HBaseSpec)
    → IfGiven
        (λ h.
          When h.enabled
            (Given (λ _. Unit {0}) h.master_spec × Given (λ _. Unit {0}) h.region_server_spec))
        o
    → IfGiven
        (λ h.
          When h.enabled
            (Given (λ _. Unit {0}) h.master_spec × Given (λ _. Unit {0}) h.region_server_spec))
        (when_given (default_h_base c) o)
unfolding default_h_base
h_base_kept c none h = tt
h_base_kept c (some b) h = elim (Bool-cases b.enabled) [
  | inl e ↦
      let parts = when_true b.enabled e h in
      rw e (present_kept _ b.master_spec parts.0, present_kept _ b.region_server_spec parts.1)
  | inr e ↦ rw e tt
]

factor_kept :
    (c : HadoopClusterSpec) (factor : ℤ) (o : Option DataNodeSpec)
    → IfGiven (λ d. pos 1 ≤ℤ d.replicas) o
    → IfGiven (λ d. factor ≤ℤ d.replicas) o
    → IfGiven (λ d. factor ≤ℤ d.replicas) (when_given (default_data_node c) o)
unfolding default_data_node
factor_kept c factor none h k = tt
factor_kept c factor (some d) h k = rw (or_int-positive d.replicas (pos 3) h) k

cluster_config_kept :
    (c : HadoopClusterSpec) (k : Option ClusterConfigSpec) (o : Option DataNodeSpec)
    → IfGiven (λ d. pos 1 ≤ℤ d.replicas) o
    → IfGiven
        (λ k. (pos 1 ≤ℤ k.replication_factor) × IfGiven (λ d. k.replication_factor ≤ℤ d.replicas) o)
        k
    → IfGiven
        (λ k.
          (pos 1 ≤ℤ k.replication_factor)
          × IfGiven (λ d. k.replication_factor ≤ℤ d.replicas) (when_given (default_data_node c) o))
        (when_given default_cluster_config k)
unfolding default_cluster_config
cluster_config_kept c none o d h = tt
cluster_config_kept c (some k) o d h =
    rw (or_int-positive k.replication_factor (pos 3) h.0)
      (h.0, factor_kept c k.replication_factor o d h.1)

default-Valid : (s : HadoopClusterSpec) → Valid s → Valid (default s)
unfolding default
default-Valid s v = (
  when_kept (is_name_node_ha s.ha) _ (name_node_ha_kept s.ha)
      (λ h. (
        name_node_kept s s.name_node_spec h.0,
        journal_node_kept s (is_name_node_ha s.ha) s.journal_node_spec h.1,
      ))
      v.0,
  (
    when_kept (is_resource_manager_ha s.ha) _ (resource_manager_ha_kept s.ha)
        (resource_manager_kept s s.resource_manager_spec) v.1.0,
    (
      data_node_kept s s.data_node_spec v.1.1.0,
      (
        h_base_kept s s.h_base_spec v.1.1.1.0,
        cluster_config_kept s s.cluster_config s.data_node_spec v.1.1.0 v.1.1.1.1,
      ),
    ),
  ),
)

-- A spec that is accepted as it stands is accepted after defaulting.
pub default-accepted :
    (s : HadoopClusterSpec)
    → validate_hadoop_cluster s ≡ accepted
    → validate_hadoop_cluster (default s) ≡ accepted
default-accepted s a =
    (validate_hadoop_cluster-Valid (default s)).1
      (default-Valid s ((validate_hadoop_cluster-Valid s).0 a))

is_pos_two : ℤ → Bool
is_pos_two n = eq_ℤ n (pos 2)

one≢two : pos 1 ≡ pos 2 → ⊥
unfolding is_pos_two
one≢two e = false≢true (ap is_pos_two e)

one_name_node :
    (c : HadoopClusterSpec) (o : Option NameNodeSpec) (n : NameNodeSpec)
    → o ≡ some n
    → n.replicas ≡ pos 0
    → IfGiven (λ n. n.replicas ≡ pos 2) (when_given (default_name_node c) o)
    → ⊥
unfolding default_name_node
one_name_node c o n e r h = one≢two (sym (ap (λ x. or_int x (pos 1)) r) ∙ (rw e at h))

-- In HA mode a NameNode whose replicas are not given has one after defaulting, for which
-- validation rejects the cluster.
pub defaulted_ha-rejected :
    (s : HadoopClusterSpec) (n : NameNodeSpec)
    → is_name_node_ha s.ha ≡ true
    → s.name_node_spec ≡ some n
    → n.replicas ≡ pos 0
    → ¬ (validate_hadoop_cluster (default s) ≡ accepted)
unfolding default
defaulted_ha-rejected s n ha e r accept =
    one_name_node s s.name_node_spec n e r
      (when_true _ (name_node_ha_kept s.ha ∙ ha)
        ((validate_hadoop_cluster-Valid (default s)).0 accept).0).0
