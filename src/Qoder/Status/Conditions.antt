-- ===== src/Qoder/Status/Conditions.antt =====
-- The conditions of a status, and what the status that is sent reports.

use mathlib.Core.Bool.{false≢true}
use work_script.Prelude.{
  ◌≡◌, refl, sym, ◌∙◌, ℤ, pos, ◌<ℤ◌, arith, Bool, true, false, ◌&&◌, ◌⊎◌, inl, inr, Bool-cases,
  ltb→lt, lt→ltb, Option, none, some, List, [], ◌∷◌, if◌then◌else◌,
}
use work_script.Qoder.Types.{
  HadoopCluster, HadoopClusterStatus, ClusterCondition, ready, status_true, status_false,
}
use work_script.Qoder.Program.{Call, update_status}
use work_script.Qoder.Status.{
  is_ready_condition, set_ready_condition, ready_condition, with_ready_condition, is_cluster_ready,
}

-- The first Ready condition.
unfoldable pub find_ready : List ClusterCondition → Option ClusterCondition
find_ready [] = none
find_ready (c ∷ cs) = if is_ready_condition c.condition_type then some c else find_ready cs

-- The conditions of other types.
unfoldable pub other_conditions : List ClusterCondition → List ClusterCondition
other_conditions [] = []
other_conditions (c ∷ cs) =
    if is_ready_condition c.condition_type then other_conditions cs else c ∷ other_conditions cs

find-set :
    (c : ClusterCondition) (cs : List ClusterCondition)
    → is_ready_condition c.condition_type ≡ true
    → find_ready (set_ready_condition c cs) ≡ some c
unfolding find_ready set_ready_condition
find-set c [] r = ground arith
find-set c (d ∷ ds) r = ground (arith, find-set c ds r)

others-set :
    (c : ClusterCondition) (cs : List ClusterCondition)
    → is_ready_condition c.condition_type ≡ true
    → other_conditions (set_ready_condition c cs) ≡ other_conditions cs
unfolding other_conditions set_ready_condition
others-set c [] r = ground arith
others-set c (d ∷ ds) r = ground (arith, others-set c ds r)

set-set :
    (c d : ClusterCondition) (cs : List ClusterCondition)
    → is_ready_condition d.condition_type ≡ true
    → set_ready_condition c (set_ready_condition d cs) ≡ set_ready_condition c cs
unfolding set_ready_condition
set-set c d [] r = ground arith
set-set c d (e ∷ es) r = ground (arith, set-set c d es r)

-- Setting the Ready condition makes it the one that is found, keeps every condition of another
-- type in its place among them, and forgets what an earlier setting wrote.
pub set_ready_condition-lens :
    (c d : ClusterCondition) (cs : List ClusterCondition)
    → is_ready_condition c.condition_type ≡ true
    → is_ready_condition d.condition_type ≡ true
    → (find_ready (set_ready_condition c cs) ≡ some c)
      × (other_conditions (set_ready_condition c cs) ≡ other_conditions cs)
      × (set_ready_condition c (set_ready_condition d cs) ≡ set_ready_condition c cs)
set_ready_condition-lens c d cs r s = (find-set c cs r, others-set c cs r, set-set c d cs s)

-- Each of the four components has a ready replica.
abbrev pub FourReady : HadoopClusterStatus → Type 0
FourReady s =
    (pos 0 <ℤ s.name_node.ready_replicas)
    × (pos 0 <ℤ s.data_node.ready_replicas)
    × (pos 0 <ℤ s.resource_manager.ready_replicas)
    × (pos 0 <ℤ s.node_manager.ready_replicas)

and-true : (a b : Bool) → (a && b) ≡ true → (a ≡ true) × (b ≡ true)
and-true true b e = (refl, e)
and-true false b e = absurd (false≢true e)

pub is_cluster_ready-FourReady : (s : HadoopClusterStatus) → is_cluster_ready s ≡ true → FourReady s
unfolding is_cluster_ready
is_cluster_ready-FourReady s e =
    let (a, e1) = and-true _ _ e in
    let (b, e2) = and-true _ _ e1 in
    let (c, d) = and-true _ _ e2 in (ltb→lt _ _ a, ltb→lt _ _ b, ltb→lt _ _ c, ltb→lt _ _ d)

FourReady-is_cluster_ready : (s : HadoopClusterStatus) → FourReady s → is_cluster_ready s ≡ true
unfolding is_cluster_ready
FourReady-is_cluster_ready s h =
    rw (lt→ltb _ _ h.0, lt→ltb _ _ h.1, lt→ltb _ _ h.2, lt→ltb _ _ h.3) refl

-- A Ready condition that is true of a status with a ready replica of each component, and false of
-- any other status.
abbrev pub SaysReady : HadoopClusterStatus → ClusterCondition → Type 0
SaysReady s c =
    (c.condition_type ≡ ready)
    × (((c.status ≡ status_true) × (c.reason ≡ "AllComponentsReady") × FourReady s)
        ⊎ ((c.status ≡ status_false) × (c.reason ≡ "ComponentsNotReady") × (¬ FourReady s)))

ready_condition-SaysReady :
    (s : HadoopClusterStatus) (t : ℤ) → SaysReady s (ready_condition (is_cluster_ready s) t)
unfolding ready_condition
ready_condition-SaysReady s t = elim (Bool-cases (is_cluster_ready s)) [
  | inl e ↦ rw e (refl, inl (refl, refl, is_cluster_ready-FourReady s e))
  | inr e ↦ rw e (refl, inr (refl, refl, λ h. false≢true (sym e ∙ FourReady-is_cluster_ready s h)))
]

ready_condition-is_ready :
    (b : Bool) (t : ℤ) → is_ready_condition (ready_condition b t).condition_type ≡ true
unfolding ready_condition
ready_condition-is_ready b t = refl

-- The generation that the pass was given, one Ready condition to be found, which says what the
-- counts of the same status say, and the other conditions as they were.
abbrev pub Reports : HadoopCluster → HadoopCluster → Type 0
Reports c sent =
    (sent.status.observed_generation ≡ c.generation)
    × ((said : ClusterCondition) × (find_ready sent.status.conditions ≡ some said)
        × SaysReady sent.status said)
    × (other_conditions sent.status.conditions ≡ other_conditions c.status.conditions)

abbrev pub SendsReports : HadoopCluster → Call → Type 0
SendsReports c (update_status sent) = Reports c sent
SendsReports c _ = Unit

pub with_ready_condition-Reports :
    (c : HadoopCluster) (s : HadoopClusterStatus) (t : ℤ)
    → s.conditions ≡ c.status.conditions
    → Reports c (with_ready_condition c s t)
unfolding with_ready_condition
with_ready_condition-Reports c s t e = (
  refl,
  (
    ready_condition (is_cluster_ready s) t,
    find-set _ s.conditions (ready_condition-is_ready (is_cluster_ready s) t),
    counted,
  ),
  others-set _ s.conditions (ready_condition-is_ready (is_cluster_ready s) t) ∙ (rw e),
)
  where
    counted : SaysReady (with_ready_condition c s t).status (ready_condition (is_cluster_ready s) t)
    counted = ready_condition-SaysReady s t
