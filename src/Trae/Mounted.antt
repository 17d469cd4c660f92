-- ===== src/Trae/Mounted.antt =====
-- Whether the mounts of the NameNode's pod name volumes that it has.

use work_script.Prelude.{
  All, ◌≡◌, refl, sym, ap, ◌∙◌, String, Bool, true, ◌&&◌, ◌||◌, Option, none, some, List, [], ◌∷◌,
  ◌++◌, map, eq_iff, arith,
}
use work_script.Checks.{has_text, every}
use work_script.Kube.{VolumeMount, Volume}
use work_script.Trae.Types.{
  HadoopCluster, NameNodeSpec, SecurityContext, ContainerSecurityContext, AffinitySpec,
  ConfigMapSpec, PersistentVolumeSpec,
}
use work_script.Trae.Api
use work_script.Trae.Env.{Env}
use work_script.Trae.NameNode.Base.{
  init_name_node, name_node_container, name_node_pod, name_node_set,
}
use work_script.Trae.NameNode.Options.{
  first, on_first, given_volume, given_mount, with_security_context,
  with_container_security_context, with_env_vars, with_probe_policies, with_pull_secrets,
  with_tolerations, with_host_aliases, with_config_maps, with_options,
}
use work_script.Trae.Affinity.{full_affinity, with_affinity}
use work_script.Trae.Workload.{Built, built, panicked, and_then}
use work_script.Trae.NameNode.Claims.{new_claims}
use work_script.Trae.NameNode.Storage.{
  OfBuilt, Identity, identity_of, asked_by, last_class, new_claims-Matches,
}
use work_script.Trae.NameNode.Mounts.{append_assoc, mounting_all, with_config_maps-Mounts}
use work_script.Trae.NameNode.{new_name_node_stateful_set}

abbrev pub mounts : List Api.Container → List (List VolumeMount)
mounts = map Api.Container.volume_mounts

-- The volumes of a pod, the mounts of its init containers and of its containers.
abbrev pub Frame : Type 0
Frame = List Volume × List (List VolumeMount) × List (List VolumeMount)

abbrev pub frame : Api.PodSpec → Frame
frame p = (p.volumes, mounts p.init_containers, mounts p.containers)

abbrev pub in_names : List String → VolumeMount → Bool
in_names names m = has_text m.name names

-- Every mount names one of the volumes, or of the claims.
abbrev pub resolves : Frame → List String → Bool
resolves (volumes, inits, containers) claims =
    let names = map Volume.name volumes ++ claims in
    every (every (in_names names)) inits && every (every (in_names names)) containers

abbrev pub mounts_resolve : Api.StatefulSet → Bool
mounts_resolve set =
    resolves (frame set.spec.template.spec)
      (map Api.PersistentVolumeClaim.name set.spec.volume_claim_templates)

-- The options but the config maps leave the frame.
on_first-frame :
    (f : Api.Container → Api.Container) (p : Api.PodSpec)
    → ((c : Api.Container) → Api.Container.volume_mounts (f c) ≡ c.volume_mounts)
    → frame (on_first f p) ≡ frame p
on_first-frame f p h = λ i. (p.volumes, mounts p.init_containers, first_same p.containers i)
  where
    first_same : (cs : List Api.Container) → mounts (first f cs) ≡ mounts cs
    first_same [] = refl
    first_same (c ∷ cs) = λ i. h c i ∷ mounts cs

security_context-frame :
    (o : Option SecurityContext) (p : Api.PodSpec) → frame (with_security_context o p) ≡ frame p
unfolding with_security_context
security_context-frame none p = refl
security_context-frame (some s) p = refl

container_security_context-frame :
    (o : Option ContainerSecurityContext) (p : Api.PodSpec)
    → frame (with_container_security_context o p) ≡ frame p
unfolding with_container_security_context
container_security_context-frame none p = refl
container_security_context-frame (some s) p = on_first-frame _ p (λ _. refl)

affinity-frame :
    (o : Option AffinitySpec) (p : Api.PodSpec) → frame (with_affinity full_affinity o p) ≡ frame p
affinity-frame none p = refl
affinity-frame (some a) p = refl

-- The config maps extend it.
abbrev extended : List ConfigMapSpec → Frame → Frame
extended ms (volumes, inits, containers) = (
  volumes ++ map given_volume ms,
  map (λ l. l ++ map given_mount ms) inits,
  map (λ l. l ++ map given_mount ms) containers,
)

mounts-mounting_all :
    (ms : List ConfigMapSpec) (cs : List Api.Container)
    → mounts (map (mounting_all ms) cs) ≡ map (λ l. l ++ map given_mount ms) (mounts cs)
mounts-mounting_all ms [] = refl
mounts-mounting_all ms (c ∷ cs) =
    λ i. (c.volume_mounts ++ map given_mount ms) ∷ mounts-mounting_all ms cs i

config_maps-frame :
    (ms : List ConfigMapSpec) (p : Api.PodSpec)
    → frame (with_config_maps ms p) ≡ extended ms (frame p)
config_maps-frame ms p = ap frame (with_config_maps-Mounts ms p) ∙ (λ i. (
  p.volumes ++ map given_volume ms,
  mounts-mounting_all ms p.init_containers i,
  mounts-mounting_all ms p.containers i,
))

options-frame :
    (s : NameNodeSpec) (p : Api.PodSpec)
    → frame (with_options s p) ≡ extended s.config_maps (frame p)
unfolding with_options with_env_vars with_probe_policies with_pull_secrets with_tolerations
    with_host_aliases
options-frame s p =
    let p0 = with_security_context s.security_context p in
    let p1 = with_container_security_context s.container_security_context p0 in
    let p2 = with_env_vars s.env_vars p1 in
    let p3 = with_probe_policies s.readiness_probe_policy s.liveness_probe_policy p2 in
    let p4 = with_tolerations s.tolerations (with_pull_secrets s.image_pull_secrets p3) in
    affinity-frame s.affinity (with_host_aliases s.host_aliases (with_config_maps s.config_maps p4))
    ∙ config_maps-frame s.config_maps p4
    ∙ ap (extended s.config_maps) (
        on_first-frame _ p2 (λ _. refl)
        ∙ on_first-frame _ p1 (λ _. refl)
        ∙ container_security_context-frame s.container_security_context p0
        ∙ security_context-frame s.security_context p)

every-append :
    {A : Type 0} (p : A → Bool) (xs ys : List A) → every p (xs ++ ys) ≡ (every p xs && every p ys)
unfolding every
every-append p [] ys = refl
every-append p (x ∷ xs) ys = ground (arith, every-append p xs ys)

has_text-append :
    (s : String) (xs ys : List String) → has_text s (xs ++ ys) ≡ (has_text s xs || has_text s ys)
unfolding has_text
has_text-append s [] ys = refl
has_text-append s (x ∷ xs) ys = ground (arith, has_text-append s xs ys)

found_behind :
    (n : String) (before behind : List String) → has_text n (before ++ (n ∷ behind)) ≡ true
unfolding has_text
found_behind n [] behind = rw ((eq_iff n n).1 refl) refl
found_behind n (x ∷ before) behind = ground (arith, found_behind n before behind)

-- The names of config maps that stand among others are found there.
given_in :
    (ms : List ConfigMapSpec) (before after : List String)
    → every
        (λ m. in_names (before ++ (map ConfigMapSpec.config_map_name ms ++ after)) m)
        (map given_mount ms)
      ≡ true
unfolding every has_text
given_in [] before after = refl
given_in (m ∷ ms) before after =
    let n = m.config_map_name in
    let behind = map ConfigMapSpec.config_map_name ms ++ after in
    let moved = append_assoc before (n ∷ []) behind in
    (λ i.
      found_behind n before behind i && every (λ x. in_names (sym moved i) x) (map given_mount ms))
    ∙ given_in ms (before ++ (n ∷ [])) after

names-given :
    (ms : List ConfigMapSpec)
    → map Volume.name (map given_volume ms) ≡ map ConfigMapSpec.config_map_name ms
names-given [] = refl
names-given (m ∷ ms) = λ i. m.config_map_name ∷ names-given ms i

-- The mounts of the two containers of the set: all but that of the data name its own two volumes.
own_resolve :
    (c : HadoopCluster) (names : List String) (ms : List ConfigMapSpec)
    → every (in_names ("hadoop-config-volume" ∷ "hadoop-logs" ∷ names)) (map given_mount ms) ≡ true
    → (every
          (every (in_names ("hadoop-config-volume" ∷ "hadoop-logs" ∷ names)))
          (map (λ l. l ++ map given_mount ms) (mounts (name_node_pod c).init_containers))
        && every
            (every (in_names ("hadoop-config-volume" ∷ "hadoop-logs" ∷ names)))
            (map (λ l. l ++ map given_mount ms) (mounts (name_node_pod c).containers)))
      ≡ has_text "hadoop-nn-data" names
unfolding name_node_pod init_name_node name_node_container every has_text
own_resolve c names ms h = rw h (ground arith)

resolves-extended :
    (c : HadoopCluster) (ms : List ConfigMapSpec) (claims : List String)
    → resolves (extended ms (frame (name_node_pod c))) claims
      ≡ has_text "hadoop-nn-data" (map ConfigMapSpec.config_map_name ms ++ claims)
unfolding name_node_pod
resolves-extended c ms claims =
    ap
      (λ given.
        let names = "hadoop-config-volume" ∷ "hadoop-logs" ∷ (given ++ claims) in
        every (every (in_names names))
          (map (λ l. l ++ map given_mount ms) (mounts (name_node_pod c).init_containers))
        && every (every (in_names names))
            (map (λ l. l ++ map given_mount ms) (mounts (name_node_pod c).containers)))
      (names-given ms)
    ∙ own_resolve c (map ConfigMapSpec.config_map_name ms ++ claims) ms
        (given_in ms ("hadoop-config-volume" ∷ "hadoop-logs" ∷ []) claims)

abbrev name_in : Identity → String
name_in (n, _, _) = n

name_of :
    (cs : List Api.PersistentVolumeClaim) (pvs : List PersistentVolumeSpec)
    → map identity_of cs ≡ map asked_by pvs
    → map Api.PersistentVolumeClaim.name cs ≡ map PersistentVolumeSpec.name pvs
name_of cs pvs h = sym (firsts identity_of cs) ∙ ap (map name_in) h ∙ firsts asked_by pvs
  where
    firsts :
        {A : Type 0} (g : A → Identity) (xs : List A)
        → map name_in (map g xs) ≡ map (λ x. name_in (g x)) xs
    firsts g [] = refl
    firsts g (x ∷ xs) = ap (λ l. name_in (g x) ∷ l) (firsts g xs)

-- If the claims can be built, the mounts of the NameNode's pod name volumes or claims that it has
-- exactly if the cluster lists a config map or a persistent volume named hadoop-nn-data.
pub mounts_resolve-new_name_node_stateful_set :
    (env : Env) (c : HadoopCluster)
    → OfBuilt
        (λ set.
          mounts_resolve set
          ≡ has_text "hadoop-nn-data" (
              map ConfigMapSpec.config_map_name c.spec.name_node.config_maps
              ++ map PersistentVolumeSpec.name c.spec.name_node.persistent_volumes))
        (new_name_node_stateful_set env c)
unfolding new_name_node_stateful_set name_node_set
mounts_resolve-new_name_node_stateful_set env c =
    by_claims (new_claims env c.spec.name_node.persistent_volumes)
      (new_claims-Matches env c.spec.name_node.persistent_volumes)
  where
    set_of : List Api.PersistentVolumeClaim → Api.StatefulSet
    set_of = name_node_set env c (with_options c.spec.name_node (name_node_pod c))

    by_claims :
        (r : Built (List Api.PersistentVolumeClaim))
        → OfBuilt
            (λ cs.
              (map identity_of cs ≡ map asked_by c.spec.name_node.persistent_volumes)
              × All
                  (λ x.
                    Api.PersistentVolumeClaim.storage_class_name x
                    ≡ last_class c.spec.name_node.persistent_volumes)
                  cs)
            r
        → OfBuilt
            (λ set.
              mounts_resolve set
              ≡ has_text "hadoop-nn-data" (
                  map ConfigMapSpec.config_map_name c.spec.name_node.config_maps
                  ++ map PersistentVolumeSpec.name c.spec.name_node.persistent_volumes))
            (and_then r λ cs. built (set_of cs))
    by_claims (panicked s) h = tt
    by_claims (built cs) (h, _) =
        ap (λ x. resolves x (map Api.PersistentVolumeClaim.name cs))
          (options-frame c.spec.name_node (name_node_pod c))
        ∙ resolves-extended c c.spec.name_node.config_maps (map Api.PersistentVolumeClaim.name cs)
        ∙ ap
            (λ x.
              has_text "hadoop-nn-data"
                (map ConfigMapSpec.config_map_name c.spec.name_node.config_maps ++ x))
            (name_of cs c.spec.name_node.persistent_volumes h)
