-- ===== src/Trae/NameNode/Options.antt =====
-- pkg/resources/namenode.go: the options of the cluster that are applied to the NameNode's pod.
-- `Containers[0]` is the one container of the set.
use work_script.Prelude.{ℤ, Option, none, some, List, [], ◌∷◌, ◌++◌, map}
use work_script.Kube.{Probe, VolumeMount, Volume, config_map_source}
use work_script.Trae.Types.{
  SecurityContext, ContainerSecurityContext, EnvVar, EnvVarSource, ConfigMapKeySelector,
  SecretKeySelector, ProbePolicy, LocalObjectReference, Toleration, ConfigMapSpec, HostAlias,
  NameNodeSpec,
}
use work_script.Trae.Api
use work_script.Trae.Affinity.{map_option, full_affinity, with_affinity}

abbrev pub first : (Api.Container → Api.Container) → List Api.Container → List Api.Container
first f [] = []
first f (c ∷ cs) = f c ∷ cs

abbrev pub on_first : (Api.Container → Api.Container) → Api.PodSpec → Api.PodSpec
on_first f p = record p { containers = first f p.containers }

unfoldable pub with_security_context : Option SecurityContext → Api.PodSpec → Api.PodSpec
with_security_context none p = p
with_security_context (some s) p = record p {
  security_context = some (record {
    run_as_user = s.run_as_user;
    run_as_group = s.run_as_group;
    run_as_non_root = s.run_as_non_root;
    fs_group = s.fs_group;
  });
}

unfoldable pub with_container_security_context :
    Option ContainerSecurityContext → Api.PodSpec → Api.PodSpec
with_container_security_context none p = p
with_container_security_context (some s) p =
    on_first
      (λ c. record c {
        security_context = some (record {
          run_as_user = s.run_as_user;
          run_as_group = s.run_as_group;
          run_as_non_root = s.run_as_non_root;
          read_only_root_filesystem = s.read_only_root_filesystem;
          privileged = s.privileged;
        });
      })
      p

abbrev pub from_config_map : ConfigMapKeySelector → Api.EnvVarSource
from_config_map r = record {
  config_map_key_ref = some (record { name = r.name; key = r.key; optional = r.optional });
  secret_key_ref = none;
}

abbrev pub from_secret : SecretKeySelector → Api.EnvVarSource
from_secret r = record {
  config_map_key_ref = none;
  secret_key_ref = some (record { name = r.name; key = r.key; optional = r.optional });
}

-- A reference that is given replaces the source which stands there.
abbrev pub replaced :
    {A : Type 0}
    → (A → Api.EnvVarSource)
    → Option A
    → Option Api.EnvVarSource
    → Option Api.EnvVarSource
replaced make none source = source
replaced make (some r) source = some (make r)

-- The two references one after the other.
unfoldable pub env_source : Option EnvVarSource → Option Api.EnvVarSource
env_source none = none
env_source (some s) =
    replaced from_secret s.secret_key_ref (replaced from_config_map s.config_map_key_ref none)

unfoldable pub env_var : EnvVar → Api.EnvVar
unfolding env_source
env_var e = record { name = e.name; value = e.value; value_from = env_source e.value_from }

unfoldable pub with_env_vars : List EnvVar → Api.PodSpec → Api.PodSpec
unfolding env_var
with_env_vars vars = on_first (λ c. record c { env = c.env ++ map env_var vars })

abbrev pub given_or : Option ℤ → ℤ → ℤ
given_or none old = old
given_or (some n) old = n

unfoldable pub with_policy : Option ProbePolicy → Probe → Probe
with_policy none probe = probe
with_policy (some policy) probe = record probe {
  period_seconds = given_or policy.period_seconds probe.period_seconds;
  timeout_seconds = given_or policy.timeout_seconds probe.timeout_seconds;
  failure_threshold = given_or policy.failure_threshold probe.failure_threshold;
}

unfoldable pub with_probe_policies :
    Option ProbePolicy → Option ProbePolicy → Api.PodSpec → Api.PodSpec
unfolding with_policy
with_probe_policies readiness liveness = on_first λ c. record c {
  readiness_probe = map_option (with_policy readiness) c.readiness_probe;
  liveness_probe = map_option (with_policy liveness) c.liveness_probe;
}

abbrev pub pull_secret : LocalObjectReference → Api.LocalObjectReference
pull_secret r = record { name = r.name }

unfoldable pub with_pull_secrets : List LocalObjectReference → Api.PodSpec → Api.PodSpec
with_pull_secrets rs p = record p {
  image_pull_secrets = p.image_pull_secrets ++ map pull_secret rs;
}

abbrev pub toleration : Toleration → Api.Toleration
toleration t = record {
  key = t.key;
  operator = t.operator;
  value = t.value;
  effect = t.effect;
  toleration_seconds = t.toleration_seconds;
}

unfoldable pub with_tolerations : List Toleration → Api.PodSpec → Api.PodSpec
with_tolerations ts p = record p { tolerations = p.tolerations ++ map toleration ts }

abbrev pub given_volume : ConfigMapSpec → Volume
given_volume c = record { name = c.config_map_name; source = config_map_source c.config_map_name }

abbrev pub given_mount : ConfigMapSpec → VolumeMount
given_mount c = record { name = c.config_map_name; mount_path = c.mount_path; sub_path = "" }

abbrev pub mounting : ConfigMapSpec → Api.Container → Api.Container
mounting m c = record c { volume_mounts = c.volume_mounts ++ (given_mount m ∷ []) }

-- One round of the loop over the config maps.
unfoldable pub with_config_map : ConfigMapSpec → Api.PodSpec → Api.PodSpec
with_config_map m p = record p {
  volumes = p.volumes ++ (given_volume m ∷ []);
  containers = map (mounting m) p.containers;
  init_containers = map (mounting m) p.init_containers;
}

unfoldable pub with_config_maps : List ConfigMapSpec → Api.PodSpec → Api.PodSpec
unfolding with_config_map
with_config_maps [] p = p
with_config_maps (m ∷ ms) p = with_config_maps ms (with_config_map m p)

abbrev pub host_alias : HostAlias → Api.HostAlias
host_alias a = record { ip = a.ip; hostnames = a.hostnames }

unfoldable pub with_host_aliases : List HostAlias → Api.PodSpec → Api.PodSpec
with_host_aliases hs p = record p { host_aliases = p.host_aliases ++ map host_alias hs }

-- The options in the order of the code.
unfoldable pub with_options : NameNodeSpec → Api.PodSpec → Api.PodSpec
unfolding with_security_context with_container_security_context with_env_vars with_probe_policies
    with_pull_secrets with_tolerations with_config_maps with_host_aliases full_affinity
with_options s p =
    let p1 =
      with_container_security_context s.container_security_context
        (with_security_context s.security_context p) in
    let p2 = with_env_vars s.env_vars p1 in
    let p3 = with_probe_policies s.readiness_probe_policy s.liveness_probe_policy p2 in
    let p4 = with_tolerations s.tolerations (with_pull_secrets s.image_pull_secrets p3) in
    let p5 = with_host_aliases s.host_aliases (with_config_maps s.config_maps p4) in
    with_affinity full_affinity s.affinity p5
