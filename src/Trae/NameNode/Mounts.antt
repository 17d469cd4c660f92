-- ===== src/Trae/NameNode/Mounts.antt =====
-- The volumes of the NameNode's pod and the mounts of its containers.

use work_script.Prelude.{◌≡◌, refl, sym, ap, ◌∙◌, List, [], ◌∷◌, ◌++◌, map}
use work_script.Trae.Types.{ConfigMapSpec}
use work_script.Trae.Api
use work_script.Trae.NameNode.Options.{
  given_volume, given_mount, mounting, with_config_map, with_config_maps,
}

pub append_assoc : {A : Type 0} (xs ys zs : List A) → (xs ++ ys) ++ zs ≡ xs ++ (ys ++ zs)
append_assoc [] ys zs = refl
append_assoc (x ∷ xs) ys zs = ap (λ l. x ∷ l) (append_assoc xs ys zs)

append-nil : {A : Type 0} (xs : List A) → xs ++ [] ≡ xs
append-nil [] = refl
append-nil (x ∷ xs) = ap (λ l. x ∷ l) (append-nil xs)

-- A container with the mounts of the config maps after its own.
abbrev pub mounting_all : List ConfigMapSpec → Api.Container → Api.Container
mounting_all ms c = record c { volume_mounts = c.volume_mounts ++ map given_mount ms }

mounted :
    (m : ConfigMapSpec) (ms : List ConfigMapSpec) (cs : List Api.Container)
    → map (mounting_all ms) (map (mounting m) cs) ≡ map (mounting_all (m ∷ ms)) cs
mounted m ms [] = refl
mounted m ms (c ∷ cs) = λ i.
    record c {
      volume_mounts = append_assoc c.volume_mounts (given_mount m ∷ []) (map given_mount ms) i;
    }
    ∷ mounted m ms cs i

unmounted : (cs : List Api.Container) → map (mounting_all []) cs ≡ cs
unmounted [] = refl
unmounted (c ∷ cs) = λ i. record c { volume_mounts = append-nil c.volume_mounts i } ∷ unmounted cs i

-- Each config map that the cluster lists is, in order, one more volume of the pod and one more mount
-- of every container and init container; nothing else of the pod changes.
pub with_config_maps-Mounts :
    (ms : List ConfigMapSpec) (p : Api.PodSpec)
    → with_config_maps ms p ≡ record p {
      volumes = p.volumes ++ map given_volume ms;
      containers = map (mounting_all ms) p.containers;
      init_containers = map (mounting_all ms) p.init_containers;
    }
unfolding with_config_maps with_config_map
with_config_maps-Mounts [] p = sym λ i. record p {
  volumes = append-nil p.volumes i;
  containers = unmounted p.containers i;
  init_containers = unmounted p.init_containers i;
}
with_config_maps-Mounts (m ∷ ms) p = with_config_maps-Mounts ms (with_config_map m p) ∙ (λ i.
    record p {
      volumes = append_assoc p.volumes (given_volume m ∷ []) (map given_volume ms) i;
      containers = mounted m ms p.containers i;
      init_containers = mounted m ms p.init_containers i;
    })
