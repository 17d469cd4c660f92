-- ===== src/Trae/NameNode/Claims.antt =====
-- pkg/resources/namenode.go: the loop over the persistent volumes. Each claim points at the storage
-- class of the loop variable, not of a copy. In Go 1.20, which go.mod asks for, all rounds share
-- that variable: when the set is read, every pointer leads to the class of the last volume.
use work_script.Prelude.{
  String, Option, none, some, List, [], ◌∷◌, Dict, insert, map, if◌then◌else◌,
}
use work_script.Kube.{Quantity}
use work_script.Trae.Types.{PersistentVolumeSpec, ResourceList}
use work_script.Trae.Api
use work_script.Trae.Env.{Env}
use work_script.Trae.Workload.{Built, built, panicked, and_then}

-- if Requests.CPU != 0 { Requests = … }; the map is nil otherwise.
abbrev pub cpu_requests : Env → ResourceList → Option (Dict Quantity)
cpu_requests env r =
    if env.is_nonzero r.cpu then some (("cpu", r.cpu) ∷ ("memory", r.memory) ∷ []) else none

-- if Requests.Storage() != nil { Requests["storage"] = … }, which panics on a nil map.
abbrev pub with_storage : Option Quantity → Option (Dict Quantity) → Built (Option (Dict Quantity))
with_storage none requests = built requests
with_storage (some q) none = panicked "assignment to entry in nil map"
with_storage (some q) (some requests) = built (some (insert "storage" q requests))

-- One round; the pointer to the storage class is followed later.
unfoldable pub new_claim : Env → PersistentVolumeSpec → Built Api.PersistentVolumeClaim
unfolding insert
new_claim env pv =
    let asked = pv.persistent_volume_claim_spec.resources.requests in
    and_then (with_storage (env.storage_request asked) (cpu_requests env asked)) λ requests.
      built (record {
        name = pv.name;
        annotations = pv.annotations;
        access_modes = pv.persistent_volume_claim_spec.access_modes;
        requests = requests;
        storage_class_name = "";
        volume_name = pv.persistent_volume_claim_spec.volume_name;
      })

-- The rounds: the class that the variable holds at the end, and the claims in order.
unfoldable pub claims_loop :
    Env → String → List PersistentVolumeSpec → Built (String × List Api.PersistentVolumeClaim)
unfolding new_claim
claims_loop env class [] = built (class, [])
claims_loop env class (pv ∷ pvs) = and_then (new_claim env pv) λ c.
    and_then (claims_loop env pv.persistent_volume_claim_spec.storage_class_name pvs)
      λ (last, cs). built (last, c ∷ cs)

abbrev pub with_class : String → Api.PersistentVolumeClaim → Api.PersistentVolumeClaim
with_class class c = record c { storage_class_name = class }

unfoldable pub new_claims : Env → List PersistentVolumeSpec → Built (List Api.PersistentVolumeClaim)
unfolding claims_loop
new_claims env pvs =
    and_then (claims_loop env "" pvs) λ (last, cs). built (map (with_class last) cs)
