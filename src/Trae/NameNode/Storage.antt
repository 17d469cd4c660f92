-- ===== src/Trae/NameNode/Storage.antt =====
-- The claims of the NameNode, against the volumes that the cluster lists.
use mathlib.Core.Path.{subst}
use work_script.Prelude.{
  ◌≡◌, refl, ◌∙◌, String, Bool, true, false, not, Option-cases, ◌&&◌, ◌||◌, Option, none, some,
  List, [], ◌∷◌, All, map, inl, inr, Bool-cases,
}
use work_script.Trae.Types.{PersistentVolumeSpec}
use work_script.Trae.Api
use work_script.Trae.Env.{Env}
use work_script.Trae.Workload.{Built, built, panicked, and_then, by-and_then}
use work_script.Trae.NameNode.Claims.{
  cpu_requests, with_storage, new_claim, claims_loop, with_class, new_claims,
}

-- The storage class of the last volume.
abbrev pub last_class : List PersistentVolumeSpec → String
last_class [] = ""
last_class (pv ∷ []) = pv.persistent_volume_claim_spec.storage_class_name
last_class (pv ∷ qv ∷ pvs) = last_class (qv ∷ pvs)

-- The name, access modes and bound volume of a claim, and those that a volume asks for.
abbrev pub Identity : Type 0
Identity = String × List String × String

abbrev pub identity_of : Api.PersistentVolumeClaim → Identity
identity_of c = (c.name, c.access_modes, c.volume_name)

abbrev pub asked_by : PersistentVolumeSpec → Identity
asked_by pv = (
  pv.name, pv.persistent_volume_claim_spec.access_modes,
  pv.persistent_volume_claim_spec.volume_name,
)

-- What a predicate says of a value that is built.
abbrev pub OfBuilt : {A : Type 0} → (A → Type 0) → Built A → Type 0
OfBuilt P (built a) = P a
OfBuilt P (panicked s) = Unit

new_claim-identity :
    (env : Env) (pv : PersistentVolumeSpec)
    → OfBuilt (λ c. identity_of c ≡ asked_by pv) (new_claim env pv)
unfolding new_claim
new_claim-identity env pv =
    let asked = pv.persistent_volume_claim_spec.resources.requests in
    by-and_then (OfBuilt (λ c. identity_of c ≡ asked_by pv))
      (with_storage (env.storage_request asked) (cpu_requests env asked)) _ (λ _. refl) (λ _. tt)

abbrev last_from : String → List PersistentVolumeSpec → String
last_from class [] = class
last_from class (pv ∷ pvs) = last_from pv.persistent_volume_claim_spec.storage_class_name pvs

last_from-last_class : (pvs : List PersistentVolumeSpec) → last_from "" pvs ≡ last_class pvs
last_from-last_class [] = refl
last_from-last_class (pv ∷ pvs) = onward pv pvs
  where
    onward :
        (pv : PersistentVolumeSpec) (pvs : List PersistentVolumeSpec)
        → last_from pv.persistent_volume_claim_spec.storage_class_name pvs ≡ last_class (pv ∷ pvs)
    onward pv [] = refl
    onward pv (qv ∷ pvs) = onward qv pvs

-- The rounds from a class on.
claims_loop-Matches :
    (env : Env) (class : String) (pvs : List PersistentVolumeSpec)
    → OfBuilt
        (λ (last, cs). (last ≡ last_from class pvs) × (map identity_of cs ≡ map asked_by pvs))
        (claims_loop env class pvs)
unfolding claims_loop
claims_loop-Matches env class [] = (refl, refl)
claims_loop-Matches env class (pv ∷ pvs) =
    first_round (new_claim env pv)
      (claims_loop env pv.persistent_volume_claim_spec.storage_class_name pvs)
      (new_claim-identity env pv)
      (claims_loop-Matches env pv.persistent_volume_claim_spec.storage_class_name pvs)
  where
    first_round :
        (r : Built Api.PersistentVolumeClaim)
        (rest : Built (String × List Api.PersistentVolumeClaim))
        → OfBuilt (λ c. identity_of c ≡ asked_by pv) r
        → OfBuilt
            (λ (last, cs).
              (last ≡ last_from class (pv ∷ pvs)) × (map identity_of cs ≡ map asked_by pvs))
            rest
        → OfBuilt
            (λ (last, cs).
              (last ≡ last_from class (pv ∷ pvs)) × (map identity_of cs ≡ map asked_by (pv ∷ pvs)))
            (and_then r λ c. and_then rest λ (last, cs). built (last, c ∷ cs))
    first_round (built c) (built (last, cs)) e (l, m) = (l, λ i. e i ∷ m i)
    first_round (built c) (panicked s) e h = tt
    first_round (panicked s) rest e h = tt

classes :
    (class : String) (cs : List Api.PersistentVolumeClaim)
    → All (λ c. Api.PersistentVolumeClaim.storage_class_name c ≡ class) (map (with_class class) cs)
classes class [] = tt
classes class (c ∷ cs) = (refl, classes class cs)

identities :
    (class : String) (cs : List Api.PersistentVolumeClaim)
    → map identity_of (map (with_class class) cs) ≡ map identity_of cs
identities class [] = refl
identities class (c ∷ cs) = λ i. identity_of c ∷ identities class cs i

-- If the claims can be built, there is one for each persistent volume, in order, with its name, access
-- modes and bound volume; but every claim has the storage class of the last volume.
pub new_claims-Matches :
    (env : Env) (pvs : List PersistentVolumeSpec)
    → OfBuilt
        (λ cs.
          (map identity_of cs ≡ map asked_by pvs)
          × All (λ c. Api.PersistentVolumeClaim.storage_class_name c ≡ last_class pvs) cs)
        (new_claims env pvs)
unfolding new_claims
new_claims-Matches env pvs = finish (claims_loop env "" pvs) (claims_loop-Matches env "" pvs)
  where
    finish :
        (r : Built (String × List Api.PersistentVolumeClaim))
        → OfBuilt
            (λ (last, cs). (last ≡ last_from "" pvs) × (map identity_of cs ≡ map asked_by pvs))
            r
        → OfBuilt
            (λ cs.
              (map identity_of cs ≡ map asked_by pvs)
              × All (λ c. Api.PersistentVolumeClaim.storage_class_name c ≡ last_class pvs) cs)
            (and_then r λ (last, cs). built (map (with_class last) cs))
    finish (panicked s) h = tt
    finish (built (last, cs)) (l, m) = (
      identities last cs ∙ m,
      subst
          (λ x.
            All (λ c. Api.PersistentVolumeClaim.storage_class_name c ≡ x)
              (map (with_class last) cs))
          (l ∙ last_from-last_class pvs) (classes last cs),
    )

abbrev pub panics : {A : Type 0} → Built A → Bool
panics (built a) = false
panics (panicked s) = true

abbrev pub is_given : {A : Type 0} → Option A → Bool
is_given none = false
is_given (some a) = true

-- The volume asks for storage and for no CPU.
abbrev pub stores_only : Env → PersistentVolumeSpec → Bool
stores_only env pv =
    let asked = pv.persistent_volume_claim_spec.resources.requests in
    is_given (env.storage_request asked) && not (env.is_nonzero asked.cpu)

abbrev pub some_of : {A : Type 0} → (A → Bool) → List A → Bool
some_of p [] = false
some_of p (x ∷ xs) = p x || some_of p xs

panics-new_claim :
    (env : Env) (pv : PersistentVolumeSpec) → panics (new_claim env pv) ≡ stores_only env pv
unfolding new_claim
panics-new_claim env pv =
    elim (Bool-cases (env.is_nonzero pv.persistent_volume_claim_spec.resources.requests.cpu)) [
      | inl h ↦
          elim (Option-cases
            (env.storage_request pv.persistent_volume_claim_spec.resources.requests)) [
              | inl e ↦ rw (h, e) refl
              | inr (q, e) ↦ rw (h, e) refl
            ]
      | inr h ↦
          elim (Option-cases
            (env.storage_request pv.persistent_volume_claim_spec.resources.requests)) [
              | inl e ↦ rw (h, e) refl
              | inr (q, e) ↦ rw (h, e) refl
            ]
    ]

panics_round :
    {A B C : Type 0} (r : Built A) (rest : Built B) (f : A → B → C)
    → panics (and_then r λ a. and_then rest λ b. built (f a b)) ≡ (panics r || panics rest)
panics_round (built a) (built b) f = refl
panics_round (built a) (panicked s) f = refl
panics_round (panicked s) rest f = refl

panics_built :
    {A B : Type 0} (r : Built A) (f : A → B) → panics (and_then r λ a. built (f a)) ≡ panics r
panics_built (built a) f = refl
panics_built (panicked s) f = refl

panics-claims_loop :
    (env : Env) (class : String) (pvs : List PersistentVolumeSpec)
    → panics (claims_loop env class pvs) ≡ some_of (stores_only env) pvs
unfolding claims_loop
panics-claims_loop env class [] = refl
panics-claims_loop env class (pv ∷ pvs) =
    panics_round (new_claim env pv)
      (claims_loop env pv.persistent_volume_claim_spec.storage_class_name pvs)
      (λ c (last, cs). (last, c ∷ cs))
    ∙ (λ i.
        panics-new_claim env pv i
        || panics-claims_loop env pv.persistent_volume_claim_spec.storage_class_name pvs i)

-- The claims panic exactly if some persistent volume asks for storage and for no CPU.
pub panics-new_claims :
    (env : Env) (pvs : List PersistentVolumeSpec)
    → panics (new_claims env pvs) ≡ some_of (stores_only env) pvs
unfolding new_claims
panics-new_claims env pvs =
    panics_built (claims_loop env "" pvs) (λ (last, cs). map (with_class last) cs)
    ∙ panics-claims_loop env "" pvs
