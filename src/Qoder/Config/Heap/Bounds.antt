-- ===== src/Qoder/Config/Heap/Bounds.antt =====
-- The heap against the memory limit of the container that it runs in.
use work_script.Prelude.{
  ℕ, ◌*◌, ◌≤◌, ◌<◌, ◌≡◌, refl, arith, pos, String, some, lookup, Dict, ltb, if◌then◌else◌, ◌⊎◌, inl,
  inr, ◌+◌, Bool-cases, ltb→lt, lt→ltb,
}
use work_script.Kube.{ResourceRequirements, Quantity}
use work_script.Qoder.Config.Heap.{heap_mb, compute_heap_size, decimal}

-- The heap is at most 80% of the limit, and less than 2 MiB below 80% of it.
pub heap_mb-bounds :
    (bytes : ℕ)
    → (100 * (heap_mb (pos bytes) * 1048576) ≤ 80 * bytes)
      × (80 * bytes < 100 * ((heap_mb (pos bytes) + 2) * 1048576))
unfolding heap_mb
heap_mb-bounds bytes = (omega arith, omega arith)

pub heap_mb-positive : (bytes : ℕ) → 2097152 ≤ bytes → 0 < heap_mb (pos bytes)
unfolding heap_mb
heap_mb-positive bytes h = omega arith

heap_mb-zero : (bytes : ℕ) → bytes < 2097152 → heap_mb (pos bytes) ≡ 0
unfolding heap_mb
heap_mb-zero bytes h = omega arith

pub given_limit :
    (resources : ResourceRequirements) (limits : Dict Quantity) (mem : Quantity)
    (default_mb : String)
    → resources.limits ≡ some limits
    → lookup "memory" limits ≡ some mem
    → compute_heap_size resources default_mb
      ≡ (if ltb 0 (heap_mb mem.value) then decimal (heap_mb mem.value) else default_mb)
unfolding compute_heap_size
given_limit resources limits mem default_mb e1 e2 = rw (compute_heap_size, e1, e2) refl

heap_or_default :
    (bytes : ℕ) (default_mb : String)
    → ((2097152 ≤ bytes)
        × (heap : ℕ) × (0 < heap)
        × (100 * (heap * 1048576) ≤ 80 * bytes)
        × ((if ltb 0 (heap_mb (pos bytes)) then decimal (heap_mb (pos bytes)) else default_mb)
            ≡ decimal heap))
      ⊎ ((bytes < 2097152)
          × ((if ltb 0 (heap_mb (pos bytes)) then decimal (heap_mb (pos bytes)) else default_mb)
              ≡ default_mb))
heap_or_default bytes default_mb = elim (Bool-cases (ltb bytes 2097152)) [
  | inl small ↦ inr (ltb→lt _ _ small, rw (heap_mb-zero bytes (ltb→lt _ _ small)) refl)
  | inr large ↦ inl (
    ground arith,
    heap_mb (pos bytes),
    heap_mb-positive bytes (ground arith),
    (heap_mb-bounds bytes).0,
    rw (lt→ltb _ _ (heap_mb-positive bytes (ground arith))) refl,
  )
]

-- With a memory limit of at least 2 MiB the text is that of a positive heap of at most 80% of the
-- limit; with a smaller one it is the default.
pub compute_heap_size-limit :
    (resources : ResourceRequirements) (limits : Dict Quantity) (mem : Quantity) (bytes : ℕ)
    (default_mb : String)
    → resources.limits ≡ some limits
    → lookup "memory" limits ≡ some mem
    → mem.value ≡ pos bytes
    → ((2097152 ≤ bytes)
        × (heap : ℕ) × (0 < heap)
        × (100 * (heap * 1048576) ≤ 80 * bytes)
        × (compute_heap_size resources default_mb ≡ decimal heap))
      ⊎ ((bytes < 2097152) × (compute_heap_size resources default_mb ≡ default_mb))
compute_heap_size-limit resources limits mem bytes default_mb e1 e2 e3 =
    rw (given_limit resources limits mem default_mb e1 e2, e3) (heap_or_default bytes default_mb)
