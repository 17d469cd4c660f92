-- ===== src/Qoder/Config/Heap/Decimal.antt =====
-- The decimal text of a number, read back.
use Prim.Native.Char.{code}
use Prim.Native.String.{◌++◌}
use text.Mathlib.TextLemmas.{nil-append, cons-append}
use work_script.Prelude.{
  ℕ, zero, suc, ◌+◌, ◌-◌, ◌*◌, ◌/◌, ◌%◌, ◌^◌, ◌<◌, ◌≡◌, ap, ◌∙◌, String, arith, ltb, inl, inr,
  Bool-cases, ◌≤◌, lt→ltb, pos, some, lookup, Dict,
}
use work_script.Kube.{ResourceRequirements, Quantity}
use work_script.Qoder.Config.Heap.{digit, digits_fuel, decimal, heap_mb, compute_heap_size}
use work_script.Qoder.Config.Heap.Bounds.{heap_mb-positive, given_limit}

-- The number that the characters spell behind `n`.
abbrev pub read_decimal : ℕ → String → ℕ
read_decimal n String.[] = n
read_decimal n (String.◌∷◌ c s) = read_decimal (10 * n + (code c - 48)) s

read_decimal-append :
    (n : ℕ) (s t : String) → read_decimal n (s ++ t) ≡ read_decimal (read_decimal n s) t
read_decimal-append n String.[] t = ap (read_decimal n) (nil-append t)
read_decimal-append n (String.◌∷◌ c s) t =
    ap (read_decimal n) (cons-append c s t) ∙ read_decimal-append (10 * n + (code c - 48)) s t

read_decimal-digit : (n d : ℕ) → d < 10 → read_decimal n (digit d) ≡ 10 * n + d
read_decimal-digit n zero h = omega arith
read_decimal-digit n (suc zero) h = omega arith
read_decimal-digit n (suc (suc zero)) h = omega arith
read_decimal-digit n (suc (suc (suc zero))) h = omega arith
read_decimal-digit n (suc (suc (suc (suc zero)))) h = omega arith
read_decimal-digit n (suc (suc (suc (suc (suc zero))))) h = omega arith
read_decimal-digit n (suc (suc (suc (suc (suc (suc zero)))))) h = omega arith
read_decimal-digit n (suc (suc (suc (suc (suc (suc (suc zero))))))) h = omega arith
read_decimal-digit n (suc (suc (suc (suc (suc (suc (suc (suc zero)))))))) h = omega arith
read_decimal-digit n (suc (suc (suc (suc (suc (suc (suc (suc (suc zero))))))))) h = omega arith
read_decimal-digit n (suc (suc (suc (suc (suc (suc (suc (suc (suc (suc d)))))))))) h =
    absurd (omega arith)

-- The numbers of so many digits and one more.
abbrev bound : ℕ → ℕ
bound zero = 10
bound (suc fuel) = 10 * bound fuel

read_decimal-digits_fuel : (fuel n : ℕ) → n < bound fuel → read_decimal 0 (digits_fuel fuel n) ≡ n
unfolding digits_fuel
read_decimal-digits_fuel zero n h = read_decimal-digit 0 (n % 10) (omega arith) ∙ omega arith
read_decimal-digits_fuel (suc fuel) n h = elim (Bool-cases (ltb n 10)) [
  | inl small ↦ rw small (read_decimal-digit 0 n (ground arith) ∙ omega arith)
  | inr large ↦ rw large (
      read_decimal-append 0 (digits_fuel fuel (n / 10)) (digit (n % 10))
      ∙ ap (λ m. read_decimal m (digit (n % 10)))
          (read_decimal-digits_fuel fuel (n / 10) (omega arith))
      ∙ read_decimal-digit (n / 10) (n % 10) (omega arith)
      ∙ omega arith)
]

-- The decimal text of a number below 10^20, which every int64 is, reads back as the number.
pub read_decimal-decimal : (n : ℕ) → n < 10 ^ 20 → read_decimal 0 (decimal n) ≡ n
unfolding decimal
read_decimal-decimal n h = read_decimal-digits_fuel 19 n h

heap_mb-range : (bytes : ℕ) → bytes < 2 ^ 63 → heap_mb (pos bytes) < 10 ^ 20
unfolding heap_mb
heap_mb-range bytes h = omega arith

-- With a memory limit of at least 2 MiB the text read back as a number is 80% of the limit's whole
-- mebibytes, rounded down.
pub read_decimal-compute_heap_size :
    (resources : ResourceRequirements) (limits : Dict Quantity) (mem : Quantity) (bytes : ℕ)
    (default_mb : String)
    → resources.limits ≡ some limits
    → lookup "memory" limits ≡ some mem
    → mem.value ≡ pos bytes
    → 2097152 ≤ bytes
    → bytes < 2 ^ 63
    → read_decimal 0 (compute_heap_size resources default_mb) ≡ bytes / 1048576 * 80 / 100
unfolding heap_mb
read_decimal-compute_heap_size resources limits mem bytes default_mb e1 e2 e3 h1 h2 =
    rw
      (
        given_limit resources limits mem default_mb e1 e2,
        e3,
        lt→ltb _ _ (heap_mb-positive bytes h1),
      )
      (read_decimal-decimal (heap_mb (pos bytes)) (heap_mb-range bytes h2))
