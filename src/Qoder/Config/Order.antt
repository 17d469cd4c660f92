-- ===== src/Qoder/Config/Order.antt =====
-- Sorting by code points, and the hash of a map that is visited in another order.
use text.Mathlib.TextEquality.{eq_iff, Char-path}
use work_script.Qoder.Env.{Env}
use work_script.Prelude.{
  none, concat, Distinct, ◌≡◌, refl, sym, ◌∙◌, ap, ℕ, arith, true, false, String, List, [], ◌∷◌,
  Dict, keys, lookup,
}
use work_script.Qoder.Config.Files.{
  codes, codes_le, text_le, insert_sorted, sort, hash_lines, compute_config_hash, value_at,
}

codes_le_total : (xs ys : List ℕ) → codes_le xs ys ≡ false → codes_le ys xs ≡ true
codes_le_total [] ys h = ground arith
codes_le_total (x ∷ xs) [] h = refl
codes_le_total (x ∷ xs) (y ∷ ys) h = ground (arith, codes_le_total xs ys)

codes_le_trans :
    (xs ys zs : List ℕ) → codes_le xs ys ≡ true → codes_le ys zs ≡ true → codes_le xs zs ≡ true
codes_le_trans [] ys zs h k = refl
codes_le_trans (x ∷ xs) [] zs h k = ground arith
codes_le_trans (x ∷ xs) (y ∷ ys) [] h k = ground arith
codes_le_trans (x ∷ xs) (y ∷ ys) (z ∷ zs) h k = ground (arith, codes_le_trans xs ys zs)

codes_le_antisym : (xs ys : List ℕ) → codes_le xs ys ≡ true → codes_le ys xs ≡ true → xs ≡ ys
codes_le_antisym [] [] h k = refl
codes_le_antisym [] (y ∷ ys) h k = ground arith
codes_le_antisym (x ∷ xs) [] h k = ground arith
codes_le_antisym (x ∷ xs) (y ∷ ys) h k = ground (arith, codes_le_antisym xs ys)

codes_injective : (s t : String) → codes s ≡ codes t → s ≡ t
codes_injective String.[] String.[] h = refl
codes_injective String.[] (String.◌∷◌ d t) h = ground arith
codes_injective (String.◌∷◌ c s) String.[] h = ground arith
codes_injective (String.◌∷◌ c s) (String.◌∷◌ d t) h =
    cons_path (Char-path c d (ground arith)) (codes_injective s t (ground arith))
  where
    cons_path : c ≡ d → s ≡ t → String.◌∷◌ c s ≡ String.◌∷◌ d t
    cons_path p q = rw (p, q) refl

text_le_total : (s t : String) → text_le s t ≡ false → text_le t s ≡ true
text_le_total s t h = codes_le_total (codes s) (codes t) h

text_le_trans : (s t u : String) → text_le s t ≡ true → text_le t u ≡ true → text_le s u ≡ true
text_le_trans s t u h k = codes_le_trans (codes s) (codes t) (codes u) h k

text_le_antisym : (s t : String) → text_le s t ≡ true → text_le t s ≡ true → s ≡ t
text_le_antisym s t h k = codes_injective s t (codes_le_antisym (codes s) (codes t) h k)

insert_sorted_comm :
    (a b : String) (xs : List String)
    → insert_sorted a (insert_sorted b xs) ≡ insert_sorted b (insert_sorted a xs)
unfolding insert_sorted
insert_sorted_comm a b [] =
    ground (arith, text_le_total a b, text_le_total b a, text_le_antisym a b)
insert_sorted_comm a b (x ∷ xs) = ground (
  arith,
  insert_sorted_comm a b xs,
  text_le_total a b,
  text_le_total b a,
  text_le_antisym a b,
  text_le_trans a b x,
  text_le_trans b a x,
  text_le_total a x,
  text_le_total b x,
  text_le_trans a x b,
  text_le_trans b x a,
)

-- The entries of a map in another order.
pub data Reordered : Dict String → Dict String → Type 0 where
  done : Reordered [] []
  keep : (k v : String) (m n : Dict String) → Reordered m n → Reordered ((k, v) ∷ m) ((k, v) ∷ n)
  swap :
      (j v k w : String) (m : Dict String) → Reordered ((j, v) ∷ (k, w) ∷ m) ((k, w) ∷ (j, v) ∷ m)
  in_turn : (m n o : Dict String) → Reordered m n → Reordered n o → Reordered m o

sort-Reordered : {m n : Dict String} → Reordered m n → sort (keys m) ≡ sort (keys n)
unfolding sort
sort-Reordered done = refl
sort-Reordered (keep k v m n r) = ap (insert_sorted k) (sort-Reordered r)
sort-Reordered (swap j v k w m) = insert_sorted_comm j k (sort (keys m))
sort-Reordered (in_turn m n o r q) = sort-Reordered r ∙ sort-Reordered q

-- Two entries with different keys are found in either order.
swap_found :
    (j v k w key : String) (m : Dict String)
    → lookup j ((k, w) ∷ m) ≡ none
    → lookup key ((j, v) ∷ (k, w) ∷ m) ≡ lookup key ((k, w) ∷ (j, v) ∷ m)
unfolding lookup
swap_found j v k w key m d = ground (arith, eq_iff key j, eq_iff key k, eq_iff j k)

swap_absent :
    (j v k w : String) (m : Dict String)
    → lookup j ((k, w) ∷ m) ≡ none
    → lookup k m ≡ none
    → lookup k ((j, v) ∷ m) ≡ none
unfolding lookup
swap_absent j v k w m d e = ground (arith, eq_iff k j, eq_iff j k)

absent_below : (j k w : String) (m : Dict String) → lookup j ((k, w) ∷ m) ≡ none → lookup j m ≡ none
unfolding lookup
absent_below j k w m d = ground (arith, eq_iff j k)

keep_found :
    (key k v : String) (m n : Dict String)
    → lookup key m ≡ lookup key n
    → lookup key ((k, v) ∷ m) ≡ lookup key ((k, v) ∷ n)
unfolding lookup
keep_found key k v m n h = rw h refl

rearranged_map :
    {m n : Dict String}
    → Reordered m n
    → Distinct m
    → ((key : String) → lookup key m ≡ lookup key n) × Distinct n
rearranged_map done d = ((λ key. refl), tt)
rearranged_map (keep k v m n r) d =
    let (found, rest) = rearranged_map r d.1 in
    ((λ key. keep_found key k v m n (found key)), (sym (found k) ∙ d.0, rest))
rearranged_map (swap j v k w m) d = (
  (λ key. swap_found j v k w key m d.0),
  (swap_absent j v k w m d.0 d.1.0, (absent_below j k w m d.0, d.1.1)),
)
rearranged_map (in_turn m n o r q) d =
    let (found, rest) = rearranged_map r d in
    let (again, last) = rearranged_map q rest in ((λ key. found key ∙ again key), last)

value_at_same :
    (key : String) (m n : Dict String)
    → lookup key m ≡ lookup key n
    → value_at key m ≡ value_at key n
value_at_same key m n h = rw (value_at, h) refl

lines_same :
    (m n : Dict String) (ks : List String)
    → ((key : String) → lookup key m ≡ lookup key n)
    → hash_lines m ks ≡ hash_lines n ks
unfolding hash_lines
lines_same m n [] h = refl
lines_same m n (k ∷ ks) h = cc (value_at_same k m n (h k), lines_same m n ks h)

-- The hash of a map, which has each key once, does not depend on the order of its entries.
pub compute_config_hash-Reordered :
    (env : Env) (m n : Dict String)
    → Distinct m
    → Reordered m n
    → compute_config_hash env m ≡ compute_config_hash env n
unfolding compute_config_hash
compute_config_hash-Reordered env m n d r =
    let same = lines_same m n (sort (keys m)) (rearranged_map r d).0 in
    ap (λ lines. env.md5_hex (concat lines)) (same ∙ ap (hash_lines n) (sort-Reordered r))
