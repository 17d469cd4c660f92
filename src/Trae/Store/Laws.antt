-- ===== src/Trae/Store/Laws.antt =====
-- Settling, key by key.

use work_script.Prelude.{
  ◌≡◌, refl, sym, ap, ◌∙◌, true, none, some, List, [], ◌∷◌, Option, inl, inr, Bool-cases, eq_iff,
  arith, first_of,
}
use work_script.Kube.{NamespacedName}
use work_script.Trae.Program.{Kind, Object, config_map, service, stateful_set}
use work_script.Trae.Store.{
  View, same_key, when_same, at, put, merged, Wanted, wanted_key, settle, settle_all, wanted_at,
  settled, Apart,
}

pub same_key_eq : (a b : NamespacedName) → same_key a b ≡ true → a ≡ b
same_key_eq a b h = λ i. record {
  namespace = ((eq_iff a.namespace b.namespace).0 (ground arith)) i;
  name = ((eq_iff a.name b.name).0 (ground arith)) i;
}

same_key_refl : (a : NamespacedName) → same_key a a ≡ true
same_key_refl a = rw ((eq_iff a.namespace a.namespace).1 refl, (eq_iff a.name a.name).1 refl) refl

-- One kind: what is found after its object has been merged in.
when_same-merged :
    (k : Kind) (key asked : NamespacedName) (o : Object k) (v : View)
    → first_of (when_same key asked (merged k o (v k key))) (v k asked)
      ≡ settled k (when_same key asked o) (v k asked)
when_same-merged k key asked o v = elim (Bool-cases (same_key key asked)) [
  | inl same ↦ rw same (ap (λ x. some (merged k o (v k x))) (same_key_eq key asked same))
  | inr other ↦ rw other refl
]

put-merged :
    (k : Kind) (key : NamespacedName) (o : Object k) (v : View) (asked_kind : Kind)
    (asked : NamespacedName)
    → put k key (merged k o (v k key)) v asked_kind asked
      ≡ settled asked_kind (at k key o asked_kind asked) (v asked_kind asked)
unfolding put
put-merged config_map key o v config_map asked = when_same-merged config_map key asked o v
put-merged config_map key o v service asked = refl
put-merged config_map key o v stateful_set asked = refl
put-merged service key o v config_map asked = refl
put-merged service key o v service asked = when_same-merged service key asked o v
put-merged service key o v stateful_set asked = refl
put-merged stateful_set key o v config_map asked = refl
put-merged stateful_set key o v service asked = refl
put-merged stateful_set key o v stateful_set asked = when_same-merged stateful_set key asked o v

settle-at :
    (e : Wanted) (v : View) (k : Kind) (asked : NamespacedName)
    → settle e v k asked ≡ settled k (at e.kind (wanted_key e) e.object k asked) (v k asked)
unfolding settle
settle-at e v k asked = put-merged e.kind (wanted_key e) e.object v k asked

-- Under its own key an object that is wanted once.
when_same-over :
    (k : Kind) (key asked : NamespacedName) (o : Object k) (u : View) (old : Option (Object k))
    → u k key ≡ none
    → settled k (u k asked) (settled k (when_same key asked o) old)
      ≡ settled k (first_of (when_same key asked o) (u k asked)) old
when_same-over k key asked o u old h = elim (Bool-cases (same_key key asked)) [
  | inl same ↦ rw (same, sym (ap (u k) (same_key_eq key asked same)) ∙ h) refl
  | inr other ↦ rw other refl
]

at-over :
    (k : Kind) (key : NamespacedName) (o : Object k) (u : View) (asked_kind : Kind)
    (asked : NamespacedName) (old : Option (Object asked_kind))
    → u k key ≡ none
    → settled asked_kind (u asked_kind asked) (settled asked_kind (at k key o asked_kind asked) old)
      ≡ settled asked_kind (first_of (at k key o asked_kind asked) (u asked_kind asked)) old
at-over config_map key o u config_map asked old h = when_same-over config_map key asked o u old h
at-over config_map key o u service asked old h = refl
at-over config_map key o u stateful_set asked old h = refl
at-over service key o u config_map asked old h = refl
at-over service key o u service asked old h = when_same-over service key asked o u old h
at-over service key o u stateful_set asked old h = refl
at-over stateful_set key o u config_map asked old h = refl
at-over stateful_set key o u service asked old h = refl
at-over stateful_set key o u stateful_set asked old h =
    when_same-over stateful_set key asked o u old h

pub settle_all-at :
    (es : List Wanted) (v : View) (k : Kind) (asked : NamespacedName)
    → Apart es
    → settle_all es v k asked ≡ settled k (wanted_at es k asked) (v k asked)
unfolding settle_all wanted_at
settle_all-at [] v k asked apart = refl
settle_all-at (e ∷ es) v k asked (fresh, apart) =
    settle_all-at es (settle e v) k asked apart
    ∙ ap (settled k (wanted_at es k asked)) (settle-at e v k asked)
    ∙ at-over e.kind (wanted_key e) e.object (wanted_at es) k asked (v k asked) fresh

merged_twice :
    (k : Kind) (o : Object k) (old : Option (Object k))
    → merged k o (some (merged k o old)) ≡ merged k o old
merged_twice config_map o none = refl
merged_twice config_map o (some old) = refl
merged_twice service o none = refl
merged_twice service o (some old) = refl
merged_twice stateful_set o none = refl
merged_twice stateful_set o (some old) = refl

settled_twice :
    (k : Kind) (wanted old : Option (Object k))
    → settled k wanted (settled k wanted old) ≡ settled k wanted old
settled_twice k none old = refl
settled_twice k (some o) old = ap some (merged_twice k o old)

-- Settling again changes nothing.
pub settle_all_twice :
    (es : List Wanted) (v : View) → Apart es → settle_all es (settle_all es v) ≡ settle_all es v
settle_all_twice es v apart = λ i k asked.
    (settle_all-at es (settle_all es v) k asked apart
        ∙ ap (settled k (wanted_at es k asked)) (settle_all-at es v k asked apart)
        ∙ settled_twice k (wanted_at es k asked) (v k asked)
        ∙ sym (settle_all-at es v k asked apart))
      i

when_same-there :
    (k : Kind) (key asked : NamespacedName) (o : Object k) (v : View)
    → v k key ≡ some o
    → first_of (when_same key asked o) (v k asked) ≡ v k asked
when_same-there k key asked o v h = elim (Bool-cases (same_key key asked)) [
  | inl same ↦ rw same (sym h ∙ ap (v k) (same_key_eq key asked same))
  | inr other ↦ rw other refl
]

-- A write of what is there already changes nothing.
pub put_same :
    (k : Kind) (key : NamespacedName) (o : Object k) (v : View)
    → v k key ≡ some o
    → put k key o v ≡ v
unfolding put
put_same config_map key o v h = λ i k asked. same_at k asked i
  where
    same_at :
        (k : Kind) (asked : NamespacedName)
        → first_of (at config_map key o k asked) (v k asked) ≡ v k asked
    same_at config_map asked = when_same-there config_map key asked o v h
    same_at service asked = refl
    same_at stateful_set asked = refl
put_same service key o v h = λ i k asked. same_at k asked i
  where
    same_at :
        (k : Kind) (asked : NamespacedName)
        → first_of (at service key o k asked) (v k asked) ≡ v k asked
    same_at config_map asked = refl
    same_at service asked = when_same-there service key asked o v h
    same_at stateful_set asked = refl
put_same stateful_set key o v h = λ i k asked. same_at k asked i
  where
    same_at :
        (k : Kind) (asked : NamespacedName)
        → first_of (at stateful_set key o k asked) (v k asked) ≡ v k asked
    same_at config_map asked = refl
    same_at service asked = refl
    same_at stateful_set asked = when_same-there stateful_set key asked o v h
