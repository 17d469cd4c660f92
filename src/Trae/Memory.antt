-- ===== src/Trae/Memory.antt =====
-- A lawful server: its state is the list of the objects that were written, the last one first.
use mathlib.Core.Option.{some-injective, none-ne-some}
use work_script.Prelude.{
  ◌≡◌, refl, sym, ◌∙◌, ap, true, false, Bool-cases, inl, inr, Option, none, some, List, [], ◌∷◌,
  first_of,
}
use work_script.Kube.{NamespacedName, ApiError}
use work_script.Effects.Server.{Server}
use work_script.Trae.Program.{
  Kind, Object, Answer, key_of, config_map, service, stateful_set, Result, ok, err, get_cluster,
  get, create, update, update_status,
}
use work_script.Trae.Store.{same_key, when_same, at, put, Wanted, wanted_at}
use work_script.Trae.Store.Laws.{same_key_eq}
use work_script.Trae.Server.{ApiServer, IsLawful}

abbrev pub not_found : ApiError
not_found = record { is_not_found = true; text = "not found" }

abbrev pub conflict : ApiError
conflict = record { is_not_found = false; text = "already exists" }

abbrev pub found : {A : Type 0} → Option A → Result A
found none = err not_found
found (some a) = ok a

abbrev pub written :
    {A : Type 0} → Option A → Wanted → List Wanted → Result (Unit {0}) × List Wanted
written none e w = (ok tt, e ∷ w)
written (some _) e w = (err conflict, w)

abbrev pub rewritten :
    {A : Type 0} → Option A → Wanted → List Wanted → Result (Unit {0}) × List Wanted
rewritten none e w = (err not_found, w)
rewritten (some _) e w = (ok tt, e ∷ w)

abbrev pub memory_answer : Server Answer (List Wanted)
memory_answer (get_cluster key) w = (err not_found, w)
memory_answer (update_status c) w = (ok c, w)
memory_answer (get k key) w = (found (wanted_at w k key), w)
memory_answer (create k o) w =
    written (wanted_at w k (key_of k o)) (record { kind = k; object = o }) w
memory_answer (update k o) w =
    rewritten (wanted_at w k (key_of k o)) (record { kind = k; object = o }) w

abbrev pub memory : ApiServer (List Wanted)
memory = record { answer = memory_answer; view = wanted_at }

when_same-key :
    (k : Kind) (x o : Object k) (asked : NamespacedName) (rest : Option (Object k))
    → (rest ≡ some o → key_of k o ≡ asked)
    → first_of (when_same (key_of k x) asked x) rest ≡ some o
    → key_of k o ≡ asked
when_same-key k x o asked rest ih h = elim (Bool-cases (same_key (key_of k x) asked)) [
  | inl same ↦
      sym (ap (key_of k) (some-injective x o (rw same at h))) ∙ same_key_eq (key_of k x) asked same
  | inr other ↦ ih (rw other at h)
]

at-key :
    (j : Kind) (x : Object j) (k : Kind) (o : Object k) (asked : NamespacedName)
    (rest : Option (Object k))
    → (rest ≡ some o → key_of k o ≡ asked)
    → first_of (at j (key_of j x) x k asked) rest ≡ some o
    → key_of k o ≡ asked
at-key config_map x config_map o asked rest ih h = when_same-key config_map x o asked rest ih h
at-key config_map x service o asked rest ih h = ih h
at-key config_map x stateful_set o asked rest ih h = ih h
at-key service x config_map o asked rest ih h = ih h
at-key service x service o asked rest ih h = when_same-key service x o asked rest ih h
at-key service x stateful_set o asked rest ih h = ih h
at-key stateful_set x config_map o asked rest ih h = ih h
at-key stateful_set x service o asked rest ih h = ih h
at-key stateful_set x stateful_set o asked rest ih h =
    when_same-key stateful_set x o asked rest ih h

view-key :
    (es : List Wanted) (k : Kind) (key : NamespacedName) (o : Object k)
    → wanted_at es k key ≡ some o
    → key_of k o ≡ key
unfolding wanted_at
view-key [] k key o h = absurd (none-ne-some _ h)
view-key (e ∷ es) k key o h =
    at-key e.kind e.object k o key (wanted_at es k key) (view-key es k key o) h

pub memory-IsLawful : IsLawful memory
unfolding wanted_at put
memory-IsLawful = record {
  view-key = λ k key w o h. view-key w k key o h;
  get-found = λ k key w o h. ap found h;
  get-missing = λ k key w h. (not_found, refl, ap found h);
  get-view = λ k key w. refl;
  create-missing = λ k o w h. (rw h refl, rw h refl);
  update-found = λ k o old w h. (rw h refl, rw h refl);
  status-kept = λ c w. (refl, refl);
}
