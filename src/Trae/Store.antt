-- ===== src/Trae/Store.antt =====
-- The abstract view of the API server: which objects it has, by kind and key; and what a pass wants
-- of it. A wanted object is created if it is not there; if it is, a ConfigMap gets the wanted
-- contents, a StatefulSet the wanted spec, and a service stays as it is.
pub mod Laws
use work_script.Prelude.{
  ◌≡◌, Bool, true, false, ◌&&◌, Option, none, some, List, [], ◌∷◌, first_of, if◌then◌else◌, String,
}
use text.Mathlib.Text.{◌==◌}
use work_script.Kube.{NamespacedName}
use work_script.Trae.Program.{Kind, Object, key_of, config_map, service, stateful_set}

abbrev pub View : Type 0
View = (k : Kind) → NamespacedName → Option (Object k)

abbrev pub same_key : NamespacedName → NamespacedName → Bool
same_key a b = (a.namespace == b.namespace) && (a.name == b.name)

abbrev pub when_same : {A : Type 0} → NamespacedName → NamespacedName → A → Option A
when_same a b x = if same_key a b then some x else none

-- The object o of kind k at a key, as seen from any kind and key.
abbrev pub at : (k : Kind) → NamespacedName → Object k → View
at config_map key o config_map asked = when_same key asked o
at service key o service asked = when_same key asked o
at stateful_set key o stateful_set asked = when_same key asked o
at _ key o _ asked = none

-- The view after a write.
unfoldable pub put : (k : Kind) → NamespacedName → Object k → View → View
put k key o v = λ asked_kind asked. first_of (at k key o asked_kind asked) (v asked_kind asked)

-- A wanted object, given what is there.
abbrev pub merged : (k : Kind) → Object k → Option (Object k) → Object k
merged config_map o none = o
merged config_map o (some old) = record old { contents = o.contents }
merged service o none = o
merged service o (some old) = old
merged stateful_set o none = o
merged stateful_set o (some old) = record old { spec = o.spec }

pub record Wanted : Type 0 where
  pub kind : Kind
  pub object : Object kind

abbrev pub wanted_key : Wanted → NamespacedName
wanted_key e = key_of e.kind e.object

unfoldable pub settle : Wanted → View → View
unfolding put
settle e v = put e.kind (wanted_key e) (merged e.kind e.object (v e.kind (wanted_key e))) v

unfoldable pub settle_all : List Wanted → View → View
unfolding settle
settle_all [] v = v
settle_all (e ∷ es) v = settle_all es (settle e v)

-- The object that is wanted under a key, the first if there are several.
unfoldable pub wanted_at : List Wanted → View
wanted_at [] k asked = none
wanted_at (e ∷ es) k asked =
    first_of (at e.kind (wanted_key e) e.object k asked) (wanted_at es k asked)

-- What becomes of an object, as it is there or not, that is wanted or not.
abbrev pub settled : (k : Kind) → Option (Object k) → Option (Object k) → Option (Object k)
settled k none old = old
settled k (some o) old = some (merged k o old)

-- No key is wanted twice.
abbrev pub Apart : List Wanted → Type 0
Apart [] = Unit
Apart (e ∷ es) = (wanted_at es e.kind (wanted_key e) ≡ none) × Apart es
