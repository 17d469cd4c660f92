-- ===== src/Checks.antt =====
-- Checks on lists of names and ports, which the statements on the shape of objects run.
use text.Mathlib.Text.{◌==◌}
use work_script.Prelude.{String, Bool, true, false, ◌&&◌, ◌||◌, List, [], ◌∷◌, eq_ℤ, if◌then◌else◌}
use work_script.Kube.{ContainerPort, IntOrString, from_int, from_string}

unfoldable pub has_text : String → List String → Bool
has_text s [] = false
has_text s (t ∷ ts) = if s == t then true else has_text s ts

unfoldable pub every {ℓ} : {A : Type ℓ} → (A → Bool) → List A → Bool
every p [] = true
every p (x ∷ xs) = p x && every p xs

abbrev pub names {ℓ} : {A : Type ℓ} → (A → String) → List A → List String
names f [] = []
names f (x ∷ xs) = f x ∷ names f xs

-- A port of a container by its number or its name.
unfoldable pub has_port : List ContainerPort → IntOrString → Bool
has_port [] p = false
has_port (c ∷ cs) (from_int n) = eq_ℤ c.container_port n || has_port cs (from_int n)
has_port (c ∷ cs) (from_string s) = if c.name == s then true else has_port cs (from_string s)
