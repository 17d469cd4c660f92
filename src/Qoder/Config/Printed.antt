-- ===== src/Qoder/Config/Printed.antt =====
-- The files that generateXMLConfig prints, read back.
use Prim.Native.Char.{code, Char}
use Prim.Native.String.{◌++◌}
use text.Mathlib.TextLemmas.{nil-append, cons-append, append-nil, append_assoc}
use work_script.Prelude.{
  ℕ, zero, suc, ◌≡◌, refl, sym, ap, ◌∙◌, String, Bool, true, not, ◌&&◌, ◌==◌, Option, none, some,
  [], ◌∷◌, Dict, concat, length, arith, if◌then◌else◌, ◌≤◌,
}
use work_script.Qoder.Env.{Env}
use work_script.Qoder.Config.Files.{property_lines, generate_xml_config}

infixl 1 ◌>>=◌
abbrev ◌>>=◌ : {A B : Type 0} → Option A → (A → Option B) → Option B
none >>= f = none
some x >>= f = f x

-- What is left of a text behind a given beginning.
abbrev pub strip : String → String → Option String
strip String.[] t = some t
strip (String.◌∷◌ c p) String.[] = none
strip (String.◌∷◌ c p) (String.◌∷◌ d t) =
    let rest = strip p t in if code c == code d then rest else none

-- A text up to its first "<", and the rest.
abbrev pub until : String → String × String
until String.[] = (String.[], String.[])
until (String.◌∷◌ c s) =
    let rest = until s in
    if code c == 60 then (String.[], String.◌∷◌ c s) else (String.◌∷◌ c rest.0, rest.1)

-- The text between two tags, and what follows.
abbrev read_field : String → String → String → Option (String × String)
read_field before behind t = do
  body ← strip before t
  rest ← strip behind (until body).1
  some ((until body).0, rest)

abbrev read_property : String → Option ((String × String) × String)
read_property t = do
  t1 ← strip "  <property>\n" t
  (key, t2) ← read_field "    <name>" "</name>\n" t1
  (value, t3) ← read_field "    <value>" "</value>\n" t2
  t4 ← strip "  </property>\n" t3
  some ((key, value), t4)

-- The properties of a text, and what follows the last one.
abbrev read_properties : ℕ → String → Dict String × String
read_properties zero t = ([], t)
read_properties (suc fuel) t = elim (read_property t) [
  | none ↦ ([], t)
  | some (entry, rest) ↦ let more = read_properties fuel rest in (entry ∷ more.0, more.1)
]

-- The entries of a file with the given root tag.
abbrev pub read_xml_config : ℕ → String → String → Option (Dict String)
read_xml_config fuel root_tag t = do
  body ← strip (concat ("<?xml version=\"1.0\"?>\n<" ∷ root_tag ∷ ">\n" ∷ [])) t
  rest ← strip (concat ("</" ∷ root_tag ∷ ">\n" ∷ [])) (read_properties fuel body).1
  some (read_properties fuel body).0

-- No "<" stands in the text.
abbrev pub plain : String → Bool
plain String.[] = true
plain (String.◌∷◌ c s) = not (code c == 60) && plain s

abbrev pub plain_entries : Dict String → Bool
plain_entries [] = true
plain_entries ((key, value) ∷ rest) = plain key && plain value && plain_entries rest

strip-append : (p t : String) → strip p (p ++ t) ≡ some t
strip-append String.[] t = ap (λ x. some x) (nil-append t)
strip-append (String.◌∷◌ c p) t =
    ap (strip (String.◌∷◌ c p)) (cons-append c p t) ∙ ground (arith, strip-append p t)

strip_self : (p : String) → strip p p ≡ some String.[]
strip_self p = ap (strip p) (sym (append-nil p)) ∙ strip-append p String.[]

until-tag :
    (c : Char) (s t : String)
    → code c ≡ 60
    → until (String.◌∷◌ c s ++ t) ≡ (String.[], String.◌∷◌ c s ++ t)
until-tag c s t e = rw (cons-append c s t) (ground arith)

-- The text in front of a tag is read up to the tag.
until-plain :
    (v tail : String)
    → until tail ≡ (String.[], tail)
    → plain v ≡ true
    → until (v ++ tail) ≡ (v, tail)
until-plain String.[] tail e h = rw (nil-append tail) e
until-plain (String.◌∷◌ d v) tail e h =
    rw (cons-append d v tail) (ground (arith, until-plain v tail e))

read_field-lem :
    (before behind v t : String)
    → until (behind ++ t) ≡ (String.[], behind ++ t)
    → plain v ≡ true
    → read_field before behind (before ++ (v ++ (behind ++ t))) ≡ some (v, t)
read_field-lem before behind v t e h =
    rw
      (
        strip-append before (v ++ (behind ++ t)),
        until-plain v (behind ++ t) e h,
        strip-append behind t,
      )
      refl

name_tag : (t : String) → until ("</name>\n" ++ t) ≡ (String.[], "</name>\n" ++ t)
name_tag t = until-tag "<" "/name>\n" t refl

value_tag : (t : String) → until ("</value>\n" ++ t) ≡ (String.[], "</value>\n" ++ t)
value_tag t = until-tag "<" "/value>\n" t refl

property_text : String → String → String → String
property_text key value t =
    "  <property>\n"
    ++ ("    <name>"
        ++ (key
            ++ ("</name>\n"
                ++ ("    <value>" ++ (value ++ ("</value>\n" ++ ("  </property>\n" ++ t)))))))

read_property-lem :
    (key value t : String)
    → plain key ≡ true
    → plain value ≡ true
    → read_property (property_text key value t) ≡ some ((key, value), t)
unfolding property_text
read_property-lem key value t h k =
    rw
      (
        strip-append "  <property>\n" _,
        read_field-lem "    <name>" "</name>\n" key _ (name_tag _) h,
        read_field-lem "    <value>" "</value>\n" value _ (value_tag _) k,
        strip-append "  </property>\n" t,
      )
      refl

property_lines-text :
    (key value t : String) (rest : Dict String)
    → concat (property_lines ((key, value) ∷ rest)) ++ t
      ≡ property_text key value (concat (property_lines rest) ++ t)
unfolding property_lines property_text
property_lines-text key value t rest = simp (append_assoc, append-nil)

read_properties-some :
    (fuel : ℕ) (t : String) {entry : String × String} {rest : String}
    → read_property t ≡ some (entry, rest)
    → read_properties (suc fuel) t
      ≡ (entry ∷ (read_properties fuel rest).0, (read_properties fuel rest).1)
read_properties-some fuel t e = rw (read_properties, e) refl

read_properties-lem :
    (fuel : ℕ) (entries : Dict String) (t : String)
    → read_property t ≡ none
    → length entries ≤ fuel
    → plain_entries entries ≡ true
    → read_properties fuel (concat (property_lines entries) ++ t) ≡ (entries, t)
unfolding property_lines
read_properties-lem zero [] t e h k = ap (λ x. ([], x)) (nil-append t)
read_properties-lem (suc fuel) [] t e h k =
    ap (read_properties (suc fuel)) (nil-append t) ∙ rw (read_properties, e) refl
read_properties-lem zero (entry ∷ rest) t e h k = absurd (omega arith)
read_properties-lem (suc fuel) ((key, value) ∷ rest) t e h k =
    ap (read_properties (suc fuel)) (property_lines-text key value t rest)
    ∙ read_properties-some fuel (property_text key value (concat (property_lines rest) ++ t)) (
        read_property-lem key value (concat (property_lines rest) ++ t) (ground arith)
          (ground arith))
    ∙ ap (λ more. ((key, value) ∷ more.0, more.1))
        (read_properties-lem fuel rest t e (omega arith) (ground arith))

end_tag : (root_tag : String) → read_property (concat ("</" ∷ root_tag ∷ ">\n" ∷ [])) ≡ none
end_tag root_tag = rw (cons-append "<" "/" (concat (root_tag ∷ ">\n" ∷ []))) refl

-- A file whose keys and values have no "<" reads back as the entries that it was printed from, in
-- the order in which they were visited, with fuel for each of them.
pub read_xml_config-generate_xml_config :
    (env : Env) (fuel : ℕ) (root_tag : String) (properties : Dict String)
    → length (env.map_order properties) ≤ fuel
    → plain_entries (env.map_order properties) ≡ true
    → read_xml_config fuel root_tag (generate_xml_config env root_tag properties)
      ≡ some (env.map_order properties)
unfolding generate_xml_config
read_xml_config-generate_xml_config env fuel root_tag properties h k =
    rw
      (
        append-nil (concat ("</" ∷ root_tag ∷ ">\n" ∷ [])),
        strip-append (concat ("<?xml version=\"1.0\"?>\n<" ∷ root_tag ∷ ">\n" ∷ [])) _,
        read_properties-lem fuel (env.map_order properties) _ (end_tag root_tag) h k,
        strip_self (concat ("</" ∷ root_tag ∷ ">\n" ∷ [])),
      )
      refl
