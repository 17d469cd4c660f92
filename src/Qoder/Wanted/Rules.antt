-- ===== src/Qoder/Wanted/Rules.antt =====
-- Rules for what the component reconcilers share, on a server that grants what it is asked.
use mathlib.Core.Path.{subst}
use work_script.Prelude.{
  ◌≡◌, refl, sym, ◌∙◌, Bool, true, false, Option, none, some, List, [], ◌∷◌, ◌++◌, if◌then◌else◌,
}
use work_script.Kube.{ObjectMeta, ApiError}
use work_script.Effects.Trace.{Spells, of_value, of_request, Spells-then, Spells-mono, Holds-Spells}
use work_script.Qoder.Types.{HadoopCluster}
use work_script.Qoder.Program.{
  Program, Call, Answer, Result, ok, err, ret, call, try, ◌>>=◌, fetch, write, update_status,
  update, Kind, Object,
}
use work_script.Qoder.Env.{Env}
use work_script.Qoder.Behaviour.{Holds, Ends}
use work_script.Qoder.Workload.{create_or_update, write_changed, found_or_given}
use work_script.Qoder.Controller.Completion.{Serves}
use work_script.Qoder.Wanted.{
  Step, writes, Want, Contents, looks_for, meta_of, want_at, want_of, found_want, steps_of, Brings,
  brings_nothing, brings_written, brings_kept,
}

abbrev pub NoError : ApiError → Type 0
NoError e = ⊥

abbrev pub Fine : {A : Type 0} → Result A → Type 0
Fine = Ends (λ _. Unit {0}) NoError

-- The name, the namespace and the spec that the cluster was sent with.
abbrev pub Named : HadoopCluster → Result HadoopCluster → Type 0
Named c = Ends (λ kept. (kept.name ≡ c.name) × (kept.namespace ≡ c.namespace)) NoError

-- An object that is found is the one that was looked for.
abbrev pub FoundAt : (k : Kind) → Object k → Option (Object k) → Type 0
FoundAt k o none = Unit
FoundAt k o (some old) =
    ((meta_of k old).name ≡ (meta_of k o).name)
    × ((meta_of k old).namespace ≡ (meta_of k o).namespace)

-- The server answers without errors; the clusters that it keeps have the names, namespaces, specs
-- and deletion marks that they were sent with, and the objects that it finds the names and
-- namespaces that were asked for.
abbrev pub Grants : (c : Call) → Answer c → Type 0
Grants (update_status c) r = Named c r × Serves NoError (update_status c) r
Grants (update c) r = Named c r × Serves NoError (update c) r
Grants (fetch k o) r = Ends (FoundAt k o) NoError r
Grants c r = Serves NoError c r

-- An owner reference is set, and leaves the name and the namespace as they are.
abbrev pub OwnsInPlace : Env → Type 0
OwnsInPlace env =
    (c : HadoopCluster) (m : ObjectMeta)
    → Ends (λ owned. (owned.name ≡ m.name) × (owned.namespace ≡ m.namespace)) NoError
        (env.set_controller_reference c m)

-- Objects that are semantically equal have the same contents under the same name.
abbrev pub EqualAlike : Env → Type 0
EqualAlike env =
    (k : Kind) (a b : Object k) → env.semantic_equal k a b ≡ true → want_of k a ≡ want_of k b

-- What a program brings about on such a server, and what its value satisfies.
abbrev pub Does : {A : Type 0} → (A → Type 0) → Program A → List Want → Type 1
Does Q m ws = Spells Grants steps_of Q m (Brings ws)

nothing_brought : (ss : List Step) → Brings [] ss → ss ≡ []
nothing_brought [] brings_nothing = refl
nothing_brought (_ ∷ _) h = elim h [ ]

Brings-append :
    {ws us : List Want} {ss ts : List Step}
    → Brings ws ss
    → Brings us ts
    → Brings (ws ++ us) (ss ++ ts)
Brings-append brings_nothing k = k
Brings-append (brings_written w found ws ss h) k = brings_written w found _ _ (Brings-append h k)
Brings-append (brings_kept w ws ss h) k = brings_kept w _ _ (Brings-append h k)

pub done : {A : Type 0} {Q : A → Type 0} (a : A) → Q a → Does Q (ret a) []
done a q = of_value a _ q brings_nothing

pub unseen :
    {A : Type 0} {Q : A → Type 0} {m : Program A}
    → Holds Grants (λ c. (r : Answer c) → steps_of c r ≡ []) Q ⊥ m
    → Does Q m []
unseen h = Holds-Spells _ brings_nothing h

pub Does-then :
    {A B : Type 0} {Q : A → Type 0} {S : B → Type 0} {m : Program A} {ws us : List Want}
    (f : A → Program B)
    → Does Q m ws
    → ((a : A) → Q a → Does S (f a) us)
    → Does S (m >>= f) (ws ++ us)
Does-then f h k = Spells-then f _ h λ a q vs l. Spells-mono (k a q) (λ ts t. Brings-append l t)

-- A part that cannot fail, and what follows it.
pub Does-next :
    {A B : Type 0} {Q : A → Type 0} {S : Result B → Type 0} {m : Program (Result A)}
    {ws us : List Want} (f : A → Program (Result B))
    → Does (Ends Q NoError) m ws
    → ((a : A) → Q a → Does S (f a) us)
    → Does S (m >>= λ r. try r f) (ws ++ us)
Does-next {Q} {S} {us} f h k = Does-then _ h next
  where
    next : (r : Result _) → Ends Q NoError r → Does S (try r f) us
    next (ok a) q = k a q
    next (err e) x = absurd x

module _ (env : Env) (k : Kind) (o : Object k) (w : Want) where
  -- What is left after the object has been looked up.
  abbrev After : Option (Object k) → List Step → Type 0
  After existing ss =
      Brings (w ∷ [])
        (looks_for (want_at k (meta_of k o) w.contents) (found_want k (ok existing)) ∷ ss)

  write-After :
      (existing : Option (Object k)) (result : Object k)
      → want_at k (meta_of k o) w.contents ≡ w
      → want_of k result ≡ w
      → Spells Grants steps_of Fine (call (write k result) ret) (After existing)
  write-After existing result at e = of_request (write k result) ret _ λ r f. of_value r _ f (
      subst
        (λ x.
          Brings (w ∷ [])
            (looks_for x (found_want k (ok existing)) ∷ writes (want_of k result) ∷ []))
        (sym at)
        (subst (λ x. Brings (w ∷ []) (looks_for w (found_want k (ok existing)) ∷ writes x ∷ []))
          (sym e) (brings_written w _ [] [] brings_nothing)))

  test-After :
      (b : Bool) (old result : Object k)
      → (b ≡ true → want_of k old ≡ want_of k result)
      → want_at k (meta_of k o) w.contents ≡ w
      → want_of k result ≡ w
      → Spells Grants steps_of Fine
          (if b then ret (ok tt) else call (write k result) ret)
          (After (some old))
  test-After true old result same at e = of_value _ _ tt (
      subst (λ x. Brings (w ∷ []) (looks_for x (some (want_of k old)) ∷ [])) (sym at)
        (subst (λ x. Brings (w ∷ []) (looks_for w (some x) ∷ [])) (sym (same refl ∙ e))
          (brings_kept w [] [] brings_nothing)))
  test-After false old result same at e = write-After (some old) result at e

  changed-After :
      (existing : Option (Object k)) (changed : Result (Object k))
      → EqualAlike env
      → want_at k (meta_of k o) w.contents ≡ w
      → Ends (λ result. want_of k result ≡ w) NoError changed
      → Spells Grants steps_of Fine
          (try changed λ result. write_changed env k existing result)
          (After existing)
  changed-After none (ok result) alike at e = write-After none result at e
  changed-After (some old) (ok result) alike at e =
      test-After (env.semantic_equal k old result) old result (alike k old result) at e
  changed-After existing (err x) alike at e = absurd e

-- The callback is given an object with the wanted name and namespace, and leaves what is wanted.
pub create_or_update-Does :
    (env : Env) (k : Kind) (o : Object k) (mutate : Object k → Program (Result (Object k)))
    (x : Contents)
    → EqualAlike env
    → ((found : Object k)
        → (meta_of k found).name ≡ (meta_of k o).name
        → (meta_of k found).namespace ≡ (meta_of k o).namespace
        → Does
            (Ends (λ changed. want_of k changed ≡ want_at k (meta_of k o) x) NoError)
            (mutate found)
            [])
    → Does Fine (create_or_update env k o mutate) (want_at k (meta_of k o) x ∷ [])
unfolding create_or_update
create_or_update-Does env k o mutate x alike h =
    of_request (fetch k o) _ _ λ r granted. after r granted
  where
    w : Want
    w = want_at k (meta_of k o) x

    given :
        (existing : Option (Object k))
        → FoundAt k o existing
        → Does
            (Ends (λ changed. want_of k changed ≡ w) NoError)
            (mutate (found_or_given k o existing))
            []
    given none g = h o refl refl
    given (some old) g = h old g.0 g.1

    after :
        (r : Result (Option (Object k)))
        → Ends (FoundAt k o) NoError r
        → Spells Grants steps_of Fine
            (try r λ existing. mutate (found_or_given k o existing) >>= λ changed.
              try changed λ result. write_changed env k existing result)
            (λ ss. Brings (w ∷ []) (looks_for w (found_want k r) ∷ ss))
    after (ok existing) g = Spells-then _ _ (given existing g) λ changed e vs l.
        subst
          (λ x.
            Spells Grants steps_of Fine (try changed λ result. write_changed env k existing result)
              (λ us. After env k o w existing (x ++ us)))
          (sym (nothing_brought vs l)) (changed-After env k o w existing changed alike refl e)
    after (err e) g = absurd g
