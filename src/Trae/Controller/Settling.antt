-- ===== src/Trae/Controller/Settling.antt =====
-- A pass over a lawful server, step by step: each step settles the objects that it is about.
use work_script.Prelude.{◌≡◌, refl, sym, ap, ◌∙◌, none, some, inl, inr, Option-cases}
use work_script.Kube.{NamespacedName, ConfigMap, Service}
use work_script.Effects.Runs.{Leaves, Leaves-done, Leaves-as, Leaves-call}
use work_script.Trae.Api
use work_script.Trae.Program.{
  Program, Kind, Object, Result, key_of, config_map, service, stateful_set, ok, err, ret, perform,
  get, create, update,
}
use work_script.Trae.Controller.{
  get_or_create, found_or, apply_config_map, apply_service, apply_stateful_set,
}
use work_script.Trae.Store.{View, put, merged, settle}
use work_script.Trae.Store.Laws.{put_same}
use work_script.Trae.Server.{ApiServer, IsLawful}

module _ {W : Type 0} (s : ApiServer W) (lawful : IsLawful s) where
  -- The program succeeds, and leaves the server with a view.
  abbrev pub Succeeds : Program (Result (Unit {0})) → W → View → Type 0
  Succeeds m w v = Leaves s.answer s.view m w (ok tt) v

  create-Succeeds :
      (k : Kind) (o : Object k) (w : W)
      → s.view w k (key_of k o) ≡ none
      → Succeeds (perform (create k o)) w (put k (key_of k o) o (s.view w))
  create-Succeeds k o w h =
      let (e, v) = lawful.create-missing k o w h in
      Leaves-call s.answer s.view (create k o) ret w (ok tt) e
        (Leaves-done s.answer s.view (ok tt) (s.answer (create k o) w).1 v)

  update-Succeeds :
      (k : Kind) (o old : Object k) (w : W)
      → s.view w k (key_of k o) ≡ some old
      → Succeeds (perform (update k o)) w (put k (key_of k o) o (s.view w))
  update-Succeeds k o old w h =
      let (e, v) = lawful.update-found k o old w h in
      Leaves-call s.answer s.view (update k o) ret w (ok tt) e
        (Leaves-done s.answer s.view (ok tt) (s.answer (update k o) w).1 v)

  -- An update of what was found under a key, under which it stays.
  change-Succeeds :
      (k : Kind) (o old : Object k) (key : NamespacedName) (w w' : W)
      → key_of k o ≡ key_of k old
      → s.view w k key ≡ some old
      → s.view w' ≡ s.view w
      → Succeeds (perform (update k o)) w' (put k key o (s.view w))
  change-Succeeds k o old key w w' kept found same =
      let at_key = kept ∙ lawful.view-key k key w old found in
      Leaves-as s.answer s.view (perform (update k o)) w' (λ i. put k (at_key i) o (same i))
        (update-Succeeds k o old w' ((λ i. same i k (at_key i)) ∙ found))

  merged-none : (k : Kind) (o : Object k) → merged k o none ≡ o
  merged-none config_map o = refl
  merged-none service o = refl
  merged-none stateful_set o = refl

  get_or_create-Succeeds :
      (k : Kind) (o : Object k) (present : Object k → Program (Result (Unit {0}))) (w : W)
      → ((old : Object k)
          → s.view w k (key_of k o) ≡ some old
          → (w' : W) → s.view w' ≡ s.view w
          → Succeeds (present old) w' (put k (key_of k o) (merged k o (some old)) (s.view w)))
      → Succeeds (get_or_create k o present) w (settle (record { kind = k; object = o }) (s.view w))
  unfolding settle
  get_or_create-Succeeds k o present w change = elim (Option-cases (s.view w k (key_of k o))) [
    | inl absent ↦
        let key = key_of k o in
        let (e, not_found, answered) = lawful.get-missing k key w absent in
        let same = lawful.get-view k key w in
        Leaves-call s.answer s.view (get k key) (found_or k o present) w (err e) answered (
          rw not_found (
            Leaves-as s.answer s.view (perform (create k o)) (s.answer (get k key) w).1
              ((λ i. put k key o (same i))
                ∙ ap (λ x. put k key x (s.view w)) (sym (ap (merged k o) absent ∙ merged-none k o)))
              (create-Succeeds k o (s.answer (get k key) w).1 ((λ i. same i k key) ∙ absent))))
    | inr (old, there) ↦
        let key = key_of k o in
        Leaves-call s.answer s.view (get k key) (found_or k o present) w (ok old)
          (lawful.get-found k key w old there)
          (Leaves-as s.answer s.view (present old) (s.answer (get k key) w).1
            (ap (λ x. put k key (merged k o x) (s.view w)) (sym there))
            (change old there (s.answer (get k key) w).1 (lawful.get-view k key w)))
  ]

  pub apply_config_map-Succeeds :
      (o : ConfigMap) (w : W)
      → Succeeds
          (apply_config_map o)
          w
          (settle (record { kind = config_map; object = o }) (s.view w))
  unfolding apply_config_map
  apply_config_map-Succeeds o w = get_or_create-Succeeds config_map o _ w λ old there w' same.
      change-Succeeds config_map (record old { contents = o.contents }) old _ w w' refl there same

  pub apply_service-Succeeds :
      (o : Service) (w : W)
      → Succeeds (apply_service o) w (settle (record { kind = service; object = o }) (s.view w))
  unfolding apply_service
  apply_service-Succeeds o w = get_or_create-Succeeds service o _ w λ old there w' same.
      Leaves-done s.answer s.view (ok tt) w' (same ∙ sym (put_same service _ old (s.view w) there))

  pub apply_stateful_set-Succeeds :
      (o : Api.StatefulSet) (w : W)
      → Succeeds
          (apply_stateful_set o)
          w
          (settle (record { kind = stateful_set; object = o }) (s.view w))
  unfolding apply_stateful_set
  apply_stateful_set-Succeeds o w = get_or_create-Succeeds stateful_set o _ w λ old there w' same.
      change-Succeeds stateful_set (record old { spec = o.spec }) old _ w w' refl there same
