-- ===== src/CommonSteps/Download/Retrieved.antt =====
-- What the step that downloads leaves in the bag.
use packer_plugin_sdk.Prelude.{
  Result, failed, got, ℕ, suc, ◌≡◌, refl, ◌∙◌, ◌⊎◌, inl, inr, Bool, false, some, List, [], ◌∷◌,
  ◌++◌, String, join, arith, Bool-cases, str_eq, str_eq_refl, is_nil,
}
use packer_plugin_sdk.Multistep.StateBag.{Value, StateBag}
use packer_plugin_sdk.Multistep.Step.{StepAction, action_continue, action_halt}
use packer_plugin_sdk.CommonSteps.Ui.{Ui}
use packer_plugin_sdk.CommonSteps.Download.{
  StepDownload, UrlLib, Files, use_source, download, retrieve, try_sources, keep, download_run,
}

module _ {Url : Type 0} (lib : UrlLib Url) {S : Type 0} {bag : StateBag S} (ui : Ui S bag)
    (files : Files S) (held : List ℕ → Value) (show_errors : List String → String)
    (done : ℕ → Bool) where
  -- The sources are tried in their order, the step and the state going from one to the next: those
  -- before the end have failed, and the last one gave the file.
  abbrev pub Tried : ℕ → List (List ℕ) → List ℕ → List ℕ → StepDownload → S → Type 0
  Tried i [] source dst s st = ⊥
  Tried i (x ∷ xs) source dst s st =
      (done i ≡ false)
      × (((x ≡ source) × ((retrieve lib ui files x s st).0 ≡ got dst))
          ⊎ ((e : String) × ((retrieve lib ui files x s st).0 ≡ failed e)
              × Tried (suc i) xs source dst (retrieve lib ui files x s st).1
                  (retrieve lib ui files x s st).2))

  -- A run that continues has the file of a source in the bag, and that source; one that halts has an error.
  abbrev pub Retrieved : ℕ → List (List ℕ) → StepDownload → S → StepAction → S → Type 0
  Retrieved i sources s st action_continue after =
      (source dst : List ℕ) × Tried i sources source dst s st
      × (bag.get_ok "SourceImageURL" after ≡ some (held source))
      × (str_eq "SourceImageURL" s.result_key ≡ false
          → bag.get_ok s.result_key after ≡ some (held dst))
  Retrieved i sources s st action_halt after =
      (e : String) × (bag.get_ok "error" after ≡ some (Value.error e))

  has_put : (k : String) (v : Value) (s : S) → bag.get_ok k (bag.put k v s) ≡ some v
  has_put k v s = ground (arith, bag.get_ok-put k k v s, str_eq_refl k)

  -- The key under which the file is put does not change.
  retrieve-result_key :
      (x : List ℕ) (s : StepDownload) (st : S)
      → (retrieve lib ui files x s st).1.result_key ≡ s.result_key
  unfolding retrieve download use_source
  retrieve-result_key x s st = ground arith

  -- A source that failed stands before the ones that are tried next.
  extend :
      (i : ℕ) (x : List ℕ) (xs : List (List ℕ)) (s : StepDownload) (st : S) (e : String)
      (a : StepAction) (after : S)
      → done i ≡ false
      → (retrieve lib ui files x s st).0 ≡ failed e
      → Retrieved
          (suc i)
          xs
          (retrieve lib ui files x s st).1
          (retrieve lib ui files x s st).2
          a
          after
      → Retrieved i (x ∷ xs) s st a after
  extend i x xs s st e action_continue after h r k =
      (k.0, k.1, (h, inr (e, r, k.2)), k.3, rw (retrieve-result_key x s st) at k.4)
  extend i x xs s st e action_halt after h r k = k

  kept :
      (i : ℕ) (x : List ℕ) (xs : List (List ℕ)) (s : StepDownload) (st : S) (dst : List ℕ)
      → done i ≡ false
      → (retrieve lib ui files x s st).0 ≡ got dst
      → (let k =
            keep lib ui files held show_errors done x dst
              (retrieve lib ui files x s st).1
              (retrieve lib ui files x s st).2 in
          Retrieved i (x ∷ xs) s st k.0 k.2)
  unfolding keep
  kept i x xs s st dst h r = (
    x,
    dst,
    (h, inl (refl, r)),
    has_put _ _ _,
    λ ne.
        rw
          (
            bag.get_ok-put "SourceImageURL" s.result_key (held x) (
                bag.put (retrieve lib ui files x s st).1.result_key (held dst)
                  (retrieve lib ui files x s st).2),
            ne,
            retrieve-result_key x s st,
          )
          (has_put s.result_key (held dst) (retrieve lib ui files x s st).2),
  )

  next_source :
      (i : ℕ) (x : List ℕ) (xs : List (List ℕ)) (errs : List String) (s : StepDownload) (st : S)
      (result : Result (List ℕ))
      → done i ≡ false
      → (retrieve lib ui files x s st).0 ≡ result
      → try_sources lib ui files held show_errors done i (x ∷ xs) errs s st ≡ (elim result [
        | failed e ↦
            try_sources lib ui files held show_errors done
              (suc i)
              xs
              (errs ++ (e ∷ []))
              (retrieve lib ui files x s st).1
              (retrieve lib ui files x s st).2
        | got dst ↦
            keep lib ui files held show_errors done x dst
              (retrieve lib ui files x s st).1
              (retrieve lib ui files x s st).2
      ])
  unfolding try_sources
  next_source i x xs errs s st result h r = rw (h, r) refl

  -- One source, whatever it gives, if the ones behind it are retrieved.
  followed :
      (i : ℕ) (x : List ℕ) (xs : List (List ℕ)) (errs : List String) (s : StepDownload) (st : S)
      (result : Result (List ℕ))
      → done i ≡ false
      → (retrieve lib ui files x s st).0 ≡ result
      → ((es : List String)
          → (let t = retrieve lib ui files x s st in
              let r = try_sources lib ui files held show_errors done (suc i) xs es t.1 t.2 in
              Retrieved (suc i) xs t.1 t.2 r.0 r.2))
      → (let r = try_sources lib ui files held show_errors done i (x ∷ xs) errs s st in
          Retrieved i (x ∷ xs) s st r.0 r.2)
  followed i x xs errs s st (failed e) h r k =
      rw (next_source i x xs errs s st (failed e) h r)
        (extend i x xs s st e _ _ h r (k (errs ++ (e ∷ []))))
  followed i x xs errs s st (got dst) h r k =
      rw (next_source i x xs errs s st (got dst) h r) (kept i x xs s st dst h r)

  try_sources-Retrieved :
      (i : ℕ) (sources : List (List ℕ)) (errs : List String) (s : StepDownload) (st : S)
      → (let r = try_sources lib ui files held show_errors done i sources errs s st in
          Retrieved i sources s st r.0 r.2)
  unfolding try_sources
  try_sources-Retrieved i [] errs s st = (_, ui.get_ok-error _ _ _ ∙ has_put _ _ _)
  try_sources-Retrieved i (x ∷ xs) errs s st = elim (Bool-cases (done i)) [
    | inl h ↦ rw h (_, has_put _ _ _)
    | inr h ↦ followed i x xs errs s st (retrieve lib ui files x s st).0 h refl (λ es.
        try_sources-Retrieved (suc i) xs es (retrieve lib ui files x s st).1
          (retrieve lib ui files x s st).2)
  ]

  -- With any source: a run that continues has tried the sources in their order up to the first that
  -- gave a file, the context not being done before any of them, and has put that source and, under a
  -- key that is another one, that file in the bag. A run that halts has put an error there.
  pub download_run-Retrieved :
      (s : StepDownload) (st : S)
      → is_nil s.url ≡ false
      → (let r = download_run lib ui files held show_errors done s st in
          Retrieved 0 s.url s (ui.say (join "Retrieving " s.description) st) r.0 r.2)
  unfolding download_run
  download_run-Retrieved s st h = rw h (try_sources-Retrieved 0 s.url [] s _)
