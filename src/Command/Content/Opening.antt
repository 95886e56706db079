-- ===== src/Command/Content/Opening.antt =====
-- cmd/hauler/cli/store/sync.go, processContent and resolveTargetStore: a store is opened once.
use hauler.Base.{
  refl, ◌∙◌, false, ap, Bool-cases, Option-cases, sum-cases, Option, none, some, List, [], ◌∷◌, ◌≡◌,
  Text, codes, text_eq, text_eq_iff, ◌⊎◌, ◌||◌, inl, inr, arith,
}
use hauler.Base.Int.{ℤ}
use hauler.Base.Dict
use hauler.Base.Dict.{Dict, lookup-insert}
use hauler.Command.Resolving.{resolve_image_jobs}
use hauler.Command.Documents.{
  Targets, resolve_doc_retries, resolve_target_store, resolve_file_jobs, resolve_chart_jobs,
}
use hauler.Command.Content.{
  Document, unloadable, files, images, charts, other_kind, SyncEnv, Syncing, Synced, ran,
  with_store, process_document, process_content,
}

-- the store is open under that path
abbrev pub IsOpen : {S : Type 0} → Text → S → Targets S → Type 0
IsOpen path store targets = Dict.lookup path targets ≡ some store

insert-IsOpen :
    {S : Type 0} (path abs : Text) (store opened : S) (targets : Targets S)
    → IsOpen path store targets
    → Dict.lookup abs targets ≡ none
    → IsOpen path store (Dict.insert abs opened targets)
insert-IsOpen path abs store opened targets h absent = elim (Bool-cases (text_eq abs path)) [
  | inl same ↦ absurd (ground (arith, text_eq_iff abs path, same, h, absent))
  | inr other ↦ ground (arith, lookup-insert abs path opened targets, other, h)
]

unopened :
    {S : Type 0} (path : Text) (store : S) (abs : Text) (targets : Targets S)
    → IsOpen path store targets
    → Dict.lookup abs targets ≡ none
    → text_eq abs path ≡ false
unopened path store abs targets h absent = ground (arith, text_eq_iff abs path, h, absent)

module _ {E S W : Type 0} (env : SyncEnv E S W) (path : Text) (store : S) where
  target_cases :
      (a : Dict Text) (targets targets' : Targets S) (chosen : S)
      → resolve_target_store env.resolve_dir env.open_store a env.root env.default_store targets
          env.store_set
        ≡ inr (chosen, targets')
      → (targets' ≡ targets)
        ⊎ ((abs : Text) × (opened : S) × (Dict.lookup abs targets ≡ none)
            × (targets' ≡ Dict.insert abs opened targets))
  unfolding resolve_target_store
  target_cases a targets targets' chosen ok =
      let target = Dict.get_or (codes "hauler.dev/store") [] a in
      elim (Bool-cases (env.store_set || text_eq target [])) [
        | inl kept ↦ inl (ground (arith, kept, ok))
        | inr asked ↦ elim (Option-cases (env.resolve_dir target)) [
          | inl bad ↦ absurd (ground (arith, asked, bad, ok))
          | inr (abs, found) ↦ elim (Bool-cases (text_eq abs env.root)) [
            | inl same ↦ inl (ground (arith, asked, found, same, ok))
            | inr other ↦ elim (Option-cases (Dict.lookup abs targets)) [
              | inr (known, present) ↦ inl (ground (arith, asked, found, other, present, ok))
              | inl absent ↦ elim (Option-cases (env.open_store abs)) [
                | inl bad ↦ absurd (ground (arith, asked, found, other, absent, bad, ok))
                | inr (opened, fine) ↦
                    inr (abs, opened, absent, ground (arith, asked, found, other, absent, fine, ok))
              ]
            ]
          ]
        ]
      ]

  target-IsOpen :
      (a : Dict Text) (targets targets' : Targets S) (chosen : S)
      → IsOpen path store targets
      → resolve_target_store env.resolve_dir env.open_store a env.root env.default_store targets
          env.store_set
        ≡ inr (chosen, targets')
      → IsOpen path store targets'
  target-IsOpen a targets targets' chosen h ok = elim (target_cases a targets targets' chosen ok) [
    | inl same ↦ rw same h
    | inr (abs, opened, absent, same) ↦
        rw same (insert-IsOpen path abs store opened targets h absent)
  ]

  ran-IsOpen :
      (r : Option E × W) (targets : Targets S)
      → IsOpen path store targets
      → IsOpen path store (ran env r targets).1.1
  unfolding ran
  ran-IsOpen (none, w) targets h = h
  ran-IsOpen (some e, w) targets h = h

  with_store-IsOpen :
      {A : Type 0} (version : Text) (decoded : Option (Dict Text × List A))
      (run : Dict Text → List A → S → ℤ → Targets S → Synced env) (w : W) (targets : Targets S)
      → IsOpen path store targets
      → ((a : Dict Text) (items : List A) (chosen : S) (retries : ℤ) (targets' : Targets S)
          → IsOpen path store targets'
          → IsOpen path store (run a items chosen retries targets').1.1)
      → IsOpen path store (with_store env version decoded run (w, targets)).1.1
  unfolding with_store
  with_store-IsOpen version decoded run w targets h runs =
      elim (Bool-cases (text_eq version (codes "v1"))) [
        | inr old ↦ rw old h
        | inl current ↦ elim (Option-cases decoded) [
          | inl bad ↦ rw current (rw bad h)
          | inr ((a, items), read) ↦
              elim (sum-cases (
                resolve_target_store env.resolve_dir env.open_store a env.root env.default_store
                  targets env.store_set)) [
                    | inl (e, failed) ↦ rw current (rw read (rw failed h))
                    | inr ((chosen, targets'), ok) ↦
                        let h' = target-IsOpen a targets targets' chosen h ok in
                        elim (sum-cases
                          (resolve_doc_retries env.atoi a env.retries env.retries_set)) [
                            | inl (e, failed) ↦ rw current (rw read (rw ok (rw failed h')))
                            | inr (retries, given) ↦ rw current (
                                rw read
                                  (rw ok (rw given (runs a items chosen retries targets' h'))))
                          ]
                  ]
        ]
      ]

  document-IsOpen :
      (d : Document) (w : W) (targets : Targets S)
      → IsOpen path store targets
      → IsOpen path store (process_document env d (w, targets)).1.1
  unfolding process_document
  document-IsOpen unloadable w targets h = h
  document-IsOpen other_kind w targets h = h
  document-IsOpen (files version decoded) w targets h =
      with_store-IsOpen version decoded _ w targets h (λ a items chosen retries targets' h'.
        ran-IsOpen (env.run_files chosen retries (resolve_file_jobs env.options a items) w) targets'
          h')
  document-IsOpen (images version decoded) w targets h =
      with_store-IsOpen version decoded _ w targets h (λ a items chosen retries targets' h'.
        elim (sum-cases (resolve_image_jobs env.lib env.expand env.options a items)) [
          | inl (e, failed) ↦ rw failed h'
          | inr (jobs, resolved) ↦
              rw resolved (ran-IsOpen (env.run_images chosen retries jobs w) targets' h')
        ])
  document-IsOpen (charts version decoded) w targets h =
      with_store-IsOpen version decoded _ w targets h (λ a items chosen retries targets' h'.
        elim (sum-cases (resolve_chart_jobs env.getenv env.join env.options a items)) [
          | inl (e, failed) ↦ rw failed h'
          | inr (jobs, resolved) ↦
              rw resolved (ran-IsOpen (env.run_charts chosen retries jobs w) targets' h')
        ])

  content-IsOpen :
      (ds : List Document) (s : Syncing env)
      → IsOpen path store s.1
      → IsOpen path store (process_content env ds s).1.1
  unfolding process_content
  content-IsOpen [] s h = h
  content-IsOpen (d ∷ ds) s h =
      let h' = document-IsOpen d s.0 s.1 h in
      elim (Option-cases (process_document env d s).0) [
        | inl fine ↦ rw (fine, process_content) (content-IsOpen ds (process_document env d s).1 h')
        | inr (e, failed) ↦ rw (failed, process_content) h'
      ]

  -- the annotations name the path, which counts for the run
  abbrev pub IsNamed : Dict Text → Type 0
  IsNamed a =
      ((env.store_set || text_eq (Dict.get_or (codes "hauler.dev/store") [] a) []) ≡ false)
      × (env.resolve_dir (Dict.get_or (codes "hauler.dev/store") [] a) ≡ some path)
      × (text_eq path env.root ≡ false)

  chosen_again :
      (a : Dict Text) (targets : Targets S)
      → IsOpen path store targets
      → IsNamed a
      → resolve_target_store env.resolve_dir env.open_store a env.root env.default_store targets
          env.store_set
        ≡ inr (store, targets)
  unfolding resolve_target_store
  chosen_again a targets h (counts, found, other) = rw counts (rw found (rw other (rw h refl)))

  -- The same run, but what opening a path answers is `reopen`, which differs under that path alone.
  module _ (reopen : Text → Option S)
      (elsewhere : (p : Text) → text_eq p path ≡ false → reopen p ≡ env.open_store p) where
    abbrev other_env : SyncEnv E S W
    other_env = record env { open_store = reopen }

    target_unopened :
        (a : Dict Text) (targets : Targets S)
        → IsOpen path store targets
        → resolve_target_store env.resolve_dir env.open_store a env.root env.default_store targets
            env.store_set
          ≡ resolve_target_store env.resolve_dir reopen a env.root env.default_store targets
              env.store_set
    unfolding resolve_target_store
    target_unopened a targets h =
        let target = Dict.get_or (codes "hauler.dev/store") [] a in
        elim (Option-cases (env.resolve_dir target)) [
          | inl bad ↦ rw bad refl
          | inr (abs, found) ↦ elim (Option-cases (Dict.lookup abs targets)) [
            | inr (known, present) ↦ rw found (rw present refl)
            | inl absent ↦
                rw found
                  (rw absent (rw (elsewhere abs (unopened path store abs targets h absent)) refl))
          ]
        ]

    with_store_unopened :
        {A : Type 0} (version : Text) (decoded : Option (Dict Text × List A))
        (run : Dict Text → List A → S → ℤ → Targets S → Synced env) (w : W) (targets : Targets S)
        → IsOpen path store targets
        → with_store env version decoded run (w, targets)
          ≡ with_store other_env version decoded run (w, targets)
    unfolding with_store
    with_store_unopened version none run w targets h = refl
    with_store_unopened version (some (a, items)) run w targets h =
        rw (target_unopened a targets h) refl

    document_unopened :
        (d : Document) (w : W) (targets : Targets S)
        → IsOpen path store targets
        → process_document env d (w, targets) ≡ process_document other_env d (w, targets)
    unfolding process_document
    document_unopened unloadable w targets h = refl
    document_unopened other_kind w targets h = refl
    document_unopened (files version decoded) w targets h =
        with_store_unopened version decoded _ w targets h
    document_unopened (images version decoded) w targets h =
        with_store_unopened version decoded _ w targets h
    document_unopened (charts version decoded) w targets h =
        with_store_unopened version decoded _ w targets h

    content_unopened :
        (ds : List Document) (s : Syncing env)
        → IsOpen path store s.1
        → process_content env ds s ≡ process_content other_env ds s
    unfolding process_content
    content_unopened [] s h = refl
    content_unopened (d ∷ ds) s h =
        let same = document_unopened d s.0 s.1 h in
        let r = process_document env d s in
        let later = content_unopened ds r.1 (document-IsOpen d s.0 s.1 h) in
        ap (λ (rest : Synced env). elim r.0 [ some x ↦ (some x, r.1) | none ↦ rest ]) later
        ∙ ap
            (λ (q : Synced env). elim q.0 [
              | some x ↦ (some x, q.1)
              | none ↦ process_content other_env ds q.1
            ])
            same

    -- Once a store is open under a path, no document of a manifest opens that path again: whatever
    -- opening it would answer, the documents have the same outcome and leave the same stores. The store
    -- stays the one that is open under the path, and it is the one that resolveTargetStore then chooses
    -- for annotations that name the path, if that is not the path of the run's own store and the command
    -- line names no store.
    pub process_content-IsOpen :
        (ds : List Document) (s : Syncing env) (a : Dict Text)
        → IsOpen path store s.1
        → IsNamed a
        → (process_content env ds s ≡ process_content other_env ds s)
          × IsOpen path store (process_content env ds s).1.1
          × (resolve_target_store env.resolve_dir env.open_store a env.root env.default_store
                (process_content env ds s).1.1
                env.store_set
              ≡ inr (store, (process_content env ds s).1.1))
    process_content-IsOpen ds s a h named =
        let left = content-IsOpen ds s h in
        (content_unopened ds s h, left, chosen_again a (process_content env ds s).1.1 left named)
