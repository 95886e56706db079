-- ===== src/Command/Content.antt =====
-- cmd/hauler/cli/store/sync.go, processContent: the documents of a manifest, one after the other. What
-- the runs of the jobs do to the stores is a parameter, as are the decoders of the documents.
pub mod Opening
use hauler.Base.{
  Bool, true, false, Option, none, some, List, [], ◌∷◌, ◌++◌, ◌≡◌, refl, Text, codes, text_eq, ◌⊎◌,
  inl, inr, if◌then◌else◌, sum-cases,
}
use hauler.Base.Int.{ℤ}
use hauler.Base.Dict
use hauler.Base.Dict.{Dict}
use hauler.Command.Images.{ImageJob}
use hauler.Command.Charts.{ChartJob}
use hauler.Command.Names.{RefLib}
use hauler.Command.Precedence.{ImageSpec, SyncOpts, ResolveError}
use hauler.Command.Resolving.{resolve_image_jobs}
use hauler.Command.Documents.{
  Targets, FileSpec, ChartSpec, resolve_doc_retries, resolve_target_store, resolve_file_jobs,
  resolve_chart_jobs,
}

-- A document as content.Load and yaml.Unmarshal read it: its version, and its annotations and its
-- items unless it does not decode; or what is no content, or is of another kind.
pub data Document : Type 0 where
  unloadable : Document
  files : Text → Option (Dict Text × List FileSpec) → Document
  images : Text → Option (Dict Text × List ImageSpec) → Document
  charts : Text → Option (Dict Text × List ChartSpec) → Document
  other_kind : Document

pub data ContentError (E : Type 0) : Type 0 where
  unsupported_kind unsupported_version undecoded : ContentError E
  unresolved : ResolveError → ContentError E
  failed : E → ContentError E

-- The options of a run, and what it meets outside of the repository. `S` is a store, and `W` what all
-- the stores hold.
pub record SyncEnv (E S W : Type 0) : Type 0 where
  pub options : SyncOpts
  pub lib : RefLib
  pub expand : Text → Option Text
  pub getenv : Text → Text
  pub join : Text → Text
  pub atoi : Text → Option ℤ
  pub resolve_dir : Text → Option Text
  pub open_store : Text → Option S
  pub root : Text
  pub default_store : S
  pub store_set : Bool
  pub retries : ℤ
  pub retries_set : Bool
  pub run_files : S → ℤ → List FileSpec → W → Option E × W
  pub run_images : S → ℤ → List ImageJob → W → Option E × W
  pub run_charts : S → ℤ → List ChartJob → W → Option E × W

module _ {E S W : Type 0} (env : SyncEnv E S W) where
  -- what all the stores hold, and the stores that are open
  abbrev pub Syncing : Type 0
  Syncing = W × Targets S

  abbrev pub Synced : Type 0
  Synced = Option (ContentError E) × Syncing

  -- the answer of a run of jobs
  unfoldable pub ran : Option E × W → Targets S → Synced
  ran (none, w) targets = (none, (w, targets))
  ran (some e, w) targets = (some (failed e), (w, targets))

  -- the store and the retries of a document of version v1 that decodes, and then its jobs
  unfoldable pub with_store :
      {A : Type 0}
      → (version : Text) → Option (Dict Text × List A)
      → (Dict Text → List A → S → ℤ → Targets S → Synced)
      → Syncing
      → Synced
  unfolding resolve_target_store resolve_doc_retries
  with_store version decoded run (w, targets) =
      if text_eq version (codes "v1")
      then elim decoded [
        | none ↦ (some undecoded, (w, targets))
        | some (a, items) ↦
            elim (resolve_target_store env.resolve_dir env.open_store a env.root env.default_store
              targets env.store_set) [
                | inl e ↦ (some (unresolved e), (w, targets))
                | inr (store, targets') ↦
                    elim (resolve_doc_retries env.atoi a env.retries env.retries_set) [
                      | inl e ↦ (some (unresolved e), (w, targets'))
                      | inr retries ↦ run a items store retries targets'
                    ]
              ]
      ]
      else (some unsupported_version, (w, targets))

  -- one document
  unfoldable pub process_document : Document → Syncing → Synced
  unfolding with_store ran resolve_file_jobs resolve_image_jobs resolve_chart_jobs
  process_document unloadable s = (none, s)
  process_document (files version decoded) (w, targets) =
      with_store version decoded
        (λ a items store retries targets'.
          ran (env.run_files store retries (resolve_file_jobs env.options a items) w) targets')
        (w, targets)
  process_document (images version decoded) (w, targets) =
      with_store version decoded
        (λ a items store retries targets'.
          elim (resolve_image_jobs env.lib env.expand env.options a items) [
            | inl e ↦ (some (unresolved e), (w, targets'))
            | inr jobs ↦ ran (env.run_images store retries jobs w) targets'
          ])
        (w, targets)
  process_document (charts version decoded) (w, targets) =
      with_store version decoded
        (λ a items store retries targets'.
          elim (resolve_chart_jobs env.getenv env.join env.options a items) [
            | inl e ↦ (some (unresolved e), (w, targets'))
            | inr jobs ↦ ran (env.run_charts store retries jobs w) targets'
          ])
        (w, targets)
  process_document other_kind s = (some unsupported_kind, s)

  -- processContent: the first error ends it
  unfoldable pub process_content : List Document → Syncing → Synced
  unfolding process_document
  process_content [] s = (none, s)
  process_content (d ∷ ds) s =
      let (e, s') = process_document d s in
      let rest = process_content ds s' in elim e [ some x ↦ (some x, s') | none ↦ rest ]
