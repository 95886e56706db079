-- ===== src/Command/Discovery.antt =====
-- cmd/hauler/cli/store/add.go: the images that fetchChart discovers in a chart, the rewrite of its
-- reference, and runChartJobs. Helm, the YAML decoder and the regular expression are parameters.
use hauler.Base.{
  ltb, ◌==◌, Bool, true, false, ◌&&◌, ◌||◌, Option, none, some, List, [], ◌∷◌, ◌++◌, map, Text,
  codes, text_eq, has_prefix, contains_byte, trim_space, if◌then◌else◌, inl, inr,
}
use hauler.Base.Dict
use hauler.Base.Dict.{Dict}
use hauler.Consts.{ref_name_key}
use hauler.Content.Descriptor.{annotation}
use hauler.Content.Reference.{Named}
use hauler.Content.Index.{sort_stable}
use hauler.Content.Index.Operations.{update_annotations}
use hauler.Content.Blob.{DigestLib}
use hauler.Store.Add.{Layout}
use hauler.Store.Add.Writing.{trim_prefix}
use hauler.Command.Verify.{Notary, empty_config}
use hauler.Command.Images.{ImageJob, run_remote_jobs}
use hauler.Command.Rewriting.{
  FullRef, Env, CommandError, not_renamed, before_last_colon, tag_of, total, library_prefix,
  bad_rewrite, image_not_found,
}
use hauler.Command.Charts.{ChartJob, Walked, dedupe_image_jobs}
use hauler.Command.Names.{RefLib, apply_default_registry}

-- s < t, byte by byte
text_less : Text → Text → Bool
text_less [] [] = false
text_less [] (d ∷ t) = true
text_less (c ∷ s) [] = false
text_less (c ∷ s) (d ∷ t) = ltb c d || ((c == d) && text_less s t)

-- slices.Compact: `last` stands before the list
compact_from : Text → List Text → List Text
compact_from last [] = []
compact_from last (t ∷ ts) =
    let rest = compact_from t ts in if text_eq last t then rest else t ∷ rest

compact : List Text → List Text
unfolding compact_from
compact [] = []
compact (t ∷ ts) = t ∷ compact_from t ts

-- normalizeUniq: no leading slash, sorted, without repetition
normalize_uniq : List Text → List Text
unfolding trim_prefix compact text_less
normalize_uniq ts = compact (sort_stable text_less (map (λ t. trim_prefix t (codes "/")) ts))

-- the images of one decoded annotation
annotated_images : List Text → List Text
unfolding trim_space trim_prefix
annotated_images [] = []
annotated_images (image ∷ images) =
    let img = trim_space image in
    let rest = annotated_images images in
    if text_eq img [] then rest else trim_prefix img (codes "/") ∷ rest

-- one annotation of the chart: nothing where it is blank, none where it does not decode
annotation_images : (decode : Text → Option (List Text)) → Text → Option (List Text)
unfolding annotated_images
annotation_images decode raw =
    if text_eq (trim_space raw) []
    then some []
    else elim (decode raw) [ none ↦ none | some items ↦ some (annotated_images items) ]

-- imagesFromChartAnnotations
images_from_chart_annotations :
    (decode : Text → Option (List Text)) → Dict Text → Option (List Text)
unfolding annotation_images compact text_less Dict.get_or
images_from_chart_annotations decode a =
    elim (annotation_images decode (Dict.get_or (codes "helm.sh/images") [] a)) [
      | none ↦ none
      | some first ↦ elim (annotation_images decode (Dict.get_or (codes "images") [] a)) [
        | none ↦ none
        | some second ↦ some (compact (sort_stable text_less (first ++ second)))
      ]
    ]

-- the matches in the lock files that can be read
lock_matches : (find_images : Text → List Text) → List (Option Text) → List Text
lock_matches find_images [] = []
lock_matches find_images (none ∷ files) = lock_matches find_images files
lock_matches find_images (some content ∷ files) =
    find_images content ++ lock_matches find_images files

-- imagesFromImagesLock
images_from_images_lock : (find_images : Text → List Text) → List (Option Text) → List Text
unfolding normalize_uniq lock_matches
images_from_images_lock find_images files = normalize_uniq (lock_matches find_images files)

-- the images of a chart: those of its templates, its annotations and its lock files
merge_images : (templates annotations locks : List Text) → List Text
unfolding normalize_uniq
merge_images templates annotations locks =
    normalize_uniq
      ((normalize_uniq templates ++ normalize_uniq annotations) ++ normalize_uniq locks)

-- the job of an image that a chart names
discovered_job : ChartJob → Text → ImageJob
discovered_job j name = record {
  name = name;
  platform = j.options.platform;
  exclude_extras = j.options.exclude_extras;
  rewrite = [];
  local = false;
  config = empty_config;
}

-- the image jobs of a chart, none for an image that cannot be relocated without --ignore-errors
discovered_jobs : RefLib → Bool → ChartJob → List Text → Option (List ImageJob)
unfolding discovered_job
discovered_jobs lib ignore_errors j [] = some []
discovered_jobs lib ignore_errors j (image ∷ images) =
    let rest = discovered_jobs lib ignore_errors j images in
    elim (apply_default_registry lib image j.options.registry) [
      | none ↦ if ignore_errors then rest else none
      | some name ↦ elim rest [ none ↦ none | some jobs ↦ some (discovered_job j name ∷ jobs) ]
    ]

-- chartDisplayName; `base` is filepath.Base
chart_display_name : (base : Text → Text) → Text → Text
unfolding contains_byte
chart_display_name base name = if contains_byte b'/' name then base name else name

-- encodeOriginalChartRef
encode_original_chart_ref : Text → Text → Text
encode_original_chart_ref repo_url total_name = repo_url ++ codes "|" ++ total_name

-- the reference that a chart is retagged to: with the old tag where the rewrite has none
chart_target : Env → FullRef → Text → Option FullRef
unfolding contains_byte tag_of
chart_target env ref rewrite = elim (env.parse rewrite) [
  | none ↦ none
  | some new ↦
      if contains_byte b':' rewrite
      then some new
      else env.parse (rewrite ++ codes ":" ++ tag_of ref)
]

-- its repository
chart_repository : FullRef → Text → Text
unfolding has_prefix before_last_colon trim_prefix
chart_repository new raw =
    if has_prefix (before_last_colon raw) library_prefix
    then new.repository
    else trim_prefix new.repository library_prefix

-- the images of runChartJobs, each with what its job meets
with_env : (ImageJob → Env × Notary) → List ImageJob → List (Env × Notary × ImageJob)
with_env meets [] = []
with_env meets (j ∷ js) = ((meets j).0, (meets j).1, j) ∷ with_env meets js

module _ (lib : DigestLib) (parse_reference : Text → Option Named) where
  -- rewriteChartReference
  rewrite_chart_reference : Env → FullRef → Text → Layout → Option CommandError × Layout
  unfolding trim_prefix chart_target chart_repository total tag_of Dict.insert Dict.get_or
  rewrite_chart_reference env ref rewrite s =
      let raw = trim_prefix rewrite (codes "/") in
      let old_total = total ref.repository (tag_of ref) in
      elim (chart_target env ref raw) [
        | none ↦ (some bad_rewrite, s)
        | some new ↦
            let new_total = total (chart_repository new raw) (tag_of new) in
            let (r, o) =
              update_annotations parse_reference env.rename_save env.rename_now
                (λ d. text_eq (annotation ref_name_key d) old_total)
                (λ a. Dict.insert ref_name_key new_total a) s.oci in
            elim r [
              | inl e ↦ (some (not_renamed e), record s { oci = o })
              | inr (matched, failed) ↦ elim failed [
                | some e ↦ (some (not_renamed e), record s { oci = o })
                | none ↦ (if matched == 0 then some image_not_found else none, record s { oci = o })
              ]
            ]
      ]

  -- runChartJobs, past the walk: the images that it discovered, in one pass without repetition
  run_chart_images : (ImageJob → Env × Notary) → Walked → Layout → Option CommandError × Layout
  unfolding dedupe_image_jobs with_env run_remote_jobs
  run_chart_images meets w s =
      run_remote_jobs lib parse_reference (with_env meets (dedupe_image_jobs w.images)) s
