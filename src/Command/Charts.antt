-- ===== src/Command/Charts.antt =====
-- cmd/hauler/cli/store/add.go, the charts: the jobs that a dependency gives, the walk of the
-- dependency tree by traverseChartLevels, and the images that are pulled after it. What fetchChart
-- answers for a job is a parameter of the walk; a level's answers are in the order of its jobs.
pub mod Keys
pub mod Traversal
use hauler.Base.{
  ℕ, zero, suc, ◌+◌, ◌==◌, Bool, true, false, not, ◌&&◌, ◌||◌, Option, none, some, List, [], ◌∷◌,
  ◌++◌, map, Text, codes, text_eq, has_prefix, contains_byte, trim_space, ltb, if◌then◌else◌, ◌⊎◌,
  inl, inr,
}
use hauler.Base.Dict.{Dict}
use hauler.Base.Dict
use hauler.Consts.{ref_name_key}
use hauler.Content.Descriptor.{Descriptor, annotation}
use hauler.Content.Reference.{Named}
use hauler.Content.Index.{sort_stable}
use hauler.Content.Index.Operations.{update_annotations}
use hauler.Store.Add.{Layout}
use hauler.Store.Add.Writing.{trim_prefix}
use hauler.Store.Add.Images.{is_member}
use hauler.Command.Images.{ImageJob}
use hauler.Command.Rewriting.{
  FullRef, Env, CommandError, not_renamed, before_last_colon, tag_of, total, library_prefix,
}

-- flags.AddChartOpts with its action.ChartPathOptions, of which the walk sets the first two
pub record ChartOptions : Type 0 where
  pub repo_url : Text
  pub version : Text
  pub verify : Bool
  pub keyring : Text
  pub username : Text
  pub password : Text
  pub pass_credentials_all : Bool
  pub cert_file : Text
  pub key_file : Text
  pub ca_file : Text
  pub insecure_skip_tls_verify : Bool
  pub plain_http : Bool
  pub add_images : Bool
  pub add_dependencies : Bool
  pub exclude_extras : Bool
  pub registry : Text
  pub platform : Text
  pub values_files : List Text

-- chartJob: v1.Chart's name, repository and version, and the options
pub record ChartJob : Type 0 where
  pub name : Text
  pub repo_url : Text
  pub version : Text
  pub options : ChartOptions
  pub rewrite : Text
  pub parent : Text
  pub depth : ℕ

-- one of c.Metadata.Dependencies
pub record Dependency : Type 0 where
  pub name : Text
  pub version : Text
  pub repository : Text

-- chartJobKey
pub chart_job_key : ChartJob → Text
chart_job_key j = j.name ++ codes "|" ++ j.repo_url ++ codes "|" ++ j.version

-- a subchart that is already unpacked inside its parent's expansion
is_unpacked : Dependency → Bool
unfolding has_prefix
is_unpacked dep = has_prefix dep.repository (codes "file://") || text_eq dep.repository []

-- the job of a dependency; `subchart` is filepath.Join(chartPath, "charts", dep.Name)
dependency_job : ChartJob → Text → (subchart : Text) → Dependency → ChartJob
unfolding is_unpacked
dependency_job j parent subchart dep =
    let options = record j.options { add_dependencies = true; add_images = false } in
    if is_unpacked dep
    then record {
      name = subchart;
      repo_url = [];
      version = [];
      options = record options { repo_url = []; version = [] };
      rewrite = [];
      parent = parent;
      depth = suc j.depth;
    }
    else record {
      name = dep.name;
      repo_url = dep.repository;
      version = dep.version;
      options = record options { repo_url = dep.repository; version = dep.version };
      rewrite = [];
      parent = parent;
      depth = suc j.depth;
    }

-- the dependency charts that fetchChart reports
dependency_jobs : ChartJob → Text → (subchart : Text → Text) → List Dependency → List ChartJob
unfolding dependency_job
dependency_jobs j parent subchart deps =
    if j.options.add_dependencies
    then map (λ (d : Dependency). dependency_job j parent (subchart d.name) d) deps
    else []

abbrev pub max_chart_depth : ℕ
max_chart_depth = 10

-- What a walk has fetched, in order, with the images that it discovered, and the jobs that the
-- depth limit leaves unfetched.
pub record Walked : Type 0 where
  pub images : List ImageJob
  pub fetched : List ChartJob
  pub left : List ChartJob

-- the keys of a level
abbrev pub keys : List ChartJob → List Text
keys [] = []
keys (j ∷ js) = chart_job_key j ∷ keys js

-- the next level: the jobs whose keys are not seen yet, and the keys that are seen after it
pub unseen : List Text → List ChartJob → List ChartJob × List Text
unseen seen [] = ([], seen)
unseen seen (d ∷ ds) =
    let skipped = unseen seen ds in
    let taken = unseen (chart_job_key d ∷ seen) ds in
    if is_member (chart_job_key d) seen then skipped else (d ∷ taken.0, taken.1)

module _ {E : Type 0} (fetch : ChartJob → E ⊎ (List ImageJob × List ChartJob)) where
  -- one level: every chart of it is fetched, and Wait returns the first error
  pub fetch_level : List ChartJob → E ⊎ (List ImageJob × List ChartJob)
  fetch_level [] = inr ([], [])
  fetch_level (j ∷ js) =
      let rest = fetch_level js in
      elim (fetch j) [
        | inl e ↦ inl e
        | inr (images, deps) ↦ elim rest [
          | inl e ↦ inl e
          | inr (more, others) ↦ inr (images ++ more, deps ++ others)
        ]
      ]

  -- the loop over the levels, with the depth that is left
  pub levels : ℕ → List Text → List ChartJob → E ⊎ Walked
  levels zero seen level = inr record { images = []; fetched = []; left = level }
  levels (suc n) seen [] = inr record { images = []; fetched = []; left = [] }
  levels (suc n) seen (j ∷ js) = elim (fetch_level (j ∷ js)) [
    | inl e ↦ inl e
    | inr (images, deps) ↦
        let (next, seen') = unseen seen deps in
        elim (levels n seen' next) [
          | inl e ↦ inl e
          | inr w ↦
              inr record {
                images = images ++ w.images;
                fetched = (j ∷ js) ++ w.fetched;
                left = w.left;
              }
        ]
  ]

  -- traverseChartLevels
  unfoldable pub traverse_chart_levels : List ChartJob → E ⊎ Walked
  unfolding levels fetch_level unseen is_member chart_job_key
  traverse_chart_levels jobs = levels max_chart_depth (keys jobs) jobs

-- the key of dedupeImageJobs
pub same_pull : ImageJob → ImageJob → Bool
same_pull i j =
    text_eq i.name j.name
    && text_eq i.platform j.platform
    && (if i.exclude_extras then j.exclude_extras else not j.exclude_extras)

-- a job of the same key is among them
has_pull : ImageJob → List ImageJob → Bool
has_pull j [] = false
has_pull j (i ∷ is) = same_pull i j || has_pull j is

-- dedupeImageJobs: `seen` holds the jobs that are kept
dedupe_from : List ImageJob → List ImageJob → List ImageJob
unfolding has_pull
dedupe_from seen [] = []
dedupe_from seen (j ∷ js) =
    let dropped = dedupe_from seen js in
    let kept = dedupe_from (j ∷ seen) js in if has_pull j seen then dropped else j ∷ kept

unfoldable pub dedupe_image_jobs : List ImageJob → List ImageJob
unfolding dedupe_from
dedupe_image_jobs jobs = dedupe_from [] jobs
