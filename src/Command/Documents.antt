-- ===== src/Command/Documents.antt =====
-- cmd/hauler/cli/store/sync.go and add.go: what a document's annotations choose (the store and the
-- retries), the credentials and the jobs of charts, the jobs of files, and the lines of an image.txt.
-- os.Getenv, strconv.Atoi, filepath.Join and ResolveStoreDir are parameters.
use hauler.Base.{
  Bool, false, ◌&&◌, ◌||◌, Option, none, some, List, [], ◌∷◌, map, Text, codes, text_eq, has_prefix,
  trim_space, if◌then◌else◌, ◌⊎◌, inl, inr, ◌==◌,
}
use hauler.Base.Int.{ℤ, pos, negsuc}
use hauler.Base.Dict
use hauler.Base.Dict.{Dict}
use hauler.Consts.{default_retries}
use hauler.Command.Verify.{empty_config}
use hauler.Command.Images.{ImageJob}
use hauler.Command.Charts.{ChartJob, ChartOptions}
use hauler.Command.Precedence.{
  SyncOpts, ResolveError, store_unopened, is_set, is_true, first_set, resolve_bool_flag,
  resolve_ca_file, resolve_insecure, partial_credentials, unset_credentials, bad_retries,
  negative_retries, store_unresolved,
}

-- resolveDocRetries: the retries of the document
unfoldable pub resolve_doc_retries :
    (atoi : Text → Option ℤ) → Dict Text → (retries : ℤ) → (cli_set : Bool) → ResolveError ⊎ ℤ
unfolding Dict.get_or
resolve_doc_retries atoi a retries cli_set =
    let v = Dict.get_or (codes "hauler.dev/retries") [] a in
    if cli_set || text_eq v [] then inr retries else elim (atoi v) [
      | none ↦ inl bad_retries
      | some (negsuc n) ↦ inl negative_retries
      | some (pos n) ↦ inr (pos (if n == 0 then default_retries else n))
    ]

-- the stores that the documents of a run have opened, by absolute path
abbrev pub Targets : Type 0 → Type 0
Targets S = Dict S

module _ {S : Type 0} (resolve_dir : Text → Option Text) (open_store : Text → Option S) where
  -- resolveTargetStore: the store, and the stores that are open after it
  unfoldable pub resolve_target_store :
      Dict Text → (root : Text) → S → Targets S → (cli_set : Bool) → ResolveError ⊎ S × Targets S
  unfolding Dict.get_or Dict.lookup Dict.insert
  resolve_target_store a root default targets cli_set =
      let target = Dict.get_or (codes "hauler.dev/store") [] a in
      if cli_set || text_eq target [] then inr (default, targets) else elim (resolve_dir target) [
        | none ↦ inl store_unresolved
        | some abs ↦
            if text_eq abs root then inr (default, targets) else elim (Dict.lookup abs targets) [
              | some store ↦ inr (store, targets)
              | none ↦ elim (open_store abs) [
                | none ↦ inl store_unopened
                | some store ↦ inr (store, Dict.insert abs store targets)
              ]
            ]
      ]

-- v1.Chart
pub record ChartSpec : Type 0 where
  pub name : Text
  pub repo_url : Text
  pub version : Text
  pub verify : Bool
  pub keyring : Text
  pub username_env : Text
  pub password_env : Text
  pub pass_credentials_all : Bool
  pub cert_file : Text
  pub key_file : Text
  pub ca_file : Text
  pub insecure_skip_tls_verify : Bool
  pub plain_http : Bool
  pub add_images : Bool
  pub add_dependencies : Bool
  pub exclude_extras : Bool
  pub platform : Text
  pub rewrite : Text
  pub values_files : List Text

-- resolveChartCreds
resolve_chart_creds : (getenv : Text → Text) → ChartSpec → ResolveError ⊎ (Text × Text)
resolve_chart_creds getenv ch =
    if text_eq ch.username_env [] && text_eq ch.password_env []
    then inr ([], [])
    else if text_eq ch.username_env [] || text_eq ch.password_env []
    then inl partial_credentials
    else if text_eq (getenv ch.username_env) [] || text_eq (getenv ch.password_env) []
    then inl unset_credentials
    else inr (getenv ch.username_env, getenv ch.password_env)

-- the options of a chart's job
chart_options : (join : Text → Text) → SyncOpts → Dict Text → ChartSpec → Text → Text → ChartOptions
unfolding first_set is_true resolve_bool_flag resolve_insecure Dict.get_or
chart_options join o a ch username password = record {
  repo_url = ch.repo_url;
  version = ch.version;
  verify = ch.verify;
  keyring = ch.keyring;
  username = username;
  password = password;
  pass_credentials_all = ch.pass_credentials_all;
  cert_file = ch.cert_file;
  key_file = ch.key_file;
  ca_file = first_set o.ca_file ch.ca_file (Dict.get_or (codes "hauler.dev/ca-file") [] a);
  insecure_skip_tls_verify = resolve_insecure o a ch.insecure_skip_tls_verify;
  plain_http = ch.plain_http;
  add_images = ch.add_images;
  add_dependencies = ch.add_dependencies;
  exclude_extras =
      resolve_bool_flag ch.exclude_extras (is_true (codes "hauler.dev/exclude-extras") a)
        o.exclude_extras o.exclude_extras_changed;
  registry =
      if is_set o.registry then o.registry else Dict.get_or (codes "hauler.dev/registry") [] a;
  platform = first_set o.platform ch.platform (Dict.get_or (codes "hauler.dev/platform") [] a);
  values_files = map join ch.values_files;
}

-- resolveChartJobs: the first error ends it
unfoldable pub resolve_chart_jobs :
    (getenv : Text → Text)
    → (join : Text → Text) → SyncOpts
    → Dict Text
    → List ChartSpec
    → ResolveError ⊎ List ChartJob
unfolding resolve_chart_creds chart_options
resolve_chart_jobs getenv join o a [] = inr []
resolve_chart_jobs getenv join o a (ch ∷ charts) =
    let rest = resolve_chart_jobs getenv join o a charts in
    elim (resolve_chart_creds getenv ch) [
      | inl e ↦ inl e
      | inr (username, password) ↦ elim rest [
        | inl e ↦ inl e
        | inr jobs ↦ inr (
            record {
              name = ch.name;
              repo_url = ch.repo_url;
              version = ch.version;
              options = chart_options join o a ch username password;
              rewrite = ch.rewrite;
              parent = [];
              depth = 0;
            }
            ∷ jobs)
      ]
    ]

-- v1.File, and fileJob
pub record FileSpec : Type 0 where
  pub path : Text
  pub name : Text
  pub ca_file : Text
  pub insecure_skip_tls_verify : Bool

-- resolveFileJobs
unfoldable pub resolve_file_jobs : SyncOpts → Dict Text → List FileSpec → List FileSpec
unfolding resolve_ca_file resolve_insecure
resolve_file_jobs o a files =
    map
      (λ (f : FileSpec). record f {
        ca_file = resolve_ca_file o a f.ca_file;
        insecure_skip_tls_verify = resolve_insecure o a f.insecure_skip_tls_verify;
      })
      files

-- fileJobName
file_job_name : FileSpec → Text
file_job_name f = if is_set f.name then f.name else f.path

-- the jobs of processImageTxt: a line is an image, unless it is empty or a comment
image_txt_jobs : SyncOpts → List Text → List ImageJob
unfolding trim_space has_prefix
image_txt_jobs o [] = []
image_txt_jobs o (l ∷ ls) =
    let line = trim_space l in
    let rest = image_txt_jobs o ls in
    if text_eq line [] || has_prefix line (codes "#")
    then rest
    else record {
      name = line;
      platform = o.platform;
      exclude_extras = o.exclude_extras;
      rewrite = [];
      local = false;
      config = empty_config;
    }
      ∷ rest
