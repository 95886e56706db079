-- ===== src/Command/Resolving.antt =====
-- cmd/hauler/cli/store/sync.go and add.go: the jobs of a manifest, by the precedence of the command
-- line over an item over the manifest's annotations. The environment, homedir.Expand, strconv.Atoi
-- and filepath.Join are parameters.
pub mod Asking
use hauler.Base.{
  ℕ, Bool, true, false, not, ◌&&◌, ◌||◌, Option, none, some, List, [], ◌∷◌, map, Text, codes,
  text_eq, has_prefix, trim_space, if◌then◌else◌, ◌⊎◌, inl, inr,
}
use hauler.Base.Int.{ℤ, pos, negsuc}
use hauler.Base.Dict
use hauler.Base.Dict.{Dict}
use hauler.Consts.{default_retries}
use hauler.Command.Verify.{Config, empty_config}
use hauler.Command.Images.{ImageJob}
use hauler.Command.Rewriting.{FullRef}
use hauler.Command.Charts.{ChartJob, ChartOptions}
use hauler.Command.Names.{RefLib, parse_named, relocate}
use hauler.Command.Precedence.{
  ImageSpec, SyncOpts, ResolveError, at_hauler, key_annotation, identity_annotation,
  identity_regexp_annotation, is_set, is_true, first_set, resolve_bool_flag, resolve_ca_file,
  resolve_insecure, needs_key, needs_keyless, nil_reference, not_relocated, local_verification,
  not_expanded,
}

-- the name, relocated to the registry that is asked for where it has none
unfoldable pub resolve_name : RefLib → SyncOpts → Dict Text → ImageSpec → ResolveError ⊎ Text
unfolding Dict.get_or
resolve_name lib o a i =
    let annotated = at_hauler (codes "hauler.dev/registry") a in
    if not i.local && (is_set annotated || is_set o.registry)
    then elim (parse_named lib i.name) [
      | none ↦ inl nil_reference
      | some ref ↦
          if text_eq ref.base.registry []
          then elim (relocate lib i.name (if is_set o.registry then o.registry else annotated)) [
            | none ↦ inl not_relocated
            | some moved ↦ inr moved.base.name
          ]
          else inr ref.base.name
    ]
    else inr i.name

-- the key file: the command line's as it is, the others expanded
unfoldable pub resolve_key :
    (expand : Text → Option Text) → SyncOpts → Dict Text → ImageSpec → Option Text
unfolding Dict.get_or
resolve_key expand o a i =
    if is_set o.key
    then some o.key
    else if is_set i.key
    then expand i.key
    else if is_set (at_hauler key_annotation a)
    then expand (at_hauler key_annotation a)
    else some o.key

-- verifyConfig of a keyless job
pub keyless_config : SyncOpts → Dict Text → ImageSpec → (ca_file : Text) → Bool → Config
unfolding first_set Dict.get_or
keyless_config o a i ca_file insecure = record {
  key = [];
  tlog = false;
  cert_identity = first_set o.cert_identity i.cert_identity (at_hauler identity_annotation a);
  cert_identity_regexp =
      first_set o.cert_identity_regexp i.cert_identity_regexp
        (at_hauler identity_regexp_annotation a);
  cert_oidc_issuer =
      first_set o.cert_oidc_issuer i.cert_oidc_issuer
        (at_hauler (codes "hauler.dev/certificate-oidc-issuer") a);
  cert_oidc_issuer_regexp =
      first_set o.cert_oidc_issuer_regexp i.cert_oidc_issuer_regexp
        (at_hauler (codes "hauler.dev/certificate-oidc-issuer-regexp") a);
  cert_github_workflow_repository =
      first_set o.cert_github_workflow_repository i.cert_github_workflow_repository
        (at_hauler (codes "hauler.dev/certificate-github-workflow-repository") a);
  insecure_skip_tls_verify = insecure;
  ca_file = ca_file;
}

-- the verification of a remote image, collapsed as by verifyConfig: a key before an identity
unfoldable pub resolve_config :
    (expand : Text → Option Text) → SyncOpts → Dict Text → ImageSpec → ResolveError ⊎ Config
unfolding needs_key needs_keyless resolve_key keyless_config resolve_ca_file resolve_insecure
    is_true resolve_bool_flag
resolve_config expand o a i =
    let ca_file = resolve_ca_file o a i.ca_file in
    let insecure = resolve_insecure o a i.insecure_skip_tls_verify in
    if needs_key o a i
    then elim (resolve_key expand o a i) [
      | none ↦ inl not_expanded
      | some key ↦ inr record empty_config {
        key = key;
        tlog =
            resolve_bool_flag i.tlog (is_true (codes "hauler.dev/use-tlog-verify") a) o.tlog
              o.tlog_changed;
        insecure_skip_tls_verify = insecure;
        ca_file = ca_file;
      }
    ]
    else if needs_keyless o a i
    then inr (keyless_config o a i ca_file insecure)
    else inr empty_config

-- one round of resolveImageJobs
unfoldable pub resolve_image_job :
    RefLib
    → (expand : Text → Option Text) → SyncOpts
    → Dict Text
    → ImageSpec
    → ResolveError ⊎ ImageJob
unfolding resolve_name resolve_config needs_key needs_keyless first_set resolve_bool_flag is_true
    Dict.get_or
resolve_image_job lib expand o a i = elim (resolve_name lib o a i) [
  | inl e ↦ inl e
  | inr name ↦
      if i.local
      then (if needs_key o a i || needs_keyless o a i
          then inl local_verification
          else inr record {
            name = name;
            platform = [];
            exclude_extras = false;
            rewrite = i.rewrite;
            local = true;
            config = empty_config;
          })
      else elim (resolve_config expand o a i) [
        | inl e ↦ inl e
        | inr config ↦ inr record {
          name = name;
          platform = first_set o.platform i.platform (at_hauler (codes "hauler.dev/platform") a);
          exclude_extras =
              resolve_bool_flag i.exclude_extras (is_true (codes "hauler.dev/exclude-extras") a)
                o.exclude_extras o.exclude_extras_changed;
          rewrite = i.rewrite;
          local = false;
          config = config;
        }
      ]
]

-- resolveImageJobs: the first error ends it
unfoldable pub resolve_image_jobs :
    RefLib
    → (expand : Text → Option Text) → SyncOpts
    → Dict Text
    → List ImageSpec
    → ResolveError ⊎ List ImageJob
unfolding resolve_image_job
resolve_image_jobs lib expand o a [] = inr []
resolve_image_jobs lib expand o a (i ∷ is) =
    let rest = resolve_image_jobs lib expand o a is in
    elim (resolve_image_job lib expand o a i) [
      | inl e ↦ inl e
      | inr j ↦ elim rest [ inl e ↦ inl e | inr js ↦ inr (j ∷ js) ]
    ]
