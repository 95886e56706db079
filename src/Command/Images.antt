-- ===== src/Command/Images.antt =====
-- cmd/hauler/cli/store/add.go: AddImageCmd, storeImage, storeLocalImage and rewriteReference, and
-- the image jobs of sync.go. The lines that are logged and the audit entries are not modelled.
pub mod Pinning
pub mod Verified
use hauler.Base.{
  ℕ, suc, ◌==◌, Bool, true, false, not, ◌&&◌, ◌||◌, Option, none, some, List, [], ◌∷◌, ◌++◌, Text,
  codes, text_eq, has_prefix, contains_byte, if◌then◌else◌, ◌⊎◌, inl, inr,
}
use hauler.Base.Int.{ℤ}
use hauler.Base.Dict
use hauler.Base.Dict.{Dict}
use hauler.Consts.{ref_name_key, containerd_name_key}
use hauler.Content.Descriptor.{Descriptor, annotation}
use hauler.Content.Reference.{Named}
use hauler.Content.Index.{Error, SaveIo, save_index}
use hauler.Content.Index.Operations.{update_annotations}
use hauler.Content.Blob.{DigestLib}
use hauler.Store.Add.{Layout, AddError, ImageRef, Registry}
use hauler.Store.Add.Writing.{trim_prefix}
use hauler.Store.Add.Images.{Docker, add_image, add_local_image}
use hauler.Retry.{RetryError, retry_operation}
use hauler.Command.Verify.{
  Config, add_image_verify_config, VerifyError, Notary, resolve_and_verify, propagates,
}
use hauler.Command.Rewriting.{
  CommandError, not_added, local_not_added, not_verified, Env, apply_rewrite, context_done,
  bad_name, local_verification,
}

-- the attempts of AddImage so far, the layout that they leave, and the last digest
pub record Adding : Type 0 where
  pub attempt : ℕ
  pub layout : Layout
  pub digest : Text

-- imageJob: verifyConfig is already collapsed
pub record ImageJob : Type 0 where
  pub name : Text
  pub platform : Text
  pub exclude_extras : Bool
  pub rewrite : Text
  pub local : Bool
  pub config : Config

-- with --ignore-errors a failure is logged and the image skipped
pub skipped_or : Env → CommandError → Option CommandError
skipped_or env e = if env.ignore_errors then none else some e

module _ (lib : DigestLib) (parse_reference : Text → Option Named) where
  -- storeLocalImage
  store_local_image : Env → Text → Text → Layout → Option CommandError × Layout
  unfolding apply_rewrite skipped_or
  store_local_image env name rewrite s = elim (env.parse name) [
    | none ↦ (skipped_or env bad_name, s)
    | some r ↦
        let w = env.worlds 0 in
        let (out, s') =
          add_local_image lib parse_reference w.save w.now false w.registry.parse env.docker
            r.base.name s in
        elim out [
          | inl e ↦ (skipped_or env (local_not_added e), s')
          | inr digest ↦ apply_rewrite parse_reference env r rewrite s'
        ]
  ]

  -- one attempt of storeImage, in the world that it meets
  pub add_once :
      Env
      → (name platform : Text) (exclude_extras : Bool) (pinned : Text) → Adding
      → Option AddError × Adding
  add_once env name platform exclude_extras pinned a =
      let w = env.worlds a.attempt in
      let (r, s) =
        add_image lib parse_reference w.save w.now true w.registry name platform exclude_extras
          pinned a.layout in
      elim r [
        | inl e ↦ (some e, record a { attempt = suc a.attempt; layout = s })
        | inr d ↦ (none, record { attempt = suc a.attempt; layout = s; digest = d })
      ]

  -- storeImage
  pub store_image :
      Env
      → (name platform : Text) (exclude_extras : Bool) (rewrite pinned : Text) → Layout
      → Option CommandError × Layout
  unfolding apply_rewrite skipped_or add_once
  store_image env name platform exclude_extras rewrite pinned s =
      if not env.started then (some context_done, s) else elim (env.parse name) [
        | none ↦ (skipped_or env bad_name, s)
        | some r ↦
            let out =
              retry_operation (add_once env r.base.name platform exclude_extras pinned) env.is_tlog
                env.live env.waits env.ignore_errors env.retries
                (record { attempt = 0; layout = s; digest = [] }) in
            elim out.result [
              | some e ↦ (skipped_or env (not_added e), out.state.layout)
              | none ↦ apply_rewrite parse_reference env r rewrite out.state.layout
            ]
      ]

  -- a remote job of runRemoteImageJobsWith, and AddImageCmd past its local branch: verify, then
  -- store what was verified
  unfoldable pub run_image_job : Env → Notary → ImageJob → Layout → Option CommandError × Layout
  unfolding store_image resolve_and_verify propagates
  run_image_job env notary j s =
      let (pinned, failed) = resolve_and_verify notary env.ignore_errors j.config j.name in
      elim failed [
        | none ↦ store_image env j.name j.platform j.exclude_extras j.rewrite pinned s
        | some e ↦
            if propagates e env.ignore_errors
            then (some (not_verified e), s)
            else store_image env j.name j.platform j.exclude_extras j.rewrite pinned s
      ]

  -- AddImageCmd before its deferred save: a local image cannot be verified
  add_image_unsaved : Env → Notary → Config → ImageJob → Layout → Option CommandError × Layout
  unfolding run_image_job store_local_image add_image_verify_config
  add_image_unsaved env notary o j s =
      if j.local
      then (if not (text_eq o.key [])
            || not (text_eq o.cert_identity [])
            || not (text_eq o.cert_identity_regexp [])
          then (some local_verification, s)
          else store_local_image env j.name j.rewrite s)
      else run_image_job env notary (record j { config = add_image_verify_config o }) s

  -- AddImageCmd: the deferred SaveIndex runs on every return, and its failure is a warning
  add_image_cmd :
      (final_save : SaveIo) (final_now : ℕ)
      → Env
      → Notary
      → Config
      → ImageJob
      → Layout
      → Option CommandError × Layout
  unfolding add_image_unsaved
  add_image_cmd final_save final_now env notary o j s =
      let (e, s') = add_image_unsaved env notary o j s in
      let (w, oci) = save_index final_save final_now true s'.oci in (e, record s' { oci = oci })

  -- the local jobs of runImageJobs, one after the other
  run_local_jobs : List (Env × ImageJob) → Layout → Option CommandError × Layout
  unfolding store_local_image
  run_local_jobs [] s = (none, s)
  run_local_jobs ((env, j) ∷ jobs) s =
      let (e, s') = store_local_image env j.name j.rewrite s in
      let rest = run_local_jobs jobs s' in elim e [ some x ↦ (some x, s') | none ↦ rest ]

  -- runRemoteImageJobsWith: every job of the group runs, and Wait returns the first error
  unfoldable pub run_remote_jobs :
      List (Env × Notary × ImageJob) → Layout → Option CommandError × Layout
  unfolding run_image_job
  run_remote_jobs [] s = (none, s)
  run_remote_jobs ((env, notary, j) ∷ jobs) s =
      let (e, s1) = run_image_job env notary j s in
      let (rest, s2) = run_remote_jobs jobs s1 in
      elim e [ some x ↦ (some x, s2) | none ↦ (rest, s2) ]

  -- the jobs of one kind, in order
  local_jobs : List (Env × Notary × ImageJob) → List (Env × ImageJob)
  local_jobs [] = []
  local_jobs ((env, notary, j) ∷ jobs) =
      let rest = local_jobs jobs in if j.local then (env, j) ∷ rest else rest

  remote_jobs : List (Env × Notary × ImageJob) → List (Env × Notary × ImageJob)
  remote_jobs [] = []
  remote_jobs ((env, notary, j) ∷ jobs) =
      let rest = remote_jobs jobs in if j.local then rest else (env, notary, j) ∷ rest

  -- runImageJobs
  run_image_jobs : List (Env × Notary × ImageJob) → Layout → Option CommandError × Layout
  unfolding run_local_jobs run_remote_jobs local_jobs remote_jobs
  run_image_jobs jobs s =
      let (e, s') = run_local_jobs (local_jobs jobs) s in
      elim e [ some x ↦ (some x, s') | none ↦ run_remote_jobs (remote_jobs jobs) s' ]
