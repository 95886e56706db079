-- ===== src/Command/Images/Verified.antt =====
-- cmd/hauler/cli/store: an image job that succeeds stored what it fetched, and the digest that was
-- verified where a verification is asked for.
use hauler.Base.{
  ℕ, Bool-cases, Option-cases, sum-cases, ◌≡◌, ◌≢◌, refl, sym, ap, ◌∙◌, Bool, true, false, ◌||◌,
  Option, none, some, [], Text, text_eq, text_eq_iff, inl, inr, arith,
}
use mathlib.Core.Path.{subst}
use hauler.Content.Reference.{Named}
use hauler.Content.Blob.{DigestLib, BlobStore}
use hauler.Store.Add.{Layout, ImageRef, Fetched}
use hauler.Store.Add.Images.{add_image, fetch_name}
use hauler.Store.Add.Listing.{IsFaithful}
use hauler.Store.Add.Delivering.{Added, Delivered}
use hauler.Store.Add.Sealing.{IsAddressed, Sealed, Delivered-Sealed}
use hauler.Store.Add.Delivery.{add_image-delivers}
use hauler.Retry.{retry_operation}
use hauler.Retry.Attempts.{retry_operation-last}
use hauler.Command.Verify.{is_empty_config, accepted, Notary, resolve_and_verify, propagates}
use hauler.Command.Images.{Adding, ImageJob, skipped_or, add_once, store_image, run_image_job}
use hauler.Command.Rewriting.{Env, FullRef, rewrite_reference, rewrite_target, apply_rewrite}
use hauler.Command.Images.Pinning.{verified_pin}

-- what a job that succeeds has added: in one of its worlds, the image that its name parses to
abbrev pub Stored : DigestLib → Env → (name platform pinned : Text) → BlobStore → Type 0
Stored lib env name platform pinned b =
    (r : FullRef) × (k : ℕ) × (digest : Text) × (env.parse name ≡ some r)
    × Added lib (env.worlds k).registry r.base.name platform pinned digest b

-- An image job that verified `pinned` and stored, in one of its worlds, what it fetched by that digest;
-- `digest` is that of what it stored.
abbrev pub VerifiedAs : DigestLib → Env → Notary → ImageJob → Text → BlobStore → Type 0
VerifiedAs lib env notary j pinned b =
    (ref : ImageRef) × (notary.parse j.name ≡ some ref)
    × (notary.verify j.config (notary.at_digest ref pinned) ≡ accepted)
    × (r : FullRef) × (k : ℕ) × (digest : Text) × (parsed : ImageRef) × (d : Fetched) × (env.parse
          j.name
        ≡ some r)
    × ((env.worlds k).registry.parse r.base.name ≡ some parsed)
    × ((env.worlds k).registry.get (fetch_name (env.worlds k).registry parsed pinned) ≡ some d)
    × (d.digest ≡ pinned)
    × Delivered lib (env.worlds k).registry (fetch_name (env.worlds k).registry parsed pinned)
        j.platform digest d.as_index b
    × Sealed d j.platform digest

module _ (lib : DigestLib) (parse_reference : Text → Option Named) where
  rewrite_reference-blobs :
      (env : Env) (old new : FullRef) (raw : Text) (s : Layout)
      → (rewrite_reference parse_reference env old new raw s).1.blobs ≡ s.blobs
  unfolding rewrite_reference
  rewrite_reference-blobs env old new raw s = ground arith

  -- a rewrite changes the index alone
  apply_rewrite-blobs :
      (env : Env) (r : FullRef) (rewrite : Text) (s : Layout)
      → (apply_rewrite parse_reference env r rewrite s).1.blobs ≡ s.blobs
  unfolding apply_rewrite
  apply_rewrite-blobs env r rewrite s = elim (Bool-cases (text_eq rewrite [])) [
    | inl bare ↦ rw bare refl
    | inr asked ↦ elim (Option-cases (rewrite_target r rewrite)) [
      | inl no_tag ↦ rw (asked, apply_rewrite) (rw no_tag refl)
      | inr (target, named) ↦ elim (Option-cases (env.parse target)) [
        | inl bad ↦ rw (asked, apply_rewrite) (rw named (rw bad refl))
        | inr (new, parsed) ↦
            rw (asked, apply_rewrite)
              (rw named (rw parsed (rewrite_reference-blobs env r new rewrite s)))
      ]
    ]
  ]

  module _ (env : Env) (faithful : (k : ℕ) → IsFaithful lib (env.worlds k).registry) where
    -- an attempt that succeeds has added the image in its world
    add_once-Added :
        (name platform : Text) (exclude_extras : Bool) (pinned : Text) (a : Adding)
        → (add_once lib parse_reference env name platform exclude_extras pinned a).0 ≡ none
        → (digest : Text) × Added lib
            (env.worlds a.attempt).registry
            name
            platform
            pinned
            digest
            (add_once lib parse_reference env name platform exclude_extras pinned a).1.layout.blobs
    unfolding add_once
    add_once-Added name platform exclude_extras pinned a ok =
        let w = env.worlds a.attempt in
        let r =
          add_image lib parse_reference w.save w.now true w.registry name platform exclude_extras
            pinned a.layout in
        elim (sum-cases r.0) [
          | inl (e, failed) ↦ cc (rw (failed, add_once) at ok)
          | inr (digest, added) ↦ (
            digest,
            rw (added, add_once)
                (add_image-delivers lib parse_reference w.save w.now true w.registry
                  (faithful a.attempt) name platform exclude_extras pinned a.layout digest added),
          )
        ]

    pub store_image-Stored :
        (name platform : Text) (exclude_extras : Bool) (rewrite pinned : Text) (s : Layout)
        → env.ignore_errors ≡ false
        → (store_image lib parse_reference env name platform exclude_extras rewrite pinned s).0
          ≡ none
        → Stored lib env name platform pinned
            (store_image lib parse_reference env name platform exclude_extras rewrite pinned
              s).1.blobs
    unfolding store_image skipped_or
    store_image-Stored name platform exclude_extras rewrite pinned s strict ok =
        elim (Bool-cases env.started) [
          | inr dead ↦ absurd (ground (arith, dead, ok))
          | inl alive ↦ elim (Option-cases (env.parse name)) [
            | inl bad ↦ absurd (ground (arith, alive, bad, strict, ok))
            | inr (r, parsed) ↦
                let op =
                  add_once lib parse_reference env r.base.name platform exclude_extras pinned in
                let out =
                  retry_operation op env.is_tlog env.live env.waits env.ignore_errors env.retries
                    (record { attempt = 0; layout = s; digest = [] }) in
                elim (Option-cases out.result) [
                  | inr (e, failed) ↦ absurd (ground (arith, alive, parsed, failed, strict, ok))
                  | inl done ↦
                      let (a, last, same) =
                        retry_operation-last op env.is_tlog env.live env.waits env.ignore_errors
                          env.retries (record { attempt = 0; layout = s; digest = [] }) done in
                      let (digest, added) =
                        add_once-Added r.base.name platform exclude_extras pinned a last in
                      let at_end : (store_image lib parse_reference env name platform exclude_extras
                            rewrite pinned s).1.blobs
                          ≡ out.state.layout.blobs =
                        rw (alive, store_image)
                          (rw parsed
                            (rw done (apply_rewrite-blobs env r rewrite out.state.layout))) in
                      (
                        r,
                        a.attempt,
                        digest,
                        parsed,
                        subst
                            (λ (b : BlobStore).
                              Added lib (env.worlds a.attempt).registry r.base.name platform pinned
                                digest b)
                            (sym (at_end ∙ ap (λ (t : Adding). t.layout.blobs) same)) added,
                      )
                ]
          ]
        ]

    exact_digest :
        (pinned digest : Text)
        → pinned ≢ []
        → (text_eq pinned [] || text_eq digest pinned) ≡ true
        → digest ≡ pinned
    exact_digest pinned digest nonempty h =
        ground (arith, text_eq_iff pinned [], text_eq_iff digest pinned)

    -- When an image job that asks for a verification succeeds without --ignore-errors, its signature
    -- check accepted a digest, and in the attempt that succeeded the registry returned content of
    -- exactly that digest. If no platform is asked for, all of that content stands in the store, the
    -- whole index where it is one; if one is asked for and it is an index, an image that this index
    -- lists stands there whole. The conditions: the registry's answers to a HEAD are never empty, its
    -- client computes digests from what it returns, and what it returns for one reference agrees.
    pub run_image_job-verified :
        (notary : Notary) (j : ImageJob) (s : Layout)
        → ((k : ℕ) → IsAddressed (env.worlds k).registry)
        → ((k : ℕ) → notary.head_digest k ≢ [])
        → env.ignore_errors ≡ false
        → is_empty_config j.config ≡ false
        → (run_image_job lib parse_reference env notary j s).0 ≡ none
        → (pinned : Text) × VerifiedAs lib env notary j pinned
            (run_image_job lib parse_reference env notary j s).1.blobs
    unfolding run_image_job propagates
    run_image_job-verified notary j s addressed nonempty strict asked ok =
        let v = resolve_and_verify notary env.ignore_errors j.config j.name in
        elim (Option-cases v.1) [
          | inr (e, failed) ↦ absurd (ground (arith, failed, strict, ok))
          | inl passed ↦
              let (ref, n, named, answered, good) =
                verified_pin notary env.ignore_errors j.config j.name asked passed in
              let stored_ok : (store_image lib parse_reference env j.name j.platform
                    j.exclude_extras j.rewrite v.0 s).0
                  ≡ none =
                ground (arith, passed, ok) in
              let (r, k, digest, parsed_name, (parsed, d, known, got, same, delivered)) =
                store_image-Stored j.name j.platform j.exclude_extras j.rewrite v.0 s strict
                  stored_ok in
              (
                v.0,
                (
                  ref,
                  named,
                  good,
                  r,
                  k,
                  digest,
                  parsed,
                  d,
                  parsed_name,
                  known,
                  got,
                  exact_digest v.0 d.digest (λ e. nonempty n (sym answered ∙ e)) same,
                  rw (passed, run_image_job) delivered,
                  Delivered-Sealed lib (env.worlds k).registry (addressed k)
                      (fetch_name (env.worlds k).registry parsed v.0) j.platform digest d
                      (store_image lib parse_reference env j.name j.platform j.exclude_extras
                        j.rewrite v.0 s).1.blobs
                      got delivered,
                ),
              )
        ]
