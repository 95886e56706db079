-- ===== src/Command/Rewriting.antt =====
-- cmd/hauler/cli/store/add.go: what an image job meets, and rewriteReference, which renames what was
-- added.
use hauler.Base.{
  ℕ, ◌==◌, Bool, not, ◌&&◌, Option, none, some, [], ◌∷◌, ◌++◌, Text, codes, text_eq, has_prefix,
  contains_byte, if◌then◌else◌, inl, inr,
}
use hauler.Base.Int.{ℤ}
use hauler.Base.Dict
use hauler.Base.Dict.{Dict}
use hauler.Consts.{ref_name_key, containerd_name_key}
use hauler.Content.Descriptor.{Descriptor, annotation}
use hauler.Content.Reference.{Named}
use hauler.Content.Index.{Error, SaveIo}
use hauler.Content.Index.Operations.{update_annotations}
use hauler.Store.Add.{Layout, AddError, ImageRef, Registry}
use hauler.Store.Add.Writing.{trim_prefix}
use hauler.Store.Add.Images.{Docker}
use hauler.Retry.{RetryError}
use hauler.Command.Verify.{VerifyError}

-- name.Reference with its parts: RepositoryStr(), Identifier(), and TagStr() of a tag
pub record FullRef : Type 0 where
  pub base : ImageRef
  pub repository : Text
  pub identifier : Text
  pub tag : Option Text

pub data CommandError : Type 0 where
  context_done bad_name digest_rewrite bad_rewrite image_not_found local_verification : CommandError
  not_added : RetryError AddError → CommandError
  local_not_added : AddError → CommandError
  not_renamed : Error → CommandError
  not_verified : VerifyError → CommandError

-- What one attempt of an AddImage meets.
pub record World : Type 0 where
  pub registry : Registry
  pub save : SaveIo
  pub now : ℕ

-- What a job meets: whether its context is live, ParseReference, its attempts and their context, the
-- save of a renaming, and the options of the run.
pub record Env : Type 0 where
  pub started : Bool
  pub parse : Text → Option FullRef
  pub worlds : ℕ → World
  pub live : ℕ → Bool
  pub waits : ℕ → Bool
  pub is_tlog : AddError → Bool
  pub retries : ℤ
  pub ignore_errors : Bool
  pub rename_save : SaveIo
  pub rename_now : ℕ
  pub docker : Docker

-- `s[:i]` for `i := strings.LastIndex(s, ":")`, or the whole text where there is none
pub cut_last : Text → Option Text
cut_last [] = none
cut_last (c ∷ s) = elim (cut_last s) [
  | some t ↦ some (c ∷ t)
  | none ↦ if c == b':' then some [] else none
]

unfoldable pub before_last_colon : Text → Text
unfolding cut_last
before_last_colon s = elim (cut_last s) [ none ↦ s | some t ↦ t ]

-- the tag, or the identifier of what is not a tag
unfoldable pub tag_of : FullRef → Text
tag_of r = elim r.tag [ none ↦ r.identifier | some t ↦ t ]

abbrev pub docker_io : Text
docker_io = codes "index.docker.io"

abbrev pub library_prefix : Text
library_prefix = codes "library/"

-- the rewrite names no registry, so that go-containerregistry's default stands for the old one
keeps_registry : FullRef → Text → Bool
unfolding has_prefix
keeps_registry new raw =
    text_eq new.base.registry docker_io
    && not (has_prefix raw (codes "docker.io"))
    && not (has_prefix raw docker_io)

-- newRegistry and newRepo of rewriteReference
rewritten_registry : FullRef → FullRef → Text → Text
unfolding keeps_registry
rewritten_registry old new raw =
    if keeps_registry new raw then old.base.registry else new.base.registry

rewritten_repository : FullRef → Text → Text
unfolding keeps_registry before_last_colon trim_prefix has_prefix
rewritten_repository new raw =
    if keeps_registry new raw
      && not (has_prefix (before_last_colon (trim_prefix raw (codes "/"))) library_prefix)
    then trim_prefix new.repository library_prefix
    else new.repository

-- repository ":" tag
unfoldable pub total : Text → Text → Text
total repository tag = repository ++ codes ":" ++ tag

-- the entries of the old reference
is_old : Text → Text → Descriptor → Bool
is_old total_name registry_name d =
    text_eq (annotation ref_name_key d) total_name
    && text_eq (annotation containerd_name_key d) registry_name

-- their annotations under the new one
rename_annotations : Text → Text → Dict Text → Dict Text
rename_annotations total_name registry_name a =
    Dict.insert containerd_name_key registry_name (Dict.insert ref_name_key total_name a)

-- the rewrite with the old tag, where it has none; a digest gives no tag
pub rewrite_target : FullRef → Text → Option Text
unfolding trim_prefix contains_byte
rewrite_target r rewrite =
    let trimmed = trim_prefix rewrite (codes "/") in
    if contains_byte b':' trimmed
    then some trimmed
    else elim r.tag [ none ↦ none | some t ↦ some (trimmed ++ codes ":" ++ t) ]

module _ (parse_reference : Text → Option Named) where
  -- rewriteReference
  unfoldable pub rewrite_reference :
      Env → FullRef → FullRef → Text → Layout → Option CommandError × Layout
  unfolding rewritten_registry rewritten_repository tag_of total is_old rename_annotations
  rewrite_reference env old new raw s =
      let old_total = total old.repository (tag_of old) in
      let new_total = total (rewritten_repository new raw) (tag_of new) in
      let old_full = old.base.registry ++ codes "/" ++ old_total in
      let new_full = rewritten_registry old new raw ++ codes "/" ++ new_total in
      let (r, o) =
        update_annotations parse_reference env.rename_save env.rename_now
          (is_old old_total old_full) (rename_annotations new_total new_full) s.oci in
      elim r [
        | inl e ↦ (some (not_renamed e), record s { oci = o })
        | inr (matched, failed) ↦ elim failed [
          | some e ↦ (some (not_renamed e), record s { oci = o })
          | none ↦ (if matched == 0 then some image_not_found else none, record s { oci = o })
        ]
      ]

  -- the rewrite that follows an addition, if one is asked for
  unfoldable pub apply_rewrite : Env → FullRef → Text → Layout → Option CommandError × Layout
  unfolding rewrite_target rewrite_reference
  apply_rewrite env r rewrite s =
      if text_eq rewrite [] then (none, s) else elim (rewrite_target r rewrite) [
        | none ↦ (some digest_rewrite, s)
        | some target ↦ elim (env.parse target) [
          | none ↦ (some bad_rewrite, s)
          | some new ↦ rewrite_reference env r new rewrite s
        ]
      ]
