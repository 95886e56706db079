-- ===== src/Command/Files.antt =====
-- cmd/hauler/cli/store/add.go: storeFile and AddFileCmd. The file of pkg/artifacts/file, as an
-- artifact with its name, filepath.Abs and the retries' context are parameters.
use hauler.Base.{
  ℕ, suc, Bool, true, not, ◌||◌, Option, none, some, Text, codes, has_prefix, if◌then◌else◌, inl,
  inr,
}
use hauler.Base.Int.{ℤ}
use hauler.Base.Dict
use hauler.Consts.{original_ref_key}
use hauler.Content.Descriptor.{Descriptor}
use hauler.Content.Reference.{Named}
use hauler.Content.Index.{Error, SaveIo, save_index}
use hauler.Content.Index.Operations.{add_index}
use hauler.Content.Blob.{DigestLib}
use hauler.Store.Add.{Layout, AddError}
use hauler.Store.Add.Artifacts.{Artifact, add_artifact}
use hauler.Retry.{RetryError, retry_operation}
use hauler.Command.Names.{RefLib, new_tagged}

pub data FileError : Type 0 where
  file_canceled file_unnamed : FileError
  file_not_added : RetryError AddError → FileError
  file_not_listed : Error → FileError

-- What storing a file meets; `artifacts k` is the file as attempt k reads it.
pub record FileEnv : Type 0 where
  pub started : Bool
  pub artifacts : ℕ → Artifact
  pub save : ℕ → SaveIo
  pub now : ℕ → ℕ
  pub live : ℕ → Bool
  pub waits : ℕ → Bool
  pub is_tlog : AddError → Bool
  pub retries : ℤ
  pub ignore_errors : Bool
  pub absolute : Text → Option Text
  pub list_save : SaveIo
  pub list_now : ℕ
  pub final_save : SaveIo
  pub final_now : ℕ

-- the attempts of AddArtifact so far, and the last descriptor
pub record Filing : Type 0 where
  pub attempt : ℕ
  pub layout : Layout
  pub descriptor : Option Descriptor

-- the source that is noted: a URL as it is, a path made absolute
resolved_path : (absolute : Text → Option Text) → Text → Text
unfolding has_prefix
resolved_path absolute path =
    if has_prefix path (codes "http://") || has_prefix path (codes "https://")
    then path
    else elim (absolute path) [ none ↦ path | some a ↦ a ]

module _ (lib : DigestLib) (parse_reference : Text → Option Named) (refs : RefLib) where
  -- one attempt
  file_once : FileEnv → Text → Filing → Option AddError × Filing
  file_once env ref f =
      let (r, s) =
        add_artifact lib parse_reference (env.save f.attempt) (env.now f.attempt)
          (env.artifacts f.attempt) ref f.layout in
      elim r [
        | inl e ↦ (some e, record f { attempt = suc f.attempt; layout = s })
        | inr d ↦ (none, record { attempt = suc f.attempt; layout = s; descriptor = some d })
      ]

  -- the second AddIndex, of the descriptor that notes the source
  note_source : FileEnv → Text → Descriptor → Layout → Option FileError × Layout
  unfolding resolved_path Dict.insert
  note_source env path d s =
      let (e, o) =
        add_index parse_reference env.list_save env.list_now
          (record d {
            annotations =
                Dict.insert original_ref_key (resolved_path env.absolute path) d.annotations;
          })
          s.oci in
      elim e [
        | none ↦ (none, record s { oci = o })
        | some x ↦ (some (file_not_listed x), record s { oci = o })
      ]

  -- storeFile: `name` is f.Name(path)
  store_file : FileEnv → (path name : Text) → Layout → Option FileError × Layout
  unfolding file_once note_source
  store_file env path name s =
      if not env.started
      then (some file_canceled, s)
      else elim (new_tagged refs name (codes "latest")) [
        | none ↦ (if env.ignore_errors then none else some file_unnamed, s)
        | some ref ↦
            let out =
              retry_operation (file_once env ref.base.name) env.is_tlog env.live env.waits
                env.ignore_errors env.retries
                (record { attempt = 0; layout = s; descriptor = none }) in
            elim out.result [
              | some e ↦
                  (if env.ignore_errors then none else some (file_not_added e), out.state.layout)
              | none ↦ elim out.state.descriptor [
                | none ↦ (none, out.state.layout)
                | some d ↦ note_source env path d out.state.layout
              ]
            ]
      ]

  -- AddFileCmd: the trailing SaveIndex, whose failure is a warning
  add_file_cmd : FileEnv → (path name : Text) → Layout → Option FileError × Layout
  unfolding store_file
  add_file_cmd env path name s =
      let (e, s') = store_file env path name s in
      let (w, o) = save_index env.final_save env.final_now true s'.oci in (e, record s' { oci = o })
