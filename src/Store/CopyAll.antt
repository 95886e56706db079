-- ===== src/Store/CopyAll.antt =====
-- pkg/store/store.go: Copy and CopyAll, over a target whose resolver is a parameter.
pub mod Delivers
use hauler.Base.{
  ℕ, zero, suc, Bool, true, false, not, ◌||◌, Option, none, some, List, [], ◌∷◌, ◌++◌, Text, codes,
  text_eq, cut_byte, if◌then◌else◌, ◌⊎◌, inl, inr,
}
use hauler.Base.Dict.{Dict}
use hauler.Consts.{ref_name_key}
use hauler.Content.Descriptor.{Descriptor, annotation}
use hauler.Content.Reference.{Named}
use hauler.Content.Index.{Error, Oci, load_index}
use hauler.Content.Index.Operations.{resolve, fetcher}
use hauler.Store.Manifest.{Manifest}
use hauler.Store.Copy.{CopyError, Event, Pusher, Source, Outcome, copy_graph}

-- the target's reference: the mapped base reference with any digest of its own stripped, and the
-- descriptor's digest where that is valid
unfoldable pub target_reference : (Text → Bool) → Text → Descriptor → Text
unfolding cut_byte
target_reference valid mapped d =
    if valid d.digest then (cut_byte b'@' mapped).0 ++ codes "@" ++ d.digest else mapped

pub data CopyAllError : Type 0 where
  missing_ref_name : Text → CopyAllError
  mapper_failed : CopyAllError
  resolve_failed fetcher_failed : Error → CopyAllError
  pusher_failed : CopyAllError
  copy_failed : CopyError → CopyAllError

-- content.Target: the pusher for a reference, or an error
abbrev pub Target : Type 0
Target = Text → Option Pusher

-- what a copy hands back: the descriptor or an error, and what has reached the target
abbrev pub Copied : Type 0
Copied = (CopyAllError ⊎ Descriptor) × List Event

unfoldable pub copied : Descriptor → Option Outcome → Option Copied
copied d none = none
copied d (some (none, log)) = some (inr d, log)
copied d (some (some e, log)) = some (inl (copy_failed e), log)

-- no descriptors where there was an error
unfoldable pub summed : List Descriptor → List CopyAllError → List CopyAllError ⊎ List Descriptor
summed descs [] = inr descs
summed descs (x ∷ xs) = inl (x ∷ xs)

module _ (parse_reference : Text → Option Named) (as_manifest as_index : Text → Option Manifest)
    (source : Source) (to : Target) where
  -- Copy. A nil fetcher, for a reference that is gone by the second load, panics in the source; the
  -- descriptor has just been resolved, and the second load keeps it.
  unfoldable pub copy : ℕ → Text → Text → Oci → List Event → Option Copied × Oci
  unfolding copied
  copy fuel ref to_ref s log =
      let (resolved, s1) = resolve parse_reference ref s in
      let (fetches, s2) = fetcher parse_reference ref s1 in
      elim resolved [
        | inl x ↦ (some (inl (resolve_failed x), log), s1)
        | inr d ↦ elim fetches [
          | inl x ↦ (some (inl (fetcher_failed x), log), s2)
          | inr found ↦ elim (to to_ref) [
            | none ↦ (some (inl pusher_failed, log), s2)
            | some pusher ↦
                (copied d (copy_graph source pusher as_manifest as_index fuel d log), s2)
          ]
        ]
      ]

  -- the callback of CopyAll for one entry of the index
  unfoldable pub copy_entry :
      (Text → Bool)
      → (Text → Option Text)
      → ℕ
      → Text
      → Descriptor
      → Oci
      → List Event
      → Option Copied × Oci
  unfolding target_reference
  copy_entry valid mapper fuel reference d s log =
      let base_ref = annotation ref_name_key d in
      if text_eq base_ref []
      then (some (inl (missing_ref_name reference), log), s)
      else elim (mapper base_ref) [
        | none ↦ (some (inl mapper_failed, log), s)
        | some mapped ↦ copy fuel reference (target_reference valid mapped d) s log
      ]

  -- the entries of the snapshot: the descriptors copied and the errors, in order
  unfoldable pub copy_entries :
      (Text → Bool)
      → (Text → Option Text)
      → ℕ
      → Dict Descriptor
      → Oci
      → List Event
      → Option (List Descriptor × List CopyAllError × List Event) × Oci
  copy_entries valid mapper fuel [] s log = (some ([], [], log), s)
  copy_entries valid mapper fuel ((k, d) ∷ m) s log =
      let (result, s1) = copy_entry valid mapper fuel k d s log in
      elim result [
        | none ↦ (none, s1)
        | some (outcome, log1) ↦
            let (rest, s2) = copy_entries valid mapper fuel m s1 log1 in
            elim rest [
              | none ↦ (none, s2)
              | some (descs, errors, log2) ↦ elim outcome [
                | inl x ↦ (some (descs, x ∷ errors, log2), s2)
                | inr c ↦ (some (c ∷ descs, errors, log2), s2)
              ]
            ]
      ]

  -- CopyAll: the load of the walk, every entry, and no descriptors if there was an error
  unfoldable pub copy_all :
      (Text → Bool)
      → (Text → Option Text)
      → ℕ
      → Oci
      → List Event
      → Option ((Error ⊎ (List CopyAllError ⊎ List Descriptor)) × List Event) × Oci
  unfolding summed
  copy_all valid mapper fuel s log =
      let (e, s1) = load_index parse_reference s in
      let (result, s2) = copy_entries valid mapper fuel s1.name_map s1 log in
      elim e [
        | some x ↦ (some (inl x, log), s1)
        | none ↦ elim result [
          | none ↦ (none, s2)
          | some (descs, errors, log2) ↦ (some (inr (summed descs errors), log2), s2)
        ]
      ]
