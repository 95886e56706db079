-- ===== src/Command/Remove.antt =====
-- cmd/hauler/cli/store/remove.go: RemoveCmd, without the lines that it logs and the audit entries. The
-- answer at the prompt is an argument, `none` where it cannot be read.
pub mod Matching
use hauler.Base.{
  ℕ, zero, suc, ◌+◌, leb, ◌&&◌, Bool, true, false, not, ◌||◌, Option, none, some, List, [], ◌∷◌,
  Text, codes, text_eq, has_prefix, trim_space, map, if◌then◌else◌, ◌⊎◌, inl, inr,
}
use hauler.Base.Dict
use hauler.Base.Dict.{Dict}
use hauler.Consts.{containerd_name_key, ref_name_key}
use hauler.Content.Descriptor.{Descriptor, annotation}
use hauler.Content.Reference.{Named}
use hauler.Content.Index.{Error, Oci, SaveIo, load_index}
use hauler.Store.Manifest.{BlobLib, Disk}
use hauler.Store.Remove.{remove_artifact}
use hauler.Store.CleanUp.{DirEntry, Cleaned, CleanUpError, clean_up}

-- strings.Contains(s, t)
pub contains : Text → Text → Bool
unfolding has_prefix
contains [] t = has_prefix [] t
contains (c ∷ s) t = has_prefix (c ∷ s) t || contains s t

-- strings.ToLower on ASCII text
unfoldable pub to_lower : Text → Text
to_lower [] = []
to_lower (c ∷ s) = (if leb 65 c && leb c 90 then c + 32 else c) ∷ to_lower s

pub registry_ref : Descriptor → Text
registry_ref d =
    let name = annotation containerd_name_key d in
    if text_eq name [] then annotation ref_name_key d else name

-- the callback's test of one entry
unfoldable pub is_match : Text → Text → Descriptor → Bool
unfolding contains registry_ref
is_match ref reference d = contains reference ref || contains (registry_ref d) ref

-- the keys of the entries that match, in the order of the walk
unfoldable pub matches : Text → Dict Descriptor → List Text
unfolding is_match
matches ref [] = []
matches ref ((k, d) ∷ m) = let rest = matches ref m in if is_match ref k d then k ∷ rest else rest

pub data Response : Type 0 where
  confirmed cancelled rejected unread : Response

-- the prompt, skipped with --force
pub ask : Bool → Option Text → Response
unfolding to_lower trim_space
ask true line = confirmed
ask false none = unread
ask false (some line) =
    let response = to_lower (trim_space line) in
    if text_eq response (codes "yes") || text_eq response (codes "y")
    then confirmed
    else if text_eq response (codes "no") || text_eq response (codes "n")
    then cancelled
    else rejected

pub data RemoveError : Type 0 where
  walk_failed : Error → RemoveError
  no_match no_response bad_response : RemoveError
  remove_failed : Text → Error → RemoveError

-- the artifacts in order, up to the first whose removal fails
unfoldable pub remove_matches :
    (Text → Option Named) → SaveIo → ℕ → List Text → Oci → Option RemoveError × Oci
remove_matches parse_reference io now [] s = (none, s)
remove_matches parse_reference io now (k ∷ keys) s =
    let (e, s1) = remove_artifact parse_reference io now k s in
    let rest = remove_matches parse_reference io now keys s1 in
    elim e [ some x ↦ (some (remove_failed k x), s1) | none ↦ rest ]

-- What RemoveCmd returns: an error, or none after a cancellation or a removal. The blobs that the
-- clean-up removed are `inr`; its own failure is only logged. The result is `none` when the clean-up
-- has no fuel left.
pub record Removal : Type 0 where
  pub error : Option RemoveError
  pub cleaned : Option (CleanUpError ⊎ Cleaned)

abbrev ended : Option RemoveError → Option Removal
ended e = some (record { error = e; cleaned = none })

module _ (lib : BlobLib) (disk : Disk) (parse_reference : Text → Option Named) where
  pub remove_confirmed :
      SaveIo → ℕ → ℕ → Option (List DirEntry) → List Text → Oci → Option Removal × Oci
  unfolding remove_matches
  remove_confirmed io now fuel directory keys s =
      let (e, s1) = remove_matches parse_reference io now keys s in
      let (swept, s2) = clean_up lib disk parse_reference fuel directory s1 in
      elim e [
        | some x ↦ (ended (some x), s1)
        | none ↦ elim swept [
          | none ↦ (none, s2)
          | some c ↦ (some (record { error = none; cleaned = some c }), s2)
        ]
      ]

  -- RemoveCmd
  pub remove_cmd :
      SaveIo
      → ℕ
      → ℕ
      → Option (List DirEntry)
      → Bool
      → Option Text
      → Text
      → Oci
      → Option Removal × Oci
  unfolding matches ask remove_confirmed
  remove_cmd io now fuel directory force line ref s =
      let (e, s1) = load_index parse_reference s in
      elim e [
        | some x ↦ (ended (some (walk_failed x)), s1)
        | none ↦ elim (matches ref s1.name_map) [
          | [] ↦ (ended (some no_match), s1)
          | k ∷ keys ↦ elim (ask force line) [
            | unread ↦ (ended (some no_response), s1)
            | rejected ↦ (ended (some bad_response), s1)
            | cancelled ↦ (ended none, s1)
            | confirmed ↦ remove_confirmed io now fuel directory (k ∷ keys) s1
          ]
        ]
      ]
