-- ===== src/Content/Index/Operations.antt =====
-- pkg/content/oci.go: AddIndex, Resolve, Fetcher, Walk, RemoveFromIndex, UpdateAnnotations and the
-- index part of ociPusher.Push.
use hauler.Base.{
  ℕ, suc, ◌==◌, Bool, true, false, not, ◌&&◌, ◌||◌, Option, none, some, List, [], ◌∷◌, ◌++◌, Text,
  codes, text_eq, cut_byte, is_some, if◌then◌else◌, ◌⊎◌, inl, inr,
}
use hauler.Base.Dict
use hauler.Base.Dict.{Dict}
use hauler.Consts.{ref_name_key, kind_key, oci_manifest, oci_index, docker_manifest, docker_list}
use hauler.Content.Descriptor.{Descriptor, annotation, descriptors_equal}
use hauler.Content.Reference.{Named, parse}
use hauler.Content.Index.{
  Error, missing_ref_name, bad_reference, not_found, Oci, SaveIo, entry_key, default_kind,
  with_kind, save_index, save_index_checkpoint, load_index,
}

-- o.nameMap already holds the same descriptor under the key
unfoldable pub already_stored : Text → Descriptor → Dict Descriptor → Bool
already_stored k d m = elim (Dict.lookup k m) [ none ↦ false | some e ↦ descriptors_equal e d ]

-- the media types whose push is recorded in the index
pub is_manifest_type : Text → Bool
is_manifest_type t =
    text_eq t oci_manifest
    || text_eq t oci_index
    || text_eq t docker_manifest
    || text_eq t docker_list

-- Pusher: `strings.SplitN(ref, "@", 2)`; the hash is empty where there is none
pub pusher_parts : Text → Text × Text
unfolding cut_byte
pusher_parts ref = cut_byte b'@' ref

-- the entries that match get the annotations that `apply` makes of theirs
unfoldable pub update_entries :
    (Descriptor → Bool) → (Dict Text → Dict Text) → Dict Descriptor → ℕ × Dict Descriptor
update_entries match apply [] = (0, [])
update_entries match apply ((k, d) ∷ m) =
    let (matched, rest) = update_entries match apply m in
    if match d
    then (suc matched, (k, record d { annotations = apply d.annotations }) ∷ rest)
    else (matched, (k, d) ∷ rest)

-- the errors of the callback, in order
walk_errors : {E : Type 0} → (Text → Descriptor → Option E) → Dict Descriptor → List E
walk_errors fn [] = []
walk_errors fn ((k, d) ∷ m) =
    let rest = walk_errors fn m in elim (fn k d) [ none ↦ rest | some e ↦ e ∷ rest ]

-- RemoveFromIndex
unfoldable pub remove_from_index : Text → Oci → Oci
unfolding Dict.remove
remove_from_index ref s = record s { name_map = Dict.remove ref s.name_map }

module _ (parse_reference : Text → Option Named) where
  unfoldable pub store_entry : SaveIo → ℕ → Text → Descriptor → Oci → Option Error × Oci
  store_entry io now k d s =
      if already_stored k d s.name_map
      then (none, s)
      else save_index_checkpoint io now (record s { name_map = Dict.insert k d s.name_map })

  -- AddIndex
  unfoldable pub add_index : SaveIo → ℕ → Descriptor → Oci → Option Error × Oci
  unfolding store_entry
  add_index io now d s =
      if not (is_some (Dict.lookup ref_name_key d.annotations))
      then (some missing_ref_name, s)
      else elim (parse parse_reference (annotation ref_name_key d)) [
        | none ↦ (some bad_reference, s)
        | some key ↦ elim (entry_key key (annotation kind_key d)) [
          | none ↦ (none, s)
          | some k ↦ store_entry io now k d s
        ]
      ]

  -- Resolve
  unfoldable pub resolve : Text → Oci → (Error ⊎ Descriptor) × Oci
  resolve ref s =
      let (e, loaded) = load_index parse_reference s in
      elim e [
        | some x ↦ (inl x, loaded)
        | none ↦ elim (Dict.lookup ref loaded.name_map) [
          | none ↦ (inl (not_found ref), loaded)
          | some d ↦ (inr d, loaded)
        ]
      ]

  -- Fetcher: a nil fetcher, and no error, for a reference that the index does not hold
  unfoldable pub fetcher : Text → Oci → (Error ⊎ Bool) × Oci
  fetcher ref s =
      let (e, loaded) = load_index parse_reference s in
      elim e [
        | some x ↦ (inl x, loaded)
        | none ↦ (inr (is_some (Dict.lookup ref loaded.name_map)), loaded)
      ]

  -- Walk: the errors of the load, or those of the callback over a snapshot
  pub walk : {E : Type 0} → (Text → Descriptor → Option E) → Oci → (Error ⊎ List E) × Oci
  unfolding walk_errors
  walk fn s =
      let (e, loaded) = load_index parse_reference s in
      elim e [ some x ↦ (inl x, loaded) | none ↦ (inr (walk_errors fn loaded.name_map), loaded) ]

  -- UpdateAnnotations
  unfoldable pub update_annotations :
      SaveIo
      → ℕ
      → (Descriptor → Bool)
      → (Dict Text → Dict Text)
      → Oci
      → (Error ⊎ ℕ × Option Error) × Oci
  unfolding update_entries
  update_annotations io now match apply s =
      let (e, loaded) = load_index parse_reference s in
      let (matched, m) = update_entries match apply loaded.name_map in
      elim e [
        | some x ↦ (inl x, loaded)
        | none ↦
            if matched == 0
            then (inr (0, none), loaded)
            else (let (r, saved) = save_index io now true (record loaded { name_map = m }) in
                (inr (matched, r), saved))
      ]

  -- Push up to the blob: a manifest whose digest is the pusher's is the root, and is recorded
  pub push_root : SaveIo → ℕ → Text → Text → Descriptor → Oci → Option Error × Oci
  unfolding is_manifest_type
  push_root io now ref hash d s =
      if is_manifest_type d.media_type && not (text_eq hash []) && text_eq hash d.digest
      then (let (e, loaded) = load_index parse_reference s in
          let kind = default_kind (annotation kind_key d) in
          let key = ref ++ codes "-" ++ kind in
          elim e [
            | some x ↦ (some x, loaded)
            | none ↦
                save_index_checkpoint io now
                  (record loaded { name_map = Dict.insert key (with_kind kind d) loaded.name_map })
          ])
      else (none, s)
