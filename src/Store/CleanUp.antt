-- ===== src/Store/CleanUp.antt =====
-- pkg/store/store.go, CleanUp: the digests that the index still needs, and the scan of the blob
-- directory that removes the others. In this file and its children `decode` of the library record is
-- the json.Decoder that CleanUp reads a manifest with. Closing a file that was read is taken to
-- succeed, and the sizes to add up below 2 ^ 63.
pub mod Growth
pub mod Marking
pub mod Scanning
pub mod Totality
use hauler.Base.{
  ℕ, zero, suc, ◌+◌, Bool, true, false, not, ◌||◌, Option, none, some, List, [], ◌∷◌, Text, text_eq,
  if◌then◌else◌, ◌⊎◌, inl, inr,
}
use hauler.Base.Dict.{Dict}
use hauler.Content.Descriptor.{Descriptor}
use hauler.Content.Reference.{Named}
use hauler.Content.Index.{Error, Oci, load_index}
use hauler.Store.Manifest.{
  Manifest, BlobLib, Disk, blob_file, Fetched, fetch_failed, read_failed, bytes, fetch,
}

-- referencedDigests[hex]
unfoldable pub referenced : Text → List Text → Bool
referenced hex [] = false
referenced hex (x ∷ refs) = text_eq x hex || referenced hex refs

-- an os.DirEntry of the blob directory: what Info and os.Remove answer for it
pub record DirEntry : Type 0 where
  pub name : Text
  pub is_dir : Bool
  pub size : Option ℕ
  pub removable : Bool

-- deletedCount, deletedSize, the blob whose removal failed, and the directory afterwards
pub record Cleaned : Type 0 where
  pub count : ℕ
  pub size : ℕ
  pub failed : Option Text
  pub remaining : List DirEntry

abbrev pub info_size : DirEntry → ℕ
info_size e = elim e.size [ none ↦ 0 | some n ↦ n ]

-- the scan of the directory
unfoldable pub scan : List Text → List DirEntry → Cleaned
scan refs [] = record { count = 0; size = 0; failed = none; remaining = [] }
scan refs (e ∷ entries) =
    let rest = scan refs entries in
    if e.is_dir || referenced e.name refs
    then record rest { remaining = e ∷ rest.remaining }
    else if not e.removable
    then record { count = 0; size = info_size e; failed = some e.name; remaining = e ∷ entries }
    else record rest { count = suc rest.count; size = info_size e + rest.size }

pub data CleanUpError : Type 0 where
  load_failed walk_failed : Error → CleanUpError
  read_dir_failed : CleanUpError

-- the descriptor of a manifest list's entry: media type, digest and size
abbrev pub manifest_desc : Descriptor → Descriptor
manifest_desc m = record {
  media_type = m.media_type;
  digest = m.digest;
  size = m.size;
  urls = [];
  annotations = [];
  payload = [];
  platform = none;
  artifact_type = [];
}

module _ (lib : BlobLib) where
  -- the hex of each valid digest of the list
  unfoldable pub mark : List Descriptor → List Text → List Text
  mark [] refs = refs
  mark (d ∷ ds) refs =
      let rest = mark ds (if lib.valid d.digest then lib.hex d.digest ∷ refs else refs) in rest

  -- the entries of a manifest list, each with a run for the manifest
  unfoldable pub process_list :
      (Descriptor → List Text → Option (List Text))
      → List Descriptor
      → List Text
      → Option (List Text)
  process_list process [] refs = some refs
  process_list process (m ∷ ms) refs = elim (lib.valid m.digest) [
    | false ↦ process_list process ms refs
    | true ↦ elim (process (manifest_desc m) (lib.hex m.digest ∷ refs)) [
      | none ↦ none
      | some refs' ↦ process_list process ms refs'
    ]
  ]

  unfoldable pub process_fetched :
      (Descriptor → List Text → Option (List Text)) → Fetched → List Text → Option (List Text)
  process_fetched process fetch_failed refs = some refs
  process_fetched process read_failed refs = some refs
  process_fetched process (bytes content) refs = elim (lib.decode content) [
    | none ↦ some refs
    | some m ↦ process_list process m.manifests (mark (m.config ∷ m.layers) refs)
  ]

  module _ (disk : Disk) where
    -- processManifest, on fuel for the depth of manifest lists
    unfoldable pub process_manifest : ℕ → Descriptor → List Text → Option (List Text)
    process_manifest zero d refs = none
    process_manifest (suc fuel) d refs = elim (lib.valid d.digest) [
      | false ↦ some refs
      | true ↦
          process_fetched (process_manifest fuel) (fetch (blob_file lib disk d.digest))
            (lib.hex d.digest ∷ refs)
    ]

    -- the walk through the artifacts of the index
    unfoldable pub process_index : ℕ → Dict Descriptor → List Text → Option (List Text)
    process_index fuel [] refs = some refs
    process_index fuel ((k, d) ∷ m) refs = elim (process_manifest fuel d refs) [
      | none ↦ none
      | some refs' ↦ process_index fuel m refs'
    ]

    -- the marks and the scan of the directory, which is `none` when it cannot be read
    unfoldable pub sweep :
        ℕ → Option (List DirEntry) → Dict Descriptor → Option (CleanUpError ⊎ Cleaned)
    sweep fuel directory m = elim (process_index fuel m []) [
      | none ↦ none
      | some refs ↦ elim directory [
        | none ↦ some (inl read_dir_failed)
        | some entries ↦ some (inr (scan refs entries))
      ]
    ]

    -- CleanUp: the load, the load of the walk, and the sweep
    unfoldable pub clean_up :
        (Text → Option Named)
        → ℕ
        → Option (List DirEntry)
        → Oci
        → Option (CleanUpError ⊎ Cleaned) × Oci
    clean_up parse_reference fuel directory s =
        let (e, s1) = load_index parse_reference s in
        let (e_walk, s2) = load_index parse_reference s1 in
        elim e [
          | some x ↦ (some (inl (load_failed x)), s1)
          | none ↦ elim e_walk [
            | some x ↦ (some (inl (walk_failed x)), s2)
            | none ↦ (sweep fuel directory s2.name_map, s2)
          ]
        ]
