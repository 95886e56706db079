-- ===== src/Content/Index.antt =====
-- pkg/content/oci.go, the index: the in-memory name map, index.json on disk, and the operations
-- between them. Each call is one critical section of `o.mu`.
pub mod Operations
pub mod Retrying
pub mod Reloading
pub mod Loading
pub mod Adding
pub mod Entries
pub mod Saving
pub mod Sorting
pub mod Canonical
use hauler.Base.{
  ◌≡◌, ◌⊎◌, ℕ, suc, ◌-◌, ◌*◌, ◌^◌, leb, Bool, true, false, not, ◌&&◌, ◌||◌, Option, none, some,
  List, [], ◌∷◌, ◌++◌, map, Text, codes, text_eq, has_prefix, trim_space, is_some, if◌then◌else◌,
}
use hauler.Base.Dict
use hauler.Base.Dict.{Dict}
use hauler.Consts.{ref_name_key, kind_key, kind_image, normalize_legacy_kind}
use hauler.Content.Descriptor.{Descriptor, annotation, descriptors_equal}
use hauler.Content.Reference.{Named, tag, digest, text_of, parse}

-- Go's `error`: `none` is nil. `nil_index` is the panic on a nil `o.index`.
pub data Error : Type 0 where
  open_failed decode_failed missing_ref_name bad_reference nil_index : Error
  create_failed write_failed chmod_failed sync_failed close_failed rename_failed dir_sync_failed :
      Error
  not_found : Text → Error

-- What stands at index.json: nothing, a file that cannot be opened, one that does not decode, or
-- the manifests of the index.
pub data IndexFile : Type 0 where
  missing unreadable malformed : IndexFile
  listing : List Descriptor → IndexFile

pub record Oci : Type 0 where
  pub index : Option (List Descriptor)
  pub name_map : Dict Descriptor
  pub file : IndexFile
  pub last_durable_save : ℕ
  pub index_writes : ℕ
  pub index_durable_writes : ℕ

-- The answers of the file system to one save, `true` for success.
pub record SaveIo : Type 0 where
  pub create : Bool
  pub write : Bool
  pub chmod : Bool
  pub sync : Bool
  pub close : Bool
  pub rename : Bool
  pub sync_dir : Bool

-- 30 * time.Second, in nanoseconds
abbrev pub checkpoint_interval : ℕ
checkpoint_interval = 30 * 10 ^ 9

-- NewOCI
abbrev pub new_oci : IndexFile → Oci
new_oci f = record {
  index = none;
  name_map = [];
  file = f;
  last_durable_save = 0;
  index_writes = 0;
  index_durable_writes = 0;
}

-- The name map's key of a parsed reference and a kind, if the entry has one.
unfoldable pub entry_key : Named → Text → Option Text
unfolding text_of trim_space
entry_key (tag context text) kind =
    if text_eq (trim_space text) (codes "--") then none else some (text ++ codes "-" ++ kind)
entry_key (digest context text) kind =
    if text_eq (trim_space text) (codes "--") then none else some (context ++ codes "-" ++ kind)

-- The kind that the index is read with: legacy values translated, the empty one an image.
unfoldable pub default_kind : Text → Text
default_kind kind =
    let normal = normalize_legacy_kind kind in if text_eq normal [] then kind_image else normal

-- The descriptor with its kind annotation set, in a copy of its annotations.
pub with_kind : Text → Descriptor → Descriptor
unfolding Dict.insert
with_kind kind d = record d { annotations = Dict.insert kind_key kind d.annotations }

pub normalized : Descriptor → Descriptor
unfolding default_kind with_kind Dict.get_or
normalized d = with_kind (default_kind (annotation kind_key d)) d

-- `n := d.Annotations[ref]; d.Annotations[ref] = n`
pub with_ref_name : Descriptor → Descriptor
unfolding Dict.get_or Dict.insert
with_ref_name d = record d {
  annotations = Dict.insert ref_name_key (annotation ref_name_key d) d.annotations;
}

-- o.nameMap.Range of a save writes each descriptor's shared annotation map.
pub ranged : Dict Descriptor → Dict Descriptor
unfolding with_ref_name
ranged [] = []
ranged ((k, d) ∷ m) = (k, with_ref_name d) ∷ ranged m

abbrev pub values {ℓ} : {V : Type ℓ} → Dict V → List V
values [] = []
values ((k, d) ∷ m) = d ∷ values m

-- descs[i] must stand before descs[j]
pub sorts_before : Descriptor → Descriptor → Bool
unfolding Dict.get_or has_prefix
sorts_before a b =
    has_prefix (annotation kind_key a) kind_image
    && not (has_prefix (annotation kind_key b) kind_image)

-- sort.SliceStable: an element passes only those that it must stand before.
module _ {A : Type 0} (less : A → A → Bool) where
  unfoldable pub insert_stable : A → List A → List A
  insert_stable a [] = a ∷ []
  insert_stable a (b ∷ l) = if less b a then b ∷ insert_stable a l else a ∷ b ∷ l

  unfoldable pub sort_stable : List A → List A
  unfolding insert_stable
  sort_stable [] = []
  sort_stable (a ∷ l) = insert_stable a (sort_stable l)

-- The first step before the rename that fails.
unfoldable pub before_rename : SaveIo → Bool → Option Error
before_rename io durable =
    if not io.create
    then some create_failed
    else if not io.write
    then some write_failed
    else if not io.chmod
    then some chmod_failed
    else if durable && not io.sync
    then some sync_failed
    else if not io.close
    then some close_failed
    else if not io.rename
    then some rename_failed
    else none

-- The counters, and the directory's fsync of a durable save.
unfoldable pub after_rename : SaveIo → ℕ → Bool → Oci → Option Error × Oci
after_rename io now durable s =
    let renamed = record s { index_writes = suc s.index_writes } in
    if not durable
    then (none, renamed)
    else if not io.sync_dir
    then (some dir_sync_failed, renamed)
    else (
      none,
      record renamed { last_durable_save = now; index_durable_writes = suc s.index_durable_writes },
    )

-- saveIndexLocked
unfoldable pub save_index : SaveIo → ℕ → Bool → Oci → Option Error × Oci
unfolding ranged sorts_before sort_stable before_rename after_rename
save_index io now durable s =
    let m = ranged s.name_map in
    let descs = sort_stable sorts_before (values m) in
    if not (is_some s.index)
    then (some nil_index, record s { name_map = m })
    else elim (before_rename io durable) [
      | some e ↦ (some e, record s { name_map = m; index = some descs })
      | none ↦
          after_rename io now durable
            (record s { name_map = m; index = some descs; file = listing descs })
    ]

-- saveIndexCheckpointLocked
unfoldable pub save_index_checkpoint : SaveIo → ℕ → Oci → Option Error × Oci
save_index_checkpoint io now s =
    save_index io now (leb checkpoint_interval (now - s.last_durable_save)) s

-- json.Decode writes into the index that the process has of an earlier load or save, whose annotation
-- maps the name map may share. It does what it does to a new index, as `load_file` has it, where the
-- process has no index yet, or has what index.json holds, or there is no file.
abbrev pub IsSynced : Oci → Type 0
IsSynced s =
    (s.index ≡ none)
    ⊎ (s.file ≡ missing)
    ⊎ ((ds : List Descriptor) × (s.index ≡ some ds) × (s.file ≡ listing ds))

module _ (parse_reference : Text → Option Named) where
  -- One entry of the index, stored under its key if its reference parses.
  pub load_entry : Dict Descriptor → Descriptor → Dict Descriptor
  load_entry m d = elim (parse parse_reference (annotation ref_name_key d)) [
    | none ↦ m
    | some key ↦ elim (entry_key key (default_kind (annotation kind_key d))) [
      | none ↦ m
      | some k ↦ Dict.insert k (normalized d) m
    ]
  ]

  pub load_entries : Dict Descriptor → List Descriptor → Dict Descriptor
  load_entries m [] = m
  load_entries m (d ∷ ds) = load_entries (load_entry m d) ds

  -- for a state that is synced: what a failed save left in memory is not merged
  unfoldable pub load_file : IndexFile → Oci → Option Error × Oci
  load_file missing s = (none, record s { index = some [] })
  load_file unreadable s = (some open_failed, s)
  load_file malformed s = (some decode_failed, s)
  load_file (listing ds) s =
      (none, record s { index = some ds; name_map = load_entries s.name_map ds })

  -- loadIndexLocked
  unfoldable pub load_index : Oci → Option Error × Oci
  unfolding load_file
  load_index s = load_file s.file s
