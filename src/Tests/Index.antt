-- ===== src/Tests/Index.antt =====
-- The index with one image, to which another is added and from which it is removed.
use hauler.Base.{
  inl, inr, ◌≡◌, refl, ◌⊎◌, true, false, Option, none, some, [], ◌∷◌, ◌++◌, Text, codes, text_eq,
  has_prefix, select, if◌then◌else◌, contains_byte, trim_space,
}
use hauler.Base.Dict
use hauler.Base.Dict.{Dict}
use hauler.Base.Int.{pos}
use hauler.Consts.{ref_name_key, kind_key, kind_image, normalize_legacy_kind}
use hauler.Content.Descriptor.{Descriptor}
use hauler.Content.Reference.{Named, tag, parse, text_of}
use hauler.Content.Index.{
  rename_failed, dir_sync_failed, IsSynced, Oci, missing, listing, SaveIo, new_oci, entry_key,
  default_kind, ranged, values, save_index, save_index_checkpoint, load_index, load_file,
  before_rename, after_rename,
}
use hauler.Content.Index.Operations.{already_stored, add_index, resolve, remove_from_index}
use hauler.Content.Index.Canonical.{IsEntry, IsCanonical}
use hauler.Content.Index.Sorting.{IsDistinct, is_image_kind, other}
use hauler.Content.Index.Saving.{load-save, save-images_first, save-atomic}
use hauler.Content.Index.Adding.{found, resolve-add_index}
use hauler.Content.Index.Loading.{load_index-new_oci}
use hauler.Content.Index.Reloading.{load_index_again}
use hauler.Content.Index.Retrying.{add_index-after_failure}
use hauler.Store.Remove.{remove_artifact, resolve-remove_artifact}
use hauler.Command.Remove.{is_match, matches, remove_matches}
use hauler.Command.Remove.Matching.{remove_matches-lookup}

abbrev pub parse_reference : Text → Option Named
parse_reference [] = none
parse_reference (c ∷ t) = some (tag (c ∷ t) (c ∷ t))

abbrev image_named : Text → Descriptor
image_named name = record {
  media_type = [];
  digest = codes "d";
  size = pos 3;
  urls = [];
  annotations = (ref_name_key, name) ∷ (kind_key, kind_image) ∷ [];
  payload = [];
  platform = none;
  artifact_type = [];
}

abbrev pub first_key : Text
first_key = codes "h/a:1-dev.hauler/image"

abbrev pub second_key : Text
second_key = codes "h/b:1-dev.hauler/image"

abbrev pub first : Descriptor
first = image_named (codes "h/a:1")

abbrev pub second : Descriptor
second = image_named (codes "h/b:1")

pub first-IsEntry : IsEntry parse_reference first_key first
unfolding parse contains_byte text_of entry_key trim_space default_kind normalize_legacy_kind
    has_prefix text_eq Dict.lookup Dict.get_or
first-IsEntry = record {
  key = tag (codes "h/a:1") (codes "h/a:1");
  parsed = refl;
  keyed = refl;
  current = refl;
  has_kind = refl;
  has_ref = refl;
}

pub second-IsEntry : IsEntry parse_reference second_key second
unfolding parse contains_byte text_of entry_key trim_space default_kind normalize_legacy_kind
    has_prefix text_eq Dict.lookup Dict.get_or
second-IsEntry = record {
  key = tag (codes "h/b:1") (codes "h/b:1");
  parsed = refl;
  keyed = refl;
  current = refl;
  has_kind = refl;
  has_ref = refl;
}

abbrev pub one_image : Oci
one_image = record (new_oci missing) { index = some []; name_map = (first_key, first) ∷ [] }

pub one_alone : Dict.lookup {V = Descriptor} first_key [] ≡ none
unfolding Dict.lookup
one_alone = refl

abbrev pub canonical : IsCanonical parse_reference one_image.name_map
canonical = (first-IsEntry, one_alone, tt)

abbrev pub io : SaveIo
io = record {
  create = true;
  write = true;
  chmod = true;
  sync = true;
  close = true;
  rename = true;
  sync_dir = true;
}

abbrev failing : SaveIo
failing = record io { rename = false }

load-save_example :
    Dict.lookup first_key
      (load_index parse_reference (new_oci (save_index io 5 true one_image).1.file)).1.name_map
    ≡ Dict.lookup first_key one_image.name_map
unfolding before_rename
load-save_example = load-save parse_reference io 5 true one_image first_key canonical refl refl

save-images_first_example :
    (save_index io 5 true one_image).1.file
    ≡ listing (
        select is_image_kind (values (ranged one_image.name_map))
        ++ select (other is_image_kind) (values (ranged one_image.name_map)))
unfolding before_rename
save-images_first_example = save-images_first io 5 true one_image refl refl

save-atomic_example :
    ((save_index failing 5 true one_image).1.file ≡ one_image.file)
    ⊎ ((rename_failed ≡ dir_sync_failed)
        × ((save_index failing 5 true one_image).1.last_durable_save ≡ one_image.last_durable_save))
unfolding save_index before_rename
save-atomic_example = save-atomic failing 5 true one_image rename_failed refl

resolve-add_index_example :
    (resolve parse_reference first_key (add_index parse_reference io 5 second one_image).1).0
    ≡ found first_key (
        if text_eq second_key first_key
        then some second
        else Dict.lookup first_key one_image.name_map)
unfolding already_stored add_index save_index_checkpoint save_index before_rename after_rename parse
    contains_byte text_of entry_key trim_space Dict.lookup Dict.get_or text_eq
resolve-add_index_example =
    resolve-add_index parse_reference io 5 second_key second one_image first_key canonical
      second-IsEntry refl refl

resolve-remove_artifact_example :
    ((resolve parse_reference first_key
        (remove_artifact parse_reference io 5 first_key one_image).1).0
      ≡ found first_key (
          if text_eq first_key first_key
          then none
          else Dict.lookup first_key (load_index parse_reference one_image).1.name_map))
    × IsSynced (remove_artifact parse_reference io 5 first_key one_image).1
unfolding remove_artifact load_index load_file save_index before_rename after_rename
    remove_from_index
resolve-remove_artifact_example =
    resolve-remove_artifact parse_reference refl io 5 first_key one_image first_key canonical
      (inr (inl refl)) refl

remove_matches-lookup_example :
    Dict.lookup first_key
      (load_index parse_reference
        (remove_matches parse_reference io 5
          (matches (codes "h/a") (load_index parse_reference one_image).1.name_map)
          (load_index parse_reference one_image).1).1).1.name_map
    ≡ (if is_match (codes "h/a") first_key first then none else some first)
unfolding matches is_match remove_matches remove_artifact load_index load_file save_index
    before_rename after_rename remove_from_index Dict.lookup text_eq
remove_matches-lookup_example =
    remove_matches-lookup parse_reference refl io 5 (codes "h/a") one_image first_key first
      canonical (inr (inl refl)) refl refl

load_index-new_oci_example :
    IsCanonical parse_reference
      (load_index parse_reference (new_oci (listing (second ∷ first ∷ [])))).1.name_map
    × IsSynced (load_index parse_reference (new_oci (listing (second ∷ first ∷ [])))).1
load_index-new_oci_example = load_index-new_oci parse_reference refl (listing (second ∷ first ∷ []))

load_index_again_example :
    (Dict.lookup first_key
        (load_index parse_reference (load_index parse_reference one_image).1).1.name_map
      ≡ Dict.lookup first_key (load_index parse_reference one_image).1.name_map)
    × ((load_index parse_reference (load_index parse_reference one_image).1).0
        ≡ (load_index parse_reference one_image).0)
load_index_again_example = load_index_again parse_reference one_image first_key

distinct : IsDistinct second.annotations
unfolding Dict.lookup text_eq
distinct = (refl, (refl, tt))

add_index-after_failure_example :
    (add_index parse_reference io 9 second (add_index parse_reference failing 5 second one_image).1
      ≡ (none, (add_index parse_reference failing 5 second one_image).1))
    × ((add_index parse_reference failing 5 second one_image).1.file ≡ one_image.file)
unfolding already_stored before_rename Dict.lookup text_eq
add_index-after_failure_example =
    add_index-after_failure parse_reference failing io 5 9 second_key second one_image rename_failed
      second-IsEntry distinct refl refl refl
